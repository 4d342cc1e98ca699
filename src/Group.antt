-- ===== src/Group.antt =====
-- semaphore.c, `dispatch_group_t`: the shared accesses of enter, leave, wait, notify and wake, one
-- thread step for each. An os_atomic_rmw_loop takes effect at its successful exchange, so it is one
-- step; the loop of dispatch_group_leave starts from a local copy, so it is many.
-- The os_mpsc list of notifications is its contents, in the order of the exchanges of its tail.
-- The threads that sleep in _dispatch_wait_on_address on `dg_gen` are those at `parked`.
pub mod Word
pub mod Counting
pub mod Notices
pub mod References
pub mod Settling
pub mod Waiters
pub mod Invariant
pub mod Safety
pub mod Lifecycle
pub mod Examples
use book.Base.{
  ℕ, zero, suc, ◌+◌, ◌-◌, ◌≡◌, Bool, true, false, Option, none, some, List, [], ◌∷◌, ◌++◌, map,
  ◌==◌, if◌then◌else◌, get_elem?, set, length, add64,
}
use Word.{
  value_interval, value_1, value_max, dg_bits, dg_gen, masked_value, has_waiters, has_notifs,
  set_waiters, set_notifs, enter_word, leave_word, settled_word,
}

pub data Timeout : Type 0 where
  now : Timeout
  later : Timeout

pub data Pc : Type 0 where
  idle : Pc
  enter_retain : Pc  -- dispatch_group_enter, before _dispatch_retain
  leave_loop : (old : ℕ) → Pc  -- the do-while of dispatch_group_leave
  wake_notifs : (dg_state refs : ℕ) → Pc  -- the entry of _dispatch_group_wake
  wake_waiters : (dg_state refs : ℕ) → Pc
  release : (refs : ℕ) → Pc
  compare : (gen : ℕ) → Pc  -- the loop of _dispatch_group_wait_slow, calling wait_on_address
  parked : (gen : ℕ) → Pc
  check : (gen : ℕ) → (timed_out : Bool) → Pc  -- after wait_on_address
  waited : (emptied : Bool) → Pc  -- dispatch_group_wait returns 0, or that it timed out
  notify_retain : Pc  -- _dispatch_group_notify, the list was empty
  notify_flag : Pc

pub data Choice : Type 0 where
  call_enter call_leave : Choice
  call_wait : Timeout → Choice
  call_notify : (continuation : ℕ) → Choice
  proceed : Choice
  time_out : Choice  -- the kernel's wait ends at its deadline
  spurious : Choice  -- or for no reason

-- `retains` and `releases` count the references to the group that the code takes and gives back,
-- `queue_retains` and `queue_releases` those to the target queues. `submitted` is what was handed to
-- _dispatch_continuation_async. `pushed`, `outstanding` and `cycles` are history: the
-- notifications asked for, the enters not yet left, and how often the last one was.
pub record Memory : Type 0 where
  pub state : ℕ
  pub notify : List ℕ
  pub submitted : List ℕ
  pub retains : ℕ
  pub releases : ℕ
  pub queue_retains : ℕ
  pub queue_releases : ℕ
  pub pushed : List ℕ
  pub outstanding : ℕ
  pub cycles : ℕ

pub data Outcome : Type 0 where
  next : Memory → Pc → Outcome
  wake_all : Memory → Pc → Outcome  -- _dispatch_wake_by_address
  crash : Outcome
  blocked : Outcome

unfoldable pub enter : Memory → Outcome
unfolding enter_word
enter m =
    let old_value = masked_value m.state in
    let m' = record m { state = enter_word m.state; outstanding = m.outstanding + 1 } in
    if old_value == 0
    then next m' enter_retain
    else if old_value == value_max
    then crash
    else next m' idle

unfoldable pub leave : Memory → Outcome
unfolding leave_word
leave m =
    let old_value = masked_value m.state in
    let m' = record m { state = leave_word m.state; outstanding = m.outstanding - 1 } in
    if old_value == value_1
    then next (record m' { cycles = m.cycles + 1 }) (leave_loop (add64 m.state value_interval))
    else if old_value == 0
    then crash
    else next m' idle

-- One round of the do-while: out, the compare-and-exchange, or again with what it observed.
unfoldable pub leave_round : ℕ → Memory → Outcome
unfolding settled_word
leave_round old m =
    let new = settled_word old in
    if old == new
    then next m (wake_notifs old 1)
    else if m.state == old
    then next (record m { state = new }) (wake_notifs old 1)
    else next m (leave_loop m.state)

-- dispatch_group_wait.
unfoldable pub wait : Timeout → Memory → Outcome
wait now m = next m (waited (masked_value m.state == 0))
wait later m =
    if masked_value m.state == 0
    then next m (waited true)
    else next (record m { state = set_waiters m.state }) (compare (dg_gen m.state))

-- _dispatch_group_notify up to the push on the list.
unfoldable pub notify_push : ℕ → Memory → Outcome
notify_push continuation m =
    let m' = record m {
      notify = m.notify ++ continuation ∷ [];
      queue_retains = m.queue_retains + 1;
      pushed = m.pushed ++ continuation ∷ [];
    } in
    elim m.notify [ [] ↦ next m' notify_retain | x ∷ xs ↦ next m' idle ]

unfoldable pub flag_notifs : Memory → Outcome
flag_notifs m =
    if dg_bits m.state == 0
    then next m (wake_notifs (set_notifs m.state) 0)
    else next (record m { state = set_notifs m.state }) idle

-- _dispatch_group_wake: the snapshot of the list is submitted in order, each queue is released.
unfoldable pub submit_notifs : ℕ → ℕ → Memory → Outcome
submit_notifs dg_state refs m =
    if has_notifs dg_state
    then next
        (record m {
          notify = [];
          submitted = m.submitted ++ m.notify;
          queue_releases = m.queue_releases + length m.notify;
        })
        (wake_waiters dg_state (refs + 1))
    else next m (wake_waiters dg_state refs)

unfoldable pub advance : Choice → Pc → Memory → Outcome
unfolding enter leave leave_round wait notify_push flag_notifs submit_notifs
advance call_enter idle m = enter m
advance call_leave idle m = leave m
advance (call_wait timeout) idle m = wait timeout m
advance (call_notify continuation) idle m = notify_push continuation m
advance c idle m = blocked
advance c enter_retain m = next (record m { retains = m.retains + 1 }) idle
advance c (leave_loop old) m = leave_round old m
advance c (wake_notifs dg_state refs) m = submit_notifs dg_state refs m
advance c (wake_waiters dg_state refs) m =
    if has_waiters dg_state then wake_all m (release refs) else next m (release refs)
advance c (release refs) m = next (record m { releases = m.releases + refs }) idle
advance time_out (compare gen) m = next m (check gen true)
advance c (compare gen) m =
    if dg_gen m.state == gen then next m (parked gen) else next m (check gen false)
advance time_out (parked gen) m = next m (check gen true)
advance spurious (parked gen) m = next m (check gen false)
advance c (parked gen) m = blocked
advance c (check gen timed_out) m =
    if dg_gen m.state == gen
    then (if timed_out then next m (waited false) else next m (compare gen))
    else next m (waited true)
advance c (waited emptied) m = next m idle
advance c notify_retain m = next (record m { retains = m.retains + 1 }) notify_flag
advance c notify_flag m = flag_notifs m

-- What holds of the memory and the program point that a step leaves, if it goes on.
abbrev pub After : (Memory → Pc → Type 0) → Outcome → Type 0
After P (next m pc) = P m pc
After P (wake_all m pc) = P m pc
After P crash = Unit
After P blocked = Unit

-- The kernel wakes every thread that sleeps on the generation.
unfoldable pub unpark : Pc → Pc
unpark (parked gen) = check gen false
unpark pc = pc

pub record System : Type 0 where
  pub mem : Memory
  pub threads : List Pc

pub data Step (s : System) : System → Type 0 where
  run :
      (i : ℕ) (c : Choice) (pc pc' : Pc) (m : Memory)
      → get_elem? s.threads i ≡ some pc
      → advance c pc s.mem ≡ next m pc'
      → Step s (record { mem = m; threads = set s.threads i pc' })
  wake :
      (i : ℕ) (c : Choice) (pc pc' : Pc) (m : Memory)
      → get_elem? s.threads i ≡ some pc
      → advance c pc s.mem ≡ wake_all m pc'
      → Step s (record { mem = m; threads = set (map unpark s.threads) i pc' })

abbrev pub all_idle : ℕ → List Pc
all_idle zero = []
all_idle (suc n) = idle ∷ all_idle n

-- dispatch_group_create: everything is zero, and the threads are outside.
abbrev pub created : ℕ → System
created n = record {
  mem = record {
    state = 0;
    notify = [];
    submitted = [];
    retains = 0;
    releases = 0;
    queue_retains = 0;
    queue_releases = 0;
    pushed = [];
    outstanding = 0;
    cycles = 0;
  };
  threads = all_idle n;
}

pub data Reach (n : ℕ) : System → Type 0 where
  start : Reach n (created n)
  step : {s t : System} → Reach n s → Step s t → Reach n t
