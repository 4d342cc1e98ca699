-- ===== src/Semaphore.antt =====
-- semaphore.c, `dispatch_semaphore_t`: the atomic accesses of create, dispose, wait and signal, one
-- thread step for each, over the kernel semaphore of `Semaphore.Kernel`.
-- `dsema_value` is an intptr_t of 64 bits, kept as its bit pattern.
pub mod Kernel
pub mod Balance
pub mod Alone
pub mod Disposal
pub mod Examples
use book.Base.{
  ℕ, ◌+◌, ◌^◌, ◌≡◌, Bool, true, false, Option, none, some, List, ◌==◌, lt_signed, if◌then◌else◌,
  add64, sub64, is_neg64, is_pos64, get_elem?, set,
}
use Kernel.{Sema4}

-- The `timeout` argument: DISPATCH_TIME_NOW, DISPATCH_TIME_FOREVER, or any other time.
pub data Timeout : Type 0 where
  now forever : Timeout
  deadline : Timeout

-- Where a thread stands inside `dispatch_semaphore_wait` or `dispatch_semaphore_signal`, with the
-- locals that are live there.
pub data Pc : Type 0 where
  idle : Pc
  slow : Timeout → Pc  -- entry of _dispatch_semaphore_wait_slow
  timed_out : Pc  -- before the load of `orig`
  undo : (orig : ℕ) → Pc  -- the `while (orig < 0)` loop
  parked : Pc  -- in _dispatch_sema4_wait
  posting : Pc  -- in _dispatch_semaphore_signal_slow

-- What an idle thread calls, and how a timed wait ends.
pub data Choice : Type 0 where
  call_wait : Timeout → Choice
  call_signal : Choice
  granted expired : Choice

module _ (k : Sema4) where
  open k use {State, created, post, take, count}

  -- `acquired` and `signals` are history: the waits that returned 0 and the signals made so far.
  pub record Memory : Type 0 where
    pub value : ℕ
    pub orig : ℕ
    pub sema : State
    pub acquired : ℕ
    pub signals : ℕ

  pub data Outcome : Type 0 where
    next : Memory → Pc → Outcome
    crash : Outcome  -- DISPATCH_CLIENT_CRASH
    blocked : Outcome

module _ {k : Sema4} where
  open k use {State, created, post, take, count}

  -- dispatch_semaphore_create: DISPATCH_BAD_INPUT on a negative value.
  pub create : ℕ → Option (Memory k)
  create value =
      if is_neg64 value
      then none
      else some (record { value = value; orig = value; sema = created; acquired = 0; signals = 0 })

  -- _dispatch_semaphore_dispose: does it pass its check?
  pub may_dispose : Memory k → Bool
  may_dispose m = if lt_signed m.value m.orig then false else true

  -- The fast path of dispatch_semaphore_wait.
  pub wait : Timeout → Memory k → Outcome k
  wait timeout m =
      let value = sub64 m.value 1 in
      if is_neg64 value
      then next (record m { value = value }) (slow timeout)
      else next (record m { value = value; acquired = m.acquired + 1 }) idle

  -- The fast path of dispatch_semaphore_signal.
  pub signal : Memory k → Outcome k
  signal m =
      let value = add64 m.value 1 in
      let m' = record m { value = value; signals = m.signals + 1 } in
      if is_pos64 value then next m' idle else if value == 2 ^ 63 then crash else next m' posting

  -- _dispatch_sema4_wait, and _dispatch_sema4_timedwait where it does not time out.
  pub take_sema : Memory k → Outcome k
  take_sema m = elim (take m.sema) [
    | none ↦ blocked
    | some rest ↦ next (record m { sema = rest; acquired = m.acquired + 1 }) idle
  ]

  -- The switch of _dispatch_semaphore_wait_slow.
  pub wait_slow : Timeout → Choice → Memory k → Outcome k
  unfolding take_sema
  wait_slow now c m = next m timed_out
  wait_slow forever c m = next m parked
  wait_slow deadline granted m = take_sema m
  wait_slow deadline expired m = next m timed_out
  wait_slow deadline c m = blocked

  -- One round of the loop that undoes the fast path: the compare-and-exchange, or the way out.
  pub undo_round : ℕ → Memory k → Outcome k
  undo_round orig m =
      if is_neg64 orig
      then if m.value == orig
        then next (record m { value = add64 orig 1 }) idle
        else next m (undo m.value)
      else next m parked

  -- The next step of a thread at a program point.
  pub advance : Choice → Pc → Memory k → Outcome k
  unfolding wait signal wait_slow undo_round take_sema
  advance (call_wait timeout) idle m = wait timeout m
  advance call_signal idle m = signal m
  advance c idle m = blocked
  advance c (slow timeout) m = wait_slow timeout c m
  advance c timed_out m = next m (undo m.value)
  advance c (undo orig) m = undo_round orig m
  advance c parked m = take_sema m
  advance c posting m = next (record m { sema = post m.sema }) idle

-- Threads interleave at these steps, in any order.
module _ (k : Sema4) where
  pub record System : Type 0 where
    pub mem : Memory k
    pub threads : List Pc

  pub data Step (s : System) : System → Type 0 where
    run :
        (i : ℕ) (c : Choice) (pc pc' : Pc) (m : Memory k)
        → get_elem? s.threads i ≡ some pc
        → advance c pc s.mem ≡ next m pc'
        → Step s (record { mem = m; threads = set s.threads i pc' })

  pub data Reach (s : System) : System → Type 0 where
    here : Reach s s
    later : {t u : System} → Reach s t → Step t u → Reach s u
