-- ===== src/Unfair.antt =====
-- shims/lock.h and shims/lock.c: the unfair lock, one atomic access after another, by threads that
-- interleave in any way, where the kernel has unfair locks (HAVE_UL_UNFAIR_LOCK). Accesses take effect
-- in one order. The kernel's calls are what they are documented to do: a wait sleeps only on the value
-- that it was given, a wake wakes one thread that sleeps, if there is one, and the call of that thread
-- returns ENOTEMPTY where others still sleep.
use book.Base.{
  ℕ, ◌-◌, ◌≡◌, Bool, some, List, [], ◌∷◌, ◌==◌, if◌then◌else◌, get_elem?, set, total, ltb,
}
pub mod Weights
pub mod Moves
pub mod Locking
pub mod Unlocking
pub mod Invariant
pub mod Safety
mod Examples
use book.Lock.{
  lock_value_from_tid, is_locked, is_locked_by, has_waiters, set_waiters, has_failed_trylock,
  set_failed_trylock,
}

pub data Pc : Type 0 where
  outside : Pc
  slow : (next_value : ℕ) → Pc  -- the loop of _dispatch_unfair_lock_lock_slow, with its `next`
  wait : (value next_value : ℕ) → Pc  -- calling _dispatch_unfair_lock_wait
  parked : (next_value : ℕ) → Pc
  holding : Pc
  unlock_slow : (cur : ℕ) → Pc  -- _dispatch_unfair_lock_unlock_slow
  waking : Pc  -- _dispatch_unfair_lock_wake

pub data Choice : Type 0 where
  call_lock : Choice
  call_trylock : Choice
  call_unlock : Choice
  call_tryunlock : Choice
  proceed : Choice
  spurious : Choice  -- the kernel's wait ends for no reason

pub data Outcome : Type 0 where
  next : ℕ → Pc → Outcome
  wake_one : ℕ → Pc → Outcome
  crash : Outcome
  blocked : Outcome

-- _dispatch_unfair_lock_lock
unfoldable pub lock : ℕ → ℕ → Outcome
lock self word = if word == 0 then next self holding else next word (slow self)

-- One round of _dispatch_unfair_lock_lock_slow up to the kernel's wait.
unfoldable pub lock_slow : ℕ → ℕ → ℕ → Outcome
lock_slow self next_value word =
    let new_value = if is_locked word then set_waiters word else next_value in
    if is_locked_by word self
    then crash
    else if new_value == next_value
    then next new_value holding
    else next new_value (wait new_value next_value)

-- _dispatch_unfair_lock_trylock
unfoldable pub trylock : ℕ → ℕ → Outcome
trylock self word =
    if is_locked word then next (set_failed_trylock word) outside else next self holding

-- _dispatch_unfair_lock_unlock_had_failed_trylock
unfoldable pub unlock : ℕ → ℕ → Outcome
unlock self word = if word == self then next 0 outside else next 0 (unlock_slow word)

-- _dispatch_unfair_lock_tryunlock, which fails after a trylock has failed.
unfoldable pub tryunlock : ℕ → Outcome
tryunlock word =
    if has_failed_trylock word
    then (let new_value = word - 2 in
        if new_value == 0 then next new_value outside else next new_value holding)
    else if has_waiters word
    then next 0 (unlock_slow word)
    else next 0 outside

unfoldable pub unlock_slow_path : ℕ → ℕ → ℕ → Outcome
unlock_slow_path self cur word =
    if is_locked_by cur self
    then if has_waiters cur then next word waking else next word outside
    else crash

-- One access of the thread whose lock value is `self`.
unfoldable pub advance : Choice → ℕ → Pc → ℕ → Outcome
advance call_lock self outside word = lock self word
advance call_trylock self outside word = trylock self word
advance call_unlock self holding word = unlock self word
advance call_tryunlock self holding word = tryunlock word
advance proceed self (slow next_value) word = lock_slow self next_value word
advance proceed self (wait value next_value) word =
    if word == value then next word (parked next_value) else next word (slow next_value)
advance proceed self (unlock_slow cur) word = unlock_slow_path self cur word
advance proceed self waking word = wake_one word outside
advance spurious self (parked next_value) word = next word (slow next_value)
advance c self pc word = blocked

pub record Thread : Type 0 where
  pub tid : ℕ
  pub pc : Pc

unfoldable pub asleep : Thread → ℕ
asleep t = elim t.pc [ parked next_value ↦ 1 | _ ↦ 0 ]

-- A thread that the kernel wakes, by whether others still sleep: `next |= DLOCK_WAITERS_BIT`.
unfoldable pub awoken : Bool → Thread → Thread
awoken more t = elim t.pc [
  | parked next_value ↦ record t { pc = slow (if more then set_waiters next_value else next_value) }
  | _ ↦ t
]

pub record System : Type 0 where
  pub word : ℕ
  pub threads : List Thread

pub data Step (s : System) : System → Type 0 where
  run :
      (i : ℕ) (c : Choice) (t : Thread) (pc' : Pc) (word : ℕ)
      → get_elem? s.threads i ≡ some t
      → advance c (lock_value_from_tid t.tid) t.pc s.word ≡ next word pc'
      → Step s (record { word = word; threads = set s.threads i (record t { pc = pc' }) })
  -- The kernel wakes thread j.
  wake :
      (i j : ℕ) (c : Choice) (t u : Thread) (pc' : Pc) (word : ℕ)
      → get_elem? s.threads i ≡ some t
      → advance c (lock_value_from_tid t.tid) t.pc s.word ≡ wake_one word pc'
      → get_elem? (set s.threads i (record t { pc = pc' })) j ≡ some u
      → asleep u ≡ 1
      → Step s (record {
        word = word;
        threads =
            set
              (set s.threads i (record t { pc = pc' }))
              j
              (awoken (ltb 1 (total asleep s.threads)) u);
      })
  -- Nobody sleeps.
  wake_none :
      (i : ℕ) (c : Choice) (t : Thread) (pc' : Pc) (word : ℕ)
      → get_elem? s.threads i ≡ some t
      → advance c (lock_value_from_tid t.tid) t.pc s.word ≡ wake_one word pc'
      → total asleep s.threads ≡ 0
      → Step s (record { word = word; threads = set s.threads i (record t { pc = pc' }) })

abbrev pub all_outside : List ℕ → List Thread
all_outside [] = []
all_outside (tid ∷ tids) = record { tid = tid; pc = outside } ∷ all_outside tids

-- Any interleaving of the threads.
pub data Reach (tids : List ℕ) : System → Type 0 where
  start : Reach tids (record { word = 0; threads = all_outside tids })
  step : {s s' : System} → Reach tids s → Step s s' → Reach tids s'
