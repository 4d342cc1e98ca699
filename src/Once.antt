-- ===== src/Once.antt =====
-- once.c, with the gate of shims/lock.h and shims/lock.c: dispatch_once_f, one atomic access after
-- another, by threads that interleave in any way. With `quiescent`, the gate is first marked by the
-- count of context switches (DISPATCH_ONCE_USE_QUIESCENT_COUNTER), and done later. Accesses take
-- effect in one order. The threads that sleep in the kernel on the gate's word are those at `parked`.
-- Here the function returns, without a call of dispatch_once on its own gate: Once/Recursion adds that.
use book.Base.{
  ℕ, ◌+◌, ◌-◌, ◌*◌, ◌%◌, ◌^◌, ◌≡◌, Bool, some, List, [], ◌∷◌, map, ◌==◌, ◌&&◌, leb, if◌then◌else◌,
  get_elem?, set, sub64,
}
pub mod Weights
pub mod Moves
pub mod Phases
pub mod Accesses
pub mod Sleeping
pub mod Advancing
pub mod Invariant
pub mod Runs
pub mod Settling
pub mod Returning
pub mod Waking
pub mod Safety
pub mod Crashes
pub mod Recursion
mod Examples
use book.Lock.{lock_value_from_tid, is_locked_by, set_waiters}

-- DLOCK_ONCE_UNLOCKED and DLOCK_ONCE_DONE
abbrev pub once_unlocked : ℕ
once_unlocked = 0

abbrev pub once_done : ℕ
once_done = 2 ^ 64 - 1

-- DISPATCH_ONCE_MAKE_GEN, DISPATCH_ONCE_IS_GEN, DISPATCH_ONCE_GEN_SAFE_DELTA
abbrev pub make_gen : ℕ → ℕ
make_gen gen = (gen * 4 + 2) % 2 ^ 64

abbrev pub is_gen : ℕ → Bool
is_gen gen = gen % 4 == 2

abbrev pub gen_safe_delta : ℕ
gen_safe_delta = 16

-- `once` is `dgo_once`, `counter` the kernel's quiescent counter. `runs` and `finished` are history:
-- how often the function was called, and how often it returned.
pub record Memory : Type 0 where
  pub once : ℕ
  pub counter : ℕ
  pub runs : ℕ
  pub finished : ℕ

pub data Pc : Type 0 where
  idle : Pc
  trying : Pc  -- dispatch_once_f, before _dispatch_once_gate_tryenter
  callout : Pc  -- _dispatch_once_callout, before the function is called
  inside : Pc  -- in the function; Once/Recursion has its calls of dispatch_once on this gate
  broadcast : Pc  -- _dispatch_once_gate_broadcast
  broadcast_slow : (cur : ℕ) → Pc  -- _dispatch_gate_broadcast_slow
  waiting : Pc  -- the loop of _dispatch_once_wait
  sleep : (value : ℕ) → Pc  -- calling the kernel's wait
  parked : (value : ℕ) → Pc
  quiescing : (gen : ℕ) → Pc  -- _dispatch_once_mark_done_if_quiesced
  mark_done : Pc
  returned : Pc

pub data Choice : Type 0 where
  proceed : Choice
  spurious : Choice  -- the kernel's wait ends for no reason

pub data Outcome : Type 0 where
  next : Memory → Pc → Outcome
  wake_all : Memory → Pc → Outcome
  crash : Outcome
  blocked : Outcome

module _ (quiescent : Bool) where
  -- The entry of dispatch_once_f.
  unfoldable pub load : Memory → Outcome
  load m =
      let v = m.once in
      if v == once_done
      then next m returned
      else if quiescent && is_gen v
      then next m (quiescing v)
      else next m trying

  -- _dispatch_once_mark_done, _dispatch_once_mark_quiescing: the word that is exchanged in.
  abbrev pub new_once : Memory → ℕ
  new_once m = if quiescent then make_gen m.counter else once_done

  -- _dispatch_once_gate_broadcast; `self` is _dispatch_lock_value_for_self.
  unfoldable pub gate_broadcast : ℕ → Memory → Outcome
  gate_broadcast self m =
      let v = m.once in
      let m' = record m { once = new_once m } in
      if v % 2 ^ 32 == self then next m' returned else next m' (broadcast_slow (v % 2 ^ 32))

  -- One round of the loop of _dispatch_once_wait up to the kernel's wait.
  unfoldable pub wait_round : ℕ → Memory → Outcome
  wait_round self m =
      let old_v = m.once in
      let new_v = set_waiters old_v in
      if old_v == once_done
      then next m returned
      else if quiescent && is_gen old_v
      then next m (quiescing old_v)
      else if is_locked_by (old_v % 2 ^ 32) self
      then crash
      else next (record m { once = new_v }) (sleep (new_v % 2 ^ 32))

-- _dispatch_once_gate_tryenter
unfoldable pub gate_tryenter : ℕ → Memory → Outcome
gate_tryenter self m =
    if m.once == once_unlocked then next (record m { once = self }) callout else next m waiting

-- The kernel compares the low half of the word, at the gate's address, before the thread sleeps.
unfoldable pub lock_wait : ℕ → Memory → Outcome
lock_wait value m = if m.once % 2 ^ 32 == value then next m (parked value) else next m waiting

-- The test of _dispatch_once_mark_done_if_quiesced.
unfoldable pub mark_if_quiesced : ℕ → Memory → Outcome
mark_if_quiesced gen m =
    if leb gen_safe_delta (sub64 (make_gen m.counter) gen)
    then next m mark_done
    else next m returned

-- _dispatch_gate_broadcast_slow
unfoldable pub gate_broadcast_slow : ℕ → ℕ → Memory → Outcome
gate_broadcast_slow self cur m = if is_locked_by cur self then wake_all m returned else crash

-- One access of the thread whose lock value is `self`.
unfoldable pub advance : Bool → Choice → ℕ → Pc → Memory → Outcome
unfolding load gate_tryenter gate_broadcast gate_broadcast_slow wait_round lock_wait
    mark_if_quiesced
advance q spurious self (parked value) m = next m waiting
advance q spurious self pc m = blocked
advance q proceed self idle m = load q m
advance q proceed self trying m = gate_tryenter self m
advance q proceed self callout m = next (record m { runs = m.runs + 1 }) inside
advance q proceed self inside m = next (record m { finished = m.finished + 1 }) broadcast
advance q proceed self broadcast m = gate_broadcast q self m
advance q proceed self (broadcast_slow cur) m = gate_broadcast_slow self cur m
advance q proceed self waiting m = wait_round q self m
advance q proceed self (sleep value) m = lock_wait value m
advance q proceed self (parked value) m = blocked
advance q proceed self (quiescing gen) m = mark_if_quiesced gen m
advance q proceed self mark_done m = next (record m { once = once_done }) returned
advance q proceed self returned m = next m idle

pub record Thread : Type 0 where
  pub tid : ℕ
  pub pc : Pc

-- The kernel wakes every thread that sleeps on the word.
unfoldable pub unpark : Thread → Thread
unpark t = elim t.pc [ parked value ↦ record t { pc = waiting } | _ ↦ t ]

pub record System : Type 0 where
  pub mem : Memory
  pub threads : List Thread

pub data Step (q : Bool) (s : System) : System → Type 0 where
  run :
      (i : ℕ) (c : Choice) (t : Thread) (pc' : Pc) (m : Memory)
      → get_elem? s.threads i ≡ some t
      → advance q c (lock_value_from_tid t.tid) t.pc s.mem ≡ next m pc'
      → Step q s (record { mem = m; threads = set s.threads i (record t { pc = pc' }) })
  wake :
      (i : ℕ) (c : Choice) (t : Thread) (pc' : Pc) (m : Memory)
      → get_elem? s.threads i ≡ some t
      → advance q c (lock_value_from_tid t.tid) t.pc s.mem ≡ wake_all m pc'
      → Step q s
          (record { mem = m; threads = set (map unpark s.threads) i (record t { pc = pc' }) })
  -- Every processor has switched contexts once more.
  tick :
      Step q s (record { mem = record s.mem { counter = s.mem.counter + 1 }; threads = s.threads })

-- The threads outside, before the first call.
abbrev pub all_idle : List ℕ → List Thread
all_idle [] = []
all_idle (tid ∷ tids) = record { tid = tid; pc = idle } ∷ all_idle tids

abbrev pub initial : List ℕ → ℕ → System
initial tids counter = record {
  mem = record { once = once_unlocked; counter = counter; runs = 0; finished = 0 };
  threads = all_idle tids;
}

-- Any interleaving of the threads.
pub data Reach (q : Bool) (tids : List ℕ) (counter : ℕ) : System → Type 0 where
  start : Reach q tids counter (initial tids counter)
  step : {s t : System} → Reach q tids counter s → Step q s t → Reach q tids counter t
