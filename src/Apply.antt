-- ===== src/Apply.antt =====
-- apply.c, with the thread event of shims/lock.h and shims/lock.c: the threads of one dispatch_apply
-- that run _dispatch_apply_invoke2, one atomic access after another, interleaved in any way. One of
-- them, the caller, waits at the end. Accesses take effect in one order. A thread event has one
-- waiter, so a wake wakes whoever sleeps.
use book.Base.{
  ℕ, zero, suc, ◌+◌, ◌-◌, ◌%◌, ◌^◌, ◌≡◌, Bool, true, false, some, List, [], ◌∷◌, map, ◌==◌, ltb,
  if◌then◌else◌, get_elem?, set, sub64,
}
pub mod Weights
pub mod Moves
pub mod Accesses
pub mod Ending
pub mod Invariant
pub mod Safety
pub mod Crashes
pub mod Measure
pub mod Termination
pub mod Progress
pub mod Widths
pub mod Reserving
mod Examples

-- UINT32_MAX, the value of an event that is waited for.
abbrev pub awaited : ℕ
awaited = 2 ^ 32 - 1

-- struct dispatch_apply_s, with `value` for the event's. The last four are history: the calls of the
-- function that have returned, in all and for each index, the signals, and how often the structure
-- was freed.
pub record Memory : Type 0 where
  pub index : ℕ
  pub todo : ℕ
  pub thr_cnt : ℕ
  pub value : ℕ
  pub ended : ℕ
  pub ran : ℕ → ℕ
  pub signals : ℕ
  pub freed : ℕ

pub data Pc : Type 0 where
  start : Pc  -- before the first index is taken
  calling : (idx done : ℕ) → Pc  -- in the function
  again : (done : ℕ) → Pc  -- at the loop's end, before the next index is taken
  finish : (done : ℕ) → Pc  -- before da_todo is lowered
  signal : Pc  -- _dispatch_thread_event_signal
  waking : Pc  -- _dispatch_thread_event_signal_slow
  wait : Pc  -- _dispatch_thread_event_wait
  wait_slow : Pc  -- the loop of _dispatch_thread_event_wait_slow
  sleep : Pc  -- calling the kernel's wait
  parked : Pc
  destroy : Pc  -- _dispatch_thread_event_destroy
  leave : Pc  -- before da_thr_cnt is lowered
  freeing : Pc
  gone : Pc

pub data Choice : Type 0 where
  proceed : Choice
  spurious : Choice  -- the kernel's wait ends for no reason

pub data Outcome : Type 0 where
  next : Memory → Pc → Outcome
  wake_all : Memory → Pc → Outcome
  crash : Outcome
  blocked : Outcome

-- The label `out`, by DISPATCH_APPLY_INVOKE_WAIT.
abbrev pub out : Bool → Pc
out true = wait
out false = leave

-- os_atomic_inc_orig2o(da, da_index), and where the index leads.
unfoldable pub take_index : ℕ → Memory → Pc → (ℕ → Pc) → Outcome
take_index iter m past inside =
    let idx = m.index in
    let m' = record m { index = (idx + 1) % 2 ^ 64 } in
    if ltb idx iter then next m' (inside idx) else next m' past

-- A call of the function returns.
unfoldable pub call_back : ℕ → ℕ → Memory → Outcome
call_back idx done m =
    next (record m { ended = m.ended + 1; ran = λ k. if k == idx then m.ran k + 1 else m.ran k })
      (again (done + 1))

unfoldable pub lower_todo : Bool → ℕ → Memory → Outcome
lower_todo waits done m =
    let todo = sub64 m.todo done in
    let m' = record m { todo = todo } in if todo == 0 then next m' signal else next m' (out waits)

unfoldable pub event_signal : Bool → Memory → Outcome
event_signal waits m =
    let m' = record m { value = (m.value + 1) % 2 ^ 32; signals = m.signals + 1 } in
    if m.value == 0 then next m' (out waits) else next m' waking

unfoldable pub event_wait : Memory → Outcome
event_wait m =
    let value = (m.value + awaited) % 2 ^ 32 in
    let m' = record m { value = value } in if value == 0 then next m' destroy else next m' wait_slow

unfoldable pub event_wait_slow : Memory → Outcome
event_wait_slow m =
    if m.value == 0 then next m destroy else if m.value == awaited then next m sleep else crash

-- The kernel compares the value before the thread sleeps.
unfoldable pub ulock_wait : Memory → Outcome
ulock_wait m = if m.value == awaited then next m parked else next m wait_slow

-- The assertion.
unfoldable pub event_destroy : Memory → Outcome
event_destroy m = if m.value == 0 then next m leave else crash

unfoldable pub lower_thr_cnt : Memory → Outcome
lower_thr_cnt m =
    let cnt = (m.thr_cnt + 2 ^ 32 - 1) % 2 ^ 32 in
    let m' = record m { thr_cnt = cnt } in if cnt == 0 then next m' freeing else next m' gone

-- One access of a thread that waits at the end or not.
unfoldable pub advance : ℕ → Choice → Bool → Pc → Memory → Outcome
advance iter spurious waits parked m = next m wait_slow
advance iter spurious waits pc m = blocked
advance iter proceed waits start m = take_index iter m (out waits) (λ idx. calling idx 0)
advance iter proceed waits (calling idx done) m = call_back idx done m
advance iter proceed waits (again done) m =
    take_index iter m (finish done) (λ idx. calling idx done)
advance iter proceed waits (finish done) m = lower_todo waits done m
advance iter proceed waits signal m = event_signal waits m
advance iter proceed waits waking m = wake_all m (out waits)
advance iter proceed waits wait m = event_wait m
advance iter proceed waits wait_slow m = event_wait_slow m
advance iter proceed waits sleep m = ulock_wait m
advance iter proceed waits parked m = blocked
advance iter proceed waits destroy m = event_destroy m
advance iter proceed waits leave m = lower_thr_cnt m
advance iter proceed waits freeing m = next (record m { freed = m.freed + 1 }) gone
advance iter proceed waits gone m = blocked

pub record Thread : Type 0 where
  pub waits : Bool
  pub pc : Pc

unfoldable pub unpark : Thread → Thread
unpark t = elim t.pc [ parked ↦ record t { pc = wait_slow } | _ ↦ t ]

pub record System : Type 0 where
  pub mem : Memory
  pub threads : List Thread

pub data Step (iter : ℕ) (s : System) : System → Type 0 where
  run :
      (i : ℕ) (c : Choice) (t : Thread) (pc' : Pc) (m : Memory)
      → get_elem? s.threads i ≡ some t
      → advance iter c t.waits t.pc s.mem ≡ next m pc'
      → Step iter s (record { mem = m; threads = set s.threads i (record t { pc = pc' }) })
  wake :
      (i : ℕ) (c : Choice) (t : Thread) (pc' : Pc) (m : Memory)
      → get_elem? s.threads i ≡ some t
      → advance iter c t.waits t.pc s.mem ≡ wake_all m pc'
      → Step iter s
          (record { mem = m; threads = set (map unpark s.threads) i (record t { pc = pc' }) })

-- The threads of the continuations, which do not wait.
abbrev pub workers : ℕ → List Thread
workers zero = []
workers (suc n) = record { waits = false; pc = start } ∷ workers n

-- What dispatch_apply_f and _dispatch_apply_f set up: the caller and `others` continuations.
abbrev pub initial : ℕ → ℕ → System
initial iter others = record {
  mem = record {
    index = 0;
    todo = iter;
    thr_cnt = others + 1;
    value = 0;
    ended = 0;
    ran = λ k. 0;
    signals = 0;
    freed = 0;
  };
  threads = record { waits = true; pc = start } ∷ workers others;
}

-- Any interleaving of the threads.
pub data Reach (iter others : ℕ) : System → Type 0 where
  begin : Reach iter others (initial iter others)
  step : {s s' : System} → Reach iter others s → Step iter s s' → Reach iter others s'
