-- ===== src/Apply/Measure.antt =====
-- A number that every access of dispatch_apply lowers: what is left of the indices, and how far each
-- thread has to go.
use book.Base.{
  ℕ, ◌+◌, ◌-◌, ◌*◌, ◌%◌, ◌^◌, ◌≤◌, ◌<◌, Bool, true, false, min, ltb, ◌==◌, if◌then◌else◌, if-elim,
  arith, sub64,
}
use book.Apply.{
  Memory, proceed, Pc, start, calling, again, finish, signal, waking, wait, wait_slow, sleep,
  parked, destroy, leave, freeing, gone, awaited, out, Outcome, next, wake_all, crash, blocked,
  advance, take_index, call_back, lower_todo, event_signal, event_wait, event_wait_slow, ulock_wait,
  event_destroy, lower_thr_cnt, Thread, unpark,
}
use book.Apply.Weights.{taking, past, waited}
use book.Apply.Moves.{Tally, Holds, with_thread, thread_at}

-- A caller has another way to go when the event's value is UINT32_MAX than when it was signalled.
unfoldable pub rank : Bool → Thread → ℕ
rank unsignalled t = elim t.pc [
  | start ↦ 70
  | calling idx done ↦ 70
  | again done ↦ 60
  | finish done ↦ 50
  | signal ↦ 40
  | waking ↦ 18
  | wait ↦ 8
  | wait_slow ↦ if unsignalled then 3 else 4
  | sleep ↦ if unsignalled then 2 else 5
  | parked ↦ 1
  | destroy ↦ 3
  | leave ↦ 2
  | freeing ↦ 1
  | gone ↦ 0
]

pub rank-change : (b b' : Bool) (t : Thread) → rank b' t ≤ rank b t + 3 * waited t
unfolding rank waited
rank-change true true t = ground arith
rank-change true false t = ground arith
rank-change false true t = ground arith
rank-change false false t = ground arith

pub rank-unpark : (b : Bool) (t : Thread) → rank b (unpark t) ≤ rank b t + 3 * waited t
unfolding rank waited unpark
rank-unpark true t = ground arith
rank-unpark false t = ground arith

abbrev pub indices_left : ℕ → Memory → ℕ
indices_left iter m = 20 * (iter - min m.index iter)

abbrev pub unsignalled : Memory → Bool
unsignalled m = m.value == awaited

-- The mover's way, with the others' ranks, falls. The others' ranks change little.
module _ (iter : ℕ) (ranks : Bool → ℕ) (waits : Bool) (pc : Pc) (m : Memory) where
  unfoldable pub before : ℕ
  before = indices_left iter m + ranks (unsignalled m) + rank (unsignalled m) (thread_at waits pc)

  unfoldable pub Falls : Outcome → Type 0
  Falls (next m' pc') =
      indices_left iter m' + ranks (unsignalled m') + rank (unsignalled m') (thread_at waits pc')
      < before
  Falls (wake_all m' pc') =
      indices_left iter m'
        + (ranks (unsignalled m') + 3)
        + rank (unsignalled m') (thread_at waits pc')
      < before
  Falls crash = Unit
  Falls blocked = Unit

module _ (iter n : ℕ) (others : Tally) (ranks : Bool → ℕ)
    (slack : (b b' : Bool) → ranks b' ≤ ranks b + 3) (waits : Bool) (m : Memory) where
  start-Falls :
      Holds iter n m (with_thread others waits start)
      → Falls iter ranks waits start m (take_index iter m (out waits) (λ idx. calling idx 0))
  unfolding take_index Falls before rank taking past
  start-Falls h =
      if-elim (Falls iter ranks waits start m) (ltb m.index iter) (λ e. ground (arith, h.counts))
        (λ e. ground (arith, h.counts))

  again-Falls :
      (done : ℕ)
      → Holds iter n m (with_thread others waits (again done))
      → Falls iter ranks waits
          (again done)
          m
          (take_index iter m (finish done) (λ idx. calling idx done))
  unfolding take_index Falls before rank taking past
  again-Falls done h =
      if-elim (Falls iter ranks waits (again done) m) (ltb m.index iter)
        (λ e. ground (arith, h.counts)) (λ e. ground (arith, h.counts))

  finish-Falls : (done : ℕ) → Falls iter ranks waits (finish done) m (lower_todo waits done m)
  unfolding lower_todo Falls before rank
  finish-Falls done =
      if-elim (Falls iter ranks waits (finish done) m) (sub64 m.todo done == 0) (λ e. ground arith)
        (λ e. ground arith)

  signal-Falls : Falls iter ranks waits signal m (event_signal waits m)
  unfolding event_signal Falls before rank
  signal-Falls =
      let m' : Memory = record m { value = (m.value + 1) % 2 ^ 32; signals = m.signals + 1 } in
      let change = slack (unsignalled m) (unsignalled m') in
      if-elim (Falls iter ranks waits signal m) (m.value == 0) (λ e. ground arith)
        (λ e. ground arith)

  wait-Falls : Falls iter ranks waits wait m (event_wait m)
  unfolding event_wait Falls before rank
  wait-Falls =
      let m' : Memory = record m { value = (m.value + awaited) % 2 ^ 32 } in
      let change = slack (unsignalled m) (unsignalled m') in
      if-elim (Falls iter ranks waits wait m) ((m.value + awaited) % 2 ^ 32 == 0)
        (λ e. ground arith) (λ e. ground arith)

  wait_slow-Falls : Falls iter ranks waits wait_slow m (event_wait_slow m)
  unfolding event_wait_slow Falls before rank
  wait_slow-Falls =
      if-elim (Falls iter ranks waits wait_slow m) (m.value == 0) (λ e. ground arith)
        (λ e.
          if-elim (Falls iter ranks waits wait_slow m) (m.value == awaited) (λ f. ground arith)
            (λ f. tt))

  sleep-Falls : Falls iter ranks waits sleep m (ulock_wait m)
  unfolding ulock_wait Falls before rank
  sleep-Falls =
      if-elim (Falls iter ranks waits sleep m) (m.value == awaited) (λ e. ground arith)
        (λ e. ground arith)

  destroy-Falls : Falls iter ranks waits destroy m (event_destroy m)
  unfolding event_destroy Falls before rank
  destroy-Falls =
      if-elim (Falls iter ranks waits destroy m) (m.value == 0) (λ e. ground arith) (λ e. tt)

  leave-Falls : Falls iter ranks waits leave m (lower_thr_cnt m)
  unfolding lower_thr_cnt Falls before rank
  leave-Falls =
      if-elim (Falls iter ranks waits leave m) ((m.thr_cnt + 2 ^ 32 - 1) % 2 ^ 32 == 0)
        (λ e. ground arith) (λ e. ground arith)

  -- Every access that is not an unexplained wakeup lowers the measure.
  pub advance-Falls :
      (pc : Pc)
      → Holds iter n m (with_thread others waits pc)
      → Falls iter ranks waits pc m (advance iter proceed waits pc m)
  unfolding advance
  advance-Falls start h = start-Falls h
  advance-Falls (calling idx done) h = unfold call_back Falls before rank in omega arith
  advance-Falls (again done) h = again-Falls done h
  advance-Falls (finish done) h = finish-Falls done
  advance-Falls signal h = signal-Falls
  advance-Falls waking h = unfold Falls before rank in ground arith
  advance-Falls wait h = wait-Falls
  advance-Falls wait_slow h = wait_slow-Falls
  advance-Falls sleep h = sleep-Falls
  advance-Falls parked h = unfold Falls in tt
  advance-Falls destroy h = destroy-Falls
  advance-Falls leave h = leave-Falls
  advance-Falls freeing h = unfold Falls before rank in omega arith
  advance-Falls gone h = unfold Falls in tt
