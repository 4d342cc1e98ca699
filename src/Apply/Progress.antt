-- ===== src/Apply/Progress.antt =====
-- No state of dispatch_apply is stuck: until every thread is gone, one can go on by itself.
use book.Base.{
  ℕ, zero, suc, ◌+◌, ◌≤◌, ◌<◌, ◌≡◌, ◌≢◌, refl, some, map, get_elem?, set, total, total-pos,
  total-zero, total-le_total, total-add, arith, Bool,
}
use native.Mathlib.Decide.{dec_lt}
use book.Apply.{
  Memory, proceed, Pc, start, calling, again, finish, signal, waking, wait, wait_slow, sleep,
  parked, destroy, leave, freeing, gone, Outcome, next, wake_all, crash, blocked, advance,
  take_index, call_back, lower_todo, event_signal, event_wait, event_wait_slow, ulock_wait,
  event_destroy, lower_thr_cnt, Thread, System, Step, run, wake, unpark, Reach,
}
use book.Apply.Weights.{
  inside, held, past, signalling, wakes, asleep, waited, waiter, stray, present, frees, remaining,
  awake, waited-le,
}
use book.Apply.Invariant.{Inv, Sized, Reach-Inv, Step-Inv}
use book.Apply.Crashes.{goes_on}
use book.Apply.Termination.{Proceeds, Run, here, more, measure, Step-falls}

held-awake : (t : Thread) → awake t ≡ 0 → held t ≡ 0
unfolding awake held
held-awake t h = ground arith

inside-awake : (t : Thread) → inside t ≤ awake t
unfolding awake inside
inside-awake t = ground arith

signalling-awake : (t : Thread) → signalling t ≤ awake t
unfolding awake signalling
signalling-awake t = ground arith

wakes-awake : (t : Thread) → wakes t ≤ awake t
unfolding awake wakes
wakes-awake t = ground arith

asleep-waited : (t : Thread) → asleep t ≤ waited t
unfolding asleep waited
asleep-waited t = ground arith

asleep-past : (t : Thread) → asleep t ≤ past t
unfolding asleep past
asleep-past t = ground arith

remaining-le : (t : Thread) → remaining t ≤ awake t + asleep t
unfolding remaining awake asleep
remaining-le t = ground arith

present-remaining : (t : Thread) → present t ≤ remaining t
unfolding remaining present
present-remaining t = ground arith

frees-remaining : (t : Thread) → frees t ≤ remaining t
unfolding remaining frees
frees-remaining t = ground arith

-- While a thread is left, one is awake: the sleeper alone is never left behind.
awake_of_Inv :
    (iter n : ℕ) (s : System)
    → Inv iter n s
    → 0 < total remaining s.threads
    → 0 < total awake s.threads
awake_of_Inv iter n s inv some_left = elim (dec_lt 0 (total awake s.threads)) [
  | yes a ↦ a
  | no none ↦
      let z : total awake s.threads ≡ 0 = omega arith in
      absurd (
        ground (
          arith,
          inv.counts,
          total-zero awake held s.threads held-awake,
          total-le_total inside awake s.threads inside-awake,
          total-le_total signalling awake s.threads signalling-awake,
          total-le_total wakes awake s.threads wakes-awake,
          total-le_total asleep waited s.threads asleep-waited,
          total-le_total asleep past s.threads asleep-past,
          total-add waited waiter stray s.threads waited-le,
          total-add remaining awake asleep s.threads remaining-le,
        ))
]

-- A thread that is awake is not blocked.
advance-ne-blocked :
    (iter : ℕ) (waits : Bool) (pc : Pc) (m : Memory)
    → 0 < awake (record { waits = waits; pc = pc })
    → advance iter proceed waits pc m ≢ blocked
unfolding advance awake
advance-ne-blocked iter waits start m a = unfold take_index in λ h. ground arith
advance-ne-blocked iter waits (calling idx done) m a = unfold call_back in λ h. ground arith
advance-ne-blocked iter waits (again done) m a = unfold take_index in λ h. ground arith
advance-ne-blocked iter waits (finish done) m a = unfold lower_todo in λ h. ground arith
advance-ne-blocked iter waits signal m a = unfold event_signal in λ h. ground arith
advance-ne-blocked iter waits waking m a = λ h. ground arith
advance-ne-blocked iter waits wait m a = unfold event_wait in λ h. ground arith
advance-ne-blocked iter waits wait_slow m a = unfold event_wait_slow in λ h. ground arith
advance-ne-blocked iter waits sleep m a = unfold ulock_wait in λ h. ground arith
advance-ne-blocked iter waits parked m a = absurd (ground arith)
advance-ne-blocked iter waits destroy m a = unfold event_destroy in λ h. ground arith
advance-ne-blocked iter waits leave m a = unfold lower_thr_cnt in λ h. ground arith
advance-ne-blocked iter waits freeing m a = λ h. ground arith
advance-ne-blocked iter waits gone m a = absurd (ground arith)

record Goes (iter : ℕ) (s : System) : Type 0 where
  to : System
  st : Step iter s to
  by_itself : Proceeds st

go :
    (iter : ℕ) (s : System) (i : ℕ) (t : Thread)
    → get_elem? s.threads i ≡ some t
    → (o : Outcome) → advance iter proceed t.waits t.pc s.mem ≡ o
    → o ≢ crash
    → o ≢ blocked
    → Goes iter s
go iter s i t at (next m pc') e c b = record {
  to = record { mem = m; threads = set s.threads i (record t { pc = pc' }) };
  st = run i proceed t pc' m at e;
  by_itself = tt;
}
go iter s i t at (wake_all m pc') e c b = record {
  to = record { mem = m; threads = set (map unpark s.threads) i (record t { pc = pc' }) };
  st = wake i proceed t pc' m at e;
  by_itself = tt;
}
go iter s i t at crash e c b = absurd (c refl)
go iter s i t at blocked e c b = absurd (b refl)

progress : (iter n : ℕ) (s : System) → Inv iter n s → 0 < total remaining s.threads → Goes iter s
progress iter n s inv left =
    let (i, t, at, a) = total-pos awake s.threads (awake_of_Inv iter n s inv left) in
    go iter s i t at (advance iter proceed t.waits t.pc s.mem) refl
      (goes_on iter n s inv i t at proceed t.pc refl) (advance-ne-blocked iter t.waits t.pc s.mem a)

-- A run after which every thread is gone and the structure was freed.
pub record Completes (iter : ℕ) (s : System) : Type 0 where
  pub length : ℕ
  pub end : System
  pub run_to : Run iter s length end
  pub all_gone : total remaining end.threads ≡ 0
  pub freed_once : end.mem.freed ≡ 1

completes :
    (fuel iter n k : ℕ) (s s' : System)
    → Run iter s k s'
    → Inv iter n s'
    → measure iter s' < fuel
    → Completes iter s
completes zero iter n k s s' r inv few = absurd (omega arith)
completes (suc fuel) iter n k s s' r inv few = elim (dec_lt 0 (total remaining s'.threads)) [
  | yes left ↦
      let g = progress iter n s' inv left in
      completes fuel iter n (suc k) s g.to (more r g.st g.by_itself) (Step-Inv n g.st inv)
        (omega (arith, Step-falls n g.st g.by_itself inv))
  | no none ↦ record {
    length = k;
    end = s';
    run_to = r;
    all_gone = omega arith;
    freed_once = ground (
      arith,
      inv.counts,
      total-le_total present remaining s'.threads present-remaining,
      total-le_total frees remaining s'.threads frees-remaining,
    );
  }
]

-- From every state that an interleaving reaches, a run without unexplained wakeups leads to one where
-- every thread is gone and the structure was freed once, if there is work and the numbers of indices
-- and threads are far from the ends of their types: nobody is left waiting, and nothing is leaked.
pub can_complete :
    (iter others : ℕ) (s : System) → Sized iter others → Reach iter others s → Completes iter s
can_complete iter others s sized r =
    completes (suc (measure iter s)) iter (others + 1) 0 s s here (Reach-Inv sized r) (omega arith)
