-- ===== src/Apply/Invariant.antt =====
-- The invariant of dispatch_apply in every state that any interleaving reaches.
use book.Base.{
  ℕ, zero, suc, ◌+◌, ◌^◌, ◌<◌, ◌≡◌, refl, some, List, map, get_elem?, set, arith, total, remove,
  total-remove, total-set-remove, total-set-map, total-map, total-map_zero, total-add,
  total-le_total, Bool, false,
}
use mathlib.Core.Path.{fun_ext}
use book.Apply.{
  Memory, Choice, proceed, spurious, Pc, start, calling, again, finish, signal, waking, wait,
  wait_slow, sleep, parked, destroy, leave, freeing, gone, next, wake_all, advance, Thread, unpark,
  System, Step, run, wake, workers, initial, Reach, begin, step,
}
use book.Apply.Weights.{
  inside, at_index, held, idler, taking, past, signalling, wakes, asleep, waiter, waited, through,
  stray, present, frees, waited-le, through-le, present-le, asleep-unpark, at_index-unpark,
  inside-unpark, held-unpark, idler-unpark, taking-unpark, past-unpark, signalling-unpark,
  wakes-unpark, waiter-unpark, waited-unpark, through-unpark, stray-unpark, present-unpark,
  frees-unpark,
}
use book.Apply.Moves.{Tally, Counts, Holds, Ordered, Woken, with_thread, Kept, thread_at}
use book.Apply.Accesses.{start-Kept, calling-Kept, again-Kept, finish-Kept}
use book.Apply.Ending.{
  signal-Kept, waking-Kept, wait-Kept, wait_slow-Kept, sleep-Kept, parked-Kept, destroy-Kept,
  leave-Kept, freeing-Kept,
}

abbrev pub Inv : ℕ → ℕ → System → Type 0
Inv iter n s = Holds iter n s.mem (λ w. total w s.threads)

module _ (iter n : ℕ) (others : Tally) (ord : Ordered others) (waits : Bool) (m : Memory) where
  -- Every access of any thread keeps the invariant.
  advance-Kept :
      (c : Choice) (pc : Pc)
      → Holds iter n m (with_thread others waits pc)
      → Kept iter n others waits (advance iter c waits pc m)
  unfolding advance
  advance-Kept proceed start h = start-Kept iter n others ord waits m h
  advance-Kept proceed (calling idx done) h = calling-Kept iter n others ord waits m idx done h
  advance-Kept proceed (again done) h = again-Kept iter n others ord waits m done h
  advance-Kept proceed (finish done) h = finish-Kept iter n others ord waits m done h
  advance-Kept proceed signal h = signal-Kept iter n others ord waits m h
  advance-Kept proceed waking h = waking-Kept iter n others ord waits m h
  advance-Kept proceed wait h = wait-Kept iter n others ord waits m h
  advance-Kept proceed wait_slow h = wait_slow-Kept iter n others ord waits m h
  advance-Kept proceed sleep h = sleep-Kept iter n others ord waits m h
  advance-Kept proceed parked h = tt
  advance-Kept proceed destroy h = destroy-Kept iter n others ord waits m h
  advance-Kept proceed leave h = leave-Kept iter n others ord waits m h
  advance-Kept proceed freeing h = freeing-Kept iter n others ord waits m h
  advance-Kept proceed gone h = tt
  advance-Kept spurious start h = tt
  advance-Kept spurious (calling idx done) h = tt
  advance-Kept spurious (again done) h = tt
  advance-Kept spurious (finish done) h = tt
  advance-Kept spurious signal h = tt
  advance-Kept spurious waking h = tt
  advance-Kept spurious wait h = tt
  advance-Kept spurious wait_slow h = tt
  advance-Kept spurious sleep h = tt
  advance-Kept spurious parked h = parked-Kept iter n others ord waits m h
  advance-Kept spurious destroy h = tt
  advance-Kept spurious leave h = tt
  advance-Kept spurious freeing h = tt
  advance-Kept spurious gone h = tt

total-Woken : (ts : List Thread) → Woken (λ w. total w ts) (λ w. total w (map unpark ts))
total-Woken ts = record {
  s_inside = total-map inside unpark ts inside-unpark;
  s_held = total-map held unpark ts held-unpark;
  s_idler = total-map idler unpark ts idler-unpark;
  s_taking = total-map taking unpark ts taking-unpark;
  s_past = total-map past unpark ts past-unpark;
  s_signalling = total-map signalling unpark ts signalling-unpark;
  s_wakes = total-map wakes unpark ts wakes-unpark;
  s_waiter = total-map waiter unpark ts waiter-unpark;
  s_waited = total-map waited unpark ts waited-unpark;
  s_through = total-map through unpark ts through-unpark;
  s_stray = total-map stray unpark ts stray-unpark;
  s_present = total-map present unpark ts present-unpark;
  s_frees = total-map frees unpark ts frees-unpark;
  s_at_index = λ k. total-map (at_index k) unpark ts (λ t. at_index-unpark t k);
  none_asleep = total-map_zero asleep unpark ts asleep-unpark;
}

total-Ordered : (ts : List Thread) → Ordered (λ w. total w ts)
total-Ordered ts = record {
  waited_waiter = total-add waited waiter stray ts waited-le;
  through_waited = total-le_total through waited ts through-le;
  present_all = total-add present taking past ts present-le;
}

module _ (iter n : ℕ) (s : System) (inv : Inv iter n s) (i : ℕ) (c : Choice) (t : Thread) (pc' : Pc)
    (m : Memory) (at : get_elem? s.threads i ≡ some t) where
  others : Tally
  others w = total w (remove s.threads i)

  apart : Holds iter n s.mem (with_thread others t.waits t.pc)
  unfolding others
  apart = rw (← fun_ext (λ (w : Thread → ℕ). total-remove w s.threads i t at)) inv

  kept : Kept iter n others t.waits (advance iter c t.waits t.pc s.mem)
  unfolding others
  kept = advance-Kept iter n others (total-Ordered (remove s.threads i)) t.waits s.mem c t.pc apart

  run-Inv :
      advance iter c t.waits t.pc s.mem ≡ next m pc'
      → Inv iter n (record { mem = m; threads = set s.threads i (record t { pc = pc' }) })
  unfolding others
  run-Inv e =
      rw (fun_ext (λ (w : Thread → ℕ). total-set-remove w s.threads i t (record t { pc = pc' }) at))
        (rw e at kept)

  wake-Inv :
      advance iter c t.waits t.pc s.mem ≡ wake_all m pc'
      → Inv iter n
          (record { mem = m; threads = set (map unpark s.threads) i (record t { pc = pc' }) })
  unfolding others
  wake-Inv e =
      rw
        (fun_ext
          (λ (w : Thread → ℕ). total-set-map w unpark s.threads i t (record t { pc = pc' }) at))
        ((rw e at kept) (λ w. total w (map unpark (remove s.threads i)))
          (total-Woken (remove s.threads i)))

pub Step-Inv : {iter : ℕ} (n : ℕ) {s s' : System} → Step iter s s' → Inv iter n s → Inv iter n s'
Step-Inv {iter} n {s} (run i c t pc' m at e) inv = run-Inv iter n s inv i c t pc' m at e
Step-Inv {iter} n {s} (wake i c t pc' m at e) inv = wake-Inv iter n s inv i c t pc' m at e

workers-zero :
    (w : Thread → ℕ) (others : ℕ) → w (thread_at false start) ≡ 0 → total w (workers others) ≡ 0
unfolding total
workers-zero w zero h = refl
workers-zero w (suc k) h = omega (arith, h, workers-zero w k h)

workers-one :
    (w : Thread → ℕ) (others : ℕ)
    → w (thread_at false start) ≡ 1
    → total w (workers others) ≡ others
unfolding total
workers-one w zero h = refl
workers-one w (suc k) h = omega (arith, h, workers-one w k h)

-- What dispatch_apply_f relies on: there is work, and the numbers of indices and threads are far from
-- the ends of their types.
abbrev pub Sized : ℕ → ℕ → Type 0
Sized iter others = (0 < iter) × (others + 1 < 2 ^ 31) × (iter + (others + 1) < 2 ^ 64)

initial-Counts :
    (iter others : ℕ)
    → Sized iter others
    → Counts iter
        (others + 1)
        (initial iter others).mem
        (λ w. total w (initial iter others).threads)
unfolding total inside held idler taking past signalling wakes asleep waiter waited through stray
    present frees
initial-Counts iter others h = ground (
  arith,
  workers-zero inside others refl,
  workers-zero held others refl,
  workers-zero idler others refl,
  workers-zero past others refl,
  workers-zero signalling others refl,
  workers-zero asleep others refl,
  workers-zero waiter others refl,
  workers-zero waited others refl,
  workers-zero through others refl,
  workers-zero stray others refl,
  workers-zero frees others refl,
  workers-one taking others refl,
  workers-one present others refl,
)

initial-Inv : (iter others : ℕ) → Sized iter others → Inv iter (others + 1) (initial iter others)
unfolding total at_index
initial-Inv iter others h = record {
  counts = initial-Counts iter others h;
  each = λ k. ground (arith, workers-zero (at_index k) others refl);
}

pub Reach-Inv :
    {iter others : ℕ} {s : System}
    → Sized iter others
    → Reach iter others s
    → Inv iter (others + 1) s
Reach-Inv {iter} {others} h begin = initial-Inv iter others h
Reach-Inv {others = others} h (step r st) = Step-Inv (others + 1) st (Reach-Inv h r)
