-- ===== src/Apply/Termination.antt =====
-- dispatch_apply ends: runs without unexplained wakeups are bounded by the measure.
use book.Base.{
  ℕ, zero, suc, ◌+◌, ◌*◌, ◌≤◌, ◌<◌, ◌≡◌, Bool, refl, some, List, [], ◌∷◌, map, get_elem?, set,
  total, remove, total-remove, total-set-remove, total-set-map, total-add, arith, false,
}
use mathlib.Core.Path.{fun_ext}
use book.Apply.{
  Memory, proceed, spurious, Pc, next, wake_all, advance, Thread, unpark, System, Step, run, wake,
  workers, initial, begin,
}
use book.Apply.Weights.{waited, waiter, stray, waited-le}
use book.Apply.Moves.{Holds, with_thread}
use book.Apply.Invariant.{Inv, Sized, Reach-Inv, Step-Inv}
use book.Apply.Measure.{
  rank, rank-change, rank-unpark, indices_left, unsignalled, Falls, before, advance-Falls,
}

abbrev pub measure : ℕ → System → ℕ
measure iter s = indices_left iter s.mem + total (rank (unsignalled s.mem)) s.threads

total-triple :
    (u w v : Thread → ℕ) (ts : List Thread)
    → ((t : Thread) → u t ≤ w t + 3 * v t)
    → total u ts ≤ total w ts + 3 * total v ts
unfolding total
total-triple u w v [] h = omega arith
total-triple u w v (t ∷ ts) h = omega (arith, h t, total-triple u w v ts h)

total-compose :
    (w : Thread → ℕ) (f : Thread → Thread) (ts : List Thread)
    → total w (map f ts) ≡ total (λ t. w (f t)) ts
unfolding total
total-compose w f [] = refl
total-compose w f (t ∷ ts) = omega (arith, total-compose w f ts)

module _ (iter n : ℕ) (s : System) (inv : Inv iter n s) (i : ℕ) (t : Thread) (pc' : Pc) (m : Memory)
    (at : get_elem? s.threads i ≡ some t) where
  rest : List Thread
  rest = remove s.threads i

  one_waits : total waited rest ≤ 1
  unfolding rest
  one_waits = omega (
    arith,
    inv.counts.one_waiter,
    inv.counts.strays,
    total-add waited waiter stray s.threads waited-le,
    total-remove waited s.threads i t at,
  )

  ranks : Bool → ℕ
  ranks b = total (rank b) rest

  slack : (b b' : Bool) → ranks b' ≤ ranks b + 3
  unfolding ranks
  slack b b' =
      omega (arith, one_waits, total-triple (rank b') (rank b) waited rest (rank-change b b'))

  woken_slack : (b : Bool) → total (rank b) (map unpark rest) ≤ ranks b + 3
  unfolding ranks
  woken_slack b = omega (
    arith,
    one_waits,
    total-compose (rank b) unpark rest,
    total-triple (λ u. rank b (unpark u)) (rank b) waited rest (rank-unpark b),
  )

  apart : Holds iter n s.mem (with_thread (λ w. total w rest) t.waits t.pc)
  unfolding rest
  apart = rw (← fun_ext (λ (w : Thread → ℕ). total-remove w s.threads i t at)) inv

  falls : Falls iter ranks t.waits t.pc s.mem (advance iter proceed t.waits t.pc s.mem)
  falls = advance-Falls iter n (λ w. total w rest) ranks slack t.waits s.mem t.pc apart

  run-falls :
      advance iter proceed t.waits t.pc s.mem ≡ next m pc'
      → measure iter (record { mem = m; threads = set s.threads i (record t { pc = pc' }) })
        < measure iter s
  unfolding Falls before ranks rest
  run-falls e = omega (
    arith,
    rw e at falls,
    total-set-remove (rank (unsignalled m)) s.threads i t (record t { pc = pc' }) at,
    total-remove (rank (unsignalled s.mem)) s.threads i t at,
  )

  wake-falls :
      advance iter proceed t.waits t.pc s.mem ≡ wake_all m pc'
      → measure iter
          (record { mem = m; threads = set (map unpark s.threads) i (record t { pc = pc' }) })
        < measure iter s
  unfolding Falls before ranks rest
  wake-falls e = omega (
    arith,
    rw e at falls,
    woken_slack (unsignalled m),
    total-set-map (rank (unsignalled m)) unpark s.threads i t (record t { pc = pc' }) at,
    total-remove (rank (unsignalled s.mem)) s.threads i t at,
  )

-- A step that is no unexplained wakeup.
abbrev pub Proceeds : {iter : ℕ} {s s' : System} → Step iter s s' → Type 0
Proceeds (run i proceed t pc' m at e) = Unit
Proceeds (run i spurious t pc' m at e) = ⊥
Proceeds (wake i proceed t pc' m at e) = Unit
Proceeds (wake i spurious t pc' m at e) = ⊥

pub Step-falls :
    {iter : ℕ} (n : ℕ) {s s' : System} (st : Step iter s s')
    → Proceeds st
    → Inv iter n s
    → measure iter s' < measure iter s
Step-falls {iter} n {s} (run i proceed t pc' m at e) p inv = run-falls iter n s inv i t pc' m at e
Step-falls {iter} n {s} (wake i proceed t pc' m at e) p inv = wake-falls iter n s inv i t pc' m at e
Step-falls n (run i spurious t pc' m at e) p inv = elim p [ ]
Step-falls n (wake i spurious t pc' m at e) p inv = elim p [ ]

-- A run of `k` accesses, without unexplained wakeups.
pub data Run (iter : ℕ) (s : System) : ℕ → System → Type 0 where
  here : Run iter s 0 s
  more :
      {k : ℕ} {s' u : System}
      → Run iter s k s'
      → (st : Step iter s' u) → Proceeds st
      → Run iter s (suc k) u

pub Run-Inv :
    {iter : ℕ} (n : ℕ) {s : System} {k : ℕ} {s' : System}
    → Run iter s k s'
    → Inv iter n s
    → Inv iter n s'
Run-Inv n here inv = inv
Run-Inv n (more r st p) inv = Step-Inv n st (Run-Inv n r inv)

pub Run-bound :
    {iter : ℕ} (n : ℕ) {s : System} {k : ℕ} {s' : System}
    → Run iter s k s'
    → Inv iter n s
    → k + measure iter s' ≤ measure iter s
Run-bound n here inv = omega arith
Run-bound n (more r st p) inv =
    omega (arith, Run-bound n r inv, Step-falls n st p (Run-Inv n r inv))

workers-rank : (b : Bool) (others : ℕ) → total (rank b) (workers others) ≡ 70 * others
unfolding total rank
workers-rank b zero = omega arith
workers-rank b (suc k) = omega (arith, workers-rank b k)

initial-measure :
    (iter others : ℕ) → measure iter (initial iter others) ≡ 20 * iter + 70 * (others + 1)
unfolding total
initial-measure iter others = unfold rank in ground (arith, workers-rank false others)

-- From the start, no run without unexplained wakeups has more than 20 accesses for each index and 70
-- for each thread, if there is work and the numbers of indices and threads are far from the ends of
-- their types.
pub run_length-le :
    (iter others k : ℕ) (s : System)
    → Sized iter others
    → Run iter (initial iter others) k s
    → k ≤ 20 * iter + 70 * (others + 1)
run_length-le iter others k s sized r =
    omega (arith, Run-bound (others + 1) r (Reach-Inv sized begin), initial-measure iter others)
