-- ===== src/Apply/Reserving.antt =====
-- What dispatch_apply asks for, and that it gives back every width that it reserves.
use book.Base.{
  ℕ, ◌+◌, ◌-◌, ◌*◌, ◌/◌, ◌^◌, ◌≤◌, ◌<◌, ◌≡◌, refl, ap, inl, inr, Option, none, some, List, [], ◌∷◌,
  ◌++◌, ◌==◌, ◌&&◌, ltb, if-elim, if◌then◌else◌, map, add64, sub64, min, ◌⊎◌, arith, Bool-cases,
  ◌∙◌,
}
use mathlib.Core.List.{append-nil, append_assoc, map-append}
use book.Apply.Widths.{
  thread_count, nesting, apply_max, width_interval, available_width, Queue, try_reserve, relinquish,
  Plan, serial, parallel, reserve_all, redirect,
}

-- A queue with `w` of its width more in use.
abbrev pub reserved : ℕ → Queue → Queue
reserved w q = record q { state = q.state + w * width_interval }

-- Queues that have `w` of their width available.
abbrev pub Fits : ℕ → List Queue → Type 0
Fits w [] = Unit
Fits w (q ∷ qs) = (q.state < 2 ^ 64) × (w ≤ available_width q.state) × Fits w qs

Fits-append : (w : ℕ) (xs ys : List Queue) → Fits w xs → Fits w ys → Fits w (xs ++ ys)
Fits-append w [] ys hx hy = hy
Fits-append w (x ∷ xs) ys (a, b, hx) hy = (a, b, Fits-append w xs ys hx hy)

Fits-le : (w v : ℕ) (xs : List Queue) → v ≤ w → Fits w xs → Fits v xs
Fits-le w v [] le h = tt
Fits-le w v (x ∷ xs) le (a, b, h) = (a, omega arith, Fits-le w v xs le h)

-- Adding a width that is available does not wrap around.
reserved-lt :
    (w : ℕ) (q : Queue)
    → q.state < 2 ^ 64
    → w ≤ available_width q.state
    → q.state + w * width_interval < 2 ^ 64
reserved-lt w q a b = ground arith

relinquish-reserved :
    (e w : ℕ) (qs : List Queue)
    → e ≤ w
    → Fits w qs
    → relinquish e (map (reserved w) qs) ≡ map (reserved (w - e)) qs
unfolding relinquish
relinquish-reserved e w [] le h = refl
relinquish-reserved e w (q ∷ qs) le (a, b, h) =
    let room = reserved-lt w q a b in
    let same : sub64 (q.state + w * width_interval) (e * width_interval)
        ≡ q.state + (w - e) * width_interval =
      omega arith in
    rw (same, relinquish-reserved e w qs le h)

-- What an attempt comes to: no more than was asked for and than was available.
abbrev Reserves : Queue → ℕ → Queue × ℕ → Type 0
Reserves q d (q', r) = (q' ≡ reserved r q) × (r ≤ d) × (r ≤ available_width q.state)

none_reserved : (q : Queue) (d : ℕ) → Reserves q d (q, 0)
none_reserved q d = (ground arith, omega arith, omega arith)

try_reserve-Reserves : (q : Queue) (d : ℕ) → q.state < 2 ^ 64 → Reserves q d (try_reserve q d)
unfolding try_reserve
try_reserve-Reserves q d h =
    if-elim (Reserves q d) (q.width == 1) (λ e. none_reserved q d)
      (λ e.
        if-elim (Reserves q d) (available_width q.state == 0) (λ z. none_reserved q d)
          (λ z.
            let a = available_width q.state in
            let r = if ltb d a then d else a in
            let fits : r ≤ a = ground arith in
            let room = reserved-lt r q h fits in
            let exact : add64 q.state (r * width_interval) ≡ q.state + r * width_interval =
              omega arith in
            (rw exact, ground arith, fits)))

-- What the loop comes to, from queues `qs` and `d` threads more than the caller.
abbrev Planned : List Queue → ℕ → ℕ → Plan → Type 0
Planned qs d cnt (serial left) = left ≡ qs
Planned qs d cnt (parallel held w cnt') =
    (held ≡ map (reserved w) qs) × Fits w qs × (w ≤ d) × (0 < w) × (cnt' + d ≡ cnt + w)

reserved-zero : (qs : List Queue) → map (reserved 0) qs ≡ qs
reserved-zero [] = refl
reserved-zero (q ∷ qs) =
    let same : reserved 0 q ≡ q = ground arith in
    ap (λ (x : Queue). x ∷ map (reserved 0) qs) same
    ∙ ap (λ (xs : List Queue). q ∷ xs) (reserved-zero qs)

-- The queues passed give back what the next one could not match.
matched :
    (r d : ℕ) (before : List Queue)
    → r ≤ d
    → Fits d before
    → (if ltb r d then relinquish (d - r) (map (reserved d) before) else map (reserved d) before)
      ≡ map (reserved r) before
matched r d before le fits = elim (Bool-cases (ltb r d)) [
  | inl less ↦
      let left : d - (d - r) ≡ r = omega arith in
      rw less (
        relinquish-reserved (d - r) d before (omega arith) fits
        ∙ ap (λ (w : ℕ). map (reserved w) before) left)
  | inr same ↦ let e : d ≡ r = ground arith in rw same (ap (λ (w : ℕ). map (reserved w) before) e)
]

Planned-le :
    (qs : List Queue) (r d cnt : ℕ) (plan : Plan)
    → r ≤ d
    → d ≤ cnt
    → Planned qs r (cnt - (d - r)) plan
    → Planned qs d cnt plan
Planned-le qs r d cnt (serial left) le few h = h
Planned-le qs r d cnt (parallel held w cnt') le few (e, fits, a, b, c) =
    (e, fits, omega arith, b, omega arith)

restored :
    (before : List Queue) (q : Queue) (qs : List Queue)
    → map (reserved 0) before ++ reserved 0 q ∷ qs ≡ before ++ q ∷ qs
restored before q qs = let same : reserved 0 q ≡ q = ground arith in rw (reserved-zero before, same)

reserve_all-Planned :
    (before qs : List Queue) (d cnt : ℕ)
    → 0 < d
    → d ≤ cnt
    → Fits d before
    → Fits 0 qs
    → Planned (before ++ qs) d cnt (reserve_all (map (reserved d) before) qs d cnt)
unfolding reserve_all
reserve_all-Planned before [] d cnt pos le fits ok =
    rw append-nil (refl, fits, omega arith, pos, omega arith)
reserve_all-Planned before (q ∷ qs) d cnt pos le fits (a, b, ok) =
    let (same, less, room) = try_reserve-Reserves q d a in
    let r = (try_reserve q d).1 in
    rw (same, matched r d before less fits)
      (if-elim (Planned (before ++ q ∷ qs) d cnt) (r == 0 && ltb 0 d)
        (λ e. let z : r ≡ 0 = ground arith in rw z (restored before q qs))
        (λ e.
          Planned-le (before ++ q ∷ qs) r d cnt
            (reserve_all (map (reserved r) before ++ reserved r q ∷ []) qs r (cnt - (d - r))) less
            le
            (rw (map-append, append_assoc) at
              (reserve_all-Planned (before ++ q ∷ []) qs r (cnt - (d - r)) (ground arith)
                (omega arith)
                (Fits-append r before (q ∷ []) (Fits-le d r before less fits) (a, room, tt)) ok))))

-- _dispatch_apply_redirect leaves the state of every queue as it was, whether it reserved their width
-- for a while or runs the iterations serially, for at least two threads and states of 64 bits; and
-- where the iterations run in parallel, they do so with at least two threads, and no more than it
-- was asked for.
pub redirect-restores :
    (qs : List Queue) (thr_cnt : ℕ)
    → 2 ≤ thr_cnt
    → Fits 0 qs
    → ((redirect qs thr_cnt).0 ≡ qs)
      × (((redirect qs thr_cnt).1 ≡ none)
          ⊎ ((n : ℕ) × ((redirect qs thr_cnt).1 ≡ some n) × (2 ≤ n) × (n ≤ thr_cnt)))
unfolding redirect
redirect-restores qs thr_cnt two ok =
    after_plan (reserve_all [] qs (thr_cnt - 1) thr_cnt)
      (reserve_all-Planned [] qs (thr_cnt - 1) thr_cnt (omega arith) (omega arith) tt ok)
  where
    after_plan :
        (plan : Plan)
        → Planned qs (thr_cnt - 1) thr_cnt plan
        → let r : List Queue × Option ℕ = elim plan [
          | serial left ↦ (left, none)
          | parallel held da_width cnt ↦ (relinquish da_width held, some cnt)
        ] in
          (r.0 ≡ qs) × ((r.1 ≡ none) ⊎ ((n : ℕ) × (r.1 ≡ some n) × (2 ≤ n) × (n ≤ thr_cnt)))
    after_plan (serial left) e = (e, inl refl)
    after_plan (parallel held w cnt) (e, fits, a, b, c) =
        let all : relinquish w (map (reserved w) qs) ≡ map (reserved (w - w)) qs =
          relinquish-reserved w w qs (omega arith) fits in
        let zero_left : w - w ≡ 0 = omega arith in
        (
          rw e (all ∙ ap (λ (v : ℕ). map (reserved v) qs) zero_left ∙ reserved-zero qs),
          inr (cnt, refl, omega arith, omega arith),
        )

share_fits : (p n : ℕ) → 0 < n → n < p → (1 ≤ p / n) × (p / n ≤ p) × (n * (p / n) ≤ p)
share_fits p n pos less = grind arith

mul-le : (n a b : ℕ) → a ≤ b → n * a ≤ n * b
mul-le n a b h = grind arith

product_fits : (a b : ℕ) → a < apply_max → b < apply_max → a * b < 2 ^ 32
product_fits a b ha hb = grind arith

nesting_bound :
    (iterations nested : ℕ)
    → (nesting iterations nested ≡ iterations) ⊎ (nesting iterations nested < 2 ^ 32)
unfolding nesting
nesting_bound iterations nested = ground (arith, product_fits nested iterations)

-- The number of threads for one dispatch_apply is at least 1 and at most the number of iterations and
-- the parallelism; nested in others of `nested` iterations in all, it is 1 or the threads of all of
-- them together stay within the parallelism; and the new nesting is positive and fits 32 bits, or is
-- the number of iterations of an outermost call.
thread_count_bounds :
    (iterations nested parallelism : ℕ)
    → 0 < iterations
    → 0 < parallelism
    → (1 ≤ thread_count iterations nested parallelism)
      × (thread_count iterations nested parallelism ≤ min iterations parallelism)
      × ((thread_count iterations nested parallelism ≡ 1)
          ⊎ (nested * thread_count iterations nested parallelism ≤ parallelism))
      × ((nesting iterations nested ≡ iterations) ⊎ (nesting iterations nested < 2 ^ 32))
unfolding thread_count
thread_count_bounds iterations nested parallelism pos many = ground (
  arith,
  share_fits parallelism nested,
  mul-le nested iterations (parallelism / nested),
  nesting_bound iterations nested,
)
