-- ===== src/Base/Lists.antt =====
-- Lists measured and indexed by native numbers, and weighted sums over a list of threads.
use Prim.Native.Nat.{ℕ, zero, suc, ◌+◌, ◌-◌, ◌≤◌, ◌<◌, min}
use mathlib.Core.Path.{◌≡◌, refl, ap, ◌∙◌}
use mathlib.Core.List.{List, [], ◌∷◌, ◌++◌, map}
use mathlib.Core.Option.{Option, none, some}
use native.Mathlib.Omega.{arith}
use native.Mathlib.Decide.{dec_lt, ℕ_discrete}
use mathlib.Core.Logic.{◌≢◌}

module _ {ℓ} {A : Type ℓ} where
  abbrev pub length : List A → ℕ
  length [] = 0
  length (x ∷ xs) = suc (length xs)

  abbrev pub get_elem? : List A → ℕ → Option A
  get_elem? [] i = none
  get_elem? (x ∷ xs) zero = some x
  get_elem? (x ∷ xs) (suc i) = get_elem? xs i

  -- A write out of bounds changes nothing.
  abbrev pub set : List A → ℕ → A → List A
  set [] i v = []
  set (x ∷ xs) zero v = v ∷ xs
  set (x ∷ xs) (suc i) v = x ∷ set xs i v

  abbrev pub take : ℕ → List A → List A
  take zero xs = []
  take (suc n) [] = []
  take (suc n) (x ∷ xs) = x ∷ take n xs

  abbrev pub drop : ℕ → List A → List A
  drop zero xs = xs
  drop (suc n) [] = []
  drop (suc n) (x ∷ xs) = drop n xs

  pub length-append : (xs ys : List A) → length (xs ++ ys) ≡ length xs + length ys
  length-append [] ys = omega arith
  length-append (x ∷ xs) ys = omega (arith, length-append xs ys)

  pub length-take : (n : ℕ) (xs : List A) → length (take n xs) ≡ min n (length xs)
  length-take zero xs = omega arith
  length-take (suc n) [] = omega arith
  length-take (suc n) (x ∷ xs) = omega (arith, length-take n xs)

  pub length-drop : (n : ℕ) (xs : List A) → length (drop n xs) ≡ length xs - n
  length-drop zero xs = omega arith
  length-drop (suc n) [] = omega arith
  length-drop (suc n) (x ∷ xs) = omega (arith, length-drop n xs)

module _ {ℓ} {A : Type ℓ} where
  pub length-set : (xs : List A) (i : ℕ) (v : A) → length (set xs i v) ≡ length xs
  length-set [] i v = refl
  length-set (x ∷ xs) zero v = refl
  length-set (x ∷ xs) (suc i) v = ap suc (length-set xs i v)

  -- A weight added up over the whole list: how many threads stand where the weight is 1.
  unfoldable pub total : (A → ℕ) → List A → ℕ
  total w [] = 0
  total w (x ∷ xs) = w x + total w xs

  -- Moving one thread changes a total by that thread's weights alone.
  pub total-set :
      (w : A → ℕ) (xs : List A) (i : ℕ) (a b : A)
      → get_elem? xs i ≡ some a
      → total w (set xs i b) + w a ≡ total w xs + w b
  unfolding total
  total-set w [] i a b h = absurd (ground arith)
  total-set w (x ∷ xs) zero a b h = ground arith
  total-set w (x ∷ xs) (suc i) a b h = omega (arith, total-set w xs i a b h)

  pub total-le : (w : A → ℕ) (xs : List A) → ((a : A) → w a ≤ 1) → total w xs ≤ length xs
  unfolding total
  total-le w [] h = omega arith
  total-le w (x ∷ xs) h = omega (arith, h x, total-le w xs h)

  -- One thread's weight is within the total.
  pub le-total :
      (w : A → ℕ) (xs : List A) (i : ℕ) (a : A) → get_elem? xs i ≡ some a → w a ≤ total w xs
  unfolding total
  le-total w [] i a h = absurd (ground arith)
  le-total w (x ∷ xs) zero a h = ground arith
  le-total w (x ∷ xs) (suc i) a h = omega (arith, le-total w xs i a h)

  pub total-map :
      (w : A → ℕ) (f : A → A) (xs : List A)
      → ((x : A) → w (f x) ≡ w x)
      → total w (map f xs) ≡ total w xs
  unfolding total
  total-map w f [] keep = refl
  total-map w f (x ∷ xs) keep = omega (arith, keep x, total-map w f xs keep)

  pub total-le_total : (w v : A → ℕ) (xs : List A) → ((a : A) → w a ≤ v a) → total w xs ≤ total v xs
  unfolding total
  total-le_total w v [] h = omega arith
  total-le_total w v (x ∷ xs) h = omega (arith, h x, total-le_total w v xs h)

  pub total-add :
      (u w v : A → ℕ) (xs : List A)
      → ((a : A) → u a ≤ w a + v a)
      → total u xs ≤ total w xs + total v xs
  unfolding total
  total-add u w v [] h = omega arith
  total-add u w v (x ∷ xs) h = omega (arith, h x, total-add u w v xs h)

  pub total-map_zero :
      (w : A → ℕ) (f : A → A) (xs : List A) → ((x : A) → w (f x) ≡ 0) → total w (map f xs) ≡ 0
  unfolding total
  total-map_zero w f [] h = refl
  total-map_zero w f (x ∷ xs) h = omega (arith, h x, total-map_zero w f xs h)

  -- The other threads.
  pub remove : List A → ℕ → List A
  remove [] i = []
  remove (x ∷ xs) zero = xs
  remove (x ∷ xs) (suc i) = x ∷ remove xs i

  pub total-remove :
      (w : A → ℕ) (xs : List A) (i : ℕ) (a : A)
      → get_elem? xs i ≡ some a
      → total w xs ≡ total w (remove xs i) + w a
  unfolding total remove
  total-remove w [] i a h = absurd (ground arith)
  total-remove w (x ∷ xs) zero a h = ground arith
  total-remove w (x ∷ xs) (suc i) a h = omega (arith, total-remove w xs i a h)

  -- What the mover becomes is added to the others, who may all have moved by `f`.
  pub total-set-remove :
      (w : A → ℕ) (xs : List A) (i : ℕ) (a b : A)
      → get_elem? xs i ≡ some a
      → total w (set xs i b) ≡ total w (remove xs i) + w b
  unfolding total remove
  total-set-remove w [] i a b h = absurd (ground arith)
  total-set-remove w (x ∷ xs) zero a b h = omega arith
  total-set-remove w (x ∷ xs) (suc i) a b h = omega (arith, total-set-remove w xs i a b h)

  pub total-set-map :
      (w : A → ℕ) (f : A → A) (xs : List A) (i : ℕ) (a b : A)
      → get_elem? xs i ≡ some a
      → total w (set (map f xs) i b) ≡ total w (map f (remove xs i)) + w b
  unfolding total remove
  total-set-map w f [] i a b h = absurd (ground arith)
  total-set-map w f (x ∷ xs) zero a b h = omega arith
  total-set-map w f (x ∷ xs) (suc i) a b h = omega (arith, total-set-map w f xs i a b h)

  -- Where one weight is 0 on every thread, so is another that is 0 wherever the first is.
  pub total-zero :
      (w v : A → ℕ) (xs : List A) → ((a : A) → w a ≡ 0 → v a ≡ 0) → total w xs ≡ 0 → total v xs ≡ 0
  unfolding total
  total-zero w v [] h e = refl
  total-zero w v (x ∷ xs) h e = omega (arith, h x (omega arith), total-zero w v xs h (omega arith))

  -- A positive total is some thread's.
  pub total-pos :
      (w : A → ℕ) (xs : List A)
      → 0 < total w xs
      → (i : ℕ) × (a : A) × (get_elem? xs i ≡ some a) × (0 < w a)
  unfolding total
  total-pos w [] h = absurd (omega arith)
  total-pos w (x ∷ xs) h = elim (dec_lt 0 (w x)) [
    | yes p ↦ (0, x, refl, p)
    | no p ↦ let (i, a, at, pos) = total-pos w xs (omega arith) in (suc i, a, at, pos)
  ]

  pub get_elem?-set_self :
      (xs : List A) (i : ℕ) (a b : A) → get_elem? xs i ≡ some a → get_elem? (set xs i b) i ≡ some b
  get_elem?-set_self [] i a b h = absurd (ground arith)
  get_elem?-set_self (x ∷ xs) zero a b h = refl
  get_elem?-set_self (x ∷ xs) (suc i) a b h = get_elem?-set_self xs i a b h

  pub get_elem?-set_other :
      (xs : List A) (i j : ℕ) (b : A) → i ≢ j → get_elem? (set xs i b) j ≡ get_elem? xs j
  get_elem?-set_other [] i j b h = refl
  get_elem?-set_other (x ∷ xs) zero zero b h = absurd (h refl)
  get_elem?-set_other (x ∷ xs) zero (suc j) b h = refl
  get_elem?-set_other (x ∷ xs) (suc i) zero b h = refl
  get_elem?-set_other (x ∷ xs) (suc i) (suc j) b h =
      get_elem?-set_other xs i j b (λ e. h (ap suc e))

  pub get_elem?-map :
      (f : A → A) (xs : List A) (i : ℕ) (a : A)
      → get_elem? xs i ≡ some a
      → get_elem? (map f xs) i ≡ some (f a)
  get_elem?-map f [] i a h = absurd (ground arith)
  get_elem?-map f (x ∷ xs) zero a h = ground arith
  get_elem?-map f (x ∷ xs) (suc i) a h = get_elem?-map f xs i a h

  -- A write leaves something at every place that held something.
  pub get_elem?-set-some :
      (xs : List A) (i j : ℕ) (a b : A)
      → get_elem? xs j ≡ some a
      → (c : A) × (get_elem? (set xs i b) j ≡ some c)
  get_elem?-set-some xs i j a b h = elim (ℕ_discrete i j) [
    | yes e ↦ (b, rw e (get_elem?-set_self xs j a b h))
    | no n ↦ (a, get_elem?-set_other xs i j b n ∙ h)
  ]
