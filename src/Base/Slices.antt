-- ===== src/Base/Slices.antt =====
-- `slice from len xs`: the bytes `xs[from .. from + len)`, cut off at the end.
use Prim.Native.Nat.{ℕ, zero, suc, ◌+◌, ◌-◌, ◌≤◌, min}
use mathlib.Core.Path.{◌≡◌, refl, sym, ap, ◌∙◌, ◌≡⟨◌⟩◌, ◌∎}
use mathlib.Core.List.{List, [], ◌∷◌, ◌++◌}
use native.Mathlib.Omega.{arith}
use book.Base.Lists.{length, take, drop, length-take, length-drop}

zero-plus : (b : ℕ) → zero + b ≡ b
zero-plus b = omega arith

suc-plus : (a b : ℕ) → suc a + b ≡ suc (a + b)
suc-plus a b = omega arith

minus-zero : (n : ℕ) → n - 0 ≡ n
minus-zero n = omega arith

less {ℓ} : {A : Type ℓ} (n : ℕ) (xs : List A) → suc n - suc (length xs) ≡ n - length xs
less n xs = omega arith

module _ {ℓ} {A : Type ℓ} where
  abbrev pub slice : ℕ → ℕ → List A → List A
  slice from len xs = take len (drop from xs)

  pub take-all : (n : ℕ) (xs : List A) → length xs ≤ n → take n xs ≡ xs
  take-all zero [] h = refl
  take-all zero (x ∷ xs) h = absurd (omega arith)
  take-all (suc n) [] h = refl
  take-all (suc n) (x ∷ xs) h = ap (◌∷◌ x) (take-all n xs (omega arith))

  pub drop-all : (n : ℕ) (xs : List A) → length xs ≤ n → drop n xs ≡ []
  drop-all zero [] h = refl
  drop-all zero (x ∷ xs) h = absurd (omega arith)
  drop-all (suc n) [] h = refl
  drop-all (suc n) (x ∷ xs) h = drop-all n xs (omega arith)

  drop-nil : (n : ℕ) → drop {A = A} n [] ≡ []
  drop-nil zero = refl
  drop-nil (suc n) = refl

  take-nil : (n : ℕ) → take {A = A} n [] ≡ []
  take-nil zero = refl
  take-nil (suc n) = refl

  pub drop-drop : (a b : ℕ) (xs : List A) → drop b (drop a xs) ≡ drop (a + b) xs
  drop-drop zero b xs = rw (zero-plus b)
  drop-drop (suc a) b [] = rw (suc-plus a b) (drop-nil b)
  drop-drop (suc a) b (x ∷ xs) = rw (suc-plus a b) (drop-drop a b xs)

  pub take-take : (a b : ℕ) (xs : List A) → b ≤ a → take b (take a xs) ≡ take b xs
  take-take a zero xs h = refl
  take-take zero (suc b) xs h = absurd (omega arith)
  take-take (suc a) (suc b) [] h = refl
  take-take (suc a) (suc b) (x ∷ xs) h = ap (◌∷◌ x) (take-take a b xs (omega arith))

  pub drop-take : (a b : ℕ) (xs : List A) → drop a (take (a + b) xs) ≡ take b (drop a xs)
  drop-take zero b xs = rw (zero-plus b)
  drop-take (suc a) b [] = rw (suc-plus a b) (sym (take-nil b))
  drop-take (suc a) b (x ∷ xs) = rw (suc-plus a b) (drop-take a b xs)

  -- Both halves of a cut through an append.
  pub drop-append_ge :
      (n : ℕ) (xs ys : List A) → length xs ≤ n → drop n (xs ++ ys) ≡ drop (n - length xs) ys
  drop-append_ge n [] ys h = rw (minus-zero n)
  drop-append_ge zero (x ∷ xs) ys h = absurd (omega arith)
  drop-append_ge (suc n) (x ∷ xs) ys h = rw (less n xs) (drop-append_ge n xs ys (omega arith))

  pub drop-append_le :
      (n : ℕ) (xs ys : List A) → n ≤ length xs → drop n (xs ++ ys) ≡ drop n xs ++ ys
  drop-append_le zero xs ys h = refl
  drop-append_le (suc n) [] ys h = absurd (omega arith)
  drop-append_le (suc n) (x ∷ xs) ys h = drop-append_le n xs ys (omega arith)

  pub take-append_ge :
      (n : ℕ) (xs ys : List A) → length xs ≤ n → take n (xs ++ ys) ≡ xs ++ take (n - length xs) ys
  take-append_ge n [] ys h = rw (minus-zero n)
  take-append_ge zero (x ∷ xs) ys h = absurd (omega arith)
  take-append_ge (suc n) (x ∷ xs) ys h =
      rw (less n xs) (ap (◌∷◌ x) (take-append_ge n xs ys (omega arith)))

  pub take-append_le : (n : ℕ) (xs ys : List A) → n ≤ length xs → take n (xs ++ ys) ≡ take n xs
  take-append_le zero xs ys h = refl
  take-append_le (suc n) [] ys h = absurd (omega arith)
  take-append_le (suc n) (x ∷ xs) ys h = ap (◌∷◌ x) (take-append_le n xs ys (omega arith))

  pub length-slice :
      (from len : ℕ) (xs : List A) → length (slice from len xs) ≡ min len (length xs - from)
  length-slice from len xs = omega (arith, length-take len (drop from xs), length-drop from xs)

  -- A slice of a slice.
  pub slice-slice :
      (f l a b : ℕ) (xs : List A) → a + b ≤ l → slice a b (slice f l xs) ≡ slice (f + a) b xs
  slice-slice f l a b xs h =
      take b (drop a (take l (drop f xs)))
      ≡⟨ ap (λ t. take b (drop a (take t (drop f xs)))) whole ⟩
        take b (drop a (take (a + (l - a)) (drop f xs)))
      ≡⟨ ap (take b) (drop-take a (l - a) (drop f xs)) ⟩ take b (take (l - a) (drop a (drop f xs)))
      ≡⟨ take-take (l - a) b (drop a (drop f xs)) (omega arith) ⟩ take b (drop a (drop f xs))
      ≡⟨ ap (take b) (drop-drop f a xs) ⟩ take b (drop (f + a) xs) ∎
    where
      whole : l ≡ a + (l - a)
      whole = omega arith

  pub slice-past : (from len : ℕ) (xs : List A) → length xs ≤ from → slice from len xs ≡ []
  slice-past from len xs h = rw (drop-all from xs h) (take-nil len)

  pub slice-all : (len : ℕ) (xs : List A) → length xs ≤ len → slice 0 len xs ≡ xs
  slice-all len xs h = take-all len xs h

  -- A length beyond the end is as good as the length up to the end.
  pub slice-clip :
      (from len : ℕ) (xs : List A)
      → length xs ≤ from + len
      → slice from (length xs - from) xs ≡ slice from len xs
  slice-clip from len xs h =
      take-all (length xs - from) (drop from xs) (omega (arith, length-drop from xs))
      ∙ sym (take-all len (drop from xs) (omega (arith, length-drop from xs)))

  -- The same cuts, with the length of the first part under another name.
  pub take-append_at :
      (n k : ℕ) (xs ys : List A) → length xs ≡ k → k ≤ n → take n (xs ++ ys) ≡ xs ++ take (n - k) ys
  take-append_at n k xs ys e h =
      take-append_ge n xs ys (omega arith) ∙ ap (λ t. xs ++ take (n - t) ys) e

  pub drop-append_at :
      (n k : ℕ) (xs ys : List A) → length xs ≡ k → k ≤ n → drop n (xs ++ ys) ≡ drop (n - k) ys
  drop-append_at n k xs ys e h = drop-append_ge n xs ys (omega arith) ∙ ap (λ t. drop (n - t) ys) e

  pub drop-slice :
      (f l k : ℕ) (xs : List A) → k ≤ l → drop k (slice f l xs) ≡ slice (f + k) (l - k) xs
  drop-slice f l k xs h =
      drop k (take l (drop f xs))
      ≡⟨ ap (λ t. drop k (take t (drop f xs))) whole ⟩ drop k (take (k + (l - k)) (drop f xs))
      ≡⟨ drop-take k (l - k) (drop f xs) ⟩ take (l - k) (drop k (drop f xs))
      ≡⟨ ap (take (l - k)) (drop-drop f k xs) ⟩ take (l - k) (drop (f + k) xs) ∎
    where
      whole : l ≡ k + (l - k)
      whole = omega arith
