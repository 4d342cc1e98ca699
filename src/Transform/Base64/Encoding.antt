-- ===== src/Transform/Base64/Encoding.antt =====
-- The encoder's loop against RFC 4648: where it may be cut, and what it gives in all.
use mathlib.Core.Path.{ap₂}
use mathlib.Core.List.{append_assoc}
use book.Base.{
  ℕ, suc, ◌+◌, ◌*◌, ◌/◌, ◌%◌, ◌<◌, ◌≡◌, refl, sym, ◌∙◌, ap, List, [], ◌∷◌, ◌++◌, length, arith,
}
use book.Transform.Base64.{digit, encode_byte, encode_bytes, padding, last_byte}
use book.Transform.Rfc4648.{character, digit-character, encode, AreBytes}

-- Only the remainder of `count` by three matters.
pub count_irrelevant :
    (c c' last : ℕ) (bs : List ℕ)
    → c % 3 ≡ c' % 3
    → encode_bytes c last bs ≡ encode_bytes c' last bs
unfolding encode_bytes
count_irrelevant c c' last [] h = refl
count_irrelevant c c' last (b ∷ bs) h =
    ap₂ (λ (xs : List ℕ) (ys : List ℕ). xs ++ ys) (ap (λ t. encode_byte t last b) h)
      (count_irrelevant (c + 1) (c' + 1) b bs (omega arith))

-- At the start of a group, the byte before does not matter.
pub last_irrelevant :
    (c last last' : ℕ) (bs : List ℕ) → c % 3 ≡ 0 → encode_bytes c last bs ≡ encode_bytes c last' bs
unfolding encode_bytes encode_byte
last_irrelevant c last last' [] h = refl
last_irrelevant c last last' (b ∷ bs) h = rw h refl

-- The loop over a region, and then over what follows it.
pub encode_bytes-append :
    (c last : ℕ) (xs ys : List ℕ)
    → encode_bytes c last (xs ++ ys)
      ≡ encode_bytes c last xs ++ encode_bytes (c + length xs) (last_byte last xs) ys
unfolding encode_bytes last_byte
encode_bytes-append c last [] ys = count_irrelevant c (c + 0) last ys (omega arith)
encode_bytes-append c last (x ∷ xs) ys =
    ap (λ (t : List ℕ). encode_byte (c % 3) last x ++ t)
      (encode_bytes-append (c + 1) x xs ys
        ∙ ap (λ (t : List ℕ). encode_bytes (c + 1) x xs ++ t)
            (count_irrelevant (c + 1 + length xs) (c + length (x ∷ xs)) (last_byte x xs) ys
              (omega arith)))
    ∙ sym (append_assoc (encode_byte (c % 3) last x) (encode_bytes (c + 1) x xs) _)

pub last_byte-append :
    (last : ℕ) (xs ys : List ℕ) → last_byte last (xs ++ ys) ≡ last_byte (last_byte last xs) ys
unfolding last_byte
last_byte-append last [] ys = refl
last_byte-append last (x ∷ xs) ys = last_byte-append x xs ys

-- All the characters for some bytes, padding included.
unfoldable pub characters : ℕ → ℕ → List ℕ → List ℕ
characters c last bs = encode_bytes c last bs ++ padding ((c + length bs) % 3) (last_byte last bs)

-- The encoder's digit of six bits.
sextet : (u v : ℕ) → u ≡ v → v < 64 → digit u ≡ character v
sextet u v e small = ap digit e ∙ digit-character v small

-- One group.
three_bytes :
    (c last x y z : ℕ) (rest : List ℕ)
    → c % 3 ≡ 0
    → x < 256
    → y < 256
    → z < 256
    → encode_bytes c last (x ∷ y ∷ z ∷ rest)
      ≡ character (x / 4)
        ∷ character (x % 4 * 16 + y / 16)
        ∷ character (y % 16 * 4 + z / 64)
        ∷ character (z % 64)
        ∷ encode_bytes (c + 1 + 1 + 1) z rest
unfolding encode_bytes encode_byte
three_bytes c last x y z rest h hx hy hz =
    let h1 : (c + 1) % 3 ≡ 1 = omega arith in
    let h2 : (c + 1 + 1) % 3 ≡ 2 = omega arith in
    let e0 : x / 4 % 64 ≡ x / 4 = omega arith in
    let e1 : (x * 16 + y / 16) % 64 ≡ x % 4 * 16 + y / 16 = omega arith in
    let e2 : (y * 4 + z / 64) % 64 ≡ y % 16 * 4 + z / 64 = omega arith in
    rw (h, h1, h2)
      (ap₂ ◌∷◌ (sextet _ _ e0 (omega arith)) (
        ap₂ ◌∷◌ (sextet _ _ e1 (omega arith))
          (ap₂ ◌∷◌ (sextet _ _ e2 (omega arith)) (ap₂ ◌∷◌ (sextet _ _ refl (omega arith)) refl))))

-- The loop and the padding together give what RFC 4648 prescribes.
pub characters-encode :
    (c last : ℕ) (bs : List ℕ) → AreBytes bs → c % 3 ≡ 0 → characters c last bs ≡ encode bs
unfolding encode encode_bytes encode_byte padding last_byte characters
characters-encode c last [] v h = let h0 : (c + 0) % 3 ≡ 0 = omega arith in rw h0 refl
characters-encode c last (x ∷ []) v h =
    let h1 : (c + 1) % 3 ≡ 1 = omega arith in
    let e0 : x / 4 % 64 ≡ x / 4 = omega arith in
    let e1 : x * 16 % 64 / 16 * 16 ≡ x % 4 * 16 = omega arith in
    rw (h, h1) (ap₂ ◌∷◌ (sextet _ _ e0 (omega arith)) (ap₂ ◌∷◌ (sextet _ _ e1 (omega arith)) refl))
characters-encode c last (x ∷ y ∷ []) v h =
    let h1 : (c + 1) % 3 ≡ 1 = omega arith in
    let h2 : (c + 2) % 3 ≡ 2 = omega arith in
    let e0 : x / 4 % 64 ≡ x / 4 = omega arith in
    let e1 : (x * 16 + y / 16) % 64 ≡ x % 4 * 16 + y / 16 = omega arith in
    let e2 : y * 4 % 64 / 4 * 4 ≡ y % 16 * 4 = omega arith in
    rw (h, h1, h2)
      (ap₂ ◌∷◌ (sextet _ _ e0 (omega arith))
        (ap₂ ◌∷◌ (sextet _ _ e1 (omega arith)) (ap₂ ◌∷◌ (sextet _ _ e2 (omega arith)) refl)))
characters-encode c last (x ∷ y ∷ z ∷ rest) v h =
    ap₂ (λ (xs : List ℕ) (ys : List ℕ). xs ++ ys)
      (three_bytes c last x y z rest h v.0 v.1.0 v.1.1.0)
      (ap (λ t. padding t (last_byte z rest)) (same_phase (length rest)))
    ∙ ap
        (λ (t : List ℕ).
          character (x / 4)
          ∷ character (x % 4 * 16 + y / 16)
          ∷ character (y % 16 * 4 + z / 64)
          ∷ character (z % 64)
          ∷ t)
        (characters-encode (c + 1 + 1 + 1) z rest v.1.1.1 (omega arith))
  where
    same_phase : (n : ℕ) → (c + suc (suc (suc n))) % 3 ≡ (c + 1 + 1 + 1 + n) % 3
    same_phase n = omega arith
