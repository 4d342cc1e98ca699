-- ===== src/Transform/Rfc4648.antt =====
-- RFC 4648, section 4: base64 by groups of three bytes, and what its characters decode to.
use book.Base.{
  ℕ, ◌+◌, ◌*◌, ◌/◌, ◌%◌, ◌<◌, ◌≡◌, refl, Bool, true, false, List, [], ◌∷◌, ◌==◌, ==_iff, ◌&&◌, ◌||◌,
  not, leb, ltb, ◌-◌, if◌then◌else◌, all_below, all_below_sound,
}
use book.Transform.Tables.{inv, padc, base64_decode_table, element}
use book.Transform.Base64.{digit, is_blank}

-- Table 1 of the RFC: `A` to `Z`, `a` to `z`, `0` to `9`, `+` and `/`.
unfoldable pub character : ℕ → ℕ
character v =
    if ltb v 26
    then 65 + v
    else if ltb v 52
    then 97 + (v - 26)
    else if ltb v 62
    then 48 + (v - 52)
    else if v == 62
    then 43
    else 47

-- Each group of 24 bits is four characters; a last group of 8 or 16 bits is filled with zero bits, and
-- with `=`.
unfoldable pub encode : List ℕ → List ℕ
encode [] = []
encode (a ∷ []) = character (a / 4) ∷ character (a % 4 * 16) ∷ 61 ∷ 61 ∷ []
encode (a ∷ b ∷ []) =
    character (a / 4) ∷ character (a % 4 * 16 + b / 16) ∷ character (b % 16 * 4) ∷ 61 ∷ []
encode (a ∷ b ∷ c ∷ rest) =
    character (a / 4)
    ∷ character (a % 4 * 16 + b / 16)
    ∷ character (b % 16 * 4 + c / 64)
    ∷ character (c % 64)
    ∷ encode rest

abbrev pub AreBytes : List ℕ → Type 0
AreBytes [] = Unit
AreBytes (b ∷ bs) = (b < 256) × AreBytes bs

-- The character of a value is one that the decoder's table takes back to it.
abbrev good : ℕ → Bool
good v =
    let c = character v in
    element base64_decode_table c == v
    && (not (c == 10 || (c == 9 || c == 32))
        && (not (leb 123 c) && (not (v == inv) && not (v == padc))))

good_table : all_below 64 good ≡ true
unfolding all_below character base64_decode_table
good_table = refl

same_table : all_below 64 (λ v. digit v == character v) ≡ true
unfolding all_below character digit
same_table = refl

-- The encoder's table has these characters.
pub digit-character : (v : ℕ) → v < 64 → digit v ≡ character v
digit-character v h =
    (==_iff (digit v) (character v)).0
      (all_below_sound 64 (λ u. digit u == character u) v same_table h)

pub character_good : (v : ℕ) → v < 64 → good v ≡ true
character_good v h = all_below_sound 64 good v good_table h

pub record Encodes (v : ℕ) : Type 0 where
  pub entry : element base64_decode_table (character v) ≡ v
  pub not_blank : is_blank (character v) ≡ false
  pub in_table : leb 123 (character v) ≡ false
  pub known : (v == inv) ≡ false
  pub not_pad : (v == padc) ≡ false

and-split : (a b : Bool) → (a && b) ≡ true → (a ≡ true) × (b ≡ true)
and-split true true e = (refl, refl)
and-split true false e = cc
and-split false b e = cc

not-true : (a : Bool) → not a ≡ true → a ≡ false
not-true true e = cc
not-true false e = refl

pub character-Encodes : (v : ℕ) → v < 64 → Encodes v
character-Encodes v h =
    let c = character v in
    let g1 = and-split (element base64_decode_table c == v) _ (character_good v h) in
    let g2 = and-split (not (is_blank c)) _ g1.1 in
    let g3 = and-split (not (leb 123 c)) _ g2.1 in
    let g4 = and-split (not (v == inv)) _ g3.1 in
    record {
      entry = (==_iff (element base64_decode_table c) v).0 g1.0;
      not_blank = not-true (is_blank c) g2.0;
      in_table = not-true (leb 123 c) g3.0;
      known = not-true (v == inv) g4.0;
      not_pad = not-true (v == padc) g4.1;
    }
