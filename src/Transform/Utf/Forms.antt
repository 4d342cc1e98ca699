-- ===== src/Transform/Utf/Forms.antt =====
-- The encoding forms of Unicode that the UTF transforms convert between: UTF-8 by RFC 3629, UTF-16 by
-- RFC 2781.
use book.Base.{
  ℕ, ◌+◌, ◌-◌, ◌*◌, ◌/◌, ◌%◌, ◌<◌, ◌≤◌, ◌≡◌, ap, ◌⊎◌, inl, inr, refl, List, [], ◌∷◌, ◌++◌, ◌==◌,
  ltb, if◌then◌else◌, length, arith, suc,
}
use mathlib.Core.Path.{ap₂}
use native.Mathlib.Decide.{ℕ_discrete as dec_eq}
use book.Transform.Utf.{
  ok, ByteOrder, little, big, store16, swap16, utf8_length, lead_bits, read_rest,
}

-- The scalar values: the code points that are not surrogates.
abbrev pub IsScalar : ℕ → Type 0
IsScalar c = (c < 0xd800) ⊎ ((0xe000 ≤ c) × (c < 0x110000))

abbrev pub AreScalars : List ℕ → Type 0
AreScalars [] = Unit
AreScalars (c ∷ cs) = IsScalar c × AreScalars cs

abbrev pub tail_byte : ℕ → ℕ
tail_byte x = 0x80 + x % 64

unfoldable pub utf8 : ℕ → List ℕ
utf8 c =
    if ltb c 0x80
    then c ∷ []
    else if ltb c 0x800
    then (0xc0 + c / 64) ∷ tail_byte c ∷ []
    else if ltb c 0x10000
    then (0xe0 + c / 4096) ∷ tail_byte (c / 64) ∷ tail_byte c ∷ []
    else (0xf0 + c / 262144) ∷ tail_byte (c / 4096) ∷ tail_byte (c / 64) ∷ tail_byte c ∷ []

unfoldable pub unit16 : ByteOrder → ℕ → List ℕ
unit16 little x = x % 256 ∷ x / 256 ∷ []
unit16 big x = x / 256 ∷ x % 256 ∷ []

unfoldable pub utf16 : ByteOrder → ℕ → List ℕ
utf16 order c =
    let w = c - 0x10000 in
    if ltb c 0x10000
    then unit16 order c
    else unit16 order (0xd800 + w / 1024) ++ unit16 order (0xdc00 + w % 1024)

unfoldable pub utf8s : List ℕ → List ℕ
utf8s [] = []
utf8s (c ∷ cs) = utf8 c ++ utf8s cs

unfoldable pub utf16s : ByteOrder → List ℕ → List ℕ
utf16s order [] = []
utf16s order (c ∷ cs) = utf16 order c ++ utf16s order cs

-- The text without a byte order mark at its beginning.
unfoldable pub without_bom : List ℕ → List ℕ
without_bom [] = []
without_bom (c ∷ cs) = if c == 0xfeff then cs else c ∷ cs

-- A sequence as the reader finds it: the first byte tells the length, and the bits add up to the
-- code point.
pub record Sequence (c : ℕ) : Type 0 where
  pub lead : ℕ
  pub tail : List ℕ
  pub is_utf8 : utf8 c ≡ lead ∷ tail
  pub lead-length : utf8_length lead ≡ suc (length tail)
  pub short : length tail ≤ 3
  pub joined :
      (rest : List ℕ)
      → read_rest (length tail) (tail ++ rest) (lead_bits (suc (length tail)) lead) ≡ ok c

pub utf8-Sequence : (c : ℕ) → c < 0x110000 → Sequence c
unfolding utf8 utf8_length read_rest lead_bits
utf8-Sequence c h = elim (dec_eq (c / 128) 0) [
  | yes one ↦ record {
    lead = c;
    tail = [];
    is_utf8 = ground arith;
    lead-length = ground arith;
    short = omega arith;
    joined = λ rest. ap ok (omega arith);
  }
  | no more ↦ elim (dec_eq (c / 2048) 0) [
    | yes two ↦ record {
      lead = 0xc0 + c / 64;
      tail = tail_byte c ∷ [];
      is_utf8 = ground arith;
      lead-length = ground arith;
      short = omega arith;
      joined = λ rest. ap ok (omega arith);
    }
    | no more' ↦ elim (dec_eq (c / 65536) 0) [
      | yes three ↦ record {
        lead = 0xe0 + c / 4096;
        tail = tail_byte (c / 64) ∷ tail_byte c ∷ [];
        is_utf8 = ground arith;
        lead-length = ground arith;
        short = omega arith;
        joined = λ rest. ap ok (omega arith);
      }
      | no more'' ↦ record {
        lead = 0xf0 + c / 262144;
        tail = tail_byte (c / 4096) ∷ tail_byte (c / 64) ∷ tail_byte c ∷ [];
        is_utf8 = ground arith;
        lead-length = ground arith;
        short = omega arith;
        joined = λ rest. ap ok (omega arith);
      }
    ]
  ]
]

pub IsScalar-lt : (c : ℕ) → IsScalar c → c < 0x110000
IsScalar-lt c (inl h) = omega arith
IsScalar-lt c (inr (h, k)) = k

-- A unit as the code stores it.
pub store16-swap16 :
    (order : ByteOrder) (x : ℕ) → x < 65536 → store16 (swap16 order x) ≡ unit16 order x
unfolding unit16
store16-swap16 little x h = refl
store16-swap16 big x h = ap₂ (λ (a b : ℕ). a ∷ b ∷ []) (omega arith) (omega arith)

-- UTF-16 takes at most two bytes for each byte of UTF-8.
pub length-utf16 : (order : ByteOrder) (c : ℕ) → length (utf16 order c) ≤ length (utf8 c) * 2
unfolding utf8 utf16 unit16
length-utf16 little c = ground arith
length-utf16 big c = ground arith

pub utf8-pos : (c : ℕ) → 0 < length (utf8 c)
unfolding utf8
utf8-pos c = ground arith
