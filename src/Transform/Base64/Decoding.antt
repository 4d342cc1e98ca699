-- ===== src/Transform/Base64/Decoding.antt =====
-- Decoding what RFC 4648 encodes.
use mathlib.Core.Path.{ap₂}
use book.Base.{
  ℕ, ◌+◌, ◌*◌, ◌/◌, ◌%◌, ◌^◌, ◌<◌, ◌≡◌, ◌≢◌, refl, ◌∙◌, some, List, [], ◌∷◌, ◌++◌, ◌==◌, arith,
  if◌then◌else◌,
}
use book.Transform.Tables.{padc, base64_decode_table}
use book.Transform.Base64.{Decoder, decode_value, decode_byte, decode_bytes}
use book.Transform.Rfc4648.{character, character-Encodes}

pub decode_character :
    (v : ℕ) (d : Decoder) → v < 64 → decode_byte (character v) d ≡ some (decode_value v d)
unfolding decode_byte
decode_character v d h =
    let g = character-Encodes v h in rw (g.not_blank, g.in_table, g.entry, g.known)

pub decode_equals : (d : Decoder) → decode_byte 61 d ≡ some (decode_value padc d)
unfolding decode_byte base64_decode_table
decode_equals d = refl

-- What an entry adds to the 24 bits, and to the padding.
abbrev pub bits_of : ℕ → ℕ
bits_of v = if v == padc then 0 else v

abbrev pub pads_of : ℕ → ℕ
pads_of v = if v == padc then 1 else 0

abbrev pub four : ℕ → ℕ → ℕ → ℕ → Decoder → Decoder
four a b c e d = decode_value e (decode_value c (decode_value b (decode_value a d)))

-- The decoder after `k` more of a group's entries, where it stores nothing.
value_counts : (v : ℕ) (d : Decoder) → (decode_value v d).count % 4 ≡ (d.count + 1) % 4
unfolding decode_value
value_counts v d = omega arith

value_pad : (v : ℕ) (d : Decoder) → (decode_value v d).pad ≡ d.pad + pads_of v
unfolding decode_value
value_pad v d = ground arith

value_rv : (v : ℕ) (d : Decoder) → (decode_value v d).rv ≡ d.rv
unfolding decode_value
value_rv v d = refl

value_x :
    (v : ℕ) (d : Decoder)
    → bits_of v < 64
    → (decode_value v d).x % 2 ^ 24 ≡ (d.x % 2 ^ 18 * 64 + bits_of v) % 2 ^ 24
unfolding decode_value
value_x v d h = ground arith

value_keeps : (v : ℕ) (d : Decoder) → (d.count + 1) % 4 ≢ 0 → (decode_value v d).dest ≡ d.dest
unfolding decode_value
value_keeps v d h = ground arith

value_stores :
    (v : ℕ) (d : Decoder)
    → (d.count + 1) % 4 ≡ 0
    → (decode_value v d).dest
      ≡ d.dest
        ++ (decode_value v d).x % 2 ^ 24 / 2 ^ 16
          ∷ (decode_value v d).x % 2 ^ 24 / 2 ^ 8 % 256
          ∷ (decode_value v d).x % 2 ^ 24 % 256
          ∷ []
unfolding decode_value
value_stores v d h = ground arith

module _ (a b c e : ℕ) (d : Decoder) (ha : bits_of a < 64) (hb : bits_of b < 64)
    (hc : bits_of c < 64) (he : bits_of e < 64) (aligned : d.count % 4 ≡ 0) where
  d1 : Decoder
  d1 = decode_value a d

  d2 : Decoder
  d2 = decode_value b d1

  d3 : Decoder
  d3 = decode_value c d2

  d4 : Decoder
  d4 = decode_value e d3

  counts : (d1.count % 4 ≡ 1) × (d2.count % 4 ≡ 2) × (d3.count % 4 ≡ 3) × (d4.count % 4 ≡ 0)
  unfolding d1 d2 d3 d4
  counts =
      let c1 : d1.count % 4 ≡ 1 = omega (arith, value_counts a d) in
      let c2 : d2.count % 4 ≡ 2 = omega (arith, value_counts b d1) in
      let c3 : d3.count % 4 ≡ 3 = omega (arith, value_counts c d2) in
      (c1, c2, c3, omega (arith, value_counts e d3))

  group_bits :
      d4.x % 2 ^ 24 ≡ bits_of a * 2 ^ 18 + bits_of b * 2 ^ 12 + bits_of c * 2 ^ 6 + bits_of e
  unfolding d1 d2 d3 d4
  group_bits =
      let x2 : d2.x % 2 ^ 12 ≡ bits_of a * 64 + bits_of b =
        omega (arith, value_x a d ha, value_x b d1 hb) in
      let x3 : d3.x % 2 ^ 18 ≡ bits_of a * 2 ^ 12 + bits_of b * 64 + bits_of c =
        omega (arith, x2, value_x c d2 hc) in
      omega (arith, x3, value_x e d3 he)

  group_dest :
      d4.dest
      ≡ d.dest
        ++ (bits_of a * 4 + bits_of b / 16)
          ∷ (bits_of b % 16 * 16 + bits_of c / 4)
          ∷ (bits_of c % 4 * 64 + bits_of e)
          ∷ []
  unfolding d1 d2 d3 d4
  group_dest =
      value_stores e d3 (omega (arith, counts.2))
      ∙ ap₂ (λ (xs : List ℕ) (ys : List ℕ). xs ++ ys) kept bytes3
    where
      kept : d3.dest ≡ d.dest
      kept =
          value_keeps c d2 (omega (arith, counts.1))
          ∙ value_keeps b d1 (omega (arith, counts.0))
          ∙ value_keeps a d (omega arith)

      bytes3 :
          d4.x % 2 ^ 24 / 2 ^ 16 ∷ d4.x % 2 ^ 24 / 2 ^ 8 % 256 ∷ d4.x % 2 ^ 24 % 256 ∷ []
          ≡ (bits_of a * 4 + bits_of b / 16)
            ∷ (bits_of b % 16 * 16 + bits_of c / 4)
            ∷ (bits_of c % 4 * 64 + bits_of e)
            ∷ []
      bytes3 =
          rw group_bits (ap₂ ◌∷◌ (omega arith) (ap₂ ◌∷◌ (omega arith) (ap₂ ◌∷◌ (omega arith) refl)))

  group_pad : d4.pad ≡ d.pad + pads_of a + pads_of b + pads_of c + pads_of e
  unfolding d1 d2 d3 d4
  group_pad = omega (arith, value_pad a d, value_pad b d1, value_pad c d2, value_pad e d3)

  group_rv : d4.rv ≡ d.rv
  unfolding d1 d2 d3 d4
  group_rv = value_rv e d3 ∙ value_rv c d2 ∙ value_rv b d1 ∙ value_rv a d

-- What four characters with those entries do.
pub record Group (a b c e : ℕ) (d d' : Decoder) : Type 0 where
  pub aligned : d'.count % 4 ≡ 0
  pub stored :
      d'.dest
      ≡ d.dest
        ++ (bits_of a * 4 + bits_of b / 16)
          ∷ (bits_of b % 16 * 16 + bits_of c / 4)
          ∷ (bits_of c % 4 * 64 + bits_of e)
          ∷ []
  pub padded : d'.pad ≡ d.pad + pads_of a + pads_of b + pads_of c + pads_of e
  pub kept : d'.rv ≡ d.rv

pub four-Group :
    (a b c e : ℕ) (d : Decoder)
    → bits_of a < 64
    → bits_of b < 64
    → bits_of c < 64
    → bits_of e < 64
    → d.count % 4 ≡ 0
    → Group a b c e d (four a b c e d)
unfolding d1 d2 d3 d4
four-Group a b c e d ha hb hc he h = record {
  aligned = (counts a b c e d ha hb hc he h).3;
  stored = group_dest a b c e d ha hb hc he h;
  padded = group_pad a b c e d ha hb hc he h;
  kept = group_rv a b c e d ha hb hc he h;
}

-- A character with an entry `v` is read as `v`.
abbrev pub ReadsAs : ℕ → ℕ → Type 0
ReadsAs character v = (d : Decoder) → decode_byte character d ≡ some (decode_value v d)

next_character :
    (p a : ℕ) (rest : List ℕ) (d : Decoder)
    → ReadsAs p a
    → decode_bytes (p ∷ rest) d ≡ decode_bytes rest (decode_value a d)
unfolding decode_bytes
next_character p a rest d h = rw (h d, decode_bytes) refl

pub four_characters :
    (p q r s a b c e : ℕ) (rest : List ℕ) (d : Decoder)
    → ReadsAs p a
    → ReadsAs q b
    → ReadsAs r c
    → ReadsAs s e
    → decode_bytes (p ∷ q ∷ r ∷ s ∷ rest) d ≡ decode_bytes rest (four a b c e d)
four_characters p q r s a b c e rest d hp hq hr hs =
    next_character p a (q ∷ r ∷ s ∷ rest) d hp
    ∙ next_character q b (r ∷ s ∷ rest) (decode_value a d) hq
    ∙ next_character r c (s ∷ rest) (decode_value b (decode_value a d)) hr
    ∙ next_character s e rest (decode_value c (decode_value b (decode_value a d))) hs
