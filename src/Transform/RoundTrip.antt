-- ===== src/Transform/RoundTrip.antt =====
-- transform.c: what _dispatch_transform_from_base64 makes of the characters of RFC 4648.
use mathlib.Core.Path.{ap₂}
use mathlib.Core.List.{append-nil, append_assoc}
use book.Base.{
  ℕ, Bool, false, ◌+◌, ◌*◌, ◌/◌, ◌%◌, ◌^◌, ◌<◌, ◌≡◌, refl, sym, ◌∙◌, ap, Option, none, some, List,
  [], ◌∷◌, ◌++◌, ◌≤◌, true, arith, if◌then◌else◌, length, length-append, take, take-append_le,
  take-all, sub64, leb,
}
use book.Data.{DispatchData, leaf, data_empty}
use book.Data.Access.{apply}
use book.Data.Regions.{apply-visit, visit}
use book.Transform.Tables.{padc}
use book.Transform.Base64.{
  Decoder, Decoded, going, rejected, overrun, decode_bytes, finish_region, decode_region,
  from_base64, start,
}
use book.Transform.Rfc4648.{character, encode, AreBytes}
use book.Data.{create_concat}
use book.Transform.Base64.Decoding.{
  bits_of, pads_of, four, Group, four-Group, four_characters, decode_character, decode_equals,
}

-- The zero bytes that the padding of the last group stands for.
unfoldable pub filler : List ℕ → List ℕ
filler [] = []
filler (a ∷ []) = 0 ∷ 0 ∷ []
filler (a ∷ b ∷ []) = 0 ∷ []
filler (a ∷ b ∷ c ∷ rest) = filler rest

-- What the loop has done after the characters of `bs`.
record Reads (bs : List ℕ) (d : Decoder) : Type 0 where
  last : Decoder
  result : decode_bytes (encode bs) d ≡ some last
  stored : last.dest ≡ d.dest ++ (bs ++ filler bs)
  padded : last.pad ≡ d.pad + length (filler bs)
  kept : last.rv ≡ d.rv

small : (v : ℕ) → v < 64 → (bits_of v ≡ v) × (pads_of v ≡ 0)
small v h = ground arith

-- The bytes that a group stores, from the values of its entries.
stored_bytes :
    (p q r s : ℕ) (d d' : Decoder) (x y z : ℕ)
    → Group p q r s d d'
    → bits_of p * 4 + bits_of q / 16 ≡ x
    → bits_of q % 16 * 16 + bits_of r / 4 ≡ y
    → bits_of r % 4 * 64 + bits_of s ≡ z
    → d'.dest ≡ d.dest ++ x ∷ y ∷ z ∷ []
stored_bytes p q r s d d' x y z g hx hy hz =
    g.stored ∙ ap (λ (t : List ℕ). d.dest ++ t) (ap₂ ◌∷◌ hx (ap₂ ◌∷◌ hy (ap₂ ◌∷◌ hz refl)))

encode-Reads : (bs : List ℕ) (d : Decoder) → AreBytes bs → d.count % 4 ≡ 0 → Reads bs d
unfolding encode filler decode_bytes
encode-Reads [] d v h = record {
  last = d;
  result = refl;
  stored = sym (append-nil d.dest);
  padded = omega arith;
  kept = refl;
}
encode-Reads (a ∷ []) d v h =
    let p = a / 4 in
    let q = a % 4 * 16 in
    let hp = small p (omega arith) in
    let hq = small q (omega arith) in
    let g = four-Group p q padc padc d (omega arith) (omega arith) (omega arith) (omega arith) h in
    record {
      last = four p q padc padc d;
      result =
          four_characters (character p) (character q) 61 61 p q padc padc [] d
            (λ e. decode_character p e (omega arith)) (λ e. decode_character q e (omega arith))
            decode_equals decode_equals;
      stored = stored_bytes p q padc padc d _ a 0 0 g (omega arith) (omega arith) refl;
      padded = omega (arith, g.padded);
      kept = g.kept;
    }
encode-Reads (a ∷ b ∷ []) d v h =
    let p = a / 4 in
    let q = a % 4 * 16 + b / 16 in
    let r = b % 16 * 4 in
    let hp = small p (omega arith) in
    let hq = small q (omega arith) in
    let hr = small r (omega arith) in
    let g = four-Group p q r padc d (omega arith) (omega arith) (omega arith) (omega arith) h in
    record {
      last = four p q r padc d;
      result =
          four_characters (character p) (character q) (character r) 61 p q r padc [] d
            (λ e. decode_character p e (omega arith)) (λ e. decode_character q e (omega arith))
            (λ e. decode_character r e (omega arith)) decode_equals;
      stored = stored_bytes p q r padc d _ a b 0 g (omega arith) (omega arith) (omega arith);
      padded = omega (arith, g.padded);
      kept = g.kept;
    }
encode-Reads (a ∷ b ∷ c ∷ rest) d v h =
    let p = a / 4 in
    let q = a % 4 * 16 + b / 16 in
    let r = b % 16 * 4 + c / 64 in
    let s = c % 64 in
    let hp = small p (omega arith) in
    let hq = small q (omega arith) in
    let hr = small r (omega arith) in
    let hs = small s (omega arith) in
    let g = four-Group p q r s d (omega arith) (omega arith) (omega arith) (omega arith) h in
    let more = encode-Reads rest (four p q r s d) v.1.1.1 g.aligned in
    record {
      last = more.last;
      result =
          four_characters (character p) (character q) (character r) (character s) p q r s
            (encode rest) d (λ e. decode_character p e (omega arith))
            (λ e. decode_character q e (omega arith)) (λ e. decode_character r e (omega arith))
            (λ e. decode_character s e (omega arith))
          ∙ more.result;
      stored =
          more.stored
          ∙ ap (λ (t : List ℕ). t ++ (rest ++ filler rest))
              (stored_bytes p q r s d _ a b c g (omega arith) (omega arith) (omega arith))
          ∙ append_assoc d.dest (a ∷ b ∷ c ∷ []) (rest ++ filler rest);
      padded = omega (arith, more.padded, g.padded);
      kept = more.kept ∙ g.kept;
    }

length-filler : (bs : List ℕ) → length (filler bs) ≤ 2
unfolding filler
length-filler [] = omega arith
length-filler (a ∷ []) = omega arith
length-filler (a ∷ b ∷ []) = omega arith
length-filler (a ∷ b ∷ c ∷ rest) = length-filler rest

-- The object that the transform returns; `none` if it does not return one.
abbrev pub returned : Decoded → Option DispatchData
returned (going d) = some d.rv
returned rejected = none
returned (overrun final) = none

-- Taking the padding off leaves the bytes.
unpad :
    (bs : List ℕ)
    → length bs + 2 < 2 ^ 64
    → (sub64 (length (bs ++ filler bs)) (length (filler bs)) ≡ length bs)
      × (leb (length bs) (length (bs ++ filler bs)) ≡ true)
      × (take (length bs) (bs ++ filler bs) ≡ bs)
unpad bs h =
    let more = length-append bs (filler bs) in
    let few = length-filler bs in
    (
      omega (arith, more, few),
      ground (arith, more),
      take-append_le (length bs) bs (filler bs) (omega arith)
          ∙ take-all (length bs) bs (omega arith),
    )

finish_bytes :
    (x count pad : ℕ) (rv : DispatchData) (dest bs : List ℕ)
    → rv ≡ data_empty
    → dest ≡ bs ++ filler bs
    → pad ≡ length (filler bs)
    → length bs + 2 < 2 ^ 64
    → returned (finish_region (record { x = x; count = count; pad = pad; rv = rv; dest = dest }))
      ≡ some (leaf bs)
unfolding finish_region create_concat
finish_bytes x count pad rv dest bs er ed ep h =
    let u = unpad bs h in rw (er, ed, ep, u.0, u.1, u.2) refl

region_bytes :
    (region : DispatchData) (offset : ℕ) (bs : List ℕ)
    → AreBytes bs
    → length bs + 2 < 2 ^ 64
    → returned (decode_region region offset (encode bs) (going start)).0 ≡ some (leaf bs)
unfolding decode_region
region_bytes region offset bs v h =
    let r = encode-Reads bs start v refl in
    rw (r.result, decode_region)
      (finish_bytes r.last.x r.last.count r.last.pad r.last.rv r.last.dest bs r.kept r.stored
        (omega (arith, r.padded)) h)

one_call :
    (t : Decoded × Bool) → (if◌then◌else◌ {A = Decoded × Bool} t.1 (t.0, true) (t.0, false)).0 ≡ t.0
one_call (s, true) = refl
one_call (s, false) = refl

-- On a leaf, the transform is one call of the block.
pub leaf_region :
    (cs : List ℕ)
    → 0 < length cs
    → length cs < 2 ^ 64
    → from_base64 (leaf cs) ≡ (decode_region (leaf cs) 0 cs (going start)).0
unfolding from_base64 visit
leaf_region [] some_left h = absurd (omega arith)
leaf_region (c ∷ cs) some_left h =
    ap (λ (t : Decoded × Bool). t.0) (apply-visit decode_region (leaf (c ∷ cs)) (going start) h)
    ∙ one_call (decode_region (leaf (c ∷ cs)) 0 (c ∷ cs) (going start))

encode_pos : (bs : List ℕ) → 0 < length bs → 0 < length (encode bs)
unfolding encode
encode_pos [] h = absurd (omega arith)
encode_pos (a ∷ []) h = omega arith
encode_pos (a ∷ b ∷ []) h = omega arith
encode_pos (a ∷ b ∷ c ∷ rest) h = omega arith

-- What RFC 4648 encodes decodes to the same bytes, however many they are, as long as the characters
-- fit a size_t.
pub from_base64-encode :
    (bs : List ℕ)
    → AreBytes bs
    → length bs + 2 < 2 ^ 64
    → length (encode bs) < 2 ^ 64
    → returned (from_base64 (leaf (encode bs))) ≡ some (leaf bs)
unfolding encode from_base64 apply
from_base64-encode [] v h few = refl
from_base64-encode (a ∷ bs) v h few =
    let whole = encode (a ∷ bs) in
    ap returned (leaf_region whole (encode_pos (a ∷ bs) (omega arith)) few)
    ∙ region_bytes (leaf whole) 0 (a ∷ bs) v h
