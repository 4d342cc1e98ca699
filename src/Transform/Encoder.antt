-- ===== src/Transform/Encoder.antt =====
-- transform.c: what _dispatch_transform_to_base64 makes of an object, however it is fragmented.
use mathlib.Core.Path.{subst}
use mathlib.Core.List.{append-nil, append_assoc}
use book.Base.{
  ℕ, ◌+◌, ◌-◌, ◌*◌, ◌/◌, ◌%◌, ◌^◌, ◌<◌, ◌≡◌, refl, sym, ◌∙◌, ap, Bool, true, false, Option, some,
  List, [], ◌∷◌, ◌++◌, ◌==◌, leb, length, length-append, add64, arith, if◌then◌else◌,
}
use native.Mathlib.Decide.{ℕ_discrete as dec_eq}
use book.Data.{DispatchData, leaf, get_size, bytes, IsValid, length-bytes}
use book.Data.Access.{apply}
use book.Data.Regions.{Region, Contiguous, visit, regions, apply-visit, regions-Contiguous}
use book.Transform.Base64.{
  Encoder, encode_bytes, encode_region, padding, last_byte, subrange_byte, to_base64, from_base64,
}
use book.Transform.Base64.Encoding.{
  count_irrelevant, last_irrelevant, encode_bytes-append, last_byte-append, characters,
  characters-encode,
}
use book.Transform.RoundTrip.{returned, from_base64-encode}
use book.Transform.LastByte.{subrange_byte-last}
use book.Transform.Rfc4648.{encode, AreBytes}

-- The encoder's state once the bytes `pre` have been read and others follow.
abbrev midway : List ℕ → Encoder
midway pre = record { count = length pre; out = encode_bytes 0 0 pre }

-- Its state at the end of a region: with padding, if nothing follows.
abbrev closed : List ℕ → ℕ → Encoder
closed pre size = record {
  count = length pre;
  out =
      encode_bytes 0 0 pre
      ++ (if length pre == size then padding (length pre % 3) (last_byte 0 pre) else []);
}

-- The byte that the loop takes as the one before the region.
record Before (d : DispatchData) (pre buf : List ℕ) : Type 0 where
  last : ℕ
  found : (if length pre % 3 == 0 then some 0 else subrange_byte d (length pre - 1)) ≡ some last
  same_out : encode_bytes (length pre) last buf ≡ encode_bytes (length pre) (last_byte 0 pre) buf

module _ (d : DispatchData) (v : IsValid d) where
  before : (pre buf rest : List ℕ) → bytes d ≡ pre ++ rest → Before d pre buf
  before pre buf rest h = elim (dec_eq (length pre % 3) 0) [
    | yes e ↦ record {
      last = 0;
      found = rw e refl;
      same_out = last_irrelevant (length pre) 0 (last_byte 0 pre) buf e;
    }
    | no e ↦ record {
      last = last_byte 0 pre;
      found = let s = subrange_byte-last d pre rest v h (omega arith) in ground arith;
      same_out = refl;
    }
  ]

  -- The block on one region.
  region_step :
      (object : DispatchData) (pre buf rest : List ℕ)
      → bytes d ≡ pre ++ rest
      → 0 < length buf
      → encode_region d object (length pre) buf (some (midway pre))
        ≡ (some (closed (pre ++ buf) (get_size d)), true)
  unfolding encode_region last_byte
  region_step object pre [] rest h some_bytes = absurd (omega arith)
  region_step object pre (x ∷ xs) rest h some_bytes =
      let buf = x ∷ xs in
      let b = before pre buf rest h in
      let total : length pre + length buf ≡ length (pre ++ buf) =
        omega (arith, length-append pre buf) in
      let out : encode_bytes 0 0 pre ++ encode_bytes (length pre) b.last buf
          ≡ encode_bytes 0 0 (pre ++ buf) =
        ap (λ (t : List ℕ). encode_bytes 0 0 pre ++ t)
          (b.same_out
            ∙ count_irrelevant (length pre) (0 + length pre) (last_byte 0 pre) buf (omega arith))
        ∙ sym (encode_bytes-append 0 0 pre buf) in
      let ends = last_byte-append 0 pre buf in
      rw (b.found, encode_region) (rw (total, out, sym ends) refl)

  closed-midway : (pre : List ℕ) → length pre < get_size d → closed pre (get_size d) ≡ midway pre
  closed-midway pre h =
      let e : (length pre == get_size d) ≡ false = ground arith in
      rw e (
        ap (λ (t : List ℕ). record { count = length pre; out = t })
          (append-nil (encode_bytes 0 0 pre)))

  -- The block on regions that lie one after another up to the end.
  visit_regions :
      (rs : List Region) (pre rest : List ℕ)
      → bytes d ≡ pre ++ rest
      → Contiguous (length pre) rs rest
      → visit (encode_region d) rs (some (closed pre (get_size d)))
        ≡ (some (closed (bytes d) (get_size d)), true)
  unfolding visit
  visit_regions [] pre rest h c =
      let e : pre ≡ bytes d = sym (h ∙ ap (λ (t : List ℕ). pre ++ t) c ∙ append-nil pre) in
      ap (λ (t : List ℕ). (some (closed t (get_size d)), true)) e
  visit_regions (r ∷ rs) pre rest h (rest', e_offset, some_bytes, e_rest, more) =
      let split : bytes d ≡ pre ++ r.buf ++ rest' =
        h ∙ ap (λ (t : List ℕ). pre ++ t) e_rest ∙ sym (append_assoc pre r.buf rest') in
      let inside : length pre < get_size d = omega (
        arith,
        ap length h,
        ap length e_rest,
        length-append pre rest,
        length-append r.buf rest',
        length-bytes d v,
      ) in
      let next : length pre + length r.buf ≡ length (pre ++ r.buf) =
        omega (arith, length-append pre r.buf) in
      rw (closed-midway pre inside, e_offset, region_step r.object pre r.buf rest h some_bytes)
        (visit_regions rs (pre ++ r.buf) rest' split (subst (λ n. Contiguous n rs rest') next more))

length-encode : (bs : List ℕ) → length (encode bs) ≡ (length bs + 2) / 3 * 4
unfolding encode
length-encode [] = refl
length-encode (x ∷ []) = refl
length-encode (x ∷ y ∷ []) = refl
length-encode (x ∷ y ∷ z ∷ rest) = omega (arith, length-encode rest)

closed_start : (size : ℕ) → closed [] size ≡ record { count = 0; out = [] }
unfolding encode_bytes padding
closed_start size = ground arith

closed_end :
    (bs : List ℕ) (size : ℕ) → AreBytes bs → length bs ≡ size → (closed bs size).out ≡ encode bs
unfolding characters
closed_end bs size v e =
    let z : 0 + length bs ≡ length bs = omega arith in
    let same : (length bs == size) ≡ true = ground arith in
    rw same (
      subst (λ n. encode_bytes 0 0 bs ++ padding (n % 3) (last_byte 0 bs) ≡ encode bs) z
        (characters-encode 0 0 bs v refl))

encoded :
    (d : DispatchData)
    → IsValid d
    → (apply (encode_region d) d (some (record { count = 0; out = [] }))).0
      ≡ some (closed (bytes d) (get_size d))
encoded d v =
    ap (λ (t : Option Encoder × Bool). t.0)
      (apply-visit (encode_region d) d (some (record { count = 0; out = [] })) v
        ∙ ap (λ (t : Encoder). visit (encode_region d) (regions d) (some t))
            (sym (closed_start (get_size d)))
        ∙ visit_regions d v (regions d) [] (bytes d) refl (regions-Contiguous d v))

-- For a well-formed object of bytes, in however many regions, whose encoding fits a size_t,
-- _dispatch_transform_to_base64 gives the characters that RFC 4648 prescribes for its bytes, and they
-- fill the allocated buffer exactly.
pub to_base64-encode :
    (d : DispatchData)
    → IsValid d
    → AreBytes (bytes d)
    → (get_size d + 2) / 3 * 4 < 2 ^ 64
    → to_base64 d ≡ some (leaf (encode (bytes d)))
unfolding to_base64
to_base64-encode d v b h =
    let size = length-bytes d v in
    let out = closed_end (bytes d) (get_size d) b size in
    let dest_size : add64 (get_size d) 2 / 3 ≡ (get_size d + 2) / 3 = omega arith in
    let fits : leb ((get_size d + 2) / 3) ((2 ^ 64 - 1) / 4) ≡ true = ground arith in
    let full : (length (encode (bytes d)) == (get_size d + 2) / 3 * 4) ≡ true =
      ground (arith, length-encode (bytes d)) in
    rw (encoded d v, out, dest_size, fits, full) refl

-- Encoding such an object and decoding the result gives its bytes back, as one leaf.
pub from_base64-to_base64 :
    (d : DispatchData)
    → IsValid d
    → AreBytes (bytes d)
    → (get_size d + 2) / 3 * 4 < 2 ^ 64
    → (e : DispatchData) × (to_base64 d ≡ some e)
      × (returned (from_base64 e) ≡ some (leaf (bytes d)))
from_base64-to_base64 d v b h =
    let size = length-bytes d v in
    (
      leaf (encode (bytes d)),
      to_base64-encode d v b h,
      from_base64-encode (bytes d) b (omega arith) (omega (arith, length-encode (bytes d))),
    )
