-- ===== src/Transform/Rejecting.antt =====
-- transform.c: characters that a base32 decoder refuses.
use mathlib.Core.Path.{subst}
use book.Base.{
  ℕ, ◌≤◌, ◌<◌, ◌≡◌, refl, ◌∙◌, ap, Bool, false, none, List, [], ◌∷◌, ◌++◌, length, arith,
}
use book.Data.{DispatchData, bytes, IsValid}
use book.Data.Regions.{Region, Contiguous, visit, regions, apply-visit, regions-Contiguous}
use book.Transform.Tables.{base32hex_decode_table, base32hex_decode_table_size}
use book.Transform.Base64.{Decoder, Decoded, going, rejected, start}
use book.Transform.Base32.{
  read_byte, read_bytes, read_region, from_base32_with_table, from_base32hex,
}

module _ (table : List ℕ) (table_size : ℕ) where
  -- A character past the end of the table ends the loop.
  past_table :
      (c : ℕ) (cs : List ℕ) (d : Decoder)
      → 33 ≤ c
      → table_size ≤ c
      → read_bytes table table_size (c ∷ cs) d ≡ none
  unfolding read_bytes read_byte
  past_table c cs d printable past = ground arith

  region_rejected :
      (object : DispatchData) (offset : ℕ) (buf rest : List ℕ) (c : ℕ) (cs : List ℕ)
      → 33 ≤ c
      → table_size ≤ c
      → 0 < length buf
      → c ∷ cs ≡ buf ++ rest
      → read_region table table_size object offset buf (going start) ≡ (rejected, false)
  unfolding read_region
  region_rejected object offset [] rest c cs printable past some_bytes h = absurd (omega arith)
  region_rejected object offset (b ∷ bs) rest c cs printable past some_bytes h =
      let same : c ≡ b = cc in
      rw (past_table b bs start (omega (arith, same)) (omega (arith, same)), read_region) refl

  first_region :
      (rs : List Region) (c : ℕ) (cs : List ℕ)
      → 33 ≤ c
      → table_size ≤ c
      → Contiguous 0 rs (c ∷ cs)
      → (visit (read_region table table_size) rs (going start)).0 ≡ rejected
  unfolding visit
  first_region [] c cs printable past h = absurd (omega (arith, ap length h))
  first_region (r ∷ rs) c cs printable past (rest, e, some_bytes, split, more) =
      rw (region_rejected r.object r.offset r.buf rest c cs printable past some_bytes split) refl

-- _dispatch_transform_from_base32hex refuses every well-formed object whose first byte is 33 or more,
-- which every character of the alphabet is.
pub from_base32hex-rejected :
    (d : DispatchData) (c : ℕ) (cs : List ℕ)
    → IsValid d
    → bytes d ≡ c ∷ cs
    → 33 ≤ c
    → from_base32hex d ≡ rejected
unfolding from_base32hex from_base32_with_table
from_base32hex-rejected d c cs v h past =
    let f = read_region base32hex_decode_table base32hex_decode_table_size in
    ap (λ (t : Decoded × Bool). t.0) (apply-visit f d (going start) v)
    ∙ first_region base32hex_decode_table base32hex_decode_table_size (regions d) c cs past past
        (subst (λ bs. Contiguous 0 (regions d) bs) h (regions-Contiguous d v))
