-- ===== src/Transform/LastByte.antt =====
-- transform.c, _dispatch_data_subrange_map as the base64 encoder calls it: the byte before a region.
use book.Base.{
  ℕ, zero, suc, ◌+◌, ◌-◌, ◌<◌, ◌≡◌, refl, ◌∙◌, ap, Option, none, some, List, [], ◌∷◌, ◌++◌, length,
  take, drop, slice, get_elem?, arith,
}
use book.Data.{DispatchData, leaf, composite, nil, cons, get_size}
use book.Data.{bytes, IsValid, length-bytes}
use book.Data.Access.{map_direct}
use book.Data.Subrange.{create_subrange-bytes}
use book.Transform.Base64.{last_byte, subrange_byte}

first_of_take :
    (len : ℕ) (ys : List ℕ) (x : ℕ) → take len ys ++ [] ≡ x ∷ [] → get_elem? ys 0 ≡ some x
first_of_take zero ys x h = absurd (omega (arith, ap length h))
first_of_take (suc n) [] x h = absurd (omega (arith, ap length h))
first_of_take (suc n) (y ∷ ys) x h = cc

first_of : Option (List ℕ) → Option ℕ
first_of none = none
first_of (some buf) = get_elem? buf 0

-- An object of one byte is mapped directly.
direct_byte :
    (c : DispatchData) (x : ℕ)
    → IsValid c
    → bytes c ≡ x ∷ []
    → first_of (map_direct c 0).buffer ≡ some x
unfolding bytes map_direct first_of
direct_byte (leaf buf) x v h = rw h refl
direct_byte (composite flat size nil) x v h = absurd (omega arith)
direct_byte (composite flat size (cons (leaf buf) from len nil)) x v h =
    let z : 0 + from ≡ from = omega arith in rw z (first_of_take len (drop from buf) x h)
direct_byte (composite flat size (cons (composite g n rs) from len nil)) x v h = absurd v.3.0
direct_byte (composite flat size (cons (leaf buf) from len (cons (leaf buf') from' len' rest))) x v
      h =
    absurd (
      omega (
        arith,
        ap length h,
        length-bytes
            (composite flat size (cons (leaf buf) from len (cons (leaf buf') from' len' rest))) v,
      ))
direct_byte (composite flat size (cons (composite g n rs) from len (cons p from' len' rest))) x v
      h =
    absurd v.3.0
direct_byte
      (composite flat size (cons (leaf buf) from len (cons (composite g n rs) from' len' rest))) x v
      h =
    absurd v.3.1.0

-- Where the byte is, the helper finds it.
subrange_byte-slice :
    (d : DispatchData) (offset x : ℕ)
    → IsValid d
    → slice offset 1 (bytes d) ≡ x ∷ []
    → subrange_byte d offset ≡ some x
unfolding subrange_byte first_of
subrange_byte-slice d offset x v h =
    let g = create_subrange-bytes d offset 1 v in
    let same = g.3 ∙ h in
    let one : get_size g.0.object ≡ 1 =
      omega (arith, ap length same, length-bytes g.0.object g.2) in
    rw (g.1, one, subrange_byte) (direct_byte g.0.object x g.2 same)

last_slice :
    (before : ℕ) (pre rest : List ℕ)
    → 0 < length pre
    → slice (length pre - 1) 1 (pre ++ rest) ≡ last_byte before pre ∷ []
unfolding last_byte
last_slice before [] rest h = absurd (omega arith)
last_slice before (x ∷ []) rest h = refl
last_slice before (x ∷ y ∷ pre) rest h =
    let e : length (x ∷ y ∷ pre) - 1 ≡ suc (length (y ∷ pre) - 1) = omega arith in
    rw e (last_slice x (y ∷ pre) rest (omega arith))

-- The byte before the bytes `rest` of an object.
pub subrange_byte-last :
    (d : DispatchData) (pre rest : List ℕ)
    → IsValid d
    → bytes d ≡ pre ++ rest
    → 0 < length pre
    → subrange_byte d (length pre - 1) ≡ some (last_byte 0 pre)
subrange_byte-last d pre rest v h some_before =
    subrange_byte-slice d (length pre - 1) (last_byte 0 pre) v
      (ap (slice (length pre - 1) 1) h ∙ last_slice 0 pre rest some_before)
