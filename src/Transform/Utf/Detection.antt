-- ===== src/Transform/Utf/Detection.antt =====
-- transform.c: the detection of UTF-16 by its byte order mark, and UTF-8 without one.
use book.Base.{
  ℕ, ◌+◌, ◌-◌, ◌*◌, ◌^◌, ◌<◌, ◌≤◌, ◌≡◌, refl, sym, ap, ◌∙◌, Bool, false, none, some, List, [], ◌∷◌,
  ◌++◌, ◌==◌, ◌&&◌, if◌then◌else◌, length, length-append, length-drop, Bool-cases, inl, inr, slice,
  drop, take-all, arith,
}
use book.Data.{DispatchData, leaf, get_size, create_subrange, bytes, IsValid, length-bytes}
use book.Data.Mapping.{map_bytes_lem}
use book.Data.Subrange.{create_subrange-bytes}
use book.Transform.Utf.{
  Outcome, ok, rejected, overread, ◌>>=◌, ByteOrder, little, big, load16, subrange_map,
  buffer_malloc_max,
}
use book.Transform.Utf.ToUtf16.{to_utf16}
use book.Transform.Utf.Forms.{AreScalars, utf8s, utf16s, unit16, without_bom}
use book.Transform.Utf.Widening.{to_utf16-utf8s}
use book.Transform.Utf.Units.{length-unit16}
use book.Transform.Utf.Transcoding.{Gives}
use book.Transform.Utf.Lengths.{utf16s-le, without_bom-le}

-- The types that detection tells apart.
pub data UtfType : Type 0 where
  utf8 : UtfType
  utf16_host : UtfType
  utf16_rev : UtfType

-- The type by the first 16-bit number.
unfoldable pub type_of : List ℕ → Outcome UtfType
type_of (b0 ∷ b1 ∷ rest) =
    let ch = load16 b0 b1 in
    ok (if ch == 0xfeff then utf16_host else if ch == 0xfffe then utf16_rev else utf8)
type_of (b0 ∷ []) = overread
type_of [] = overread

-- _dispatch_transform_detect_utf; a rejection is NULL.
unfoldable pub detect_utf : DispatchData → Outcome UtfType
detect_utf d = do p ← subrange_map d 0 2; type_of p

-- `memcmp(p, utf8_bom, sizeof(utf8_bom)) == 0`
unfoldable pub is_bom : List ℕ → Bool
is_bom (a ∷ b ∷ c ∷ rest) = a == 0xef && (b == 0xbb && c == 0xbf)
is_bom (a ∷ b ∷ []) = false
is_bom (a ∷ []) = false
is_bom [] = false

-- _dispatch_transform_to_utf8_without_bom
unfoldable pub to_utf8_without_bom : DispatchData → Outcome DispatchData
to_utf8_without_bom d =
    let has_bom : Bool = elim (subrange_map d 0 3) [ ok p ↦ is_bom p | _ ↦ false ] in
    let behind : Outcome DispatchData = elim (create_subrange d 3 (get_size d - 3)) [
      | none ↦ rejected
      | some c ↦ ok c.object
    ] in
    if has_bom then behind else ok d

-- The mapping of a range that an object has is its bytes, and otherwise there is none.
pub subrange_map-slice :
    (d : DispatchData) (offset size : ℕ)
    → IsValid d
    → subrange_map d offset size ≡ (
        if length (slice offset size (bytes d)) == size
        then ok (slice offset size (bytes d))
        else rejected)
unfolding subrange_map
subrange_map-slice d offset size v =
    let (c, e, vc, same) = create_subrange-bytes d offset size v in
    let n : get_size c.object ≡ length (slice offset size (bytes d)) =
      sym (length-bytes c.object vc) ∙ ap length same in
    rw (subrange_map, e, n, map_bytes_lem c.object vc, same) refl

-- The bytes without the three of a byte order mark.
unfoldable pub strip : List ℕ → List ℕ
unfolding is_bom
strip bs = if is_bom bs then drop 3 bs else bs

leading-is_bom :
    (bs : List ℕ)
    → elim (if length (slice 0 3 bs) == 3 then ok (slice 0 3 bs) else rejected) as (λ o. Bool) [
      | ok p ↦ is_bom p
      | _ ↦ false
    ]
      ≡ is_bom bs
unfolding is_bom
leading-is_bom [] = refl
leading-is_bom (a ∷ []) = refl
leading-is_bom (a ∷ b ∷ []) = refl
leading-is_bom (a ∷ b ∷ c ∷ rest) = refl

-- For every well-formed object, _dispatch_transform_to_utf8_without_bom gives a well-formed object
-- with the same bytes, less the byte order mark that they may begin with.
pub to_utf8_without_bom-strip :
    (d : DispatchData) → IsValid d → Gives (strip (bytes d)) (to_utf8_without_bom d)
unfolding to_utf8_without_bom strip
to_utf8_without_bom-strip d v =
    let (c, e, vc, same) = create_subrange-bytes d 3 (get_size d - 3) v in
    rw (subrange_map-slice d 0 3 v, leading-is_bom (bytes d))
      (elim (Bool-cases (is_bom (bytes d))) [
        | inl t ↦
            rw (t, e)
              (
                c.object,
                refl,
                vc,
                same
                    ∙ take-all (get_size d - 3) (drop 3 (bytes d))
                        (omega (arith, length-drop 3 (bytes d), length-bytes d v)),
              )
        | inr f ↦ rw f (d, refl, v, refl)
      ])

-- What _dispatch_transform_to_utf16 makes of a text is detected as UTF-16 of the host's byte order if
-- that is what it was asked for, and as UTF-16 of the other order if not.
pub detect_utf-to_utf16 :
    (order : ByteOrder) (cs : List ℕ)
    → AreScalars cs
    → 0 < length cs
    → length (utf8s cs) * 2 + 2 ≤ buffer_malloc_max
    → (to_utf16 (leaf (utf8s cs)) order >>= detect_utf)
      ≡ ok (elim order [ little ↦ utf16_host | big ↦ utf16_rev ])
unfolding detect_utf type_of unit16 bytes
detect_utf-to_utf16 order cs sc some_points small =
    let text = unit16 order 0xfeff ++ utf16s order (without_bom cs) in
    let valid : length text < 2 ^ 64 = omega (
      arith,
      length-append (unit16 order 0xfeff) (utf16s order (without_bom cs)),
      length-unit16 order 0xfeff,
      utf16s-le order (without_bom cs),
      without_bom-le cs,
    ) in
    rw (to_utf16-utf8s order cs sc some_points small, subrange_map-slice (leaf text) 0 2 valid)
      (by_mark order (utf16s order (without_bom cs)))
  where
    by_mark :
        (o : ByteOrder) (rest : List ℕ)
        → ((if length (slice 0 2 (unit16 o 0xfeff ++ rest)) == 2
              then ok (slice 0 2 (unit16 o 0xfeff ++ rest))
              else rejected)
            >>= type_of)
          ≡ ok (elim o [ little ↦ utf16_host | big ↦ utf16_rev ])
    by_mark little rest = refl
    by_mark big rest = refl
