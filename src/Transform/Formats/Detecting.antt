-- ===== src/Transform/Formats/Detecting.antt =====
-- transform.c, dispatch_data_create_with_transform: text in UTF-16, with its byte order detected.
use book.Base.{
  ℕ, ◌+◌, ◌*◌, ◌<◌, ◌≤◌, ◌≡◌, refl, sym, ap, ◌∙◌, false, List, ◌++◌, ◌==◌, length, length-append,
  arith,
}
use book.Data.{DispatchData, leaf, get_size}
use book.Transform.Utf.{Outcome, ok, ◌>>=◌, ByteOrder, little, big, buffer_malloc_max}
use book.Transform.Utf.ToUtf16.{to_utf16}
use book.Transform.Utf.FromUtf16.{from_utf16}
use book.Transform.Utf.Detection.{
  utf16_host, utf16_rev, detect_utf, to_utf8_without_bom, strip, detect_utf-to_utf16,
  to_utf8_without_bom-strip,
}
use book.Transform.Utf.Forms.{AreScalars, utf8s, utf16s, unit16, without_bom}
use book.Transform.Utf.Widening.{to_utf16-utf8s, utf8s-pos}
use book.Transform.Utf.Units.{length-unit16}
use book.Transform.Utf.Transcoding.{Gives, from_utf16-to_utf16}
use book.Transform.Formats.{
  Format, utf8, utf16le, utf16be, utf_any, decode, encode, input_format, create_with_transform,
}

-- The UTF-16 format in a byte order.
abbrev pub in_order : ByteOrder → Format
in_order little = utf16le
in_order big = utf16be

to_text16 :
    (order : ByteOrder) (d : DispatchData)
    → 0 < get_size d
    → create_with_transform d utf8 (in_order order) ≡ to_utf16 d order
unfolding create_with_transform input_format decode encode
to_text16 little d h = let e : (get_size d == 0) ≡ false = ground arith in rw e refl
to_text16 big d h = let e : (get_size d == 0) ≡ false = ground arith in rw e refl

from_any :
    (order : ByteOrder) (d : DispatchData)
    → 0 < get_size d
    → detect_utf d ≡ ok (elim order [ little ↦ utf16_host | big ↦ utf16_rev ])
    → create_with_transform d utf_any utf8 ≡ (from_utf16 d order >>= to_utf8_without_bom)
unfolding create_with_transform input_format decode encode
from_any little d h t = let e : (get_size d == 0) ≡ false = ground arith in rw (t, e) refl
from_any big d h t = let e : (get_size d == 0) ≡ false = ground arith in rw (t, e) refl

-- UTF-8 text that is transformed to UTF-16, in either byte order, and then back from "any UTF" comes
-- back as it was, less a byte order mark, or two, at its beginning: the byte order is detected. The
-- text is of scalar values, in one region of less than 50 MB.
pub create_with_transform-utf_any :
    (order : ByteOrder) (cs : List ℕ)
    → AreScalars cs
    → 0 < length cs
    → length (utf8s cs) * 2 + 6 ≤ buffer_malloc_max
    → Gives (strip (utf8s (without_bom cs))) (
        create_with_transform (leaf (utf8s cs)) utf8 (in_order order) >>= λ d.
        create_with_transform d utf_any utf8)
create_with_transform-utf_any order cs sc some_points small =
    let t = leaf (unit16 order 0xfeff ++ utf16s order (without_bom cs)) in
    let e1 : to_utf16 (leaf (utf8s cs)) order ≡ ok t =
      to_utf16-utf8s order cs sc some_points (omega arith) in
    let detected : detect_utf t ≡ ok (elim order [ little ↦ utf16_host | big ↦ utf16_rev ]) =
      ap (λ (o : Outcome DispatchData). o >>= detect_utf) (sym e1)
      ∙ detect_utf-to_utf16 order cs sc some_points (omega arith) in
    let some_size : 0 < get_size t = omega (
      arith,
      length-append (unit16 order 0xfeff) (utf16s order (without_bom cs)),
      length-unit16 order 0xfeff,
    ) in
    let (d1, e2, v, b) = from_utf16-to_utf16 order cs sc some_points small in
    let e3 : from_utf16 t order ≡ ok d1 =
      ap (λ (o : Outcome DispatchData). o >>= λ d. from_utf16 d order) (sym e1) ∙ e2 in
    let (d2, e4, v2, b2) = to_utf8_without_bom-strip d1 v in
    (
      d2,
      rw
          (
            to_text16 order (leaf (utf8s cs)) (utf8s-pos cs some_points),
            e1,
            from_any order t some_size detected,
            e3,
          )
          e4,
      v2,
      b2 ∙ ap strip b,
    )
