-- ===== src/Transform/Utf/Transcoding.antt =====
-- transform.c: the UTF-16 transforms of a text in one region, there and back.
use native.Mathlib.Decide.{ℕ_discrete as dec_eq}
use book.Base.{
  ℕ, suc, ◌+◌, ◌-◌, ◌*◌, ◌/◌, ◌%◌, ◌<◌, ◌≤◌, ◌≡◌, refl, sym, ap, ◌∙◌, inl, inr, true, false, List,
  [], ◌∷◌, ◌++◌, ◌==◌, ◌&&◌, ltb, leb, length, length-append, drop, arith,
}
use book.Data.{DispatchData, leaf, bytes, IsValid}
use book.Data.Regions.{apply-leaf}
use book.Transform.Utf.{Outcome, ok, ◌>>=◌, Buffer, no_buffer, buffer_malloc_max, ByteOrder}
use book.Transform.Utf.ToUtf16.{Cursor, Progress, to_utf16}
use book.Transform.Utf.FromUtf16.{
  transcribe, convert, convert_region, from_utf16, from_utf16_region,
}
use book.Transform.Utf.Forms.{AreScalars, utf16, utf8s, utf16s, without_bom, unit16}
use book.Transform.Utf.Filling.{Holds, buffer_new-Opened}
use book.Transform.Utf.Units.{
  units, first_unit, here, next_unit-first, units-utf16, drop-unit16, length-unit16,
}
use book.Transform.Utf.Narrowing.{Done, convert-utf16s}
use book.Transform.Utf.Widening.{to_utf16-utf8s}
use book.Transform.Utf.Lengths.{utf16s-even, utf8s-le, utf16s-le, without_bom-le, utf16s-pos}

-- The text does not begin with U+FFFE, which is no character.
abbrev pub IsForward : List ℕ → Type 0
IsForward [] = Unit
IsForward (c ∷ cs) = ¬ (c ≡ 0xfffe)

module _ (order : ByteOrder) (whole : DispatchData) (size max : ℕ) (even : max ≡ size / 2) where
  -- The loop on a text that begins with a byte order mark, which is read and not written.
  convert_mark :
      (fuel c : ℕ) (cs : List ℕ) (b : Buffer)
      → AreScalars cs
      → c ≡ 0xfeff
      → Holds b []
      → length (utf16s order (c ∷ cs)) ≡ size
      → size + 4 ≤ buffer_malloc_max
      → max ≤ suc fuel
      → Done
          (convert order whole 0 size max
            (suc fuel)
            (record { buffer = b; skip = 0; i = 0; src = utf16s order (c ∷ cs) }))
          max
          (utf8s cs)
  unfolding convert utf16s
  convert_mark fuel c cs b sc y h e fits enough =
      let total = length-append (utf16 order c) (utf16s order cs) in
      let n = units-utf16 order c in
      let one : ltb c 0x10000 ≡ true = ground arith in
      let single : units c ≡ 1 = ground arith in
      let more : ltb 0 max ≡ true = ground arith in
      let rest = utf16s order cs in
      let not_reversed : (first_unit c == 0xfffe && (0 == 0 && 0 == 0)) ≡ false = ground arith in
      let mark : (first_unit c == 0xfeff && (0 == 0 && 0 == 0)) ≡ true = ground arith in
      let behind : drop 2 (utf16 order c ++ rest) ≡ rest =
        unfold utf16 in rw one (drop-unit16 order c rest) in
      let skipped : transcribe order whole 0 max (here order whole b 0 c rest)
            (record { wch = first_unit c; behind = here order whole b 0 c rest })
          ≡ ok (record { buffer = b; skip = 0; i = 1; src = rest }) =
        unfold transcribe in rw (not_reversed, mark, behind) refl in
      let d =
        convert-utf16s order whole size max even fuel cs b 1 [] sc h (omega arith)
          (omega (arith, utf8s-le order cs)) fits (inl (omega arith)) (omega arith) in
      record {
        buffer = d.buffer;
        result =
            rw (more, next_unit-first order whole b 0 c rest 0 size max (omega arith) even, skipped)
              d.result;
        holds = d.holds;
      }

  convert_text :
      (cs : List ℕ) (b : Buffer)
      → AreScalars cs
      → IsForward cs
      → Holds b []
      → length (utf16s order cs) ≡ size
      → size + 4 ≤ buffer_malloc_max
      → Done
          (convert order whole 0 size max max
            (record { buffer = b; skip = 0; i = 0; src = utf16s order cs }))
          max
          (utf8s (without_bom cs))
  convert_text [] b sc forward h e fits =
      let same : without_bom [] ≡ [] = unfold without_bom in refl in
      rw same (
        convert-utf16s order whole size max even max [] b 0 [] sc h (omega arith)
          (omega (arith, utf8s-le order [])) fits (inr tt) (omega arith))
  convert_text (c ∷ cs) b sc forward h e fits = elim (dec_eq c 0xfeff) [
    | no n ↦
        let same : without_bom (c ∷ cs) ≡ c ∷ cs = unfold without_bom in ground arith in
        rw same (
          convert-utf16s order whole size max even max (c ∷ cs) b 0 [] sc h (omega arith)
            (omega (arith, utf8s-le order (c ∷ cs))) fits (inr (n, forward)) (omega arith))
    | yes y ↦
        let same : without_bom (c ∷ cs) ≡ cs = unfold without_bom in ground arith in
        let one_more : suc (max - 1) ≡ max =
          omega (arith, utf16s-pos order (c ∷ cs) (omega arith), utf16s-even order (c ∷ cs)) in
        let c0 : Cursor = record { buffer = b; skip = 0; i = 0; src = utf16s order (c ∷ cs) } in
        let d = convert_mark (max - 1) c cs b sc.1 y h e fits (omega arith) in
        rw same (record {
          buffer = d.buffer;
          result = ap (λ (f : ℕ). convert order whole 0 size max f c0) (sym one_more) ∙ d.result;
          holds = d.holds;
        })
  ]

-- A transform's result: a well-formed object with the bytes.
abbrev pub Gives : List ℕ → Outcome DispatchData → Type 0
Gives w r = (d : DispatchData) × (r ≡ ok d) × IsValid d × (bytes d ≡ w)

-- The block on a region that is a whole text.
region-text :
    (order : ByteOrder) (d : DispatchData) (cs : List ℕ)
    → AreScalars cs
    → IsForward cs
    → 0 < length cs
    → length (utf16s order cs) + 4 ≤ buffer_malloc_max
    → (b : Buffer) × (convert_region order d 0
          (utf16s order cs)
          (record { buffer = no_buffer; skip = 0 })
        ≡ ok (record { buffer = b; skip = 0 }))
      × IsValid b.data_object
      × (bytes b.data_object ≡ utf8s (without_bom cs))
unfolding convert_region bytes
region-text order d cs sc forward some_points small =
    let size = length (utf16s order cs) in
    let max = size / 2 + size % 2 in
    let even : max ≡ size / 2 = omega (arith, utf16s-even order cs) in
    let some_bytes = utf16s-pos order cs some_points in
    let nothing : Holds no_buffer [] = record {
      valid = omega arith;
      all = refl;
      within = omega arith;
    } in
    let o =
      buffer_new-Opened no_buffer [] ((size + 2) / 3 * 2) 0 nothing (omega arith) (omega arith) in
    let t = convert_text order d size max even cs o.buffer sc forward o.holds refl small in
    let end =
      buffer_new-Opened t.buffer (utf8s (without_bom cs)) 0 0 t.holds
        (omega (arith, without_bom-le cs, utf8s-le order cs)) (omega arith) in
    let all : size - 0 ≡ size = omega arith in
    let not_skipped : leb size 0 ≡ false = ground arith in
    (
      end.buffer,
      rw (all, o.result, not_skipped, t.result, end.result) refl,
      end.holds.valid,
      end.flush refl,
    )

-- The UTF-16 form of a text of scalar values, in one region of less than 100 MB, becomes the text's
-- UTF-8 form, without the byte order mark that it may begin with. The text does not begin with U+FFFE,
-- which is no character.
pub from_utf16-utf16s :
    (order : ByteOrder) (cs : List ℕ)
    → AreScalars cs
    → IsForward cs
    → 0 < length cs
    → length (utf16s order cs) + 4 ≤ buffer_malloc_max
    → Gives (utf8s (without_bom cs)) (from_utf16 (leaf (utf16s order cs)) order)
unfolding from_utf16 from_utf16_region
from_utf16-utf16s order cs sc forward some_points small =
    let d = leaf (utf16s order cs) in
    let some_bytes = utf16s-pos order cs some_points in
    let s0 : Outcome Progress = ok (record { buffer = no_buffer; skip = 0 }) in
    let (b, e, v, same) = region-text order d cs sc forward some_points small in
    (
      b.data_object,
      rw (apply-leaf (from_utf16_region order d) (utf16s order cs) s0 some_bytes, e) refl,
      v,
      same,
    )

scalars-without_bom : (cs : List ℕ) → AreScalars cs → AreScalars (without_bom cs)
unfolding without_bom
scalars-without_bom [] sc = tt
scalars-without_bom (c ∷ cs) sc = elim (dec_eq c 0xfeff) [
  | yes y ↦ let e : (c == 0xfeff) ≡ true = ground arith in rw e sc.1
  | no n ↦ let e : (c == 0xfeff) ≡ false = ground arith in rw e sc
]

marked :
    (order : ByteOrder) (cs : List ℕ)
    → utf16s order (0xfeff ∷ cs) ≡ unit16 order 0xfeff ++ utf16s order cs
unfolding utf16s utf16
marked order cs = refl

-- Converting the UTF-8 form of a text of scalar values in one region, of less than 50 MB, to UTF-16 and
-- back, in the same byte order, gives its bytes again, without a byte order mark at the beginning.
pub from_utf16-to_utf16 :
    (order : ByteOrder) (cs : List ℕ)
    → AreScalars cs
    → 0 < length cs
    → length (utf8s cs) * 2 + 6 ≤ buffer_malloc_max
    → Gives (utf8s (without_bom cs)) (to_utf16 (leaf (utf8s cs)) order >>= λ d. from_utf16 d order)
from_utf16-to_utf16 order cs sc some_points small =
    let text = 0xfeff ∷ without_bom cs in
    let same : without_bom text ≡ without_bom cs = unfold without_bom in refl in
    let n : length (utf16s order text) + 4 ≤ buffer_malloc_max = omega (
      arith,
      ap length (marked order (without_bom cs)),
      length-append (unit16 order 0xfeff) (utf16s order (without_bom cs)),
      length-unit16 order 0xfeff,
      utf16s-le order (without_bom cs),
      without_bom-le cs,
    ) in
    let (d, e, v, b) =
      from_utf16-utf16s order text (inr (omega arith, omega arith), scalars-without_bom cs sc)
        (λ z. omega arith) (omega arith) n in
    (
      d,
      rw (to_utf16-utf8s order cs sc some_points (omega arith), sym (marked order (without_bom cs)))
          e,
      v,
      b ∙ ap utf8s same,
    )
