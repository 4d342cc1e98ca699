-- ===== src/Transform/Utf/Widening.antt =====
-- transform.c: what _dispatch_transform_to_utf16 makes of UTF-8 text in one region.
use mathlib.Core.List.{append-nil, append_assoc}
use native.Mathlib.Decide.{ℕ_discrete as dec_eq}
use book.Base.{
  ℕ, zero, suc, ◌+◌, ◌-◌, ◌*◌, ◌%◌, ◌^◌, ◌<◌, ◌≤◌, ◌≡◌, refl, sym, ap, ◌∙◌, ◌⊎◌, inl, inr, true,
  false, List, [], ◌∷◌, ◌++◌, ◌==◌, ◌&&◌, ◌||◌, ltb, leb, length, length-append, arith,
}
use book.Data.{DispatchData, leaf, data_empty, create_concat}
use book.Data.Regions.{apply-leaf}
use book.Transform.Utf.{
  Outcome, ok, Buffer, no_buffer, flushed, buffer_malloc_max, buffer_new, ByteOrder,
}
use book.Transform.Utf.ToUtf16.{
  Cursor, Progress, begin, convert_region, write_point, convert, unit, to_utf16, to_utf16_region,
}
use book.Transform.Utf.Units.{length-unit16}
use book.Transform.Utf.Forms.{
  AreScalars, utf8, utf16, utf8s, utf16s, unit16, without_bom, IsScalar-lt, store16-swap16,
  length-utf16, utf8-pos,
}
use book.Transform.Utf.Points.{read_inside, write_scalar, put-room}

-- A byte order mark that is not the first of a text does not end at its third byte.
no_mark :
    (c i : ℕ) (cs : List ℕ)
    → (0 < i) ⊎ (without_bom (c ∷ cs) ≡ c ∷ cs)
    → ¬ ((c ≡ 0xfeff) × (i + length (utf8 c) ≡ 3))
unfolding utf8
no_mark c i cs (inl h) (e, n) = let three : length (utf8 c) ≡ 3 = ground arith in omega arith
no_mark c i cs (inr h) (e, n) =
    let is_mark : (c == 0xfeff) ≡ true = ground arith in
    let dropped : without_bom (c ∷ cs) ≡ cs = unfold without_bom in rw is_mark refl in
    omega (arith, ap length (sym dropped ∙ h))

utf8s-length : (c : ℕ) (cs : List ℕ) → length (utf8s (c ∷ cs)) ≡ length (utf8 c) + length (utf8s cs)
unfolding utf8s
utf8s-length c cs = length-append (utf8 c) (utf8s cs)

module _ (order : ByteOrder) (whole : DispatchData) (size : ℕ) (small : size < 2 ^ 63) where
  convert-utf8s :
      (fuel : ℕ) (cs : List ℕ) (b : Buffer) (i : ℕ)
      → AreScalars cs
      → i + length (utf8s cs) ≡ size
      → (0 < i) ⊎ (without_bom cs ≡ cs)
      → length b.written + (size - i) * 2 ≤ b.size
      → size - i ≤ fuel
      → convert order whole 0 size fuel (record { buffer = b; skip = 0; i = i; src = utf8s cs })
        ≡ ok (record {
          buffer = record b { written = b.written ++ utf16s order cs };
          skip = 0;
          i = size;
          src = [];
        })
  unfolding convert utf8s utf16s
  convert-utf8s zero [] b i sc pos bom room enough =
      rw (append-nil b.written)
        (ap (λ (k : ℕ). ok (record { buffer = b; skip = 0; i = k; src = [] })) (omega arith))
  convert-utf8s (suc fuel) [] b i sc pos bom room enough =
      let ended : ltb i size ≡ false = ground arith in
      rw (ended, append-nil b.written)
        (ap (λ (k : ℕ). ok (record { buffer = b; skip = 0; i = k; src = [] })) (omega arith))
  convert-utf8s zero (c ∷ cs) b i sc pos bom room enough =
      absurd (omega (arith, length-append (utf8 c) (utf8s cs), utf8-pos c))
  convert-utf8s (suc fuel) (c ∷ cs) b i sc pos bom room enough =
      let total = length-append (utf8 c) (utf8s cs) in
      let some_bytes = utf8-pos c in
      let n = length-utf16 order c in
      let i' = i + length (utf8 c) in
      let b' : Buffer = record b { written = b.written ++ utf16 order c } in
      let grown = length-append b.written (utf16 order c) in
      let more : ltb i size ≡ true = ground arith in
      rw
        (
          more,
          read_inside whole 0 size b i c (utf8s cs) (IsScalar-lt c sc.0) (omega arith),
          write_scalar order size b i' c sc.0 (omega arith) (no_mark c i cs bom) (omega arith),
          convert-utf8s fuel cs b' i' sc.1 (omega arith) (inl (omega arith)) (omega arith)
              (omega arith),
          append_assoc,
        )
        refl

  -- A byte order mark at the beginning is read, and not written.
  convert_mark :
      (fuel c : ℕ) (cs : List ℕ) (b : Buffer)
      → AreScalars (c ∷ cs)
      → c ≡ 0xfeff
      → length (utf8s (c ∷ cs)) ≡ size
      → length b.written + size * 2 ≤ b.size
      → size ≤ suc fuel
      → convert order whole 0 size
          (suc fuel)
          (record { buffer = b; skip = 0; i = 0; src = utf8s (c ∷ cs) })
        ≡ ok (record {
          buffer = record b { written = b.written ++ utf16s order cs };
          skip = 0;
          i = size;
          src = [];
        })
  unfolding convert utf8s
  convert_mark fuel c cs b sc y e room enough =
      let total = length-append (utf8 c) (utf8s cs) in
      let three : length (utf8 c) ≡ 3 = unfold utf8 in ground arith in
      let i' = 0 + length (utf8 c) in
      let more : ltb 0 size ≡ true = ground arith in
      let kept : write_point order 0 size b i' c ≡ ok b =
        unfold write_point in
        let next : leb (2 ^ 64) ((size - i') * 2) ≡ false = ground arith in
        let mark : (c == 0xfeff && 0 + i' == 3) ≡ true = ground arith in rw (next, mark) refl in
      rw (more, read_inside whole 0 size b 0 c (utf8s cs) (IsScalar-lt c sc.0) (omega arith), kept)
        (convert-utf8s fuel cs b i' sc.1 (omega arith) (inl (omega arith)) (omega arith)
          (omega arith))

  -- The loop on a whole text, whose byte order mark is not written again.
  convert_text :
      (cs : List ℕ) (b : Buffer)
      → AreScalars cs
      → length (utf8s cs) ≡ size
      → length b.written + size * 2 ≤ b.size
      → convert order whole 0 size size (record { buffer = b; skip = 0; i = 0; src = utf8s cs })
        ≡ ok (record {
          buffer = record b { written = b.written ++ utf16s order (without_bom cs) };
          skip = 0;
          i = size;
          src = [];
        })
  convert_text [] b sc e room =
      let none_there : without_bom [] ≡ [] = unfold without_bom in refl in
      rw none_there (
        convert-utf8s size [] b 0 sc (omega (arith, e)) (inr none_there) (omega arith)
          (omega arith))
  convert_text (c ∷ cs) b sc e room = elim (dec_eq c 0xfeff) [
    | no n ↦
        let no_bom : without_bom (c ∷ cs) ≡ c ∷ cs = unfold without_bom in ground arith in
        rw no_bom (
          convert-utf8s size (c ∷ cs) b 0 sc (omega arith) (inr no_bom) (omega arith) (omega arith))
    | yes y ↦
        let bom : without_bom (c ∷ cs) ≡ cs = unfold without_bom in ground arith in
        let one_more : suc (size - 1) ≡ size = omega (arith, utf8-pos c, utf8s-length c cs) in
        let c0 : Cursor = record { buffer = b; skip = 0; i = 0; src = utf8s (c ∷ cs) } in
        rw bom (
          ap (λ (f : ℕ). convert order whole 0 size f c0) (sym one_more)
          ∙ convert_mark (size - 1) c cs b sc y e room (omega arith))
  ]

pub utf8s-pos : (cs : List ℕ) → 0 < length cs → 0 < length (utf8s cs)
utf8s-pos [] h = absurd (omega arith)
utf8s-pos (c ∷ cs) h = omega (arith, utf8s-length c cs, utf8-pos c)

-- The first call of _dispatch_transform_buffer_new: there is nothing to flush.
opened :
    (required : ℕ)
    → 0 < required
    → required ≤ buffer_malloc_max
    → buffer_new no_buffer required 0
      ≡ ok (record { data_object = data_empty; written = []; size = required })
unfolding buffer_new flushed
opened required some_bytes small =
    let asked : (required == 0 || ltb 0 required) ≡ true = ground arith in
    let same : (required + 0) % 2 ^ 64 ≡ required = omega arith in
    let fits : ltb buffer_malloc_max required ≡ false = ground arith in rw (asked, same, fits) refl

-- The last one: what is written is the output.
closed :
    (w : List ℕ) (size : ℕ)
    → buffer_new (record { data_object = data_empty; written = w; size = size }) 0 0
      ≡ ok (record { data_object = leaf w; written = []; size = 0 })
unfolding buffer_new flushed create_concat
closed [] size = refl
closed (x ∷ w) size = refl

unit-unit16 : (order : ByteOrder) (x : ℕ) → x < 65536 → unit order x ≡ unit16 order x
unit-unit16 order x h = store16-swap16 order x h

-- The block on a region that is a whole text.
region-text :
    (order : ByteOrder) (d : DispatchData) (cs : List ℕ)
    → AreScalars cs
    → 0 < length (utf8s cs)
    → length (utf8s cs) * 2 + 2 ≤ buffer_malloc_max
    → convert_region order d 0 (utf8s cs) (record { buffer = no_buffer; skip = 0 })
      ≡ ok (record {
        buffer = record {
          data_object = leaf (unit16 order 0xfeff ++ utf16s order (without_bom cs));
          written = [];
          size = 0;
        };
        skip = 0;
      })
unfolding convert_region begin
region-text order d cs sc some_bytes small =
    let size = length (utf8s cs) in
    let no_overflow : leb (2 ^ 64) (size * 2 + 2) ≡ false = ground arith in
    let b : Buffer = record { data_object = data_empty; written = []; size = size * 2 + 2 } in
    let b' : Buffer = record b { written = unit16 order 0xfeff } in
    let not_skipped : leb size 0 ≡ false = ground arith in
    let all : size - 0 ≡ size = omega arith in
    rw
      (
        no_overflow,
        opened (size * 2 + 2) (omega arith) small,
        unit-unit16 order 0xfeff (omega arith),
        put-room b (unit16 order 0xfeff) (omega (arith, length-unit16 order 0xfeff)),
        not_skipped,
        all,
        convert_text order d size (omega arith) cs b' sc refl
            (omega (arith, length-unit16 order 0xfeff)),
        closed,
      )
      refl

-- The UTF-8 form of a text of scalar values, in one region of at most 50 MB, becomes a byte order mark
-- followed by the text's UTF-16 form in the byte order asked for. A byte order mark that the text has
-- itself is not repeated.
pub to_utf16-utf8s :
    (order : ByteOrder) (cs : List ℕ)
    → AreScalars cs
    → 0 < length cs
    → length (utf8s cs) * 2 + 2 ≤ buffer_malloc_max
    → to_utf16 (leaf (utf8s cs)) order
      ≡ ok (leaf (unit16 order 0xfeff ++ utf16s order (without_bom cs)))
unfolding to_utf16 to_utf16_region
to_utf16-utf8s order cs sc some_points small =
    let d = leaf (utf8s cs) in
    let some_bytes = utf8s-pos cs some_points in
    let s0 : Outcome Progress = ok (record { buffer = no_buffer; skip = 0 }) in
    rw
      (
        apply-leaf (to_utf16_region order d) (utf8s cs) s0 some_bytes,
        region-text order d cs sc some_bytes small,
      )
      refl
