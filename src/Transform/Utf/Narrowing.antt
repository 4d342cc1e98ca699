-- ===== src/Transform/Utf/Narrowing.antt =====
-- transform.c: what _dispatch_transform_from_utf16 makes of UTF-16 text in one region.
use mathlib.Core.List.{append-nil, append_assoc}
use book.Base.{
  ℕ, zero, suc, ◌+◌, ◌-◌, ◌*◌, ◌/◌, ◌^◌, ◌<◌, ◌≤◌, ◌≡◌, refl, sym, ap, ◌⊎◌, inl, inr, true, false,
  List, [], ◌∷◌, ◌++◌, ◌==◌, ◌&&◌, ltb, leb, length, length-append, arith,
}
use book.Data.{DispatchData}
use book.Transform.Utf.{Outcome, ok, Buffer, buffer_malloc_max, ByteOrder}
use book.Transform.Utf.ToUtf16.{Cursor}
use book.Transform.Utf.FromUtf16.{sequence, write_sequence, transcribe, convert}
use book.Transform.Utf.Forms.{IsScalar, AreScalars, utf8, utf16, utf8s, utf16s, IsScalar-lt}
use book.Transform.Utf.Filling.{Holds, buffer_new-Opened, put-Holds}
use book.Transform.Utf.Units.{
  units, first_unit, here, next_unit-first, join_units-scalar, behind-last, units-utf16, units-pos,
}

sequence-utf8 : (c : ℕ) → c < 0x110000 → sequence c ≡ utf8 c
unfolding sequence utf8
sequence-utf8 c h = ground arith

length-utf8_le : (c : ℕ) → length (utf8 c) ≤ 4
unfolding utf8
length-utf8_le c = ground arith

-- A buffer to which more has been written.
record Written (r : Outcome Buffer) (w : List ℕ) : Type 0 where
  buffer : Buffer
  result : r ≡ ok buffer
  holds : Holds buffer w

write_sequence-scalar :
    (max : ℕ) (b : Buffer) (i c : ℕ) (w : List ℕ)
    → IsScalar c
    → Holds b w
    → length w < 2 ^ 63
    → 4 + (max - i) * 2 ≤ buffer_malloc_max
    → Written (write_sequence max b i c) (w ++ utf8 c)
unfolding write_sequence
write_sequence-scalar max b i c w sc h small fits =
    let lt = IsScalar-lt c sc in
    let next : leb (2 ^ 64) ((max - i) * 2) ≡ false = ground arith in
    let known : ltb c 0x200000 ≡ true = ground arith in
    let o =
      buffer_new-Opened b w (length (utf8 c)) ((max - i) * 2) h small
        (omega (arith, length-utf8_le c)) in
    let (e, h') = put-Holds o.buffer w (utf8 c) o.holds o.room in
    record {
      buffer = record o.buffer { written = o.buffer.written ++ utf8 c };
      result = rw (next, known, sequence-utf8 c lt, o.result, e) refl;
      holds = h';
    }

-- One code point that is not a byte order mark at the beginning.
module _ (order : ByteOrder) (whole : DispatchData) (max : ℕ) (b : Buffer) (i c : ℕ)
    (rest : List ℕ) where
  transcribe-scalar :
      (b' : Buffer)
      → IsScalar c
      → i + units c ≤ max
      → (0 < i) ⊎ (¬ (c ≡ 0xfeff) × ¬ (c ≡ 0xfffe))
      → write_sequence max b (i + (units c - 1)) c ≡ ok b'
      → transcribe order whole 0 max
          (here order whole b i c rest)
          (record { wch = first_unit c; behind = here order whole b i c rest })
        ≡ ok (record { buffer = b'; skip = 0; i = i + units c; src = rest })
  unfolding transcribe
  transcribe-scalar b' sc inside later e =
      let not_reversed : (first_unit c == 0xfffe && (0 == 0 && i == 0)) ≡ false =
        ground (arith, IsScalar-lt c sc) in
      let not_mark : (first_unit c == 0xfeff && (0 == 0 && i == 0)) ≡ false =
        ground (arith, IsScalar-lt c sc) in
      rw
        (
          not_reversed,
          not_mark,
          join_units-scalar order whole b i c rest 0 max sc inside,
          e,
          behind-last order whole b i c rest,
        )
        (ap (λ (k : ℕ). ok (record { buffer = b'; skip = 0; i = k; src = rest }))
          (omega (arith, units-pos c)))

-- Neither byte order mark is at the beginning.
abbrev pub IsPlain : List ℕ → Type 0
IsPlain [] = Unit
IsPlain (c ∷ cs) = ¬ (c ≡ 0xfeff) × ¬ (c ≡ 0xfffe)

-- The loop's end: the whole region is read, and what it stands for is written.
pub record Done (r : Outcome Cursor) (max : ℕ) (w : List ℕ) : Type 0 where
  pub buffer : Buffer
  pub result : r ≡ ok (record { buffer = buffer; skip = 0; i = max; src = [] })
  pub holds : Holds buffer w

plain-later :
    (c i : ℕ) (cs : List ℕ)
    → (0 < i) ⊎ IsPlain (c ∷ cs)
    → (0 < i) ⊎ (¬ (c ≡ 0xfeff) × ¬ (c ≡ 0xfffe))
plain-later c i cs (inl h) = inl h
plain-later c i cs (inr h) = inr h

module _ (order : ByteOrder) (whole : DispatchData) (size max : ℕ) (even : max ≡ size / 2) where
  -- With nothing left, the loop ends whatever the fuel.
  convert-ended :
      (fuel : ℕ) (b : Buffer) (i : ℕ)
      → i ≡ max
      → convert order whole 0 size max fuel (record { buffer = b; skip = 0; i = i; src = [] })
        ≡ ok (record { buffer = b; skip = 0; i = max; src = [] })
  unfolding convert
  convert-ended zero b i e = ap (λ (k : ℕ). ok (record { buffer = b; skip = 0; i = k; src = [] })) e
  convert-ended (suc fuel) b i e =
      let ended : ltb i max ≡ false = ground arith in
      rw ended (ap (λ (k : ℕ). ok (record { buffer = b; skip = 0; i = k; src = [] })) e)

  pub convert-utf16s :
      (fuel : ℕ) (cs : List ℕ) (b : Buffer) (i : ℕ) (w : List ℕ)
      → AreScalars cs
      → Holds b w
      → i * 2 + length (utf16s order cs) ≡ size
      → length w + length (utf8s cs) < 2 ^ 63
      → size + 4 ≤ buffer_malloc_max
      → (0 < i) ⊎ IsPlain cs
      → max - i ≤ fuel
      → Done
          (convert order whole 0 size max fuel
            (record { buffer = b; skip = 0; i = i; src = utf16s order cs }))
          max
          (w ++ utf8s cs)
  unfolding convert utf16s utf8s
  convert-utf16s fuel [] b i w sc h pos small fits first enough = record {
    buffer = b;
    result = convert-ended fuel b i (omega arith);
    holds = rw (append-nil w) h;
  }
  convert-utf16s zero (c ∷ cs) b i w sc h pos small fits first enough = absurd (
      omega
        (arith, length-append (utf16 order c) (utf16s order cs), units-utf16 order c, units-pos c))
  convert-utf16s (suc fuel) (c ∷ cs) b i w sc h pos small fits first enough =
      let total = length-append (utf16 order c) (utf16s order cs) in
      let n = units-utf16 order c in
      let some_units = units-pos c in
      let bytes_total = length-append (utf8 c) (utf8s cs) in
      let grown = length-append w (utf8 c) in
      let rest = utf16s order cs in
      let inside : i + units c ≤ max = omega arith in
      let put_c =
        write_sequence-scalar max b (i + (units c - 1)) c w sc.0 h (omega arith) (omega arith) in
      let more : ltb i max ≡ true = ground arith in
      let ih =
        convert-utf16s fuel cs put_c.buffer (i + units c) (w ++ utf8 c) sc.1 put_c.holds
          (omega arith) (omega arith) fits (inl (omega arith)) (omega arith) in
      record {
        buffer = ih.buffer;
        result =
            rw
              (
                more,
                next_unit-first order whole b i c rest 0 size max (IsScalar-lt c sc.0) even,
                transcribe-scalar order whole max b i c rest put_c.buffer sc.0 inside
                    (plain-later c i cs first) put_c.result,
              )
              ih.result;
        holds = rw (sym (append_assoc w (utf8 c) (utf8s cs))) ih.holds;
      }
