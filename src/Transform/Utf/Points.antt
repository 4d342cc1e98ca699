-- ===== src/Transform/Utf/Points.antt =====
-- transform.c, _dispatch_transform_to_utf16: one round of the loop, on a sequence within the region.
use mathlib.Core.List.{append_assoc}
use native.Mathlib.Decide.{ℕ_discrete as dec_eq}
use book.Base.{
  ℕ, suc, ◌+◌, ◌-◌, ◌*◌, ◌/◌, ◌%◌, ◌^◌, ◌<◌, ◌≤◌, ◌≡◌, refl, ap, ◌∙◌, true, false, List, ◌++◌, ◌==◌,
  ◌&&◌, ltb, leb, length, length-append, drop, drop-append_ge, arith,
}
use book.Data.{DispatchData}
use book.Transform.Utf.{ok, Buffer, buffer_new, put, ByteOrder, read_utf8_sequence}
use book.Transform.Utf.ToUtf16.{read_point, write_point}
use book.Transform.Utf.Units.{length-unit16}
use book.Transform.Utf.Forms.{
  IsScalar, utf8, utf16, unit16, utf8-Sequence, IsScalar-lt, store16-swap16,
}

drop-exactly : (n : ℕ) (xs ys : List ℕ) → n ≡ length xs → drop n (xs ++ ys) ≡ ys
drop-exactly n xs ys e =
    let none_left : n - length xs ≡ 0 = omega arith in
    drop-append_ge n xs ys (omega arith) ∙ ap (λ (k : ℕ). drop k ys) none_left

-- A sequence that lies within the region is read there.
pub read_inside :
    (whole : DispatchData) (offset size : ℕ) (b : Buffer) (i c : ℕ) (rest : List ℕ)
    → c < 0x110000
    → i + length (utf8 c) ≤ size
    → read_point whole offset size (record { buffer = b; skip = 0; i = i; src = utf8 c ++ rest })
      ≡ ok (record {
        wch = c;
        behind = record { buffer = b; skip = 0; i = i + length (utf8 c); src = rest };
      })
unfolding read_point read_utf8_sequence
read_inside whole offset size b i c rest h room =
    let s = utf8-Sequence c h in
    let n : length (utf8 c) ≡ suc (length s.tail) = ap length s.is_utf8 in
    let some_size : (suc (length s.tail) == 0) ≡ false = ground arith in
    let within : ltb size (suc (length s.tail) + i) ≡ false = ground arith in
    let rounds : (suc (length s.tail) + 255) % 256 ≡ length s.tail = omega (arith, s.short) in
    rw (n, s.is_utf8, s.lead-length, some_size, within, rounds, s.joined rest)
      (ap
        (λ (t : List ℕ). ok (record {
          wch = c;
          behind = record { buffer = b; skip = 0; i = i + suc (length s.tail); src = t };
        }))
        (drop-exactly (length s.tail) s.tail rest refl))

-- With room in the buffer, it is kept, and takes what is put there.
buffer_new-kept :
    (b : Buffer) (required size : ℕ)
    → 0 < required
    → length b.written + required ≤ b.size
    → buffer_new b required size ≡ ok b
unfolding buffer_new
buffer_new-kept b required size some_bytes room =
    let r : (required == 0) ≡ false = ground arith in
    let l : ltb (b.size - length b.written) required ≡ false = ground arith in rw (r, l) refl

pub put-room :
    (b : Buffer) (bs : List ℕ)
    → length b.written + length bs ≤ b.size
    → put b bs ≡ ok (record b { written = b.written ++ bs })
unfolding put
put-room b bs room =
    let l : leb (length b.written + length bs) b.size ≡ true = ground arith in rw l refl

-- A code point that is written, in a buffer with room for it.
module _ (order : ByteOrder) (size : ℕ) (b : Buffer) (i c : ℕ) where
  pub write_scalar :
      IsScalar c
      → size - i < 2 ^ 63
      → ¬ ((c ≡ 0xfeff) × (i ≡ 3))
      → length b.written + length (utf16 order c) ≤ b.size
      → write_point order 0 size b i c ≡ ok (record b { written = b.written ++ utf16 order c })
  unfolding write_point utf16
  write_scalar sc small no_bom room =
      let next : leb (2 ^ 64) ((size - i) * 2) ≡ false = ground arith in
      let not_bom : (c == 0xfeff && 0 + i == 3) ≡ false = ground arith in
      let lt = IsScalar-lt c sc in
      let not_surrogate : (leb 0xd800 c && ltb c 0xdfff) ≡ false = ground arith in
      rw (next, not_bom, not_surrogate)
        (elim (dec_eq (c / 65536) 0) [
          | yes e ↦
              let one : leb 0x10000 c ≡ false = ground arith in
              let two : ltb c 0x10000 ≡ true = ground arith in
              let same : c % 65536 ≡ c = omega arith in
              let n : length (utf16 order c) ≡ 2 = rw two (length-unit16 order c) in
              rw
                (
                  one,
                  two,
                  buffer_new-kept b 2 ((size - i) * 2) (omega arith) (omega arith),
                  same,
                  store16-swap16 order c (omega arith),
                )
                (put-room b (unit16 order c) (omega (arith, length-unit16 order c)))
          | no e ↦
              let one : leb 0x10000 c ≡ true = ground arith in
              let two : ltb c 0x10000 ≡ false = ground arith in
              let hi = 0xd800 + (c - 0x10000) / 1024 in
              let lo = 0xdc00 + (c - 0x10000) % 1024 in
              let n : length (utf16 order c) ≡ 4 = rw two (
                length-append (unit16 order hi) (unit16 order lo)
                ∙ omega (arith, length-unit16 order hi, length-unit16 order lo)) in
              let same_hi : (c - 0x10000) / 1024 % 1024 + 0xd800 ≡ hi = omega arith in
              let same_lo : (c - 0x10000) % 1024 + 0xdc00 ≡ lo = omega arith in
              let b2 : Buffer = record b { written = b.written ++ unit16 order hi } in
              rw
                (
                  one,
                  two,
                  buffer_new-kept b 4 ((size - i) * 2) (omega arith) (omega arith),
                  same_hi,
                  store16-swap16 order hi (omega arith),
                  put-room b (unit16 order hi) (omega (arith, length-unit16 order hi)),
                  same_lo,
                  store16-swap16 order lo (omega arith),
                )
                (put-room b2 (unit16 order lo) (
                    omega (
                      arith,
                      length-append b.written (unit16 order hi),
                      length-unit16 order hi,
                      length-unit16 order lo,
                    ))
                  ∙ ap (λ (t : List ℕ). ok (record b { written = t }))
                      (append_assoc b.written (unit16 order hi) (unit16 order lo)))
        ])
