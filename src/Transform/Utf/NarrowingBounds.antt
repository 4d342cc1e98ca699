-- ===== src/Transform/Utf/NarrowingBounds.antt =====
-- transform.c: _dispatch_transform_from_utf16 writes within its output buffer, on any input.
use book.Base.{
  ℕ, zero, suc, ◌+◌, ◌-◌, ◌*◌, ◌/◌, ◌%◌, ◌^◌, ◌<◌, ◌≤◌, ◌≢◌, refl, List, [], ◌∷◌, ◌==◌, ◌&&◌, ltb,
  leb, if◌then◌else◌, length, drop, arith,
}
use book.Data.{DispatchData, get_size, bytes, IsValid, length-bytes}
use book.Data.Regions.{regions, visit, apply-visit, regions-Contiguous}
use book.Transform.Utf.{Outcome, ok, overrun, ◌>>=◌, Buffer, no_buffer, ByteOrder, buffer_new}
use book.Transform.Utf.ToUtf16.{Cursor, Point, Progress}
use book.Transform.Utf.FromUtf16.{
  load, load_at, next_unit, low_unit, join_units, sequence, write_sequence, transcribe, convert,
  convert_region, from_utf16_region, from_utf16,
}
use book.Transform.Utf.Bounds.{
  Fits, fits, fits_rejected, fits_overread, fits_lem, chained, branched, Anything, InBounds,
  HasRoom, buffer_new-Fits, put-last, subrange_map-Fits, visit-keeps,
}
use book.Transform.Utf.WideningBounds.{Keeps, CursorFits, ProgressFits}

load-Fits : (order : ByteOrder) (src : List ℕ) → Fits Anything (load order src)
unfolding load
load-Fits order (b0 ∷ b1 ∷ rest) = fits tt
load-Fits order (b0 ∷ []) = fits_overread
load-Fits order [] = fits_overread

load_at-Fits :
    (order : ByteOrder) (whole : DispatchData) (offset : ℕ)
    → Fits Anything (load_at order whole offset)
unfolding load_at
load_at-Fits order whole offset =
    chained Anything _ (subrange_map-Fits whole offset 2) (λ p u. load-Fits order p)

module _ (order : ByteOrder) (whole : DispatchData) (offset max : ℕ) where
  next_unit-Fits :
      (size : ℕ) (c : Cursor) → Fits (Keeps c.buffer) (next_unit order whole offset size max c)
  unfolding next_unit
  next_unit-Fits size c =
      branched (c.i == max - 1 && ltb (size / 2) max) _ _
        (λ e. chained Anything _ (load_at-Fits order whole (offset + c.i * 2)) (λ ch u. fits refl))
        (λ e. chained Anything _ (load-Fits order c.src) (λ ch u. fits refl))

  low_unit-Fits : (c : Cursor) → Fits (Keeps c.buffer) (low_unit order whole offset max c)
  unfolding low_unit
  low_unit-Fits c =
      branched (leb max (c.i + 1)) _ _
        (λ e.
          chained Anything _ (load_at-Fits order whole (offset + (c.i + 1) * 2))
            (λ ch u. fits refl))
        (λ e. chained Anything _ (load-Fits order (drop 2 c.src)) (λ ch u. fits refl))

  join_units-Fits : (p : Point) → Fits (Keeps p.behind.buffer) (join_units order whole offset max p)
  unfolding join_units
  join_units-Fits p =
      branched (leb 0xd800 p.wch && leb p.wch 0xdbff) _ _
        (λ e. chained (Keeps p.behind.buffer) _ (low_unit-Fits p.behind) (λ q kept.
          branched (leb 0xdc00 q.wch && leb q.wch 0xdfff) _ _ (λ e1. fits kept)
            (λ e1. fits_rejected)))
        (λ e.
          branched (leb 0xdc00 p.wch && leb p.wch 0xdfff) _ _ (λ e1. fits_rejected)
            (λ e1. fits refl))

length-sequence : (wch : ℕ) → length (sequence wch) ≤ 4
unfolding sequence
length-sequence wch = ground arith

write_sequence-Fits :
    (max : ℕ) (b : Buffer) (i wch : ℕ)
    → InBounds b
    → max < 2 ^ 62
    → Fits InBounds (write_sequence max b i wch)
unfolding write_sequence
write_sequence-Fits max b i wch h small =
    let next = (max - i) * 2 in
    let n = length-sequence wch in
    branched (leb (2 ^ 64) next) _ _ (λ e. fits_rejected)
      (λ e.
        branched (ltb wch 0x200000) _ _
          (λ e1.
            chained (HasRoom (length (sequence wch))) _
              (buffer_new-Fits b (length (sequence wch)) next h (omega arith))
              (λ b1 r1. put-last b1 (sequence wch) r1))
          (λ e1. fits h))

module _ (order : ByteOrder) (whole : DispatchData) (offset max : ℕ) (small : max < 2 ^ 62) where
  transcribe-Fits :
      (c : Cursor) (p : Point)
      → CursorFits c
      → Keeps c.buffer p
      → Fits CursorFits (transcribe order whole offset max c p)
  unfolding transcribe
  transcribe-Fits c p h kept =
      let h1 : InBounds p.behind.buffer = rw kept h in
      let first = offset == 0 && c.i == 0 in
      branched (p.wch == 0xfffe && first) _ _ (λ e. fits_rejected)
        (λ e.
          branched (p.wch == 0xfeff && first) _ _ (λ e1. fits h1)
            (λ e1.
              chained (Keeps p.behind.buffer) _ (join_units-Fits order whole offset max p)
                (λ q kept1.
                  chained InBounds _ (write_sequence-Fits max c.buffer q.behind.i q.wch h small)
                    (λ b h2. fits h2))))

  convert-Fits :
      (size fuel : ℕ) (c : Cursor)
      → CursorFits c
      → Fits CursorFits (convert order whole offset size max fuel c)
  unfolding convert
  convert-Fits size zero c h = fits h
  convert-Fits size (suc fuel) c h =
      branched (ltb c.i max) _ _
        (λ e. chained (Keeps c.buffer) _ (next_unit-Fits order whole offset max size c) (λ p kept.
          chained CursorFits _ (transcribe-Fits c p h kept) (λ d h1. convert-Fits size fuel d h1)))
        (λ e. fits h)

convert_region-Fits :
    (order : ByteOrder) (whole : DispatchData) (offset : ℕ) (src : List ℕ) (s : Progress)
    → ProgressFits s
    → length src < 2 ^ 62
    → Fits ProgressFits (convert_region order whole offset src s)
unfolding convert_region
convert_region-Fits order whole offset src s h small =
    let size = length src in
    let left = size - s.skip in
    let max = left / 2 + left % 2 in
    let opened : Fits InBounds
        (if offset == 0 then buffer_new s.buffer ((size + 2) / 3 * 2) 0 else ok s.buffer) =
      branched (offset == 0) _ _
        (λ e. fits-weaken _ (buffer_new-Fits s.buffer ((size + 2) / 3 * 2) 0 h (omega arith)))
        (λ e. fits h) in
    chained InBounds _ opened (λ b h1.
      branched (leb size s.skip) _ _ (λ e. fits h1)
        (λ e.
          chained CursorFits _
            (convert-Fits order whole offset max (omega arith) left max
              (record { buffer = b; skip = 0; i = 0; src = drop s.skip src }) h1)
            (λ c h2.
              chained (HasRoom 0) _ (buffer_new-Fits c.buffer 0 0 h2 (omega arith))
                (λ b1 h3. fits (omega arith)))))
  where
    fits-weaken : (n : ℕ) {r : Outcome Buffer} → Fits (HasRoom n) r → Fits InBounds r
    fits-weaken n (fits f) = fits (omega arith)
    fits-weaken n fits_rejected = fits_rejected
    fits-weaken n fits_overread = fits_overread

-- Whatever the bytes are and however they are fragmented, _dispatch_transform_from_utf16 never writes
-- past the end of its output buffer. The object is well formed and smaller than 2^62 bytes.
from_utf16-in_bounds :
    (d : DispatchData) (order : ByteOrder)
    → IsValid d
    → get_size d < 2 ^ 62
    → from_utf16 d order ≢ overrun
unfolding from_utf16 from_utf16_region
from_utf16-in_bounds d order v small =
    let s0 : Outcome Progress = ok (record { buffer = no_buffer; skip = 0 }) in
    let n = length-bytes d v in
    let f = from_utf16_region order d in
    let step : (object : DispatchData) (offset : ℕ) (buf : List ℕ) (r : Outcome Progress)
        → length buf ≤ get_size d
        → Fits ProgressFits r
        → Fits ProgressFits (f object offset buf r).0 =
      λ object offset buf r len h.
        chained ProgressFits _ h
          (λ s h1. convert_region-Fits order d offset buf s h1 (omega arith)) in
    let all =
      visit-keeps (λ (r : Outcome Progress). Fits ProgressFits r) f (get_size d) step (regions d) 0
        (bytes d) s0 (regions-Contiguous d v) (omega arith) (fits (omega arith)) in
    let ended : Fits Anything ((visit f (regions d) s0).0 >>= λ s. ok s.buffer.data_object) =
      chained ProgressFits _ all (λ s h. fits tt) in
    rw (apply-visit f d s0 v) (fits_lem ended)
