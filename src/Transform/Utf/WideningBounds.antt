-- ===== src/Transform/Utf/WideningBounds.antt =====
-- transform.c: _dispatch_transform_to_utf16 writes within its output buffer, on any input.
use book.Base.{
  ℕ, zero, suc, ◌+◌, ◌-◌, ◌*◌, ◌/◌, ◌%◌, ◌^◌, ◌<◌, ◌≤◌, ◌≡◌, ◌≢◌, refl, List, [], ◌∷◌, ◌==◌, ◌&&◌,
  ltb, leb, length, drop, arith,
}
use book.Data.{DispatchData, get_size, bytes, IsValid, length-bytes}
use book.Data.Regions.{regions, visit, apply-visit, regions-Contiguous}
use book.Transform.Utf.{Outcome, ok, overrun, ◌>>=◌, Buffer, no_buffer, ByteOrder, utf8_length}
use book.Transform.Utf.ToUtf16.{
  Cursor, Point, Progress, read_point, write_point, unit, convert, begin, convert_region,
  to_utf16_region, to_utf16,
}
use book.Transform.Utf.Bounds.{
  Fits, fits, fits_rejected, fits_overread, fits_lem, chained, branched, Anything, InBounds,
  HasRoom, buffer_new-Fits, put-Fits, put-last, subrange_map-Fits, read_utf8_sequence-Fits,
  visit-keeps,
}

-- Reading leaves the buffer alone.
abbrev pub Keeps : Buffer → Point → Type 0
Keeps b p = p.behind.buffer ≡ b

read_point-Fits :
    (whole : DispatchData) (offset size : ℕ) (b : Buffer) (skip i : ℕ) (src : List ℕ)
    → Fits
        (Keeps b)
        (read_point whole offset size (record { buffer = b; skip = skip; i = i; src = src }))
unfolding read_point
read_point-Fits whole offset size b skip i [] = fits_overread
read_point-Fits whole offset size b skip i (x ∷ src) =
    let n = utf8_length x in
    branched (n == 0) _ _ (λ e. fits_rejected)
      (λ e.
        branched (ltb size (n + i)) _ _
          (λ e'.
            chained Anything _ (subrange_map-Fits whole (offset + i) n)
              (λ p u. chained Anything _ (read_utf8_sequence-Fits p) (λ w u'. fits refl)))
          (λ e'. chained Anything _ (read_utf8_sequence-Fits (x ∷ src)) (λ w u'. fits refl)))

write_point-Fits :
    (order : ByteOrder) (offset size : ℕ) (b : Buffer) (i wch : ℕ)
    → InBounds b
    → size < 2 ^ 62
    → Fits InBounds (write_point order offset size b i wch)
unfolding write_point
write_point-Fits order offset size b i wch h small =
    let next = (size - i) * 2 in
    branched (leb (2 ^ 64) next) _ _ (λ e. fits_rejected)
      (λ e.
        branched (wch == 0xfeff && offset + i == 3) _ _ (λ e1. fits h)
          (λ e1.
            branched (leb 0xd800 wch && ltb wch 0xdfff) _ _ (λ e2. fits_rejected)
              (λ e2.
                branched (leb 0x10000 wch) _ _
                  (λ e3. chained (HasRoom 4) _ (buffer_new-Fits b 4 next h (omega arith)) (λ b1 r1.
                    chained (HasRoom 2) _
                      (put-Fits b1 (unit order ((wch - 0x10000) / 1024 % 1024 + 0xd800)) 2 r1)
                      (λ b2 r2. put-last b2 (unit order ((wch - 0x10000) % 1024 + 0xdc00)) r2)))
                  (λ e3.
                    chained (HasRoom 2) _ (buffer_new-Fits b 2 next h (omega arith))
                      (λ b1 r1. put-last b1 (unit order (wch % 65536)) r1)))))

begin-Fits :
    (order : ByteOrder) (offset size : ℕ) (b : Buffer)
    → InBounds b
    → size < 2 ^ 62
    → Fits InBounds (begin order offset size b)
unfolding begin
begin-Fits order offset size b h small =
    branched (offset == 0) _ _
      (λ e.
        branched (leb (2 ^ 64) (size * 2 + 2)) _ _ (λ e1. fits_rejected)
          (λ e1.
            chained (HasRoom (size * 2 + 2)) _ (buffer_new-Fits b (size * 2 + 2) 0 h (omega arith))
              (λ b1 r1. put-last b1 (unit order 0xfeff) (omega arith))))
      (λ e. fits h)

abbrev pub CursorFits : Cursor → Type 0
CursorFits c = InBounds c.buffer

abbrev pub ProgressFits : Progress → Type 0
ProgressFits s = InBounds s.buffer

convert-Fits :
    (order : ByteOrder) (whole : DispatchData) (offset size fuel : ℕ) (c : Cursor)
    → CursorFits c
    → size < 2 ^ 62
    → Fits CursorFits (convert order whole offset size fuel c)
unfolding convert
convert-Fits order whole offset size zero c h small = fits h
convert-Fits order whole offset size (suc fuel) c h small =
    branched (ltb c.i size) _ _
      (λ e.
        chained (Keeps c.buffer) _ (read_point-Fits whole offset size c.buffer c.skip c.i c.src)
          (λ p kept.
            let h1 : InBounds p.behind.buffer = rw kept h in
            chained InBounds _
              (write_point-Fits order offset size p.behind.buffer p.behind.i p.wch h1 small)
              (λ b h2.
                convert-Fits order whole offset size fuel
                  (record { buffer = b; skip = p.behind.skip; i = p.behind.i; src = p.behind.src })
                  h2 small)))
      (λ e. fits h)

convert_region-Fits :
    (order : ByteOrder) (whole : DispatchData) (offset : ℕ) (src : List ℕ) (s : Progress)
    → ProgressFits s
    → length src < 2 ^ 62
    → Fits ProgressFits (convert_region order whole offset src s)
unfolding convert_region
convert_region-Fits order whole offset src s h small =
    let size = length src in
    let left = size - s.skip in
    chained InBounds _ (begin-Fits order offset size s.buffer h small) (λ b h1.
      branched (leb size s.skip) _ _ (λ e. fits h1)
        (λ e.
          chained CursorFits _
            (convert-Fits order whole offset left left
              (record { buffer = b; skip = 0; i = 0; src = drop s.skip src }) h1 (omega arith))
            (λ c h2.
              chained (HasRoom 0) _ (buffer_new-Fits c.buffer 0 0 h2 (omega arith))
                (λ b1 h3. fits (omega arith)))))

-- Whatever the bytes are and however they are fragmented, _dispatch_transform_to_utf16 never writes
-- past the end of its output buffer. The object is well formed and smaller than 2^62 bytes.
pub to_utf16-in_bounds :
    (d : DispatchData) (order : ByteOrder)
    → IsValid d
    → get_size d < 2 ^ 62
    → to_utf16 d order ≢ overrun
unfolding to_utf16 to_utf16_region
to_utf16-in_bounds d order v small =
    let s0 : Outcome Progress = ok (record { buffer = no_buffer; skip = 0 }) in
    let n = length-bytes d v in
    let step : (object : DispatchData) (offset : ℕ) (buf : List ℕ) (r : Outcome Progress)
        → length buf ≤ get_size d
        → Fits ProgressFits r
        → Fits ProgressFits (to_utf16_region order d object offset buf r).0 =
      λ object offset buf r len h.
        chained ProgressFits _ h
          (λ s h1. convert_region-Fits order d offset buf s h1 (omega arith)) in
    let all =
      visit-keeps (λ (r : Outcome Progress). Fits ProgressFits r) (to_utf16_region order d)
        (get_size d) step (regions d) 0 (bytes d) s0 (regions-Contiguous d v) (omega arith)
        (fits (omega arith)) in
    let ended : Fits Anything
        ((visit (to_utf16_region order d) (regions d) s0).0 >>= λ s. ok s.buffer.data_object) =
      chained ProgressFits _ all (λ s h. fits tt) in
    rw (apply-visit (to_utf16_region order d) d s0 v) (fits_lem ended)
