-- ===== src/Transform/Utf/FromUtf16.antt =====
-- transform.c: _dispatch_transform_from_utf16.
use book.Base.{
  ℕ, zero, suc, ◌+◌, ◌-◌, ◌*◌, ◌/◌, ◌%◌, ◌^◌, Bool, true, false, List, [], ◌∷◌, ◌==◌, ◌&&◌, ltb,
  leb, if◌then◌else◌, length, drop,
}
use book.Data.{DispatchData}
use book.Data.Access.{apply}
use book.Transform.Utf.{
  Outcome, ok, rejected, overread, ◌>>=◌, Buffer, no_buffer, buffer_new, put, subrange_map,
  ByteOrder, swap16, load16,
}
use book.Transform.Utf.ToUtf16.{Cursor, Point, Progress}

-- `src[i]`, a 16-bit number in memory, and what is behind it.
unfoldable pub load : ByteOrder → List ℕ → Outcome ℕ
load order (b0 ∷ b1 ∷ rest) = ok (swap16 order (load16 b0 b1))
load order (b0 ∷ []) = overread
load order [] = overread

-- The number at an offset of the whole object, which a mapping of two bytes is made for. Where the
-- last byte of a region is odd, the C loads eight bytes from the mapping, and keeps two.
unfoldable pub load_at : ByteOrder → DispatchData → ℕ → Outcome ℕ
load_at order whole offset = do p ← subrange_map whole offset 2; load order p

-- The number at `i`; of an odd region, the last byte is joined with one of the next region.
unfoldable pub next_unit : ByteOrder → DispatchData → ℕ → ℕ → ℕ → Cursor → Outcome Point
next_unit order whole offset size max c =
    let across : Outcome Point = (do
      ch ← load_at order whole (offset + c.i * 2)
      ok (record { wch = ch; behind = record c { skip = c.skip + 1 } })) in
    let inside : Outcome Point = (do ch ← load order c.src; ok (record { wch = ch; behind = c })) in
    if c.i == max - 1 && ltb (size / 2) max then across else inside

-- The second number of a pair, at `++i`.
unfoldable pub low_unit : ByteOrder → DispatchData → ℕ → ℕ → Cursor → Outcome Point
low_unit order whole offset max c =
    let at_next : Cursor = record c { i = c.i + 1; src = drop 2 c.src } in
    let across : Outcome Point = (do
      ch ← load_at order whole (offset + at_next.i * 2)
      ok (record { wch = ch; behind = record at_next { skip = c.skip + 2 } })) in
    let inside : Outcome Point = (do
      ch ← load order at_next.src
      ok (record { wch = ch; behind = at_next })) in
    if leb max at_next.i then across else inside

-- The code point that begins with the number `p.wch`.
unfoldable pub join_units : ByteOrder → DispatchData → ℕ → ℕ → Point → Outcome Point
join_units order whole offset max p =
    let ch = p.wch in
    let pair : Outcome Point = (do
      q ← low_unit order whole offset max p.behind
      (if leb 0xdc00 q.wch && leb q.wch 0xdfff
          then ok
              (record { wch = (ch - 0xd800) * 1024 + q.wch % 1024 + 0x10000; behind = q.behind })
          else rejected)) in
    if leb 0xd800 ch && leb ch 0xdbff
    then pair
    else if leb 0xdc00 ch && leb ch 0xdfff
    then rejected
    else ok p

-- The bytes of a code point.
unfoldable pub sequence : ℕ → List ℕ
sequence wch =
    if ltb wch 0x80
    then wch % 256 ∷ []
    else if ltb wch 0x800
    then (0xc0 + wch / 64) ∷ (0x80 + wch % 64) ∷ []
    else if ltb wch 0x10000
    then (0xe0 + wch / 4096) ∷ (0x80 + wch / 64 % 64) ∷ (0x80 + wch % 64) ∷ []
    else if ltb wch 0x200000
    then (0xf0 + wch / 262144)
      ∷ (0x80 + wch / 4096 % 64)
      ∷ (0x80 + wch / 64 % 64)
      ∷ (0x80 + wch % 64)
      ∷ []
    else []

unfoldable pub write_sequence : ℕ → Buffer → ℕ → ℕ → Outcome Buffer
write_sequence max b i wch =
    let next = (max - i) * 2 in
    let bytes = sequence wch in
    let written : Outcome Buffer = (do b1 ← buffer_new b (length bytes) next; put b1 bytes) in
    if leb (2 ^ 64) next then rejected else if ltb wch 0x200000 then written else ok b

-- The loop body: the code point at `i`, unless it is a byte order mark at the beginning.
unfoldable pub transcribe : ByteOrder → DispatchData → ℕ → ℕ → Cursor → Point → Outcome Cursor
transcribe order whole offset max c p =
    let step : Cursor → Cursor = λ d. record d { i = d.i + 1; src = drop 2 d.src } in
    let written : Outcome Cursor = (do
      q ← join_units order whole offset max p
      b ← write_sequence max c.buffer q.behind.i q.wch
      ok (
          step
            (record { buffer = b; skip = q.behind.skip; i = q.behind.i; src = q.behind.src }))) in
    let first = offset == 0 && c.i == 0 in
    if p.wch == 0xfffe && first
    then rejected
    else if p.wch == 0xfeff && first
    then ok (step p.behind)
    else written

-- The loop over a region, with fuel.
unfoldable pub convert : ByteOrder → DispatchData → ℕ → ℕ → ℕ → ℕ → Cursor → Outcome Cursor
convert order whole offset size max zero c = ok c
convert order whole offset size max (suc fuel) c =
    let round : Outcome Cursor = (do
      p ← next_unit order whole offset size max c
      d ← transcribe order whole offset max c p
      convert order whole offset size max fuel d) in
    if ltb c.i max then round else ok c

-- The block of _dispatch_transform_from_utf16. `left` is the region's size behind what was read ahead
-- of it. A round takes at least one number, so `max` is fuel enough.
unfoldable pub convert_region : ByteOrder → DispatchData → ℕ → List ℕ → Progress → Outcome Progress
convert_region order whole offset src s =
    let size = length src in
    let left = size - s.skip in
    let max = left / 2 + left % 2 in
    let opened : Outcome Buffer =
      if offset == 0 then buffer_new s.buffer ((size + 2) / 3 * 2) 0 else ok s.buffer in
    let converted : Buffer → Outcome Progress = λ b. (do
      c ←
          convert order whole offset left max max
            (record { buffer = b; skip = 0; i = 0; src = drop s.skip src })
      b1 ← buffer_new c.buffer 0 0
      ok (record { buffer = b1; skip = c.skip })) in
    do
      b ← opened
      (if leb size s.skip then ok (record { buffer = b; skip = s.skip - size }) else converted b)

-- The block as an applier.
unfoldable pub from_utf16_region :
    ByteOrder
    → DispatchData
    → DispatchData
    → ℕ
    → List ℕ
    → Outcome Progress
    → Outcome Progress × Bool
from_utf16_region order whole region offset src r =
    let r1 : Outcome Progress = (do s ← r; convert_region order whole offset src s) in
    (r1, elim r1 [ ok s ↦ true | _ ↦ false ])

-- _dispatch_transform_from_utf16; a rejection is NULL.
unfoldable pub from_utf16 : DispatchData → ByteOrder → Outcome DispatchData
from_utf16 d order = do
  s ← (apply (from_utf16_region order d) d (ok (record { buffer = no_buffer; skip = 0 }))).0
  ok s.buffer.data_object
