-- ===== src/Transform/Utf/ToUtf16.antt =====
-- transform.c: _dispatch_transform_to_utf16.
use book.Base.{
  ℕ, zero, suc, ◌+◌, ◌-◌, ◌*◌, ◌/◌, ◌%◌, ◌^◌, Bool, true, false, List, [], ◌∷◌, ◌==◌, ◌&&◌, ltb,
  leb, if◌then◌else◌, length, drop,
}
use book.Data.{DispatchData}
use book.Data.Access.{apply}
use book.Transform.Utf.{
  Outcome, ok, rejected, overread, ◌>>=◌, Buffer, no_buffer, buffer_new, put, subrange_map,
  ByteOrder, swap16, store16, utf8_length, read_utf8_sequence,
}

-- What lives across regions, and the loop's `i` and `src`.
pub record Cursor : Type 0 where
  pub buffer : Buffer
  pub skip : ℕ
  pub i : ℕ
  pub src : List ℕ

-- A code point, and where the loop is behind it.
pub record Point : Type 0 where
  pub wch : ℕ
  pub behind : Cursor

-- The first half of the loop body: a sequence is read, from the region or across its end.
unfoldable pub read_point : DispatchData → ℕ → ℕ → Cursor → Outcome Point
read_point whole offset size c = elim c.src [
  | [] ↦ overread
  | byte ∷ _ ↦
      let byte_size = utf8_length byte in
      let across : Outcome Point = (do
        p ← subrange_map whole (offset + c.i) byte_size
        wch ← read_utf8_sequence p
        ok (record {
          wch = wch;
          behind = record {
            buffer = c.buffer;
            skip = c.skip + (byte_size - (size - c.i));
            i = size;
            src = drop byte_size c.src;
          };
        })) in
      let inside : Outcome Point = (do
        wch ← read_utf8_sequence c.src
        ok (record {
          wch = wch;
          behind = record {
            buffer = c.buffer;
            skip = c.skip;
            i = c.i + byte_size;
            src = drop byte_size c.src;
          };
        })) in
      if byte_size == 0 then rejected else if ltb size (byte_size + c.i) then across else inside
]

-- One 16-bit number, in the byte order asked for.
abbrev pub unit : ByteOrder → ℕ → List ℕ
unit order x = store16 (swap16 order x)

-- The second half: the code point is written as one number or as two.
unfoldable pub write_point : ByteOrder → ℕ → ℕ → Buffer → ℕ → ℕ → Outcome Buffer
write_point order offset size b i wch =
    let next = (size - i) * 2 in
    let w = wch - 0x10000 in
    let pair : Outcome Buffer = (do
      b1 ← buffer_new b 4 next
      b2 ← put b1 (unit order (w / 1024 % 1024 + 0xd800))
      put b2 (unit order (w % 1024 + 0xdc00))) in
    let single : Outcome Buffer = (do
      b1 ← buffer_new b 2 next
      put b1 (unit order (wch % 65536))) in
    if leb (2 ^ 64) next
    then rejected
    else if wch == 0xfeff && offset + i == 3
    then ok b
    else if leb 0xd800 wch && ltb wch 0xdfff
    then rejected
    else if leb 0x10000 wch
    then pair
    else single

-- The loop over a region, with fuel.
unfoldable pub convert : ByteOrder → DispatchData → ℕ → ℕ → ℕ → Cursor → Outcome Cursor
convert order whole offset size zero c = ok c
convert order whole offset size (suc fuel) c =
    let round : Outcome Cursor = (do
      p ← read_point whole offset size c
      b ← write_point order offset size p.behind.buffer p.behind.i p.wch
      convert order whole offset size fuel
          (record { buffer = b; skip = p.behind.skip; i = p.behind.i; src = p.behind.src })) in
    if ltb c.i size then round else ok c

-- The buffer and `skip`.
pub record Progress : Type 0 where
  pub buffer : Buffer
  pub skip : ℕ

-- What is done at offset 0: a buffer for all of the region, and the byte order mark.
unfoldable pub begin : ByteOrder → ℕ → ℕ → Buffer → Outcome Buffer
begin order offset size b =
    let dest_size = size * 2 + 2 in
    let opened : Outcome Buffer = (do b1 ← buffer_new b dest_size 0; put b1 (unit order 0xfeff)) in
    if offset == 0 then (if leb (2 ^ 64) dest_size then rejected else opened) else ok b

-- The block of _dispatch_transform_to_utf16 after that. A round takes at least one byte, so the
-- region's length is fuel enough.
unfoldable pub convert_region : ByteOrder → DispatchData → ℕ → List ℕ → Progress → Outcome Progress
convert_region order whole offset src s =
    let size = length src in
    let left = size - s.skip in
    let converted : Buffer → Outcome Progress = λ b. (do
      c ←
          convert order whole offset left left
            (record { buffer = b; skip = 0; i = 0; src = drop s.skip src })
      b1 ← buffer_new c.buffer 0 0
      ok (record { buffer = b1; skip = c.skip })) in
    do
      b ← begin order offset size s.buffer
      (if leb size s.skip then ok (record { buffer = b; skip = s.skip - size }) else converted b)

-- The block as an applier.
unfoldable pub to_utf16_region :
    ByteOrder
    → DispatchData
    → DispatchData
    → ℕ
    → List ℕ
    → Outcome Progress
    → Outcome Progress × Bool
to_utf16_region order whole region offset src r =
    let r1 : Outcome Progress = (do s ← r; convert_region order whole offset src s) in
    (r1, elim r1 [ ok s ↦ true | _ ↦ false ])

-- _dispatch_transform_to_utf16; a rejection is NULL.
unfoldable pub to_utf16 : DispatchData → ByteOrder → Outcome DispatchData
to_utf16 d order = do
  s ← (apply (to_utf16_region order d) d (ok (record { buffer = no_buffer; skip = 0 }))).0
  ok s.buffer.data_object
