-- ===== src/Transform/Base32.antt =====
-- transform.c, base32 and base32hex: the two transforms `with_table` and the four that call them, in
-- the terms of the base64 ones.
use book.Base.{
  ℕ, ◌+◌, ◌-◌, ◌*◌, ◌/◌, ◌%◌, ◌^◌, Bool, true, false, ◌||◌, Option, none, some, List, [], ◌∷◌, ◌++◌,
  ◌==◌, leb, if◌then◌else◌, length, take, add64, sub64,
}
use book.Data.{DispatchData, leaf, get_size, create_concat}
use book.Data.Access.{apply}
use book.Transform.Tables.{
  inv, padc, base32_encode_table, base32_decode_table, base32_decode_table_size,
  base32hex_encode_table, base32hex_decode_table, base32hex_decode_table_size, element,
}
use book.Transform.Base64.{
  Decoder, Decoded, going, rejected, overrun, is_blank, start, Encoder, last_byte, subrange_byte,
}

-- One character that is in the table.
unfoldable pub add_value : ℕ → Decoder → Decoder
add_value value d =
    let is_pad = value == padc in
    let count = add64 d.count 1 in
    let x = add64 (d.x * 32 % 2 ^ 64) (if is_pad then 0 else value) in
    let group =
      x / 2 ^ 32 % 256 ∷ x / 2 ^ 24 % 256 ∷ x / 2 ^ 16 % 256 ∷ x / 2 ^ 8 % 256 ∷ x % 256 ∷ [] in
    record {
      x = x;
      count = count;
      pad = if is_pad then add64 d.pad 1 else d.pad;
      rv = d.rv;
      dest = if count % 8 == 0 then d.dest ++ group else d.dest;
    }

-- The loop body on one byte; `none` is the return of false.
unfoldable pub read_byte : List ℕ → ℕ → ℕ → Decoder → Option Decoder
read_byte table table_size byte d =
    let value = element table byte in
    if is_blank byte
    then some d
    else if leb table_size byte || value == inv
    then none
    else some (add_value value d)

unfoldable pub read_bytes : List ℕ → ℕ → List ℕ → Decoder → Option Decoder
read_bytes table table_size [] d = some d
read_bytes table table_size (b ∷ bs) d = elim (read_byte table table_size b d) [
  | none ↦ none
  | some d' ↦ read_bytes table table_size bs d'
]

-- The switch on `pad`: the bytes that it stands for.
unfoldable pub padded_bytes : ℕ → ℕ
padded_bytes pad =
    if pad == 1
    then 1
    else if pad == 3
    then 2
    else if pad == 4
    then 3
    else if pad == 6
    then 4
    else 0

unfoldable pub end_region : Decoder → Decoded
unfolding padded_bytes
end_region d =
    let final = sub64 (length d.dest) (padded_bytes d.pad) in
    if leb final (length d.dest)
    then elim (create_concat d.rv (leaf (take final d.dest))) [
      | none ↦ rejected
      | some c ↦ going (record { x = d.x; count = d.count; pad = d.pad; rv = c.object; dest = [] })
    ]
    else overrun final

-- The block of _dispatch_transform_from_base32_with_table.
unfoldable pub read_region : List ℕ → ℕ → DispatchData → ℕ → List ℕ → Decoded → Decoded × Bool
unfolding read_bytes end_region
read_region table table_size region offset buffer (going d) =
    elim (read_bytes table table_size buffer d) [
      | none ↦ (rejected, false)
      | some d' ↦ (end_region d', true)
    ]
read_region table table_size region offset buffer rejected = (rejected, false)
read_region table table_size region offset buffer (overrun final) = (overrun final, false)

unfoldable pub from_base32_with_table : DispatchData → List ℕ → ℕ → Decoded
unfolding read_region
from_base32_with_table d table table_size = (apply (read_region table table_size) d (going start)).0

-- _dispatch_transform_from_base32
unfoldable pub from_base32 : DispatchData → Decoded
from_base32 d = from_base32_with_table d base32_decode_table base32_decode_table_size

-- _dispatch_transform_from_base32hex
unfoldable pub from_base32hex : DispatchData → Decoded
from_base32hex d = from_base32_with_table d base32hex_decode_table base32hex_decode_table_size

-- The switch on `count % 5`: what the byte `curr` after `last` adds to the output.
unfoldable pub write_byte : List ℕ → ℕ → ℕ → ℕ → List ℕ
write_byte table phase last curr =
    if phase == 0
    then element table (curr / 8 % 32) ∷ []
    else if phase == 1
    then element table ((last * 4 + curr / 64) % 32) ∷ element table (curr / 2 % 32) ∷ []
    else if phase == 2
    then element table ((last * 16 + curr / 16) % 32) ∷ []
    else if phase == 3
    then element table ((last * 2 + curr / 128) % 32) ∷ element table (curr / 4 % 32) ∷ []
    else element table ((last * 8 + curr / 32) % 32) ∷ element table (curr % 32) ∷ []

-- The two switches after the last region, whose last byte is `last`.
unfoldable pub write_padding : List ℕ → ℕ → ℕ → List ℕ
write_padding table phase last =
    if phase == 0
    then []
    else if phase == 1
    then element table (last * 4 % 32 / 4 * 4) ∷ 61 ∷ 61 ∷ 61 ∷ 61 ∷ 61 ∷ 61 ∷ []
    else if phase == 2
    then element table (last * 16 % 32 / 16 * 16) ∷ 61 ∷ 61 ∷ 61 ∷ 61 ∷ []
    else if phase == 3
    then element table (last * 2 % 32 / 2 * 2) ∷ 61 ∷ 61 ∷ 61 ∷ []
    else element table (last * 8 % 32 / 8 * 8) ∷ 61 ∷ []

unfoldable pub write_bytes : List ℕ → ℕ → ℕ → List ℕ → List ℕ
unfolding write_byte
write_bytes table count last [] = []
write_bytes table count last (b ∷ bs) =
    write_byte table (count % 5) last b ++ write_bytes table (count + 1) b bs

-- The block of _dispatch_transform_to_base32_with_table.
unfoldable pub write_region :
    List ℕ → DispatchData → DispatchData → ℕ → List ℕ → Option Encoder → Option Encoder × Bool
unfolding write_bytes write_padding
write_region table whole region offset buffer none = (none, false)
write_region table whole region offset buffer (some e) =
    let before : Option ℕ = if e.count % 5 == 0 then some 0 else subrange_byte whole (offset - 1) in
    let count = e.count + length buffer in
    elim before [
      | none ↦ (none, false)
      | some last ↦ (
        some (record {
          count = count;
          out =
              e.out
              ++ write_bytes table e.count last buffer
              ++ (if offset + length buffer == get_size whole
                  then write_padding table (count % 5) (last_byte last buffer)
                  else []);
        }),
        true,
      )
    ]

-- A buffer that the loop has not filled exactly is a fault, which is `none` as NULL is.
unfoldable pub to_base32_with_table : DispatchData → List ℕ → Option DispatchData
unfolding write_region
to_base32_with_table d table =
    let dest_size = add64 (get_size d) 4 / 5 in
    let encoded = (apply (write_region table d) d (some (record { count = 0; out = [] }))).0 in
    if leb dest_size ((2 ^ 64 - 1) / 8)
    then elim encoded [
      | none ↦ none
      | some e ↦ if length e.out == dest_size * 8 then some (leaf e.out) else none
    ]
    else none

-- _dispatch_transform_to_base32
unfoldable pub to_base32 : DispatchData → Option DispatchData
to_base32 d = to_base32_with_table d base32_encode_table

-- _dispatch_transform_to_base32hex
unfoldable pub to_base32hex : DispatchData → Option DispatchData
to_base32hex d = to_base32_with_table d base32hex_encode_table
