-- ===== src/Transform/Base64.antt =====
-- transform.c, base64: _dispatch_transform_from_base64 and _dispatch_transform_to_base64. Bytes are
-- numbers below 256; where C joins two shifted bytes by `|`, they have no bit in common, and it is `+`.
pub mod Decoding
pub mod Encoding
use book.Base.{
  ℕ, suc, ◌+◌, ◌-◌, ◌*◌, ◌/◌, ◌%◌, ◌^◌, ◌≡◌, Bool, true, false, ◌||◌, Option, none, some, List, [],
  ◌∷◌, ◌++◌, ◌==◌, ltb, leb, if◌then◌else◌, length, take, get_elem?, add64, sub64,
}
use book.Data.{DispatchData, leaf, data_empty, get_size, Created, create_concat, create_subrange}
use book.Data.Access.{apply, map_direct}
use book.Transform.Tables.{
  inv, padc, base64_encode_table, base64_decode_table, base64_decode_table_size, element,
}

-- The variables that live across regions, and the output buffer of the region at hand.
pub record Decoder : Type 0 where
  pub x : ℕ
  pub count : ℕ
  pub pad : ℕ
  pub rv : DispatchData
  pub dest : List ℕ

abbrev pub is_blank : ℕ → Bool
is_blank byte = byte == 10 || (byte == 9 || byte == 32)

-- One character that is in the table: `value` is its entry, `count` has been incremented.
unfoldable pub decode_value : ℕ → Decoder → Decoder
decode_value value d =
    let is_pad = value == padc in
    let count = add64 d.count 1 in
    let x = add64 (d.x * 64 % 2 ^ 64) (if is_pad then 0 else value) in
    record {
      x = x;
      count = count;
      pad = if is_pad then d.pad + 1 else d.pad;
      rv = d.rv;
      dest =
          if count % 4 == 0
          then d.dest ++ x / 2 ^ 16 % 256 ∷ x / 2 ^ 8 % 256 ∷ x % 256 ∷ []
          else d.dest;
    }

-- The loop body on one byte; `none` is the return of false.
unfoldable pub decode_byte : ℕ → Decoder → Option Decoder
decode_byte byte d =
    let value = element base64_decode_table byte in
    if is_blank byte
    then some d
    else if leb base64_decode_table_size byte || value == inv
    then none
    else some (decode_value value d)

unfoldable pub decode_bytes : List ℕ → Decoder → Option Decoder
decode_bytes [] d = some d
decode_bytes (b ∷ bs) d = elim (decode_byte b d) [ none ↦ none | some d' ↦ decode_bytes bs d' ]

-- How the transform ends: with an object, with NULL, or by creating an object that is longer than
-- its buffer.
pub data Decoded : Type 0 where
  going : Decoder → Decoded
  rejected : Decoded
  overrun : (final : ℕ) → Decoded

-- The end of a region: the padding is taken off, the output is appended to `rv`.
unfoldable pub finish_region : Decoder → Decoded
finish_region d =
    let final = sub64 (length d.dest) d.pad in
    if leb final (length d.dest)
    then elim (create_concat d.rv (leaf (take final d.dest))) [
      | none ↦ rejected
      | some c ↦ going (record { x = d.x; count = d.count; pad = d.pad; rv = c.object; dest = [] })
    ]
    else overrun final

-- The block of _dispatch_transform_from_base64.
unfoldable pub decode_region : DispatchData → ℕ → List ℕ → Decoded → Decoded × Bool
unfolding decode_bytes finish_region
decode_region region offset buffer (going d) = elim (decode_bytes buffer d) [
  | none ↦ (rejected, false)
  | some d' ↦ (finish_region d', true)
]
decode_region region offset buffer rejected = (rejected, false)
decode_region region offset buffer (overrun final) = (overrun final, false)

abbrev pub start : Decoder
start = record { x = 0; count = 0; pad = 0; rv = data_empty; dest = [] }

-- _dispatch_transform_from_base64
unfoldable pub from_base64 : DispatchData → Decoded
unfolding decode_region
from_base64 data_object = (apply decode_region data_object (going start)).0

-- The digit of a 6-bit value.
unfoldable pub digit : ℕ → ℕ
unfolding base64_encode_table
digit v = element base64_encode_table v

-- The switch on `count % 3`: what the byte `curr` after `last` adds to the output.
unfoldable pub encode_byte : ℕ → ℕ → ℕ → List ℕ
unfolding digit
encode_byte phase last curr =
    if phase == 0
    then digit (curr / 4 % 64) ∷ []
    else if phase == 1
    then digit ((last * 16 + curr / 16) % 64) ∷ []
    else digit ((last * 4 + curr / 64) % 64) ∷ digit (curr % 64) ∷ []

-- The padding after the last region, whose last byte is `last`.
unfoldable pub padding : ℕ → ℕ → List ℕ
unfolding digit
padding phase last =
    if phase == 0
    then []
    else if phase == 1
    then digit (last * 16 % 64 / 16 * 16) ∷ 61 ∷ 61 ∷ []
    else digit (last * 4 % 64 / 4 * 4) ∷ 61 ∷ []

-- The loop over a region's bytes.
unfoldable pub encode_bytes : ℕ → ℕ → List ℕ → List ℕ
unfolding encode_byte
encode_bytes count last [] = []
encode_bytes count last (b ∷ bs) = encode_byte (count % 3) last b ++ encode_bytes (count + 1) b bs

-- The last byte of a region.
unfoldable pub last_byte : ℕ → List ℕ → ℕ
last_byte before [] = before
last_byte before (b ∷ bs) = last_byte b bs

-- _dispatch_data_subrange_map for one byte: a subrange of that size, mapped. A subrange of one byte of
-- a well-formed object is a leaf or refers to one, so the mapping is direct; `none` stands for NULL.
unfoldable pub subrange_byte : DispatchData → ℕ → Option ℕ
subrange_byte d offset = elim (create_subrange d offset 1) [
  | none ↦ none
  | some c ↦
      if get_size c.object == 1
      then elim (map_direct c.object 0).buffer [ none ↦ none | some buf ↦ get_elem? buf 0 ]
      else none
]

pub record Encoder : Type 0 where
  pub count : ℕ
  pub out : List ℕ

-- The block of _dispatch_transform_to_base64; `none` is the return of false.
unfoldable pub encode_region :
    DispatchData → DispatchData → ℕ → List ℕ → Option Encoder → Option Encoder × Bool
unfolding encode_bytes padding last_byte subrange_byte
encode_region whole region offset buffer none = (none, false)
encode_region whole region offset buffer (some e) =
    let before : Option ℕ = if e.count % 3 == 0 then some 0 else subrange_byte whole (offset - 1) in
    let count = e.count + length buffer in
    elim before [
      | none ↦ (none, false)
      | some last ↦ (
        some (record {
          count = count;
          out =
              e.out
              ++ encode_bytes e.count last buffer
              ++ (if offset + length buffer == get_size whole
                  then padding (count % 3) (last_byte last buffer)
                  else []);
        }),
        true,
      )
    ]

-- _dispatch_transform_to_base64; `none` is NULL. The result takes the whole of the allocated buffer: a
-- buffer that the loop has not filled exactly is a fault, which is `none` too.
unfoldable pub to_base64 : DispatchData → Option DispatchData
unfolding encode_region
to_base64 d =
    let dest_size = add64 (get_size d) 2 / 3 in
    let encoded = (apply (encode_region d) d (some (record { count = 0; out = [] }))).0 in
    if leb dest_size ((2 ^ 64 - 1) / 4)
    then elim encoded [
      | none ↦ none
      | some e ↦ if length e.out == dest_size * 4 then some (leaf e.out) else none
    ]
    else none
