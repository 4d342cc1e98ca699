-- ===== src/Transform/Utf/Examples.antt =====
-- Concrete inputs of the UTF transforms.
use book.Base.{
  Bool, ltb, ◌⊎◌, ℕ, List, [], ◌∷◌, ◌++◌, ◌≡◌, ◌≢◌, ◌≤◌, refl, inl, inr, none, arith, length, ◌*◌,
  ◌+◌,
}
use book.Data.{
  DispatchData, leaf, composite, nil, cons, create_concat, create_subrange, bytes, IsValid,
}
use book.Data.Access.{apply, map_direct}
use book.Data.Mapping.{create_map, flatten, readable, Maps, NoMapping, NoMemory, create_map-bytes}
use book.Transform.Utf.{
  ok, overread, overrun, ◌>>=◌, little, big, buffer_new, put, flushed, subrange_map, utf8_length,
  lead_bits, read_rest, read_utf8_sequence, buffer_malloc_max,
}
use book.Transform.Utf.ToUtf16.{
  Cursor, to_utf16, to_utf16_region, convert_region as convert_to, begin, convert as loop_to,
  read_point, write_point,
}
use book.Transform.Utf.FromUtf16.{
  from_utf16, from_utf16_region, convert_region as convert_from, convert as loop_from, next_unit,
  transcribe, join_units, low_unit, load, load_at, write_sequence, sequence,
}
use book.Transform.Utf.Forms.{utf8s, utf8, utf16s, utf16, unit16, without_bom, AreScalars}
use book.Transform.Utf.Widening.{to_utf16-utf8s}
use book.Transform.Utf.Transcoding.{from_utf16-utf16s, from_utf16-to_utf16, Gives}
use book.Transform.Utf.WideningBounds.{to_utf16-in_bounds}
use book.Transform.Utf.Rounds.{convert-enough}
use book.Transform.Utf.Detection.{strip}
use book.Transform.Formats.{create_with_transform, utf8 as utf8_format, utf16be, utf_any}
use book.Transform.Formats.Detecting.{create_with_transform-utf_any}

-- "aé€😀", behind a byte order mark.
abbrev text : List ℕ
text = 0xfeff ∷ 97 ∷ 0xe9 ∷ 0x20ac ∷ 0x1f600 ∷ []

text-scalars : AreScalars text
text-scalars = (
  inr (omega arith, omega arith),
  (
    inl (omega arith),
    (inl (omega arith), (inl (omega arith), (inr (omega arith, omega arith), tt))),
  ),
)

few : length (utf8s text) * 2 + 6 ≤ buffer_malloc_max
unfolding utf8s utf8
few = omega arith

few16 : length (utf16s little text) + 4 ≤ buffer_malloc_max
unfolding utf16s utf16 unit16
few16 = omega arith

to_utf16-utf8s_example :
    to_utf16 (leaf (utf8s text)) big
    ≡ ok (leaf (unit16 big 0xfeff ++ utf16s big (without_bom text)))
to_utf16-utf8s_example = to_utf16-utf8s big text text-scalars (omega arith) (omega (arith, few))

from_utf16-utf16s_example :
    Gives (utf8s (without_bom text)) (from_utf16 (leaf (utf16s little text)) little)
from_utf16-utf16s_example =
    from_utf16-utf16s little text text-scalars (λ z. omega arith) (omega arith) few16

from_utf16-to_utf16_example :
    Gives (utf8s (without_bom text)) (to_utf16 (leaf (utf8s text)) big >>= λ d. from_utf16 d big)
from_utf16-to_utf16_example = from_utf16-to_utf16 big text text-scalars (omega arith) few

create_with_transform-utf_any_example : Gives (strip (utf8s (without_bom text))) (
    create_with_transform (leaf (utf8s text)) utf8_format utf16be >>= λ d.
    create_with_transform d utf_any utf8_format)
create_with_transform-utf_any_example =
    create_with_transform-utf_any big text text-scalars (omega arith) few

-- "aééa" in three regions, each é in two of them.
abbrev split : DispatchData
split = composite none 6 (
    cons (leaf (97 ∷ 195 ∷ [])) 0 2
      (cons (leaf (169 ∷ 195 ∷ [])) 0 2 (cons (leaf (169 ∷ 97 ∷ [])) 0 2 nil)))

split-IsValid : IsValid split
split-IsValid = (
  omega arith,
  omega arith,
  omega arith,
  (
    (omega arith, omega arith, omega arith),
    ((omega arith, omega arith, omega arith), ((omega arith, omega arith, omega arith), tt)),
  ),
  tt,
)

to_utf16-in_bounds_example : to_utf16 split little ≢ overrun
to_utf16-in_bounds_example = to_utf16-in_bounds split little split-IsValid (omega arith)

abbrev split_start : Cursor
split_start = record {
  buffer = record { data_object = leaf []; written = []; size = 6 };
  skip = 0;
  i = 0;
  src = 97 ∷ 195 ∷ [];
}

convert-enough_example :
    loop_to little split 0 2 (2 + 7) split_start ≡ loop_to little split 0 2 2 split_start
convert-enough_example = convert-enough little split 0 2 2 7 split_start (omega arith)

-- An allocator that has six bytes.
abbrev six_bytes : ℕ → Bool
six_bytes n = ltb n 7

create_map-bytes_example :
    Maps split (create_map six_bytes split)
    ⊎ (NoMemory six_bytes split × NoMapping (create_map six_bytes split))
create_map-bytes_example = create_map-bytes six_bytes split split-IsValid

-- With one byte less, there is no mapping.
refused : (create_map (λ n. ltb n 5) split).data_object ≡ none
unfolding create_map flatten map_direct
refused = refl

-- The second é is looked for one byte too early, and 255 bytes are read from a mapping of two.
misread : to_utf16 split little ≡ overread
unfolding to_utf16 to_utf16_region convert_to begin loop_to read_point write_point buffer_new put
    flushed subrange_map utf8_length lead_bits read_rest read_utf8_sequence create_map flatten
    readable apply map_direct create_subrange create_concat
misread = refl

-- "abc" in three regions, each pair of bytes in two of them.
abbrev split16 : DispatchData
split16 = composite none 6 (
    cons (leaf (97 ∷ [])) 0 1
      (cons (leaf (0 ∷ 98 ∷ [])) 0 2 (cons (leaf (0 ∷ 99 ∷ 0 ∷ [])) 0 3 nil)))

-- The second character is read one byte too early: it comes out as U+6200.
shifted : Gives (97 ∷ 230 ∷ 136 ∷ 128 ∷ 99 ∷ []) (from_utf16 split16 little)
unfolding from_utf16 from_utf16_region convert_from loop_from next_unit transcribe join_units
    low_unit load load_at write_sequence sequence buffer_new put flushed subrange_map create_map
    readable flatten apply map_direct create_subrange create_concat bytes
shifted = (
  composite none 5 (
      cons (leaf (97 ∷ [])) 0 1
        (cons (leaf (230 ∷ 136 ∷ 128 ∷ [])) 0 3 (cons (leaf (99 ∷ [])) 0 1 nil))),
  refl,
  (
    omega arith,
    omega arith,
    omega arith,
    (
      (omega arith, omega arith, omega arith),
      ((omega arith, omega arith, omega arith), ((omega arith, omega arith, omega arith), tt)),
    ),
    tt,
  ),
  refl,
)

-- U+DFFF is a surrogate, and is let through.
surrogate : to_utf16 (leaf (237 ∷ 191 ∷ 191 ∷ [])) little ≡ ok (leaf (255 ∷ 254 ∷ 255 ∷ 223 ∷ []))
unfolding to_utf16 to_utf16_region convert_to begin loop_to read_point write_point buffer_new put
    flushed utf8_length lead_bits read_rest read_utf8_sequence apply create_concat
surrogate = refl
