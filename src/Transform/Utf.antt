-- ===== src/Transform/Utf.antt =====
-- transform.c: what the UTF transforms share, which is their growing output buffer, the mapping of a
-- subrange, byte order, and the reading of UTF-8 sequences. Where C masks or joins by `|` bits that
-- do not overlap, the same is said here by `/`, `%` and `+`. Memory that malloc is asked for is got.
pub mod Forms
pub mod ToUtf16
pub mod FromUtf16
pub mod Points
pub mod Widening
pub mod Filling
pub mod Units
pub mod Narrowing
pub mod Lengths
pub mod Transcoding
pub mod Bounds
pub mod Rounds
pub mod Detection
pub mod WideningBounds
pub mod NarrowingBounds
pub mod Examples
use book.Base.{
  ℕ, zero, suc, ◌+◌, ◌-◌, ◌*◌, ◌/◌, ◌%◌, ◌^◌, Bool, true, false, Option, none, some, List, [], ◌∷◌,
  ◌++◌, ◌==◌, ◌||◌, ltb, leb, if◌then◌else◌, length, add64,
}
use book.Data.{DispatchData, leaf, data_empty, get_size, create_concat, create_subrange}
use book.Data.Mapping.{map_bytes}

-- How a step ends: with a value, with a return of false, or by reading or writing outside of a buffer.
pub data Outcome (A : Type 0) : Type 0 where
  ok : A → Outcome A
  rejected : Outcome A
  overread : Outcome A
  overrun : Outcome A

infixl 1 ◌>>=◌
abbrev pub ◌>>=◌ : {A B : Type 0} → Outcome A → (A → Outcome B) → Outcome B
◌>>=◌ (ok a) k = k a
◌>>=◌ rejected k = rejected
◌>>=◌ overread k = overread
◌>>=◌ overrun k = overrun

abbrev pub of_option : {A : Type 0} → Option A → Outcome A
of_option none = rejected
of_option (some a) = ok a

-- struct dispatch_transform_buffer_s: the output so far, the bytes between `start` and `ptr`, and the
-- buffer's size, which is 0 where `start` is NULL.
pub record Buffer : Type 0 where
  pub data_object : DispatchData
  pub written : List ℕ
  pub size : ℕ

abbrev pub no_buffer : Buffer
no_buffer = record { data_object = data_empty; written = []; size = 0 }

-- BUFFER_MALLOC_MAX
abbrev pub buffer_malloc_max : ℕ
buffer_malloc_max = 100 * 1024 * 1024

-- What is written is appended to the output.
unfoldable pub flushed : Buffer → Option DispatchData
flushed b = elim b.written [
  | [] ↦ some b.data_object
  | _ ∷ _ ↦ elim (create_concat b.data_object (leaf b.written)) [
    | none ↦ none
    | some c ↦ some c.object
  ]
]

-- _dispatch_transform_buffer_new
unfoldable pub buffer_new : Buffer → ℕ → ℕ → Outcome Buffer
unfolding flushed
buffer_new b required size =
    let remaining = b.size - length b.written in
    let new_size = add64 required size in
    if required == 0 || ltb remaining required
    then elim (flushed b) [
      | none ↦ rejected
      | some d ↦
          if ltb buffer_malloc_max new_size
          then rejected
          else ok (record { data_object = d; written = []; size = new_size })
    ]
    else ok b

-- `*(buffer.ptr)++ = …`, for each of the bytes.
unfoldable pub put : Buffer → List ℕ → Outcome Buffer
put b bs =
    if leb (length b.written + length bs) b.size
    then ok (record b { written = b.written ++ bs })
    else overrun

-- _dispatch_data_subrange_map; the rejection stands for NULL.
unfoldable pub subrange_map : DispatchData → ℕ → ℕ → Outcome (List ℕ)
subrange_map d offset size = elim (create_subrange d offset size) [
  | none ↦ rejected
  | some c ↦ if get_size c.object == size then ok (map_bytes c.object) else rejected
]

-- OSLittleEndian and OSBigEndian.
pub data ByteOrder : Type 0 where
  little : ByteOrder
  big : ByteOrder

-- _dispatch_transform_swap_to_host, and _dispatch_transform_swap_from_host, on a little-endian host.
abbrev pub swap16 : ByteOrder → ℕ → ℕ
swap16 little x = x
swap16 big x = x % 256 * 256 + x / 256

-- A 16-bit number in memory.
abbrev pub store16 : ℕ → List ℕ
store16 x = x % 256 ∷ x / 256 ∷ []

abbrev pub load16 : ℕ → ℕ → ℕ
load16 b0 b1 = b0 + b1 * 256

-- _dispatch_transform_utf8_length
unfoldable pub utf8_length : ℕ → ℕ
utf8_length byte =
    if byte / 128 == 0
    then 1
    else if byte / 32 == 6
    then 2
    else if byte / 16 == 14
    then 3
    else if byte / 8 == 30
    then 4
    else 0

-- The bits of the first byte, shifted to make room for the next.
unfoldable pub lead_bits : ℕ → ℕ → ℕ
lead_bits seq_length byte =
    if seq_length == 4
    then byte % 8 * 64
    else if seq_length == 3
    then byte % 16 * 64
    else if seq_length == 2
    then byte % 32 * 64
    else if seq_length == 1
    then byte % 128
    else 0

-- The loop of _dispatch_transform_read_utf8_sequence.
unfoldable pub read_rest : ℕ → List ℕ → ℕ → Outcome ℕ
read_rest zero bytes wch = ok wch
read_rest (suc seq_length) [] wch = overread
read_rest (suc seq_length) (b ∷ bytes) wch =
    let joined = wch + b % 64 in
    read_rest seq_length bytes (if seq_length == 0 then joined else joined * 64 % 2 ^ 32)

-- _dispatch_transform_read_utf8_sequence. `seq_length` is a uint8_t: 0 is decremented to 255.
unfoldable pub read_utf8_sequence : List ℕ → Outcome ℕ
unfolding utf8_length lead_bits read_rest
read_utf8_sequence [] = overread
read_utf8_sequence (b ∷ bytes) =
    let seq_length = utf8_length b in
    read_rest ((seq_length + 255) % 256) bytes (lead_bits seq_length b)
