-- ===== src/Transform/Formats.antt =====
-- transform.c: the format types and dispatch_data_create_with_transform, which composes the decoder of
-- one format with the encoder of another. A type is one bit, and what C tests by `type & ~mask` is
-- whether the mask lacks it. The host is little-endian.
pub mod Refusing
pub mod Detecting
use book.Base.{
  ℕ, ◌+◌, ◌*◌, ◌<◌, ◌≤◌, ◌/◌, ◌%◌, ◌≡◌, ◌≢◌, ◌⊎◌, inl, inr, refl, sym, ap, ◌∙◌, Bool, true, false,
  List, ◌++◌, ◌==◌, ◌||◌, if◌then◌else◌, length, length-append, arith,
}
use book.Data.{DispatchData, leaf, get_size}
use book.Transform.Base64 as Base64
use book.Transform.Base64.{Decoded, going, overrun as too_long, from_base64, to_base64}
use book.Transform.Base32.{from_base32, from_base32hex, to_base32, to_base32hex}
use book.Transform.Utf.{
  Outcome, ok, rejected, overread, ◌>>=◌, of_option, ByteOrder, little, big, buffer_malloc_max,
}
use book.Transform.Utf.ToUtf16.{to_utf16}
use book.Transform.Utf.FromUtf16.{from_utf16}
use book.Transform.Utf.Detection as Detection
use book.Transform.Utf.Detection.{
  UtfType, utf16_host, utf16_rev, detect_utf, to_utf8_without_bom, strip, detect_utf-to_utf16,
  to_utf8_without_bom-strip,
}
use book.Transform.Utf.Forms.{AreScalars, utf8s, utf16s, unit16, without_bom}
use book.Transform.Utf.Widening.{to_utf16-utf8s, utf8s-pos}
use book.Transform.Utf.Units.{length-unit16}
use book.Transform.Utf.Transcoding.{Gives, from_utf16-to_utf16}

-- The values of `type`, one for each dispatch_data_format_type_s.
pub data Format : Type 0 where
  raw : Format
  base32 : Format
  base32hex : Format
  base64 : Format
  utf8 : Format
  utf16le : Format
  utf16be : Format
  utf_any : Format

-- A type's bit.
abbrev pub type_bit : Format → ℕ
type_bit raw = 0x1
type_bit utf8 = 0x2
type_bit utf16le = 0x4
type_bit utf16be = 0x8
type_bit utf_any = 0x10
type_bit base32 = 0x20
type_bit base32hex = 0x40
type_bit base64 = 0x80

-- `input_mask`, and `output_mask`, which is the same for every format.
abbrev pub mask : Format → ℕ
mask raw = 0xffffffff
mask base32 = 0xe1
mask base32hex = 0xe1
mask base64 = 0xe1
mask utf16le = 0xe
mask utf16be = 0xe
mask utf8 = 0xe
mask utf_any = 0

-- `(format->type & ~mask) != 0`
abbrev pub lacks : ℕ → Format → Bool
lacks m format = m / type_bit format % 2 == 0

-- What a base32 or base64 decoder returns. An object that is longer than its buffer is one that is
-- read out of bounds.
unfoldable pub decoded : Decoded → Outcome DispatchData
decoded (going d) = ok d.rv
decoded Base64.rejected = rejected
decoded (too_long final) = overread

-- _dispatch_transform_from_utf16le
abbrev pub from_utf16le : DispatchData → Outcome DispatchData
from_utf16le d = from_utf16 d little

-- _dispatch_transform_from_utf16be
abbrev pub from_utf16be : DispatchData → Outcome DispatchData
from_utf16be d = from_utf16 d big

-- _dispatch_transform_to_utf16le
abbrev pub to_utf16le : DispatchData → Outcome DispatchData
to_utf16le d = to_utf16 d little

-- _dispatch_transform_to_utf16be
abbrev pub to_utf16be : DispatchData → Outcome DispatchData
to_utf16be d = to_utf16 d big

-- `decode`, or the data itself where that is NULL.
unfoldable pub decode : Format → DispatchData → Outcome DispatchData
decode raw d = ok d
decode base32 d = decoded (from_base32 d)
decode base32hex d = decoded (from_base32hex d)
decode base64 d = decoded (from_base64 d)
decode utf16le d = from_utf16le d
decode utf16be d = from_utf16be d
decode utf8 d = ok d
decode utf_any d = ok d

-- `encode`, or the data itself where that is NULL.
unfoldable pub encode : Format → DispatchData → Outcome DispatchData
encode raw d = ok d
encode base32 d = of_option (to_base32 d)
encode base32hex d = of_option (to_base32hex d)
encode base64 d = of_option (to_base64 d)
encode utf16le d = to_utf16le d
encode utf16be d = to_utf16be d
encode utf8 d = to_utf8_without_bom d
encode utf_any d = ok d

abbrev pub format_of : UtfType → Format
format_of Detection.utf8 = utf8
format_of utf16_host = utf16le
format_of utf16_rev = utf16be

-- The format that the data is in.
unfoldable pub input_format : Format → DispatchData → Outcome Format
input_format utf_any d = do t ← detect_utf d; ok (format_of t)
input_format format d = ok format

-- dispatch_data_create_with_transform; a rejection is NULL.
unfoldable pub create_with_transform : DispatchData → Format → Format → Outcome DispatchData
create_with_transform d input output =
    let converted : Format → Outcome DispatchData =
      λ from. (do temp1 ← decode from d; encode output temp1) in
    do
      from ← input_format input d
      (if lacks (mask output) from
          then rejected
          else if lacks (mask from) output
          then rejected
          else if get_size d == 0
          then ok d
          else converted from)
