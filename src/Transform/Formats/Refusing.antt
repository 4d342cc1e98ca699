-- ===== src/Transform/Formats/Refusing.antt =====
-- transform.c, dispatch_data_create_with_transform: which formats it does not convert between.
use book.Base.{◌≡◌, ◌≢◌, ◌⊎◌, inl, inr, refl, Bool, true, false, ◌||◌, if◌then◌else◌, arith}
use book.Data.{DispatchData}
use book.Transform.Utf.{Outcome, ok, rejected}
use book.Transform.Formats.{
  Format, raw, base32, base32hex, base64, utf8, utf16le, utf16be, utf_any, mask, lacks,
  input_format, create_with_transform,
}

-- Binary data and the base encodings on the one hand, text in the Unicode encodings on the other.
abbrev is_text : Format → Bool
is_text raw = false
is_text base32 = false
is_text base32hex = false
is_text base64 = false
is_text utf8 = true
is_text utf16le = true
is_text utf16be = true
is_text utf_any = true

-- One of the two tests refuses a transformation between text and the rest, or into "any UTF".
refused :
    (input output : Format)
    → (is_text input ≢ is_text output) ⊎ (output ≡ utf_any)
    → (lacks (mask output) input || lacks (mask input) output) ≡ true
refused input output (inl h) = ground arith
refused input output (inr e) = ground arith

if-refused :
    (a b : Bool) (r : Outcome DispatchData)
    → (a || b) ≡ true
    → (if a then rejected else if b then rejected else r) ≡ rejected
if-refused true b r h = refl
if-refused false true r h = refl
if-refused false false r h = cc

input_format-known :
    (d : DispatchData) (format : Format) → format ≢ utf_any → input_format format d ≡ ok format
unfolding input_format
input_format-known d raw h = refl
input_format-known d base32 h = refl
input_format-known d base32hex h = refl
input_format-known d base64 h = refl
input_format-known d utf8 h = refl
input_format-known d utf16le h = refl
input_format-known d utf16be h = refl
input_format-known d utf_any h = absurd (h refl)

-- Unless the input format is "any UTF", whose bytes are looked at first, a transformation of text into
-- binary data or a base encoding, or of one of those into text, is rejected whatever the data is; so
-- is one into "any UTF".
create_with_transform-rejected :
    (d : DispatchData) (input output : Format)
    → input ≢ utf_any
    → (is_text input ≢ is_text output) ⊎ (output ≡ utf_any)
    → create_with_transform d input output ≡ rejected
unfolding create_with_transform
create_with_transform-rejected d input output known mixed = rw (input_format-known d input known) (
    if-refused (lacks (mask output) input) (lacks (mask input) output) _
      (refused input output mixed))
