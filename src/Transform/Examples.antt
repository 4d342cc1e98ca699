-- ===== src/Transform/Examples.antt =====
-- Concrete inputs of the transforms.
use book.Base.{ℕ, ◌-◌, ◌^◌, ◌≡◌, refl, none, some, List, [], ◌∷◌, arith}
use book.Data.{DispatchData, leaf, composite, nil, cons, create_concat, bytes}
use book.Transform.Tables.{base64_decode_table, base32_decode_table, base32_encode_table}
use book.Data.Access.{apply}
use book.Transform.Base64.{
  from_base64, decode_byte, decode_value, rejected, overrun, last_byte, to_base64,
}
use book.Transform.Rfc4648.{encode, AreBytes}
use book.Transform.Encoder.{to_base64-encode, from_base64-to_base64}
use book.Transform.Base32.{
  from_base32, from_base32hex, from_base32_with_table, read_byte, add_value, to_base32,
  to_base32_with_table,
}
use book.Transform.Rejecting.{from_base32hex-rejected}
use book.Transform.RoundTrip.{returned}

-- "TWFu" is `M`, `a`, `n`.
man : returned (from_base64 (leaf (84 ∷ 87 ∷ 70 ∷ 117 ∷ []))) ≡ some (leaf (77 ∷ 97 ∷ 110 ∷ []))
unfolding from_base64 apply decode_byte base64_decode_table decode_value create_concat
man = refl

-- A character of padding with nothing before it: the length wraps around.
lone_padding : from_base64 (leaf (61 ∷ [])) ≡ overrun (2 ^ 64 - 1)
unfolding from_base64 apply decode_byte base64_decode_table decode_value
lone_padding = refl

-- The same bytes in two regions.
abbrev fragments : DispatchData
fragments = composite none 4 (cons (leaf (77 ∷ 97 ∷ [])) 0 2 (cons (leaf (110 ∷ 33 ∷ [])) 0 2 nil))

fragments-AreBytes : AreBytes (bytes fragments)
unfolding bytes
fragments-AreBytes = omega arith

to_base64-encode_example : to_base64 fragments ≡ some (leaf (encode (bytes fragments)))
to_base64-encode_example = to_base64-encode fragments (omega arith) fragments-AreBytes (omega arith)

from_base64-to_base64_example :
    (e : DispatchData) × (to_base64 fragments ≡ some e)
    × (returned (from_base64 e) ≡ some (leaf (bytes fragments)))
from_base64-to_base64_example =
    from_base64-to_base64 fragments (omega arith) fragments-AreBytes (omega arith)

-- "MY======" is `f`.
abbrev one_f : List ℕ
one_f = 77 ∷ 89 ∷ 61 ∷ 61 ∷ 61 ∷ 61 ∷ 61 ∷ 61 ∷ []

decoded_f : returned (from_base32 (leaf one_f)) ≡ some (leaf (102 ∷ []))
unfolding from_base32 from_base32_with_table apply read_byte base32_decode_table add_value
    create_concat
decoded_f = refl

encoded_f : to_base32 (leaf (102 ∷ [])) ≡ some (leaf one_f)
unfolding to_base32 to_base32_with_table apply base32_encode_table last_byte
encoded_f = refl

-- "CO======", base32hex for `f`.
from_base32hex-rejected_example :
    from_base32hex (leaf (67 ∷ 79 ∷ 61 ∷ 61 ∷ 61 ∷ 61 ∷ 61 ∷ 61 ∷ [])) ≡ rejected
unfolding bytes
from_base32hex-rejected_example =
    from_base32hex-rejected (leaf (67 ∷ 79 ∷ 61 ∷ 61 ∷ 61 ∷ 61 ∷ 61 ∷ 61 ∷ [])) 67
      (79 ∷ 61 ∷ 61 ∷ 61 ∷ 61 ∷ 61 ∷ 61 ∷ []) (omega arith) refl (omega arith)
