-- ===== src/Transform/Tables.antt =====
-- transform.c, the tables of the base32 and base64 transforms. The decode tables are of signed
-- char; -1 and -2 are kept as their bit patterns.
use Prim.Native.Char.{code}
use Prim.Native.String.{String}
use book.Base.{ℕ, List, [], ◌∷◌, get_elem?, none, some}

-- -1: not in the alphabet.
abbrev pub inv : ℕ
inv = 255

-- -2: the padding character.
abbrev pub padc : ℕ
padc = 254

abbrev codes : String → List ℕ
codes String.[] = []
codes (String.◌∷◌ c s) = code c ∷ codes s

unfoldable pub base32_encode_table : List ℕ
base32_encode_table = codes "ABCDEFGHIJKLMNOPQRSTUVWXYZ234567"

unfoldable pub base32hex_encode_table : List ℕ
base32hex_encode_table = codes "0123456789ABCDEFGHIJKLMNOPQRSTUV"

unfoldable pub base64_encode_table : List ℕ
base64_encode_table = codes "ABCDEFGHIJKLMNOPQRSTUVWXYZabcdefghijklmnopqrstuvwxyz0123456789+/"

unfoldable pub base64_decode_table : List ℕ
base64_decode_table =
    inv ∷ inv ∷ inv ∷ inv ∷ inv ∷ inv ∷ inv ∷ inv ∷ inv ∷ inv ∷ inv ∷ inv ∷ inv ∷ inv ∷ inv ∷ inv
    ∷ inv ∷ inv ∷ inv ∷ inv ∷ inv ∷ inv ∷ inv ∷ inv ∷ inv ∷ inv ∷ inv ∷ inv ∷ inv ∷ inv ∷ inv ∷ inv
    ∷ inv ∷ inv ∷ inv ∷ inv ∷ inv ∷ inv ∷ inv ∷ inv ∷ inv ∷ inv ∷ inv ∷ 62 ∷ inv ∷ inv ∷ inv ∷ 63
    ∷ 52 ∷ 53 ∷ 54 ∷ 55 ∷ 56 ∷ 57 ∷ 58 ∷ 59 ∷ 60 ∷ 61 ∷ inv ∷ inv ∷ inv ∷ padc ∷ inv ∷ inv ∷ inv ∷ 0
    ∷ 1 ∷ 2 ∷ 3 ∷ 4 ∷ 5 ∷ 6 ∷ 7 ∷ 8 ∷ 9 ∷ 10 ∷ 11 ∷ 12 ∷ 13 ∷ 14 ∷ 15 ∷ 16 ∷ 17 ∷ 18 ∷ 19 ∷ 20 ∷ 21
    ∷ 22 ∷ 23 ∷ 24 ∷ 25 ∷ inv ∷ inv ∷ inv ∷ inv ∷ inv ∷ inv ∷ 26 ∷ 27 ∷ 28 ∷ 29 ∷ 30 ∷ 31 ∷ 32 ∷ 33
    ∷ 34 ∷ 35 ∷ 36 ∷ 37 ∷ 38 ∷ 39 ∷ 40 ∷ 41 ∷ 42 ∷ 43 ∷ 44 ∷ 45 ∷ 46 ∷ 47 ∷ 48 ∷ 49 ∷ 50 ∷ 51 ∷ []

unfoldable pub base32_decode_table : List ℕ
base32_decode_table =
    inv ∷ inv ∷ inv ∷ inv ∷ inv ∷ inv ∷ inv ∷ inv ∷ inv ∷ inv ∷ inv ∷ inv ∷ inv ∷ inv ∷ inv ∷ inv
    ∷ inv ∷ inv ∷ inv ∷ inv ∷ inv ∷ inv ∷ inv ∷ inv ∷ inv ∷ inv ∷ inv ∷ inv ∷ inv ∷ inv ∷ inv ∷ inv
    ∷ inv ∷ inv ∷ inv ∷ inv ∷ inv ∷ inv ∷ inv ∷ inv ∷ inv ∷ inv ∷ inv ∷ inv ∷ inv ∷ inv ∷ inv ∷ inv
    ∷ inv ∷ inv ∷ 26 ∷ 27 ∷ 28 ∷ 29 ∷ 30 ∷ 31 ∷ inv ∷ inv ∷ inv ∷ inv ∷ inv ∷ padc ∷ inv ∷ inv ∷ inv
    ∷ 0 ∷ 1 ∷ 2 ∷ 3 ∷ 4 ∷ 5 ∷ 6 ∷ 7 ∷ 8 ∷ 9 ∷ 10 ∷ 11 ∷ 12 ∷ 13 ∷ 14 ∷ 15 ∷ 16 ∷ 17 ∷ 18 ∷ 19 ∷ 20
    ∷ 21 ∷ 22 ∷ 23 ∷ 24 ∷ 25 ∷ []

unfoldable pub base32hex_decode_table : List ℕ
base32hex_decode_table =
    inv ∷ inv ∷ inv ∷ inv ∷ inv ∷ inv ∷ inv ∷ inv ∷ inv ∷ inv ∷ inv ∷ inv ∷ inv ∷ inv ∷ inv ∷ inv
    ∷ inv ∷ inv ∷ inv ∷ inv ∷ inv ∷ inv ∷ inv ∷ inv ∷ inv ∷ inv ∷ inv ∷ inv ∷ inv ∷ inv ∷ inv ∷ inv
    ∷ inv ∷ inv ∷ inv ∷ inv ∷ inv ∷ inv ∷ inv ∷ inv ∷ inv ∷ inv ∷ inv ∷ inv ∷ inv ∷ inv ∷ inv ∷ inv
    ∷ 0 ∷ 1 ∷ 2 ∷ 3 ∷ 4 ∷ 5 ∷ 6 ∷ 7 ∷ 8 ∷ 9 ∷ inv ∷ inv ∷ inv ∷ padc ∷ inv ∷ inv ∷ inv ∷ 10 ∷ 11
    ∷ 12 ∷ 13 ∷ 14 ∷ 15 ∷ 16 ∷ 17 ∷ 18 ∷ 19 ∷ 20 ∷ 21 ∷ 22 ∷ 23 ∷ 24 ∷ 25 ∷ 26 ∷ 27 ∷ 28 ∷ 29 ∷ 30
    ∷ 31 ∷ []

abbrev pub base64_decode_table_size : ℕ
base64_decode_table_size = 123

abbrev pub base32_decode_table_size : ℕ
base32_decode_table_size = 91

-- The size of the array `base32hex_encode_table`, its terminator included, not of the decode table.
abbrev pub base32hex_decode_table_size : ℕ
base32hex_decode_table_size = 33

-- An element of a table; nothing reads outside one.
abbrev pub element : List ℕ → ℕ → ℕ
element [] i = 0
element (x ∷ xs) i = elim (get_elem? (x ∷ xs) i) [ none ↦ 0 | some y ↦ y ]
