-- ===== src/Data/Bytes.antt =====
-- What a dispatch data object stands for, its bytes, and which objects are well formed.
use book.Base.{
  ℕ, ◌+◌, ◌≤◌, ◌<◌, ◌^◌, ◌≡◌, refl, Option, none, some, List, [], ◌++◌, length, length-append,
  slice, length-slice, arith,
}
use mathlib.Core.List.{append_assoc}
use book.Data.Defs.{
  DispatchData, leaf, composite, Records, nil, cons, get_size, count, append_records,
}

unfoldable mutual
  pub bytes : DispatchData → List ℕ
  bytes (leaf buf) = buf
  bytes (composite flat size records) = record_bytes records

  pub record_bytes : Records → List ℕ
  record_bytes nil = []
  record_bytes (cons o from len rest) = slice from len (bytes o) ++ record_bytes rest

-- The sum of the records' lengths.
abbrev pub total_length : Records → ℕ
total_length nil = 0
total_length (cons o from len rest) = len + total_length rest

-- A record refers to a leaf, and to bytes that it has.
abbrev pub IsRange : DispatchData → ℕ → ℕ → Type 0
IsRange (leaf buf) from len = (0 < len) × (from + len ≤ length buf) × (length buf < 2 ^ 64)
IsRange (composite flat size records) from len = ⊥

abbrev pub AreRanges : Records → Type 0
AreRanges nil = Unit
AreRanges (cons o from len rest) = IsRange o from len × AreRanges rest

abbrev pub IsCache : Option (List ℕ) → Records → Type 0
IsCache none records = Unit
IsCache (some buf) records = buf ≡ record_bytes records

-- Every composite has records, all of leaves, whose lengths add up to its size; a cached buffer has
-- its bytes. Sizes fit a size_t.
abbrev pub IsValid : DispatchData → Type 0
IsValid (leaf buf) = length buf < 2 ^ 64
IsValid (composite flat size records) =
    (size ≡ total_length records)
    × (0 < count records)
    × (size < 2 ^ 64)
    × AreRanges records
    × IsCache flat records

pub length-range :
    (o : DispatchData) (from len : ℕ) → IsRange o from len → length (slice from len (bytes o)) ≡ len
unfolding bytes
length-range (leaf buf) from len v = omega (arith, length-slice from len buf)
length-range (composite flat size records) from len v = absurd v

pub length-record_bytes : (rs : Records) → AreRanges rs → length (record_bytes rs) ≡ total_length rs
unfolding bytes
length-record_bytes nil v = refl
length-record_bytes (cons o from len rest) v = omega (
  arith,
  length-append (slice from len (bytes o)) (record_bytes rest),
  length-range o from len v.0,
  length-record_bytes rest v.1,
)

-- The size of a well-formed object is the number of its bytes.
pub length-bytes : (d : DispatchData) → IsValid d → length (bytes d) ≡ get_size d
unfolding bytes
length-bytes (leaf buf) v = refl
length-bytes (composite flat size records) v = omega (arith, length-record_bytes records v.3)

pub record_bytes-append :
    (ps qs : Records) → record_bytes (append_records ps qs) ≡ record_bytes ps ++ record_bytes qs
unfolding bytes
record_bytes-append nil qs = refl
record_bytes-append (cons o from len rest) qs = rw (record_bytes-append rest qs, append_assoc)

pub AreRanges-append :
    (ps qs : Records) → AreRanges ps → AreRanges qs → AreRanges (append_records ps qs)
AreRanges-append nil qs v w = w
AreRanges-append (cons o from len rest) qs v w = (v.0, AreRanges-append rest qs v.1 w)

pub total_length-append :
    (ps qs : Records) → total_length (append_records ps qs) ≡ total_length ps + total_length qs
total_length-append nil qs = omega arith
total_length-append (cons o from len rest) qs = omega (arith, total_length-append rest qs)

pub count-append : (ps qs : Records) → count (append_records ps qs) ≡ count ps + count qs
count-append nil qs = omega arith
count-append (cons o from len rest) qs = omega (arith, count-append rest qs)

-- Records are not empty, so there are no more of them than bytes.
pub count-le : (rs : Records) → AreRanges rs → count rs ≤ total_length rs
count-le nil v = omega arith
count-le (cons (leaf buf) from len rest) v = omega (arith, count-le rest v.1)
count-le (cons (composite f s rs) from len rest) v = absurd v.0

pub composite-pos :
    (flat : Option (List ℕ)) (size : ℕ) (rs : Records) → IsValid (composite flat size rs) → 0 < size
composite-pos flat size rs v = omega (arith, count-le rs v.3)
