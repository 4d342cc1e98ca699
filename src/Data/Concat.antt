-- ===== src/Data/Concat.antt =====
-- dispatch_data_create_concat against concatenation of bytes, and what it retains.
use book.Base.{
  ℕ, ◌+◌, ◌≤◌, ◌<◌, ◌^◌, ◌%◌, ◌≡◌, ◌≢◌, refl, sym, ◌∙◌, Option, none, some, List, [], ◌∷◌, ◌++◌,
  length, slice, take-all, arith,
}
use mathlib.Core.Path.{ap₂}
use mathlib.Core.List.{append-nil}
use native.Mathlib.Decide.{ℕ_discrete as dec_eq}
use book.Data.Defs.{
  DispatchData, leaf, composite, Created, get_size, count, num_records, append_records, objects,
  as_records, create_concat,
}
use book.Data.Bytes.{
  bytes, record_bytes, total_length, AreRanges, IsValid, length-bytes, record_bytes-append,
  AreRanges-append, total_length-append, count-append, count-le,
}

-- An operation returns a well-formed object with these bytes.
abbrev pub Gives : List ℕ → Option Created → Type 0
Gives xs r = (c : Created) × (r ≡ some c) × IsValid c.object × (bytes c.object ≡ xs)

pub empty-bytes : (d : DispatchData) → IsValid d → get_size d ≡ 0 → bytes d ≡ []
empty-bytes d v e = nil-of (bytes d) (omega (arith, length-bytes d v))
  where
    nil-of : (xs : List ℕ) → length xs ≡ 0 → xs ≡ []
    nil-of [] h = refl
    nil-of (x ∷ xs) h = absurd (omega arith)

-- An object that is not empty as records: they are well formed and have its bytes.
record Recorded (d : DispatchData) : Type 0 where
  ranges : AreRanges (as_records d)
  same : record_bytes (as_records d) ≡ bytes d
  sum : total_length (as_records d) ≡ get_size d
  some_record : 0 < count (as_records d)
  as_many : count (as_records d) ≡ num_records d

as_records-Recorded : (d : DispatchData) → IsValid d → get_size d ≢ 0 → Recorded d
unfolding as_records bytes
as_records-Recorded (leaf buf) v h = record {
  ranges = ((omega arith, omega arith, v), tt);
  same = append-nil (slice 0 (length buf) buf) ∙ take-all (length buf) buf (omega arith);
  sum = omega arith;
  some_record = omega arith;
  as_many = refl;
}
as_records-Recorded (composite f s rs) v h = record {
  ranges = v.3;
  same = refl;
  sum = sym v.0;
  some_record = v.1;
  as_many = refl;
}

-- Both objects have bytes: a composite over the records of both.
abbrev joined : DispatchData → DispatchData → Created
joined a b =
    let records = append_records (as_records a) (as_records b) in
    record {
      object = composite none ((get_size a + get_size b) % 2 ^ 64) records;
      retained = objects records;
    }

joined-IsValid :
    (a b : DispatchData)
    → Recorded a
    → Recorded b
    → get_size a + get_size b < 2 ^ 64
    → IsValid (joined a b).object
joined-IsValid a b ra rb fits =
    let ps = as_records a in
    let qs = as_records b in
    (
      omega (arith, total_length-append ps qs, ra.sum, rb.sum),
      omega (arith, count-append ps qs, ra.some_record),
      omega arith,
      AreRanges-append ps qs ra.ranges rb.ranges,
      tt,
    )

joined-bytes :
    (a b : DispatchData) → Recorded a → Recorded b → bytes (joined a b).object ≡ bytes a ++ bytes b
unfolding bytes
joined-bytes a b ra rb =
    record_bytes-append (as_records a) (as_records b) ∙ ap₂ ◌++◌ ra.same rb.same

few_records : (d : DispatchData) → Recorded d → num_records d ≤ get_size d
few_records d r = omega (arith, r.as_many, r.sum, count-le (as_records d) r.ranges)

-- Concatenating well-formed objects, whose sizes together fit a size_t, never runs out of memory; it
-- gives a well-formed object whose bytes are those of the first and then those of the second.
pub create_concat-bytes :
    (a b : DispatchData)
    → IsValid a
    → IsValid b
    → get_size a + get_size b < 2 ^ 64
    → Gives (bytes a ++ bytes b) (create_concat a b)
unfolding create_concat
create_concat-bytes a b va vb fits = elim (dec_eq (get_size a) 0) [
  | yes e ↦
      (record { object = b; retained = b ∷ [] }, ground arith, vb, rw (empty-bytes a va e) refl)
  | no e ↦ elim (dec_eq (get_size b) 0) [
    | yes e' ↦ (
      record { object = a; retained = a ∷ [] },
      ground arith,
      va,
      rw (empty-bytes b vb e') (sym (append-nil (bytes a))),
    )
    | no e' ↦
        let ra = as_records-Recorded a va e in
        let rb = as_records-Recorded b vb e' in
        (
          joined a b,
          ground (arith, few_records a ra, few_records b rb),
          joined-IsValid a b ra rb fits,
          joined-bytes a b ra rb,
        )
  ]
]
