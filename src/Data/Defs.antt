-- ===== src/Data/Defs.antt =====
-- data.c and data_internal.h: dispatch data objects. A leaf (num_records == 0) is its buffer; a
-- composite has a size, records into other objects and perhaps a flattened buffer that was cached.
-- Objects are immutable but for that cache, so they are values here; reference counts are the list
-- of objects that an operation retains. Sizes are 64-bit.
use book.Base.{
  ℕ, suc, ◌+◌, ◌-◌, ◌^◌, Bool, true, false, Option, none, some, List, [], ◌∷◌, ◌==◌, ◌||◌, ◌&&◌,
  ltb, leb, if◌then◌else◌, length, add64,
}

mutual
  -- struct dispatch_data_s
  pub data DispatchData : Type 0 where
    leaf : (buf : List ℕ) → DispatchData
    composite : (flat : Option (List ℕ)) (size : ℕ) (records : Records) → DispatchData

  -- range_record records[], each with `data_object`, `from` and `length`.
  pub data Records : Type 0 where
    nil : Records
    cons : (data_object : DispatchData) (from len : ℕ) (rest : Records) → Records

-- dispatch_data_empty
abbrev pub data_empty : DispatchData
data_empty = leaf []

-- dispatch_data_get_size
abbrev pub get_size : DispatchData → ℕ
get_size (leaf buf) = length buf
get_size (composite flat size records) = size

abbrev pub count : Records → ℕ
count nil = 0
count (cons o from len rest) = suc (count rest)

-- _dispatch_data_num_records: what it takes to hold the object, so 1 for a leaf.
abbrev pub num_records : DispatchData → ℕ
num_records (leaf buf) = 1
num_records (composite flat size records) = count records

abbrev pub append_records : Records → Records → Records
append_records nil qs = qs
append_records (cons o from len rest) qs = cons o from len (append_records rest qs)

abbrev pub objects : Records → List DispatchData
objects nil = []
objects (cons o from len rest) = o ∷ objects rest

-- A result, and the objects on which _dispatch_data_retain was called for it.
pub record Created : Type 0 where
  pub object : DispatchData
  pub retained : List DispatchData

-- The records that an object contributes to a concatenation.
unfoldable pub as_records : DispatchData → Records
as_records (leaf buf) = cons (leaf buf) 0 (length buf) nil
as_records (composite flat size records) = records

-- dispatch_data_create_concat; `none` is DISPATCH_OUT_OF_MEMORY.
unfoldable pub create_concat : DispatchData → DispatchData → Option Created
unfolding as_records
create_concat dd1 dd2 =
    let records = append_records (as_records dd1) (as_records dd2) in
    if get_size dd1 == 0
    then some (record { object = dd2; retained = dd2 ∷ [] })
    else if get_size dd2 == 0
    then some (record { object = dd1; retained = dd1 ∷ [] })
    else if ltb (num_records dd1 + num_records dd2) (2 ^ 64)
    then some (record {
      object = composite none (add64 (get_size dd1) (get_size dd2)) records;
      retained = objects records;
    })
    else none

-- The record containing an offset and those behind it, with the offset that is left.
unfoldable pub seek : Records → ℕ → Records × ℕ
seek nil offset = (nil, offset)
seek (cons o from len rest) offset =
    if leb len offset then seek rest (offset - len) else (cons o from len rest, offset)

-- The records behind the first one, up to the end of a range of which `last_length` is left; `none`
-- is the crash on a range that runs past the last record.
unfoldable pub cut_records : Records → ℕ → Option Records
cut_records nil last_length = none
cut_records (cons o from len rest) last_length =
    let more = cut_records rest (last_length - len) in
    if leb last_length len
    then some (cons o from last_length nil)
    else elim more [ none ↦ none | some records ↦ some (cons o from len records) ]

-- The end of dispatch_data_create_subrange: the range lies in more than one record.
unfoldable pub several : Records → ℕ → ℕ → Bool → Option Created
unfolding cut_records
several nil offset length to_the_end = none
several (cons o from len nil) offset length false = some (record {
  object = composite none length (cons o (from + offset) (length - (len - offset)) nil);
  retained = o ∷ [];
})
several (cons o from len rest) offset length true =
    let records = cons o (from + offset) (len - offset) rest in
    some (record { object = composite none length records; retained = objects records })
several (cons o from len rest) offset length false =
    elim (cut_records rest (length - (len - offset))) [
      | none ↦ none
      | some more ↦
          let records = cons o (from + offset) (len - offset) more in
          some (record { object = composite none length records; retained = objects records })
    ]

-- The range is cut off at the end of the object.
abbrev pub clip : ℕ → ℕ → ℕ → ℕ
clip size offset length = if ltb (size - offset) length then size - offset else length

-- At the record found: `inner` is the call on its object, made if it holds the whole range; `none`
-- is the crash on an offset past the last record.
unfoldable pub choose : Records → ℕ → ℕ → Bool → Option Created → Option Created
unfolding several
choose nil left len to_the_end inner = none
choose (cons o from l more) left len to_the_end inner =
    if leb (left + len) l then inner else several (cons o from l more) left len to_the_end

unfoldable mutual
  -- dispatch_data_create_subrange; `none` is its crash.
  unfolding seek choose

  pub create_subrange : DispatchData → ℕ → ℕ → Option Created
  create_subrange (leaf buf) offset len =
      let size = length buf in
      let n = clip size offset len in
      if leb size offset || len == 0
      then some (record { object = data_empty; retained = [] })
      else if leb len (size - offset) && len == size
      then some (record { object = leaf buf; retained = leaf buf ∷ [] })
      else some (record {
        object = composite none n (cons (leaf buf) offset n nil);
        retained = leaf buf ∷ [];
      })
  create_subrange (composite flat size records) offset len =
      let n = clip size offset len in
      let inner = subrange_within records offset n in
      let (rest, left) = seek records offset in
      if leb size offset || len == 0
      then some (record { object = data_empty; retained = [] })
      else if leb len (size - offset) && len == size
      then some (record {
        object = composite flat size records;
        retained = composite flat size records ∷ [];
      })
      else choose rest left n (offset + n == size) inner

  -- The subrange of the one record that contains the whole range.
  pub subrange_within : Records → ℕ → ℕ → Option Created
  subrange_within nil offset len = none
  subrange_within (cons o from l rest) offset len =
      let here = create_subrange o (from + offset) len in
      let there = subrange_within rest (offset - l) len in if leb l offset then there else here
