-- ===== src/Data/Access.antt =====
-- data.c: reading a dispatch data object, by mapping, by applying a function to its regions, and by
-- copying the region around a location. The applier is a callback with a state of its own; it
-- answers whether to go on.
use book.Base.{
  ℕ, zero, suc, ◌+◌, ◌-◌, Bool, true, false, Option, none, some, List, [], ◌∷◌, ◌==◌, ◌&&◌, leb,
  if◌then◌else◌, slice, drop,
}
use book.Data.Defs.{
  DispatchData, leaf, composite, Records, nil, cons, Created, data_empty, get_size,
}

-- What _dispatch_data_map_direct hands out: the buffer from the offset on, if there is one, and the
-- object and offset behind a trivial subrange.
pub record Mapped : Type 0 where
  pub buffer : Option (List ℕ)
  pub object : DispatchData
  pub offset : ℕ

-- Its second half, at the object that it settles on.
unfoldable pub map_at : DispatchData → ℕ → Mapped
map_at (leaf buf) offset = record {
  buffer = some (drop offset buf);
  object = leaf buf;
  offset = offset;
}
map_at (composite none size records) offset = record {
  buffer = none;
  object = composite none size records;
  offset = offset;
}
map_at (composite (some buf) size records) offset = record {
  buffer = some (drop offset buf);
  object = composite (some buf) size records;
  offset = offset;
}

-- _dispatch_data_map_direct
unfoldable pub map_direct : DispatchData → ℕ → Mapped
unfolding map_at
map_direct (composite flat size (cons o from len nil)) offset = map_at o (offset + from)
map_direct d offset = map_at d offset

-- The callback: region, offset, and the bytes `buffer[0 .. size)`.
abbrev pub Applier : Type 0 → Type 0
Applier S = DispatchData → ℕ → List ℕ → S → S × Bool

module _ {S : Type 0} (f : Applier S) where
  -- _dispatch_data_apply: at a buffer, one call; otherwise a call on each record, as long as the
  -- result is true.
  unfoldable mutual
    unfolding map_direct

    pub data_apply : DispatchData → ℕ → ℕ → ℕ → S → S × Bool
    data_apply (leaf buf) offset from size s = f (leaf buf) offset (slice from size buf) s
    data_apply (composite flat n records) offset from size s =
        let each = apply_records records offset s true in
        elim (map_direct (composite flat n records) 0).buffer [
          | some buf ↦ f (composite flat n records) offset (slice from size buf) s
          | none ↦ each
        ]

    pub apply_records : Records → ℕ → S → Bool → S × Bool
    apply_records nil offset s result = (s, result)
    apply_records (cons o from len rest) offset s result =
        let called = data_apply o offset from len s in
        let after = apply_records rest (offset + len) called.0 called.1 in
        if result then after else (s, false)

  -- dispatch_data_apply
  unfoldable pub apply : DispatchData → S → S × Bool
  unfolding data_apply
  apply d s = if get_size d == 0 then (s, true) else data_apply d 0 0 (get_size d) s

-- Where the loop of _dispatch_data_copy_region stops: the record's object, the start and length of
-- what it contributes, and the offset of that.
pub record Spot : Type 0 where
  pub object : DispatchData
  pub from : ℕ
  pub len : ℕ
  pub offset : ℕ

-- `none` is the crash on a location past the last record.
unfoldable pub find_region : Records → ℕ → ℕ → ℕ → Option Spot
find_region nil from location offset = none
find_region (cons o start l rest) from location offset =
    let skipped = find_region rest (from - l) location offset in
    let passed = find_region rest 0 location (offset + (l - from)) in
    if leb l from
    then skipped
    else if leb (offset + (l - from)) location
    then passed
    else some (record { object = o; from = from + start; len = l - from; offset = offset })

abbrev pub records_of : DispatchData → Records
records_of (leaf buf) = nil
records_of (composite flat size records) = records

-- At a buffer: the object itself if it is all of it, what is behind it if that is, or a new record.
unfoldable pub region_at : DispatchData → ℕ → ℕ → Mapped → Created
region_at dd from size m =
    if from == 0 && size == get_size dd
    then record { object = dd; retained = dd ∷ [] }
    else if m.offset == 0 && size == get_size m.object
    then record { object = m.object; retained = m.object ∷ [] }
    else record {
      object = composite none size (cons m.object m.offset size nil);
      retained = m.object ∷ [];
    }

-- _dispatch_data_copy_region, with fuel for the depth of the objects; the second result is
-- `*offset_ptr`.
unfoldable pub copy_from : ℕ → DispatchData → ℕ → ℕ → ℕ → ℕ → Option (Created × ℕ)
unfolding map_direct region_at find_region
copy_from zero dd from size location offset = none
copy_from (suc fuel) dd from size location offset =
    let m = map_direct dd from in
    elim m.buffer [
      | some buf ↦ some (region_at dd from size m, offset)
      | none ↦ elim (find_region (records_of m.object) m.offset location 0) [
        | none ↦ none
        | some spot ↦
            copy_from fuel spot.object spot.from spot.len (location - spot.offset)
              (offset + spot.offset)
      ]
    ]

-- dispatch_data_copy_region. Records refer to leaves, so a depth of 2 is enough.
unfoldable pub copy_region : DispatchData → ℕ → Option (Created × ℕ)
unfolding copy_from
copy_region dd location =
    if leb (get_size dd) location
    then some (record { object = data_empty; retained = [] }, get_size dd)
    else copy_from 2 dd 0 (get_size dd) location 0
