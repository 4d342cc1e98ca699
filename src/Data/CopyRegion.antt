-- ===== src/Data/CopyRegion.antt =====
-- dispatch_data_copy_region against the bytes.
use mathlib.Core.Path.{ap₂}
use mathlib.Core.List.{append-nil}
use native.Mathlib.Decide.{dec_le, ℕ_discrete as dec_eq}
use book.Base.{
  ℕ, ◌+◌, ◌-◌, ◌≤◌, ◌<◌, ◌≡◌, refl, sym, ◌∙◌, ap, false, Option, none, some, List, [], ◌∷◌, ◌++◌,
  length, leb, if◌then◌else◌, slice, slice-all, arith, drop, drop-append_at, take-append_le,
  take-take, take,
}
use book.Data.Defs.{DispatchData, leaf, composite, Records, nil, cons, Created, get_size}
use book.Data.Bytes.{
  bytes, record_bytes, total_length, IsRange, AreRanges, IsValid, length-bytes, length-range,
}
use book.Data.Access.{Spot, find_region, copy_from, copy_region}

-- The record that the search finds, in a well-formed list, for a location inside it: it contains the
-- location, and what it contributes is that part of the bytes.
pub record Spotted (rs : Records) (location start : ℕ) : Type 0 where
  pub spot : Spot
  pub result : find_region rs 0 location start ≡ some spot
  pub after : spot.offset ≤ location
  pub before : location < spot.offset + spot.len
  pub from_start : start ≤ spot.offset
  pub range : IsRange spot.object spot.from spot.len
  pub part :
      slice (spot.offset - start) spot.len (record_bytes rs)
      ≡ slice spot.from spot.len (bytes spot.object)

range-pos : (o : DispatchData) (from len : ℕ) → IsRange o from len → 0 < len
range-pos (leaf buf) from len v = v.0
range-pos (composite g n rs) from len v = absurd v

-- The search at the start of a record that has bytes.
find_step :
    (o : DispatchData) (from len : ℕ) (rest : Records) (location start : ℕ)
    → 0 < len
    → find_region (cons o from len rest) 0 location start ≡ (
        if leb (start + len) location
        then find_region rest 0 location (start + len)
        else some (record { object = o; from = from; len = len; offset = start }))
unfolding find_region
find_step o from len rest location start pos = rw (no_skip, ap₂ here_at zero_from zero_len) refl
  where
    no_skip : leb len 0 ≡ false
    no_skip = ground arith

    zero_from : 0 + from ≡ from
    zero_from = omega arith

    zero_len : len - 0 ≡ len
    zero_len = omega arith

    here_at : ℕ → ℕ → Option Spot
    here_at f n =
        if leb (start + n) location
        then find_region rest 0 location (start + n)
        else some (record { object = o; from = f; len = n; offset = start })

self : (a : ℕ) → a - a ≡ 0
self a = omega arith

skip : (a b c : ℕ) → a - b - c ≡ a - (b + c)
skip a b c = omega arith

find_region-Spotted :
    (rs : Records) (location start : ℕ)
    → AreRanges rs
    → start ≤ location
    → location < start + total_length rs
    → Spotted rs location start
unfolding find_region bytes
find_region-Spotted nil location start v h k = absurd (omega arith)
find_region-Spotted (cons o from len rest) location start v h k =
    elim (dec_le (start + len) location) [
      | yes past ↦
          let r = find_region-Spotted rest location (start + len) v.1 past (omega arith) in
          record {
            spot = r.spot;
            result =
                find_step o from len rest location start (range-pos o from len v.0)
                ∙ ground (arith, r.result);
            after = r.after;
            before = r.before;
            from_start = omega (arith, r.from_start);
            range = r.range;
            part =
                ap (take r.spot.len) (
                  drop-append_at (r.spot.offset - start) len (slice from len (bytes o))
                    (record_bytes rest) (length-range o from len v.0) (omega (arith, r.from_start)))
                ∙ ap (λ t. slice t r.spot.len (record_bytes rest)) (skip (r.spot.offset) start len)
                ∙ r.part;
          }
      | no here ↦ record {
        spot = record { object = o; from = from; len = len; offset = start };
        result = find_step o from len rest location start (range-pos o from len v.0) ∙ ground arith;
        after = h;
        before = omega arith;
        from_start = omega arith;
        range = v.0;
        part =
            ap (λ t. slice t len (slice from len (bytes o) ++ record_bytes rest)) (self start)
            ∙ take-append_le len (slice from len (bytes o)) (record_bytes rest)
                (omega (arith, length-range o from len v.0))
            ∙ take-take len len (drop from (bytes o)) (omega arith);
      }
    ]

-- What dispatch_data_copy_region promises at a location inside the object.
pub record Copied (d : DispatchData) (location : ℕ) (r : Option (Created × ℕ)) : Type 0 where
  pub copy : Created
  pub offset : ℕ
  pub result : r ≡ some (copy, offset)
  pub valid : IsValid copy.object
  pub after : offset ≤ location
  pub before : location < offset + get_size copy.object
  pub part : bytes copy.object ≡ slice offset (get_size copy.object) (bytes d)

itself : (d : DispatchData) → Created
itself d = record { object = d; retained = d ∷ [] }

-- The object as a whole is one region.
whole-Copied :
    (d : DispatchData) (location : ℕ) (r : Option (Created × ℕ))
    → IsValid d
    → location < get_size d
    → r ≡ some (record { object = d; retained = d ∷ [] }, 0)
    → Copied d location r
whole-Copied d location r v h e = record {
  copy = record { object = d; retained = d ∷ [] };
  offset = 0;
  result = e;
  valid = v;
  after = omega arith;
  before = omega arith;
  part = sym (slice-all (get_size d) (bytes d) (omega (arith, length-bytes d v)));
}

-- A range of a leaf, as a region of its own.
leaf_region :
    (buf : List ℕ) (from len location offset : ℕ)
    → IsRange (leaf buf) from len
    → (c : Created) × (copy_from 1 (leaf buf) from len location offset ≡ some (c, offset))
      × IsValid c.object
      × (get_size c.object ≡ len)
      × (bytes c.object ≡ slice from len buf)
unfolding copy_from bytes
leaf_region buf from len location offset v = elim (dec_eq from 0) [
  | yes z ↦ elim (dec_eq len (length buf)) [
    | yes all ↦ (
      record { object = leaf buf; retained = leaf buf ∷ [] },
      ground arith,
      v.2,
      sym all,
      rw z (sym (slice-all len buf (omega arith))),
    )
    | no less ↦ a_record (ground arith)
  ]
  | no z ↦ a_record (ground arith)
]
  where
    boxed : Created
    boxed = record {
      object = composite none len (cons (leaf buf) from len nil);
      retained = leaf buf ∷ [];
    }

    a_record :
        copy_from 1 (leaf buf) from len location offset ≡ some (boxed, offset)
        → (c : Created) × (copy_from 1 (leaf buf) from len location offset ≡ some (c, offset))
          × IsValid c.object
          × (get_size c.object ≡ len)
          × (bytes c.object ≡ slice from len buf)
    a_record e = (
      boxed,
      e,
      (omega arith, omega arith, omega arith, (v, tt), tt),
      refl,
      append-nil (slice from len buf),
    )

at_location :
    (d : DispatchData) (location : ℕ)
    → location < get_size d
    → copy_region d location ≡ copy_from 2 d 0 (get_size d) location 0
unfolding copy_region
at_location d location h = ground arith

zero_minus : (a : ℕ) → 0 + a ≡ a - 0
zero_minus a = omega arith

several_records :
    (size : ℕ) (rs : Records) (location : ℕ)
    → IsValid (composite none size rs)
    → location < size
    → ((s : Spot)
        → find_region rs 0 location 0 ≡ some s
        → copy_region (composite none size rs) location
          ≡ copy_from 1 s.object s.from s.len (location - s.offset) (0 + s.offset))
    → Copied (composite none size rs) location (copy_region (composite none size rs) location)
unfolding bytes
several_records size rs location v h opens = by_object s.object refl
  where
    sp : Spotted rs location 0
    sp = find_region-Spotted rs location 0 v.3 (omega arith) (omega arith)

    s : Spot
    s = sp.spot

    by_object :
        (o : DispatchData)
        → s.object ≡ o
        → Copied (composite none size rs) location (copy_region (composite none size rs) location)
    by_object (leaf buf) e =
        let r =
          leaf_region buf s.from s.len (location - s.offset) (0 + s.offset) (rw e at sp.range) in
        record {
          copy = r.0;
          offset = 0 + s.offset;
          result = opens s sp.result ∙ rw e r.1;
          valid = r.2;
          after = omega (arith, sp.after);
          before = omega (arith, sp.before, r.3);
          part =
              r.4
              ∙ sym (
                  ap₂ (λ a n. slice a n (record_bytes rs)) (zero_minus s.offset) r.3
                  ∙ sp.part
                  ∙ ap (λ o. slice s.from s.len (bytes o)) e);
        }
    by_object (composite g n qs) e = absurd (rw e at sp.range)

-- At every location inside a well-formed object, dispatch_data_copy_region returns a well-formed
-- object and an offset: the location lies in the region that begins at the offset and is as long as
-- the object, and the object has the bytes of that region.
pub copy_region-Copied :
    (d : DispatchData) (location : ℕ)
    → IsValid d
    → location < get_size d
    → Copied d location (copy_region d location)
unfolding copy_from
copy_region-Copied (leaf buf) location v h =
    whole-Copied (leaf buf) location _ v h (at_location (leaf buf) location h ∙ ground arith)
copy_region-Copied (composite flat size nil) location v h = absurd (omega arith)
copy_region-Copied (composite flat size (cons (composite g n rs) from len nil)) location v h =
    absurd v.3.0
copy_region-Copied (composite flat size (cons (leaf buf) from len nil)) location v h =
    whole-Copied (composite flat size (cons (leaf buf) from len nil)) location _ v h
      (at_location (composite flat size (cons (leaf buf) from len nil)) location h ∙ ground arith)
copy_region-Copied (composite (some b) size (cons o from len (cons p f' l' rest))) location v h =
    whole-Copied (composite (some b) size (cons o from len (cons p f' l' rest))) location _ v h (
      at_location (composite (some b) size (cons o from len (cons p f' l' rest))) location h
      ∙ ground arith)
copy_region-Copied (composite none size (cons o from len (cons p f' l' rest))) location v h =
    several_records size (cons o from len (cons p f' l' rest)) location v h (λ s e.
      at_location (composite none size (cons o from len (cons p f' l' rest))) location h
      ∙ rw (e, copy_from) refl)
