-- ===== src/Data/Subrange.antt =====
-- dispatch_data_create_subrange against the slice of bytes.
mod Leaf
mod Search
mod Choice
use mathlib.Core.Path.{ap₂, ◌≡⟨◌⟩◌, ◌∎}
use mathlib.Core.Bool.{false≢true}
use mathlib.Core.List.{append-nil}
use native.Mathlib.Decide.{dec_lt, dec_le, ℕ_discrete as dec_eq}
use book.Base.{
  ℕ, zero, suc, ◌+◌, ◌-◌, ◌≤◌, ◌<◌, ◌^◌, ◌≡◌, ◌≢◌, ◌⊎◌, ◌↔◌, refl, sym, ◌∙◌, ap, Bool, true, false,
  Option, none, some, List, [], ◌∷◌, ◌++◌, length, ltb, leb, ◌==◌, ◌||◌, if◌then◌else◌, slice, take,
  drop, take-all, slice-slice, slice-past, slice-all, slice-clip, take-take, take-append_at,
  drop-append_at, take-append_le, take-append_ge, drop-append_le, drop-append_ge, drop-slice,
  length-append, length-drop, length-slice, lt→ltb, not_lt→ltb, arith, Bool-cases, inl, inr,
}
use book.Data.Defs.{
  DispatchData, leaf, composite, Records, nil, cons, Created, data_empty, get_size, count, objects,
  seek, cut_records, several, choose, clip, create_subrange, subrange_within,
}
use book.Data.Bytes.{
  bytes, record_bytes, total_length, IsRange, AreRanges, IsCache, IsValid, length-bytes,
  length-record_bytes,
}
use book.Data.Concat.{Gives}
use Leaf.{slice-clip_to, Entry, nothing, whole, part, entry, leaf-subrange}
use Search.{Found, seek-Found}
use Choice.{choose-Gives}

object-subrange :
    (o : DispatchData) (offset n from len : ℕ)
    → IsRange o from len
    → Gives (slice offset n (bytes o)) (create_subrange o offset n)
unfolding bytes
object-subrange (leaf buf) offset n from len v = leaf-subrange buf offset n v.2
object-subrange (composite f s rs) offset n from len v = absurd v

-- The subrange of a composite, by what its entry finds.
composite-subrange :
    (flat : Option (List ℕ)) (size : ℕ) (rs : Records) (offset len : ℕ)
    → IsValid (composite flat size rs)
    → Gives
        (slice offset len (record_bytes rs))
        (create_subrange (composite flat size rs) offset len)
unfolding bytes create_subrange
composite-subrange flat size rs offset len v = by_entry (entry size offset len)
  where
    n : ℕ
    n = clip size offset len

    as_long : length (record_bytes rs) ≡ size
    as_long = omega (arith, length-record_bytes rs v.3)

    by_entry :
        Entry size offset len
        → Gives
            (slice offset len (record_bytes rs))
            (create_subrange (composite flat size rs) offset len)
    by_entry (nothing (inl past)) = (
      record { object = data_empty; retained = [] },
      ground arith,
      omega arith,
      sym (slice-past offset len (record_bytes rs) (omega (arith, as_long))),
    )
    by_entry (nothing (inr e)) =
        (record { object = data_empty; retained = [] }, ground arith, omega arith, rw e refl)
    by_entry (whole z all pos) = (
      record { object = composite flat size rs; retained = composite flat size rs ∷ [] },
      ground arith,
      v,
      rw z (sym (slice-all len (record_bytes rs) (omega (arith, as_long)))),
    )
    by_entry (part inside pos h) =
        let r =
          choose-Gives fnd.o fnd.from fnd.len fnd.more fnd.left n fnd.ranges fnd.inside
            (ground arith) room (ground arith) (offset + n == size) (subrange_within rs offset n)
            to_end_iff
            (rw fnd.within
              (object-subrange fnd.o (fnd.from + fnd.left) n fnd.from fnd.len fnd.ranges.0)) in
        (
          r.0,
          reduced ∙ r.1,
          r.2,
          r.3
              ∙ ap (take n) (sym fnd.suffix)
              ∙ rw (← as_long)
                  (slice-clip_to (record_bytes rs) offset len (omega (arith, as_long))),
        )
      where
        fnd : Found rs offset n
        fnd = seek-Found rs offset n v.3 (omega arith)

        room : fnd.left + n ≤ fnd.len + total_length fnd.more
        room = ground (arith, fnd.remains)

        to_end_iff :
            ((offset + n == size) ≡ true) ↔ (fnd.left + n ≡ fnd.len + total_length fnd.more)
        to_end_iff = (λ e. ground (arith, fnd.remains), λ e. ground (arith, fnd.remains))

        reduced :
            create_subrange (composite flat size rs) offset len
            ≡ choose
                (cons fnd.o fnd.from fnd.len fnd.more)
                fnd.left
                n
                (offset + n == size)
                (subrange_within rs offset n)
        reduced = ground (arith, fnd.result)

-- The subrange of a well-formed object is never a crash: it is a well-formed object with the bytes
-- of the range, cut off at the end of the object.
pub create_subrange-bytes :
    (d : DispatchData) (offset len : ℕ)
    → IsValid d
    → Gives (slice offset len (bytes d)) (create_subrange d offset len)
unfolding bytes
create_subrange-bytes (leaf buf) offset len v = leaf-subrange buf offset len v
create_subrange-bytes (composite flat size rs) offset len v =
    composite-subrange flat size rs offset len v
