-- ===== src/Data/Subrange/Leaf.antt =====
-- Which ranges are empty, whole or a proper part, and the subrange of a leaf.

use mathlib.Core.List.{append-nil}
use native.Mathlib.Decide.{dec_lt, dec_le, ℕ_discrete as dec_eq}
use book.Base.{
  ℕ, ◌-◌, ◌≤◌, ◌<◌, ◌≡◌, ◌⊎◌, refl, sym, ◌∙◌, none, List, [], ◌∷◌, length, slice, slice-past,
  slice-all, slice-clip, lt→ltb, not_lt→ltb, arith, inl, inr,
}
use book.Data.Defs.{leaf, composite, nil, cons, data_empty, clip, create_subrange}
use book.Data.Bytes.{bytes, IsValid}
use book.Data.Concat.{Gives}

-- The cut-off range has the bytes that were asked for.
pub slice-clip_to :
    (xs : List ℕ) (offset len : ℕ)
    → offset < length xs
    → slice offset (clip (length xs) offset len) xs ≡ slice offset len xs
slice-clip_to xs offset len h = elim (dec_lt (length xs - offset) len) [
  | yes long ↦ rw (lt→ltb _ _ long) (slice-clip offset len xs (omega arith))
  | no short ↦ rw (not_lt→ltb _ _ short)
]

-- What comes before the search for a record is the same for leaves and composites.
pub data Entry (size offset len : ℕ) : Type 0 where
  nothing : ((size ≤ offset) ⊎ (len ≡ 0)) → Entry size offset len
  whole : offset ≡ 0 → len ≡ size → 0 < len → Entry size offset len
  part : offset < size → 0 < len → ¬ ((offset ≡ 0) × (len ≡ size)) → Entry size offset len

pub entry : (size offset len : ℕ) → Entry size offset len
entry size offset len = elim (dec_le size offset) [
  | yes past ↦ nothing (inl past)
  | no inside ↦ elim (dec_eq len 0) [
    | yes e ↦ nothing (inr e)
    | no n ↦ elim (dec_eq offset 0) [
      | yes z ↦ elim (dec_eq len size) [
        | yes all ↦ whole z all (omega arith)
        | no less ↦ part (omega arith) (omega arith) (λ (a, b). less b)
      ]
      | no z ↦ part (omega arith) (omega arith) (λ (a, b). z a)
    ]
  ]
]

pub slice-nothing :
    (xs : List ℕ) (offset len : ℕ) → ((length xs ≤ offset) ⊎ (len ≡ 0)) → slice offset len xs ≡ []
slice-nothing xs offset len (inl past) = slice-past offset len xs past
slice-nothing xs offset len (inr e) = rw e refl

-- A subrange of a leaf.
pub leaf-subrange :
    (buf : List ℕ) (offset len : ℕ)
    → IsValid (leaf buf)
    → Gives (slice offset len buf) (create_subrange (leaf buf) offset len)
unfolding create_subrange bytes
leaf-subrange buf offset len v = by_entry (entry (length buf) offset len)
  where
    n : ℕ
    n = clip (length buf) offset len

    by_entry :
        Entry (length buf) offset len
        → Gives (slice offset len buf) (create_subrange (leaf buf) offset len)
    by_entry (nothing h) = (
      record { object = data_empty; retained = [] },
      ground arith,
      omega arith,
      sym (slice-nothing buf offset len h),
    )
    by_entry (whole z all pos) = (
      record { object = leaf buf; retained = leaf buf ∷ [] },
      ground arith,
      v,
      rw z (sym (slice-all len buf (omega arith))),
    )
    by_entry (part inside pos h) = (
      record { object = composite none n (cons (leaf buf) offset n nil); retained = leaf buf ∷ [] },
      ground arith,
      ground arith,
      append-nil (slice offset n buf) ∙ slice-clip_to buf offset len inside,
    )
