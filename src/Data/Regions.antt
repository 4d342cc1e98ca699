-- ===== src/Data/Regions.antt =====
-- dispatch_data_apply against the bytes: the regions that it visits, and in what order.
use mathlib.Core.Path.{ap₂, subst}
use mathlib.Core.List.{append-nil}
use book.Base.{
  ℕ, ◌+◌, ◌<◌, ◌≡◌, refl, sym, ◌∙◌, ap, Bool, true, false, Option, none, some, List, [], ◌∷◌, ◌++◌,
  length, if◌then◌else◌, slice, slice-all, arith, Bool-cases, inl, inr, drop,
}
use book.Data.Defs.{DispatchData, leaf, composite, Records, nil, cons, get_size}
use book.Data.Bytes.{
  bytes, record_bytes, AreRanges, IsValid, length-range, length-record_bytes, composite-pos,
}
use book.Data.Access.{Applier, data_apply, apply_records, apply}

-- One call of the applier.
pub record Region : Type 0 where
  pub object : DispatchData
  pub offset : ℕ
  pub buf : List ℕ

-- The calls in turn, until one answers false.
unfoldable pub visit : {S : Type 0} → Applier S → List Region → S → S × Bool
visit f [] s = (s, true)
visit f (r ∷ rs) s =
    let called = f r.object r.offset r.buf s in
    let after = visit f rs called.0 in if called.1 then after else (called.0, false)

-- The regions' bytes follow one another from an offset on, and no region is empty.
abbrev pub Contiguous : ℕ → List Region → List ℕ → Type 0
Contiguous offset [] bs = bs ≡ []
Contiguous offset (r ∷ rs) bs =
    (rest : List ℕ) × (r.offset ≡ offset)
    × (0 < length r.buf)
    × (bs ≡ r.buf ++ rest)
    × Contiguous (offset + length r.buf) rs rest

abbrev pub record_regions : Records → ℕ → List Region
record_regions nil offset = []
record_regions (cons o from len rest) offset =
    record { object = o; offset = offset; buf = slice from len (bytes o) }
    ∷ record_regions rest (offset + len)

-- One region for a leaf, for a trivial subrange or where a flattened buffer is cached, and
-- otherwise one for each record.
abbrev pub regions : DispatchData → List Region
regions (leaf []) = []
regions (leaf (b ∷ bs)) = record { object = leaf (b ∷ bs); offset = 0; buf = b ∷ bs } ∷ []
regions (composite flat size (cons o from len nil)) =
    record {
      object = composite flat size (cons o from len nil);
      offset = 0;
      buf = slice from len (bytes o);
    }
    ∷ []
regions (composite (some buf) size rs) =
    record { object = composite (some buf) size rs; offset = 0; buf = buf } ∷ []
regions (composite none size rs) = record_regions rs 0

module _ {S : Type 0} (f : Applier S) where
  apply_records-stopped :
      (rs : Records) (offset : ℕ) (s : S) → apply_records f rs offset s false ≡ (s, false)
  unfolding data_apply
  apply_records-stopped nil offset s = refl
  apply_records-stopped (cons o from len rest) offset s = refl

  apply_records-visit :
      (rs : Records) (offset : ℕ) (s : S)
      → AreRanges rs
      → apply_records f rs offset s true ≡ visit f (record_regions rs offset) s
  unfolding data_apply visit bytes
  apply_records-visit nil offset s v = refl
  apply_records-visit (cons (leaf buf) from len rest) offset s v =
      let called = f (leaf buf) offset (slice from len buf) s in
      let ih = apply_records-visit rest (offset + len) called.0 v.1 in
      let stop = apply_records-stopped rest (offset + len) called.0 in
      elim (Bool-cases called.1) [ inl e ↦ rw e ih | inr e ↦ rw e stop ]
  apply_records-visit (cons (composite g n rs) from len rest) offset s v = absurd v.0

  one_call : (r : S × Bool) → r ≡ (if r.1 then (r.0, true) else (r.0, false))
  one_call (s, true) = refl
  one_call (s, false) = refl

  apply-empty : (s : S) → apply f (leaf []) s ≡ (s, true)
  unfolding apply
  apply-empty s = refl

  apply-nonempty :
      (d : DispatchData) (s : S) → 0 < get_size d → apply f d s ≡ data_apply f d 0 0 (get_size d) s
  unfolding apply
  apply-nonempty d s h = ground arith

  -- A leaf is one call.
  pub apply-leaf :
      (buf : List ℕ) (s : S) → 0 < length buf → apply f (leaf buf) s ≡ f (leaf buf) 0 buf s
  unfolding data_apply
  apply-leaf buf s h =
      apply-nonempty (leaf buf) s h
      ∙ ap (λ t. f (leaf buf) 0 t s) (slice-all (length buf) buf (omega arith))

  -- A trivial subrange is one call, on the leaf's buffer.
  single :
      (flat : Option (List ℕ)) (size : ℕ) (buf : List ℕ) (from len : ℕ) (s : S)
      → IsValid (composite flat size (cons (leaf buf) from len nil))
      → data_apply f (composite flat size (cons (leaf buf) from len nil)) 0 0 size s
        ≡ f (composite flat size (cons (leaf buf) from len nil)) 0 (slice from len buf) s
  unfolding data_apply
  single flat size buf from len s v =
      ap (λ t. f (composite flat size (cons (leaf buf) from len nil)) 0 t s)
        (ap₂ (λ n k. slice 0 n (drop k buf)) same_size same_from)
    where
      same_size : size ≡ len
      same_size = omega arith

      same_from : 0 + from ≡ from
      same_from = omega arith

  -- dispatch_data_apply on a well-formed object makes the calls of `regions`, in turn, until one
  -- answers false.
  pub apply-visit : (d : DispatchData) (s : S) → IsValid d → apply f d s ≡ visit f (regions d) s
  unfolding data_apply visit bytes
  apply-visit (leaf []) s v = apply-empty s
  apply-visit (leaf (b ∷ bs)) s v =
      apply-nonempty (leaf (b ∷ bs)) s (omega arith)
      ∙ ap (λ t. f (leaf (b ∷ bs)) 0 t s) (slice-all (length (b ∷ bs)) (b ∷ bs) (omega arith))
      ∙ one_call (f (leaf (b ∷ bs)) 0 (b ∷ bs) s)
  apply-visit (composite flat size nil) s v = absurd (omega arith)
  apply-visit (composite flat size (cons (leaf buf) from len nil)) s v =
      apply-nonempty _ s (composite-pos flat size _ v)
      ∙ single flat size buf from len s v
      ∙ one_call (f (composite flat size (cons (leaf buf) from len nil)) 0 (slice from len buf) s)
  apply-visit (composite flat size (cons (composite g n rs) from len nil)) s v = absurd v.3.0
  apply-visit (composite (some buf) size (cons o from len (cons p from' len' rest))) s v =
      let rs = cons o from len (cons p from' len' rest) in
      apply-nonempty _ s (composite-pos (some buf) size rs v)
      ∙ ap (λ t. f (composite (some buf) size rs) 0 t s)
          (slice-all size buf (omega (arith, ap length v.4, length-record_bytes rs v.3)))
      ∙ one_call (f (composite (some buf) size rs) 0 buf s)
  apply-visit (composite none size (cons o from len (cons p from' len' rest))) s v =
      apply-nonempty _ s (composite-pos none size (cons o from len (cons p from' len' rest)) v)
      ∙ apply_records-visit (cons o from len (cons p from' len' rest)) 0 s v.3

record_regions-Contiguous :
    (rs : Records) (offset : ℕ)
    → AreRanges rs
    → Contiguous offset (record_regions rs offset) (record_bytes rs)
unfolding bytes
record_regions-Contiguous nil offset v = refl
record_regions-Contiguous (cons (leaf buf) from len rest) offset v =
    let same = length-range (leaf buf) from len v.0 in
    (
      record_bytes rest,
      refl,
      omega (arith, same),
      refl,
      subst (λ k. Contiguous (offset + k) (record_regions rest (offset + len)) (record_bytes rest))
          (sym same) (record_regions-Contiguous rest (offset + len) v.1),
    )
record_regions-Contiguous (cons (composite g n rs) from len rest) offset v = absurd v.0

-- The regions of a well-formed object are not empty, they lie one after another from offset 0 on, and
-- together they are its bytes.
pub regions-Contiguous : (d : DispatchData) → IsValid d → Contiguous 0 (regions d) (bytes d)
unfolding bytes
regions-Contiguous (leaf []) v = refl
regions-Contiguous (leaf (b ∷ bs)) v = ([], refl, omega arith, sym (append-nil (b ∷ bs)), refl)
regions-Contiguous (composite flat size nil) v = absurd (omega arith)
regions-Contiguous (composite flat size (cons (leaf buf) from len nil)) v =
    ([], refl, omega (arith, length-range (leaf buf) from len v.3.0), refl, refl)
regions-Contiguous (composite flat size (cons (composite g n rs) from len nil)) v = absurd v.3.0
regions-Contiguous (composite (some buf) size (cons o from len (cons p from' len' rest))) v =
    let rs = cons o from len (cons p from' len' rest) in
    (
      [],
      refl,
      omega (arith, ap length v.4, length-record_bytes rs v.3, composite-pos (some buf) size rs v),
      sym v.4 ∙ sym (append-nil buf),
      refl,
    )
regions-Contiguous (composite none size (cons o from len (cons p from' len' rest))) v =
    record_regions-Contiguous (cons o from len (cons p from' len' rest)) 0 v.3
