-- ===== src/Data/Examples.antt =====
-- Concrete dispatch data objects.
use book.Base.{ℕ, ◌≡◌, refl, true, none, some, List, [], ◌∷◌, ◌++◌, arith}
use book.Data.Defs.{DispatchData, leaf, composite, nil, cons, create_concat, create_subrange}
use book.Data.Bytes.{bytes, IsValid}
use book.Data.Access.{Applier, apply, copy_region}
use book.Data.Regions.{visit, regions, apply-visit, Contiguous, regions-Contiguous}
use book.Data.Concat.{Gives, create_concat-bytes}
use book.Data.Subrange.{create_subrange-bytes}
use book.Data.CopyRegion.{Copied, copy_region-Copied}

abbrev front : DispatchData
front = leaf (1 ∷ 2 ∷ 3 ∷ [])

abbrev back : DispatchData
back = leaf (4 ∷ 5 ∷ [])

abbrev both : DispatchData
both = composite none 5 (cons front 0 3 (cons back 0 2 nil))

both_made : create_concat front back ≡ some (record { object = both; retained = front ∷ back ∷ [] })
unfolding create_concat
both_made = refl

both-IsValid : IsValid both
both-IsValid = omega arith

create_concat-bytes_example : Gives (1 ∷ 2 ∷ 3 ∷ 4 ∷ 5 ∷ []) (create_concat front back)
unfolding bytes
create_concat-bytes_example =
    create_concat-bytes front back (omega arith) (omega arith) (omega arith)

create_subrange-bytes_example : Gives (2 ∷ 3 ∷ 4 ∷ []) (create_subrange both 1 3)
unfolding bytes
create_subrange-bytes_example = create_subrange-bytes both 1 3 both-IsValid

copy_region-Copied_example : Copied both 4 (copy_region both 4)
copy_region-Copied_example = copy_region-Copied both 4 both-IsValid (omega arith)

regions-Contiguous_example : Contiguous 0 (regions both) (1 ∷ 2 ∷ 3 ∷ 4 ∷ 5 ∷ [])
unfolding bytes
regions-Contiguous_example = regions-Contiguous both both-IsValid

-- An applier that collects the bytes.
abbrev collect : Applier (List ℕ)
collect object offset buf seen = (seen ++ buf, true)

apply-visit_example : apply collect both [] ≡ visit collect (regions both) []
apply-visit_example = apply-visit collect both [] both-IsValid
