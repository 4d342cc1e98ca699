-- ===== src/Data/Mapping.antt =====
-- data.c: dispatch_data_create_map, which gives an object's bytes as one contiguous buffer.
use mathlib.Core.List.{append-nil, append_assoc}
use native.Mathlib.Decide.{ℕ_discrete as dec_eq}
use book.Base.{
  Bool-cases, ◌⊎◌, ◌<◌, Option-cases, inl, inr, false, ℕ, ◌+◌, ◌≡◌, refl, sym, ◌∙◌, ap, Bool, true,
  Option, none, some, List, [], ◌∷◌, ◌++◌, ◌==◌, if◌then◌else◌, length, take, take-all, arith, drop,
}
use book.Data.Defs.{DispatchData, leaf, composite, nil, cons, data_empty, get_size}
use book.Data.Bytes.{bytes, IsValid, length-bytes, length-record_bytes}
use book.Data.Concat.{empty-bytes}
use book.Data.Access.{apply, map_direct}
use book.Data.Regions.{Region, Contiguous, visit, regions, apply-visit, regions-Contiguous}

-- The block of _dispatch_data_flatten: the regions come in turn, so `buffer + off` is where what was
-- copied before ends.
abbrev pub copy_in : DispatchData → ℕ → List ℕ → List ℕ → List ℕ × Bool
copy_in region off buf buffer = (buffer ++ buf, true)

-- _dispatch_data_flatten; `malloc` says whether it finds memory for so many bytes, and `none` is NULL.
unfoldable pub flatten : (ℕ → Bool) → DispatchData → Option (List ℕ)
flatten malloc dd = if malloc (get_size dd) then some (apply copy_in dd []).0 else none

-- What dispatch_data_create_map returns and stores: the object that keeps the buffer alive, the memory
-- from the buffer on, and the size. `none` is NULL.
pub record Mapping : Type 0 where
  pub data_object : Option DispatchData
  pub buffer : Option (List ℕ)
  pub size : ℕ

-- dispatch_data_create_map
unfoldable pub create_map : (ℕ → Bool) → DispatchData → Mapping
unfolding flatten map_direct
create_map malloc dd =
    if get_size dd == 0
    then record { data_object = some data_empty; buffer = none; size = 0 }
    else elim (map_direct dd 0).buffer [
      | some buf ↦ record { data_object = some dd; buffer = some buf; size = get_size dd }
      | none ↦ elim (flatten malloc dd) [
        | some buf ↦ record { data_object = some (leaf buf); buffer = some buf; size = get_size dd }
        | none ↦ record { data_object = none; buffer = none; size = 0 }
      ]
    ]

-- The bytes that a mapping lets its caller read.
unfoldable pub readable : Mapping → List ℕ
readable m = elim m.buffer [ none ↦ [] | some buf ↦ take m.size buf ]

visit-copy_in :
    (rs : List Region) (offset : ℕ) (bs acc : List ℕ)
    → Contiguous offset rs bs
    → visit copy_in rs acc ≡ (acc ++ bs, true)
unfolding visit
visit-copy_in [] offset bs acc c =
    ap (λ (t : List ℕ). (t, true)) (sym (ap (λ (t : List ℕ). acc ++ t) c ∙ append-nil acc))
visit-copy_in (r ∷ rs) offset bs acc (rest, e, some_bytes, e_bs, more) =
    visit-copy_in rs (offset + length r.buf) rest (acc ++ r.buf) more
    ∙ ap (λ (t : List ℕ). (t, true))
        (append_assoc acc r.buf rest ∙ sym (ap (λ (t : List ℕ). acc ++ t) e_bs))

copied-bytes : (d : DispatchData) → IsValid d → (apply copy_in d []).0 ≡ bytes d
copied-bytes d v =
    ap (λ (t : List ℕ × Bool). t.0)
      (apply-visit copy_in d [] v
        ∙ visit-copy_in (regions d) 0 (bytes d) [] (regions-Contiguous d v))

take-length : (n : ℕ) (xs : List ℕ) → length xs ≡ n → take n xs ≡ xs
take-length n xs e = take-all n xs (omega arith)

some-injective : (a b : List ℕ) → some a ≡ some b → a ≡ b
some-injective a b e = ap (λ (o : Option (List ℕ)). elim o [ none ↦ a | some c ↦ c ]) e

direct-bytes :
    (d : DispatchData) (buf : List ℕ)
    → IsValid d
    → (map_direct d 0).buffer ≡ some buf
    → take (get_size d) buf ≡ bytes d
unfolding map_direct bytes
direct-bytes (leaf b) buf v e =
    ap (take (length b)) (sym (some-injective b buf e)) ∙ take-length (length b) b refl
direct-bytes (composite flat size nil) buf v e = absurd (omega arith)
direct-bytes (composite flat size (cons (leaf b) from len nil)) buf v e =
    let plus : 0 + from ≡ from = omega arith in
    let total : size ≡ len = omega arith in
    let same : buf ≡ drop from b =
      sym (some-injective (drop (0 + from) b) buf e) ∙ ap (λ (k : ℕ). drop k b) plus in
    rw (same, total, append-nil) refl
direct-bytes (composite flat size (cons (composite g n rs) from len nil)) buf v e = absurd v.3.0
direct-bytes (composite none size (cons o from len (cons p from' len' rest))) buf v e = cc
direct-bytes (composite (some b) size (cons o from len (cons p from' len' rest))) buf v e =
    let rs = cons o from len (cons p from' len' rest) in
    let n : length b ≡ size = omega (arith, ap length v.4, length-record_bytes rs v.3) in
    ap (take size) (sym (some-injective b buf e)) ∙ take-length size b n ∙ v.4

-- A mapping of all the bytes of an object, and the object that keeps them alive.
pub record Maps (d : DispatchData) (m : Mapping) : Type 0 where
  pub data_object : DispatchData
  pub returned : m.data_object ≡ some data_object
  pub same : bytes data_object ≡ bytes d
  pub size : m.size ≡ get_size d
  pub all : readable m ≡ bytes d

-- No mapping: both pointers are NULL and the size is 0.
pub record NoMapping (m : Mapping) : Type 0 where
  pub data_object : m.data_object ≡ none
  pub buffer : m.buffer ≡ none
  pub size : m.size ≡ 0

-- Memory is needed, and there is none.
abbrev pub NoMemory : (ℕ → Bool) → DispatchData → Type 0
NoMemory malloc d =
    (0 < get_size d) × ((map_direct d 0).buffer ≡ none) × (malloc (get_size d) ≡ false)

-- Mapping a well-formed object gives all of its bytes and the right size, whether the bytes lie in one
-- buffer already or are copied into one, and an object with the same bytes that keeps them alive; or
-- else the object has bytes, they do not lie in one buffer, malloc finds no memory for them, and the
-- call gives no object, no buffer and the size 0.
pub create_map-bytes :
    (malloc : ℕ → Bool) (d : DispatchData)
    → IsValid d
    → Maps d (create_map malloc d) ⊎ (NoMemory malloc d × NoMapping (create_map malloc d))
unfolding create_map flatten bytes readable
create_map-bytes malloc d v = elim (dec_eq (get_size d) 0) [
  | yes e ↦
      let empty : bytes d ≡ [] = empty-bytes d v e in
      let zero_size : (get_size d == 0) ≡ true = ground arith in
      rw zero_size (
        inl (record {
          data_object = data_empty;
          returned = refl;
          same = sym empty;
          size = sym e;
          all = sym empty;
        }))
  | no e ↦
      let some_size : (get_size d == 0) ≡ false = ground arith in
      rw some_size (elim (Option-cases (map_direct d 0).buffer) [
        | inr (buf, f) ↦ rw f (
            inl (record {
              data_object = d;
              returned = refl;
              same = refl;
              size = refl;
              all = direct-bytes d buf v f;
            }))
        | inl f ↦ elim (Bool-cases (malloc (get_size d))) [
          | inl got ↦
              let same = copied-bytes d v in
              rw (f, got)
                (inl (record {
                  data_object = leaf (apply copy_in d []).0;
                  returned = refl;
                  same = same;
                  size = refl;
                  all = take-length (get_size d) _ (ap length same ∙ length-bytes d v) ∙ same;
                }))
          | inr refused ↦
              rw (f, refused)
                (inr (
                  (omega arith, refl, refl),
                  record { data_object = refl; buffer = refl; size = refl },
                ))
        ]
      ])
]

-- With memory enough, the bytes that a mapping gives.
abbrev pub map_bytes : DispatchData → List ℕ
map_bytes d = readable (create_map (λ n. true) d)

pub map_bytes_lem : (d : DispatchData) → IsValid d → map_bytes d ≡ bytes d
map_bytes_lem d v = elim (create_map-bytes (λ n. true) d v) [
  | inl m ↦ m.all
  | inr (n, m) ↦ absurd (let r : true ≡ false = n.2 in cc)
]
