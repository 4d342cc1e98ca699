-- ===== src/Transform/Utf/Bounds.antt =====
-- transform.c: the UTF-16 transforms write within their output buffer, on any input.
use book.Base.{
  ℕ, zero, suc, ◌+◌, ◌-◌, ◌*◌, ◌%◌, ◌^◌, ◌<◌, ◌≤◌, ◌≡◌, ◌≢◌, refl, ap, inl, inr, Bool, true, false,
  Option, none, some, List, [], ◌∷◌, ◌==◌, ◌||◌, ltb, leb, if◌then◌else◌, length, length-append,
  arith, Bool-cases, add64,
}
use book.Data.Access.{Applier}
use book.Data.Regions.{Region, Contiguous, visit}
use book.Data.{DispatchData, get_size, Created, create_subrange}
use book.Data.Mapping.{map_bytes}
use book.Transform.Utf.{
  Outcome, ok, rejected, overread, overrun, ◌>>=◌, Buffer, flushed, buffer_new, put, subrange_map,
  utf8_length, lead_bits, read_rest, read_utf8_sequence, buffer_malloc_max,
}

-- No write was out of bounds, and a value that came out has the property.
pub data Fits {A : Type 0} (P : A → Type 0) : Outcome A → Type 0 where
  fits : {a : A} → P a → Fits P (ok a)
  fits_rejected : Fits P rejected
  fits_overread : Fits P overread

pub fits_lem : {A : Type 0} {P : A → Type 0} {r : Outcome A} → Fits P r → r ≢ overrun
fits_lem (fits h) e = cc
fits_lem fits_rejected e = cc
fits_lem fits_overread e = cc

module _ {A : Type 0} where
  pub chained :
      {B : Type 0} (P : A → Type 0) {Q : B → Type 0} {r : Outcome A} (k : A → Outcome B)
      → Fits P r
      → ((a : A) → P a → Fits Q (k a))
      → Fits Q (r >>= k)
  chained P k (fits {a} h) g = g a h
  chained P k fits_rejected g = fits_rejected
  chained P k fits_overread g = fits_overread

  pub branched :
      {P : A → Type 0} (b : Bool) (x y : Outcome A)
      → (b ≡ true → Fits P x)
      → (b ≡ false → Fits P y)
      → Fits P (if b then x else y)
  branched true x y f g = f refl
  branched false x y f g = g refl

abbrev pub Anything : {A : Type 0} → A → Type 0
Anything a = Unit

-- What is written is within the buffer.
abbrev pub InBounds : Buffer → Type 0
InBounds b = length b.written ≤ b.size

-- There is room for so many bytes more.
abbrev pub HasRoom : ℕ → Buffer → Type 0
HasRoom n b = length b.written + n ≤ b.size

pub buffer_new-Fits :
    (b : Buffer) (required size : ℕ)
    → InBounds b
    → required + size < 2 ^ 64
    → Fits (HasRoom required) (buffer_new b required size)
unfolding buffer_new
buffer_new-Fits b required size h small =
    branched (required == 0 || ltb (b.size - length b.written) required) _ _
      (λ e. flush (flushed b)) (λ e. fits (ground arith))
  where
    flush :
        (o : Option DispatchData)
        → Fits (HasRoom required) (elim o [
          | none ↦ rejected
          | some d ↦
              if ltb buffer_malloc_max (add64 required size)
              then rejected
              else ok (record { data_object = d; written = []; size = add64 required size })
        ])
    flush none = fits_rejected
    flush (some d) =
        branched (ltb buffer_malloc_max (add64 required size)) _ _ (λ e. fits_rejected)
          (λ e. fits (omega arith))

pub put-Fits :
    (b : Buffer) (bs : List ℕ) (n : ℕ) → HasRoom (length bs + n) b → Fits (HasRoom n) (put b bs)
unfolding put
put-Fits b bs n h =
    branched (leb (length b.written + length bs) b.size) _ _
      (λ e. fits (omega (arith, length-append b.written bs))) (λ e. absurd (ground arith))

-- The last write.
pub put-last : (b : Buffer) (bs : List ℕ) → HasRoom (length bs) b → Fits InBounds (put b bs)
unfolding put
put-last b bs h =
    branched (leb (length b.written + length bs) b.size) _ _
      (λ e. fits (omega (arith, length-append b.written bs))) (λ e. absurd (ground arith))

pub subrange_map-Fits :
    (d : DispatchData) (offset size : ℕ) → Fits Anything (subrange_map d offset size)
unfolding subrange_map
subrange_map-Fits d offset size = mapped (create_subrange d offset size)
  where
    mapped :
        (o : Option Created)
        → Fits Anything (elim o [
          | none ↦ rejected
          | some c ↦ if get_size c.object == size then ok (map_bytes c.object) else rejected
        ])
    mapped none = fits_rejected
    mapped (some c) = branched (get_size c.object == size) _ _ (λ e. fits tt) (λ e. fits_rejected)

read_rest-Fits : (n : ℕ) (bytes : List ℕ) (wch : ℕ) → Fits Anything (read_rest n bytes wch)
unfolding read_rest
read_rest-Fits zero bytes wch = fits tt
read_rest-Fits (suc n) [] wch = fits_overread
read_rest-Fits (suc n) (b ∷ bytes) wch =
    read_rest-Fits n bytes (if n == 0 then wch + b % 64 else (wch + b % 64) * 64 % 2 ^ 32)

pub read_utf8_sequence-Fits : (bytes : List ℕ) → Fits Anything (read_utf8_sequence bytes)
unfolding read_utf8_sequence
read_utf8_sequence-Fits [] = fits_overread
read_utf8_sequence-Fits (b ∷ bytes) =
    read_rest-Fits ((utf8_length b + 255) % 256) bytes (lead_bits (utf8_length b) b)

-- What holds of the state between the calls of a block holds at the end.
pub visit-keeps :
    {S : Type 0} (P : S → Type 0) (f : Applier S) (n : ℕ)
    → ((object : DispatchData) (offset : ℕ) (buf : List ℕ) (s : S)
        → length buf ≤ n
        → P s
        → P (f object offset buf s).0)
    → (rs : List Region) (offset : ℕ) (bs : List ℕ) (s : S) → Contiguous offset rs bs
    → length bs ≤ n
    → P s
    → P (visit f rs s).0
unfolding visit
visit-keeps P f n step [] offset bs s c small p = p
visit-keeps P f n step (r ∷ rs) offset bs s (rest, e, some_bytes, e_bs, more) small p =
    let total = length-append r.buf rest in
    let bound = ap length e_bs in
    let called = f r.object r.offset r.buf s in
    let p1 = step r.object r.offset r.buf s (omega arith) p in
    let after =
      visit-keeps P f n step rs (offset + length r.buf) rest called.0 more (omega arith) p1 in
    elim (Bool-cases called.1) [ inl t ↦ rw t after | inr t ↦ rw t p1 ]
