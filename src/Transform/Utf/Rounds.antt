-- ===== src/Transform/Utf/Rounds.antt =====
-- transform.c, _dispatch_transform_to_utf16: the loop over a region ends within as many rounds as the
-- region has bytes left.
use mathlib.Core.Path.{subst}
use book.Base.{
  ℕ, zero, suc, ◌+◌, ◌-◌, ◌<◌, ◌≤◌, ◌≡◌, refl, ap, ◌∙◌, false, List, [], ◌∷◌, ◌==◌, ltb, arith,
  Bool-cases, inl, inr,
}
use book.Data.{DispatchData}
use book.Transform.Utf.{
  Outcome, ok, rejected, overread, overrun, ◌>>=◌, Buffer, ByteOrder, utf8_length,
}
use book.Transform.Utf.ToUtf16.{Cursor, Point, read_point, write_point, convert}
use book.Transform.Utf.Bounds.{
  Fits, fits, fits_rejected, fits_overread, chained, branched, Anything, subrange_map-Fits,
  read_utf8_sequence-Fits,
}

-- A round gets further.
read_point-later :
    (whole : DispatchData) (offset size : ℕ) (b : Buffer) (skip i : ℕ) (src : List ℕ)
    → i < size
    → Fits
        (λ (p : Point). i < p.behind.i)
        (read_point whole offset size (record { buffer = b; skip = skip; i = i; src = src }))
unfolding read_point
read_point-later whole offset size b skip i [] h = fits_overread
read_point-later whole offset size b skip i (x ∷ src) h =
    let n = utf8_length x in
    branched (n == 0) _ _ (λ e. fits_rejected)
      (λ e.
        branched (ltb size (n + i)) _ _
          (λ e'.
            chained Anything _ (subrange_map-Fits whole (offset + i) n)
              (λ p u. chained Anything _ (read_utf8_sequence-Fits p) (λ w u'. fits h)))
          (λ e'.
            chained Anything _ (read_utf8_sequence-Fits (x ∷ src)) (λ w u'. fits (ground arith))))

fits_value : {A : Type 0} {P : A → Type 0} (r : Outcome A) (a : A) → Fits P r → r ≡ ok a → P a
fits_value {P = P} r a (fits {a = b} h) e = let same : b ≡ a = cc in subst P same h
fits_value r a fits_rejected e = cc
fits_value r a fits_overread e = cc

-- Two continuations that agree on the value.
bind_same :
    {A B : Type 0} (r : Outcome A) (k k' : A → Outcome B)
    → ((a : A) → r ≡ ok a → k a ≡ k' a)
    → (r >>= k) ≡ (r >>= k')
bind_same (ok a) k k' h = h a refl
bind_same rejected k k' h = refl
bind_same overread k k' h = refl
bind_same overrun k k' h = refl

-- On any bytes, the loop of _dispatch_transform_to_utf16 over a region ends within as many rounds as
-- there are bytes left: more fuel than that changes nothing.
pub convert-enough :
    (order : ByteOrder) (whole : DispatchData) (offset size fuel more : ℕ) (c : Cursor)
    → size - c.i ≤ fuel
    → convert order whole offset size (fuel + more) c ≡ convert order whole offset size fuel c
unfolding convert
convert-enough order whole offset size zero zero c h = refl
convert-enough order whole offset size zero (suc more) c h =
    let ended : ltb c.i size ≡ false = ground arith in
    let n : zero + suc more ≡ suc more = omega arith in
    ap (λ (f : ℕ). convert order whole offset size f c) n ∙ rw ended refl
convert-enough order whole offset size (suc fuel) more c h =
    let n : suc fuel + more ≡ suc (fuel + more) = omega arith in
    ap (λ (f : ℕ). convert order whole offset size f c) n ∙ elim (Bool-cases (ltb c.i size)) [
      | inr e ↦ rw e refl
      | inl e ↦ rw e (
          bind_same (read_point whole offset size c) _ _ (λ p read.
            let later =
              fits_value (read_point whole offset size c) p
                (read_point-later whole offset size c.buffer c.skip c.i c.src (ground arith))
                read in
            bind_same (write_point order offset size p.behind.buffer p.behind.i p.wch) _ _
              (λ b written.
                convert-enough order whole offset size fuel more
                  (record { buffer = b; skip = p.behind.skip; i = p.behind.i; src = p.behind.src })
                  (omega arith))))
    ]
