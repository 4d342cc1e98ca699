-- ===== src/Transform/Utf/Lengths.antt =====
-- The lengths of a text in UTF-8 and in UTF-16.
use book.Base.{ℕ, ◌*◌, ◌%◌, ◌<◌, ◌≤◌, ◌≡◌, refl, List, [], ◌∷◌, length, length-append, arith}
use book.Transform.Utf.{ByteOrder}
use book.Transform.Utf.Forms.{utf8, utf16, utf8s, utf16s, without_bom, length-utf16}
use book.Transform.Utf.Units.{units, units-utf16, units-pos}

pub utf16s-even : (order : ByteOrder) (cs : List ℕ) → length (utf16s order cs) % 2 ≡ 0
unfolding utf16s
utf16s-even order [] = refl
utf16s-even order (c ∷ cs) = omega (
  arith,
  length-append (utf16 order c) (utf16s order cs),
  units-utf16 order c,
  utf16s-even order cs,
)

pub utf8-le_units : (c : ℕ) → length (utf8 c) ≤ units c * 4
unfolding utf8
utf8-le_units c = ground arith

-- Each form is at most twice as long as the other.
pub utf8s-le : (order : ByteOrder) (cs : List ℕ) → length (utf8s cs) ≤ length (utf16s order cs) * 2
unfolding utf8s utf16s
utf8s-le order [] = omega arith
utf8s-le order (c ∷ cs) = omega (
  arith,
  length-append (utf16 order c) (utf16s order cs),
  length-append (utf8 c) (utf8s cs),
  units-utf16 order c,
  utf8-le_units c,
  utf8s-le order cs,
)

pub utf16s-le : (order : ByteOrder) (cs : List ℕ) → length (utf16s order cs) ≤ length (utf8s cs) * 2
unfolding utf8s utf16s
utf16s-le order [] = omega arith
utf16s-le order (c ∷ cs) = omega (
  arith,
  length-append (utf16 order c) (utf16s order cs),
  length-append (utf8 c) (utf8s cs),
  length-utf16 order c,
  utf16s-le order cs,
)

pub without_bom-le : (cs : List ℕ) → length (utf8s (without_bom cs)) ≤ length (utf8s cs)
unfolding without_bom utf8s
without_bom-le [] = omega arith
without_bom-le (c ∷ cs) = ground (arith, length-append (utf8 c) (utf8s cs))

pub utf16s-pos : (order : ByteOrder) (cs : List ℕ) → 0 < length cs → 0 < length (utf16s order cs)
unfolding utf16s
utf16s-pos order [] h = absurd (omega arith)
utf16s-pos order (c ∷ cs) h =
    omega (arith, length-append (utf16 order c) (utf16s order cs), units-utf16 order c, units-pos c)
