-- ===== src/Base/Words.antt =====
-- Machine words as native numbers below a power of two, with their wrap-around written out, and
-- the signed reading of a 64-bit pattern.
use Prim.Native.Nat.{ℕ, ◌+◌, ◌-◌, ◌%◌, ◌^◌}
use mathlib.Core.Bool.{Bool, true, false, ◌&&◌}
use book.Base.Tests.{ltb, if◌then◌else◌}

abbrev pub add32 : ℕ → ℕ → ℕ
add32 a b = (a + b) % 2 ^ 32

abbrev pub sub32 : ℕ → ℕ → ℕ
sub32 a b = (a + 2 ^ 32 - b) % 2 ^ 32

abbrev pub add64 : ℕ → ℕ → ℕ
add64 a b = (a + b) % 2 ^ 64

abbrev pub sub64 : ℕ → ℕ → ℕ
sub64 a b = (a + 2 ^ 64 - b) % 2 ^ 64

-- `(int64_t)w < 0`
abbrev pub is_neg64 : ℕ → Bool
is_neg64 w = if ltb w (2 ^ 63) then false else true

-- `(int64_t)w > 0`
abbrev pub is_pos64 : ℕ → Bool
is_pos64 w = ltb 0 w && ltb w (2 ^ 63)

-- The two halves of the signed value: w as an int64_t is `pos_part w - neg_part w`.
abbrev pub pos_part : ℕ → ℕ
pos_part w = if ltb w (2 ^ 63) then w else 0

abbrev pub neg_part : ℕ → ℕ
neg_part w = if ltb w (2 ^ 63) then 0 else 2 ^ 64 - w

-- The signed order of two 64-bit patterns.
abbrev pub lt_signed : ℕ → ℕ → Bool
lt_signed a b = ltb (pos_part a + neg_part b) (pos_part b + neg_part a)
