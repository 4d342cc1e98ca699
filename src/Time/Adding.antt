-- ===== src/Time/Adding.antt =====
-- dispatch_time against addition without bounds.
use mathlib.Core.Path.{subst}
use book.Base.{
  Bool-cases, inl, inr, ◌⊎◌, leb, ℕ, ◌+◌, ◌-◌, ◌^◌, ◌≤◌, ◌<◌, ◌≡◌, ◌≢◌, false, arith, ltb,
  if◌then◌else◌, ◌==◌, refl, ◌∙◌,
}
use book.Time.{
  Clock, uptime, monotonic, wall, Now, forever, max_value, clock_and_value_now, to_time, shift,
  shift_wall, shift_up, dispatch_time, encoded,
}

-- What an underflow is replaced by: the value of the comments in dispatch_time.
abbrev pub floor : Clock → ℕ
floor wall = 2
floor uptime = 1
floor monotonic = 1

-- The sum of a value and a delta, an int64_t by its pattern, without bounds above; below, what replaces
-- an underflow.
abbrev pub exact_sum : Clock → ℕ → ℕ → ℕ
exact_sum clock value delta =
    let k = 2 ^ 64 - delta in
    if ltb delta (2 ^ 63) then value + delta else if ltb k value then value - k else floor clock

-- The pattern of a time: the value of an up time, the value of a monotonic time with the top bit set,
-- and the negated value of a wall time.
abbrev pub StandsFor : Clock → ℕ → ℕ → Type 0
StandsFor uptime value time = time ≡ value
StandsFor monotonic value time = time ≡ 2 ^ 63 + value
StandsFor wall value time = time + value ≡ 2 ^ 64

-- A time for a value below the largest is not "forever"; from the largest value on it is.
abbrev pub Saturates : Clock → ℕ → ℕ → Type 0
Saturates clock value time =
    ((value < max_value) × StandsFor clock value time × (time ≢ forever))
    ⊎ ((max_value ≤ value) × (time ≡ forever))

to_time-Saturates :
    (clock : Clock) (value : ℕ)
    → 0 < value
    → (clock ≡ wall → value ≢ 1)
    → Saturates clock value (to_time clock value)
unfolding to_time
to_time-Saturates clock value pos other = elim (Bool-cases (leb max_value value)) [
  | inl large ↦ inr (ground arith, rw large refl)
  | inr small ↦ let lt : value < max_value = ground arith in rw small (inl (pattern clock lt other))
]
  where
    pattern :
        (clock : Clock)
        → value < max_value
        → (clock ≡ wall → value ≢ 1)
        → (value < max_value)
          × StandsFor clock value (encoded clock value)
          × (encoded clock value ≢ forever)
    pattern uptime lt n = (lt, refl, omega arith)
    pattern monotonic lt n = (lt, ground arith, ground arith)
    pattern wall lt n = let m = n refl in (lt, omega arith, omega arith)

shift-forward :
    (clock : Clock) (value delta : ℕ)
    → value ≤ max_value
    → delta < 2 ^ 63
    → 0 < value + delta
    → shift clock value delta ≡ to_time clock (value + delta)
unfolding shift_wall shift_up to_time
shift-forward uptime value delta hv hd pos = ground arith
shift-forward monotonic value delta hv hd pos = ground arith
shift-forward wall value delta hv hd pos = ground arith

shift-back :
    (clock : Clock) (value k : ℕ)
    → value ≤ max_value
    → 0 < k
    → k ≤ 2 ^ 63
    → shift clock value (2 ^ 64 - k)
      ≡ to_time clock (if ltb k value then value - k else floor clock)
unfolding shift_wall shift_up to_time
shift-back uptime value k hv pos hk = ground arith
shift-back monotonic value k hv pos hk = ground arith
shift-back wall value k hv pos hk = ground arith

module _ (now : Now) (inval : ℕ) (clock : Clock) (value : ℕ)
    (read : clock_and_value_now now inval ≡ (clock, value)) (finite : inval ≢ forever)
    (small : value ≤ max_value) where
  -- What dispatch_time does with a time that it reads as a clock and a value in range.
  reads : (delta : ℕ) → dispatch_time now inval delta ≡ shift clock value delta
  unfolding dispatch_time
  reads delta =
      let a : (inval == forever) ≡ false = ground arith in
      let b : (value == forever) ≡ false = ground arith in rw (read, a, b) refl

  -- For a time that is not "forever" and reads as a clock and a value in range, and any delta, unless
  -- the value and the delta are 0, and unless the clock is the wall clock and the sum comes to 1:
  -- dispatch_time gives the time whose pattern stands for the exact sum on that clock, and not "forever",
  -- if the sum is below the largest value, and "forever" if it is not. Where the delta takes away all of
  -- the value or more, the sum is 1, and 2 on the wall clock.
  pub dispatch_time-exact :
      (delta : ℕ)
      → delta < 2 ^ 64
      → 0 < value + delta
      → (clock ≡ wall → exact_sum clock value delta ≢ 1)
      → Saturates clock (exact_sum clock value delta) (dispatch_time now inval delta)
  dispatch_time-exact delta hd pos other =
      rw (reads delta, shift_sum)
        (to_time-Saturates clock (exact_sum clock value delta) (sum_pos clock) other)
    where
      sum_pos : (c : Clock) → 0 < exact_sum c value delta
      sum_pos uptime = ground arith
      sum_pos monotonic = ground arith
      sum_pos wall = ground arith

      shift_sum : shift clock value delta ≡ to_time clock (exact_sum clock value delta)
      shift_sum = elim (Bool-cases (ltb delta (2 ^ 63))) [
        | inl e ↦ rw e (shift-forward clock value delta small (ground arith) pos)
        | inr e ↦
            let k = 2 ^ 64 - delta in
            let back : 2 ^ 64 - k ≡ delta = ground arith in
            rw e (
              subst
                (λ n.
                  shift clock value n
                  ≡ to_time clock (if ltb k value then value - k else floor clock))
                back (shift-back clock value k small (ground arith) (ground arith)))
      ]

-- A wall time of k + 1 nanoseconds that dispatch_time moves back by k becomes "forever".
dispatch_time-wall_last :
    (now : Now) (inval k : ℕ)
    → clock_and_value_now now inval ≡ (wall, k + 1)
    → inval ≢ forever
    → 0 < k
    → k < max_value
    → dispatch_time now inval (2 ^ 64 - k) ≡ forever
unfolding to_time
dispatch_time-wall_last now inval k read finite pos small =
    reads now inval wall (k + 1) read finite (omega arith) (2 ^ 64 - k)
    ∙ shift-back wall (k + 1) k (omega arith) pos (omega arith)
    ∙ ground arith
