-- ===== src/Time/Encoding.antt =====
-- The encoding of a clock and a value against its decoding.
use book.Base.{ℕ, ◌^◌, ◌≤◌, ◌<◌, ◌≡◌, arith}
use book.Time.{
  Clock, uptime, monotonic, wall, Now, max_value, clock_and_value, clock_and_value_now, to_time,
}

-- The least value of a clock whose encoding is neither "now" nor "forever".
abbrev pub least : Clock → ℕ
least uptime = 1
least monotonic = 1
least wall = 3

-- A value between the least of its clock and the largest that has an encoding is decoded to what was
-- encoded, whatever the clocks show.
pub decode-encode :
    (now : Now) (clock : Clock) (value : ℕ)
    → least clock ≤ value
    → value < max_value
    → clock_and_value_now now (to_time clock value) ≡ (clock, value)
unfolding clock_and_value_now clock_and_value to_time
decode-encode now uptime value lo hi = ground arith
decode-encode now monotonic value lo hi = ground arith
decode-encode now wall value lo hi = ground arith

-- The other way: a time whose value is in range is what encoding its clock and value gives.
encode-decode :
    (time : ℕ)
    → time < 2 ^ 64
    → (clock_and_value time).1 < max_value
    → to_time (clock_and_value time).0 (clock_and_value time).1 ≡ time
unfolding clock_and_value to_time
encode-decode time h small = ground arith
