-- ===== src/Time/Reading.antt =====
-- What the functions that read a time make of one, and how those that make one agree.
use book.Base.{ℕ, ◌+◌, ◌-◌, ◌^◌, ◌≤◌, ◌<◌, ◌≡◌, ◌≢◌, arith, add64, none}
use book.Time.{
  Clock, uptime, monotonic, wall, Now, walltime_now, monotonictime_now, max_value, clock_and_value,
  clock_and_value_now, to_time, time_now, dispatch_time, shift_wall, shift_up, walltime,
  dispatch_walltime, timeout, nanoseconds_since_epoch,
}
use book.Time.Encoding.{least}

-- DISPATCH_TIME_NOW, DISPATCH_MONOTONICTIME_NOW and DISPATCH_WALLTIME_NOW
abbrev pub now_of : Clock → ℕ
now_of uptime = 0
now_of monotonic = monotonictime_now
now_of wall = walltime_now

-- The timeout of a time made by dispatch_time from "now" and a positive delta, on any clock, is the
-- delta, as long as the clock shows at least its least value and the sum is in range.
pub timeout-dispatch_time :
    (now : Now) (clock : Clock) (delta : ℕ)
    → least clock ≤ time_now now clock
    → 0 < delta
    → time_now now clock + delta < max_value
    → timeout now (dispatch_time now (now_of clock) delta) ≡ delta
unfolding timeout dispatch_time clock_and_value clock_and_value_now to_time time_now shift_up
    shift_wall
timeout-dispatch_time now uptime delta lo pos hi = ground arith
timeout-dispatch_time now monotonic delta lo pos hi = ground arith
timeout-dispatch_time now wall delta lo pos hi = ground arith

-- The wall clock's dispatch_time from "now" and dispatch_walltime from NULL give the same time, if
-- their sum as an int64_t is neither 1 nor from the largest value on.
walltime-dispatch_time :
    (now : Now) (delta : ℕ)
    → now.realtime ≤ max_value
    → delta < 2 ^ 64
    → add64 now.realtime delta ≢ 1
    → (add64 now.realtime delta < 2 ^ 63 → add64 now.realtime delta < max_value)
    → dispatch_walltime now none delta ≡ dispatch_time now walltime_now delta
unfolding dispatch_walltime walltime dispatch_time clock_and_value_now to_time shift_wall
walltime-dispatch_time now delta hr hd one hi = ground arith

-- dispatch_walltime does not check the range: a sum above 2^62 and below 2^63 makes a time that is
-- read as a monotonic one.
walltime-monotonic :
    (now : Now) (nanoseconds delta : ℕ)
    → 2 ^ 62 < add64 nanoseconds delta
    → add64 nanoseconds delta < 2 ^ 63
    → clock_and_value_now now (walltime nanoseconds delta)
      ≡ (monotonic, 2 ^ 63 - add64 nanoseconds delta)
unfolding clock_and_value_now clock_and_value walltime
walltime-monotonic now nanoseconds delta lo hi = ground arith

-- Nanoseconds since the epoch, from a time in range that is not "now": of a wall time its value, of an
-- up time the wall clock plus what is left; but of a monotonic time it is 2^63 less the value,
-- whatever the clocks show.
nanoseconds_since_epoch_values :
    (now : Now) (value : ℕ)
    → now.realtime ≤ max_value
    → 3 ≤ value
    → value < max_value
    → (nanoseconds_since_epoch now (to_time wall value) ≡ value)
      × (nanoseconds_since_epoch now (to_time uptime value) ≡ now.realtime + (value - now.up))
      × (nanoseconds_since_epoch now (to_time monotonic value) ≡ 2 ^ 63 - value)
unfolding nanoseconds_since_epoch timeout clock_and_value to_time time_now
nanoseconds_since_epoch_values now value hr lo hi = (ground arith, ground arith, ground arith)
