-- ===== src/Time.antt =====
-- shims/time.h and time.c: dispatch_time_t, a clock and a value in 64 bits. The top two bits are 00 for
-- up time, 10 for monotonic time and 11 for wall time, which is negated. The clocks of the system are
-- the record `Now`; the unit of mach time is the nanosecond (DISPATCH_TIME_UNIT_USES_NANOSECONDS), so
-- the conversions between the two change nothing. An int64_t is its bit pattern.
pub mod Encoding
pub mod Adding
pub mod Reading
pub mod Examples
use book.Base.{
  ℕ, ◌+◌, ◌-◌, ◌*◌, ◌%◌, ◌^◌, Bool, true, false, ◌||◌, Option, none, some, ◌==◌, ltb, leb,
  if◌then◌else◌, add64, sub64, is_neg64, is_pos64,
}

-- dispatch_clock_t
pub data Clock : Type 0 where
  uptime monotonic wall : Clock

-- What _dispatch_uptime, _dispatch_monotonic_time and _dispatch_get_nanoseconds return.
pub record Now : Type 0 where
  pub up : ℕ
  pub continuous : ℕ
  pub realtime : ℕ

-- DISPATCH_TIME_FOREVER
abbrev pub forever : ℕ
forever = 0xffffffffffffffff

-- DISPATCH_WALLTIME_NOW
abbrev pub walltime_now : ℕ
walltime_now = 0xfffffffffffffffe

-- DISPATCH_MONOTONICTIME_NOW
abbrev pub monotonictime_now : ℕ
monotonictime_now = 0x8000000000000000

-- DISPATCH_TIME_MAX_VALUE
abbrev pub max_value : ℕ
max_value = 0x3fffffffffffffff

-- _dispatch_time_now
unfoldable pub time_now : Now → Clock → ℕ
time_now now uptime = now.up
time_now now monotonic = now.continuous
time_now now wall = now.realtime

-- The range check at the end of _dispatch_time_to_clock_and_value.
abbrev pub in_range : ℕ → ℕ
in_range actual_value = if ltb max_value actual_value then forever else actual_value

-- _dispatch_time_to_clock_and_value without `allow_now`. Bit 62 of a pattern from 2^63 on is set from
-- 3 * 2^62 on.
unfoldable pub clock_and_value : ℕ → Clock × ℕ
clock_and_value time =
    if is_neg64 time
    then if leb (3 * 2 ^ 62) time
      then (wall, in_range (sub64 0 time))
      else (monotonic, in_range (time - 2 ^ 63))
    else (uptime, in_range time)

-- _dispatch_time_to_clock_and_value with `allow_now`.
unfoldable pub clock_and_value_now : Now → ℕ → Clock × ℕ
clock_and_value_now now time =
    if time == 0
    then (uptime, now.up)
    else if time == monotonictime_now
    then (monotonic, now.continuous)
    else if time == walltime_now
    then (wall, now.realtime)
    else clock_and_value time

-- The switch of _dispatch_clock_and_value_to_time.
abbrev pub encoded : Clock → ℕ → ℕ
encoded wall value = sub64 0 value
encoded uptime value = value
encoded monotonic value = if ltb value (2 ^ 63) then value + 2 ^ 63 else value

-- _dispatch_clock_and_value_to_time
unfoldable pub to_time : Clock → ℕ → ℕ
to_time clock value = if leb max_value value then forever else encoded clock value

-- dispatch_time on a wall clock: the sum is of 64 bits, and read as an int64_t.
unfoldable pub shift_wall : ℕ → ℕ → ℕ
unfolding to_time
shift_wall value delta =
    let sum = add64 value delta in
    if is_neg64 delta
    then to_time wall (if is_pos64 sum then sum else 2)
    else if is_pos64 sum
    then to_time wall sum
    else forever

-- dispatch_time on up time or monotonic time.
unfoldable pub shift_up : Clock → ℕ → ℕ → ℕ
unfolding to_time
shift_up clock value delta =
    let sum = add64 value delta in
    let difference = sub64 value (sub64 0 delta) in
    if is_neg64 delta
    then if is_pos64 difference then to_time clock difference else to_time clock 1
    else if is_pos64 sum
    then to_time clock sum
    else forever

abbrev pub shift : Clock → ℕ → ℕ → ℕ
shift wall value delta = shift_wall value delta
shift uptime value delta = shift_up uptime value delta
shift monotonic value delta = shift_up monotonic value delta

-- dispatch_time
unfoldable pub dispatch_time : Now → ℕ → ℕ → ℕ
unfolding clock_and_value_now shift_wall shift_up
dispatch_time now inval delta =
    let (clock, value) = clock_and_value_now now inval in
    if inval == forever
    then forever
    else if value == forever
    then value
    else shift clock value delta

-- dispatch_time_to_nsecs; `none` is its return of false.
unfoldable pub time_to_nsecs : Now → ℕ → Option (Clock × ℕ)
unfolding clock_and_value_now
time_to_nsecs now time =
    let (clock, nsecs) = clock_and_value_now now time in
    if nsecs == forever then none else some (clock, nsecs)

-- _dispatch_timespec_to_nano
abbrev pub timespec_to_nano : ℕ → ℕ → ℕ
timespec_to_nano tv_sec tv_nsec = add64 (tv_sec * 1000000000 % 2 ^ 64) tv_nsec

-- dispatch_walltime from the nanoseconds of its timespec, or of the clock if that is NULL. A signed
-- overflow of the sum wraps around.
unfoldable pub walltime : ℕ → ℕ → ℕ
walltime nanoseconds delta =
    let nsec = add64 nanoseconds delta in
    if is_pos64 nsec
    then if nsec == 1 then (if is_neg64 delta then walltime_now else forever) else sub64 0 nsec
    else if is_neg64 delta
    then walltime_now
    else forever

-- dispatch_walltime
unfoldable pub dispatch_walltime : Now → Option (ℕ × ℕ) → ℕ → ℕ
unfolding walltime
dispatch_walltime now none delta = walltime now.realtime delta
dispatch_walltime now (some (tv_sec, tv_nsec)) delta =
    walltime (timespec_to_nano tv_sec tv_nsec) delta

-- _dispatch_timeout
unfoldable pub timeout : Now → ℕ → ℕ
unfolding clock_and_value time_now
timeout now when =
    let (clock, value) = clock_and_value when in
    if when == forever
    then forever
    else if when == 0 || (when == monotonictime_now || when == walltime_now)
    then 0
    else if leb value (time_now now clock)
    then 0
    else value - time_now now clock

-- _dispatch_time_nanoseconds_since_epoch
unfoldable pub nanoseconds_since_epoch : Now → ℕ → ℕ
unfolding timeout
nanoseconds_since_epoch now when =
    if when == forever
    then forever
    else if is_neg64 when
    then sub64 0 when
    else add64 now.realtime (timeout now when)
