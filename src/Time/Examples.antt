-- ===== src/Time/Examples.antt =====
-- Concrete times.
use book.Base.{ℕ, ◌+◌, ◌-◌, ◌^◌, ◌≡◌, ◌<◌, refl, arith}
use book.Time.{
  uptime, wall, Now, max_value, clock_and_value, clock_and_value_now, to_time, dispatch_time,
  timeout, time_now,
}
use book.Time.Encoding.{decode-encode}
use book.Time.Adding.{Saturates, dispatch_time-exact}
use book.Time.Reading.{timeout-dispatch_time}

abbrev noon : Now
noon = record { up = 700; continuous = 900; realtime = 5000 }

decode-encode_example : clock_and_value_now noon (to_time wall 5) ≡ (wall, 5)
decode-encode_example = decode-encode noon wall 5 (omega arith) (omega arith)

abbrev five_before_end : ℕ
five_before_end = 0xfffffffffffffffb

five_read : (clock_and_value five_before_end).1 < max_value
unfolding clock_and_value
five_read = omega arith

read_100 : clock_and_value_now noon 100 ≡ (uptime, 100)
unfolding clock_and_value_now clock_and_value
read_100 = refl

-- 70 nanoseconds before 100, and 30 are left.
dispatch_time-exact_example : Saturates uptime 30 (dispatch_time noon 100 (2 ^ 64 - 70))
dispatch_time-exact_example =
    dispatch_time-exact noon 100 uptime 100 read_100 (omega arith) (omega arith) (2 ^ 64 - 70)
      (omega arith) (omega arith) (λ e. omega arith)

read_five : clock_and_value_now noon five_before_end ≡ (wall, 4 + 1)
unfolding clock_and_value_now clock_and_value
read_five = refl

timeout-dispatch_time_example : timeout noon (dispatch_time noon 0 30) ≡ 30
unfolding time_now
timeout-dispatch_time_example =
    timeout-dispatch_time noon uptime 30 (omega arith) (omega arith) (omega arith)
