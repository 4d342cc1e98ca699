-- ===== src/Group/Counting.antt =====
-- The counter in the word of a dispatch group: what enter and leave do to the fields.
use book.Base.{ℕ, ◌-◌, ◌*◌, ◌%◌, ◌^◌, ◌<◌, ◌≡◌, arith}
use book.Group.Word.{dg_gen, masked_value}
use book.Group.{
  Pc, idle, enter_retain, leave_loop, wake_notifs, wake_waiters, release, compare, parked, check,
  waited, notify_retain, notify_flag, Choice, Timeout, now, later, call_enter, call_leave,
  call_wait, call_notify, proceed, time_out, spurious, Memory, enter, After, leave, leave_round,
  wait, notify_push, flag_notifs, submit_notifs, advance,
}

-- The value of a word counts down from 2^30 in steps of 4, and the generation counts the cycles.
pub record Counted (m : Memory) : Type 0 where
  pub fits : m.state < 2 ^ 64
  pub few : m.outstanding < 2 ^ 30
  pub value : masked_value m.state ≡ (2 ^ 32 - 4 * m.outstanding) % 2 ^ 32
  pub gen : dg_gen m.state ≡ m.cycles % 2 ^ 32

enter-Counted : (m : Memory) → Counted m → After (λ m' _. Counted m') (enter m)
unfolding enter
enter-Counted m c = ground arith

leave-Counted : (m : Memory) → Counted m → After (λ m' _. Counted m') (leave m)
unfolding leave
leave-Counted m c = ground arith

leave_round-Counted :
    (old : ℕ) (m : Memory) → Counted m → After (λ m' _. Counted m') (leave_round old m)
unfolding leave_round
leave_round-Counted old m c = ground arith

wait-Counted : (t : Timeout) (m : Memory) → Counted m → After (λ m' _. Counted m') (wait t m)
unfolding wait
wait-Counted now m c = c
wait-Counted later m c = ground arith

flag_notifs-Counted : (m : Memory) → Counted m → After (λ m' _. Counted m') (flag_notifs m)
unfolding flag_notifs
flag_notifs-Counted m c = ground arith

notify_push-Counted :
    (n : ℕ) (m : Memory) → Counted m → After (λ m' _. Counted m') (notify_push n m)
unfolding notify_push
notify_push-Counted n m c = ground arith

submit_notifs-Counted :
    (s r : ℕ) (m : Memory) → Counted m → After (λ m' _. Counted m') (submit_notifs s r m)
unfolding submit_notifs
submit_notifs-Counted s r m c = ground arith

-- Every step of every thread keeps the counter.
pub advance-Counted :
    (ch : Choice) (pc : Pc) (m : Memory) → Counted m → After (λ m' _. Counted m') (advance ch pc m)
unfolding advance
advance-Counted call_enter idle m c = enter-Counted m c
advance-Counted call_leave idle m c = leave-Counted m c
advance-Counted (call_wait t) idle m c = wait-Counted t m c
advance-Counted (call_notify n) idle m c = notify_push-Counted n m c
advance-Counted proceed idle m c = tt
advance-Counted time_out idle m c = tt
advance-Counted spurious idle m c = tt
advance-Counted ch enter_retain m c = ground arith
advance-Counted ch (leave_loop old) m c = leave_round-Counted old m c
advance-Counted ch (wake_notifs s r) m c = submit_notifs-Counted s r m c
advance-Counted ch (wake_waiters s r) m c = ground arith
advance-Counted ch (release r) m c = ground arith
advance-Counted ch (compare g) m c = ground arith
advance-Counted ch (parked g) m c = ground arith
advance-Counted ch (check g b) m c = ground arith
advance-Counted ch (waited b) m c = c
advance-Counted ch notify_retain m c = ground arith
advance-Counted ch notify_flag m c = flag_notifs-Counted m c
