-- ===== src/Group/Settling.antt =====
-- The flags in the word of a dispatch group are always somebody's to clear.
use book.Base.{ℕ, ◌+◌, ◌≤◌, ◌<◌, ◌≡◌, ◌⊎◌, ◌&&◌, ltb, if◌then◌else◌, arith}
use book.Group.Word.{dg_bits}
use book.Group.{
  Pc, idle, enter_retain, leave_loop, wake_notifs, wake_waiters, release, compare, parked, check,
  waited, notify_retain, notify_flag, Choice, Timeout, now, later, call_enter, call_leave,
  call_wait, call_notify, proceed, time_out, spurious, Memory, Outcome, enter, After, leave,
  leave_round, wait, notify_push, flag_notifs, submit_notifs, advance,
}
use book.Group.Counting.{Counted}

-- A leaver whose copy has the value 0 and a flag: it will exchange the word, or look again.
abbrev pub committed : Pc → ℕ
committed (leave_loop old) = if ltb 0 (dg_bits old) && ltb (dg_bits old) 4 then 1 else 0
committed _ = 0

-- No flag, or the group is entered, or one of the `w` committed leavers is there.
abbrev pub Settling : Memory → ℕ → Type 0
Settling m w = (dg_bits m.state ≡ 0) ⊎ ((4 ≤ dg_bits m.state) ⊎ (0 < w))

abbrev pub Keeps : ℕ → Outcome → Type 0
Keeps w = After (λ m' pc'. Settling m' (w + committed pc'))

enter-Settling : (m : Memory) (w : ℕ) → Counted m → Settling m w → Keeps w (enter m)
unfolding enter
enter-Settling m w c n = ground arith

leave-Settling : (m : Memory) (w : ℕ) → Counted m → Settling m w → Keeps w (leave m)
unfolding leave
leave-Settling m w c n = ground arith

leave_round-Settling :
    (old : ℕ) (m : Memory) (w : ℕ)
    → Counted m
    → Settling m (w + committed (leave_loop old))
    → Keeps w (leave_round old m)
unfolding leave_round
leave_round-Settling old m w c n = ground arith

wait-Settling : (t : Timeout) (m : Memory) (w : ℕ) → Counted m → Settling m w → Keeps w (wait t m)
unfolding wait
wait-Settling now m w c n = ground arith
wait-Settling later m w c n = ground arith

notify_push-Settling : (k : ℕ) (m : Memory) (w : ℕ) → Settling m w → Keeps w (notify_push k m)
unfolding notify_push
notify_push-Settling k m w n = ground arith

submit_notifs-Settling :
    (s r : ℕ) (m : Memory) (w : ℕ) → Settling m w → Keeps w (submit_notifs s r m)
unfolding submit_notifs
submit_notifs-Settling s r m w n = ground arith

flag_notifs-Settling : (m : Memory) (w : ℕ) → Counted m → Settling m w → Keeps w (flag_notifs m)
unfolding flag_notifs
flag_notifs-Settling m w c n = ground arith

pub advance-Settling :
    (ch : Choice) (pc : Pc) (m : Memory) (w : ℕ)
    → Counted m
    → Settling m (w + committed pc)
    → Keeps w (advance ch pc m)
unfolding advance
advance-Settling call_enter idle m w c n = enter-Settling m w c (ground arith)
advance-Settling call_leave idle m w c n = leave-Settling m w c (ground arith)
advance-Settling (call_wait t) idle m w c n = wait-Settling t m w c (ground arith)
advance-Settling (call_notify k) idle m w c n = notify_push-Settling k m w (ground arith)
advance-Settling proceed idle m w c n = tt
advance-Settling time_out idle m w c n = tt
advance-Settling spurious idle m w c n = tt
advance-Settling ch enter_retain m w c n = ground arith
advance-Settling ch (leave_loop old) m w c n = leave_round-Settling old m w c n
advance-Settling ch (wake_notifs s r) m w c n = submit_notifs-Settling s r m w (ground arith)
advance-Settling ch (wake_waiters s r) m w c n = ground arith
advance-Settling ch (release r) m w c n = ground arith
advance-Settling ch (compare g) m w c n = ground arith
advance-Settling ch (parked g) m w c n = ground arith
advance-Settling ch (check g b) m w c n = ground arith
advance-Settling ch (waited b) m w c n = ground arith
advance-Settling ch notify_retain m w c n = ground arith
advance-Settling ch notify_flag m w c n = flag_notifs-Settling m w c (ground arith)
