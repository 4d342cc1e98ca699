-- ===== src/Group/References.antt =====
-- The references to a dispatch group that its own code takes and gives back.
use book.Base.{ℕ, ◌+◌, ◌≡◌, false, ◌==◌, if◌then◌else◌, arith}
use book.Group.Word.{has_notifs}
use book.Group.{
  Pc, idle, enter_retain, leave_loop, wake_notifs, wake_waiters, release, compare, parked, check,
  waited, notify_retain, notify_flag, Choice, Timeout, now, later, call_enter, call_leave,
  call_wait, call_notify, proceed, time_out, spurious, Memory, Outcome, enter, After, leave,
  leave_round, wait, notify_push, flag_notifs, submit_notifs, advance,
}
use book.Group.Counting.{Counted}
use book.Group.Notices.{bit, Noticed, carries}

-- Releases that a thread is bound to make.
abbrev pub owed : Pc → ℕ
owed (leave_loop old) = 1
owed (wake_notifs dg_state refs) = refs + bit (has_notifs dg_state)
owed (wake_waiters dg_state refs) = refs
owed (release refs) = refs
owed notify_retain = 1
owed notify_flag = 1
owed _ = 0

-- Retains that a thread is about to make.
abbrev pub pending : Pc → ℕ
pending enter_retain = 1
pending notify_retain = 1
pending _ = 0

abbrev pub busy : ℕ → ℕ
busy outstanding = if outstanding == 0 then 0 else 1

-- One reference for a group that is entered, one for the list of notifications.
pub record Referenced (m : Memory) (w p : ℕ) : Type 0 where
  pub held : m.retains + p ≡ m.releases + busy m.outstanding + bit (has_notifs m.state) + w

abbrev pub Keeps : ℕ → ℕ → Outcome → Type 0
Keeps w p = After (λ m' pc'. Referenced m' (w + owed pc') (p + pending pc'))

enter-Referenced : (m : Memory) (w p : ℕ) → Counted m → Referenced m w p → Keeps w p (enter m)
unfolding enter
enter-Referenced m w p c n = ground arith

leave-Referenced : (m : Memory) (w p : ℕ) → Counted m → Referenced m w p → Keeps w p (leave m)
unfolding leave
leave-Referenced m w p c n = ground arith

leave_round-Referenced :
    (old : ℕ) (m : Memory) (w p : ℕ)
    → Counted m
    → Referenced m (w + 1) p
    → Keeps w p (leave_round old m)
unfolding leave_round
leave_round-Referenced old m w p c n = ground arith

wait-Referenced :
    (t : Timeout) (m : Memory) (w p : ℕ) → Counted m → Referenced m w p → Keeps w p (wait t m)
unfolding wait
wait-Referenced now m w p c n = ground arith
wait-Referenced later m w p c n = ground arith

notify_push-Referenced :
    (k : ℕ) (m : Memory) (w p : ℕ) → Referenced m w p → Keeps w p (notify_push k m)
unfolding notify_push
notify_push-Referenced k m w p n = ground arith

submit_notifs-Referenced :
    (s r : ℕ) (m : Memory) (w p : ℕ)
    → Referenced m (w + (r + bit (has_notifs s))) p
    → Keeps w p (submit_notifs s r m)
unfolding submit_notifs
submit_notifs-Referenced s r m w p n = ground arith

flag_notifs-Referenced :
    (m : Memory) (w p : ℕ)
    → Counted m
    → has_notifs m.state ≡ false
    → Referenced m (w + 1) p
    → Keeps w p (flag_notifs m)
unfolding flag_notifs
flag_notifs-Referenced m w p c free n = ground arith

pub advance-Referenced :
    (ch : Choice) (pc : Pc) (m : Memory) (w p : ℕ)
    → Counted m
    → (o : ℕ) → Noticed m (o + carries pc)
    → Referenced m (w + owed pc) (p + pending pc)
    → Keeps w p (advance ch pc m)
unfolding advance
advance-Referenced call_enter idle m w p c o v n = enter-Referenced m w p c (ground arith)
advance-Referenced call_leave idle m w p c o v n = leave-Referenced m w p c (ground arith)
advance-Referenced (call_wait t) idle m w p c o v n = wait-Referenced t m w p c (ground arith)
advance-Referenced (call_notify k) idle m w p c o v n =
    notify_push-Referenced k m w p (ground arith)
advance-Referenced proceed idle m w p c o v n = tt
advance-Referenced time_out idle m w p c o v n = tt
advance-Referenced spurious idle m w p c o v n = tt
advance-Referenced ch enter_retain m w p c o v n = ground arith
advance-Referenced ch (leave_loop old) m w p c o v n =
    leave_round-Referenced old m w p c (ground arith)
advance-Referenced ch (wake_notifs s r) m w p c o v n =
    submit_notifs-Referenced s r m w p (ground arith)
advance-Referenced ch (wake_waiters s r) m w p c o v n = ground arith
advance-Referenced ch (release r) m w p c o v n = ground arith
advance-Referenced ch (compare g) m w p c o v n = ground arith
advance-Referenced ch (parked g) m w p c o v n = ground arith
advance-Referenced ch (check g b) m w p c o v n = ground arith
advance-Referenced ch (waited b) m w p c o v n = ground arith
advance-Referenced ch notify_retain m w p c o v n = ground arith
advance-Referenced ch notify_flag m w p c o v n =
    flag_notifs-Referenced m w p c (ground arith) (ground arith)
