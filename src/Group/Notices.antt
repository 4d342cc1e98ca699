-- ===== src/Group/Notices.antt =====
-- The notifications of a dispatch group: who is responsible for the list, and the references that
-- are held meanwhile.
use book.Base.{
  ℕ, ◌+◌, ◌≡◌, inl, inr, refl, Bool, true, false, List, [], ◌∷◌, ◌++◌, length, length-append, arith,
  Bool-cases,
}
use mathlib.Core.List.{append-nil, append_assoc}
use book.Group.Word.{has_notifs}
use book.Group.{
  Pc, idle, enter_retain, leave_loop, wake_notifs, wake_waiters, release, compare, parked, check,
  waited, notify_retain, notify_flag, Choice, Timeout, now, later, call_enter, call_leave,
  call_wait, call_notify, proceed, time_out, spurious, Memory, Outcome, enter, After, leave,
  leave_round, wait, notify_push, flag_notifs, submit_notifs, advance,
}

abbrev pub bit : Bool → ℕ
bit true = 1
bit false = 0

-- A thread that will set the bit for the list, or has cleared it and will submit the list.
abbrev pub carries : Pc → ℕ
carries notify_retain = 1
carries notify_flag = 1
carries (wake_notifs dg_state refs) = bit (has_notifs dg_state)
carries _ = 0

abbrev pub nonempty : List ℕ → ℕ
nonempty [] = 0
nonempty (x ∷ xs) = 1

-- `w` counts the carriers.
pub record Noticed (m : Memory) (w : ℕ) : Type 0 where
  pub one : bit (has_notifs m.state) + w ≡ nonempty m.notify
  pub queues : m.queue_retains ≡ m.queue_releases + length m.notify
  pub order : m.submitted ++ m.notify ≡ m.pushed

abbrev pub Keeps : ℕ → Outcome → Type 0
Keeps w = After (λ m' pc'. Noticed m' (w + carries pc'))

enter-Noticed : (m : Memory) (w : ℕ) → Noticed m w → Keeps w (enter m)
unfolding enter
enter-Noticed m w n = ground arith

leave-Noticed : (m : Memory) (w : ℕ) → Noticed m w → Keeps w (leave m)
unfolding leave
leave-Noticed m w n = ground arith

leave_round-Noticed : (old : ℕ) (m : Memory) (w : ℕ) → Noticed m w → Keeps w (leave_round old m)
unfolding leave_round
leave_round-Noticed old m w n = ground arith

wait-Noticed : (t : Timeout) (m : Memory) (w : ℕ) → Noticed m w → Keeps w (wait t m)
unfolding wait
wait-Noticed now m w n = ground arith
wait-Noticed later m w n = ground arith

flag_notifs-Noticed : (m : Memory) (w : ℕ) → Noticed m (w + 1) → Keeps w (flag_notifs m)
unfolding flag_notifs
flag_notifs-Noticed m w n = ground arith

nonempty-append : (xs : List ℕ) (c : ℕ) → nonempty (xs ++ c ∷ []) ≡ 1
nonempty-append [] c = refl
nonempty-append (x ∷ xs) c = refl

notify_push-Noticed : (c : ℕ) (m : Memory) (w : ℕ) → Noticed m w → Keeps w (notify_push c m)
unfolding notify_push
notify_push-Noticed c m w n = ground (
  arith,
  nonempty-append m.notify c,
  length-append m.notify (c ∷ []),
  append_assoc m.submitted m.notify (c ∷ []),
)

submit_notifs-Noticed :
    (s r : ℕ) (m : Memory) (w : ℕ)
    → Noticed m (w + bit (has_notifs s))
    → Keeps w (submit_notifs s r m)
unfolding submit_notifs
submit_notifs-Noticed s r m w n = elim (Bool-cases (has_notifs s)) [
  | inl e ↦ rw e (record {
    one = ground arith;
    queues = ground arith;
    order = ground (arith, append-nil (m.submitted ++ m.notify));
  })
  | inr e ↦ rw e (ground arith)
]

pub advance-Noticed :
    (ch : Choice) (pc : Pc) (m : Memory) (w : ℕ)
    → Noticed m (w + carries pc)
    → Keeps w (advance ch pc m)
unfolding advance
advance-Noticed call_enter idle m w n = enter-Noticed m w (ground arith)
advance-Noticed call_leave idle m w n = leave-Noticed m w (ground arith)
advance-Noticed (call_wait t) idle m w n = wait-Noticed t m w (ground arith)
advance-Noticed (call_notify c) idle m w n = notify_push-Noticed c m w (ground arith)
advance-Noticed proceed idle m w n = tt
advance-Noticed time_out idle m w n = tt
advance-Noticed spurious idle m w n = tt
advance-Noticed ch enter_retain m w n = ground arith
advance-Noticed ch (leave_loop old) m w n = leave_round-Noticed old m w (ground arith)
advance-Noticed ch (wake_notifs s r) m w n = submit_notifs-Noticed s r m w n
advance-Noticed ch (wake_waiters s r) m w n = ground arith
advance-Noticed ch (release r) m w n = ground arith
advance-Noticed ch (compare g) m w n = ground arith
advance-Noticed ch (parked g) m w n = ground arith
advance-Noticed ch (check g b) m w n = ground arith
advance-Noticed ch (waited b) m w n = ground arith
advance-Noticed ch notify_retain m w n = ground arith
advance-Noticed ch notify_flag m w n = flag_notifs-Noticed m w n
