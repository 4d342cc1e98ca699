-- ===== src/Group/Waiters.antt =====
-- The threads that wait on the generation of a dispatch group, and who will wake them.
use book.Base.{ℕ, ◌+◌, ◌^◌, ◌≤◌, ◌<◌, ◌≡◌, ◌⊎◌, Bool, true, ◌==◌, ltb, arith}
use book.Group.Word.{dg_bits, dg_gen, has_waiters}
use book.Group.{
  Pc, idle, enter_retain, leave_loop, wake_notifs, wake_waiters, release, compare, parked, check,
  waited, notify_retain, notify_flag, Choice, Timeout, now, later, call_enter, call_leave,
  call_wait, call_notify, proceed, time_out, spurious, Memory, Outcome, next, wake_all, crash,
  blocked, enter, leave, leave_round, wait, notify_push, flag_notifs, submit_notifs, advance,
}
use book.Group.Counting.{Counted}
use book.Group.Notices.{bit}

-- The generation that a waiter has taken a copy of.
abbrev pub waits_on : (ℕ → Bool) → Pc → ℕ
waits_on p (compare gen) = bit (p gen)
waits_on p (parked gen) = bit (p gen)
waits_on p (check gen timed_out) = bit (p gen)
waits_on p _ = 0

-- A waiter that sleeps on an older generation.
abbrev pub stale : ℕ → Pc → ℕ
stale gen (parked g) = bit (ltb g gen)
stale gen _ = 0

-- A leaver whose copy of the word has the bit for waiters.
abbrev pub will_wake : Pc → ℕ
will_wake (leave_loop old) = bit (has_waiters old)
will_wake _ = 0

-- A thread that is about to wake all sleepers.
abbrev pub waking : Pc → ℕ
waking (wake_notifs dg_state refs) = bit (has_waiters dg_state)
waking (wake_waiters dg_state refs) = bit (has_waiters dg_state)
waking _ = 0

-- The counts of the other threads: waiters on a later generation and on the current one, sleepers
-- on an older one, leavers that will wake, wakers.
pub record Watched (m : Memory) (late fresh old leavers wakers : ℕ) : Type 0 where
  pub none_late : late ≡ 0
  pub current : (fresh ≡ 0) ⊎ ((has_waiters m.state ≡ true) × (4 ≤ dg_bits m.state))
  pub owed : (old ≡ 0) ⊎ ((0 < wakers) ⊎ ((has_waiters m.state ≡ true) × (0 < leavers)))

abbrev pub late : ℕ → Pc → ℕ
late gen = waits_on (λ g. ltb gen g)

abbrev pub fresh : ℕ → Pc → ℕ
fresh gen = waits_on (λ g. g == gen)

module _ (gen l f o l' f' o' lv wk : ℕ) where
  -- A step keeps the generation, or raises it by one: then the others' counts are the primed ones.
  abbrev pub Moves : Memory → Pc → Type 0
  Moves m pc =
      ((dg_gen m.state ≡ gen)
        × Watched m (l + late gen pc) (f + fresh gen pc) (o + stale gen pc) (lv + will_wake pc)
            (wk + waking pc))
      ⊎ ((dg_gen m.state ≡ gen + 1)
          × Watched m (l' + late (gen + 1) pc) (f' + fresh (gen + 1) pc) (o' + stale (gen + 1) pc)
              (lv + will_wake pc) (wk + waking pc))

  -- A wake leaves no other thread asleep.
  abbrev pub Keeps : Outcome → Type 0
  Keeps (next m pc) = Moves m pc
  Keeps (wake_all m pc) =
      (dg_gen m.state ≡ gen)
      × Watched m (l + late gen pc) (f + fresh gen pc) (stale gen pc) (lv + will_wake pc)
          (wk + waking pc)
  Keeps crash = Unit
  Keeps blocked = Unit

module _ (gen l f o l' f' o' lv wk : ℕ) (m : Memory) (c : Counted m)
    (g : dg_gen m.state ≡ gen) where
  enter-Moves : Watched m l f o lv wk → Keeps gen l f o l' f' o' lv wk (enter m)
  unfolding enter
  enter-Moves n = ground arith

  leave-Moves :
      m.cycles + 1 < 2 ^ 32
      → l' ≤ l
      → f' ≤ l
      → o' ≤ o + f
      → Watched m l f o lv wk
      → Keeps gen l f o l' f' o' lv wk (leave m)
  unfolding leave
  leave-Moves few hl hf ho n = ground arith

  leave_round-Moves :
      (old : ℕ)
      → Watched m l f o (lv + bit (has_waiters old)) wk
      → Keeps gen l f o l' f' o' lv wk (leave_round old m)
  unfolding leave_round
  leave_round-Moves old n = ground arith

  wait-Moves : (t : Timeout) → Watched m l f o lv wk → Keeps gen l f o l' f' o' lv wk (wait t m)
  unfolding wait
  wait-Moves now n = ground arith
  wait-Moves later n = ground arith

  notify_push-Moves :
      (k : ℕ) → Watched m l f o lv wk → Keeps gen l f o l' f' o' lv wk (notify_push k m)
  unfolding notify_push
  notify_push-Moves k n = ground arith

  submit_notifs-Moves :
      (s r : ℕ)
      → Watched m l f o lv (wk + bit (has_waiters s))
      → Keeps gen l f o l' f' o' lv wk (submit_notifs s r m)
  unfolding submit_notifs
  submit_notifs-Moves s r n = ground arith

  flag_notifs-Moves : Watched m l f o lv wk → Keeps gen l f o l' f' o' lv wk (flag_notifs m)
  unfolding flag_notifs
  flag_notifs-Moves n = ground arith

  -- Every step of every thread, whatever the others are doing.
  pub advance-Moves :
      (ch : Choice) (pc : Pc)
      → m.cycles + 1 < 2 ^ 32
      → l' ≤ l
      → f' ≤ l
      → o' ≤ o + f
      → Watched m
          (l + late gen pc)
          (f + fresh gen pc)
          (o + stale gen pc)
          (lv + will_wake pc)
          (wk + waking pc)
      → Keeps gen l f o l' f' o' lv wk (advance ch pc m)
  unfolding advance
  advance-Moves call_enter idle few hl hf ho n = enter-Moves (ground arith)
  advance-Moves call_leave idle few hl hf ho n = leave-Moves few hl hf ho (ground arith)
  advance-Moves (call_wait t) idle few hl hf ho n = wait-Moves t (ground arith)
  advance-Moves (call_notify k) idle few hl hf ho n = notify_push-Moves k (ground arith)
  advance-Moves proceed idle few hl hf ho n = tt
  advance-Moves time_out idle few hl hf ho n = tt
  advance-Moves spurious idle few hl hf ho n = tt
  advance-Moves ch enter_retain few hl hf ho n = ground arith
  advance-Moves ch (leave_loop old) few hl hf ho n = leave_round-Moves old (ground arith)
  advance-Moves ch (wake_notifs s r) few hl hf ho n = submit_notifs-Moves s r (ground arith)
  advance-Moves ch (wake_waiters s r) few hl hf ho n = ground arith
  advance-Moves ch (release r) few hl hf ho n = ground arith
  advance-Moves ch (compare w) few hl hf ho n = ground arith
  advance-Moves ch (parked w) few hl hf ho n = ground arith
  advance-Moves ch (check w b) few hl hf ho n = ground arith
  advance-Moves ch (waited b) few hl hf ho n = ground arith
  advance-Moves ch notify_retain few hl hf ho n = ground arith
  advance-Moves ch notify_flag few hl hf ho n = flag_notifs-Moves (ground arith)
