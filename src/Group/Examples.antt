-- ===== src/Group/Examples.antt =====
-- Runs of a dispatch group: a schedule picks the thread and what it does, a step at a time.
use mathlib.Core.List.{foldl}
use book.Base.{
  ℕ, ◌+◌, ◌-◌, ◌^◌, ◌<◌, ◌≡◌, ◌⊎◌, ◌↔◌, refl, true, Option, none, some, List, [], ◌∷◌, ◌++◌,
  get_elem?, arith, total,
}
use book.Group.Word.{dg_gen, dg_bits, dg_state_value, has_waiters, has_notifs}
use book.Group.{
  Pc, Choice, later, call_enter, call_leave, call_wait, call_notify, proceed, Outcome, next,
  wake_all, crash, blocked, enter, leave, advance, System, run, wake, Reach, start, step, created,
}
use book.Group.Notices.{bit, carries, nonempty}
use book.Group.Waiters.{will_wake, waking}
use book.Group.Lifecycle.{may_dispose_group, group_dispose_iff}
use book.Group.Safety.{state_decodes, crash_iff, no_sleeper_forgotten, notified_once, quiet_group}

pub record Trace (n : ℕ) : Type 0 where
  pub last : System
  pub reach : Reach n last

act :
    {n : ℕ} (t : Trace n) (i : ℕ) (c : Choice) (pc : Pc)
    → get_elem? t.last.threads i ≡ some pc
    → (o : Outcome) → advance c pc t.last.mem ≡ o
    → Trace n
act t i c pc at (next m pc') e = record { last = _; reach = step t.reach (run i c pc pc' m at e) }
act t i c pc at (wake_all m pc') e = record {
  last = _;
  reach = step t.reach (wake i c pc pc' m at e);
}
act t i c pc at crash e = t
act t i c pc at blocked e = t

pick :
    {n : ℕ} (t : Trace n) (i : ℕ) (c : Choice) (o : Option Pc)
    → get_elem? t.last.threads i ≡ o
    → Trace n
unfolding act
pick t i c none at = t
pick t i c (some pc) at = act t i c pc at (advance c pc t.last.mem) refl

turn : {n : ℕ} → Trace n → ℕ × Choice → Trace n
unfolding pick
turn t (i, c) = pick t i c (get_elem? t.last.threads i) refl

trace : (n : ℕ) → List (ℕ × Choice) → Trace n
unfolding turn advance
trace n = foldl turn (record { last = created n; reach = start })

-- Thread 0 enters, thread 1 waits and sleeps.
abbrev sleeping : Trace 2
sleeping = trace 2 ((0, call_enter) ∷ (0, proceed) ∷ (1, call_wait later) ∷ (1, proceed) ∷ [])

-- Thread 0 enters, asks for two notifications, leaves, and goes through the wake.
abbrev notified : Trace 1
notified = trace 1 (
    (0, call_enter)
    ∷ (0, proceed)
    ∷ (0, call_notify 7)
    ∷ (0, proceed)
    ∷ (0, proceed)
    ∷ (0, call_notify 8)
    ∷ (0, call_leave)
    ∷ (0, proceed)
    ∷ (0, proceed)
    ∷ (0, proceed)
    ∷ (0, proceed)
    ∷ [])

state_decodes_example : (dg_state_value 0xfffffffd ≡ 1) × (dg_gen 0xfffffffd ≡ 0)
unfolding trace
state_decodes_example = state_decodes sleeping.reach (omega arith)

crash_iff_example :
    ((enter sleeping.last.mem ≡ crash) ↔ (sleeping.last.mem.outstanding ≡ 2 ^ 30 - 1))
    × ((leave sleeping.last.mem ≡ crash) ↔ (sleeping.last.mem.outstanding ≡ 0))
unfolding trace
crash_iff_example = crash_iff sleeping.reach (omega arith)

no_sleeper_forgotten_example :
    ((0 ≡ dg_gen sleeping.last.mem.state)
      × (0 < sleeping.last.mem.outstanding)
      × (has_waiters sleeping.last.mem.state ≡ true))
    ⊎ ((0 < dg_gen sleeping.last.mem.state)
        × (0 < total will_wake sleeping.last.threads + total waking sleeping.last.threads))
unfolding trace
no_sleeper_forgotten_example = no_sleeper_forgotten sleeping.reach (omega arith) 1 0 refl

notified_once_example :
    (notified.last.mem.submitted ++ notified.last.mem.notify ≡ 7 ∷ 8 ∷ [])
    × (bit (has_notifs notified.last.mem.state) + total carries notified.last.threads
        ≡ nonempty notified.last.mem.notify)
unfolding trace
notified_once_example = notified_once notified.reach (omega arith)

quiet_group_example :
    (dg_bits notified.last.mem.state ≡ 0)
    × (notified.last.mem.notify ≡ [])
    × (notified.last.mem.submitted ≡ notified.last.mem.pushed)
    × (notified.last.mem.retains ≡ notified.last.mem.releases)
    × (notified.last.mem.queue_retains ≡ notified.last.mem.queue_releases)
unfolding trace total
quiet_group_example = quiet_group notified.reach (omega arith) refl refl

group_dispose_iff_example :
    (may_dispose_group notified.last.mem ≡ true) ↔ (notified.last.mem.outstanding ≡ 0)
unfolding trace total
group_dispose_iff_example = group_dispose_iff notified.reach (omega arith) refl
