-- ===== src/Group/Safety.antt =====
-- What holds of a dispatch group in every state that any interleaving reaches before the group has
-- emptied 2^32 - 1 times, which is when the 32-bit generation in its word would come round again.
use book.Base.{
  ℕ, ◌+◌, ◌-◌, ◌^◌, ◌<◌, ◌≡◌, ◌≢◌, ◌⊎◌, ◌↔◌, true, some, [], ◌++◌, get_elem?, arith, total,
  total-zero, le-total,
}
use mathlib.Core.List.{append-nil}
use book.Group.Word.{dg_bits, dg_gen, masked_value, dg_state_value, has_waiters, has_notifs}
use book.Group.{
  Pc, idle, parked, check, waited, Choice, now, later, call_enter, call_leave, call_wait,
  call_notify, Memory, next, crash, enter, leave, advance, System, Reach,
}
use book.Group.Notices.{bit, carries, nonempty}
use book.Group.References.{owed, pending}
use book.Group.Settling.{committed}
use book.Group.Waiters.{stale, will_wake, waking, late, fresh}
use book.Group.Invariant.{Inv, Reach-Inv}

module _ {n : ℕ} {s : System} (r : Reach n s) (few : s.mem.cycles + 1 < 2 ^ 32) where
  -- In every state that any interleaving of n threads reaches before the group has emptied
  -- 2^32 - 1 times, the value that the debug accessor decodes is the number of enters not yet left,
  -- and the generation is the number of times that the last one was.
  pub state_decodes :
      (dg_state_value s.mem.state ≡ s.mem.outstanding) × (dg_gen s.mem.state ≡ s.mem.cycles)
  unfolding dg_state_value
  state_decodes = ground (arith, (Reach-Inv r few).counted)

  -- In every state that any interleaving of n threads reaches before the group has emptied
  -- 2^32 - 1 times, enter crashes exactly when 2^30 - 1 enters are outstanding, and leave exactly
  -- when none is.
  pub crash_iff :
      ((enter s.mem ≡ crash) ↔ (s.mem.outstanding ≡ 2 ^ 30 - 1))
      × ((leave s.mem ≡ crash) ↔ (s.mem.outstanding ≡ 0))
  unfolding enter leave
  crash_iff =
      let c = (Reach-Inv r few).counted in
      ((λ e. ground arith, λ e. ground arith), (λ e. ground arith, λ e. ground arith))

  -- No lost wakeup before the group has emptied 2^32 - 1 times: in every state that any interleaving of
  -- n threads reaches before then, a thread that sleeps on a generation either sleeps on the current
  -- one, and then the group is not empty and its word says that there are waiters; or on an older one,
  -- and then some thread is about to wake it.
  pub no_sleeper_forgotten :
      (i gen : ℕ)
      → get_elem? s.threads i ≡ some (parked gen)
      → ((gen ≡ dg_gen s.mem.state) × (0 < s.mem.outstanding) × (has_waiters s.mem.state ≡ true))
        ⊎ ((gen < dg_gen s.mem.state) × (0 < total will_wake s.threads + total waking s.threads))
  no_sleeper_forgotten i gen at =
      let inv = Reach-Inv r few in
      let g = dg_gen s.mem.state in
      ground (
        arith,
        inv.counted,
        inv.watched,
        le-total (late g) s.threads i (parked gen) at,
        le-total (fresh g) s.threads i (parked gen) at,
        le-total (stale g) s.threads i (parked gen) at,
      )

  -- In every state that any interleaving of n threads reaches before the group has emptied
  -- 2^32 - 1 times, the notifications asked for are those submitted followed by those listed, and a
  -- list that is not empty has exactly one to answer for it: the bit in the word, or one thread.
  pub notified_once :
      (s.mem.submitted ++ s.mem.notify ≡ s.mem.pushed)
      × (bit (has_notifs s.mem.state) + total carries s.threads ≡ nonempty s.mem.notify)
  notified_once = ((Reach-Inv r few).noticed.order, (Reach-Inv r few).noticed.one)

quiet_at :
    (s : System)
    → Inv s
    → total carries s.threads ≡ 0
    → total owed s.threads ≡ 0
    → total pending s.threads ≡ 0
    → total committed s.threads ≡ 0
    → s.mem.outstanding ≡ 0
    → (dg_bits s.mem.state ≡ 0)
      × (s.mem.notify ≡ [])
      × (s.mem.submitted ≡ s.mem.pushed)
      × (s.mem.retains ≡ s.mem.releases)
      × (s.mem.queue_retains ≡ s.mem.queue_releases)
quiet_at s inv ca ow pe co out =
    let bits : dg_bits s.mem.state ≡ 0 = ground (arith, inv.counted, inv.settling) in
    let none_left : s.mem.notify ≡ [] = ground (arith, inv.noticed) in
    (
      bits,
      none_left,
      ground (arith, inv.noticed, append-nil s.mem.submitted),
      ground (arith, inv.referenced),
      ground (arith, inv.noticed),
    )

-- A thread inside one of the calls.
abbrev pub inside : Pc → ℕ
inside idle = 0
inside _ = 1

module _ {n : ℕ} {s : System} (r : Reach n s) (few : s.mem.cycles + 1 < 2 ^ 32) where
  outside :
      (w : Pc → ℕ)
      → ((pc : Pc) → inside pc ≡ 0 → w pc ≡ 0)
      → total inside s.threads ≡ 0
      → total w s.threads ≡ 0
  outside w h = total-zero inside w s.threads h

  -- In every state that any interleaving of n threads reaches before the group has emptied
  -- 2^32 - 1 times, where no thread is inside a call and no enter is outstanding, the value and both
  -- flags are 0, every notification asked for has been submitted, once and in order, and every reference
  -- that the code took to the group or to a queue has been given back.
  pub quiet_group :
      total inside s.threads ≡ 0
      → s.mem.outstanding ≡ 0
      → (dg_bits s.mem.state ≡ 0)
        × (s.mem.notify ≡ [])
        × (s.mem.submitted ≡ s.mem.pushed)
        × (s.mem.retains ≡ s.mem.releases)
        × (s.mem.queue_retains ≡ s.mem.queue_releases)
  quiet_group quiet empty =
      quiet_at s (Reach-Inv r few) (outside carries (λ pc. ground arith) quiet)
        (outside owed (λ pc. ground arith) quiet) (outside pending (λ pc. ground arith) quiet)
        (outside committed (λ pc. ground arith) quiet) empty

-- What a return of 0 from dispatch_group_wait says of the memory, by where the thread comes from.
abbrev pub Emptied : Memory → Pc → Type 0
Emptied m idle = masked_value m.state ≡ 0
Emptied m (check gen timed_out) = gen ≢ dg_gen m.state
Emptied m _ = ⊥

-- dispatch_group_wait returns 0 only at its entry, when the value is 0, or after a sleep, when the
-- generation is no longer the one that the thread copied.
wait_returns :
    (c : Choice) (pc : Pc) (m m' : Memory) → advance c pc m ≡ next m' (waited true) → Emptied m pc
unfolding advance
wait_returns call_enter idle m m' e = absurd (ground arith)
wait_returns call_leave idle m m' e = absurd (ground arith)
wait_returns (call_wait now) idle m m' e = ground arith
wait_returns (call_wait later) idle m m' e = ground arith
wait_returns (call_notify k) idle m m' e = absurd (ground arith)
wait_returns c (check gen b) m m' e = λ h. ground arith
wait_returns c pc m m' e = absurd (ground arith)
