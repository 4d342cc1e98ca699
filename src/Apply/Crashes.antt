-- ===== src/Apply/Crashes.antt =====
-- The crashes of dispatch_apply's event ("Corrupt thread event value", and the assertion of its
-- destruction) are never reached.
use book.Base.{ℕ, ◌+◌, ◌≡◌, ◌≢◌, some, get_elem?, total, total-remove, refl, total-add, arith}
use book.Apply.{
  Choice, proceed, spurious, Pc, start, calling, again, finish, signal, waking, wait, wait_slow,
  sleep, parked, destroy, leave, freeing, gone, crash, advance, Thread, System, Reach, take_index,
  call_back, lower_todo, event_signal, event_wait, event_wait_slow, ulock_wait, event_destroy,
  lower_thr_cnt,
}
use book.Apply.Weights.{waiter, waited, through, stray, waited-le}
use book.Apply.Invariant.{Inv, Sized, Reach-Inv}

module _ (iter n : ℕ) (s : System) (inv : Inv iter n s) (i : ℕ) (t : Thread)
    (at : get_elem? s.threads i ≡ some t) where
  -- Nobody but the caller has lowered the event's value.
  alone : waited t ≡ 1 → stray t ≡ 0 → waiter t ≡ 1 → total waited s.threads ≡ 1
  alone e z w = omega (
    arith,
    inv.counts.one_waiter,
    inv.counts.strays,
    total-add waited waiter stray s.threads waited-le,
    total-remove waited s.threads i t at,
  )

  slow_goes_on : t.pc ≡ wait_slow → event_wait_slow s.mem ≢ crash
  unfolding event_wait_slow waited stray waiter
  slow_goes_on pc h = ground (arith, alone, inv.counts, total-remove stray s.threads i t at)

  destroy_goes_on : t.pc ≡ destroy → event_destroy s.mem ≢ crash
  unfolding event_destroy waited stray waiter through
  destroy_goes_on pc h = ground (
    arith,
    alone,
    inv.counts,
    total-remove stray s.threads i t at,
    total-remove through s.threads i t at,
  )

  pub goes_on : (c : Choice) (pc : Pc) → t.pc ≡ pc → advance iter c t.waits pc s.mem ≢ crash
  unfolding advance
  goes_on proceed start e = unfold take_index in λ h. ground arith
  goes_on proceed (calling idx done) e = unfold call_back in λ h. ground arith
  goes_on proceed (again done) e = unfold take_index in λ h. ground arith
  goes_on proceed (finish done) e = unfold lower_todo in λ h. ground arith
  goes_on proceed signal e = unfold event_signal in λ h. ground arith
  goes_on proceed waking e = λ h. ground arith
  goes_on proceed wait e = unfold event_wait in λ h. ground arith
  goes_on proceed wait_slow e = slow_goes_on e
  goes_on proceed sleep e = unfold ulock_wait in λ h. ground arith
  goes_on proceed parked e = λ h. ground arith
  goes_on proceed destroy e = destroy_goes_on e
  goes_on proceed leave e = unfold lower_thr_cnt in λ h. ground arith
  goes_on proceed freeing e = λ h. ground arith
  goes_on proceed gone e = λ h. ground arith
  goes_on spurious parked e = λ h. ground arith
  goes_on spurious pc e = λ h. ground arith

-- No access of any thread, in any state that an interleaving reaches, comes to a crash, if there is
-- work and the numbers of indices and threads are far from the ends of their types.
apply-ne-crash :
    (iter others : ℕ) (s : System) (i : ℕ) (t : Thread) (c : Choice)
    → Sized iter others
    → Reach iter others s
    → get_elem? s.threads i ≡ some t
    → advance iter c t.waits t.pc s.mem ≢ crash
apply-ne-crash iter others s i t c sized r at =
    goes_on iter (others + 1) s (Reach-Inv sized r) i t at c t.pc refl
