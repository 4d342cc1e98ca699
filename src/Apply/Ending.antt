-- ===== src/Apply/Ending.antt =====
-- Each access to the event and to the thread count of dispatch_apply keeps the invariant.
use book.Base.{ℕ, ◌+◌, ◌-◌, ◌%◌, ◌^◌, ◌≡◌, Bool, true, false, arith, if-elim, ◌==◌}
use book.Apply.{
  Memory, signal, waking, wait, wait_slow, sleep, parked, destroy, leave, freeing, gone, awaited,
  out, event_signal, event_wait, event_wait_slow, ulock_wait, event_destroy, lower_thr_cnt,
}
use book.Apply.Weights.{
  inside, at_index, held, idler, taking, past, signalling, wakes, asleep, waiter, waited, through,
  stray, present, frees,
}
use book.Apply.Moves.{Tally, Counts, Holds, Ordered, with_thread, Kept, Woken}

module _ (iter n : ℕ) (others : Tally) (ord : Ordered others) (waits : Bool) (m : Memory) where
  signal-out :
      (m.value == 0) ≡ true
      → Counts iter n m (with_thread others waits signal)
      → Counts iter n
          (record m { value = (m.value + 1) % 2 ^ 32; signals = m.signals + 1 })
          (with_thread others waits (out waits))
  unfolding inside held idler taking past signalling wakes asleep waiter waited through stray
      present frees
  signal-out e0 h = ground arith

  signal-waking :
      (m.value == 0) ≡ false
      → Counts iter n m (with_thread others waits signal)
      → Counts iter n
          (record m { value = (m.value + 1) % 2 ^ 32; signals = m.signals + 1 })
          (with_thread others waits waking)
  unfolding inside held idler taking past signalling wakes asleep waiter waited through stray
      present frees
  signal-waking e0 h = ground arith

  pub signal-Kept :
      Holds iter n m (with_thread others waits signal)
      → Kept iter n others waits (event_signal waits m)
  unfolding event_signal at_index
  signal-Kept h =
      if-elim (Kept iter n others waits) (m.value == 0)
        (λ e. record { counts = signal-out e h.counts; each = λ k. ground (arith, h.each k) })
        (λ e. record { counts = signal-waking e h.counts; each = λ k. h.each k })

  waking-Woken :
      (woke : Tally)
      → Woken others woke
      → Counts iter n m (with_thread others waits waking)
      → Counts iter n m (with_thread woke waits (out waits))
  unfolding inside held idler taking past signalling wakes asleep waiter waited through stray
      present frees
  waking-Woken woke k h = ground arith

  pub waking-Kept :
      Holds iter n m (with_thread others waits waking)
      → (woke : Tally) → Woken others woke
      → Holds iter n m (with_thread woke waits (out waits))
  unfolding at_index
  waking-Kept h woke k = record {
    counts = waking-Woken woke k h.counts;
    each = λ j. ground (arith, h.each j, k.s_at_index j);
  }

  wait-destroy :
      ((m.value + awaited) % 2 ^ 32 == 0) ≡ true
      → Counts iter n m (with_thread others waits wait)
      → Counts iter n
          (record m { value = (m.value + awaited) % 2 ^ 32 })
          (with_thread others waits destroy)
  unfolding inside held idler taking past signalling wakes asleep waiter waited through stray
      present frees
  wait-destroy e0 h = ground arith

  wait-slow :
      ((m.value + awaited) % 2 ^ 32 == 0) ≡ false
      → Counts iter n m (with_thread others waits wait)
      → Counts iter n
          (record m { value = (m.value + awaited) % 2 ^ 32 })
          (with_thread others waits wait_slow)
  unfolding inside held idler taking past signalling wakes asleep waiter waited through stray
      present frees
  wait-slow e0 h = ground arith

  pub wait-Kept :
      Holds iter n m (with_thread others waits wait) → Kept iter n others waits (event_wait m)
  unfolding event_wait at_index
  wait-Kept h =
      if-elim (Kept iter n others waits) ((m.value + awaited) % 2 ^ 32 == 0)
        (λ e. record { counts = wait-destroy e h.counts; each = λ k. h.each k })
        (λ e. record { counts = wait-slow e h.counts; each = λ k. h.each k })

  slow-destroy :
      (m.value == 0) ≡ true
      → Counts iter n m (with_thread others waits wait_slow)
      → Counts iter n m (with_thread others waits destroy)
  unfolding inside held idler taking past signalling wakes asleep waiter waited through stray
      present frees
  slow-destroy e0 h = ground arith

  slow-sleep :
      Counts iter n m (with_thread others waits wait_slow)
      → Counts iter n m (with_thread others waits sleep)
  unfolding inside held idler taking past signalling wakes asleep waiter waited through stray
      present frees
  slow-sleep h = ground arith

  pub wait_slow-Kept :
      Holds iter n m (with_thread others waits wait_slow)
      → Kept iter n others waits (event_wait_slow m)
  unfolding event_wait_slow at_index
  wait_slow-Kept h =
      if-elim (Kept iter n others waits) (m.value == 0)
        (λ e. record { counts = slow-destroy e h.counts; each = λ k. h.each k })
        (λ e.
          if-elim (Kept iter n others waits) (m.value == awaited)
            (λ e. record { counts = slow-sleep h.counts; each = λ k. h.each k }) (λ e. tt))

  sleep-parked :
      (m.value == awaited) ≡ true
      → Counts iter n m (with_thread others waits sleep)
      → Counts iter n m (with_thread others waits parked)
  unfolding inside held idler taking past signalling wakes asleep waiter waited through stray
      present frees
  sleep-parked e0 h = ground arith

  sleep-slow :
      Counts iter n m (with_thread others waits sleep)
      → Counts iter n m (with_thread others waits wait_slow)
  unfolding inside held idler taking past signalling wakes asleep waiter waited through stray
      present frees
  sleep-slow h = ground arith

  pub sleep-Kept :
      Holds iter n m (with_thread others waits sleep) → Kept iter n others waits (ulock_wait m)
  unfolding ulock_wait at_index
  sleep-Kept h =
      if-elim (Kept iter n others waits) (m.value == awaited)
        (λ e. record { counts = sleep-parked e h.counts; each = λ k. h.each k })
        (λ e. record { counts = sleep-slow h.counts; each = λ k. h.each k })

  parked-slow :
      Counts iter n m (with_thread others waits parked)
      → Counts iter n m (with_thread others waits wait_slow)
  unfolding inside held idler taking past signalling wakes asleep waiter waited through stray
      present frees
  parked-slow h = ground arith

  pub parked-Kept :
      Holds iter n m (with_thread others waits parked)
      → Holds iter n m (with_thread others waits wait_slow)
  unfolding at_index
  parked-Kept h = record { counts = parked-slow h.counts; each = λ k. h.each k }

  destroy-leave :
      Counts iter n m (with_thread others waits destroy)
      → Counts iter n m (with_thread others waits leave)
  unfolding inside held idler taking past signalling wakes asleep waiter waited through stray
      present frees
  destroy-leave h = ground arith

  pub destroy-Kept :
      Holds iter n m (with_thread others waits destroy) → Kept iter n others waits (event_destroy m)
  unfolding event_destroy at_index
  destroy-Kept h =
      if-elim (Kept iter n others waits) (m.value == 0)
        (λ e. record { counts = destroy-leave h.counts; each = λ k. h.each k }) (λ e. tt)

  leave-freeing :
      ((m.thr_cnt + 2 ^ 32 - 1) % 2 ^ 32 == 0) ≡ true
      → Counts iter n m (with_thread others waits leave)
      → Counts iter n
          (record m { thr_cnt = (m.thr_cnt + 2 ^ 32 - 1) % 2 ^ 32 })
          (with_thread others waits freeing)
  unfolding inside held idler taking past signalling wakes asleep waiter waited through stray
      present frees
  leave-freeing e0 h = ground arith

  leave-gone :
      ((m.thr_cnt + 2 ^ 32 - 1) % 2 ^ 32 == 0) ≡ false
      → Counts iter n m (with_thread others waits leave)
      → Counts iter n
          (record m { thr_cnt = (m.thr_cnt + 2 ^ 32 - 1) % 2 ^ 32 })
          (with_thread others waits gone)
  unfolding inside held idler taking past signalling wakes asleep waiter waited through stray
      present frees
  leave-gone e0 h = ground arith

  pub leave-Kept :
      Holds iter n m (with_thread others waits leave) → Kept iter n others waits (lower_thr_cnt m)
  unfolding lower_thr_cnt at_index
  leave-Kept h =
      if-elim (Kept iter n others waits) ((m.thr_cnt + 2 ^ 32 - 1) % 2 ^ 32 == 0)
        (λ e. record { counts = leave-freeing e h.counts; each = λ k. h.each k })
        (λ e. record { counts = leave-gone e h.counts; each = λ k. h.each k })

  freeing-gone :
      Counts iter n m (with_thread others waits freeing)
      → Counts iter n (record m { freed = m.freed + 1 }) (with_thread others waits gone)
  unfolding inside held idler taking past signalling wakes asleep waiter waited through stray
      present frees
  freeing-gone h = ground arith

  pub freeing-Kept :
      Holds iter n m (with_thread others waits freeing)
      → Holds iter n (record m { freed = m.freed + 1 }) (with_thread others waits gone)
  unfolding at_index
  freeing-Kept h = record { counts = freeing-gone h.counts; each = λ k. h.each k }
