-- ===== src/Once/Sleeping.antt =====
-- The accesses of threads that wait for dispatch_once, and of those that come after.
use book.Base.{ℕ, ◌/◌, ◌%◌, ◌≤◌, ◌^◌, ◌≡◌, Bool, inl, refl, arith, if-elim, ◌==◌, ◌&&◌}
use book.Lock.{lock_value_from_tid, is_locked_by, set_waiters}
use book.Once.{
  Memory, Pc, waiting, sleep, parked, quiescing, returned, wait_round, lock_wait, once_done, is_gen,
}
use book.Once.Weights.{started, owns, called, ended, after, slow, asleep, foreign, unmarked, alien}
use book.Once.Moves.{
  Tally, Locked, Phase, fresh, locked, settled, Holds, Ordered, with_thread, Kept, thread_at,
}
use book.Once.Phases.{Eases, Stands, ease, stand, rest}

module _ (q : Bool) (others : Tally) (ord : Ordered others) (tid : ℕ) (m : Memory) where
  -- Whoever gets past the loop does so in a settled phase.
  leave_loop :
      (pc' : Pc)
      → Stands (thread_at tid waiting) (thread_at tid pc')
      → 2 ≤ m.once % 4
      → Holds q m (with_thread others tid waiting)
      → Phase q m (with_thread others tid pc')
  unfolding started
  leave_loop pc' st marked h = elim h.phase [
    | fresh f ↦ absurd (ground arith)
    | locked l ↦ absurd (ground arith)
    | settled s ↦ stand q others tid m waiting pc' st s
  ]

  sleep-Locked :
      (v : ℕ)
      → Locked m (with_thread others tid waiting)
      → Locked (record m { once = set_waiters m.once }) (with_thread others tid (sleep v))
  unfolding owns called ended after asleep foreign
  sleep-Locked v l =
      let same : set_waiters m.once / 4 ≡ m.once / 4 = ground arith in
      record {
        named = ground arith;
        low = ground arith;
        held = ground arith;
        owner = l.owner;
        own = rw same l.own;
        ran = l.ran;
        over = l.over;
        none_after = l.none_after;
        flagged = inl (ground arith);
      }

  pub wait_round-Kept :
      Holds q m (with_thread others tid waiting)
      → Kept q others tid (wait_round q (lock_value_from_tid tid) m)
  unfolding wait_round started owns slow asleep unmarked alien
  wait_round-Kept h =
      if-elim (Kept q others tid) (m.once == once_done)
        (λ e.
          rest q others tid m waiting returned m h.word refl refl h
            (leave_loop returned (ground arith) (ground arith) h))
        (λ e.
          if-elim (Kept q others tid) (q && is_gen m.once)
            (λ g.
              rest q others tid m waiting (quiescing m.once) m h.word refl refl h
                (leave_loop (quiescing m.once) (ground arith) (ground arith) h))
            (λ g.
              if-elim (Kept q others tid) (is_locked_by (m.once % 2 ^ 32) (lock_value_from_tid tid))
                (λ mine. tt)
                (λ theirs.
                  let v = set_waiters m.once % 2 ^ 32 in
                  rest q others tid m waiting (sleep v) (record m { once = set_waiters m.once })
                    (ground arith) (ground arith) refl h
                    (elim h.phase [
                      | fresh f ↦ absurd (ground arith)
                      | locked l ↦ locked (sleep-Locked v l)
                      | settled s ↦ absurd (ground arith)
                    ]))))

  module _ (v : ℕ) where
    park-Locked :
        m.once % 4 ≡ 1
        → Locked m (with_thread others tid (sleep v))
        → Locked m (with_thread others tid (parked v))
    unfolding owns called ended after asleep foreign
    park-Locked f l = ground arith

    sleep-waiting : Eases (thread_at tid (sleep v)) (thread_at tid waiting)
    unfolding started owns called ended after slow asleep
    sleep-waiting = ground arith

    pub lock_wait-Kept :
        Holds q m (with_thread others tid (sleep v)) → Kept q others tid (lock_wait v m)
    unfolding lock_wait started owns slow asleep unmarked alien
    lock_wait-Kept h =
        if-elim (Kept q others tid) (m.once % 2 ^ 32 == v)
          (λ e. rest q others tid m (sleep v) (parked v) m h.word refl refl h (elim h.phase [
            | fresh f ↦ absurd (ground arith)
            | locked l ↦ locked (park-Locked (ground arith) l)
            | settled s ↦ absurd (ground arith)
          ]))
          (λ e.
            rest q others tid m (sleep v) waiting m h.word refl refl h
              (ease q others tid m (sleep v) waiting sleep-waiting h.phase))

    parked-waiting : Eases (thread_at tid (parked v)) (thread_at tid waiting)
    unfolding started owns called ended after slow asleep
    parked-waiting = ground arith

    pub wake-Kept :
        Holds q m (with_thread others tid (parked v)) → Holds q m (with_thread others tid waiting)
    unfolding unmarked alien
    wake-Kept h =
        rest q others tid m (parked v) waiting m h.word refl refl h
          (ease q others tid m (parked v) waiting parked-waiting h.phase)
