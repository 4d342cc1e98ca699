-- ===== src/Once/Advancing.antt =====
-- The accesses that come after the broadcast of dispatch_once, and every access together.
use book.Base.{ℕ, ◌≡◌, Bool, true, refl, arith, if-elim, leb, sub64}
use book.Lock.{lock_value_from_tid, is_locked_by}
use book.Once.{
  Memory, Choice, proceed, spurious, Pc, idle, trying, callout, inside, broadcast, broadcast_slow,
  waiting, sleep, parked, quiescing, mark_done, returned, gate_broadcast_slow, mark_if_quiesced,
  once_done, make_gen, gen_safe_delta, advance,
}
use book.Once.Weights.{started, owns, called, ended, after, slow, asleep, unmarked, alien, nameless}
use book.Once.Moves.{
  Tally, Settled, fresh, locked, settled, Holds, Ordered, Woken, with_thread, Kept, thread_at,
}
use book.Once.Phases.{Eases, ease, rest}
use book.Once.Accesses.{load-Kept, gate_tryenter-Kept, call-Kept, finish-Kept, gate_broadcast-Kept}
use book.Once.Sleeping.{wait_round-Kept, lock_wait-Kept, wake-Kept}

module _ (q : Bool) (others : Tally) (ord : Ordered others) (tid : ℕ) (m : Memory) where
  -- The broadcast wakes all who slept, and its own thread returns.
  Woken-Settled :
      (cur : ℕ) (woke : Tally)
      → Woken others woke
      → Settled q m (with_thread others tid (broadcast_slow cur))
      → Settled q m (with_thread woke tid returned)
  unfolding owns slow asleep
  Woken-Settled cur woke k s = ground arith

  Woken-Holds :
      (cur : ℕ) (woke : Tally)
      → Woken others woke
      → Holds q m (with_thread others tid (broadcast_slow cur))
      → Holds q m (with_thread woke tid returned)
  unfolding unmarked alien nameless started after
  Woken-Holds cur woke k h = record {
    word = h.word;
    marked = ground arith;
    mine = ground arith;
    tids = ground arith;
    phase = elim h.phase [
      | fresh f ↦ absurd (ground arith)
      | locked l ↦ absurd (ground arith)
      | settled s ↦ settled (Woken-Settled cur woke k s)
    ];
  }

  -- It never finds the lock another's.
  pub slow_mine :
      (cur : ℕ)
      → Holds q m (with_thread others tid (broadcast_slow cur))
      → is_locked_by cur (lock_value_from_tid tid) ≡ true
  unfolding alien
  slow_mine cur h = ground arith

  gate_broadcast_slow-Kept :
      (cur : ℕ)
      → Holds q m (with_thread others tid (broadcast_slow cur))
      → Kept q others tid (gate_broadcast_slow (lock_value_from_tid tid) cur m)
  unfolding gate_broadcast_slow
  gate_broadcast_slow-Kept cur h =
      if-elim (Kept q others tid) (is_locked_by cur (lock_value_from_tid tid))
        (λ e woke k. Woken-Holds cur woke k h) (λ e. tt)

  quiescing-mark_done : (gen : ℕ) → Eases (thread_at tid (quiescing gen)) (thread_at tid mark_done)
  unfolding started owns called ended after slow asleep
  quiescing-mark_done gen = ground arith

  quiescing-returned : (gen : ℕ) → Eases (thread_at tid (quiescing gen)) (thread_at tid returned)
  unfolding started owns called ended after slow asleep
  quiescing-returned gen = ground arith

  mark_if_quiesced-Kept :
      (gen : ℕ)
      → Holds q m (with_thread others tid (quiescing gen))
      → Kept q others tid (mark_if_quiesced gen m)
  unfolding mark_if_quiesced unmarked alien
  mark_if_quiesced-Kept gen h =
      if-elim (Kept q others tid) (leb gen_safe_delta (sub64 (make_gen m.counter) gen))
        (λ e.
          rest q others tid m (quiescing gen) mark_done m h.word refl refl h
            (ease q others tid m (quiescing gen) mark_done (quiescing-mark_done gen) h.phase))
        (λ e.
          rest q others tid m (quiescing gen) returned m h.word refl refl h
            (ease q others tid m (quiescing gen) returned (quiescing-returned gen) h.phase))

  done-Settled :
      Settled q m (with_thread others tid mark_done)
      → Settled q (record m { once = once_done }) (with_thread others tid returned)
  unfolding owns slow asleep
  done-Settled s = ground arith

  mark_done-Kept :
      Holds q m (with_thread others tid mark_done)
      → Holds q (record m { once = once_done }) (with_thread others tid returned)
  unfolding started after unmarked alien
  mark_done-Kept h =
      rest q others tid m mark_done returned (record m { once = once_done }) (omega arith) refl refl
        h
        (elim h.phase [
          | fresh f ↦ absurd (ground arith)
          | locked l ↦ absurd (ground arith)
          | settled s ↦ settled (done-Settled s)
        ])

  returned-idle : Eases (thread_at tid returned) (thread_at tid idle)
  unfolding started owns called ended after slow asleep
  returned-idle = ground arith

  leave-Kept : Holds q m (with_thread others tid returned) → Holds q m (with_thread others tid idle)
  unfolding unmarked alien
  leave-Kept h =
      rest q others tid m returned idle m h.word refl refl h
        (ease q others tid m returned idle returned-idle h.phase)

  -- Every access of any thread keeps the invariant.
  pub advance-Kept :
      (c : Choice) (pc : Pc)
      → Holds q m (with_thread others tid pc)
      → Kept q others tid (advance q c (lock_value_from_tid tid) pc m)
  unfolding advance
  advance-Kept proceed idle h = load-Kept q others ord tid m h
  advance-Kept proceed trying h = gate_tryenter-Kept q others ord tid m h
  advance-Kept proceed callout h = call-Kept q others ord tid m h
  advance-Kept proceed inside h = finish-Kept q others ord tid m h
  advance-Kept proceed broadcast h = gate_broadcast-Kept q others ord tid m h
  advance-Kept proceed (broadcast_slow cur) h = gate_broadcast_slow-Kept cur h
  advance-Kept proceed waiting h = wait_round-Kept q others ord tid m h
  advance-Kept proceed (sleep value) h = lock_wait-Kept q others ord tid m value h
  advance-Kept proceed (parked value) h = tt
  advance-Kept proceed (quiescing gen) h = mark_if_quiesced-Kept gen h
  advance-Kept proceed mark_done h = mark_done-Kept h
  advance-Kept proceed returned h = leave-Kept h
  advance-Kept spurious idle h = tt
  advance-Kept spurious trying h = tt
  advance-Kept spurious callout h = tt
  advance-Kept spurious inside h = tt
  advance-Kept spurious broadcast h = tt
  advance-Kept spurious (broadcast_slow cur) h = tt
  advance-Kept spurious waiting h = tt
  advance-Kept spurious (sleep value) h = tt
  advance-Kept spurious (parked value) h = wake-Kept q others ord tid m value h
  advance-Kept spurious (quiescing gen) h = tt
  advance-Kept spurious mark_done h = tt
  advance-Kept spurious returned h = tt
