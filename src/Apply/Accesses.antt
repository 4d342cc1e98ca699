-- ===== src/Apply/Accesses.antt =====
-- Each access of dispatch_apply keeps the invariant.
use book.Base.{
  ℕ, ◌+◌, ◌%◌, ◌^◌, ◌≡◌, Bool, true, false, arith, if-elim, ltb, ◌==◌, if◌then◌else◌, sub64,
}
use book.Apply.{
  Memory, start, calling, again, finish, signal, out, take_index, call_back, lower_todo,
}
use book.Apply.Weights.{
  inside, at_index, held, idler, taking, past, signalling, wakes, asleep, waiter, waited, through,
  stray, present, frees,
}
use book.Apply.Moves.{Tally, Counts, Each, Holds, Ordered, with_thread, Kept}

module _ (iter n : ℕ) (others : Tally) (ord : Ordered others) (waits : Bool) (m : Memory) where
  start-calling :
      ltb m.index iter ≡ true
      → Counts iter n m (with_thread others waits start)
      → Counts iter n
          (record m { index = (m.index + 1) % 2 ^ 64 })
          (with_thread others waits (calling m.index 0))
  unfolding inside held idler taking past signalling wakes asleep waiter waited through stray
      present frees
  start-calling e0 h = ground arith

  start-out :
      ltb m.index iter ≡ false
      → Counts iter n m (with_thread others waits start)
      → Counts iter n
          (record m { index = (m.index + 1) % 2 ^ 64 })
          (with_thread others waits (out waits))
  unfolding inside held idler taking past signalling wakes asleep waiter waited through stray
      present frees
  start-out e0 h = ground arith

  start-calling-Each :
      ltb m.index iter ≡ true
      → Holds iter n m (with_thread others waits start)
      → Each iter
          (record m { index = (m.index + 1) % 2 ^ 64 })
          (with_thread others waits (calling m.index 0))
  unfolding at_index taking past
  start-calling-Each e0 h k = ground (arith, h.each k, h.counts)

  start-out-Each :
      ltb m.index iter ≡ false
      → Holds iter n m (with_thread others waits start)
      → Each iter
          (record m { index = (m.index + 1) % 2 ^ 64 })
          (with_thread others waits (out waits))
  unfolding at_index taking past
  start-out-Each e0 h k = ground (arith, h.each k, h.counts)

  pub start-Kept :
      Holds iter n m (with_thread others waits start)
      → Kept iter n others waits (take_index iter m (out waits) (λ idx. calling idx 0))
  unfolding take_index
  start-Kept h =
      if-elim (Kept iter n others waits) (ltb m.index iter)
        (λ e. record { counts = start-calling e h.counts; each = start-calling-Each e h })
        (λ e. record { counts = start-out e h.counts; each = start-out-Each e h })

  module _ (done : ℕ) where
    again-calling :
        ltb m.index iter ≡ true
        → Counts iter n m (with_thread others waits (again done))
        → Counts iter n
            (record m { index = (m.index + 1) % 2 ^ 64 })
            (with_thread others waits (calling m.index done))
    unfolding inside held idler taking past signalling wakes asleep waiter waited through stray
        present frees
    again-calling e0 h = ground arith

    again-finish :
        ltb m.index iter ≡ false
        → Counts iter n m (with_thread others waits (again done))
        → Counts iter n
            (record m { index = (m.index + 1) % 2 ^ 64 })
            (with_thread others waits (finish done))
    unfolding inside held idler taking past signalling wakes asleep waiter waited through stray
        present frees
    again-finish e0 h = ground arith

    again-calling-Each :
        ltb m.index iter ≡ true
        → Holds iter n m (with_thread others waits (again done))
        → Each iter
            (record m { index = (m.index + 1) % 2 ^ 64 })
            (with_thread others waits (calling m.index done))
    unfolding at_index taking past
    again-calling-Each e0 h k = ground (arith, h.each k, h.counts)

    again-finish-Each :
        ltb m.index iter ≡ false
        → Holds iter n m (with_thread others waits (again done))
        → Each iter
            (record m { index = (m.index + 1) % 2 ^ 64 })
            (with_thread others waits (finish done))
    unfolding at_index taking past
    again-finish-Each e0 h k = ground (arith, h.each k, h.counts)

    pub again-Kept :
        Holds iter n m (with_thread others waits (again done))
        → Kept iter n others waits (take_index iter m (finish done) (λ idx. calling idx done))
    unfolding take_index
    again-Kept h =
        if-elim (Kept iter n others waits) (ltb m.index iter)
          (λ e. record { counts = again-calling e h.counts; each = again-calling-Each e h })
          (λ e. record { counts = again-finish e h.counts; each = again-finish-Each e h })

    -- The thread that takes the last calls off signals.
    finish-signal :
        (sub64 m.todo done == 0) ≡ true
        → Counts iter n m (with_thread others waits (finish done))
        → Counts iter n (record m { todo = sub64 m.todo done }) (with_thread others waits signal)
    unfolding inside held idler taking past signalling wakes asleep waiter waited through stray
        present frees
    finish-signal e0 h = ground arith

    finish-out :
        (sub64 m.todo done == 0) ≡ false
        → Counts iter n m (with_thread others waits (finish done))
        → Counts iter n
            (record m { todo = sub64 m.todo done })
            (with_thread others waits (out waits))
    unfolding inside held idler taking past signalling wakes asleep waiter waited through stray
        present frees
    finish-out e0 h = ground arith

    finish-out-Each :
        Holds iter n m (with_thread others waits (finish done))
        → Each iter (record m { todo = sub64 m.todo done }) (with_thread others waits (out waits))
    unfolding at_index
    finish-out-Each h k = ground (arith, h.each k, h.counts)

    pub finish-Kept :
        Holds iter n m (with_thread others waits (finish done))
        → Kept iter n others waits (lower_todo waits done m)
    unfolding lower_todo at_index
    finish-Kept h =
        if-elim (Kept iter n others waits) (sub64 m.todo done == 0)
          (λ e. record { counts = finish-signal e h.counts; each = λ k. h.each k })
          (λ e. record { counts = finish-out e h.counts; each = finish-out-Each h })

  module _ (idx done : ℕ) where
    called : Memory
    called = record m { ended = m.ended + 1; ran = λ k. if k == idx then m.ran k + 1 else m.ran k }

    calling-again :
        Counts iter n m (with_thread others waits (calling idx done))
        → Counts iter n called (with_thread others waits (again (done + 1)))
    unfolding called inside held idler taking past signalling wakes asleep waiter waited through
        stray present frees
    calling-again h = ground arith

    pub calling-Kept :
        Holds iter n m (with_thread others waits (calling idx done))
        → Kept iter n others waits (call_back idx done m)
    unfolding call_back at_index called
    calling-Kept h = record {
      counts = calling-again h.counts;
      each = λ k. ground (arith, h.each k);
    }
