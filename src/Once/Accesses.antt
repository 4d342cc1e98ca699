-- ===== src/Once/Accesses.antt =====
-- Each access of dispatch_once keeps the invariant.
use book.Base.{ℕ, ◌+◌, ◌/◌, ◌%◌, ◌<◌, ◌^◌, ◌≡◌, ◌⊎◌, Bool, true, refl, arith, if-elim, ◌==◌, ◌&&◌}
use book.Lock.{lock_value_from_tid}
use book.Once.{
  Memory, idle, trying, callout, inside, broadcast, broadcast_slow, waiting, quiescing, returned,
  next, load, gate_tryenter, gate_broadcast, once_done, once_unlocked, new_once, is_gen,
}
use book.Once.Weights.{
  started, owns, called, ended, after, slow, asleep, foreign, unmarked, alien, nameless,
}
use book.Once.Moves.{
  Tally, Fresh, Locked, Settled, fresh, locked, settled, Holds, Ordered, with_thread, Kept,
  thread_at,
}
use book.Once.Phases.{Eases, ease, stand, rest}

-- What is exchanged in is a word, and a mark of the settled gate.
pub new_once-mark :
    (q : Bool) (m : Memory)
    → ((new_once q m ≡ once_done) ⊎ ((q ≡ true) × (new_once q m % 4 ≡ 2))) × (new_once q m < 2 ^ 64)
new_once-mark q m = ground arith

module _ (q : Bool) (others : Tally) (ord : Ordered others) (tid : ℕ) (m : Memory) where
  load-Fresh : Fresh m (with_thread others tid idle) → load q m ≡ next m trying
  unfolding load
  load-Fresh f = ground arith

  load-Locked : Locked m (with_thread others tid idle) → load q m ≡ next m trying
  unfolding load
  load-Locked l = ground arith

  idle-trying : Eases (thread_at tid idle) (thread_at tid trying)
  unfolding started owns called ended after slow asleep
  idle-trying = ground arith

  pub load-Kept : Holds q m (with_thread others tid idle) → Kept q others tid (load q m)
  unfolding owns slow asleep unmarked alien
  load-Kept h =
      let tries =
        rest q others tid m idle trying m h.word refl refl h
          (ease q others tid m idle trying idle-trying h.phase) in
      elim h.phase [
        | fresh f ↦ rw (load-Fresh f) tries
        | locked l ↦ rw (load-Locked l) tries
        | settled s ↦
            unfold load in
            if-elim (Kept q others tid) (m.once == once_done)
              (λ e.
                rest q others tid m idle returned m h.word refl refl h
                  (stand q others tid m idle returned (ground arith) s))
              (λ e.
                if-elim (Kept q others tid) (q && is_gen m.once)
                  (λ g.
                    rest q others tid m idle (quiescing m.once) m h.word refl refl h
                      (stand q others tid m idle (quiescing m.once) (ground arith) s))
                  (λ g. tries))
      ]

  -- Who enters first gives the word its name.
  enter-Locked :
      Holds q m (with_thread others tid trying)
      → Fresh m (with_thread others tid trying)
      → Locked (record m { once = lock_value_from_tid tid }) (with_thread others tid callout)
  unfolding started owns called ended after asleep foreign nameless
  enter-Locked h f = ground (arith, ord.foreign_owns (lock_value_from_tid tid / 4))

  trying-waiting :
      Locked m (with_thread others tid trying) → Locked m (with_thread others tid waiting)
  unfolding owns called ended after asleep foreign
  trying-waiting l = ground arith

  pub gate_tryenter-Kept :
      Holds q m (with_thread others tid trying)
      → Kept q others tid (gate_tryenter (lock_value_from_tid tid) m)
  unfolding gate_tryenter started owns called ended after slow asleep unmarked alien nameless
  gate_tryenter-Kept h =
      if-elim (Kept q others tid) (m.once == once_unlocked)
        (λ e. elim h.phase [
          | fresh f ↦
              rest q others tid m trying callout (record m { once = lock_value_from_tid tid })
                (ground arith) refl refl h (locked (enter-Locked h f))
          | locked l ↦ absurd (ground arith)
          | settled s ↦ absurd (ground arith)
        ])
        (λ e. rest q others tid m trying waiting m h.word refl refl h (elim h.phase [
          | fresh f ↦ absurd (ground arith)
          | locked l ↦ locked (trying-waiting l)
          | settled s ↦ stand q others tid m trying waiting (ground arith) s
        ]))

  call-Locked :
      Locked m (with_thread others tid callout)
      → Locked (record m { runs = m.runs + 1 }) (with_thread others tid inside)
  unfolding owns called ended after asleep foreign
  call-Locked l = ground arith

  pub call-Kept :
      Holds q m (with_thread others tid callout)
      → Holds q (record m { runs = m.runs + 1 }) (with_thread others tid inside)
  unfolding started owns unmarked alien
  call-Kept h =
      rest q others tid m callout inside (record m { runs = m.runs + 1 }) h.word refl refl h
        (elim h.phase [
          | fresh f ↦ absurd (ground arith)
          | locked l ↦ locked (call-Locked l)
          | settled s ↦ absurd (ground arith)
        ])

  finish-Locked :
      Locked m (with_thread others tid inside)
      → Locked (record m { finished = m.finished + 1 }) (with_thread others tid broadcast)
  unfolding owns called ended after asleep foreign
  finish-Locked l = ground arith

  pub finish-Kept :
      Holds q m (with_thread others tid inside)
      → Holds q (record m { finished = m.finished + 1 }) (with_thread others tid broadcast)
  unfolding started owns unmarked alien
  finish-Kept h =
      rest q others tid m inside broadcast (record m { finished = m.finished + 1 }) h.word refl refl
        h
        (elim h.phase [
          | fresh f ↦ absurd (ground arith)
          | locked l ↦ locked (finish-Locked l)
          | settled s ↦ absurd (ground arith)
        ])

  -- Whatever is exchanged in, the broadcast settles the gate. The word is the owner's alone only if
  -- nobody has asked to be woken.
  quick-Settled :
      (w : ℕ)
      → (w ≡ once_done) ⊎ ((q ≡ true) × (w % 4 ≡ 2))
      → (m.once % 2 ^ 32 == lock_value_from_tid tid) ≡ true
      → Locked m (with_thread others tid broadcast)
      → Settled q (record m { once = w }) (with_thread others tid returned)
  unfolding owns called ended after asleep slow foreign
  quick-Settled w u e l = ground (arith, ord.called_owns, ord.ended_owns)

  slow-Settled :
      (w : ℕ)
      → (w ≡ once_done) ⊎ ((q ≡ true) × (w % 4 ≡ 2))
      → Locked m (with_thread others tid broadcast)
      → Settled q
          (record m { once = w })
          (with_thread others tid (broadcast_slow (m.once % 2 ^ 32)))
  unfolding owns called ended after asleep slow foreign
  slow-Settled w u l = ground (arith, ord.called_owns, ord.ended_owns)

  pub gate_broadcast-Kept :
      Holds q m (with_thread others tid broadcast)
      → Kept q others tid (gate_broadcast q (lock_value_from_tid tid) m)
  unfolding gate_broadcast started owns unmarked alien foreign
  gate_broadcast-Kept h = elim h.phase [
    | fresh f ↦ absurd (ground arith)
    | locked l ↦
        if-elim (Kept q others tid) (m.once % 2 ^ 32 == lock_value_from_tid tid)
          (λ e.
            rest q others tid m broadcast returned (record m { once = new_once q m })
              (new_once-mark q m).1 refl refl h
              (settled (quick-Settled (new_once q m) (new_once-mark q m).0 e l)))
          (λ e.
            rest q others tid m broadcast (broadcast_slow (m.once % 2 ^ 32))
              (record m { once = new_once q m }) (new_once-mark q m).1 refl (ground arith) h
              (settled (slow-Settled (new_once q m) (new_once-mark q m).0 l)))
    | settled s ↦ absurd (ground arith)
  ]
