-- ===== src/Unfair/Locking.antt =====
-- The accesses of threads that take the unfair lock keep its invariant.
use book.Base.{
  ℕ, ◌/◌, ◌%◌, ◌≤◌, ◌<◌, ◌^◌, ◌≡◌, true, false, inl, inr, Bool-cases, ◌==◌, if-elim, arith,
}
use book.Lock.{lock_value_from_tid, is_locked, is_locked_by, set_waiters, set_failed_trylock}
use book.Unfair.{
  outside, slow, wait, parked, holding, next, crash, lock, lock_slow, trylock, asleep,
}
use book.Unfair.Weights.{holds, foreign, alien, misnamed, unmarked, nameless, wakes, carries}
use book.Unfair.Moves.{Tally, Owned, Watched, Ordered, with_thread, Kept}

-- Another bit of a locked word leaves its owner.
pub remark :
    (word word' : ℕ) (total : Tally)
    → 4 ≤ word
    → word' / 4 ≡ word / 4
    → word' < 2 ^ 32
    → Owned word total
    → Owned word' total
remark word word' total locked e small o = record {
  small = small;
  owner = elim o.owner [
    | inl (z, n) ↦ absurd (omega arith)
    | inr (four, one, own) ↦ inr (omega arith, one, rw e own)
  ];
  mine = o.mine;
  names = o.names;
  marked = o.marked;
  tids = o.tids;
}

module _ (others : Tally) (ord : Ordered others) (tid word : ℕ) where
  pub lock-Kept :
      Owned word (with_thread others tid outside)
      → Watched word (with_thread others tid outside)
      → Kept others tid (lock (lock_value_from_tid tid) word)
  unfolding lock holds foreign alien misnamed unmarked nameless wakes carries asleep
  lock-Kept o w =
      if-elim (Kept others tid) (word == 0)
        (λ e. (ground (arith, ord (lock_value_from_tid tid / 4)), ground arith))
        (λ e. (ground arith, ground arith))

  pub trylock-Kept :
      Owned word (with_thread others tid outside)
      → Watched word (with_thread others tid outside)
      → Kept others tid (trylock (lock_value_from_tid tid) word)
  unfolding trylock holds foreign alien misnamed unmarked nameless wakes carries asleep
  trylock-Kept o w =
      if-elim (Kept others tid) (is_locked word)
        (λ e. (
          remark word (set_failed_trylock word) (with_thread others tid outside) (ground arith)
              (ground arith) (ground arith) o,
          ground arith,
        ))
        (λ e. (ground (arith, ord (lock_value_from_tid tid / 4)), ground arith))

  module _ (n : ℕ) where
    taken :
        is_locked word ≡ false
        → Owned word (with_thread others tid (slow n))
        → Owned n (with_thread others tid holding)
    unfolding holds foreign alien misnamed unmarked nameless wakes carries asleep
    taken e o = ground (arith, ord (n / 4))

    waits :
        (v : ℕ)
        → v % 2 ≡ 1
        → Owned word (with_thread others tid (slow n))
        → Owned word (with_thread others tid (wait v n))
    unfolding holds foreign alien misnamed unmarked nameless wakes carries asleep
    waits v odd o = ground arith

    -- The three ways of a round.
    round_free :
        is_locked word ≡ false
        → is_locked_by word (lock_value_from_tid tid) ≡ false
        → lock_slow (lock_value_from_tid tid) n word ≡ next n holding
    unfolding lock_slow
    round_free e f = ground arith

    round_locked :
        is_locked word ≡ true
        → is_locked_by word (lock_value_from_tid tid) ≡ false
        → Owned word (with_thread others tid (slow n))
        → lock_slow (lock_value_from_tid tid) n word
          ≡ next (set_waiters word) (wait (set_waiters word) n)
    unfolding lock_slow misnamed
    round_locked e f o = ground arith

    round_mine :
        is_locked_by word (lock_value_from_tid tid) ≡ true
        → lock_slow (lock_value_from_tid tid) n word ≡ crash
    unfolding lock_slow
    round_mine f = ground arith

    taken-Watched :
        is_locked word ≡ false
        → Owned word (with_thread others tid (slow n))
        → Watched word (with_thread others tid (slow n))
        → Watched n (with_thread others tid holding)
    unfolding holds wakes carries asleep
    taken-Watched e o w = ground arith

    flagged-Watched : (v : ℕ) → v % 2 ≡ 1 → Watched v (with_thread others tid (wait v n))
    flagged-Watched v odd = record { kept = inr (inl odd) }

    pub lock_slow-Kept :
        Owned word (with_thread others tid (slow n))
        → Watched word (with_thread others tid (slow n))
        → Kept others tid (lock_slow (lock_value_from_tid tid) n word)
    lock_slow-Kept o w = elim (Bool-cases (is_locked_by word (lock_value_from_tid tid))) [
      | inl mine ↦ rw (round_mine mine) tt
      | inr theirs ↦ elim (Bool-cases (is_locked word)) [
        | inl busy ↦
            let v = set_waiters word in
            let odd : v % 2 ≡ 1 = ground arith in
            rw (round_locked busy theirs o) (
              remark word v (with_thread others tid (wait v n)) (ground arith) (ground arith)
                  (ground arith) (waits v odd o),
              flagged-Watched v odd,
            )
        | inr free ↦ rw (round_free free theirs) (taken free o, taken-Watched free o w)
      ]
    ]

    pub sleep_on :
        (v : ℕ)
        → (word == v) ≡ true
        → Owned word (with_thread others tid (wait v n))
        → Watched word (with_thread others tid (wait v n))
        → Kept others tid (next word (parked n))
    unfolding holds foreign alien misnamed unmarked nameless wakes carries asleep
    sleep_on v e o w = (ground arith, ground arith)

    pub retries :
        (v : ℕ)
        → Owned word (with_thread others tid (wait v n))
        → Watched word (with_thread others tid (wait v n))
        → Kept others tid (next word (slow n))
    unfolding holds foreign alien misnamed unmarked nameless wakes carries asleep
    retries v o w = (ground arith, ground arith)

    pub wakes_up :
        Owned word (with_thread others tid (parked n))
        → Watched word (with_thread others tid (parked n))
        → Kept others tid (next word (slow n))
    unfolding holds foreign alien misnamed unmarked nameless wakes carries asleep
    wakes_up o w = (ground arith, ground arith)
