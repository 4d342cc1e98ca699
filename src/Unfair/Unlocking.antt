-- ===== src/Unfair/Unlocking.antt =====
-- The accesses of threads that give up the unfair lock keep its invariant, and all together.
use book.Base.{ℕ, ◌-◌, ◌≡◌, true, ◌==◌, if-elim, arith}
use book.Lock.{lock_value_from_tid, is_locked_by, has_waiters, has_failed_trylock}
use book.Unfair.{
  Pc, outside, slow, wait, parked, holding, unlock_slow, waking, Choice, call_lock, call_trylock,
  call_unlock, call_tryunlock, proceed, spurious, unlock, tryunlock, unlock_slow_path, advance,
  asleep,
}
use book.Unfair.Weights.{holds, foreign, alien, misnamed, unmarked, nameless, wakes, carries}
use book.Unfair.Moves.{Tally, Owned, Watched, Ordered, with_thread, Kept}
use book.Unfair.Locking.{
  remark, lock-Kept, trylock-Kept, lock_slow-Kept, sleep_on, retries, wakes_up,
}

module _ (others : Tally) (ord : Ordered others) (tid word : ℕ) where
  pub unlock-Kept :
      Owned word (with_thread others tid holding)
      → Watched word (with_thread others tid holding)
      → Kept others tid (unlock (lock_value_from_tid tid) word)
  unfolding unlock holds foreign alien misnamed unmarked nameless wakes carries asleep
  unlock-Kept o w =
      if-elim (Kept others tid) (word == lock_value_from_tid tid)
        (λ e. (ground arith, ground arith)) (λ e. (ground arith, ground arith))

  renewed :
      has_failed_trylock word ≡ true
      → Owned word (with_thread others tid holding)
      → Owned (word - 2) (with_thread others tid holding)
  unfolding holds foreign alien misnamed unmarked nameless wakes carries asleep
  renewed e o =
      remark word (word - 2) (with_thread others tid holding) (ground arith) (ground arith)
        (ground arith) o

  pub tryunlock-Kept :
      Owned word (with_thread others tid holding)
      → Watched word (with_thread others tid holding)
      → Kept others tid (tryunlock word)
  unfolding tryunlock holds foreign alien misnamed unmarked nameless wakes carries asleep
  tryunlock-Kept o w =
      if-elim (Kept others tid) (has_failed_trylock word)
        (λ e.
          if-elim (Kept others tid) (word - 2 == 0) (λ z. absurd (ground arith))
            (λ z. (renewed e o, ground arith)))
        (λ e.
          if-elim (Kept others tid) (has_waiters word) (λ z. (ground arith, ground arith))
            (λ z. (ground arith, ground arith)))

  pub unlock_slow-Kept :
      (cur : ℕ)
      → Owned word (with_thread others tid (unlock_slow cur))
      → Watched word (with_thread others tid (unlock_slow cur))
      → Kept others tid (unlock_slow_path (lock_value_from_tid tid) cur word)
  unfolding unlock_slow_path holds foreign alien misnamed unmarked nameless wakes carries asleep
  unlock_slow-Kept cur o w =
      if-elim (Kept others tid) (is_locked_by cur (lock_value_from_tid tid))
        (λ e.
          if-elim (Kept others tid) (has_waiters cur) (λ z. (ground arith, ground arith))
            (λ z. (ground arith, ground arith)))
        (λ e. tt)

  pub waking-Owned :
      Owned word (with_thread others tid waking) → Owned word (with_thread others tid outside)
  unfolding holds foreign alien misnamed unmarked nameless
  waking-Owned o = ground arith

  -- Every access of any thread keeps the invariant.
  pub advance-Kept :
      (c : Choice) (pc : Pc)
      → Owned word (with_thread others tid pc)
      → Watched word (with_thread others tid pc)
      → Kept others tid (advance c (lock_value_from_tid tid) pc word)
  unfolding advance
  advance-Kept call_lock outside o w = lock-Kept others ord tid word o w
  advance-Kept call_lock (slow n) o w = tt
  advance-Kept call_lock (wait v n) o w = tt
  advance-Kept call_lock (parked n) o w = tt
  advance-Kept call_lock holding o w = tt
  advance-Kept call_lock (unlock_slow cur) o w = tt
  advance-Kept call_lock waking o w = tt
  advance-Kept call_trylock outside o w = trylock-Kept others ord tid word o w
  advance-Kept call_trylock (slow n) o w = tt
  advance-Kept call_trylock (wait v n) o w = tt
  advance-Kept call_trylock (parked n) o w = tt
  advance-Kept call_trylock holding o w = tt
  advance-Kept call_trylock (unlock_slow cur) o w = tt
  advance-Kept call_trylock waking o w = tt
  advance-Kept call_unlock outside o w = tt
  advance-Kept call_unlock (slow n) o w = tt
  advance-Kept call_unlock (wait v n) o w = tt
  advance-Kept call_unlock (parked n) o w = tt
  advance-Kept call_unlock holding o w = unlock-Kept o w
  advance-Kept call_unlock (unlock_slow cur) o w = tt
  advance-Kept call_unlock waking o w = tt
  advance-Kept call_tryunlock outside o w = tt
  advance-Kept call_tryunlock (slow n) o w = tt
  advance-Kept call_tryunlock (wait v n) o w = tt
  advance-Kept call_tryunlock (parked n) o w = tt
  advance-Kept call_tryunlock holding o w = tryunlock-Kept o w
  advance-Kept call_tryunlock (unlock_slow cur) o w = tt
  advance-Kept call_tryunlock waking o w = tt
  advance-Kept proceed outside o w = tt
  advance-Kept proceed (slow n) o w = lock_slow-Kept others ord tid word n o w
  advance-Kept proceed (wait v n) o w =
      if-elim (Kept others tid) (word == v) (λ e. sleep_on others ord tid word n v e o w)
        (λ e. retries others ord tid word n v o w)
  advance-Kept proceed (parked n) o w = tt
  advance-Kept proceed holding o w = tt
  advance-Kept proceed (unlock_slow cur) o w = unlock_slow-Kept cur o w
  advance-Kept proceed waking o w = waking-Owned o
  advance-Kept spurious outside o w = tt
  advance-Kept spurious (slow n) o w = tt
  advance-Kept spurious (wait v n) o w = tt
  advance-Kept spurious (parked n) o w = wakes_up others ord tid word n o w
  advance-Kept spurious holding o w = tt
  advance-Kept spurious (unlock_slow cur) o w = tt
  advance-Kept spurious waking o w = tt
