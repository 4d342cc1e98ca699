-- ===== src/Unfair/Safety.antt =====
-- What holds of the unfair lock in every state that any interleaving reaches.
use book.Base.{true, ℕ, ◌/◌, ◌<◌, ◌≡◌, ◌⊎◌, some, get_elem?, List, total, le-total, arith}
use book.Lock.{has_waiters}
use book.Unfair.{holding, parked, Thread, asleep, System, Reach}
use book.Unfair.Weights.{holds, foreign, wakes, carries}
use book.Unfair.Invariant.{AllNamed, Reach-Inv}

-- In every state that an interleaving reaches, at most one thread holds the lock, and a thread that
-- holds it is the one whose lock value the word bears, if the ids of the threads are lock values.
pub one_holder :
    (tids : List ℕ) (s : System) (i : ℕ) (t : Thread)
    → AllNamed tids
    → Reach tids s
    → get_elem? s.threads i ≡ some t
    → t.pc ≡ holding
    → (total holds s.threads ≡ 1) × (s.word / 4 ≡ t.tid / 4)
unfolding holds foreign
one_holder tids s i t named r at h =
    let inv = Reach-Inv named r in
    ground (
      arith,
      inv.owned,
      le-total holds s.threads i t at,
      le-total (foreign (s.word / 4)) s.threads i t at,
    )

-- In every state that an interleaving reaches in which a thread sleeps, the lock is held by a thread
-- whose word tells it of waiters, or a thread is about to wake one, or a thread that was woken while
-- others slept has not yet had its turn: no sleeper is forgotten, if the ids of the threads are lock
-- values.
pub no_waiter_forgotten :
    (tids : List ℕ) (s : System) (i n : ℕ) (t : Thread)
    → AllNamed tids
    → Reach tids s
    → get_elem? s.threads i ≡ some t
    → t.pc ≡ parked n
    → ((has_waiters s.word ≡ true) × (total holds s.threads ≡ 1))
      ⊎ ((0 < total wakes s.threads) ⊎ (0 < total carries s.threads))
unfolding asleep
no_waiter_forgotten tids s i n t named r at h =
    let inv = Reach-Inv named r in
    ground (arith, inv.owned, inv.watched, le-total asleep s.threads i t at)
