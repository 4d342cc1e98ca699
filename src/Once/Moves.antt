-- ===== src/Once/Moves.antt =====
-- The invariant of dispatch_once, and that the access of one thread keeps it.
use book.Base.{ℕ, ◌+◌, ◌/◌, ◌%◌, ◌≤◌, ◌<◌, ◌^◌, ◌≡◌, ◌⊎◌, Bool, true}
use book.Once.{Memory, Pc, Outcome, next, wake_all, crash, blocked, once_done, Thread, once_done}
use book.Once.Weights.{
  started, owns, called, ended, after, slow, asleep, foreign, unmarked, alien, nameless,
}

-- Totals, as functions of the weight.
abbrev pub Tally : Type 0
Tally = (Thread → ℕ) → ℕ

-- Nobody has entered.
pub record Fresh (m : Memory) (total : Tally) : Type 0 where
  pub unlocked : m.once ≡ 0
  pub nobody : total started ≡ 0
  pub unrun : m.runs ≡ 0
  pub unfinished : m.finished ≡ 0

-- One thread has entered, whose name the word bears.
pub record Locked (m : Memory) (total : Tally) : Type 0 where
  pub named : 4 ≤ m.once
  pub low : m.once < 2 ^ 32
  pub held : m.once % 4 < 2
  pub owner : total owns ≡ 1
  pub own : total (foreign (m.once / 4)) ≡ 0
  pub ran : m.runs ≡ total called
  pub over : m.finished ≡ total ended
  pub none_after : total after ≡ 0
  pub flagged : (m.once % 4 ≡ 1) ⊎ (total asleep ≡ 0)

-- The function has returned. Who still sleeps is about to be woken.
pub record Settled (q : Bool) (m : Memory) (total : Tally) : Type 0 where
  pub mark : (m.once ≡ once_done) ⊎ ((q ≡ true) × (m.once % 4 ≡ 2))
  pub released : total owns ≡ 0
  pub ran : m.runs ≡ 1
  pub over : m.finished ≡ 1
  pub woken : (0 < total slow) ⊎ (total asleep ≡ 0)

pub data Phase (q : Bool) (m : Memory) (total : Tally) : Type 0 where
  fresh : Fresh m total → Phase q m total
  locked : Locked m total → Phase q m total
  settled : Settled q m total → Phase q m total

pub record Holds (q : Bool) (m : Memory) (total : Tally) : Type 0 where
  pub word : m.once < 2 ^ 64
  pub marked : total unmarked ≡ 0
  pub mine : total alien ≡ 0
  pub tids : total nameless ≡ 0
  pub phase : Phase q m total

-- The orders between weights that the other threads' totals keep.
pub record Ordered (total : Tally) : Type 0 where
  pub owns_started : total owns ≤ total started
  pub called_owns : total called ≤ total owns
  pub ended_owns : total ended ≤ total owns
  pub after_started : total after ≤ total started
  pub asleep_started : total asleep ≤ total started
  pub foreign_owns : (o : ℕ) → total (foreign o) ≤ total owns

-- The others after all who sleep were woken.
pub record Woken (others woke : Tally) : Type 0 where
  pub s_started : woke started ≡ others started
  pub s_owns : woke owns ≡ others owns
  pub s_called : woke called ≡ others called
  pub s_ended : woke ended ≡ others ended
  pub s_after : woke after ≡ others after
  pub s_slow : woke slow ≡ others slow
  pub s_foreign : (o : ℕ) → woke (foreign o) ≡ others (foreign o)
  pub s_unmarked : woke unmarked ≡ others unmarked
  pub s_alien : woke alien ≡ others alien
  pub s_nameless : woke nameless ≡ others nameless
  pub none_asleep : woke asleep ≡ 0

abbrev pub thread_at : ℕ → Pc → Thread
thread_at tid pc = record { tid = tid; pc = pc }

-- The other threads' totals, with one thread's weight.
abbrev pub with_thread : Tally → ℕ → Pc → Tally
with_thread others tid pc w = others w + w (thread_at tid pc)

abbrev pub Kept : Bool → Tally → ℕ → Outcome → Type 0
Kept q others tid (next m pc) = Holds q m (with_thread others tid pc)
Kept q others tid (wake_all m pc) =
    (woke : Tally) → Woken others woke → Holds q m (with_thread woke tid pc)
Kept q others tid crash = Unit
Kept q others tid blocked = Unit
