-- ===== src/Once/Phases.antt =====
-- Moves that leave the word of dispatch_once alone keep the phase.
use book.Base.{Bool, ℕ, ◌≤◌, ◌<◌, ◌^◌, ◌≡◌, arith}
use book.Once.{Pc, Memory, Thread}
use book.Once.Weights.{
  started, owns, called, ended, after, slow, asleep, foreign, unmarked, alien, nameless,
}
use book.Once.Moves.{Tally, Settled, Phase, fresh, locked, settled, Holds, with_thread, thread_at}

-- A move by which no weight grows, and the thread owns what it owned.
pub record Eases (t u : Thread) : Type 0 where
  pub e_started : started u ≤ started t
  pub e_owns : owns u ≡ owns t
  pub e_called : called u ≡ called t
  pub e_ended : ended u ≡ ended t
  pub e_after : after u ≤ after t
  pub e_slow : slow u ≡ slow t
  pub e_asleep : asleep u ≤ asleep t

-- A move to where a thread owns nothing and is not asleep, that does not leave a broadcast undone.
pub record Stands (t u : Thread) : Type 0 where
  pub s_owns : owns u ≡ 0
  pub s_slow : slow t ≡ 0
  pub s_asleep : asleep u ≡ 0

module _ (q : Bool) (others : Tally) (tid : ℕ) (m : Memory) (pc pc' : Pc) where
  pub ease :
      Eases (thread_at tid pc) (thread_at tid pc')
      → Phase q m (with_thread others tid pc)
      → Phase q m (with_thread others tid pc')
  unfolding foreign
  ease e (fresh f) = fresh (ground arith)
  ease e (locked l) = locked (ground arith)
  ease e (settled s) = settled (ground arith)

  pub stand :
      Stands (thread_at tid pc) (thread_at tid pc')
      → Settled q m (with_thread others tid pc)
      → Phase q m (with_thread others tid pc')
  stand e s = settled (ground arith)

  -- The other fields of the invariant see only what a thread sleeps on or took from the gate.
  pub rest :
      (m' : Memory)
      → m'.once < 2 ^ 64
      → unmarked (thread_at tid pc') ≡ 0
      → alien (thread_at tid pc') ≡ 0
      → Holds q m (with_thread others tid pc)
      → Phase q m' (with_thread others tid pc')
      → Holds q m' (with_thread others tid pc')
  unfolding nameless
  rest m' w u a h p = record {
    word = w;
    marked = ground arith;
    mine = ground arith;
    tids = h.tids;
    phase = p;
  }
