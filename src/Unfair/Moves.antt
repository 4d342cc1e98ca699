-- ===== src/Unfair/Moves.antt =====
-- The invariant of the unfair lock.
use book.Base.{ℕ, ◌+◌, ◌/◌, ◌%◌, ◌≤◌, ◌<◌, ◌^◌, ◌≡◌, ◌⊎◌}
use book.Unfair.{Pc, Outcome, next, wake_one, crash, blocked, Thread, asleep}
use book.Unfair.Weights.{holds, foreign, alien, misnamed, unmarked, nameless, wakes, carries}

-- Totals, as functions of the weight.
abbrev pub Tally : Type 0
Tally = (Thread → ℕ) → ℕ

-- Whoever holds the lock is named by its word.
pub record Owned (word : ℕ) (total : Tally) : Type 0 where
  pub small : word < 2 ^ 32
  pub owner :
      ((word ≡ 0) × (total holds ≡ 0))
      ⊎ ((4 ≤ word) × (total holds ≡ 1) × (total (foreign (word / 4)) ≡ 0))
  pub mine : total alien ≡ 0
  pub names : total misnamed ≡ 0
  pub marked : total unmarked ≡ 0
  pub tids : total nameless ≡ 0

-- Whoever sleeps is not forgotten.
pub record Watched (word : ℕ) (total : Tally) : Type 0 where
  pub kept : (total asleep ≡ 0) ⊎ ((word % 2 ≡ 1) ⊎ ((0 < total wakes) ⊎ (0 < total carries)))

-- The order between weights that the other threads' totals keep.
abbrev pub Ordered : Tally → Type 0
Ordered total = (o : ℕ) → total (foreign o) ≤ total holds

abbrev pub thread_at : ℕ → Pc → Thread
thread_at tid pc = record { tid = tid; pc = pc }

-- The other threads' totals, with one thread's weight.
abbrev pub with_thread : Tally → ℕ → Pc → Tally
with_thread others tid pc w = others w + w (thread_at tid pc)

abbrev pub Kept : Tally → ℕ → Outcome → Type 0
Kept others tid (next word pc) =
    Owned word (with_thread others tid pc) × Watched word (with_thread others tid pc)
Kept others tid (wake_one word pc) = Owned word (with_thread others tid pc)
Kept others tid crash = Unit
Kept others tid blocked = Unit
