-- ===== src/Unfair/Examples.antt =====
-- Two threads and one unfair lock, and the theorems on their interleaving.
use book.Base.{ℕ, ◌/◌, ◌≡◌, ◌⊎◌, ◌<◌, true, refl, some, List, [], ◌∷◌, get_elem?, set, total, arith}
use book.Lock.{has_waiters, lock_value_from_tid}
use book.Unfair.{
  Pc, outside, slow, wait, parked, holding, unlock_slow, waking, Choice, call_lock, call_unlock,
  proceed, next, lock, lock_slow, unlock, unlock_slow_path, advance, asleep, awoken, System, run,
  wake, Reach, start, step,
}
use book.Unfair.Moves.{thread_at}
use book.Unfair.Weights.{holds, wakes, carries}
use book.Unfair.Safety.{one_holder, no_waiter_forgotten}

abbrev two : List ℕ
two = 256 ∷ 512 ∷ []

abbrev sys : Pc → Pc → ℕ → System
sys p r word = record { word = word; threads = thread_at 256 p ∷ thread_at 512 r ∷ [] }

go :
    {s : System}
    → Reach two s
    → (i : ℕ) (c : Choice) (tid : ℕ) (pc pc' : Pc) (word : ℕ)
    → get_elem? s.threads i ≡ some (thread_at tid pc)
    → advance c (lock_value_from_tid tid) pc s.word ≡ next word pc'
    → Reach two (record { word = word; threads = set s.threads i (thread_at tid pc') })
go r i c tid pc pc' word at e = step r (run i c (thread_at tid pc) pc' word at e)

other_slow : Reach two (sys holding (slow 512) 256)
unfolding advance lock
other_slow =
    go (go start 0 call_lock 256 outside holding 256 refl refl) 1 call_lock 512 outside (slow 512)
      256 refl refl

other_sleeps : Reach two (sys holding (parked 512) 257)
unfolding advance lock_slow
other_sleeps =
    go (go other_slow 1 proceed 512 (slow 512) (wait 257 512) 257 refl refl) 1 proceed 512
      (wait 257 512) (parked 512) 257 refl refl

other_woken : Reach two (sys outside (slow 512) 0)
unfolding advance unlock unlock_slow_path asleep awoken total
other_woken =
    step
      (go (go other_sleeps 0 call_unlock 256 holding (unlock_slow 257) 0 refl refl) 0 proceed 256
        (unlock_slow 257) waking 0 refl refl)
      (wake 0 1 proceed (thread_at 256 waking) (thread_at 512 (parked 512)) outside 0 refl refl refl
        refl)

other_holds : Reach two (sys outside holding 512)
unfolding advance lock_slow
other_holds = go other_woken 1 proceed 512 (slow 512) holding 512 refl refl

one_holder_example :
    (total holds (sys outside holding 512).threads ≡ 1) × ((sys outside holding 512).word / 4 ≡ 128)
one_holder_example =
    one_holder two (sys outside holding 512) 1 (thread_at 512 holding) (omega arith) other_holds
      refl refl

no_waiter_forgotten_example :
    ((has_waiters 257 ≡ true) × (total holds (sys holding (parked 512) 257).threads ≡ 1))
    ⊎ ((0 < total wakes (sys holding (parked 512) 257).threads)
        ⊎ (0 < total carries (sys holding (parked 512) 257).threads))
no_waiter_forgotten_example =
    no_waiter_forgotten two (sys holding (parked 512) 257) 1 512 (thread_at 512 (parked 512))
      (omega arith) other_sleeps refl refl
