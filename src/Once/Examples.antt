-- ===== src/Once/Examples.antt =====
-- Two threads that call dispatch_once at the same time, and the theorems on their interleaving.
use book.Base.{ℕ, ◌-◌, ◌^◌, ◌≤◌, ◌≡◌, ◌≢◌, false, refl, List, [], ◌∷◌, arith}
use book.Lock.{lock_value_from_tid}
use book.Once.{
  Memory, proceed, Pc, idle, trying, callout, inside, broadcast, broadcast_slow, waiting, sleep,
  parked, returned, crash, advance, load, gate_tryenter, gate_broadcast, gate_broadcast_slow,
  wait_round, lock_wait, unpark, System, Reach, start, step, wake,
}
use book.Once.Moves.{thread_at}
use book.Once.Runs.{move}
use book.Once.Safety.{runs-le_one, returned-finished}
use book.Once.Recursion.{Again, call, access, Caught, Again-Caught}
use book.Once.Waking.{can_return}
use book.Once.Returning.{Returns}

abbrev two : List ℕ
two = 256 ∷ 512 ∷ []

abbrev mem : ℕ → ℕ → ℕ → Memory
mem once runs finished = record { once = once; counter = 0; runs = runs; finished = finished }

abbrev sys : Pc → Pc → Memory → System
sys p r m = record { mem = m; threads = thread_at 256 p ∷ thread_at 512 r ∷ [] }

abbrev Reached : Pc → Pc → Memory → Type 0
Reached p r m = Reach false two 0 (sys p r m)

both_trying : Reached trying trying (mem 0 0 0)
unfolding advance load
both_trying =
    step
      (step start (move false (sys idle idle (mem 0 0 0)) 0 256 idle trying (mem 0 0 0) refl refl))
      (move false (sys trying idle (mem 0 0 0)) 1 512 idle trying (mem 0 0 0) refl refl)

one_waits : Reached callout waiting (mem 256 0 0)
unfolding advance gate_tryenter
one_waits =
    step
      (step both_trying
        (move false (sys trying trying (mem 0 0 0)) 0 256 trying callout (mem 256 0 0) refl refl))
      (move false (sys callout trying (mem 256 0 0)) 1 512 trying waiting (mem 256 0 0) refl refl)

one_sleeps : Reached callout (parked 257) (mem 257 0 0)
unfolding advance wait_round lock_wait
one_sleeps =
    step
      (step one_waits (
        move false (sys callout waiting (mem 256 0 0)) 1 512 waiting (sleep 257) (mem 257 0 0) refl
          refl))
      (move false (sys callout (sleep 257) (mem 257 0 0)) 1 512 (sleep 257) (parked 257)
        (mem 257 0 0) refl refl)

other_runs : Reached broadcast (parked 257) (mem 257 1 1)
unfolding advance
other_runs =
    step
      (step one_sleeps (
        move false (sys callout (parked 257) (mem 257 0 0)) 0 256 callout inside (mem 257 1 0) refl
          refl))
      (move false (sys inside (parked 257) (mem 257 1 0)) 0 256 inside broadcast (mem 257 1 1) refl
        refl)

all_woken : Reached returned waiting (mem (2 ^ 64 - 1) 1 1)
unfolding advance gate_broadcast gate_broadcast_slow unpark
all_woken =
    step
      (step other_runs (
        move false (sys broadcast (parked 257) (mem 257 1 1)) 0 256 broadcast (broadcast_slow 257)
          (mem (2 ^ 64 - 1) 1 1) refl refl))
      (wake 0 proceed (thread_at 256 (broadcast_slow 257)) returned (mem (2 ^ 64 - 1) 1 1) refl
        refl)

runs-le_one_example : (1 ≤ 1) × (1 ≤ 1)
runs-le_one_example =
    runs-le_one false two 0 (sys returned waiting (mem (2 ^ 64 - 1) 1 1)) (omega arith) all_woken

returned-finished_example : ◌≡◌ {A = ℕ} 1 1 × ◌≡◌ {A = ℕ} 1 1
returned-finished_example =
    returned-finished false two 0 (sys returned waiting (mem (2 ^ 64 - 1) 1 1)) 0
      (thread_at 256 returned) (omega arith) all_woken refl refl

-- The function on the first thread calls dispatch_once again, while the other thread waits.
first_inside : Reached inside waiting (mem 256 1 0)
unfolding advance
first_inside =
    step one_waits
      (move false (sys callout waiting (mem 256 0 0)) 0 256 callout inside (mem 256 1 0) refl refl)

second_call : Again false two 0 0 (thread_at 256 inside) (sys inside waiting (mem 256 1 0)) waiting
unfolding advance load gate_tryenter
second_call =
    access proceed waiting (mem 256 1 0)
      (access proceed trying (mem 256 1 0) (call first_inside refl refl) refl) refl

Again-Caught_example :
    Caught
      (advance false proceed (lock_value_from_tid 256) waiting (mem 256 1 0))
      (mem 256 1 0)
      waiting
    × (advance false proceed (lock_value_from_tid 512) waiting (mem 256 1 0) ≢ crash)
Again-Caught_example =
    Again-Caught false two 0 0 (thread_at 256 inside) (sys inside waiting (mem 256 1 0)) waiting 1
      (thread_at 512 waiting) proceed (omega arith) (ground arith) second_call refl

can_return_example : Returns false (sys callout (parked 257) (mem 257 0 0)) 1
can_return_example =
    can_return false two 0 (sys callout (parked 257) (mem 257 0 0)) 1 (thread_at 512 (parked 257))
      (omega arith) one_sleeps refl
