-- ===== src/Apply/Examples.antt =====
-- The caller of a dispatch_apply of two indices runs both, and a worker comes late.
use book.Base.{
  ◌-◌, List, none, ◌^◌, ℕ, ◌+◌, ◌*◌, ◌≤◌, ◌≡◌, ◌⊎◌, Bool, true, false, refl, some, ◌∷◌, [],
  get_elem?, set, ◌==◌, ltb, total, if◌then◌else◌, arith,
}
use book.Apply.{
  Memory, proceed, Pc, start, calling, again, finish, signal, wait, destroy, leave, freeing, gone,
  next, advance, take_index, call_back, lower_todo, event_signal, event_wait, event_destroy,
  lower_thr_cnt, System, run, Reach, begin, step, initial,
}
use book.Apply.Weights.{inside}
use book.Apply.Moves.{thread_at}
use book.Apply.Safety.{ran-exactly_once, freed-gone}
use book.Apply.Termination.{Run, here, more, run_length-le}
use book.Apply.Widths.{Queue, redirect, reserve_all, try_reserve, relinquish}
use book.Apply.Reserving.{redirect-restores}
use book.Apply.Progress.{Completes, can_complete}

abbrev r0 : ℕ → ℕ
r0 k = 0

abbrev r1 : ℕ → ℕ
r1 k = if k == 0 then r0 k + 1 else r0 k

abbrev r2 : ℕ → ℕ
r2 k = if k == 1 then r1 k + 1 else r1 k

abbrev mem : ℕ → ℕ → ℕ → ℕ → ℕ → (ℕ → ℕ) → ℕ → ℕ → Memory
mem index todo thr_cnt value ended ran signals freed = record {
  index = index;
  todo = todo;
  thr_cnt = thr_cnt;
  value = value;
  ended = ended;
  ran = ran;
  signals = signals;
  freed = freed;
}

abbrev sys : Pc → Pc → Memory → System
sys p r m = record { mem = m; threads = thread_at true p ∷ thread_at false r ∷ [] }

go :
    {s : System}
    → Reach 2 1 s
    → (i : ℕ) (waits : Bool) (pc pc' : Pc) (m : Memory)
    → get_elem? s.threads i ≡ some (thread_at waits pc)
    → advance 2 proceed waits pc s.mem ≡ next m pc'
    → Reach 2 1 (record { mem = m; threads = set s.threads i (thread_at waits pc') })
go r i waits pc pc' m at e = step r (run i proceed (thread_at waits pc) pc' m at e)

caller_calls : Reach 2 1 (sys (again 2) start (mem 2 2 2 0 2 r2 0 0))
unfolding advance take_index call_back lower_todo event_signal event_wait event_destroy
    lower_thr_cnt
caller_calls =
    go
      (go
        (go (go (begin) 0 true start (calling 0 0) (mem 1 2 2 0 0 r0 0 0) refl refl) 0 true
          (calling 0 0) (again 1) (mem 1 2 2 0 1 r1 0 0) refl refl)
        0 true (again 1) (calling 1 1) (mem 2 2 2 0 1 r1 0 0) refl refl)
      0 true (calling 1 1) (again 2) (mem 2 2 2 0 2 r2 0 0) refl refl

caller_signals : Reach 2 1 (sys destroy start (mem 3 0 2 0 2 r2 1 0))
unfolding advance take_index call_back lower_todo event_signal event_wait event_destroy
    lower_thr_cnt
caller_signals =
    go
      (go
        (go (go (caller_calls) 0 true (again 2) (finish 2) (mem 3 2 2 0 2 r2 0 0) refl refl) 0 true
          (finish 2) signal (mem 3 0 2 0 2 r2 0 0) refl refl)
        0 true signal wait (mem 3 0 2 1 2 r2 1 0) refl refl)
      0 true wait destroy (mem 3 0 2 0 2 r2 1 0) refl refl

caller_returns : Reach 2 1 (sys gone start (mem 3 0 1 0 2 r2 1 0))
unfolding advance take_index call_back lower_todo event_signal event_wait event_destroy
    lower_thr_cnt
caller_returns =
    go (go (caller_signals) 0 true destroy leave (mem 3 0 2 0 2 r2 1 0) refl refl) 0 true leave gone
      (mem 3 0 1 0 2 r2 1 0) refl refl

all_return : Reach 2 1 (sys gone gone (mem 4 0 0 0 2 r2 1 1))
unfolding advance take_index call_back lower_todo event_signal event_wait event_destroy
    lower_thr_cnt
all_return =
    go
      (go (go (caller_returns) 1 false start leave (mem 4 0 1 0 2 r2 1 0) refl refl) 1 false leave
        freeing (mem 4 0 0 0 2 r2 1 0) refl refl)
      1 false freeing gone (mem 4 0 0 0 2 r2 1 1) refl refl

ran-exactly_once_example :
    ((k : ℕ) → r2 k ≡ (if ltb k 2 then 1 else 0))
    × (total inside (sys gone start (mem 3 0 1 0 2 r2 1 0)).threads ≡ 0)
ran-exactly_once_example =
    ran-exactly_once 2 1 (sys gone start (mem 3 0 1 0 2 r2 1 0)) 0 (thread_at true gone)
      (omega arith) caller_returns refl refl refl

freed-gone_example : (◌≡◌ {A = ℕ} 1 0) ⊎ ((◌≡◌ {A = ℕ} 1 1) × (gone ≡ gone))
freed-gone_example =
    freed-gone 2 1 (sys gone gone (mem 4 0 0 0 2 r2 1 1)) 0 (thread_at true gone) (omega arith)
      all_return refl

first_index : Run 2 (initial 2 1) 1 (sys (calling 0 0) start (mem 1 2 2 0 0 r0 0 0))
unfolding advance take_index
first_index =
    more here (run 0 proceed (thread_at true start) (calling 0 0) (mem 1 2 2 0 0 r0 0 0) refl refl)
      tt

run_length-le_example : 1 ≤ 20 * 2 + 70 * 2
run_length-le_example =
    run_length-le 2 1 1 (sys (calling 0 0) start (mem 1 2 2 0 0 r0 0 0)) (omega arith) first_index

can_complete_example : Completes 2 (sys (again 2) start (mem 2 2 2 0 2 r2 0 0))
can_complete_example =
    can_complete 2 1 (sys (again 2) start (mem 2 2 2 0 2 r2 0 0)) (omega arith) caller_calls

-- Two queues of which the second has a width of 2 left, and the threads that it leaves.
abbrev narrow : List Queue
narrow =
    record { width = 10; state = (2 ^ 12 - 10) * 2 ^ 41 }
    ∷ record { width = 2; state = (2 ^ 12 - 2) * 2 ^ 41 }
    ∷ []

redirect-narrow : redirect narrow 8 ≡ (narrow, some 3)
unfolding redirect reserve_all try_reserve relinquish
redirect-narrow = refl

redirect-restores_example :
    ((redirect narrow 8).0 ≡ narrow)
    × (((redirect narrow 8).1 ≡ none)
        ⊎ ((n : ℕ) × ((redirect narrow 8).1 ≡ some n) × (2 ≤ n) × (n ≤ 8)))
redirect-restores_example = redirect-restores narrow 8 (omega arith) (omega arith)
