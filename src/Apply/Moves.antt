-- ===== src/Apply/Moves.antt =====
-- The invariant of dispatch_apply, with one thread apart from the others.
use book.Base.{ℕ, ◌+◌, ◌%◌, ◌^◌, ◌≤◌, ◌<◌, ◌≡◌, ◌⊎◌, Bool, ◌==◌, ◌&&◌, ltb, if◌then◌else◌, min}
use book.Apply.{Memory, Pc, awaited, Outcome, next, wake_all, crash, blocked, Thread}
use book.Apply.Weights.{
  inside, at_index, held, idler, taking, past, signalling, wakes, asleep, waiter, waited, through,
  stray, present, frees,
}

-- Totals, as functions of the weight.
abbrev pub Tally : Type 0
Tally = (Thread → ℕ) → ℕ

-- Of `iter` indices, by `n` threads.
pub record Counts (iter n : ℕ) (m : Memory) (total : Tally) : Type 0 where
  pub todo_left : m.todo + m.ended ≡ iter + total held
  pub taken : m.ended + total inside ≡ min m.index iter
  pub made : total held ≤ m.ended
  pub busy : total idler ≡ 0
  pub overrun : m.index ≤ iter + total past
  pub left : (iter ≤ m.index) ⊎ (total past ≡ 0)
  pub all : total taking + total past ≡ n
  pub signalled : m.signals + total signalling ≡ (if m.todo == 0 then 1 else 0)
  pub one_waiter : total waiter ≡ 1
  pub strays : total stray ≡ 0
  pub word : m.value < 2 ^ 32
  pub event : (m.value + total waited) % 2 ^ 32 ≡ m.signals
  pub over : total through ≤ m.signals
  pub woken : (total asleep ≡ 0) ⊎ ((m.value ≡ awaited) ⊎ (0 < total wakes))
  pub count : m.thr_cnt ≡ total present
  pub last : m.freed + total frees ≡ (if m.thr_cnt == 0 then 1 else 0)
  pub room : iter + n < 2 ^ 64
  pub few : n < 2 ^ 31
  pub some_work : 0 < iter

-- How often each index has run or is running.
abbrev pub Each : ℕ → Memory → Tally → Type 0
Each iter m total =
    (k : ℕ) → m.ran k + total (at_index k) ≡ (if ltb k m.index && ltb k iter then 1 else 0)

pub record Holds (iter n : ℕ) (m : Memory) (total : Tally) : Type 0 where
  pub counts : Counts iter n m total
  pub each : Each iter m total

-- The orders between weights that the other threads' totals keep.
pub record Ordered (total : Tally) : Type 0 where
  pub waited_waiter : total waited ≤ total waiter + total stray
  pub through_waited : total through ≤ total waited
  pub present_all : total present ≤ total taking + total past

-- The others after all who slept were woken.
pub record Woken (others woke : Tally) : Type 0 where
  pub s_inside : woke inside ≡ others inside
  pub s_held : woke held ≡ others held
  pub s_idler : woke idler ≡ others idler
  pub s_taking : woke taking ≡ others taking
  pub s_past : woke past ≡ others past
  pub s_signalling : woke signalling ≡ others signalling
  pub s_wakes : woke wakes ≡ others wakes
  pub s_waiter : woke waiter ≡ others waiter
  pub s_waited : woke waited ≡ others waited
  pub s_through : woke through ≡ others through
  pub s_stray : woke stray ≡ others stray
  pub s_present : woke present ≡ others present
  pub s_frees : woke frees ≡ others frees
  pub s_at_index : (k : ℕ) → woke (at_index k) ≡ others (at_index k)
  pub none_asleep : woke asleep ≡ 0

abbrev pub thread_at : Bool → Pc → Thread
thread_at waits pc = record { waits = waits; pc = pc }

-- The other threads' totals, with one thread's weight.
abbrev pub with_thread : Tally → Bool → Pc → Tally
with_thread others waits pc w = others w + w (thread_at waits pc)

abbrev pub Kept : ℕ → ℕ → Tally → Bool → Outcome → Type 0
Kept iter n others waits (next m pc) = Holds iter n m (with_thread others waits pc)
Kept iter n others waits (wake_all m pc) =
    (woke : Tally) → Woken others woke → Holds iter n m (with_thread woke waits pc)
Kept iter n others waits crash = Unit
Kept iter n others waits blocked = Unit
