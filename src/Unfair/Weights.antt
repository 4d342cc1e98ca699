-- ===== src/Unfair/Weights.antt =====
-- What the invariant of the unfair lock counts, thread by thread.
use book.Base.{ℕ, ◌/◌, ◌%◌, ◌≤◌, ◌^◌, Bool, ◌==◌, ltb, ◌&&◌, leb, if◌then◌else◌, arith}
use book.Lock.{has_waiters}
use book.Unfair.{slow, wait, parked, holding, unlock_slow, waking, Thread}

unfoldable pub holds : Thread → ℕ
holds t = elim t.pc [ holding ↦ 1 | _ ↦ 0 ]

-- Holds the lock under another's name.
unfoldable pub foreign : ℕ → Thread → ℕ
unfolding holds
foreign owner t = if t.tid / 4 == owner then 0 else holds t

-- Took a word from the lock that is another's.
unfoldable pub alien : Thread → ℕ
alien t = elim t.pc [ unlock_slow cur ↦ if cur / 4 == t.tid / 4 then 0 else 1 | _ ↦ 0 ]

-- Whether `value` is what a thread may write when it takes the lock: its name, with or without the
-- waiters' bit.
abbrev pub own_value : ℕ → ℕ → Bool
own_value tid value = value / 4 == tid / 4 && ltb (value % 4) 2

unfoldable pub misnamed : Thread → ℕ
misnamed t = elim t.pc [
  | slow n ↦ if own_value t.tid n then 0 else 1
  | wait v n ↦ if own_value t.tid n then 0 else 1
  | parked n ↦ if own_value t.tid n then 0 else 1
  | _ ↦ 0
]

-- About to sleep on a word without the waiters' bit.
unfoldable pub unmarked : Thread → ℕ
unmarked t = elim t.pc [ wait v n ↦ if has_waiters v then 0 else 1 | _ ↦ 0 ]

-- A thread whose id is no lock value.
unfoldable pub nameless : Thread → ℕ
nameless t = if leb 4 t.tid && ltb t.tid (2 ^ 32) then 0 else 1

-- Is about to wake a thread.
unfoldable pub wakes : Thread → ℕ
wakes t = elim t.pc [ unlock_slow cur ↦ if has_waiters cur then 1 else 0 | waking ↦ 1 | _ ↦ 0 ]

-- Was woken while others slept, and will leave the waiters' bit in the word.
unfoldable pub carries : Thread → ℕ
carries t = elim t.pc [ slow n ↦ if has_waiters n then 1 else 0 | _ ↦ 0 ]

pub foreign-le : (owner : ℕ) (t : Thread) → foreign owner t ≤ holds t
unfolding foreign
foreign-le owner t = ground arith
