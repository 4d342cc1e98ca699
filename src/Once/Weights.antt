-- ===== src/Once/Weights.antt =====
-- What the invariant of dispatch_once counts, thread by thread.
use book.Base.{ℕ, ◌/◌, ◌%◌, ◌≤◌, ◌≡◌, ◌==◌, ltb, ◌&&◌, leb, if◌then◌else◌, ◌^◌, arith}
use book.Once.{
  idle, trying, callout, inside, broadcast, broadcast_slow, sleep, parked, quiescing, mark_done,
  returned, Thread, unpark,
}

-- Past the gate's first access.
unfoldable pub started : Thread → ℕ
started t = elim t.pc [ idle ↦ 0 | trying ↦ 0 | _ ↦ 1 ]

-- Entered, and not yet past the broadcast.
unfoldable pub owns : Thread → ℕ
owns t = elim t.pc [ callout ↦ 1 | inside ↦ 1 | broadcast ↦ 1 | _ ↦ 0 ]

unfoldable pub called : Thread → ℕ
called t = elim t.pc [ inside ↦ 1 | broadcast ↦ 1 | _ ↦ 0 ]

unfoldable pub ended : Thread → ℕ
ended t = elim t.pc [ broadcast ↦ 1 | _ ↦ 0 ]

-- Where a thread is only after the broadcast.
unfoldable pub after : Thread → ℕ
after t = elim t.pc [
  | broadcast_slow cur ↦ 1
  | quiescing gen ↦ 1
  | mark_done ↦ 1
  | returned ↦ 1
  | _ ↦ 0
]

unfoldable pub slow : Thread → ℕ
slow t = elim t.pc [ broadcast_slow cur ↦ 1 | _ ↦ 0 ]

unfoldable pub asleep : Thread → ℕ
asleep t = elim t.pc [ parked value ↦ 1 | _ ↦ 0 ]

-- Owns the gate under another's name.
unfoldable pub foreign : ℕ → Thread → ℕ
unfolding owns
foreign owner t = if t.tid / 4 == owner then 0 else owns t

-- About to sleep on a word without the waiters' bit.
unfoldable pub unmarked : Thread → ℕ
unmarked t = elim t.pc [ sleep value ↦ if value % 4 == 1 then 0 else 1 | _ ↦ 0 ]

-- Took a word from the gate that is another's.
unfoldable pub alien : Thread → ℕ
alien t = elim t.pc [ broadcast_slow cur ↦ if cur / 4 == t.tid / 4 then 0 else 1 | _ ↦ 0 ]

-- A thread whose id is no lock value.
unfoldable pub nameless : Thread → ℕ
nameless t = if leb 4 t.tid && ltb t.tid (2 ^ 32) then 0 else 1

pub owns-le-started : (t : Thread) → owns t ≤ started t
unfolding owns started
owns-le-started t = ground arith

pub called-le-owns : (t : Thread) → called t ≤ owns t
unfolding owns called
called-le-owns t = ground arith

pub ended-le-owns : (t : Thread) → ended t ≤ owns t
unfolding owns ended
ended-le-owns t = ground arith

pub ended-le-called : (t : Thread) → ended t ≤ called t
unfolding ended called
ended-le-called t = ground arith

pub after-le-started : (t : Thread) → after t ≤ started t
unfolding after started
after-le-started t = ground arith

pub asleep-le-started : (t : Thread) → asleep t ≤ started t
unfolding asleep started
asleep-le-started t = ground arith

pub foreign-le-owns : (owner : ℕ) (t : Thread) → foreign owner t ≤ owns t
unfolding foreign
foreign-le-owns owner t = ground arith

-- Being woken changes no weight but `asleep`.
module _ (t : Thread) where
  pub started-unpark : started (unpark t) ≡ started t
  unfolding unpark started
  started-unpark = ground arith

  pub owns-unpark : owns (unpark t) ≡ owns t
  unfolding unpark owns
  owns-unpark = ground arith

  pub called-unpark : called (unpark t) ≡ called t
  unfolding unpark called
  called-unpark = ground arith

  pub ended-unpark : ended (unpark t) ≡ ended t
  unfolding unpark ended
  ended-unpark = ground arith

  pub after-unpark : after (unpark t) ≡ after t
  unfolding unpark after
  after-unpark = ground arith

  pub slow-unpark : slow (unpark t) ≡ slow t
  unfolding unpark slow
  slow-unpark = ground arith

  pub asleep-unpark : asleep (unpark t) ≡ 0
  unfolding unpark asleep
  asleep-unpark = ground arith

  pub foreign-unpark : (owner : ℕ) → foreign owner (unpark t) ≡ foreign owner t
  unfolding unpark foreign
  foreign-unpark owner = ground arith

  pub unmarked-unpark : unmarked (unpark t) ≡ unmarked t
  unfolding unpark unmarked
  unmarked-unpark = ground arith

  pub alien-unpark : alien (unpark t) ≡ alien t
  unfolding unpark alien
  alien-unpark = ground arith

  pub nameless-unpark : nameless (unpark t) ≡ nameless t
  unfolding unpark nameless
  nameless-unpark = ground arith
