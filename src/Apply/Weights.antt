-- ===== src/Apply/Weights.antt =====
-- What the invariant of dispatch_apply counts, thread by thread.
use book.Base.{ℕ, ◌+◌, ◌≤◌, ◌≡◌, ◌==◌, if◌then◌else◌, arith}
use book.Apply.{
  start, calling, again, finish, signal, waking, wait, wait_slow, sleep, parked, destroy, leave,
  freeing, gone, Thread, unpark,
}

-- In the function, or at index k of it.
unfoldable pub inside : Thread → ℕ
inside t = elim t.pc [ calling idx done ↦ 1 | _ ↦ 0 ]

unfoldable pub at_index : ℕ → Thread → ℕ
at_index k t = elim t.pc [ calling idx done ↦ if idx == k then 1 else 0 | _ ↦ 0 ]

-- Calls that a thread has made and not yet taken off da_todo.
unfoldable pub held : Thread → ℕ
held t = elim t.pc [ calling idx done ↦ done | again done ↦ done | finish done ↦ done | _ ↦ 0 ]

-- At the end of the loop without a call.
unfoldable pub idler : Thread → ℕ
idler t = elim t.pc [
  | again done ↦ if done == 0 then 1 else 0
  | finish done ↦ if done == 0 then 1 else 0
  | _ ↦ 0
]

-- May still take an index.
unfoldable pub taking : Thread → ℕ
taking t = elim t.pc [ start ↦ 1 | calling idx done ↦ 1 | again done ↦ 1 | _ ↦ 0 ]

unfoldable pub past : Thread → ℕ
past t = elim t.pc [ start ↦ 0 | calling idx done ↦ 0 | again done ↦ 0 | _ ↦ 1 ]

unfoldable pub signalling : Thread → ℕ
signalling t = elim t.pc [ signal ↦ 1 | _ ↦ 0 ]

unfoldable pub wakes : Thread → ℕ
wakes t = elim t.pc [ waking ↦ 1 | _ ↦ 0 ]

unfoldable pub asleep : Thread → ℕ
asleep t = elim t.pc [ parked ↦ 1 | _ ↦ 0 ]

-- The caller.
unfoldable pub waiter : Thread → ℕ
waiter t = if t.waits then 1 else 0

-- The caller from where it has lowered the event's value, and from where it no longer waits.
unfoldable pub waited : Thread → ℕ
waited t = elim t.pc [
  | wait_slow ↦ 1
  | sleep ↦ 1
  | parked ↦ 1
  | destroy ↦ 1
  | leave ↦ waiter t
  | freeing ↦ waiter t
  | gone ↦ waiter t
  | _ ↦ 0
]

unfoldable pub through : Thread → ℕ
through t = elim t.pc [
  | destroy ↦ 1
  | leave ↦ waiter t
  | freeing ↦ waiter t
  | gone ↦ waiter t
  | _ ↦ 0
]

-- A worker where only the caller may be.
unfoldable pub stray : Thread → ℕ
stray t = elim t.pc [
  | wait ↦ if t.waits then 0 else 1
  | wait_slow ↦ if t.waits then 0 else 1
  | sleep ↦ if t.waits then 0 else 1
  | parked ↦ if t.waits then 0 else 1
  | destroy ↦ if t.waits then 0 else 1
  | _ ↦ 0
]

-- Has not yet lowered da_thr_cnt.
unfoldable pub present : Thread → ℕ
present t = elim t.pc [ freeing ↦ 0 | gone ↦ 0 | _ ↦ 1 ]

unfoldable pub frees : Thread → ℕ
frees t = elim t.pc [ freeing ↦ 1 | _ ↦ 0 ]

-- Has not returned, and can go on by itself.
unfoldable pub remaining : Thread → ℕ
remaining t = elim t.pc [ gone ↦ 0 | _ ↦ 1 ]

unfoldable pub awake : Thread → ℕ
awake t = elim t.pc [ gone ↦ 0 | parked ↦ 0 | _ ↦ 1 ]

pub waited-le : (t : Thread) → waited t ≤ waiter t + stray t
unfolding waited waiter stray
waited-le t = ground arith

pub through-le : (t : Thread) → through t ≤ waited t
unfolding waited through
through-le t = ground arith

pub present-le : (t : Thread) → present t ≤ taking t + past t
unfolding taking past present
present-le t = ground arith

pub at_index-le : (k : ℕ) (t : Thread) → at_index k t ≤ inside t
unfolding at_index inside
at_index-le k t = ground arith

-- Being woken changes no weight but `asleep`.
module _ (t : Thread) where
  pub inside-unpark : inside (unpark t) ≡ inside t
  unfolding unpark inside
  inside-unpark = ground arith

  pub held-unpark : held (unpark t) ≡ held t
  unfolding unpark held
  held-unpark = ground arith

  pub idler-unpark : idler (unpark t) ≡ idler t
  unfolding unpark idler
  idler-unpark = ground arith

  pub taking-unpark : taking (unpark t) ≡ taking t
  unfolding unpark taking
  taking-unpark = ground arith

  pub past-unpark : past (unpark t) ≡ past t
  unfolding unpark past
  past-unpark = ground arith

  pub signalling-unpark : signalling (unpark t) ≡ signalling t
  unfolding unpark signalling
  signalling-unpark = ground arith

  pub wakes-unpark : wakes (unpark t) ≡ wakes t
  unfolding unpark wakes
  wakes-unpark = ground arith

  pub waiter-unpark : waiter (unpark t) ≡ waiter t
  unfolding unpark waiter
  waiter-unpark = ground arith

  pub waited-unpark : waited (unpark t) ≡ waited t
  unfolding unpark waited waiter
  waited-unpark = ground arith

  pub through-unpark : through (unpark t) ≡ through t
  unfolding unpark through waiter
  through-unpark = ground arith

  pub stray-unpark : stray (unpark t) ≡ stray t
  unfolding unpark stray
  stray-unpark = ground arith

  pub present-unpark : present (unpark t) ≡ present t
  unfolding unpark present
  present-unpark = ground arith

  pub frees-unpark : frees (unpark t) ≡ frees t
  unfolding unpark frees
  frees-unpark = ground arith

  pub asleep-unpark : asleep (unpark t) ≡ 0
  unfolding unpark asleep
  asleep-unpark = ground arith

  pub at_index-unpark : (k : ℕ) → at_index k (unpark t) ≡ at_index k t
  unfolding unpark at_index
  at_index-unpark k = ground arith
