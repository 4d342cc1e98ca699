-- ===== src/Group/Lifecycle.antt =====
-- semaphore.c: how a dispatch group begins (_dispatch_group_create_with_count) and the check of its
-- end (_dispatch_group_dispose).
use book.Base.{
  ℕ, zero, suc, ◌+◌, ◌*◌, ◌%◌, ◌^◌, ◌<◌, ◌≡◌, ◌↔◌, Bool, true, refl, Option, none, some, ◌==◌,
  if◌then◌else◌, sub32, total, arith,
}
use book.Group.Word.{dg_bits, value_interval}
use book.Group.{
  idle, call_enter, proceed, Memory, Outcome, next, enter, advance, System, Reach, created,
}
use book.Group.Invariant.{Reach-Inv}
use book.Group.Safety.{inside, quiet_group}

-- A new group that has been entered n times, and the reference that a group that is not empty holds.
create_with_count : ℕ → Memory
create_with_count n =
    let m = (created 0).mem in
    if n == 0
    then m
    else record m { state = sub32 0 n * value_interval % 2 ^ 32; retains = 1; outstanding = n }

-- _dispatch_group_create_and_enter
abbrev create_and_enter : Memory
create_and_enter = create_with_count 1

-- The test of _dispatch_group_dispose: the low half of the word is 0.
pub may_dispose_group : Memory → Bool
may_dispose_group m = dg_bits m.state == 0

-- What a step leaves, if it neither crashes nor blocks.
memory : Outcome → Option Memory
memory (next m pc) = some m
memory _ = none

-- One call of dispatch_group_enter, with no other thread between its two accesses.
enter_alone : Memory → Option Memory
unfolding memory
enter_alone m = elim (advance call_enter idle m) [
  | next m' pc ↦ elim pc [ idle ↦ some m' | other ↦ memory (advance proceed other m') ]
  | _ ↦ none
]

enters : ℕ → Memory → Option Memory
enters zero m = some m
enters (suc k) m = elim (enters k m) [ some m' ↦ enter_alone m' | none ↦ none ]

enter_alone-create :
    (n : ℕ) → n + 1 < 2 ^ 30 → enter_alone (create_with_count n) ≡ some (create_with_count (suc n))
unfolding enter_alone create_with_count enter advance
enter_alone-create n h = ground arith

-- To create a group with a count of n, below 2^30, is to create one and to enter it n times.
enters-create_with_count :
    (n : ℕ) → n < 2 ^ 30 → enters n (create_with_count 0) ≡ some (create_with_count n)
unfolding enters
enters-create_with_count zero h = refl
enters-create_with_count (suc n) h =
    rw (enters-create_with_count n (omega arith)) (enter_alone-create n (omega arith))

-- In every state that any interleaving reaches before the group has emptied 2^32 - 1 times, and where
-- no thread is inside a call, the check of _dispatch_group_dispose passes exactly when no enter is
-- outstanding.
pub group_dispose_iff :
    {n : ℕ} {s : System} (r : Reach n s) (few : s.mem.cycles + 1 < 2 ^ 32)
    → total inside s.threads ≡ 0
    → (may_dispose_group s.mem ≡ true) ↔ (s.mem.outstanding ≡ 0)
unfolding may_dispose_group
group_dispose_iff r few quiet = (
  λ e. ground (arith, (Reach-Inv r few).counted),
  λ e. let q = quiet_group r few quiet e in ground arith,
)
