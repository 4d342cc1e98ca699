-- ===== src/Once/Crashes.antt =====
-- The crashes of dispatch_once: none is reached by threads with distinct names whose function does not
-- call dispatch_once on its own gate. Once/Recursion has the call that does.
use book.Base.{
  ℕ, ◌+◌, ◌/◌, ◌≤◌, ◌≡◌, ◌≢◌, Bool, refl, some, List, [], ◌∷◌, get_elem?, arith, total, remove,
  total-remove, total-set-remove, total-set-map, total-map, total-add, le-total, ◌==◌,
  if◌then◌else◌, inl, inr, Bool-cases, ◌%◌,
}
use book.Lock.{lock_value_from_tid}
use book.Once.{
  Choice, proceed, spurious, Pc, idle, trying, callout, inside, broadcast, broadcast_slow, waiting,
  sleep, parked, quiescing, mark_done, returned, crash, advance, Thread, unpark, System, Step, run,
  wake, tick, all_idle, Reach, start, step, load, gate_tryenter, gate_broadcast,
  gate_broadcast_slow, wait_round, lock_wait, mark_if_quiesced,
}
use book.Once.Weights.{owns, foreign, alien, started}
use book.Once.Moves.{fresh, locked, settled}
use book.Once.Invariant.{Inv, AllNamed, Reach-Inv}

-- Whether a thread bears the name `owner`.
unfoldable claims : ℕ → Thread → ℕ
claims owner t = if t.tid / 4 == owner then 1 else 0

-- No id of the list gives the lock value that `tid` gives.
abbrev pub Elsewhere : ℕ → List ℕ → Type 0
Elsewhere tid [] = Unit
Elsewhere tid (x ∷ xs) = (lock_value_from_tid x ≢ lock_value_from_tid tid) × Elsewhere tid xs

-- Ids of distinct lock values.
abbrev pub Distinct : List ℕ → Type 0
Distinct [] = Unit
Distinct (tid ∷ tids) = Elsewhere tid tids × Distinct tids

Elsewhere-claims :
    (tid : ℕ) (tids : List ℕ) → Elsewhere tid tids → total (claims (tid / 4)) (all_idle tids) ≡ 0
unfolding total claims
Elsewhere-claims tid [] h = refl
Elsewhere-claims tid (x ∷ xs) h = ground (arith, Elsewhere-claims tid xs)

initial-claims : (o : ℕ) (tids : List ℕ) → Distinct tids → total (claims o) (all_idle tids) ≤ 1
unfolding total claims
initial-claims o [] h = omega arith
initial-claims o (tid ∷ tids) h = elim (Bool-cases (tid / 4 == o)) [
  | inl e ↦
      let same : tid / 4 ≡ o = ground arith in
      let none : total (claims o) (all_idle tids) ≡ 0 =
        rw same at (Elsewhere-claims tid tids h.0) in
      rw e (omega (arith, none))
  | inr n ↦ rw n (omega (arith, initial-claims o tids h.1))
]

claims-unpark : (o : ℕ) (t : Thread) → claims o (unpark t) ≡ claims o t
unfolding unpark claims
claims-unpark o t = ground arith

Step-claims :
    {q : Bool} {s s' : System} (o : ℕ)
    → Step q s s'
    → total (claims o) s'.threads ≡ total (claims o) s.threads
unfolding claims
Step-claims {q} {s} o (run i c t pc' m at e) = omega (
  arith,
  total-set-remove (claims o) s.threads i t (record t { pc = pc' }) at,
  total-remove (claims o) s.threads i t at,
)
Step-claims {q} {s} o (wake i c t pc' m at e) = omega (
  arith,
  total-set-map (claims o) unpark s.threads i t (record t { pc = pc' }) at,
  total-map (claims o) unpark (remove s.threads i) (claims-unpark o),
  total-remove (claims o) s.threads i t at,
)
Step-claims o tick = refl

Reach-claims :
    {q : Bool} {tids : List ℕ} {counter : ℕ} {s : System} (o : ℕ)
    → Distinct tids
    → Reach q tids counter s
    → total (claims o) s.threads ≤ 1
Reach-claims {tids = tids} o d start = initial-claims o tids d
Reach-claims o d (step r st) = omega (arith, Step-claims o st, Reach-claims o d r)

owns-le : (o : ℕ) (t : Thread) → owns t ≤ foreign o t + claims o t
unfolding foreign claims
owns-le o t = ground arith

module _ (q : Bool) (s : System) (inv : Inv q s) (i : ℕ) (t : Thread)
    (at : get_elem? s.threads i ≡ some t) where
  -- A thread that waits does not bear the owner's name, if no two threads bear one name.
  not_mine :
      t.pc ≡ waiting
      → total (claims (s.mem.once / 4)) s.threads ≤ 1
      → s.mem.once % 4 ≤ 1
      → s.mem.once / 4 ≢ t.tid / 4
  unfolding owns foreign claims started
  not_mine pc few held same =
      let o = s.mem.once / 4 in
      let others = remove s.threads i in
      let split = total-add owns (foreign o) (claims o) others (owns-le o) in
      let c = total-remove (claims o) s.threads i t at in
      let w = total-remove owns s.threads i t at in
      let f = total-remove (foreign o) s.threads i t at in
      let e = le-total started s.threads i t at in
      elim inv.phase [
        | fresh v ↦ ground arith
        | locked l ↦ ground arith
        | settled st ↦ ground arith
      ]

  waiting_goes_on :
      t.pc ≡ waiting
      → total (claims (s.mem.once / 4)) s.threads ≤ 1
      → wait_round q (lock_value_from_tid t.tid) s.mem ≢ crash
  unfolding wait_round started
  waiting_goes_on pc few h =
      let e = le-total started s.threads i t at in
      elim inv.phase [
        | fresh v ↦ ground arith
        | locked l ↦ not_mine pc few (ground arith) (ground arith)
        | settled st ↦ ground arith
      ]

  slow_goes_on :
      (cur : ℕ)
      → t.pc ≡ broadcast_slow cur
      → gate_broadcast_slow (lock_value_from_tid t.tid) cur s.mem ≢ crash
  unfolding gate_broadcast_slow alien
  slow_goes_on cur pc h = ground (arith, inv.mine, le-total alien s.threads i t at)

  goes_on :
      (c : Choice) (pc : Pc)
      → t.pc ≡ pc
      → total (claims (s.mem.once / 4)) s.threads ≤ 1
      → advance q c (lock_value_from_tid t.tid) pc s.mem ≢ crash
  unfolding advance
  goes_on proceed waiting e few = waiting_goes_on e few
  goes_on proceed (broadcast_slow cur) e few = slow_goes_on cur e
  goes_on proceed idle e few = unfold load in λ h. ground arith
  goes_on proceed trying e few = unfold gate_tryenter in λ h. ground arith
  goes_on proceed broadcast e few = unfold gate_broadcast in λ h. ground arith
  goes_on proceed (sleep v) e few = unfold lock_wait in λ h. ground arith
  goes_on proceed (quiescing gen) e few = unfold mark_if_quiesced in λ h. ground arith
  goes_on proceed callout e few = λ h. ground arith
  goes_on proceed inside e few = λ h. ground arith
  goes_on proceed (parked v) e few = λ h. ground arith
  goes_on proceed mark_done e few = λ h. ground arith
  goes_on proceed returned e few = λ h. ground arith
  goes_on spurious (parked v) e few = λ h. ground arith
  goes_on spurious pc e few = λ h. ground arith

-- If the ids of the threads are lock values, each another, and the function does not call dispatch_once
-- on its own gate, no access is a crash ("trying to lock recursively" or "lock not owned by current
-- thread"), in any state that an interleaving reaches.
pub advance-ne-crash :
    (q : Bool) (tids : List ℕ) (counter : ℕ) (s : System) (i : ℕ) (t : Thread) (c : Choice)
    → AllNamed tids
    → Distinct tids
    → Reach q tids counter s
    → get_elem? s.threads i ≡ some t
    → advance q c (lock_value_from_tid t.tid) t.pc s.mem ≢ crash
advance-ne-crash q tids counter s i t c named apart r at =
    goes_on q s (Reach-Inv named r) i t at c t.pc refl (Reach-claims (s.mem.once / 4) apart r)
