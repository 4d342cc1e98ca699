-- ===== src/Once/Runs.antt =====
-- Runs of dispatch_once from any state, and one access of one thread as a run.
use book.Base.{
  ℕ, ◌≡◌, ◌≤◌, ◌%◌, Bool, some, map, get_elem?, set, arith, total, get_elem?-set-some,
  get_elem?-map, get_elem?-set_self,
}
use book.Lock.{lock_value_from_tid}
use book.Once.{
  Memory, proceed, spurious, Pc, next, advance, Thread, unpark, System, Step, run, wake, tick,
}
use book.Once.Moves.{Settled, fresh, locked, settled, thread_at}
use book.Once.Invariant.{Inv, Step-Inv}

-- A thread's access that is no unexplained wakeup.
abbrev pub Proceeds : {q : Bool} {s s' : System} → Step q s s' → Type 0
Proceeds (run i proceed t pc' m at e) = Unit
Proceeds (run i spurious t pc' m at e) = ⊥
Proceeds (wake i proceed t pc' m at e) = Unit
Proceeds (wake i spurious t pc' m at e) = ⊥
Proceeds tick = ⊥

-- Runs of such accesses.
pub data Runs (q : Bool) (s : System) : System → Type 0 where
  here : Runs q s s
  after : {s' u : System} → Runs q s s' → (st : Step q s' u) → Proceeds st → Runs q s u

pub Runs-trans : {q : Bool} {s s' u : System} → Runs q s s' → Runs q s' u → Runs q s u
Runs-trans r here = r
Runs-trans r (after k st p) = after (Runs-trans r k) st p

-- No step takes a thread away.
pub Step-present :
    {q : Bool} {s s' : System} (i : ℕ) (t : Thread)
    → Step q s s'
    → get_elem? s.threads i ≡ some t
    → (t' : Thread) × (get_elem? s'.threads i ≡ some t')
Step-present {q} {s} i t (run j c u pc' m at e) h =
    get_elem?-set-some s.threads j i t (record u { pc = pc' }) h
Step-present {q} {s} i t (wake j c u pc' m at e) h =
    get_elem?-set-some (map unpark s.threads) j i (unpark t) (record u { pc = pc' })
      (get_elem?-map unpark s.threads i t h)
Step-present i t tick h = (t, h)

pub Runs-present :
    {q : Bool} {s s' : System} (i : ℕ) (t : Thread)
    → Runs q s s'
    → get_elem? s.threads i ≡ some t
    → (t' : Thread) × (get_elem? s'.threads i ≡ some t')
Runs-present i t here h = (t, h)
Runs-present i t (after r st p) h = let (u, at) = Runs-present i t r h in Step-present i u st at

abbrev pub IsSettled : Bool → System → Type 0
IsSettled q s = Settled q s.mem (λ w. total w s.threads)

-- The word alone tells that the gate is settled.
pub marked-IsSettled : (q : Bool) (s : System) → Inv q s → 2 ≤ s.mem.once % 4 → IsSettled q s
marked-IsSettled q s inv mark = elim inv.phase [
  | fresh f ↦ absurd (ground arith)
  | locked l ↦ absurd (ground arith)
  | settled st ↦ st
]

-- The state after thread i, at `pc`, has moved to `pc'`.
abbrev pub moved : System → ℕ → ℕ → Pc → Memory → System
moved s i tid pc' m = record { mem = m; threads = set s.threads i (thread_at tid pc') }

module _ (q : Bool) (s : System) (i tid : ℕ) (pc pc' : Pc) (m : Memory)
    (at : get_elem? s.threads i ≡ some (thread_at tid pc))
    (e : advance q proceed (lock_value_from_tid tid) pc s.mem ≡ next m pc') where
  pub move : Step q s (moved s i tid pc' m)
  move = run i proceed (thread_at tid pc) pc' m at e

  pub one_move : Runs q s (moved s i tid pc' m)
  unfolding move
  one_move = after here move tt

  pub moved-at : get_elem? (moved s i tid pc' m).threads i ≡ some (thread_at tid pc')
  moved-at = get_elem?-set_self s.threads i (thread_at tid pc) (thread_at tid pc') at

  pub moved-Inv : Inv q s → Inv q (moved s i tid pc' m)
  moved-Inv inv = Step-Inv move inv
