-- ===== src/Once/Safety.antt =====
-- What holds of dispatch_once in every state that any interleaving reaches.
use book.Base.{ℕ, ◌≤◌, ◌≡◌, Bool, some, get_elem?, List, arith, total-le_total, le-total}
use book.Once.{returned, Thread, System, Reach}
use book.Once.Weights.{
  owns, called, ended, after, started, called-le-owns, ended-le-called, after-le-started,
}
use book.Once.Moves.{fresh, locked, settled}
use book.Once.Invariant.{Inv, AllNamed, Reach-Inv}

runs_of_Inv : {q : Bool} (s : System) → Inv q s → (s.mem.runs ≤ 1) × (s.mem.finished ≤ s.mem.runs)
runs_of_Inv s inv =
    let once = total-le_total called owns s.threads called-le-owns in
    let order = total-le_total ended called s.threads ended-le-called in
    elim inv.phase [ fresh f ↦ ground arith | locked l ↦ ground arith | settled st ↦ ground arith ]

finished_of_Inv :
    {q : Bool} (s : System) (i : ℕ) (t : Thread)
    → Inv q s
    → get_elem? s.threads i ≡ some t
    → after t ≡ 1
    → (s.mem.runs ≡ 1) × (s.mem.finished ≡ 1)
finished_of_Inv s i t inv at past =
    let late = le-total after s.threads i t at in
    let early = total-le_total after started s.threads after-le-started in
    elim inv.phase [
      | fresh f ↦ absurd (ground arith)
      | locked l ↦ absurd (ground arith)
      | settled st ↦ (st.ran, st.over)
    ]

-- If the ids of the threads are lock values, then in every state that an interleaving reaches the
-- function was called at most once, and has returned at most as often as it was called.
pub runs-le_one :
    (q : Bool) (tids : List ℕ) (counter : ℕ) (s : System)
    → AllNamed tids
    → Reach q tids counter s
    → (s.mem.runs ≤ 1) × (s.mem.finished ≤ s.mem.runs)
runs-le_one q tids counter s named r = runs_of_Inv s (Reach-Inv named r)

-- If the ids of the threads are lock values, then in every state that an interleaving reaches in
-- which some thread has returned from dispatch_once, the function was called once and has returned.
pub returned-finished :
    (q : Bool) (tids : List ℕ) (counter : ℕ) (s : System) (i : ℕ) (t : Thread)
    → AllNamed tids
    → Reach q tids counter s
    → get_elem? s.threads i ≡ some t
    → t.pc ≡ returned
    → (s.mem.runs ≡ 1) × (s.mem.finished ≡ 1)
unfolding after
returned-finished q tids counter s i t named r at back =
    finished_of_Inv s i t (Reach-Inv named r) at (ground arith)
