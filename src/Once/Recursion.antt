-- ===== src/Once/Recursion.antt =====
-- A function that calls dispatch_once on the gate that it is called from: the crash of
-- _dispatch_once_wait ("trying to lock recursively").
use mathlib.Core.Path.{subst}
use book.Base.{
  ℕ, ◌/◌, ◌%◌, ◌≤◌, ◌<◌, ◌^◌, ◌≡◌, ◌≢◌, Bool, some, List, map, get_elem?, arith, le-total,
}
use book.Lock.{lock_value_from_tid}
use book.Once.{
  Memory, Choice, proceed, spurious, Pc, idle, trying, inside, waiting, Outcome, next, wake_all,
  crash, advance, Thread, unpark, System, Step, Reach, load, gate_tryenter, wait_round,
}
use book.Once.Weights.{owns, foreign, started}
use book.Once.Moves.{fresh, locked, settled}
use book.Once.Invariant.{Inv, AllNamed, Reach-Inv}
use book.Once.Crashes.{Distinct, advance-ne-crash}

-- Thread `i` is in the function, which has called dispatch_once_f again: the system, and where that call
-- stands. Its accesses and the steps of the other threads come in any order.
pub data Again (q : Bool) (tids : List ℕ) (counter i : ℕ) (t : Thread) : System → Pc → Type 0 where
  call :
      {s : System}
      → Reach q tids counter s
      → get_elem? s.threads i ≡ some t
      → t.pc ≡ inside
      → Again q tids counter i t s idle
  access :
      {s : System} {pc : Pc} (c : Choice) (pc' : Pc) (m : Memory)
      → Again q tids counter i t s pc
      → advance q c (lock_value_from_tid t.tid) pc s.mem ≡ next m pc'
      → Again q tids counter i t (record { mem = m; threads = s.threads }) pc'
  access_wake :
      {s : System} {pc : Pc} (c : Choice) (pc' : Pc) (m : Memory)
      → Again q tids counter i t s pc
      → advance q c (lock_value_from_tid t.tid) pc s.mem ≡ wake_all m pc'
      → Again q tids counter i t (record { mem = m; threads = map unpark s.threads }) pc'
  other :
      {s s' : System} {pc : Pc}
      → Again q tids counter i t s pc
      → Step q s s'
      → get_elem? s'.threads i ≡ some t
      → Again q tids counter i t s' pc

-- Where the call again can stand.
abbrev Stands : Pc → Type 0
Stands idle = Unit
Stands trying = Unit
Stands waiting = Unit
Stands pc = ⊥

abbrev follows : Pc → Pc
follows idle = trying
follows trying = waiting
follows pc = pc

-- The word bears the name of `self`.
record Owned (m : Memory) (tid : ℕ) : Type 0 where
  named : 4 ≤ m.once
  low : m.once < 2 ^ 32
  held : m.once % 4 < 2
  mine : m.once / 4 ≡ tid / 4

inside-Owned :
    (q : Bool) (s : System) (i : ℕ) (t : Thread)
    → Inv q s
    → get_elem? s.threads i ≡ some t
    → t.pc ≡ inside
    → Owned s.mem t.tid
unfolding owns foreign started
inside-Owned q s i t inv at pc =
    let f = le-total (foreign (s.mem.once / 4)) s.threads i t at in
    let o = le-total owns s.threads i t at in
    let e = le-total started s.threads i t at in
    elim inv.phase [
      | fresh v ↦ absurd (ground arith)
      | locked l ↦ record {
        named = l.named;
        low = l.low;
        held = l.held;
        mine = let own = l.own in ground arith;
      }
      | settled st ↦ absurd (let r = st.released in ground arith)
    ]

-- What the next access of the call again does, wherever it stands.
abbrev pub Caught : Outcome → Memory → Pc → Type 0
Caught o m idle = o ≡ next m trying
Caught o m trying = o ≡ next m waiting
Caught o m waiting = o ≡ crash
Caught o m pc = ⊥

owned-Caught :
    (q : Bool) (tid : ℕ) (m : Memory) (pc : Pc)
    → Owned m tid
    → Stands pc
    → Caught (advance q proceed (lock_value_from_tid tid) pc m) m pc
unfolding advance load gate_tryenter wait_round
owned-Caught q tid m idle o st = ground arith
owned-Caught q tid m trying o st = ground arith
owned-Caught q tid m waiting o st = ground arith
owned-Caught q tid m pc o st = absurd st

-- So it changes nothing in the memory.
access-follows :
    (q : Bool) (c : Choice) (tid : ℕ) (m m' : Memory) (pc pc' : Pc)
    → Owned m tid
    → Stands pc
    → advance q c (lock_value_from_tid tid) pc m ≡ next m' pc'
    → (m ≡ m') × (follows pc ≡ pc') × Stands (follows pc)
unfolding advance
access-follows q proceed tid m m' idle pc' o st e =
    let k = owned-Caught q tid m idle o tt in (ground arith, ground arith, tt)
access-follows q proceed tid m m' trying pc' o st e =
    let k = owned-Caught q tid m trying o tt in (ground arith, ground arith, tt)
access-follows q proceed tid m m' waiting pc' o st e =
    let k = owned-Caught q tid m waiting o tt in absurd (ground arith)
access-follows q spurious tid m m' idle pc' o st e = absurd (ground arith)
access-follows q spurious tid m m' trying pc' o st e = absurd (ground arith)
access-follows q spurious tid m m' waiting pc' o st e = absurd (ground arith)
access-follows q c tid m m' pc pc' o st e = absurd st

no_wake :
    (q : Bool) (c : Choice) (tid : ℕ) (m m' : Memory) (pc pc' : Pc)
    → Owned m tid
    → Stands pc
    → advance q c (lock_value_from_tid tid) pc m ≢ wake_all m' pc'
unfolding advance
no_wake q proceed tid m m' idle pc' o st e = let k = owned-Caught q tid m idle o tt in ground arith
no_wake q proceed tid m m' trying pc' o st e =
    let k = owned-Caught q tid m trying o tt in ground arith
no_wake q proceed tid m m' waiting pc' o st e =
    let k = owned-Caught q tid m waiting o tt in ground arith
no_wake q spurious tid m m' idle pc' o st e = ground arith
no_wake q spurious tid m m' trying pc' o st e = ground arith
no_wake q spurious tid m m' waiting pc' o st e = ground arith
no_wake q c tid m m' pc pc' o st e = st

record Within (q : Bool) (tids : List ℕ) (counter i : ℕ) (t : Thread) (s : System) (pc : Pc)
    : Type 0 where
  reached : Reach q tids counter s
  at : get_elem? s.threads i ≡ some t
  at_inside : t.pc ≡ inside
  stands : Stands pc

module _ {q : Bool} {tids : List ℕ} {counter i : ℕ} {t : Thread} (named : AllNamed tids) where
  Within-Owned : (s : System) (pc : Pc) → Within q tids counter i t s pc → Owned s.mem t.tid
  Within-Owned s pc w = inside-Owned q s i t (Reach-Inv named w.reached) w.at w.at_inside

  Again-Within :
      {s : System} {pc : Pc} → Again q tids counter i t s pc → Within q tids counter i t s pc
  Again-Within (call r at e) = record { reached = r; at = at; at_inside = e; stands = tt }
  Again-Within (access {s} {pc} c pc' m a e) =
      let w = Again-Within a in
      let (same, moved, st) =
        access-follows q c t.tid s.mem m pc pc' (Within-Owned s pc w) w.stands e in
      record {
        reached =
            subst (λ m'. Reach q tids counter (record { mem = m'; threads = s.threads })) same
              w.reached;
        at = w.at;
        at_inside = w.at_inside;
        stands = subst Stands moved st;
      }
  Again-Within (access_wake {s} {pc} c pc' m a e) =
      let w = Again-Within a in
      absurd (no_wake q c t.tid s.mem m pc pc' (Within-Owned s pc w) w.stands e)
  Again-Within (other a st at) =
      let w = Again-Within a in
      record {
        reached = Reach.step w.reached st;
        at = at;
        at_inside = w.at_inside;
        stands = w.stands;
      }

-- Let the ids of the threads be lock values, each another, and let the function of dispatch_once, on
-- thread i, have called dispatch_once on the same gate again. In any interleaving with the other
-- threads, that call has two accesses that change nothing, the entry and the attempt to enter, and the
-- third is the crash "trying to lock recursively": it stands nowhere else, so it does not return. No
-- other access, of any thread, is a crash.
pub Again-Caught :
    (q : Bool) (tids : List ℕ) (counter i : ℕ) (t : Thread) (s : System) (pc : Pc) (j : ℕ)
    (u : Thread) (c : Choice)
    → AllNamed tids
    → Distinct tids
    → Again q tids counter i t s pc
    → get_elem? s.threads j ≡ some u
    → Caught (advance q proceed (lock_value_from_tid t.tid) pc s.mem) s.mem pc
      × (advance q c (lock_value_from_tid u.tid) u.pc s.mem ≢ crash)
Again-Caught q tids counter i t s pc j u c named apart a at =
    let w = Again-Within named a in
    (
      owned-Caught q t.tid s.mem pc (Within-Owned named s pc w) w.stands,
      advance-ne-crash q tids counter s j u c named apart w.reached at,
    )
