-- ===== src/Once/Invariant.antt =====
-- The invariant of dispatch_once in every state that any interleaving reaches.
use book.Base.{
  ℕ, ◌+◌, ◌^◌, ◌≤◌, ◌<◌, ◌≡◌, Bool, refl, some, List, [], ◌∷◌, map, get_elem?, set, arith, total,
  remove, total-remove, total-set-remove, total-set-map, total-map, total-map_zero, total-le_total,
}
use mathlib.Core.Path.{fun_ext}
use book.Lock.{lock_value_from_tid}
use book.Once.{
  Memory, Choice, Pc, next, wake_all, advance, Thread, unpark, System, Step, run, wake, tick,
  all_idle, initial, Reach, start, step,
}
use book.Once.Weights.{
  started, owns, called, ended, after, slow, asleep, foreign, unmarked, alien, nameless,
  owns-le-started, called-le-owns, ended-le-owns, after-le-started, asleep-le-started,
  foreign-le-owns, started-unpark, owns-unpark, called-unpark, ended-unpark, after-unpark,
  slow-unpark, asleep-unpark, foreign-unpark, unmarked-unpark, alien-unpark, nameless-unpark,
}
use book.Once.Moves.{
  Tally, fresh, locked, settled, Holds, Ordered, Woken, with_thread, Kept, thread_at,
}
use book.Once.Advancing.{advance-Kept}

-- Thread ids that are lock values: 32 bits, and more than the two low ones.
abbrev pub AllNamed : List ℕ → Type 0
AllNamed [] = Unit
AllNamed (tid ∷ tids) = (4 ≤ tid) × (tid < 2 ^ 32) × AllNamed tids

abbrev pub Inv : Bool → System → Type 0
Inv q s = Holds q s.mem (λ w. total w s.threads)

total-Ordered : (ts : List Thread) → Ordered (λ w. total w ts)
total-Ordered ts = record {
  owns_started = total-le_total owns started ts owns-le-started;
  called_owns = total-le_total called owns ts called-le-owns;
  ended_owns = total-le_total ended owns ts ended-le-owns;
  after_started = total-le_total after started ts after-le-started;
  asleep_started = total-le_total asleep started ts asleep-le-started;
  foreign_owns = λ o. total-le_total (foreign o) owns ts (foreign-le-owns o);
}

total-Woken : (ts : List Thread) → Woken (λ w. total w ts) (λ w. total w (map unpark ts))
total-Woken ts = record {
  s_started = total-map started unpark ts started-unpark;
  s_owns = total-map owns unpark ts owns-unpark;
  s_called = total-map called unpark ts called-unpark;
  s_ended = total-map ended unpark ts ended-unpark;
  s_after = total-map after unpark ts after-unpark;
  s_slow = total-map slow unpark ts slow-unpark;
  s_foreign = λ o. total-map (foreign o) unpark ts (λ t. foreign-unpark t o);
  s_unmarked = total-map unmarked unpark ts unmarked-unpark;
  s_alien = total-map alien unpark ts alien-unpark;
  s_nameless = total-map nameless unpark ts nameless-unpark;
  none_asleep = total-map_zero asleep unpark ts asleep-unpark;
}

module _ (q : Bool) (s : System) (inv : Inv q s) (i : ℕ) (c : Choice) (t : Thread) (pc' : Pc)
    (m : Memory) (at : get_elem? s.threads i ≡ some t) where
  others : Tally
  others w = total w (remove s.threads i)

  apart : Holds q s.mem (with_thread others t.tid t.pc)
  unfolding others
  apart = rw (← fun_ext (λ (w : Thread → ℕ). total-remove w s.threads i t at)) inv

  kept : Kept q others t.tid (advance q c (lock_value_from_tid t.tid) t.pc s.mem)
  unfolding others
  kept = advance-Kept q others (total-Ordered (remove s.threads i)) t.tid s.mem c t.pc apart

  run-Inv :
      advance q c (lock_value_from_tid t.tid) t.pc s.mem ≡ next m pc'
      → Inv q (record { mem = m; threads = set s.threads i (record t { pc = pc' }) })
  unfolding others
  run-Inv e =
      rw (fun_ext (λ (w : Thread → ℕ). total-set-remove w s.threads i t (record t { pc = pc' }) at))
        (rw e at kept)

  wake-Inv :
      advance q c (lock_value_from_tid t.tid) t.pc s.mem ≡ wake_all m pc'
      → Inv q (record { mem = m; threads = set (map unpark s.threads) i (record t { pc = pc' }) })
  unfolding others
  wake-Inv e =
      rw
        (fun_ext
          (λ (w : Thread → ℕ). total-set-map w unpark s.threads i t (record t { pc = pc' }) at))
        ((rw e at kept) (λ w. total w (map unpark (remove s.threads i)))
          (total-Woken (remove s.threads i)))

tick-Inv :
    (q : Bool) (s : System)
    → Inv q s
    → Inv q (record { mem = record s.mem { counter = s.mem.counter + 1 }; threads = s.threads })
tick-Inv q s inv = record {
  word = inv.word;
  marked = inv.marked;
  mine = inv.mine;
  tids = inv.tids;
  phase = elim inv.phase [
    | fresh f ↦ fresh (ground arith)
    | locked l ↦ locked (ground arith)
    | settled st ↦ settled (ground arith)
  ];
}

pub Step-Inv : {q : Bool} {s s' : System} → Step q s s' → Inv q s → Inv q s'
Step-Inv {q} {s} (run i c t pc' m at e) inv = run-Inv q s inv i c t pc' m at e
Step-Inv {q} {s} (wake i c t pc' m at e) inv = wake-Inv q s inv i c t pc' m at e
Step-Inv {q} {s} tick inv = tick-Inv q s inv

-- Before the first call, nobody has any weight.
all_idle-total :
    (w : Thread → ℕ) (tids : List ℕ)
    → ((tid : ℕ) → w (thread_at tid Pc.idle) ≡ 0)
    → total w (all_idle tids) ≡ 0
unfolding total
all_idle-total w [] h = refl
all_idle-total w (tid ∷ tids) h = omega (arith, h tid, all_idle-total w tids h)

all_idle-nameless : (tids : List ℕ) → AllNamed tids → total nameless (all_idle tids) ≡ 0
unfolding total nameless
all_idle-nameless [] h = refl
all_idle-nameless (tid ∷ tids) h = ground (arith, all_idle-nameless tids)

initial-Inv :
    (q : Bool) (tids : List ℕ) (counter : ℕ) → AllNamed tids → Inv q (initial tids counter)
unfolding started unmarked alien
initial-Inv q tids counter h = record {
  word = omega arith;
  marked = all_idle-total unmarked tids (λ tid. refl);
  mine = all_idle-total alien tids (λ tid. refl);
  tids = all_idle-nameless tids h;
  phase = fresh (record {
    unlocked = refl;
    nobody = all_idle-total started tids (λ tid. refl);
    unrun = refl;
    unfinished = refl;
  });
}

pub Reach-Inv :
    {q : Bool} {tids : List ℕ} {counter : ℕ} {s : System}
    → AllNamed tids
    → Reach q tids counter s
    → Inv q s
Reach-Inv {q} {tids} {counter} h start = initial-Inv q tids counter h
Reach-Inv h (step r st) = Step-Inv st (Reach-Inv h r)
