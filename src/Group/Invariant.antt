-- ===== src/Group/Invariant.antt =====
-- The five invariants of a dispatch group together, kept by every step of every thread.
use book.Base.{
  ℕ, zero, suc, ◌+◌, ◌^◌, ◌≤◌, ◌<◌, ◌≡◌, inl, inr, refl, some, map, get_elem?, set, arith, total,
  remove, total-remove, total-set-remove, total-set-map, total-map, total-map_zero, total-le_total,
  total-add,
}
use mathlib.Core.Path.{fun_ext}
use book.Group.Word.{dg_gen}
use book.Group.{
  Pc, idle, Choice, now, later, call_enter, call_leave, call_wait, Memory, next, wake_all, After,
  advance, unpark, System, Step, run, wake, Reach, start, step, all_idle, created,
}
use book.Group.Counting.{Counted, advance-Counted}
use book.Group.Notices.{carries, Noticed, advance-Noticed}
use book.Group.References.{owed, pending, Referenced, advance-Referenced}
use book.Group.Settling.{committed, Settling, advance-Settling}
use book.Group.Waiters.{stale, will_wake, waking, late, fresh, Watched, Moves, Keeps, advance-Moves}

-- The five invariants, over totals given as functions of a weight.
pub record Holds (m : Memory) (t : (Pc → ℕ) → ℕ) : Type 0 where
  pub counted : Counted m
  pub noticed : Noticed m (t carries)
  pub referenced : Referenced m (t owed) (t pending)
  pub settling : Settling m (t committed)
  pub watched :
      Watched m
        (t (late (dg_gen m.state)))
        (t (fresh (dg_gen m.state)))
        (t (stale (dg_gen m.state)))
        (t will_wake)
        (t waking)

abbrev pub Inv : System → Type 0
Inv s = Holds s.mem (λ w. total w s.threads)

late-up : (g : ℕ) (pc : Pc) → late (g + 1) pc ≤ late g pc
late-up g pc = ground arith

fresh-up : (g : ℕ) (pc : Pc) → fresh (g + 1) pc ≤ late g pc
fresh-up g pc = ground arith

stale-up : (g : ℕ) (pc : Pc) → stale (g + 1) pc ≤ stale g pc + fresh g pc
stale-up g pc = ground arith

-- Waking the sleepers changes no weight but theirs.
carries-unpark : (pc : Pc) → carries (unpark pc) ≡ carries pc
unfolding unpark
carries-unpark pc = ground arith

owed-unpark : (pc : Pc) → owed (unpark pc) ≡ owed pc
unfolding unpark
owed-unpark pc = ground arith

pending-unpark : (pc : Pc) → pending (unpark pc) ≡ pending pc
unfolding unpark
pending-unpark pc = ground arith

committed-unpark : (pc : Pc) → committed (unpark pc) ≡ committed pc
unfolding unpark
committed-unpark pc = ground arith

will_wake-unpark : (pc : Pc) → will_wake (unpark pc) ≡ will_wake pc
unfolding unpark
will_wake-unpark pc = ground arith

waking-unpark : (pc : Pc) → waking (unpark pc) ≡ waking pc
unfolding unpark
waking-unpark pc = ground arith

late-unpark : (g : ℕ) (pc : Pc) → late g (unpark pc) ≡ late g pc
unfolding unpark
late-unpark g pc = ground arith

fresh-unpark : (g : ℕ) (pc : Pc) → fresh g (unpark pc) ≡ fresh g pc
unfolding unpark
fresh-unpark g pc = ground arith

stale-unpark : (g : ℕ) (pc : Pc) → stale g (unpark pc) ≡ 0
unfolding unpark
stale-unpark g pc = ground arith

module _ (s : System) (inv : Inv s) (i : ℕ) (c : Choice) (pc pc' : Pc) (m : Memory)
    (at : get_elem? s.threads i ≡ some pc) where
  gen : ℕ
  gen = dg_gen s.mem.state

  others : (Pc → ℕ) → ℕ
  others w = total w (remove s.threads i)

  before : (w : Pc → ℕ) → total w s.threads ≡ others w + w pc
  unfolding others
  before w = total-remove w s.threads i pc at

  after : (w : Pc → ℕ) → total w (set s.threads i pc') ≡ others w + w pc'
  unfolding others
  after w = total-set-remove w s.threads i pc pc' at

  -- The invariants, with the mover apart.
  apart : Holds s.mem (λ w. others w + w pc)
  apart = rw (← fun_ext before) inv

  moves :
      s.mem.cycles + 1 < 2 ^ 32
      → Keeps gen
          (others (late gen))
          (others (fresh gen))
          (others (stale gen))
          (others (late (gen + 1)))
          (others (fresh (gen + 1)))
          (others (stale (gen + 1)))
          (others will_wake)
          (others waking)
          (advance c pc s.mem)
  unfolding gen others
  moves few =
      advance-Moves gen _ _ _ _ _ _ _ _ s.mem apart.counted refl c pc few
        (total-le_total _ _ _ (late-up gen)) (total-le_total _ _ _ (fresh-up gen))
        (total-add _ _ _ _ (stale-up gen)) apart.watched

  moved-Watched :
      (ot : (Pc → ℕ) → ℕ)
      → Moves gen
          (ot (late gen))
          (ot (fresh gen))
          (ot (stale gen))
          (ot (late (gen + 1)))
          (ot (fresh (gen + 1)))
          (ot (stale (gen + 1)))
          (ot will_wake)
          (ot waking)
          m
          pc'
      → Watched m
          (ot (late (dg_gen m.state)) + late (dg_gen m.state) pc')
          (ot (fresh (dg_gen m.state)) + fresh (dg_gen m.state) pc')
          (ot (stale (dg_gen m.state)) + stale (dg_gen m.state) pc')
          (ot will_wake + will_wake pc')
          (ot waking + waking pc')
  unfolding gen
  moved-Watched ot (inl (g, w)) = rw g w
  moved-Watched ot (inr (g, w)) = rw g w

  run-Inv :
      s.mem.cycles + 1 < 2 ^ 32
      → advance c pc s.mem ≡ next m pc'
      → Inv (record { mem = m; threads = set s.threads i pc' })
  run-Inv few e = rw (fun_ext after) (record {
    counted = rw e at (advance-Counted c pc s.mem apart.counted);
    noticed = rw e at (advance-Noticed c pc s.mem (others carries) apart.noticed);
    referenced = rw e at (
        advance-Referenced c pc s.mem (others owed) (others pending) apart.counted (others carries)
          apart.noticed apart.referenced);
    settling =
        rw e at (advance-Settling c pc s.mem (others committed) apart.counted apart.settling);
    watched = moved-Watched others (rw e at (moves few));
  })

  after_wake :
      (w : Pc → ℕ)
      → ((x : Pc) → w (unpark x) ≡ w x)
      → total w (set (map unpark s.threads) i pc') ≡ others w + w pc'
  unfolding others
  after_wake w keep =
      rw
        (total-set-map w unpark s.threads i pc pc' at, total-map w unpark (remove s.threads i) keep)

  after_wake_stale : (g : ℕ) → total (stale g) (set (map unpark s.threads) i pc') ≡ stale g pc'
  after_wake_stale g = omega (
    arith,
    total-set-map (stale g) unpark s.threads i pc pc' at,
    total-map_zero (stale g) unpark (remove s.threads i) (stale-unpark g),
  )

  wake-Inv :
      s.mem.cycles + 1 < 2 ^ 32
      → advance c pc s.mem ≡ wake_all m pc'
      → Inv (record { mem = m; threads = set (map unpark s.threads) i pc' })
  unfolding gen
  wake-Inv few e = record {
    counted = rw e at (advance-Counted c pc s.mem apart.counted);
    noticed =
        rw (after_wake carries carries-unpark)
          (rw e at (advance-Noticed c pc s.mem (others carries) apart.noticed));
    referenced =
        rw (after_wake owed owed-unpark, after_wake pending pending-unpark)
          (rw e at (
            advance-Referenced c pc s.mem (others owed) (others pending) apart.counted
              (others carries) apart.noticed apart.referenced));
    settling =
        rw (after_wake committed committed-unpark)
          (rw e at (advance-Settling c pc s.mem (others committed) apart.counted apart.settling));
    watched =
        let w = rw e at (moves few) in
        rw
          (
            w.0,
            after_wake (late gen) (late-unpark gen),
            after_wake (fresh gen) (fresh-unpark gen),
            after_wake_stale gen,
            after_wake will_wake will_wake-unpark,
            after_wake waking waking-unpark,
          )
          w.1;
  }

Step-Inv : {s t : System} → s.mem.cycles + 1 < 2 ^ 32 → Step s t → Inv s → Inv t
Step-Inv {s} few (run i c pc pc' m at e) inv = run-Inv s inv i c pc pc' m at few e
Step-Inv {s} few (wake i c pc pc' m at e) inv = wake-Inv s inv i c pc pc' m at few e

advance-cycles :
    (c : Choice) (pc : Pc) (m : Memory) → After (λ m' _. m.cycles ≤ m'.cycles) (advance c pc m)
unfolding advance
advance-cycles call_enter idle m = ground arith
advance-cycles call_leave idle m = ground arith
advance-cycles (call_wait now) idle m = ground arith
advance-cycles (call_wait later) idle m = ground arith
advance-cycles c pc m = ground arith

Step-cycles : {s t : System} → Step s t → s.mem.cycles ≤ t.mem.cycles
Step-cycles {s} (run i c pc pc' m at e) = rw e at (advance-cycles c pc s.mem)
Step-cycles {s} (wake i c pc pc' m at e) = rw e at (advance-cycles c pc s.mem)

all_idle-total : (w : Pc → ℕ) (n : ℕ) → w idle ≡ 0 → total w (all_idle n) ≡ 0
unfolding total
all_idle-total w zero h = refl
all_idle-total w (suc n) h = omega (arith, h, all_idle-total w n h)

created-Inv : (n : ℕ) → Inv (created n)
created-Inv n = record {
  counted = omega arith;
  noticed = rw (all_idle-total carries n refl) (record { one = refl; queues = refl; order = refl });
  referenced =
      rw (all_idle-total owed n refl, all_idle-total pending n refl) (record { held = refl });
  settling = inl refl;
  watched = record {
    none_late = all_idle-total (late 0) n refl;
    current = inl (all_idle-total (fresh 0) n refl);
    owed = inl (all_idle-total (stale 0) n refl);
  };
}

-- While fewer than 2^32 - 1 cycles have passed, so that the generation has not come round.
pub Reach-Inv : {n : ℕ} {s : System} → Reach n s → s.mem.cycles + 1 < 2 ^ 32 → Inv s
Reach-Inv {n} start few = created-Inv n
Reach-Inv (step {s} {t} r st) few = Step-Inv (earlier few) st (Reach-Inv r (earlier few))
  where
    earlier : t.mem.cycles + 1 < 2 ^ 32 → s.mem.cycles + 1 < 2 ^ 32
    earlier h = omega (arith, Step-cycles st)
