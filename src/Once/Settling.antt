-- ===== src/Once/Settling.antt =====
-- From every reachable state of dispatch_once there is a run that settles the gate.
use book.Base.{
  ℕ, ◌+◌, ◌%◌, ◌^◌, ◌<◌, ◌≡◌, inl, inr, Bool, refl, some, get_elem?, arith, total, total-pos,
  le-total, ◌==◌, Bool-cases,
}
use book.Lock.{lock_value_from_tid}
use book.Once.{
  Memory, proceed, Pc, idle, trying, callout, inside, broadcast, broadcast_slow, returned, next,
  load, gate_tryenter, gate_broadcast, new_once, advance, Thread, System,
}
use book.Once.Weights.{started, owns}
use book.Once.Moves.{Fresh, fresh, locked, settled, thread_at}
use book.Once.Accesses.{new_once-mark}
use book.Once.Invariant.{Inv}
use book.Once.Runs.{
  Runs, here, Runs-trans, IsSettled, marked-IsSettled, moved, one_move, moved-at, moved-Inv,
}

pub record Settles (q : Bool) (s : System) : Type 0 where
  pub end : System
  pub runs : Runs q s end
  pub inv : Inv q end
  pub done : IsSettled q end

-- A step before a run that settles.
module _ (q : Bool) (s : System) (i tid : ℕ) (pc pc' : Pc) (m : Memory)
    (at : get_elem? s.threads i ≡ some (thread_at tid pc))
    (e : advance q proceed (lock_value_from_tid tid) pc s.mem ≡ next m pc') where
  earlier : Settles q (moved s i tid pc' m) → Settles q s
  earlier k = record {
    end = k.end;
    runs = Runs-trans (one_move q s i tid pc pc' m at e) k.runs;
    inv = k.inv;
    done = k.done;
  }

gate_broadcast-next :
    (q : Bool) (self : ℕ) (m : Memory)
    → (pc' : Pc) × (gate_broadcast q self m ≡ next (record m { once = new_once q m }) pc')
unfolding gate_broadcast
gate_broadcast-next q self m = elim (Bool-cases (m.once % 2 ^ 32 == self)) [
  | inl quick ↦ (returned, rw quick)
  | inr busy ↦ (broadcast_slow (m.once % 2 ^ 32), rw busy)
]

module _ (q : Bool) (i tid : ℕ) where
  from_broadcast :
      (s : System) → Inv q s → get_elem? s.threads i ≡ some (thread_at tid broadcast) → Settles q s
  unfolding advance
  from_broadcast s inv at =
      let (pc', e) = gate_broadcast-next q (lock_value_from_tid tid) s.mem in
      let m : Memory = record s.mem { once = new_once q s.mem } in
      let inv' = moved-Inv q s i tid broadcast pc' m at e inv in
      record {
        end = moved s i tid pc' m;
        runs = one_move q s i tid broadcast pc' m at e;
        inv = inv';
        done =
            marked-IsSettled q (moved s i tid pc' m) inv'
              (ground (arith, (new_once-mark q s.mem).0));
      }

  from_inside :
      (s : System) → Inv q s → get_elem? s.threads i ≡ some (thread_at tid inside) → Settles q s
  unfolding advance
  from_inside s inv at =
      let m : Memory = record s.mem { finished = s.mem.finished + 1 } in
      earlier q s i tid inside broadcast m at refl (
        from_broadcast (moved s i tid broadcast m)
          (moved-Inv q s i tid inside broadcast m at refl inv)
          (moved-at q s i tid inside broadcast m at refl))

  from_callout :
      (s : System) → Inv q s → get_elem? s.threads i ≡ some (thread_at tid callout) → Settles q s
  unfolding advance
  from_callout s inv at =
      let m : Memory = record s.mem { runs = s.mem.runs + 1 } in
      earlier q s i tid callout inside m at refl (
        from_inside (moved s i tid inside m) (moved-Inv q s i tid callout inside m at refl inv)
          (moved-at q s i tid callout inside m at refl))

  enter_free :
      (m : Memory)
      → m.once ≡ 0
      → gate_tryenter (lock_value_from_tid tid) m
        ≡ next (record m { once = lock_value_from_tid tid }) callout
  unfolding gate_tryenter
  enter_free m z = ground arith

  load-trying : (m : Memory) → m.once ≡ 0 → load q m ≡ next m trying
  unfolding load
  load-trying m z = ground arith

  from_trying :
      (s : System)
      → Inv q s
      → s.mem.once ≡ 0
      → get_elem? s.threads i ≡ some (thread_at tid trying)
      → Settles q s
  unfolding advance
  from_trying s inv z at =
      let m : Memory = record s.mem { once = lock_value_from_tid tid } in
      earlier q s i tid trying callout m at (enter_free s.mem z) (
        from_callout (moved s i tid callout m)
          (moved-Inv q s i tid trying callout m at (enter_free s.mem z) inv)
          (moved-at q s i tid trying callout m at (enter_free s.mem z)))

  from_idle :
      (s : System)
      → Inv q s
      → s.mem.once ≡ 0
      → get_elem? s.threads i ≡ some (thread_at tid idle)
      → Settles q s
  unfolding advance
  from_idle s inv z at = earlier q s i tid idle trying s.mem at (load-trying s.mem z) (
      from_trying (moved s i tid trying s.mem)
        (moved-Inv q s i tid idle trying s.mem at (load-trying s.mem z) inv) z
        (moved-at q s i tid idle trying s.mem at (load-trying s.mem z)))

  -- Untouched, the gate is entered by whoever comes.
  from_Fresh :
      (s : System) (pc : Pc)
      → Inv q s
      → Fresh s.mem (λ w. total w s.threads)
      → get_elem? s.threads i ≡ some (thread_at tid pc)
      → Settles q s
  unfolding started
  from_Fresh s idle inv f at = from_idle s inv f.unlocked at
  from_Fresh s trying inv f at = from_trying s inv f.unlocked at
  from_Fresh s pc inv f at =
      absurd (ground (arith, le-total started s.threads i (thread_at tid pc) at))

  from_owner :
      (s : System) (pc : Pc)
      → Inv q s
      → 0 < owns (thread_at tid pc)
      → get_elem? s.threads i ≡ some (thread_at tid pc)
      → Settles q s
  unfolding owns
  from_owner s callout inv o at = from_callout s inv at
  from_owner s inside inv o at = from_inside s inv at
  from_owner s broadcast inv o at = from_broadcast s inv at
  from_owner s pc inv o at = absurd (ground arith)

pub settles :
    (q : Bool) (s : System) (i : ℕ) (t : Thread)
    → Inv q s
    → get_elem? s.threads i ≡ some t
    → Settles q s
settles q s i t inv at = elim inv.phase [
  | fresh f ↦ from_Fresh q i t.tid s t.pc inv f at
  | locked l ↦
      let (j, u, there, o) = total-pos owns s.threads (omega (arith, l.owner)) in
      from_owner q j u.tid s u.pc inv o there
  | settled st ↦ record { end = s; runs = here; inv = inv; done = st }
]
