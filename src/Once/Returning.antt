-- ===== src/Once/Returning.antt =====
-- Once the gate is settled, a thread that is awake returns by its own accesses.
use book.Base.{
  ℕ, ◌%◌, ◌≡◌, inl, inr, Bool, true, refl, ap, some, get_elem?, arith, le-total, leb, sub64,
  Bool-cases, ◌∙◌,
}
use book.Lock.{lock_value_from_tid}
use book.Once.{
  Memory, proceed, Pc, idle, trying, waiting, sleep, quiescing, mark_done, returned, next, load,
  gate_tryenter, wait_round, lock_wait, mark_if_quiesced, once_done, make_gen, gen_safe_delta,
  advance, Thread, System,
}
use book.Once.Weights.{unmarked}
use book.Once.Moves.{thread_at}
use book.Once.Invariant.{Inv}
use book.Once.Runs.{
  Runs, here, Runs-trans, IsSettled, marked-IsSettled, moved, one_move, moved-at, moved-Inv,
}

-- A run after which thread i has returned from its call.
pub record Returns (q : Bool) (s : System) (i : ℕ) : Type 0 where
  pub end : System
  pub runs : Runs q s end
  pub thread : Thread
  pub there : get_elem? end.threads i ≡ some thread
  pub back : thread.pc ≡ returned

pub prepend : {q : Bool} {s s' : System} {i : ℕ} → Runs q s s' → Returns q s' i → Returns q s i
prepend r k = record {
  end = k.end;
  runs = Runs-trans r k.runs;
  thread = k.thread;
  there = k.there;
  back = k.back;
}

abbrev pub At : System → ℕ → ℕ → Pc → Type 0
At s i tid pc = get_elem? s.threads i ≡ some (thread_at tid pc)

module _ (q : Bool) (i tid : ℕ) where
  pub from_returned : (s : System) → At s i tid returned → Returns q s i
  from_returned s at = record {
    end = s;
    runs = here;
    thread = thread_at tid returned;
    there = at;
    back = refl;
  }

  -- A step to `pc'`, and what follows.
  module _ (s : System) (pc pc' : Pc) (m : Memory) (at : At s i tid pc)
      (e : advance q proceed (lock_value_from_tid tid) pc s.mem ≡ next m pc') where
    onward : Returns q (moved s i tid pc' m) i → Returns q s i
    onward k = prepend (one_move q s i tid pc pc' m at e) k

    to_returned : pc' ≡ returned → Returns q s i
    to_returned r = onward (
        from_returned (moved s i tid pc' m)
          (moved-at q s i tid pc pc' m at e ∙ ap (λ (p : Pc). some (thread_at tid p)) r))

  pub from_mark_done : (s : System) → At s i tid mark_done → Returns q s i
  unfolding advance
  from_mark_done s at =
      to_returned s mark_done returned (record s.mem { once = once_done }) at refl refl

  pub from_quiescing : (s : System) (gen : ℕ) → At s i tid (quiescing gen) → Returns q s i
  unfolding advance mark_if_quiesced
  from_quiescing s gen at =
      elim (Bool-cases (leb gen_safe_delta (sub64 (make_gen s.mem.counter) gen))) [
        | inl old ↦ onward s (quiescing gen) mark_done s.mem at (rw old) (
            from_mark_done (moved s i tid mark_done s.mem)
              (moved-at q s i tid (quiescing gen) mark_done s.mem at (rw old)))
        | inr recent ↦ to_returned s (quiescing gen) returned s.mem at (rw recent) refl
      ]

  -- Either the gate is done, or its mark is looked at.
  through_mark :
      (s : System) (pc : Pc)
      → At s i tid pc
      → (s.mem.once ≡ once_done
          → advance q proceed (lock_value_from_tid tid) pc s.mem ≡ next s.mem returned)
      → (q ≡ true
          → s.mem.once % 4 ≡ 2
          → advance q proceed (lock_value_from_tid tid) pc s.mem
            ≡ next s.mem (quiescing s.mem.once))
      → IsSettled q s
      → Returns q s i
  through_mark s pc at whole part st = elim st.mark [
    | inl d ↦ to_returned s pc returned s.mem at (whole d) refl
    | inr (y, g) ↦ onward s pc (quiescing s.mem.once) s.mem at (part y g) (
        from_quiescing (moved s i tid (quiescing s.mem.once) s.mem) s.mem.once
          (moved-at q s i tid pc (quiescing s.mem.once) s.mem at (part y g)))
  ]

  pub from_waiting : (s : System) → IsSettled q s → At s i tid waiting → Returns q s i
  unfolding advance wait_round
  from_waiting s st at = through_mark s waiting at (λ d. ground arith) (λ y g. ground arith) st

  pub from_idle : (s : System) → IsSettled q s → At s i tid idle → Returns q s i
  unfolding advance load
  from_idle s st at = through_mark s idle at (λ d. ground arith) (λ y g. ground arith) st

  -- A step back to the loop.
  via_waiting :
      (s : System) (pc : Pc)
      → Inv q s
      → IsSettled q s
      → advance q proceed (lock_value_from_tid tid) pc s.mem ≡ next s.mem waiting
      → At s i tid pc
      → Returns q s i
  via_waiting s pc inv st e at = onward s pc waiting s.mem at e (
      from_waiting (moved s i tid waiting s.mem)
        (marked-IsSettled q (moved s i tid waiting s.mem)
          (moved-Inv q s i tid pc waiting s.mem at e inv) (ground arith))
        (moved-at q s i tid pc waiting s.mem at e))

  pub from_trying : (s : System) → Inv q s → IsSettled q s → At s i tid trying → Returns q s i
  unfolding advance gate_tryenter
  from_trying s inv st at = via_waiting s trying inv st (ground arith) at

  pub from_sleep :
      (s : System) (v : ℕ) → Inv q s → IsSettled q s → At s i tid (sleep v) → Returns q s i
  unfolding advance lock_wait unmarked
  from_sleep s v inv st at =
      let marked : v % 4 ≡ 1 =
        ground (arith, le-total unmarked s.threads i (thread_at tid (sleep v)) at, inv.marked) in
      via_waiting s (sleep v) inv st (ground arith) at
