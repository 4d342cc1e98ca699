-- ===== src/Once/Waking.antt =====
-- Threads that sleep on the gate of dispatch_once are woken, and every call can return.
use book.Base.{
  ℕ, ◌<◌, ◌≡◌, ◌≢◌, Bool, refl, ap, some, List, map, get_elem?, set, arith, total-pos, le-total,
  get_elem?-set_self, get_elem?-set_other, get_elem?-map, ◌∙◌,
}
use book.Lock.{lock_value_from_tid}
use book.Once.{
  proceed, Pc, idle, trying, callout, inside, broadcast, broadcast_slow, waiting, sleep, parked,
  quiescing, mark_done, returned, wake_all, gate_broadcast_slow, advance, Thread, unpark, System,
  Step, wake, Reach,
}
use book.Once.Weights.{owns, slow, asleep, alien}
use book.Once.Moves.{thread_at}
use book.Once.Invariant.{Inv, Step-Inv, Reach-Inv, AllNamed}
use book.Once.Runs.{Runs, here, after, Runs-present, IsSettled, marked-IsSettled}
use book.Once.Returning.{
  Returns, prepend, At, from_returned, from_mark_done, from_quiescing, from_waiting, from_idle,
  from_trying, from_sleep,
}
use book.Once.Settling.{settles}

-- The state after thread j has woken all.
abbrev pub woken : System → ℕ → ℕ → System
woken s j tid = record {
  mem = s.mem;
  threads = set (map unpark s.threads) j (thread_at tid returned);
}

module _ (q : Bool) (s : System) (inv : Inv q s) (j tid cur : ℕ)
    (at : At s j tid (broadcast_slow cur)) where
  slow-wakes :
      advance q proceed (lock_value_from_tid tid) (broadcast_slow cur) s.mem
      ≡ wake_all s.mem returned
  unfolding advance gate_broadcast_slow alien
  slow-wakes =
      ground (arith, inv.mine, le-total alien s.threads j (thread_at tid (broadcast_slow cur)) at)

  waking : Step q s (woken s j tid)
  waking = wake j proceed (thread_at tid (broadcast_slow cur)) returned s.mem at slow-wakes

  waking_run : Runs q s (woken s j tid)
  unfolding waking
  waking_run = after here waking tt

  from_slow : Returns q s j
  unfolding unpark
  from_slow = prepend waking_run (
      from_returned q j tid (woken s j tid) (
        get_elem?-set_self (map unpark s.threads) j (thread_at tid (broadcast_slow cur))
          (thread_at tid returned)
          (get_elem?-map unpark s.threads j (thread_at tid (broadcast_slow cur)) at)))

  -- Another that slept goes round the loop.
  wakes_other : IsSettled q s → (i tid' v : ℕ) → At s i tid' (parked v) → Returns q s i
  unfolding unpark
  wakes_other st i tid' v sleeps =
      let other : j ≢ i = λ e. ground arith in
      prepend waking_run (
        from_waiting q i tid' (woken s j tid)
          (marked-IsSettled q (woken s j tid) (Step-Inv waking inv) (ground (arith, st.mark)))
          (get_elem?-set_other (map unpark s.threads) j i (thread_at tid returned) other
            ∙ get_elem?-map unpark s.threads i (thread_at tid' (parked v)) sleeps))

slow-broadcast_slow :
    (tid : ℕ) (pc : Pc) → 0 < slow (thread_at tid pc) → (cur : ℕ) × (pc ≡ broadcast_slow cur)
unfolding slow
slow-broadcast_slow tid (broadcast_slow cur) h = (cur, refl)
slow-broadcast_slow tid pc h = absurd (ground arith)

module _ (q : Bool) (s : System) (inv : Inv q s) (st : IsSettled q s) (i : ℕ) where
  from_parked : (tid v : ℕ) → At s i tid (parked v) → Returns q s i
  unfolding asleep
  from_parked tid v at =
      let one = le-total asleep s.threads i (thread_at tid (parked v)) at in
      let (j, u, there, o) = total-pos slow s.threads (ground (arith, st.woken)) in
      let (cur, e) = slow-broadcast_slow u.tid u.pc o in
      wakes_other q s inv j u.tid cur (there ∙ ap (λ (p : Pc). some (thread_at u.tid p)) e) st i tid
        v at

  -- Once settled, every thread can return, wherever it stands.
  from_settled : (tid : ℕ) (pc : Pc) → At s i tid pc → Returns q s i
  unfolding owns
  from_settled tid idle at = from_idle q i tid s st at
  from_settled tid trying at = from_trying q i tid s inv st at
  from_settled tid waiting at = from_waiting q i tid s st at
  from_settled tid (sleep v) at = from_sleep q i tid s v inv st at
  from_settled tid (parked v) at = from_parked tid v at
  from_settled tid (broadcast_slow cur) at = from_slow q s inv i tid cur at
  from_settled tid (quiescing gen) at = from_quiescing q i tid s gen at
  from_settled tid mark_done at = from_mark_done q i tid s at
  from_settled tid returned at = from_returned q i tid s at
  from_settled tid callout at =
      absurd (ground (arith, st.released, le-total owns s.threads i (thread_at tid callout) at))
  from_settled tid inside at =
      absurd (ground (arith, st.released, le-total owns s.threads i (thread_at tid inside) at))
  from_settled tid broadcast at =
      absurd (ground (arith, st.released, le-total owns s.threads i (thread_at tid broadcast) at))

-- A run without unexplained wakeups leads from every state that is reached to one where thread i has
-- returned from its call, if the ids of the threads are lock values: no interleaving leaves a caller
-- stuck. The function returns, and does not call dispatch_once on its own gate.
pub can_return :
    (q : Bool) (tids : List ℕ) (counter : ℕ) (s : System) (i : ℕ) (t : Thread)
    → AllNamed tids
    → Reach q tids counter s
    → get_elem? s.threads i ≡ some t
    → Returns q s i
can_return q tids counter s i t named r at =
    let k = settles q s i t (Reach-Inv named r) at in
    let (u, there) = Runs-present i t k.runs at in
    prepend k.runs (from_settled q k.end k.inv k.done i u.tid u.pc there)
