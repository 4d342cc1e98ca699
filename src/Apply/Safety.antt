-- ===== src/Apply/Safety.antt =====
-- What holds of dispatch_apply in every state that any interleaving reaches.
use book.Base.{
  ℕ, ◌+◌, ◌≤◌, ◌≡◌, ◌⊎◌, ltb, if◌then◌else◌, true, some, get_elem?, total, total-le_total, le-total,
  arith,
}
use book.Apply.{gone, Thread, System, Reach}
use book.Apply.Weights.{inside, at_index, through, present, waiter, frees, at_index-le}
use book.Apply.Invariant.{Inv, Sized, Reach-Inv}

module _ (iter n : ℕ) (s : System) (inv : Inv iter n s) where
  -- Once da_todo is 0, every index has run and nobody runs one.
  done_of_Inv :
      (i : ℕ) (t : Thread)
      → get_elem? s.threads i ≡ some t
      → through t ≡ 1
      → (total inside s.threads ≡ 0) × (iter ≤ s.mem.index)
  done_of_Inv i t at e = ground (arith, inv.counts, le-total through s.threads i t at)

  no_index : (k : ℕ) → total inside s.threads ≡ 0 → total (at_index k) s.threads ≡ 0
  no_index k z = ground (arith, total-le_total (at_index k) inside s.threads (at_index-le k))

  ran_of_Inv :
      (i : ℕ) (t : Thread) (k : ℕ)
      → get_elem? s.threads i ≡ some t
      → through t ≡ 1
      → s.mem.ran k ≡ (if ltb k iter then 1 else 0)
  ran_of_Inv i t k at e =
      let (z, past_end) = done_of_Inv i t at e in ground (arith, inv.each k, no_index k z)

  at_most_once_of_Inv : (k : ℕ) → s.mem.ran k ≤ (if ltb k iter then 1 else 0)
  at_most_once_of_Inv k = ground (arith, inv.each k)

  -- A thread that has not lowered da_thr_cnt keeps the structure alive.
  freed_of_Inv :
      (i : ℕ) (t : Thread)
      → get_elem? s.threads i ≡ some t
      → (s.mem.freed ≡ 0) ⊎ ((s.mem.freed ≡ 1) × (t.pc ≡ gone))
  unfolding present frees
  freed_of_Inv i t at =
      ground (arith, inv.counts, le-total present s.threads i t at, le-total frees s.threads i t at)

-- When the caller of dispatch_apply has returned, the function has returned exactly once for each
-- index below the number of iterations and never for another, and no thread is still in it, if there
-- is work and the numbers of indices and threads are far from the ends of their types.
pub ran-exactly_once :
    (iter others : ℕ) (s : System) (i : ℕ) (t : Thread)
    → Sized iter others
    → Reach iter others s
    → get_elem? s.threads i ≡ some t
    → t.waits ≡ true
    → t.pc ≡ gone
    → ((k : ℕ) → s.mem.ran k ≡ (if ltb k iter then 1 else 0)) × (total inside s.threads ≡ 0)
unfolding through waiter
ran-exactly_once iter others s i t sized r at caller back =
    let inv = Reach-Inv sized r in
    let e : through t ≡ 1 = ground arith in
    (
      λ k. ran_of_Inv iter (others + 1) s inv i t k at e,
      (done_of_Inv iter (others + 1) s inv i t at e).0,
    )

-- In every state that an interleaving reaches, the function has returned at most once for each
-- index below the number of iterations, and never for another, if there is work and the numbers of
-- indices and threads are far from the ends of their types.
ran-at_most_once :
    (iter others : ℕ) (s : System) (k : ℕ)
    → Sized iter others
    → Reach iter others s
    → s.mem.ran k ≤ (if ltb k iter then 1 else 0)
ran-at_most_once iter others s k sized r =
    at_most_once_of_Inv iter (others + 1) s (Reach-Inv sized r) k

-- Under the same conditions, in every state that is reached the structure is not freed, or it was
-- freed once and every thread is gone, so that nobody reads or writes it afterwards.
pub freed-gone :
    (iter others : ℕ) (s : System) (i : ℕ) (t : Thread)
    → Sized iter others
    → Reach iter others s
    → get_elem? s.threads i ≡ some t
    → (s.mem.freed ≡ 0) ⊎ ((s.mem.freed ≡ 1) × (t.pc ≡ gone))
freed-gone iter others s i t sized r at =
    freed_of_Inv iter (others + 1) s (Reach-Inv sized r) i t at
