-- ===== src/Semaphore/Disposal.antt =====
-- When _dispatch_semaphore_dispose passes its check.
use book.Base.{
  ℕ, ◌≤◌, ◌<◌, ◌^◌, ◌≡◌, ◌↔◌, refl, ◌∙◌, true, total, some, Option-cases, inl, inr, arith,
}
use book.Semaphore.Kernel.{Sema4}
use book.Semaphore.{
  now, forever, deadline, Pc, idle, slow, timed_out, undo, parked, posting, Choice, call_wait,
  call_signal, granted, expired, Memory, next, create, may_dispose, take_sema, advance, System, run,
  Reach, here, later,
}
use book.Semaphore.Balance.{waiting, owes, Run, quiet_value}

module _ {k : Sema4} where
  open k use {take}

  take_sema-orig : (m m' : Memory k) (pc' : Pc) → take_sema m ≡ next m' pc' → m'.orig ≡ m.orig
  unfolding take_sema
  take_sema-orig m m' pc' e = elim (Option-cases (take m.sema)) [
    | inl q ↦ absurd (ground arith)
    | inr (s, q) ↦ ground arith
  ]

  advance-orig :
      (c : Choice) (pc pc' : Pc) (m m' : Memory k) → advance c pc m ≡ next m' pc' → m'.orig ≡ m.orig
  unfolding advance
  advance-orig (call_wait t) idle pc' m m' e = ground arith
  advance-orig call_signal idle pc' m m' e = ground arith
  advance-orig c idle pc' m m' e = absurd (ground arith)
  advance-orig c (slow now) pc' m m' e = ground arith
  advance-orig c (slow forever) pc' m m' e = ground arith
  advance-orig granted (slow deadline) pc' m m' e = take_sema-orig m m' pc' e
  advance-orig expired (slow deadline) pc' m m' e = ground arith
  advance-orig c (slow deadline) pc' m m' e = absurd (ground arith)
  advance-orig c timed_out pc' m m' e = ground arith
  advance-orig c (undo orig) pc' m m' e = ground arith
  advance-orig c parked pc' m m' e = take_sema-orig m m' pc' e
  advance-orig c posting pc' m m' e = ground arith

  Reach-orig : {s t : System k} → Reach k s t → t.mem.orig ≡ s.mem.orig
  Reach-orig here = refl
  Reach-orig (later r (run i c pc pc' m at e)) = advance-orig c pc pc' _ m e ∙ Reach-orig r

  created_orig : (v : ℕ) (m : Memory k) → v < 2 ^ 64 → create v ≡ some m → m.orig < 2 ^ 63
  unfolding create
  created_orig v m h e = ground arith

  -- In every reachable state where no thread is inside wait or signal, _dispatch_semaphore_dispose
  -- passes its check exactly when no more waits have returned 0 than signals were made.
  pub dispose_iff :
      {v n : ℕ} {s : System k}
      → Run v n s
      → total waiting s.threads ≡ 0
      → total owes s.threads ≡ 0
      → (may_dispose s.mem ≡ true) ↔ (s.mem.acquired ≤ s.mem.signals)
  unfolding may_dispose
  dispose_iff {v} r w o =
      let q = quiet_value r w o in
      let same = Reach-orig r.reach in
      let small = created_orig v r.m r.fits r.made in (λ e. ground arith, λ e. ground arith)
