-- ===== src/Semaphore/Examples.antt =====
-- Runs of the semaphore, over a kernel semaphore that is a plain counter.
use book.Base.{
  true, ◌≤◌, ℕ, zero, suc, ◌+◌, ◌<◌, ◌≡◌, ◌↔◌, refl, Option, none, some, [], ◌∷◌, arith, pos_part,
  total,
}
use book.Semaphore.Kernel.{Sema4}
use book.Semaphore.{
  forever, idle, slow, parked, posting, call_wait, call_signal, granted, Memory, create, advance,
  System, run, Reach, here, later,
}
use book.Semaphore.Disposal.{dispose_iff}
use book.Semaphore.{may_dispose}
use book.Semaphore.Balance.{owes, Run, tokens_conserved, no_lost_wakeup}

abbrev take_one : ℕ → Option ℕ
take_one zero = none
take_one (suc n) = some n

take_one-suc : (s t : ℕ) → take_one s ≡ some t → s ≡ t + 1
take_one-suc s t e = ground arith

take_one-none : (s : ℕ) → take_one s ≡ none → s ≡ 0
take_one-none s e = ground arith

abbrev counter : Sema4
counter = record {
  State = ℕ;
  created = 0;
  post = λ n. n + 1;
  take = take_one;
  count = λ n. n;
  count-created = refl;
  count-post = λ s. refl;
  count-take = take_one-suc;
  take-none = take_one-none;
}

abbrev fresh : Memory counter
fresh = record { value = 0; orig = 0; sema = 0; acquired = 0; signals = 0 }

-- A thread waits for ever on an empty semaphore, and a second one has signalled and not yet posted.
abbrev handing : System counter
handing = record {
  mem = record { value = 0; orig = 0; sema = 0; acquired = 0; signals = 1 };
  threads = parked ∷ posting ∷ [];
}

reach_handing : Reach counter (record { mem = fresh; threads = idle ∷ idle ∷ [] }) handing
unfolding advance
reach_handing =
    later
      (later (later here (run 0 (call_wait forever) _ (slow forever) _ refl refl))
        (run 0 granted _ parked _ refl refl))
      (run 1 call_signal _ posting _ refl refl)

Run-handing : Run 0 2 handing
unfolding create
Run-handing = record {
  m = fresh;
  made = refl;
  fits = omega arith;
  few = omega arith;
  reach = reach_handing;
}

-- The same two threads, both calls returned.
abbrev handed : System counter
handed = record {
  mem = record { value = 0; orig = 0; sema = 0; acquired = 1; signals = 1 };
  threads = idle ∷ idle ∷ [];
}

Run-handed : Run 0 2 handed
unfolding create advance
Run-handed = record {
  m = fresh;
  made = refl;
  fits = omega arith;
  few = omega arith;
  reach =
      later (later reach_handing (run 1 granted _ idle _ refl refl))
        (run 0 granted _ idle _ refl refl);
}

tokens_conserved_example : 0 + 1 ≡ 0 + pos_part 0 + 0 + total owes handing.threads
tokens_conserved_example = tokens_conserved Run-handing

no_lost_wakeup_example : 0 < 0 + total owes handing.threads
unfolding total
no_lost_wakeup_example = no_lost_wakeup Run-handing (omega arith) refl

dispose_iff_example : (may_dispose handed.mem ≡ true) ↔ (handed.mem.acquired ≤ handed.mem.signals)
unfolding total
dispose_iff_example = dispose_iff Run-handed refl refl
