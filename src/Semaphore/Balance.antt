-- ===== src/Semaphore/Balance.antt =====
-- The accounting of `dispatch_semaphore_t` over every interleaving.
use book.Base.{
  ℕ, zero, suc, ◌+◌, ◌-◌, ◌≤◌, ◌<◌, ◌^◌, ◌≡◌, inl, inr, refl, false, some, List, [], ◌∷◌, is_neg64,
  pos_part, neg_part, length, get_elem?, set, length-set, total, total-set, total-le, le-total,
  arith, Option-cases,
}
use book.Semaphore.Kernel.{Sema4}
use book.Semaphore.{
  Timeout, now, forever, deadline, Pc, idle, slow, timed_out, undo, parked, posting, Choice,
  call_wait, call_signal, granted, expired, Memory, next, wait, signal, take_sema, wait_slow,
  undo_round, advance, create, System, Step, run, Reach, here, later,
}

-- A thread that took the fast path of wait below zero, and has neither returned nor undone it.
abbrev pub waiting : Pc → ℕ
waiting idle = 0
waiting posting = 0
waiting _ = 1

-- A thread that owes the kernel semaphore a post.
abbrev pub owes : Pc → ℕ
owes posting = 1
owes _ = 0

waiting-le : (p : Pc) → waiting p ≤ 1
waiting-le p = ground arith

module _ {k : Sema4} where
  open k use {State, post, take, count, count-post, count-take}

  -- What one thread's step does to the counts, with the other threads' weights as `w` and `o`.
  pub record Balanced (m : Memory k) (w o : ℕ) : Type 0 where
    pub fits : m.value < 2 ^ 64
    pub waiters : w ≡ count m.sema + o + neg_part m.value
    pub tokens : m.orig + m.signals ≡ m.acquired + pos_part m.value + count m.sema + o

  take_sema-Balanced :
      (m m' : Memory k) (pc' : Pc) (w o : ℕ)
      → take_sema m ≡ next m' pc'
      → Balanced m (w + 1) o
      → Balanced m' (w + waiting pc') (o + owes pc')
  unfolding take_sema
  take_sema-Balanced m m' pc' w o e b = elim (Option-cases (take m.sema)) [
    | inl q ↦ absurd (ground arith)
    | inr (s, q) ↦ ground (arith, count-take m.sema s q)
  ]

  wait-Balanced :
      (t : Timeout) (m m' : Memory k) (pc' : Pc) (w o : ℕ)
      → w + 1 < 2 ^ 63
      → wait t m ≡ next m' pc'
      → Balanced m w o
      → Balanced m' (w + waiting pc') (o + owes pc')
  unfolding wait
  wait-Balanced t m m' pc' w o few e b = ground arith

  signal-Balanced :
      (m m' : Memory k) (pc' : Pc) (w o : ℕ)
      → w < 2 ^ 63
      → signal m ≡ next m' pc'
      → Balanced m w o
      → Balanced m' (w + waiting pc') (o + owes pc')
  unfolding signal
  signal-Balanced m m' pc' w o few e b = ground arith

  undo_round-Balanced :
      (orig : ℕ) (m m' : Memory k) (pc' : Pc) (w o : ℕ)
      → undo_round orig m ≡ next m' pc'
      → Balanced m (w + 1) o
      → Balanced m' (w + waiting pc') (o + owes pc')
  unfolding undo_round
  undo_round-Balanced orig m m' pc' w o e b = ground arith

  wait_slow-Balanced :
      (t : Timeout) (c : Choice) (m m' : Memory k) (pc' : Pc) (w o : ℕ)
      → wait_slow t c m ≡ next m' pc'
      → Balanced m (w + 1) o
      → Balanced m' (w + waiting pc') (o + owes pc')
  unfolding wait_slow
  wait_slow-Balanced now c m m' pc' w o e b = ground arith
  wait_slow-Balanced forever c m m' pc' w o e b = ground arith
  wait_slow-Balanced deadline granted m m' pc' w o e b = take_sema-Balanced m m' pc' w o e b
  wait_slow-Balanced deadline expired m m' pc' w o e b = ground arith
  wait_slow-Balanced deadline (call_wait t) m m' pc' w o e b = absurd (ground arith)
  wait_slow-Balanced deadline call_signal m m' pc' w o e b = absurd (ground arith)

  -- A step of one thread, whatever the others are doing.
  advance-Balanced :
      (c : Choice) (pc : Pc) (m m' : Memory k) (pc' : Pc) (w o : ℕ)
      → w + 1 < 2 ^ 63
      → advance c pc m ≡ next m' pc'
      → Balanced m (w + waiting pc) (o + owes pc)
      → Balanced m' (w + waiting pc') (o + owes pc')
  unfolding advance
  advance-Balanced (call_wait t) idle m m' pc' w o few e b =
      wait-Balanced t m m' pc' w o few e (ground arith)
  advance-Balanced call_signal idle m m' pc' w o few e b =
      signal-Balanced m m' pc' w o (omega arith) e (ground arith)
  advance-Balanced granted idle m m' pc' w o few e b = absurd (ground arith)
  advance-Balanced expired idle m m' pc' w o few e b = absurd (ground arith)
  advance-Balanced c (slow t) m m' pc' w o few e b =
      wait_slow-Balanced t c m m' pc' w o e (ground arith)
  advance-Balanced c timed_out m m' pc' w o few e b = ground arith
  advance-Balanced c (undo orig) m m' pc' w o few e b =
      undo_round-Balanced orig m m' pc' w o e (ground arith)
  advance-Balanced c parked m m' pc' w o few e b = take_sema-Balanced m m' pc' w o e (ground arith)
  advance-Balanced c posting m m' pc' w o few e b = ground (arith, count-post m.sema)

-- The invariant of the whole system: the threads' counts, and that there are few of them.
pub record Inv (k : Sema4) (s : System k) : Type 0 where
  pub few : length s.threads + 1 < 2 ^ 63
  pub balanced : Balanced s.mem (total waiting s.threads) (total owes s.threads)

module _ {k : Sema4} where
  -- Taking the mover out of the totals.
  run-Inv :
      (s : System k) (i : ℕ) (c : Choice) (pc pc' : Pc) (m : Memory k)
      → get_elem? s.threads i ≡ some pc
      → advance c pc s.mem ≡ next m pc'
      → Inv k s
      → Inv k (record { mem = m; threads = set s.threads i pc' })
  run-Inv s i c pc pc' m at e inv = record {
    few = omega (arith, length-set s.threads i pc', inv.few);
    balanced = rw (after_w, after_o) (advance-Balanced c pc s.mem m pc' w o room e before);
  }
    where
      w : ℕ
      w = total waiting s.threads - waiting pc

      o : ℕ
      o = total owes s.threads - owes pc

      had_w : w + waiting pc ≡ total waiting s.threads
      had_w = omega (arith, le-total waiting s.threads i pc at)

      had_o : o + owes pc ≡ total owes s.threads
      had_o = omega (arith, le-total owes s.threads i pc at)

      after_w : total waiting (set s.threads i pc') ≡ w + waiting pc'
      after_w = omega (arith, had_w, total-set waiting s.threads i pc pc' at)

      after_o : total owes (set s.threads i pc') ≡ o + owes pc'
      after_o = omega (arith, had_o, total-set owes s.threads i pc pc' at)

      room : w + 1 < 2 ^ 63
      room = omega (arith, inv.few, total-le waiting s.threads waiting-le)

      before : Balanced s.mem (w + waiting pc) (o + owes pc)
      before = rw (had_w, had_o) inv.balanced

  Step-Inv : {s t : System k} → Step k s t → Inv k s → Inv k t
  Step-Inv {s} (run i c pc pc' m at e) inv = run-Inv s i c pc pc' m at e inv

  Reach-Inv : {s t : System k} → Inv k s → Reach k s t → Inv k t
  Reach-Inv inv here = inv
  Reach-Inv inv (later r st) = Step-Inv st (Reach-Inv inv r)

abbrev pub all_idle : ℕ → List Pc
all_idle zero = []
all_idle (suc n) = idle ∷ all_idle n

all_idle-total : (w : Pc → ℕ) (n : ℕ) → w idle ≡ 0 → total w (all_idle n) ≡ 0
unfolding total
all_idle-total w zero h = refl
all_idle-total w (suc n) h = omega (arith, h, all_idle-total w n h)

length-all_idle : (n : ℕ) → length (all_idle n) ≡ n
length-all_idle zero = refl
length-all_idle (suc n) = omega (arith, length-all_idle n)

module _ {k : Sema4} where
  open k use {count, count-created}

  start-Inv :
      (v n : ℕ) (m : Memory k)
      → create v ≡ some m
      → v < 2 ^ 64
      → n + 1 < 2 ^ 63
      → Inv k (record { mem = m; threads = all_idle n })
  unfolding create
  start-Inv v n m e fits few = record {
    few = omega (arith, length-all_idle n);
    balanced =
        rw (all_idle-total waiting n refl, all_idle-total owes n refl)
          (ground (arith, count-created));
  }

  -- Every system that a created semaphore and idle threads can reach.
  pub record Run (v n : ℕ) (s : System k) : Type 0 where
    pub m : Memory k
    pub made : create v ≡ some m
    pub fits : v < 2 ^ 64
    pub few : n + 1 < 2 ^ 63
    pub reach : Reach k (record { mem = m; threads = all_idle n }) s

  Run-Inv : {v n : ℕ} {s : System k} → Run v n s → Inv k s
  Run-Inv {v} {n} r = Reach-Inv (start-Inv v n r.m r.made r.fits r.few) r.reach

  -- In every state that any interleaving of fewer than 2^63 - 1 threads reaches, the initial value
  -- and the signals made are the waits that returned 0, the tokens in the value, the tokens in the
  -- kernel semaphore and the posts still owed to it: no token is lost and none is made up.
  pub tokens_conserved :
      {v n : ℕ} {s : System k}
      → Run v n s
      → s.mem.orig + s.mem.signals
        ≡ s.mem.acquired + pos_part s.mem.value + count s.mem.sema + total owes s.threads
  tokens_conserved r = (Run-Inv r).balanced.tokens

  -- No lost wakeup: in every reachable state, if a thread waits in the slow path while the value is
  -- not negative, then the kernel semaphore holds a token or a signaller is about to post one.
  pub no_lost_wakeup :
      {v n : ℕ} {s : System k}
      → Run v n s
      → 0 < total waiting s.threads
      → is_neg64 s.mem.value ≡ false
      → 0 < count s.mem.sema + total owes s.threads
  no_lost_wakeup r h p = ground (arith, (Run-Inv r).balanced)

  -- In every reachable state where no thread is inside wait or signal, the kernel semaphore is
  -- drained and the value, which is then not negative, is what was neither taken nor undone.
  pub quiet_value :
      {v n : ℕ} {s : System k}
      → Run v n s
      → total waiting s.threads ≡ 0
      → total owes s.threads ≡ 0
      → (count s.mem.sema ≡ 0)
        × (is_neg64 s.mem.value ≡ false)
        × (s.mem.acquired + s.mem.value ≡ s.mem.orig + s.mem.signals)
  quiet_value r w o = ground (arith, (Run-Inv r).balanced)
