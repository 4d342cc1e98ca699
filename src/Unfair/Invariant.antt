-- ===== src/Unfair/Invariant.antt =====
-- The invariant of the unfair lock in every state that any interleaving reaches.
use book.Base.{
  ℕ, ◌+◌, ◌^◌, ◌≤◌, ◌<◌, ◌≡◌, ◌⊎◌, Bool, true, false, refl, inl, inr, some, List, [], ◌∷◌,
  get_elem?, set, total, remove, total-remove, total-set-remove, total-le_total, ltb, arith,
  Bool-cases,
}
use mathlib.Core.Path.{fun_ext}
use book.Lock.{lock_value_from_tid}
use book.Unfair.{
  Pc, outside, slow, wait, parked, holding, unlock_slow, waking, Choice, call_lock, call_trylock,
  call_unlock, call_tryunlock, proceed, spurious, lock, trylock, lock_slow, unlock, tryunlock,
  unlock_slow_path, next, wake_one, advance, Thread, asleep, awoken, System, Step, run, wake,
  wake_none, all_outside, Reach, start, step,
}
use book.Unfair.Weights.{holds, foreign, alien, misnamed, unmarked, nameless, carries, foreign-le}
use book.Unfair.Moves.{Tally, Owned, Watched, Ordered, Kept, thread_at}
use book.Unfair.Unlocking.{advance-Kept}

-- Thread ids that are lock values: 32 bits, and more than the two low ones.
abbrev pub AllNamed : List ℕ → Type 0
AllNamed [] = Unit
AllNamed (tid ∷ tids) = (4 ≤ tid) × (tid < 2 ^ 32) × AllNamed tids

pub record Inv (s : System) : Type 0 where
  pub owned : Owned s.word (λ w. total w s.threads)
  pub watched : Watched s.word (λ w. total w s.threads)

total-Ordered : (ts : List Thread) → Ordered (λ w. total w ts)
total-Ordered ts o = total-le_total (foreign o) holds ts (foreign-le o)

-- The weights of the moved thread are with the others'.
at_others :
    (ts : List Thread) (i : ℕ) (t u : Thread)
    → get_elem? ts i ≡ some t
    → ◌≡◌ {A = Tally} (λ w. total w (set ts i u)) (λ w. total w (remove ts i) + w u)
at_others ts i t u at = fun_ext (λ (w : Thread → ℕ). total-set-remove w ts i t u at)

module _ (s : System) (inv : Inv s) (i : ℕ) (c : Choice) (t : Thread) (pc' : Pc) (word : ℕ)
    (at : get_elem? s.threads i ≡ some t) where
  others : Tally
  others w = total w (remove s.threads i)

  kept : Kept others t.tid (advance c (lock_value_from_tid t.tid) t.pc s.word)
  unfolding others
  kept =
      let e = fun_ext (λ (w : Thread → ℕ). total-remove w s.threads i t at) in
      advance-Kept others (total-Ordered (remove s.threads i)) t.tid s.word c t.pc
        (rw (← e) inv.owned) (rw (← e) inv.watched)

  run-Inv :
      advance c (lock_value_from_tid t.tid) t.pc s.word ≡ next word pc'
      → Inv (record { word = word; threads = set s.threads i (record t { pc = pc' }) })
  unfolding others
  run-Inv e =
      let k = rw e at kept in
      let back = at_others s.threads i t (record t { pc = pc' }) at in
      record { owned = rw back k.0; watched = rw back k.1 }

  waker-Owned :
      advance c (lock_value_from_tid t.tid) t.pc s.word ≡ wake_one word pc'
      → Owned word (λ w. total w (set s.threads i (record t { pc = pc' })))
  unfolding others
  waker-Owned e = rw (at_others s.threads i t (record t { pc = pc' }) at) (rw e at kept)

-- The woken thread keeps its name, and bears the waiters' bit if others sleep.
module _ (word : ℕ) (others : Tally) where
  awoken-Owned :
      (more : Bool) (tid : ℕ) (pc : Pc)
      → asleep (thread_at tid pc) ≡ 1
      → Owned word (λ w. others w + w (thread_at tid pc))
      → Owned word (λ w. others w + w (awoken more (thread_at tid pc)))
  unfolding asleep awoken holds foreign alien misnamed unmarked nameless
  awoken-Owned true tid (parked n) sleeps o = ground arith
  awoken-Owned false tid (parked n) sleeps o = ground arith
  awoken-Owned more tid pc sleeps o = absurd (ground arith)

  awoken-Watched :
      (more : Bool) (tid : ℕ) (pc : Pc)
      → asleep (thread_at tid pc) ≡ 1
      → (more ≡ true) ⊎ (others asleep ≡ 0)
      → Watched word (λ w. others w + w (awoken more (thread_at tid pc)))
  unfolding asleep awoken carries
  awoken-Watched true tid (parked n) sleeps few = record { kept = inr (inr (inr (ground arith))) }
  awoken-Watched false tid (parked n) sleeps few = record { kept = inl (ground arith) }
  awoken-Watched more tid pc sleeps few = absurd (ground arith)

-- Only the waker moves before the kernel wakes one.
waker-asleep :
    (c : Choice) (self : ℕ) (pc : Pc) (word : ℕ) (tid : ℕ)
    → (word' : ℕ) (pc' : Pc) → advance c self pc word ≡ wake_one word' pc'
    → (asleep (thread_at tid pc) ≡ 0) × (asleep (thread_at tid pc') ≡ 0)
unfolding advance lock trylock lock_slow unlock tryunlock unlock_slow_path asleep
waker-asleep call_lock self outside word tid word' pc' e = ground arith
waker-asleep call_trylock self outside word tid word' pc' e = ground arith
waker-asleep call_unlock self holding word tid word' pc' e = ground arith
waker-asleep call_tryunlock self holding word tid word' pc' e = ground arith
waker-asleep proceed self (slow n) word tid word' pc' e = ground arith
waker-asleep proceed self (wait v n) word tid word' pc' e = ground arith
waker-asleep proceed self (unlock_slow cur) word tid word' pc' e = ground arith
waker-asleep proceed self waking word tid word' pc' e = ground arith
waker-asleep spurious self (parked n) word tid word' pc' e = ground arith
waker-asleep c self pc word tid word' pc' e = ground arith

pub Step-Inv : {s s' : System} → Step s s' → Inv s → Inv s'
Step-Inv {s} (run i c t pc' word at e) inv = run-Inv s inv i c t pc' word at e
Step-Inv {s} (wake i j c t u pc' word at e there sleeps) inv =
    let ts = set s.threads i (record t { pc = pc' }) in
    let more = ltb 1 (total asleep s.threads) in
    let owned = waker-Owned s inv i c t pc' word at e in
    let back = at_others ts j u (awoken more u) there in
    let split = fun_ext (λ (w : Thread → ℕ). total-remove w ts j u there) in
    let still = waker-asleep c (lock_value_from_tid t.tid) t.pc s.word t.tid word pc' e in
    record {
      owned = rw back (
          awoken-Owned word (λ w. total w (remove ts j)) more u.tid u.pc sleeps
            (rw (← split) owned));
      watched = rw back (
          awoken-Watched word (λ w. total w (remove ts j)) more u.tid u.pc sleeps
            (elim (Bool-cases more) [
              | inl some_more ↦ inl some_more
              | inr none_more ↦ inr (
                  ground (
                    arith,
                    total-remove asleep ts j u there,
                    total-set-remove asleep s.threads i t (record t { pc = pc' }) at,
                    total-remove asleep s.threads i t at,
                  ))
            ]));
    }
Step-Inv {s} (wake_none i c t pc' word at e z) inv =
    let still = waker-asleep c (lock_value_from_tid t.tid) t.pc s.word t.tid word pc' e in
    record {
      owned = waker-Owned s inv i c t pc' word at e;
      watched = record {
        kept = inl (
            omega (
              arith,
              total-set-remove asleep s.threads i t (record t { pc = pc' }) at,
              total-remove asleep s.threads i t at,
            ));
      };
    }

all_outside-zero :
    (w : Thread → ℕ) (tids : List ℕ)
    → ((tid : ℕ) → w (thread_at tid outside) ≡ 0)
    → total w (all_outside tids) ≡ 0
unfolding total
all_outside-zero w [] h = refl
all_outside-zero w (tid ∷ tids) h = omega (arith, h tid, all_outside-zero w tids h)

all_outside-nameless : (tids : List ℕ) → AllNamed tids → total nameless (all_outside tids) ≡ 0
unfolding total nameless
all_outside-nameless [] h = refl
all_outside-nameless (tid ∷ tids) h = ground (arith, all_outside-nameless tids)

initial-Inv :
    (tids : List ℕ) → AllNamed tids → Inv (record { word = 0; threads = all_outside tids })
unfolding holds alien misnamed unmarked asleep
initial-Inv tids h = record {
  owned = record {
    small = omega arith;
    owner = inl (refl, all_outside-zero holds tids (λ tid. refl));
    mine = all_outside-zero alien tids (λ tid. refl);
    names = all_outside-zero misnamed tids (λ tid. refl);
    marked = all_outside-zero unmarked tids (λ tid. refl);
    tids = all_outside-nameless tids h;
  };
  watched = record { kept = inl (all_outside-zero asleep tids (λ tid. refl)) };
}

pub Reach-Inv : {tids : List ℕ} {s : System} → AllNamed tids → Reach tids s → Inv s
Reach-Inv {tids} h start = initial-Inv tids h
Reach-Inv h (step r st) = Step-Inv st (Reach-Inv h r)
