-- ===== src/Timer/Updating.antt =====
-- _dispatch_timer_heap_update on a heap that was valid before a timer's keys were changed, and what is
-- at the root of a valid heap.
use book.Base.{ℕ, zero, suc, ◌+◌, ◌≤◌, ◌<◌, ◌≡◌, ◌≢◌, ◌↔◌, ◌⊎◌, inl, inr, ◌∙◌, arith, ◌^◌}
use native.Mathlib.Decide.{ℕ_discrete}
use book.Timer.{Heap, heap_id, parent, resift, update}
use book.Timer.Moving.{Holds}
use book.Timer.Sifting.{parent-lt}
use book.Timer.Loops.{State}
use book.Timer.Resift.{IsHeap, In, Resifted, resift-Resifted}
use book.Timer.Operations.{Agrees, Elsewhere-Agrees, Agrees-In, Agrees-IsHeap}
use book.Timer.Heaps.{IsValid}

pub record Updated (key' : ℕ → ℕ → ℕ) (h h' : Heap) : Type 0 where
  pub valid : IsValid key' h'
  pub members : (t : ℕ) → In 0 h' t ↔ In 0 h t

module _ (key key' : ℕ → ℕ → ℕ) (dt : ℕ) (others : (e t : ℕ) → t ≢ dt → key' e t ≡ key e t) where
  touch-State :
      (d : ℕ) (h : Heap)
      → h.count < 2 ^ 31
      → IsHeap key d h
      → In d h dt
      → State key' d dt h (h.entry d dt)
  touch-State d h few v present = record {
    inside = present.0;
    few = few;
    id = present.1;
    placed = record {
      at = λ j inside id away. v.filed j inside id;
      apart = λ j inside id away e. let f = v.filed j inside id in ground arith;
    };
    nearly = record {
      edges = λ c (two, inside, id) away under.
          let f = v.filed c inside id in
          let g = v.filed (parent c) in
          let k = others d (h.slot c) (λ e. ground arith) in
          let k' = others d (h.slot (parent c)) (λ e. ground (arith, parent-lt c, g)) in
          ground (arith, v.ordered c);
      bridged = λ c (two, inside, id) under deep.
          let r = h.entry d dt in
          let f = v.filed c inside id in
          let k = others d (h.slot c) (λ e. ground (arith, parent-lt c)) in
          let k' =
            others d (h.slot (parent r))
              (λ e. ground (arith, parent-lt r, v.filed (parent r), present)) in
          ground (arith, present, parent-lt c, parent-lt r, v.ordered c, v.ordered r);
    };
  }

  -- What the heap holds is what it held.
  touched :
      (d : ℕ) (h h' : Heap)
      → In d h dt
      → Resifted key' d dt h (h.entry d dt) h'
      → (t : ℕ) → In d h' t ↔ In d h t
  touched d h h' present r t = (λ x. to ((r.members t).0 x), λ x. (r.members t).1 (from x))
    where
      to : (t ≡ dt) ⊎ Holds d h (h.entry d dt) t → In d h t
      to (inl e) = rw e present
      to (inr (x, y, z, w)) = (x, y, w)

      from : In d h t → (t ≡ dt) ⊎ Holds d h (h.entry d dt) t
      from (x, y, z) = elim (ℕ_discrete t dt) [
        | yes e ↦ inl e
        | no n ↦ inr (x, y, λ e. n (let p = present.2 in ground arith), z)
      ]

  module _ (h : Heap) (v : IsValid key h) (present : In 0 h dt) where
    one : Heap
    one = resift key' dt h (h.entry 0 dt)

    one-Resifted : Resifted key' 0 dt h (h.entry 0 dt) one
    unfolding one
    one-Resifted =
        resift-Resifted key' 0 dt h (h.entry 0 dt) (touch-State 0 h v.few v.by_target present)

    one-Agrees : Agrees 1 h one
    one-Agrees = Elsewhere-Agrees 1 0 h one (omega arith) one-Resifted.elsewhere

    one_present : In 1 one dt
    one_present =
        (Agrees-In 1 h one one-Agrees one-Resifted.same_count dt).1 ((v.same dt).0 present)

    both : Heap
    both = resift key' dt one (one.entry 1 dt)

    both-Resifted : Resifted key' 1 dt one (one.entry 1 dt) both
    unfolding both
    both-Resifted = resift-Resifted key' 1 dt one (one.entry 1 dt) (
        touch-State 1 one (rw one-Resifted.same_count v.few)
          (Agrees-IsHeap key 1 h one one-Agrees one-Resifted.same_count v.by_deadline) one_present)

    both-Agrees : Agrees 0 one both
    both-Agrees = Elsewhere-Agrees 0 1 one both (omega arith) both-Resifted.elsewhere

    members_0 : (t : ℕ) → In 0 both t ↔ In 0 h t
    members_0 t =
        let a = Agrees-In 0 one both both-Agrees both-Resifted.same_count t in
        let b = touched 0 h one present one-Resifted t in (λ x. b.0 (a.0 x), λ x. a.1 (b.1 x))

    members_1 : (t : ℕ) → In 1 both t ↔ In 1 h t
    members_1 t =
        let a = Agrees-In 1 h one one-Agrees one-Resifted.same_count t in
        let b = touched 1 one both one_present both-Resifted t in
        (λ x. a.0 (b.0 x), λ x. b.1 (a.1 x))

    -- After the keys of one timer of a valid heap (of fewer than 2^30 timers) have changed, the update
    -- makes the heap valid for the new keys, with the same timers.
    pub update-Updated : Updated key' h (update key' h dt)
    unfolding update both one
    update-Updated = record {
      valid = record {
        by_target =
            Agrees-IsHeap key' 0 one both both-Agrees both-Resifted.same_count one-Resifted.heap;
        by_deadline = both-Resifted.heap;
        same = λ t. (
          λ x. (members_1 t).1 ((v.same t).0 ((members_0 t).0 x)),
          λ x. (members_0 t).1 ((v.same t).1 ((members_1 t).0 x)),
        );
        even = let n = both-Resifted.same_count ∙ one-Resifted.same_count in rw n v.even;
        few = let n = both-Resifted.same_count ∙ one-Resifted.same_count in rw n v.few;
        few_segments =
            let s = both-Resifted.same_segments ∙ one-Resifted.same_segments in rw s v.few_segments;
        room =
            let n = both-Resifted.same_count ∙ one-Resifted.same_count in
            let s = both-Resifted.same_segments ∙ one-Resifted.same_segments in rw (n, s) v.room;
      };
      members = members_0;
    }

module _ (key : ℕ → ℕ → ℕ) (d : ℕ) (h : Heap) (v : IsHeap key d h) (small : d < 2) where
  root_below :
      (fuel j : ℕ) → j < fuel → j < h.count → heap_id j ≡ d → key d (h.slot d) ≤ key d (h.slot j)
  root_below zero j few inside id = absurd (omega arith)
  root_below (suc fuel) j few inside id = elim (ℕ_discrete j d) [
    | yes e ↦ rw e (omega arith)
    | no n ↦
        let deep : 2 ≤ j = omega arith in
        let up = parent-lt j deep in
        let step = v.ordered j (deep, inside, id) in
        let rest = root_below fuel (parent j) (omega arith) (omega arith) (up.1 ∙ id) in omega arith
  ]

  -- The root of each heap, which is dth_min, has the least key of all its timers.
  root_least : (t : ℕ) → In d h t → key d (h.slot d) ≤ key d t
  root_least t (x, y, z) =
      let r = root_below (h.entry d t + 1) (h.entry d t) (omega arith) x y in ground arith
