-- ===== src/Timer/Heaps.antt =====
-- The timer heap as a whole: both heaps are in order and hold the same timers, after every operation.
use native.Mathlib.Decide.{ℕ_discrete}
use book.Base.{
  ◌-◌, if-elim, ℕ, ◌+◌, ◌^◌, ◌%◌, ◌≤◌, ◌<◌, ◌≡◌, ◌↔◌, ◌⊎◌, inl, inr, ◌∙◌, ◌==◌, ==_iff, arith, leb,
  true, refl, all_below, all_below_sound,
}
use book.Timer.{Heap, capacity, resift, raise_qos, make_room, first_timer, insert}
use book.Timer.Resift.{IsHeap, In, Resifted, resift-Resifted}
use book.Timer.Operations.{
  Agrees, Elsewhere-Agrees, Agrees-In, Agrees-IsHeap, append-State, append-members,
}

pub record IsValid (key : ℕ → ℕ → ℕ) (h : Heap) : Type 0 where
  pub by_target : IsHeap key 0 h
  pub by_deadline : IsHeap key 1 h
  pub same : (t : ℕ) → In 0 h t ↔ In 1 h t
  pub even : h.count % 2 ≡ 0
  pub few : h.count < 2 ^ 31
  pub few_segments : h.segments ≤ 30
  pub room : h.count ≤ capacity h.segments

-- A segment more makes room for more than a timer.
more_room : all_below 30 (λ s. leb (capacity s + 2) (capacity (s + 1))) ≡ true
unfolding all_below capacity
more_room = refl

capacity-suc : (s : ℕ) → s < 30 → capacity s + 2 ≤ capacity (s + 1)
capacity-suc s h =
    let e = all_below_sound 30 (λ s. leb (capacity s + 2) (capacity (s + 1))) s more_room h in
    ground arith

two_fit : all_below 31 (λ s. leb 2 (capacity s)) ≡ true
unfolding all_below capacity
two_fit = refl

capacity_two : (s : ℕ) → s ≤ 30 → 2 ≤ capacity s
capacity_two s h =
    let e = all_below_sound 31 (λ s. leb 2 (capacity s)) s two_fit (omega arith) in ground arith

full_room : 2 ^ 31 ≤ capacity 30
unfolding capacity
full_room = omega arith

-- With fewer than 2^31 slots in use, a heap with 30 segments is not full.
not_full : (s count : ℕ) → s ≤ 30 → count < 2 ^ 31 → capacity s < count → s < 30
not_full s count h few full = elim (ℕ_discrete s 30) [
  | yes e ↦ let f = rw e at full in absurd (omega (arith, full_room))
  | no n ↦ omega arith
]

module _ (key : ℕ → ℕ → ℕ) where
  -- The timers of a resifted heap, seen from the heap before.
  pub record Inserted (dt : ℕ) (h h' : Heap) : Type 0 where
    pub valid : IsValid key h'
    pub members : (t : ℕ) → In 0 h' t ↔ ((t ≡ dt) ⊎ In 0 h t)

  module _ (qos : ℕ → ℕ) (h : Heap) (dt : ℕ) (v : IsValid key h) (new : In 0 h dt → ⊥)
      (few : h.count + 2 < 2 ^ 31) where
    larger : Heap
    larger = raise_qos qos (record h { count = (h.count + 2) % 2 ^ 32 }) dt

    larger-Agrees : (d : ℕ) → Agrees d h (make_room larger)
    unfolding larger
    larger-Agrees d = record { slots = λ j id. ground arith; entries = λ t. ground arith }

    larger_count : (make_room larger).count ≡ h.count + 2
    unfolding larger
    larger_count = ground arith

    larger_few : (make_room larger).segments ≤ 30
    unfolding larger
    larger_few = let s = v.few_segments in ground (arith, not_full h.segments (h.count + 2) s few)

    larger_room : h.count + 2 ≤ capacity (make_room larger).segments
    unfolding larger
    larger_room =
        let r = v.room in
        let s = v.few_segments in
        ground (arith, not_full h.segments (h.count + 2) s few, capacity-suc h.segments)

    one : Heap
    one = resift key dt (make_room larger) h.count

    one-Resifted : Resifted key 0 dt (make_room larger) (h.count + 0) one
    unfolding one
    one-Resifted =
        let z : h.count + 0 ≡ h.count = omega arith in
        let st =
          append-State key 0 dt h (make_room larger) (omega arith) v.by_target v.even new
            (larger-Agrees 0) larger_count (rw larger_count few) in
        rw z (resift-Resifted key 0 dt (make_room larger) h.count (rw z at st))

    one-Agrees : Agrees 1 h one
    one-Agrees =
        let a = Elsewhere-Agrees 1 0 (make_room larger) one (omega arith) one-Resifted.elsewhere in
        let b = larger-Agrees 1 in
        record {
          slots = λ j id. a.slots j id ∙ b.slots j id;
          entries = λ t. a.entries t ∙ b.entries t;
        }

    one_count : one.count ≡ h.count + 2
    one_count = one-Resifted.same_count ∙ larger_count

    both : Heap
    both = resift key dt one (h.count + 1)

    both-Resifted : Resifted key 1 dt one (h.count + 1) both
    unfolding both
    both-Resifted = resift-Resifted key 1 dt one (h.count + 1) (
        append-State key 1 dt h one (omega arith) v.by_deadline v.even (λ x. new ((v.same dt).1 x))
          one-Agrees one_count (rw one_count few))

    both_members_0 : (t : ℕ) → In 0 both t ↔ ((t ≡ dt) ⊎ In 0 h t)
    both_members_0 t =
        let a = Elsewhere-Agrees 0 1 one both (omega arith) both-Resifted.elsewhere in
        let m = Agrees-In 0 one both a both-Resifted.same_count t in
        let n =
          append-members key 0 dt h (make_room larger) one (omega arith) v.even (larger-Agrees 0)
            larger_count one-Resifted t in
        (λ x. n.0 (m.0 x), λ x. m.1 (n.1 x))

    both_members_1 : (t : ℕ) → In 1 both t ↔ ((t ≡ dt) ⊎ In 1 h t)
    both_members_1 t =
        append-members key 1 dt h one both (omega arith) v.even one-Agrees one_count both-Resifted t

    both-Inserted : Inserted dt h both
    both-Inserted = record {
      valid = record {
        by_target =
            Agrees-IsHeap key 0 one both
              (Elsewhere-Agrees 0 1 one both (omega arith) both-Resifted.elsewhere)
              both-Resifted.same_count one-Resifted.heap;
        by_deadline = both-Resifted.heap;
        same = λ t. (
          λ x. (both_members_1 t).1 (to t ((both_members_0 t).0 x)),
          λ x. (both_members_0 t).1 (from t ((both_members_1 t).0 x)),
        );
        even = let n = both-Resifted.same_count ∙ one_count in omega (arith, v.even);
        few = let n = both-Resifted.same_count ∙ one_count in rw n few;
        few_segments =
            let s = both-Resifted.same_segments ∙ one-Resifted.same_segments in rw s larger_few;
        room =
            let n = both-Resifted.same_count ∙ one_count in
            let s = both-Resifted.same_segments ∙ one-Resifted.same_segments in
            rw (n, s) larger_room;
      };
      members = both_members_0;
    }
      where
        to : (t : ℕ) → (t ≡ dt) ⊎ In 0 h t → (t ≡ dt) ⊎ In 1 h t
        to t (inl e) = inl e
        to t (inr x) = inr ((v.same t).0 x)

        from : (t : ℕ) → (t ≡ dt) ⊎ In 1 h t → (t ≡ dt) ⊎ In 0 h t
        from t (inl e) = inl e
        from t (inr x) = inr ((v.same t).1 x)

    first-Inserted : h.count ≡ 0 → Inserted dt h (first_timer larger dt)
    unfolding larger
    first-Inserted e = record {
      valid = record {
        by_target = record {
          ordered = λ c child. absurd (ground arith);
          filed = λ j inside id. ground arith;
        };
        by_deadline = record {
          ordered = λ c child. absurd (ground arith);
          filed = λ j inside id. ground arith;
        };
        same = λ t. (λ x. ground arith, λ x. ground arith);
        even = ground arith;
        few = ground arith;
        few_segments = let s = v.few_segments in ground arith;
        room = let s = v.few_segments in ground (arith, capacity_two h.segments);
      };
      members = λ t. (λ x. inl (ground arith), λ x. ground arith);
    }

    -- Inserting a timer that is not in a valid heap, where the slots in use stay below 2^31 (so fewer
    -- than 2^30 timers), makes a valid heap, with that timer and those that were there.
    pub insert-Inserted : Inserted dt h (insert key qos h dt)
    unfolding insert both one larger
    insert-Inserted =
        let idx : ((h.count + 2) % 2 ^ 32 + 2 ^ 32 - 2) % 2 ^ 32 ≡ h.count = omega arith in
        rw idx (
          if-elim (λ (r : Heap). Inserted dt h r) (h.count == 0)
            (λ e. first-Inserted ((==_iff _ 0).0 e)) (λ n. both-Inserted))
