-- ===== src/Timer/Leaving.antt =====
-- _dispatch_timer_heap_remove on a valid heap.
use mathlib.Core.Path.{subst}
use book.Base.{if-elim, ℕ, ◌+◌, ◌-◌, ◌%◌, ◌^◌, ◌≤◌, ◌≡◌, ◌≢◌, ◌↔◌, refl, ◌∙◌, ◌==◌, ==_iff, arith}
use book.Timer.{Heap, capacity, refill, clear_entry, none_left, less_room, remove, invalid_id}
use book.Timer.Resift.{IsHeap, In}
use book.Timer.Operations.{Agrees, Elsewhere-Agrees, Agrees-In, Agrees-IsHeap}
use book.Timer.Removal.{Removed, refill-Removed}
use book.Timer.Heaps.{IsValid}

module _ (key : ℕ → ℕ → ℕ) (d dt : ℕ) (h : Heap) (few : h.count ≤ invalid_id)
    (gone : In d h dt → ⊥) where
  -- Clearing the entries of a timer that is not in a heap does nothing to the heap.
  clear-IsHeap : IsHeap key d h → IsHeap key d (clear_entry h dt)
  clear-IsHeap v = record {
    ordered = v.ordered;
    filed = λ j inside id.
        let f = v.filed j inside id in
        let other : h.slot j ≢ dt = λ e. gone (ground arith) in ground arith;
  }

  clear-In : (t : ℕ) → In d (clear_entry h dt) t ↔ In d h t
  clear-In t = (
    λ (x, y, z). ground arith,
    λ (x, y, z). let other : t ≢ dt = (λ e. gone (ground arith)) in ground arith,
  )

module _ (key : ℕ → ℕ → ℕ) where
  pub record Left (dt : ℕ) (h h' : Heap) : Type 0 where
    pub valid : IsValid key h'
    pub members : (t : ℕ) → In 0 h' t ↔ (In 0 h t × (t ≢ dt))
    pub smaller : h'.count + 2 ≡ h.count

  module _ (h : Heap) (dt : ℕ) (v : IsValid key h) (present : In 0 h dt) where
    h1 : Heap
    h1 = record h { count = h.count - 2 }

    two : (2 ≤ h.count) × (h.count ≡ (h.count - 2) + 2) × ((h.count - 2) % 2 ≡ 0)
    two = omega (arith, v.even)

    idx : (h.count + 2 ^ 32 - 2) % 2 ^ 32 ≡ h.count - 2
    idx = let f = v.few in omega (arith, two)

    h1-Agrees : (d : ℕ) → Agrees d h h1
    unfolding h1
    h1-Agrees d = record { slots = λ j id. refl; entries = λ t. refl }

    zeroth : Heap
    zeroth = refill key dt (h.count - 2) h1

    zeroth-Removed : Removed key 0 dt h h1 zeroth
    unfolding zeroth h1
    zeroth-Removed =
        let z : h.count - 2 + 0 ≡ h.count - 2 = omega arith in
        rw z at (
          refill-Removed key 0 dt h h1 (omega arith) two.2 two.1 v.by_target (h1-Agrees 0) present
            (let f = v.few in omega arith))

    zeroth-Agrees : Agrees 1 h zeroth
    unfolding h1
    zeroth-Agrees =
        let a = Elsewhere-Agrees 1 0 h1 zeroth (omega arith) zeroth-Removed.elsewhere in
        record { slots = a.slots; entries = a.entries }

    zeroth_count : zeroth.count ≡ h.count - 2
    unfolding h1
    zeroth_count = zeroth-Removed.same_count

    first : Heap
    first = refill key dt (h.count - 2 + 1) zeroth

    first-Removed : Removed key 1 dt h zeroth first
    unfolding first
    first-Removed =
        subst (λ n. Removed key 1 dt h zeroth (refill key dt (n + 1) zeroth)) zeroth_count
          (refill-Removed key 1 dt h zeroth (omega arith) (omega (arith, zeroth_count, two))
            (omega (arith, zeroth_count, two)) v.by_deadline zeroth-Agrees ((v.same dt).0 present)
            (let f = v.few in omega (arith, zeroth_count)))

    first_count : first.count ≡ h.count - 2
    first_count = first-Removed.same_count ∙ zeroth_count

    first-Elsewhere : Agrees 0 zeroth first
    first-Elsewhere = Elsewhere-Agrees 0 1 zeroth first (omega arith) first-Removed.elsewhere

    shrunk-Agrees : (d : ℕ) → Agrees d first (less_room first)
    shrunk-Agrees d = record { slots = λ j id. refl; entries = λ t. refl }

    members_0 : (t : ℕ) → In 0 first t ↔ (In 0 h t × (t ≢ dt))
    members_0 t =
        let m = Agrees-In 0 zeroth first first-Elsewhere first-Removed.same_count t in
        (λ x. (zeroth-Removed.members t).0 (m.0 x), λ x. m.1 ((zeroth-Removed.members t).1 x))

    shrunk : Heap
    shrunk = less_room first

    shrunk_few : shrunk.count ≤ invalid_id
    unfolding shrunk
    shrunk_few = let n = first_count in let f = v.few in omega arith

    gone_0 : In 0 shrunk dt → ⊥
    unfolding shrunk
    gone_0 x = ((members_0 dt).0 x).1 refl

    gone_1 : In 1 shrunk dt → ⊥
    unfolding shrunk
    gone_1 x = ((first-Removed.members dt).0 x).1 refl

    shrunk-0 : IsHeap key 0 shrunk
    unfolding shrunk
    shrunk-0 =
        Agrees-IsHeap key 0 zeroth (less_room first)
          (record { slots = first-Elsewhere.slots; entries = first-Elsewhere.entries })
          first-Removed.same_count zeroth-Removed.heap

    shrunk-1 : IsHeap key 1 shrunk
    unfolding shrunk
    shrunk-1 = Agrees-IsHeap key 1 first (less_room first) (shrunk-Agrees 1) refl first-Removed.heap

    shrunk_room : shrunk.count ≤ capacity shrunk.segments
    unfolding shrunk h1
    shrunk_room =
        let n = first_count in
        let s = first-Removed.same_segments ∙ zeroth-Removed.same_segments in
        let r = v.room in ground arith

    shrunk_few_segments : shrunk.segments ≤ 30
    unfolding shrunk h1
    shrunk_few_segments =
        let s = first-Removed.same_segments ∙ zeroth-Removed.same_segments in
        let f = v.few_segments in ground arith

    shrunk-Left : Left dt h (clear_entry shrunk dt)
    unfolding shrunk
    shrunk-Left = record {
      valid = record {
        by_target = clear-IsHeap key 0 dt shrunk shrunk_few gone_0 shrunk-0;
        by_deadline = clear-IsHeap key 1 dt shrunk shrunk_few gone_1 shrunk-1;
        same = λ t. (
          λ x.
              (clear-In key 1 dt shrunk shrunk_few gone_1 t).1
                (over t ((clear-In key 0 dt shrunk shrunk_few gone_0 t).0 x)),
          λ x.
              (clear-In key 0 dt shrunk shrunk_few gone_0 t).1
                (back t ((clear-In key 1 dt shrunk shrunk_few gone_1 t).0 x)),
        );
        even = let n = first_count in rw n two.2;
        few = let n = first_count in let f = v.few in omega arith;
        few_segments = shrunk_few_segments;
        room = shrunk_room;
      };
      members = λ t. (
        λ x. (members_0 t).0 ((clear-In key 0 dt shrunk shrunk_few gone_0 t).0 x),
        λ x. (clear-In key 0 dt shrunk shrunk_few gone_0 t).1 ((members_0 t).1 x),
      );
      smaller = let n = first_count in omega (arith, two);
    }
      where
        over : (t : ℕ) → In 0 first t → In 1 first t
        over t x = let m = (members_0 t).0 x in (first-Removed.members t).1 ((v.same t).0 m.0, m.1)

        back : (t : ℕ) → In 1 first t → In 0 first t
        back t x = let m = (first-Removed.members t).0 x in (members_0 t).1 ((v.same t).1 m.0, m.1)

    empty-Left : h.count - 2 ≡ 0 → Left dt h (clear_entry (none_left h1) dt)
    unfolding h1
    empty-Left e = record {
      valid = record {
        by_target = record {
          ordered = λ c child. absurd (omega arith);
          filed = λ j inside id. absurd (omega arith);
        };
        by_deadline = record {
          ordered = λ c child. absurd (omega arith);
          filed = λ j inside id. absurd (omega arith);
        };
        same = λ t. (λ x. absurd (omega arith), λ x. absurd (omega arith));
        even = omega arith;
        few = omega arith;
        few_segments = v.few_segments;
        room = omega arith;
      };
      members = λ t. (λ x. absurd (omega arith), λ (x, n). absurd (n (only t x)));
      smaller = omega (arith, two);
    }
      where
        only : (t : ℕ) → In 0 h t → t ≡ dt
        only t (x, y, z) =
            let a : h.entry 0 t ≡ 0 = omega (arith, two) in
            let b : h.entry 0 dt ≡ 0 = omega (arith, two, present) in
            let c = present.2 in ground arith

    -- Removing a timer that is in a valid heap (of fewer than 2^30 timers) leaves a valid heap of the
    -- others.
    pub remove-Left : Left dt h (remove key h dt)
    unfolding remove shrunk first zeroth h1
    remove-Left = rw idx (
        if-elim (λ (r : Heap). Left dt h (clear_entry r dt)) (h.count - 2 == 0)
          (λ e. empty-Left ((==_iff _ 0).0 e)) (λ n. shrunk-Left))
