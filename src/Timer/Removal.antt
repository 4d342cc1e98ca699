-- ===== src/Timer/Removal.antt =====
-- The loop body of _dispatch_timer_heap_remove, on one of the two heaps.
use book.Base.{
  if-elim, ℕ, ◌+◌, ◌%◌, ◌<◌, ◌≡◌, ◌≢◌, ◌↔◌, ◌⊎◌, inl, inr, refl, ◌∙◌, ◌==◌, ==_iff, arith,
  if◌then◌else◌, ◌^◌,
}
use native.Mathlib.Decide.{ℕ_discrete}
use book.Timer.{Heap, heap_id, parent, refill}
use book.Timer.Moving.{Holds, Elsewhere}
use book.Timer.Sifting.{parent-lt}
use book.Timer.Loops.{State}
use book.Timer.Resift.{IsHeap, In, Resifted, resift-Resifted}
use book.Timer.Operations.{Agrees}

pub record Removed (key : ℕ → ℕ → ℕ) (d dt : ℕ) (whole h h' : Heap) : Type 0 where
  pub heap : IsHeap key d h'
  pub same_count : h'.count ≡ h.count
  pub same_segments : h'.segments ≡ h.segments
  pub members : (t : ℕ) → In d h' t ↔ (In d whole t × (t ≢ dt))
  pub elsewhere : Elsewhere d h h'

module _ (key : ℕ → ℕ → ℕ) (d dt : ℕ) (whole h : Heap) (small : d < 2) (even : h.count % 2 ≡ 0)
    (shorter : whole.count ≡ h.count + 2) (v : IsHeap key d whole) (a : Agrees d whole h)
    (present : In d whole dt) (few : h.count < 2 ^ 31) where
  last : ℕ
  last = h.count + d

  emptied : Heap
  emptied = record h { slot = λ j. if j == h.count + d then 0 else h.slot j }

  -- The timer taken out was the last one.
  last-Removed : h.slot (h.count + d) ≡ dt → Removed key d dt whole h emptied
  unfolding emptied
  last-Removed e = record {
    heap = record {
      ordered = λ c (two, inside, id).
          ground (arith, parent-lt c, a.slots c id, a.slots (parent c), v.ordered c);
      filed = λ j inside id. ground (arith, a.slots j id, a.entries (h.slot j), v.filed j);
    };
    same_count = refl;
    same_segments = refl;
    members = λ t. (gone t, stays t);
    elsewhere = record { slots = λ j n. ground arith; entries = λ e t n. refl };
  }
    where
      at_last : whole.entry d dt ≡ h.count + d
      at_last =
          let s = a.slots (h.count + d) (omega arith) in
          let f = v.filed (h.count + d) (omega arith) (omega arith) in ground arith

      gone : (t : ℕ) → In d emptied t → In d whole t × (t ≢ dt)
      gone t (x, y, z) =
          let e' = a.entries t in
          let s = a.slots (h.entry d t) y in let l = at_last in (ground arith, λ q. ground arith)

      stays : (t : ℕ) → In d whole t × (t ≢ dt) → In d emptied t
      stays t ((x, y, z), n) =
          let e' = a.entries t in let s = a.slots (whole.entry d t) y in ground arith

  module _ (moves : h.slot (h.count + d) ≢ dt) where
    -- Where the last timer goes: where `dt` is.
    inner : (h.entry d dt < h.count) × (heap_id (h.entry d dt) ≡ d)
    inner = let e = a.entries dt in let s = a.slots (whole.entry d dt) present.1 in ground arith

    last_entry : whole.entry d (h.slot (h.count + d)) ≡ h.count + d
    last_entry =
        let s = a.slots (h.count + d) (omega arith) in
        let f = v.filed (h.count + d) (omega arith) (omega arith) in ground arith

    refill-State : State key d (h.slot (h.count + d)) emptied (h.entry d dt)
    unfolding emptied
    refill-State = record {
      inside = inner.0;
      few = few;
      id = inner.1;
      placed = record {
        at = λ j inside id away. ground (arith, a.slots j id, a.entries (h.slot j), v.filed j);
        apart = λ j inside id away e.
            let l = last_entry in
            let f = v.filed j (omega (arith, shorter)) id in let s = a.slots j id in ground arith;
      };
      nearly = record {
        edges = λ c (two, inside, id) away under.
            ground (arith, parent-lt c, a.slots c id, a.slots (parent c), v.ordered c);
        bridged = λ c (two, inside, id) under deep.
            let r = h.entry d dt in
            let i = inner in
            ground (
              arith,
              parent-lt c,
              parent-lt r,
              a.slots c id,
              a.slots r,
              a.slots (parent r),
              v.ordered c,
              v.ordered r,
            );
      };
    }

    moved-Removed :
        (h' : Heap)
        → Resifted key d (h.slot (h.count + d)) emptied (h.entry d dt) h'
        → Removed key d dt whole h h'
    unfolding emptied
    moved-Removed h' r = record {
      heap = r.heap;
      same_count = r.same_count;
      same_segments = r.same_segments;
      members = λ t. (λ x. to t ((r.members t).0 x), λ x. (r.members t).1 (from t x));
      elsewhere = record {
        slots = λ j n. r.elsewhere.slots j n ∙ (ground arith);
        entries = λ e t n. r.elsewhere.entries e t n;
      };
    }
      where
        l : ℕ
        l = h.slot (h.count + d)

        to : (t : ℕ) → (t ≡ l) ⊎ Holds d emptied (h.entry d dt) t → In d whole t × (t ≢ dt)
        to t (inl e) =
            let f = last_entry in
            let s = a.slots (h.count + d) (omega arith) in (ground arith, λ q. ground arith)
        to t (inr (x, y, z, w)) =
            let e' = a.entries t in
            let s = a.slots (h.entry d t) y in (ground arith, λ q. ground arith)

        from : (t : ℕ) → In d whole t × (t ≢ dt) → (t ≡ l) ⊎ Holds d emptied (h.entry d dt) t
        from t ((x, y, z), n) = elim (ℕ_discrete t l) [
          | yes e ↦ inl e
          | no m ↦ inr (
              let e' = a.entries t in
              let e'' = a.entries dt in
              let s = a.slots (whole.entry d t) y in
              let s' = a.slots (whole.entry d dt) present.1 in ground arith)
        ]

  -- One round of the loop takes `dt` out of one heap and leaves the other as it was.
  pub refill-Removed : Removed key d dt whole h (refill key dt (h.count + d) h)
  unfolding refill emptied
  refill-Removed =
      let id : heap_id (h.count + d) ≡ d = omega arith in
      rw id (
        if-elim (λ (r : Heap). Removed key d dt whole h r) (h.slot (h.count + d) == dt)
          (λ e. last-Removed ((==_iff _ dt).0 e))
          (λ n.
            let moves : h.slot (h.count + d) ≢ dt = ground arith in
            moved-Removed moves _ (
              resift-Resifted key d (h.slot (h.count + d)) emptied (h.entry d dt)
                (refill-State moves))))
