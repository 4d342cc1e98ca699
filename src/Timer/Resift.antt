-- ===== src/Timer/Resift.antt =====
-- _dispatch_timer_heap_resift: its loops end with the heap in order around the hole, and `dt` fills it.
use book.Base.{if-elim, ℕ, ◌+◌, ◌≤◌, ◌<◌, ◌≡◌, ◌↔◌, ◌⊎◌, inl, inr, refl, ◌∙◌, false, arith}
use native.Mathlib.Decide.{ℕ_discrete}
use book.Timer.{Heap, heap_id, parent, set_slot, Sift, sift_up, resift}
use book.Timer.Moving.{Holds, Elsewhere}
use book.Timer.Sifting.{IsChild, Above, Below, parent-lt}
use book.Timer.Loops.{Kept, Kept-trans, State, sift_up-Risen, sift_down-Sunk}

-- Heap d: every timer is not before its parent, and is where its entry says.
pub record IsHeap (key : ℕ → ℕ → ℕ) (d : ℕ) (h : Heap) : Type 0 where
  pub ordered : (c : ℕ) → IsChild d h c → key d (h.slot (parent c)) ≤ key d (h.slot c)
  pub filed : (j : ℕ) → j < h.count → heap_id j ≡ d → h.entry d (h.slot j) ≡ j

-- A timer is in heap d.
abbrev pub In : ℕ → Heap → ℕ → Type 0
In d h t = (h.entry d t < h.count) × (heap_id (h.entry d t) ≡ d) × (h.slot (h.entry d t) ≡ t)

pub record Resifted (key : ℕ → ℕ → ℕ) (d dt : ℕ) (h : Heap) (i : ℕ) (h' : Heap) : Type 0 where
  pub heap : IsHeap key d h'
  pub same_count : h'.count ≡ h.count
  pub same_segments : h'.segments ≡ h.segments
  pub members : (t : ℕ) → In d h' t ↔ ((t ≡ dt) ⊎ Holds d h i t)
  pub elsewhere : Elsewhere d h h'

module _ (key : ℕ → ℕ → ℕ) (d dt : ℕ) where
  fill-Resifted :
      (h : Heap) (i : ℕ)
      → State key d dt h i
      → Above key d h dt i
      → Below key d h dt i
      → Resifted key d dt h i (set_slot h i dt)
  unfolding set_slot
  fill-Resifted h i st above below = record {
    heap = record {
      ordered = λ c child. let e = st.id in ground (arith, parent-lt c, below c, st.nearly.edges c);
      filed = λ j j_in j_id. let e = st.id in ground (arith, st.placed.at j, st.placed.apart j);
    };
    same_count = refl;
    same_segments = refl;
    members = λ t. (found t, back t);
    elsewhere = record {
      slots = λ j e. let n = st.id in ground arith;
      entries = λ e t n. let n' = st.id in ground arith;
    };
  }
    where
      found : (t : ℕ) → In d (set_slot h i dt) t → (t ≡ dt) ⊎ Holds d h i t
      found t (a, b, c) = elim (ℕ_discrete t dt) [
        | yes e ↦ inl e
        | no n ↦ inr (let e = st.id in ground arith)
      ]

      back : (t : ℕ) → (t ≡ dt) ⊎ Holds d h i t → In d (set_slot h i dt) t
      back t (inl e) = let e' = st.id in let inside = st.inside in ground arith
      back t (inr (a, b, c, e)) =
          let e' = st.id in let other = st.placed.apart (h.entry d t) a b c in ground arith

  Resifted-after :
      (h : Heap) (i : ℕ) (h' : Heap) (i' : ℕ) (h'' : Heap)
      → Kept d h i h' i'
      → Resifted key d dt h' i' h''
      → Resifted key d dt h i h''
  Resifted-after h i h' i' h'' k r = record {
    heap = r.heap;
    same_count = r.same_count ∙ k.same_count;
    same_segments = r.same_segments ∙ k.same_segments;
    members = λ t. (λ x. to t ((r.members t).0 x), λ x. (r.members t).1 (from t x));
    elsewhere = record {
      slots = λ j e. r.elsewhere.slots j e ∙ k.elsewhere.slots j e;
      entries = λ e t n. r.elsewhere.entries e t n ∙ k.elsewhere.entries e t n;
    };
  }
    where
      to : (t : ℕ) → (t ≡ dt) ⊎ Holds d h' i' t → (t ≡ dt) ⊎ Holds d h i t
      to t (inl e) = inl e
      to t (inr x) = inr ((k.holds t).1 x)

      from : (t : ℕ) → (t ≡ dt) ⊎ Holds d h i t → (t ≡ dt) ⊎ Holds d h' i' t
      from t (inl e) = inl e
      from t (inr x) = inr ((k.holds t).0 x)

  -- A heap that is in order but for the slot i, where `dt` goes, is in order after
  -- _dispatch_timer_heap_resift, and holds `dt` and what it held elsewhere. The other heap is as it was.
  pub resift-Resifted :
      (h : Heap) (i : ℕ) → State key d dt h i → Resifted key d dt h i (resift key dt h i)
  unfolding resift
  resift-Resifted h i st =
      let s : Sift = record { heap = h; idx = i; sifted_up = false } in
      let up = sift_up key dt (i + 1) s in
      let risen = sift_up-Risen key d dt (i + 1) s (omega arith) st (λ e. cc) in
      let sunk =
        sift_down-Sunk key d dt (h.count + 1) up (let c = risen.kept.same_count in omega arith)
          risen.state risen.above in
      if-elim (λ (r : Sift). Resifted key d dt h i (set_slot r.heap r.idx dt)) up.sifted_up
        (λ moved.
          Resifted-after h i up.heap up.idx _ risen.kept
            (fill-Resifted up.heap up.idx risen.state risen.above (risen.below moved)))
        (λ still.
          Resifted-after h i _ _ _ (Kept-trans d _ _ _ _ _ _ risen.kept sunk.kept)
            (fill-Resifted _ _ sunk.state sunk.above sunk.below))
