-- ===== src/Timer/Loops.antt =====
-- The loops of _dispatch_timer_heap_resift end with the heap in order around the hole.
use book.Base.{
  if-elim, ℕ, zero, suc, ◌+◌, ◌≤◌, ◌<◌, ◌≡◌, ◌≢◌, ◌↔◌, refl, sym, ◌∙◌, true, arith, ltb, leb, ◌^◌,
}
use book.Timer.{
  Heap, heap_id, parent, left_child, set_slot, smaller_child, Sift, sift_up, sift_down,
}
use book.Timer.Moving.{Placed, Holds, Elsewhere, move-Placed, move-Holds}
use book.Timer.Sifting.{
  Nearly, Above, Below, parent-lt, children, smaller_child-IsSmallest, up-Nearly, up-Below,
  down-Nearly, down-Above,
}

-- What the loops keep: heap h with the hole i becomes heap h' with the hole i'.
pub record Kept (d : ℕ) (h : Heap) (i : ℕ) (h' : Heap) (i' : ℕ) : Type 0 where
  pub same_count : h'.count ≡ h.count
  pub same_segments : h'.segments ≡ h.segments
  pub holds : (t : ℕ) → Holds d h i t ↔ Holds d h' i' t
  pub elsewhere : Elsewhere d h h'

Kept-refl : (d : ℕ) (h : Heap) (i : ℕ) → Kept d h i h i
Kept-refl d h i = record {
  same_count = refl;
  same_segments = refl;
  holds = λ t. (λ x. x, λ x. x);
  elsewhere = record { slots = λ j e. refl; entries = λ e t n. refl };
}

pub Kept-trans :
    (d : ℕ) (h : Heap) (i : ℕ) (h' : Heap) (i' : ℕ) (h'' : Heap) (i'' : ℕ)
    → Kept d h i h' i'
    → Kept d h' i' h'' i''
    → Kept d h i h'' i''
Kept-trans d h i h' i' h'' i'' a b = record {
  same_count = b.same_count ∙ a.same_count;
  same_segments = b.same_segments ∙ a.same_segments;
  holds = λ t. (λ x. (b.holds t).0 ((a.holds t).0 x), λ x. (a.holds t).1 ((b.holds t).1 x));
  elsewhere = record {
    slots = λ j e. b.elsewhere.slots j e ∙ a.elsewhere.slots j e;
    entries = λ e t n. b.elsewhere.entries e t n ∙ a.elsewhere.entries e t n;
  };
}

module _ (key : ℕ → ℕ → ℕ) (d dt : ℕ) where
  -- Heap d is in order but for the hole i, where `dt` is to go.
  pub record State (h : Heap) (i : ℕ) : Type 0 where
    pub inside : i < h.count
    pub few : h.count < 2 ^ 31
    pub id : heap_id i ≡ d
    pub placed : Placed d h dt i
    pub nearly : Nearly key d h i

  move-Kept :
      (h : Heap) (i p : ℕ)
      → State h i
      → p < h.count
      → heap_id p ≡ d
      → p ≢ i
      → Kept d h i (set_slot h i (h.slot p)) p
  unfolding set_slot
  move-Kept h i p s p_in p_id other = record {
    same_count = refl;
    same_segments = refl;
    holds = move-Holds d h dt i p s.inside p_in s.id p_id other s.placed;
    elsewhere = record {
      slots = λ j e. let n = s.id in ground arith;
      entries = λ e t n. let n' = s.id in ground arith;
    };
  }

  move-State :
      (h : Heap) (i p : ℕ)
      → State h i
      → p < h.count
      → heap_id p ≡ d
      → p ≢ i
      → Nearly key d (set_slot h i (h.slot p)) p
      → State (set_slot h i (h.slot p)) p
  unfolding set_slot
  move-State h i p s p_in p_id other nearly = record {
    inside = p_in;
    few = s.few;
    id = p_id;
    placed = move-Placed d h dt i p s.inside p_in s.id p_id other s.placed;
    nearly = nearly;
  }

  pub record Risen (s r : Sift) : Type 0 where
    pub state : State r.heap r.idx
    pub kept : Kept d s.heap s.idx r.heap r.idx
    pub above : Above key d r.heap dt r.idx
    pub below : r.sifted_up ≡ true → Below key d r.heap dt r.idx

  -- The first loop: enough fuel leaves `dt` not before its parent, and if it has moved, not behind its
  -- children.
  pub sift_up-Risen :
      (fuel : ℕ) (s : Sift)
      → s.idx < fuel
      → State s.heap s.idx
      → (s.sifted_up ≡ true → Below key d s.heap dt s.idx)
      → Risen s (sift_up key dt fuel s)
  unfolding sift_up
  sift_up-Risen zero s few st below = absurd (omega arith)
  sift_up-Risen (suc fuel) s few st below =
      if-elim (λ r. Risen s r) (ltb s.idx 2)
        (λ root. record {
          state = st;
          kept = Kept-refl d s.heap s.idx;
          above = λ two. absurd (ground arith);
          below = below;
        })
        (λ deep.
          let two : 2 ≤ s.idx = ground arith in
          let p = parent s.idx in
          let up = parent-lt s.idx two in
          let p_in : p < s.heap.count = omega (arith, up, st.inside) in
          let p_id : heap_id p ≡ d = up.1 ∙ st.id in
          let other : p ≢ s.idx = omega (arith, up) in
          if-elim (λ r. Risen s r)
            (leb (key (heap_id s.idx) (s.heap.slot p)) (key (heap_id s.idx) dt))
            (λ stay. record {
              state = st;
              kept = Kept-refl d s.heap s.idx;
              above = λ t. let e = st.id in ground arith;
              below = below;
            })
            (λ rise.
              let before : key d dt < key d (s.heap.slot p) = let e = st.id in ground arith in
              let nearly = up-Nearly key d s.heap dt s.idx st.id two st.nearly before in
              let after =
                sift_up-Risen fuel
                  (record {
                    heap = set_slot s.heap s.idx (s.heap.slot p);
                    idx = p;
                    sifted_up = true;
                  })
                  (omega (arith, up)) (move-State s.heap s.idx p st p_in p_id other nearly)
                  (λ e. up-Below key d s.heap dt s.idx st.id two st.nearly before) in
              record {
                state = after.state;
                kept =
                    Kept-trans d _ _ _ _ _ _ (move-Kept s.heap s.idx p st p_in p_id other)
                      after.kept;
                above = after.above;
                below = after.below;
              }))

  pub record Sunk (s r : Sift) : Type 0 where
    pub state : State r.heap r.idx
    pub kept : Kept d s.heap s.idx r.heap r.idx
    pub above : Above key d r.heap dt r.idx
    pub below : Below key d r.heap dt r.idx

  deeper :
      (s : Sift) (c fuel : ℕ)
      → s.heap.count < suc fuel + s.idx
      → s.idx < c
      → s.heap.count < fuel + c
  deeper s c fuel few h = omega arith

  -- The second loop: enough fuel leaves `dt` in order with its parent and its children.
  pub sift_down-Sunk :
      (fuel : ℕ) (s : Sift)
      → s.heap.count < fuel + s.idx
      → State s.heap s.idx
      → Above key d s.heap dt s.idx
      → Sunk s (sift_down key dt fuel s)
  unfolding sift_down
  sift_down-Sunk zero s few st above = let inside = st.inside in absurd (omega arith)
  sift_down-Sunk (suc fuel) s few st above =
      if-elim (λ r. Sunk s r) (ltb (left_child s.idx) s.heap.count)
        (λ deep.
          let c = smaller_child key s.heap s.idx in
          let min =
            smaller_child-IsSmallest key d s.heap dt s.idx st.id st.inside st.few (ground arith) in
          let other : c ≢ s.idx = omega (arith, min.child, min.under, parent-lt c) in
          if-elim (λ r. Sunk s r)
            (leb (key (heap_id s.idx) dt) (key (heap_id s.idx) (s.heap.slot c)))
            (λ stay. record {
              state = st;
              kept = Kept-refl d s.heap s.idx;
              above = above;
              below = λ c' child under. let e = st.id in ground (arith, min.least c' child under);
            })
            (λ sink.
              let before : key d (s.heap.slot c) < key d dt = let e = st.id in ground arith in
              let nearly = down-Nearly key d s.heap dt s.idx st.id c st.nearly above min before in
              let after =
                sift_down-Sunk fuel
                  (record {
                    heap = set_slot s.heap s.idx (s.heap.slot c);
                    idx = c;
                    sifted_up = s.sifted_up;
                  })
                  (deeper s c fuel few (omega (arith, min.child, min.under, parent-lt c)))
                  (move-State s.heap s.idx c st min.child.1 min.child.2 other nearly)
                  (down-Above key d s.heap dt s.idx st.id c st.nearly above min before) in
              record {
                state = after.state;
                kept =
                    Kept-trans d _ _ _ _ _ _
                      (move-Kept s.heap s.idx c st min.child.1 min.child.2 other) after.kept;
                above = after.above;
                below = after.below;
              }))
        (λ leaf. record {
          state = st;
          kept = Kept-refl d s.heap s.idx;
          above = above;
          below = λ c child under.
              let e = st.id in
              absurd (
                ground (
                  arith,
                  children s.idx c (let n = st.inside in let f = st.few in omega arith) child.0
                      (child.2 ∙ sym e) under,
                ));
        })
