-- ===== src/Timer/Sifting.antt =====
-- The order of a heap around the hole of _dispatch_timer_heap_resift, and one round of each loop.
use book.Base.{ℕ, ◌+◌, ◌≤◌, ◌<◌, ◌≡◌, ◌≢◌, ◌⊎◌, arith, ◌^◌, ◌*◌}
use book.Timer.{Heap, heap_id, parent, left_child, set_slot, smaller_child}

-- A slot of heap d that has a parent.
abbrev pub IsChild : ℕ → Heap → ℕ → Type 0
IsChild d h c = (2 ≤ c) × (c < h.count) × (heap_id c ≡ d)

module _ (key : ℕ → ℕ → ℕ) (d : ℕ) where
  -- The timers around the hole `i`, that in it left aside, are in order.
  pub record Nearly (h : Heap) (i : ℕ) : Type 0 where
    pub edges :
        (c : ℕ)
        → IsChild d h c
        → c ≢ i
        → parent c ≢ i
        → key d (h.slot (parent c)) ≤ key d (h.slot c)
    pub bridged :
        (c : ℕ)
        → IsChild d h c
        → parent c ≡ i
        → 2 ≤ i
        → key d (h.slot (parent i)) ≤ key d (h.slot c)

  -- `dt` is not before the parent of the hole.
  abbrev pub Above : Heap → ℕ → ℕ → Type 0
  Above h dt i = 2 ≤ i → key d (h.slot (parent i)) ≤ key d dt

  -- `dt` is not behind the children of the hole.
  abbrev pub Below : Heap → ℕ → ℕ → Type 0
  Below h dt i = (c : ℕ) → IsChild d h c → parent c ≡ i → key d dt ≤ key d (h.slot c)

pub parent-lt : (i : ℕ) → 2 ≤ i → (parent i < i) × (heap_id (parent i) ≡ heap_id i)
parent-lt i h = omega arith

-- A child of i is the left or the right one.
pub children :
    (i c : ℕ)
    → 2 * i + 2 < 2 ^ 32
    → 2 ≤ c
    → heap_id c ≡ heap_id i
    → parent c ≡ i
    → (c ≡ left_child i) ⊎ (c ≡ left_child i + 2)
children i c few h id e = ground arith

pub record IsSmallest (key : ℕ → ℕ → ℕ) (d : ℕ) (h : Heap) (i c : ℕ) : Type 0 where
  pub child : IsChild d h c
  pub under : parent c ≡ i
  pub least : (c' : ℕ) → IsChild d h c' → parent c' ≡ i → key d (h.slot c) ≤ key d (h.slot c')

module _ (key : ℕ → ℕ → ℕ) (d : ℕ) (h : Heap) (dt i : ℕ) (id : heap_id i ≡ d) where
  pub smaller_child-IsSmallest :
      i < h.count
      → h.count < 2 ^ 31
      → left_child i < h.count
      → IsSmallest key d h i (smaller_child key h i)
  unfolding smaller_child
  smaller_child-IsSmallest i_in few has_left = record {
    child = ground arith;
    under = ground arith;
    least =
        λ c' (two, inside, c_id) e. ground (arith, children i c' (omega arith) two (rw id c_id) e);
  }

  module _ (two : 2 ≤ i) (nearly : Nearly key d h i)
      (before : key d dt < key d (h.slot (parent i))) where
    pub up-Nearly : Nearly key d (set_slot h i (h.slot (parent i))) (parent i)
    unfolding set_slot
    up-Nearly = record {
      edges = λ c child away under. ground (arith, nearly.edges c, nearly.bridged c);
      bridged = λ c child under p_two.
          ground
            (arith, parent-lt i, parent-lt (parent i), nearly.edges c, nearly.edges (parent i));
    }

    pub up-Below : Below key d (set_slot h i (h.slot (parent i))) dt (parent i)
    unfolding set_slot
    up-Below c child under = ground (arith, parent-lt i, nearly.edges c)

  module _ (c : ℕ) (nearly : Nearly key d h i) (above : Above key d h dt i)
      (min : IsSmallest key d h i c) (before : key d (h.slot c) < key d dt) where
    pub down-Nearly : Nearly key d (set_slot h i (h.slot c)) c
    unfolding set_slot
    down-Nearly = record {
      edges = λ c' child away under. ground (
        arith,
        min.child,
        min.under,
        parent-lt c',
        nearly.edges c',
        nearly.bridged c,
        min.least c',
      );
      bridged = λ c' child under two.
          ground (arith, min.child, min.under, parent-lt c', parent-lt c, nearly.edges c');
    }

    pub down-Above : Above key d (set_slot h i (h.slot c)) dt c
    unfolding set_slot
    down-Above two = ground (arith, min.under)
