-- ===== src/Timer/Moving.antt =====
-- One move of the loops of _dispatch_timer_heap_resift: the timer in slot p goes to the hole, and p is
-- the hole. What the heap holds and where it says that it holds it.
use book.Base.{ℕ, ◌<◌, ◌≡◌, ◌≢◌, ◌↔◌, arith}
use book.Timer.{Heap, heap_id, set_slot}

-- In heap d, each timer but the one in the hole is where its entry says, and none of them is `dt`.
pub record Placed (d : ℕ) (h : Heap) (dt hole : ℕ) : Type 0 where
  pub at : (j : ℕ) → j < h.count → heap_id j ≡ d → j ≢ hole → h.entry d (h.slot j) ≡ j
  pub apart : (j : ℕ) → j < h.count → heap_id j ≡ d → j ≢ hole → h.slot j ≢ dt

-- A timer is in heap d, and not in the hole.
abbrev pub Holds : ℕ → Heap → ℕ → ℕ → Type 0
Holds d h hole t =
    (h.entry d t < h.count)
    × (heap_id (h.entry d t) ≡ d)
    × (h.entry d t ≢ hole)
    × (h.slot (h.entry d t) ≡ t)

-- What heap d does to the other one: nothing.
pub record Elsewhere (d : ℕ) (h h' : Heap) : Type 0 where
  pub slots : (j : ℕ) → heap_id j ≢ d → h'.slot j ≡ h.slot j
  pub entries : (e t : ℕ) → e ≢ d → h'.entry e t ≡ h.entry e t

module _ (d : ℕ) (h : Heap) (dt hole p : ℕ) (hole_in : hole < h.count) (p_in : p < h.count)
    (hole_id : heap_id hole ≡ d) (p_id : heap_id p ≡ d) (other : p ≢ hole)
    (placed : Placed d h dt hole) where
  pub move-Placed : Placed d (set_slot h hole (h.slot p)) dt p
  unfolding set_slot
  move-Placed = record {
    at = λ j j_in j_id away. ground (arith, placed.at j, placed.at p);
    apart = λ j j_in j_id away. ground (arith, placed.apart j, placed.apart p);
  }

  pub move-Holds : (t : ℕ) → Holds d h hole t ↔ Holds d (set_slot h hole (h.slot p)) p t
  unfolding set_slot
  move-Holds t =
      (λ (a, b, c, e). ground (arith, placed.at p), λ (a, b, c, e). ground (arith, placed.at p))
