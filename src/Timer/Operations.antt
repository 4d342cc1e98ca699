-- ===== src/Timer/Operations.antt =====
-- _dispatch_timer_heap_insert, _dispatch_timer_heap_remove and _dispatch_timer_heap_update, on one of
-- the two heaps.
use book.Base.{ℕ, ◌+◌, ◌%◌, ◌<◌, ◌≡◌, ◌≢◌, ◌↔◌, ◌⊎◌, inl, inr, sym, ◌∙◌, arith, ◌^◌}
use book.Timer.{Heap, heap_id, parent}
use book.Timer.Moving.{Holds, Elsewhere}
use book.Timer.Sifting.{parent-lt}
use book.Timer.Loops.{State}
use book.Timer.Resift.{IsHeap, In, Resifted}

-- Two heaps whose slots and entries agree for heap d.
pub record Agrees (d : ℕ) (h h' : Heap) : Type 0 where
  pub slots : (j : ℕ) → heap_id j ≡ d → h'.slot j ≡ h.slot j
  pub entries : (t : ℕ) → h'.entry d t ≡ h.entry d t

pub Elsewhere-Agrees : (d e : ℕ) (h h' : Heap) → d ≢ e → Elsewhere e h h' → Agrees d h h'
Elsewhere-Agrees d e h h' n x = record {
  slots = λ j i. x.slots j (λ q. n (sym i ∙ q));
  entries = λ t. x.entries d t n;
}

pub Agrees-In :
    (d : ℕ) (h h' : Heap) → Agrees d h h' → h'.count ≡ h.count → (t : ℕ) → In d h' t ↔ In d h t
Agrees-In d h h' a n t = (
  λ (x, y, z). let e = a.entries t in let s = a.slots (h'.entry d t) y in ground arith,
  λ (x, y, z). let e = a.entries t in let s = a.slots (h.entry d t) y in ground arith,
)

pub Agrees-IsHeap :
    (key : ℕ → ℕ → ℕ) (d : ℕ) (h h' : Heap)
    → Agrees d h h'
    → h'.count ≡ h.count
    → IsHeap key d h
    → IsHeap key d h'
Agrees-IsHeap key d h h' a n v = record {
  ordered = λ c (two, inside, id). ground (
    arith,
    parent-lt c,
    a.slots c id,
    a.slots (parent c),
    v.ordered c (two, omega (arith, n), id),
  );
  filed = λ j inside id. ground (arith, a.slots j id, a.entries (h.slot j), v.filed j);
}

module _ (key : ℕ → ℕ → ℕ) (d dt : ℕ) where
  -- A timer that is not in a heap goes behind its last slot.
  pub append-State :
      (h h' : Heap)
      → d < 2
      → IsHeap key d h
      → h.count % 2 ≡ 0
      → ((In d h dt) → ⊥)
      → Agrees d h h'
      → h'.count ≡ h.count + 2
      → h'.count < 2 ^ 31
      → State key d dt h' (h.count + d)
  append-State h h' small v even new a n few = record {
    inside = omega arith;
    few = few;
    id = omega arith;
    placed = record {
      at = λ j inside id away. ground (arith, a.slots j id, a.entries (h.slot j), v.filed j);
      apart = λ j inside id away e. new (
          let old : j < h.count = omega arith in
          let f = v.filed j old id in let s = a.slots j id in ground arith);
    };
    nearly = record {
      edges = λ c (two, inside, id) away under.
          ground (arith, parent-lt c, a.slots c id, a.slots (parent c), v.ordered c);
      bridged = λ c (two, inside, id) under deep. absurd (omega (arith, parent-lt c));
    };
  }

  -- What the new heap holds, seen from the old one.
  pub append-members :
      (h h' h'' : Heap)
      → d < 2
      → h.count % 2 ≡ 0
      → Agrees d h h'
      → h'.count ≡ h.count + 2
      → Resifted key d dt h' (h.count + d) h''
      → (t : ℕ) → In d h'' t ↔ ((t ≡ dt) ⊎ In d h t)
  append-members h h' h'' small even a n r t =
      (λ x. to ((r.members t).0 x), λ x. (r.members t).1 (from x))
    where
      to : (t ≡ dt) ⊎ Holds d h' (h.count + d) t → (t ≡ dt) ⊎ In d h t
      to (inl e) = inl e
      to (inr (x, y, z, w)) =
          inr (let e = a.entries t in let s = a.slots (h'.entry d t) y in ground arith)

      from : (t ≡ dt) ⊎ In d h t → (t ≡ dt) ⊎ Holds d h' (h.count + d) t
      from (inl e) = inl e
      from (inr (x, y, z)) =
          inr (let e = a.entries t in let s = a.slots (h.entry d t) y in ground arith)
