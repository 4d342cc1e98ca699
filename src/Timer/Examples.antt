-- ===== src/Timer/Examples.antt =====
-- A heap of a few timers.
use book.Base.{ℕ, ◌+◌, ◌<◌, ◌^◌, ◌-◌, ◌*◌, ◌≡◌, inl, inr, refl, false, ◌==◌, arith, if◌then◌else◌}
use book.Timer.{Heap, capacity, insert, remove, update, invalid_id, resift}
use book.Timer.Resift.{In}
use book.Timer.Heaps.{IsValid, Inserted, insert-Inserted}
use book.Timer.Leaving.{Left, remove-Left}
use book.Timer.Updating.{Updated, update-Updated}

-- Timer t has target 10 t and deadline 100 - t.
abbrev keys : ℕ → ℕ → ℕ
keys d t = if d == 0 then 10 * t else 100 - t

abbrev no_qos : ℕ → ℕ
no_qos t = 0

abbrev empty : Heap
empty = record {
  count = 0;
  segments = 0;
  slot = λ j. 0;
  entry = λ d t. invalid_id;
  needs_program = false;
  max_qos = 0;
}

empty-IsValid : IsValid keys empty
unfolding capacity
empty-IsValid = record {
  by_target = record {
    ordered = λ c child. absurd (omega arith);
    filed = λ j inside id. absurd (omega arith);
  };
  by_deadline = record {
    ordered = λ c child. absurd (omega arith);
    filed = λ j inside id. absurd (omega arith);
  };
  same = λ t. (λ x. absurd (omega arith), λ x. absurd (omega arith));
  even = refl;
  few = omega arith;
  few_segments = omega arith;
  room = omega arith;
}

one_timer : Heap
one_timer = insert keys no_qos empty 7

one_timer-Inserted : Inserted keys 7 empty one_timer
unfolding one_timer
one_timer-Inserted =
    insert-Inserted keys no_qos empty 7 empty-IsValid (λ x. absurd (omega arith)) (omega arith)

-- Timer 5 is not in it yet.
five_new : In 0 one_timer 5 → ⊥
five_new x = elim ((one_timer-Inserted.members 5).0 x) [
  | inl e ↦ absurd (omega arith)
  | inr y ↦ absurd (omega arith)
]

one_few : one_timer.count + 2 < 2 ^ 31
unfolding one_timer insert
one_few = omega arith

two_timers : Heap
two_timers = insert keys no_qos one_timer 5

insert-Inserted_example : Inserted keys 5 one_timer two_timers
unfolding two_timers
insert-Inserted_example =
    insert-Inserted keys no_qos one_timer 5 one_timer-Inserted.valid five_new one_few

two_timers-Inserted : Inserted keys 5 one_timer two_timers
unfolding two_timers
two_timers-Inserted =
    insert-Inserted keys no_qos one_timer 5 one_timer-Inserted.valid five_new one_few

-- Timer 5 is at the root by target, timer 7 at the root by deadline.
roots : (two_timers.slot 0 ≡ 5) × (two_timers.slot 1 ≡ 7) × (two_timers.count ≡ 4)
unfolding two_timers one_timer insert resift
roots = (refl, refl, refl)

five_there : In 0 two_timers 5
five_there = (two_timers-Inserted.members 5).1 (inl refl)

remove-Left_example : Left keys 5 two_timers (remove keys two_timers 5)
remove-Left_example = remove-Left keys two_timers 5 two_timers-Inserted.valid five_there

-- Timer 5 with both keys 200.
abbrev later_keys : ℕ → ℕ → ℕ
later_keys d t = if t == 5 then 200 else keys d t

update-Updated_example : Updated later_keys two_timers (update later_keys two_timers 5)
update-Updated_example =
    update-Updated keys later_keys 5 (λ e t n. ground arith) two_timers two_timers-Inserted.valid
      five_there
