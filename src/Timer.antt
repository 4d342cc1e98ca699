-- ===== src/Timer.antt =====
-- event/event.c, the timer heap: two min-heaps of timers in one array, the one by target in the even
-- slots, the one by deadline in the odd ones. A timer is its address, and 0 is NULL; `key` is
-- `dt_timer.heap_key` and `qos` the QoS from `du_priority`. A slot is found by its index: the segments
-- that _dispatch_timer_heap_get_slot looks it up in are counted, not modelled. `dth_count` and the
-- indices are of 32 bits, and `dth_segments` and `dth_max_qos` of 8.
pub mod Moving
pub mod Sifting
pub mod Loops
pub mod Resift
pub mod Operations
pub mod Removal
pub mod Heaps
pub mod Leaving
pub mod Updating
pub mod Examples
use book.Base.{
  ℕ, zero, suc, ◌+◌, ◌-◌, ◌*◌, ◌/◌, ◌%◌, ◌^◌, Bool, true, false, ◌==◌, ltb, leb, if◌then◌else◌,
}

-- `dth_count`, `dth_segments`, the slots, `dt_heap_entry` of each timer by heap and timer,
-- `dth_needs_program` and `dth_max_qos`.
pub record Heap : Type 0 where
  pub count : ℕ
  pub segments : ℕ
  pub slot : ℕ → ℕ
  pub entry : ℕ → ℕ → ℕ
  pub needs_program : Bool
  pub max_qos : ℕ

-- DTH_INVALID_ID
abbrev pub invalid_id : ℕ
invalid_id = 0xffffffff

abbrev pub heap_id : ℕ → ℕ
heap_id idx = idx % 2

-- _dispatch_timer_heap_capacity, in 32 bits. C leaves a shift by 32 or more open.
unfoldable pub capacity : ℕ → ℕ
capacity zero = 2
capacity (suc seg_no) = (2 + 8 * 2 ^ seg_no % 2 ^ 32 + 2 ^ 32 - seg_no) % 2 ^ 32

-- _dispatch_timer_heap_parent
abbrev pub parent : ℕ → ℕ
parent idx = (idx - 2) / 2 / 2 * 2 + heap_id idx

-- _dispatch_timer_heap_left_child
abbrev pub left_child : ℕ → ℕ
left_child idx = (2 * idx + 2 - heap_id idx) % 2 ^ 32

-- _dispatch_timer_heap_set
unfoldable pub set_slot : Heap → ℕ → ℕ → Heap
set_slot h idx dt = record h {
  slot = λ j. if j == idx then dt else h.slot j;
  entry = λ d t. if d == heap_id idx then (if t == dt then idx else h.entry d t) else h.entry d t;
  needs_program = if ltb idx 2 then true else h.needs_program;
}

-- The three variables that the loops of _dispatch_timer_heap_resift change.
pub record Sift : Type 0 where
  pub heap : Heap
  pub idx : ℕ
  pub sifted_up : Bool

-- The child that the second loop takes: the right one if it exists and is smaller.
unfoldable pub smaller_child : (ℕ → ℕ → ℕ) → Heap → ℕ → ℕ
smaller_child key h idx =
    let d = heap_id idx in
    let cidx = left_child idx in
    let ridx = (cidx + 2) % 2 ^ 32 in
    if ltb ridx h.count
    then if leb (key d (h.slot cidx)) (key d (h.slot ridx)) then cidx else ridx
    else cidx

module _ (key : ℕ → ℕ → ℕ) (dt : ℕ) where
  -- The first loop, with fuel.
  unfoldable pub sift_up : ℕ → Sift → Sift
  unfolding set_slot
  sift_up zero s = s
  sift_up (suc fuel) s =
      let d = heap_id s.idx in
      let pidx = parent s.idx in
      let pdt = s.heap.slot pidx in
      let moved : Sift = record {
        heap = set_slot s.heap s.idx pdt;
        idx = pidx;
        sifted_up = true;
      } in
      let rest = sift_up fuel moved in
      if ltb s.idx 2 then s else if leb (key d pdt) (key d dt) then s else rest

  -- The second loop, with fuel.
  unfoldable pub sift_down : ℕ → Sift → Sift
  unfolding set_slot smaller_child
  sift_down zero s = s
  sift_down (suc fuel) s =
      let d = heap_id s.idx in
      let cidx = smaller_child key s.heap s.idx in
      let cdt = s.heap.slot cidx in
      let moved : Sift = record {
        heap = set_slot s.heap s.idx cdt;
        idx = cidx;
        sifted_up = s.sifted_up;
      } in
      let rest = sift_down fuel moved in
      if ltb (left_child s.idx) s.heap.count
      then if leb (key d dt) (key d cdt) then s else rest
      else s

  -- _dispatch_timer_heap_resift. Each round up lowers the index, and each round down raises it, below
  -- the count as long as that is below 2^31: the fuels are enough then.
  unfoldable pub resift : Heap → ℕ → Heap
  unfolding sift_up sift_down set_slot
  resift h idx =
      let up = sift_up (idx + 1) (record { heap = h; idx = idx; sifted_up = false }) in
      let down = sift_down (h.count + 1) up in
      let s = if up.sifted_up then up else down in set_slot s.heap s.idx dt

-- The QoS of the heap is raised to that of a timer.
abbrev pub raise_qos : (ℕ → ℕ) → Heap → ℕ → Heap
raise_qos qos h dt =
    if ltb h.max_qos (qos dt)
    then record h { max_qos = qos dt % 2 ^ 8; needs_program = true }
    else h

-- A segment is added where the count is past the capacity.
abbrev pub make_room : Heap → Heap
make_room h = record h {
  segments = if ltb (capacity h.segments) h.count then (h.segments + 1) % 2 ^ 8 else h.segments;
}

-- The first timer of an empty heap.
abbrev pub first_timer : Heap → ℕ → Heap
first_timer h dt = record h {
  needs_program = true;
  entry = λ d t. if t == dt then d else h.entry d t;
  slot = λ j. if ltb j 2 then dt else h.slot j;
}

abbrev pub clear_entry : Heap → ℕ → Heap
clear_entry h dt = record h { entry = λ d t. if t == dt then invalid_id else h.entry d t }

-- The last timer of the heap is gone.
abbrev pub none_left : Heap → Heap
none_left h = record h { needs_program = true; slot = λ j. if ltb j 2 then 0 else h.slot j }

-- A segment is given up where the count is within the capacity without it. A heap that holds more
-- than one timer has a segment.
abbrev pub less_room : Heap → Heap
less_room h = record h {
  segments = if leb h.count (capacity (h.segments - 1)) then h.segments - 1 else h.segments;
}

module _ (key : ℕ → ℕ → ℕ) (qos : ℕ → ℕ) where
  -- _dispatch_timer_heap_insert
  unfoldable pub insert : Heap → ℕ → Heap
  unfolding resift
  insert h dt =
      let count = (h.count + 2) % 2 ^ 32 in
      let idx = (count + 2 ^ 32 - 2) % 2 ^ 32 in
      let h1 = raise_qos qos (record h { count = count }) dt in
      let by_target = resift key dt (make_room h1) idx in
      let both = resift key dt by_target (idx + 1) in if idx == 0 then first_timer h1 dt else both

module _ (key : ℕ → ℕ → ℕ) where
  -- The body of the loop of _dispatch_timer_heap_remove: the last timer of the heap is taken out of
  -- its slot, and put where `dt` is.
  unfoldable pub refill : ℕ → ℕ → Heap → Heap
  unfolding resift
  refill dt last_idx h =
      let last_dt = h.slot last_idx in
      let emptied = record h { slot = λ j. if j == last_idx then 0 else h.slot j } in
      let moved = resift key last_dt emptied (h.entry (heap_id last_idx) dt) in
      if last_dt == dt then emptied else moved

  -- _dispatch_timer_heap_remove
  unfoldable pub remove : Heap → ℕ → Heap
  unfolding refill
  remove h dt =
      let idx = (h.count + 2 ^ 32 - 2) % 2 ^ 32 in
      let h1 = record h { count = idx } in
      let filled = refill dt (idx + 1) (refill dt idx h1) in
      clear_entry (if idx == 0 then none_left h1 else less_room filled) dt

  -- _dispatch_timer_heap_update
  unfoldable pub update : Heap → ℕ → Heap
  unfolding resift
  update h dt =
      let by_target = resift key dt h (h.entry 0 dt) in
      resift key dt by_target (by_target.entry 1 dt)
