-- ===== src/Apply/Widths.antt =====
-- apply.c: how many threads dispatch_apply_f asks for, and how _dispatch_apply_redirect reserves
-- width on the queues between the one it was given and the root, without interference. The fields of
-- dq_state are those of queue_internal.h and inline_internal.h.
use book.Base.{
  ℕ, ◌-◌, ◌*◌, ◌/◌, ◌%◌, ◌^◌, Option, none, some, List, [], ◌∷◌, ◌++◌, ◌==◌, ◌&&◌, ltb,
  if◌then◌else◌, add64, sub64,
}

abbrev pub apply_max : ℕ
apply_max = 2 ^ 16 - 1

-- dispatch_apply_f: the number of threads and the new nesting, of the iterations, the nesting found
-- in the thread's context and the parallelism of the quality of service.
unfoldable pub thread_count : ℕ → ℕ → ℕ → ℕ
thread_count iterations nested parallelism =
    let share =
      if nested == 0
      then parallelism
      else if ltb nested parallelism
      then parallelism / nested
      else 1 in
    if ltb iterations share then iterations else share

unfoldable pub nesting : ℕ → ℕ → ℕ
nesting iterations nested =
    if nested == 0
    then iterations
    else if ltb nested apply_max && ltb iterations apply_max
    then nested * iterations
    else apply_max

-- DISPATCH_QUEUE_WIDTH_INTERVAL, DISPATCH_QUEUE_WIDTH_FULL
abbrev pub width_interval : ℕ
width_interval = 2 ^ 41

abbrev pub width_full : ℕ
width_full = 2 ^ 12

-- _dq_state_extract_width_bits, _dq_state_available_width
abbrev pub width_bits : ℕ → ℕ
width_bits state = state / 2 ^ 41 % 2 ^ 13

abbrev pub available_width : ℕ → ℕ
available_width state = if state / 2 ^ 53 % 2 == 0 then width_full - width_bits state else 0

pub record Queue : Type 0 where
  pub width : ℕ
  pub state : ℕ

-- _dispatch_queue_try_reserve_apply_width
unfoldable pub try_reserve : Queue → ℕ → Queue × ℕ
try_reserve q da_width =
    if q.width == 1
    then (q, 0)
    else (let available = available_width q.state in
        let width = if ltb da_width available then da_width else available in
        if available == 0
        then (q, 0)
        else (record q { state = add64 q.state (width * width_interval) }, width))

-- _dispatch_queue_relinquish_width, over the queues from top_dq to stop_dq.
unfoldable pub relinquish : ℕ → List Queue → List Queue
relinquish da_width [] = []
relinquish da_width (q ∷ qs) =
    record q { state = sub64 q.state (da_width * width_interval) } ∷ relinquish da_width qs

-- What the loop of _dispatch_apply_redirect comes to: the queues passed, and the width and the
-- threads left, or none.
pub data Plan : Type 0 where
  serial : List Queue → Plan
  parallel : List Queue → (da_width thr_cnt : ℕ) → Plan

-- The loop, `passed` being the queues from top_dq to dq.
unfoldable pub reserve_all : List Queue → List Queue → ℕ → ℕ → Plan
reserve_all passed [] da_width thr_cnt = parallel passed da_width thr_cnt
reserve_all passed (q ∷ qs) da_width thr_cnt =
    let r = try_reserve q da_width in
    let excess = da_width - r.1 in
    let passed' = if ltb r.1 da_width then relinquish excess passed else passed in
    let rest = reserve_all (passed' ++ r.0 ∷ []) qs r.1 (thr_cnt - excess) in
    if r.1 == 0 && ltb 0 da_width then serial (passed' ++ r.0 ∷ qs) else rest

-- _dispatch_apply_redirect, over the queues from top_dq to the root: the queues afterwards, and with
-- how many threads the iterations ran, or none where they ran serially.
unfoldable pub redirect : List Queue → ℕ → List Queue × Option ℕ
redirect qs thr_cnt = elim (reserve_all [] qs (thr_cnt - 1) thr_cnt) [
  | serial left ↦ (left, none)
  | parallel held da_width cnt ↦ (relinquish da_width held, some cnt)
]
