-- ===== src/Semaphore/Alone.antt =====
-- `dispatch_semaphore_t` as one thread sees it with no other thread between its steps: what a call
-- returns, what it leaves unchanged, and where it crashes.
use book.Base.{
  ℕ, zero, suc, ◌+◌, ◌-◌, ◌<◌, ◌^◌, ◌≡◌, ◌≢◌, ◌↔◌, refl, Option, none, some, is_pos64,
  if◌then◌else◌, arith,
}
use book.Semaphore.Kernel.{Sema4}
use book.Semaphore.{
  Timeout, now, forever, deadline, idle, Choice, expired, Memory, Outcome, next, crash, blocked,
  wait, signal, advance,
}

module _ {k : Sema4} where
  -- Run one thread until its call returns.
  pub finish : ℕ → Choice → Outcome k → Option (Memory k)
  finish zero c o = none
  finish (suc f) c (next m idle) = some m
  finish (suc f) c (next m pc) = finish f c (advance c pc m)
  finish (suc f) c crash = none
  finish (suc f) c blocked = none

  -- A wait that does not block (DISPATCH_TIME_NOW, or a deadline that passes), on any value but
  -- LONG_MIN: it returns within four steps, having taken a token if the value was positive, and
  -- otherwise leaves the semaphore as it was.
  wait_alone :
      (t : Timeout) (m : Memory k)
      → t ≢ forever
      → m.value < 2 ^ 64
      → m.value ≢ 2 ^ 63
      → finish 4 expired (wait t m)
        ≡ some (
            if is_pos64 m.value
            then record m { value = m.value - 1; acquired = m.acquired + 1 }
            else m)
  unfolding finish wait advance
  wait_alone now m nf fits h = ground arith
  wait_alone forever m nf fits h = absurd (nf refl)
  wait_alone deadline m nf fits h = ground arith

  -- A signal crashes exactly when the value was LONG_MAX.
  signal_crash : (m : Memory k) → m.value < 2 ^ 64 → (signal m ≡ crash) ↔ (m.value ≡ 2 ^ 63 - 1)
  unfolding signal
  signal_crash m fits = (λ e. ground arith, λ e. ground arith)
