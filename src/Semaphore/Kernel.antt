-- ===== src/Semaphore/Kernel.antt =====
-- The counting semaphore that the operating system provides (semaphore_signal and semaphore_wait,
-- sem_post and sem_wait, ReleaseSemaphore and WaitForSingleObject), which shims/lock.c only calls.
-- It is a parameter: its documented behaviour is the laws of this record.
use book.Base.{ℕ, ◌+◌, ◌≡◌, Option, none, some}

pub record Sema4 : Type 1 where
  pub State : Type 0
  pub created : State
  pub post : State → State
  pub take : State → Option State  -- `none`: a wait would block
  pub count : State → ℕ
  pub count-created : count created ≡ 0
  pub count-post : (s : State) → count (post s) ≡ count s + 1
  pub count-take : (s t : State) → take s ≡ some t → count s ≡ count t + 1
  pub take-none : (s : State) → take s ≡ none → count s ≡ 0
