-- ===== src/Lock.antt =====
-- shims/lock.h: the word of a lock, 32 bits, in the encoding of Mac OS and Windows: the owner's thread
-- id without its two low bits, the bit for waiters, and the bit for a trylock that failed.
use book.Base.{ℕ, ◌+◌, ◌*◌, ◌/◌, ◌%◌, Bool, true, false, ◌==◌, if◌then◌else◌}

-- `value & DLOCK_OWNER_MASK`, which _dispatch_lock_value_from_tid takes of a thread id.
abbrev pub lock_value_from_tid : ℕ → ℕ
lock_value_from_tid tid = tid / 4 * 4

-- _dispatch_lock_is_locked
abbrev pub is_locked : ℕ → Bool
is_locked lock_value = if lock_value / 4 * 4 == 0 then false else true

-- _dispatch_lock_is_locked_by
abbrev pub is_locked_by : ℕ → ℕ → Bool
is_locked_by lock_value tid = lock_value / 4 == tid / 4

-- _dispatch_lock_has_waiters
abbrev pub has_waiters : ℕ → Bool
has_waiters lock_value = lock_value % 2 == 1

-- `value | DLOCK_WAITERS_BIT`
abbrev pub set_waiters : ℕ → ℕ
set_waiters value = if value % 2 == 0 then value + 1 else value

-- _dispatch_lock_has_failed_trylock
abbrev pub has_failed_trylock : ℕ → Bool
has_failed_trylock lock_value = lock_value / 2 % 2 == 1

-- `value | DLOCK_FAILED_TRYLOCK_BIT`
abbrev pub set_failed_trylock : ℕ → ℕ
set_failed_trylock value = if value / 2 % 2 == 0 then value + 2 else value
