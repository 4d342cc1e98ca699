-- ===== src/Group/Word.antt =====
-- semaphore_internal.h: the 64-bit word `dg_state` of a dispatch group. Bits 32 to 63 are the
-- generation, bits 2 to 31 the value, bit 1 says that there are notifications, bit 0 that there
-- are waiters. `dg_bits` and `dg_gen` are its two halves.
use book.Base.{ℕ, ◌+◌, ◌-◌, ◌*◌, ◌/◌, ◌%◌, ◌^◌, Bool, ◌==◌, if◌then◌else◌, sub32, add64}

-- DISPATCH_GROUP_VALUE_INTERVAL
abbrev pub value_interval : ℕ
value_interval = 4

-- DISPATCH_GROUP_VALUE_1, the value after one enter, is the whole value mask.
abbrev pub value_1 : ℕ
value_1 = 0xfffffffc

-- DISPATCH_GROUP_VALUE_MAX
abbrev pub value_max : ℕ
value_max = 4

abbrev pub dg_bits : ℕ → ℕ
dg_bits s = s % 2 ^ 32

-- _dg_state_gen
abbrev pub dg_gen : ℕ → ℕ
dg_gen s = s / 2 ^ 32

-- `s & DISPATCH_GROUP_VALUE_MASK`
abbrev pub masked_value : ℕ → ℕ
masked_value s = s % 2 ^ 32 / 4 * 4

-- _dg_state_value
unfoldable pub dg_state_value : ℕ → ℕ
dg_state_value s = (2 ^ 64 - masked_value s) % 2 ^ 32 / 4

abbrev pub has_waiters : ℕ → Bool
has_waiters s = s % 2 == 1

abbrev pub has_notifs : ℕ → Bool
has_notifs s = s / 2 % 2 == 1

-- `s | DISPATCH_GROUP_HAS_WAITERS`, `s | DISPATCH_GROUP_HAS_NOTIFS` and their inverses.
abbrev pub set_waiters : ℕ → ℕ
set_waiters s = if has_waiters s then s else s + 1

abbrev pub set_notifs : ℕ → ℕ
set_notifs s = if has_notifs s then s else s + 2

abbrev pub clear_waiters : ℕ → ℕ
clear_waiters s = if has_waiters s then s - 1 else s

abbrev pub clear_notifs : ℕ → ℕ
clear_notifs s = if has_notifs s then s - 2 else s

-- The atomic subtraction of dispatch_group_enter is on 32 bits: it leaves the generation alone.
unfoldable pub enter_word : ℕ → ℕ
enter_word s = dg_gen s * 2 ^ 32 + sub32 (dg_bits s) value_interval

-- The atomic addition of dispatch_group_leave is on 64 bits: it carries into the generation.
unfoldable pub leave_word : ℕ → ℕ
leave_word s = add64 s value_interval

-- The word that the loop of dispatch_group_leave stores.
unfoldable pub settled_word : ℕ → ℕ
settled_word s = if masked_value s == 0 then clear_notifs (clear_waiters s) else clear_notifs s
