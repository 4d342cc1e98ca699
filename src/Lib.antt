-- ===== src/Lib.antt =====
-- libdispatch: the synchronisation objects and the dispatch data objects of
-- apple/iOS/libdispatch-1271.40.12/src.
--
-- Base: numbers, words, lists and slices that the components share.
--
-- Semaphore: apple/iOS/libdispatch-1271.40.12/src/semaphore.c, dispatch_semaphore_t. `create` is
-- dispatch_semaphore_create, `may_dispose` the check of _dispatch_semaphore_dispose, `wait` and `signal`
-- the fast paths, `wait_slow`, `undo_round` and `take_sema` the slow path of a wait. `Pc` says between
-- which two atomic accesses a thread stands; `advance` is one access, `Step` one access of any thread,
-- `Reach` any interleaving. The kernel semaphore, which shims/lock.c only calls, is the parameter
-- `Semaphore.Kernel.Sema4`. `dsema_value` is the bit pattern of a 64-bit integer. `acquired` and
-- `signals` are history. Semaphore/Balance: what holds in every reachable state; Semaphore/Alone: one
-- call without interference; Semaphore/Disposal: when the object may go. The theorems assume fewer than 2^63 - 1 threads, since each may have
-- decremented the value once. `finish` takes 4 steps, the most that such a call has.
--
-- Group: dispatch_group_t of the same file. Group/Word is the word `dg_state` of semaphore_internal.h.
-- `enter`, `leave`, `leave_round`, `wait`, `notify_push`, `flag_notifs` and `submit_notifs` are the
-- shared accesses of dispatch_group_enter, dispatch_group_leave, dispatch_group_wait,
-- _dispatch_group_notify and _dispatch_group_wake; `advance` puts them in order. A successful
-- os_atomic_rmw_loop is one step, the loop of dispatch_group_leave is many. A thread that sleeps on
-- `dg_gen` is at `parked`; it may wake for no reason, or time out. The list of notifications is its
-- contents: the os_mpsc macros order pushes by the exchange of the tail, and their pointers are not
-- modelled. Counting, Notices, References, Settling and Waiters each hold one part of the invariant,
-- Invariant puts them together, Safety draws the consequences. Group/Lifecycle has the creation with a
-- count and the check of _dispatch_group_dispose. The generation has 32 bits, so the
-- theorems hold until the group has emptied 2^32 - 1 times.
--
-- Data: data.c and data_internal.h of the same directory. Data/Defs has the objects and the operations
-- that build them, dispatch_data_create_concat and dispatch_data_create_subrange; Data/Access has
-- _dispatch_data_map_direct, dispatch_data_apply and dispatch_data_copy_region. Objects are values:
-- their records never change, and reference counts appear as the list of objects retained. Data/Bytes
-- is the abstract view, a list of bytes, and well-formedness: every record of a composite refers to a
-- leaf. So copy_from, which recurs on the object of a record, needs a fuel of 2. Data/Mapping has
-- dispatch_data_create_map, with malloc as a parameter: whether it finds memory for a size. Destructors
-- and disposal are not modelled.
--
-- Transform: transform.c of the same directory, its tables and both directions of base64
-- and (Transform/Base32) of base32 and base32hex. Their blocks
-- are appliers of `Data.Access.apply`, and they build their results by `create_concat`, as the code
-- does. Allocation does not fail. Transform/Rfc4648 is what RFC 4648 says; Transform/RoundTrip has the
-- decoder, Transform/Encoder the encoder, and Transform/LastByte the byte that it looks up before a
-- region by _dispatch_data_subrange_map. `overrun` in Transform/Base64 stands for a call
-- of dispatch_data_create with a length that is larger than the buffer.
--
-- Transform/Utf: the UTF-8 and UTF-16 transforms of transform.c. Utf has the output buffer
-- (`buffer_new`, `put`) and the reading of sequences, Utf/ToUtf16 and Utf/FromUtf16 the two transforms,
-- each a loop over the regions of an object around a loop over a region with fuel: a round takes a byte,
-- or a unit, so the region's length is enough. `Outcome` tells a value from a return of false and from
-- a read or write outside of a buffer. Utf/Forms has the encoding forms of RFC 3629 and RFC 2781;
-- Points, Widening, Filling, Units, Narrowing, Lengths and Transcoding are about text in one region,
-- Bounds, WideningBounds and NarrowingBounds about writes, Rounds about the fuel. Utf/Detection is
-- _dispatch_transform_detect_utf and _dispatch_transform_to_utf8_without_bom. Transform/Formats is dispatch_data_create_with_transform
-- with the table of formats; Formats/Refusing and Formats/Detecting are about it. The host is
-- little-endian.
--
-- Time: time.c, shims/time.h and dispatch/time.h, the encoding of a clock and a value in a
-- dispatch_time_t and the functions that make and read one. The clocks are the record `Now`, what the
-- system answers; the unit of mach time is the nanosecond.
--
-- Timer: event/event.c, the double heap of timers. `insert`, `remove` and `update` are
-- _dispatch_timer_heap_insert, _dispatch_timer_heap_remove and _dispatch_timer_heap_update, over
-- `resift`, whose loops have fuel: the index falls in the first and rises below the count in the
-- second. Moving and Sifting treat one round, Loops the loops, Resift the whole, Operations and Removal
-- one heap, Heaps, Leaving and Updating both. The count and the indices are of 32 bits, and a valid heap
-- has fewer than 2^31 slots in use, which is fewer than 2^30 timers, so that no index wraps around.
--
-- Lock: the word of a lock, of shims/lock.h. Once: dispatch_once_f of once.c with the gate of shims/lock.h
-- and shims/lock.c. `load`, `gate_tryenter`, `gate_broadcast`, `wait_round`, `lock_wait` and
-- `mark_if_quiesced` are its accesses, `advance` puts them in order, by a `Pc` for each point between
-- two of them; `quiescent` says whether the counter of context switches is used. A sleep in the kernel
-- compares the word first, and a broadcast wakes all. Weights has what the invariant counts, Moves the
-- invariant, Accesses, Sleeping and Advancing each access, Invariant any interleaving; Safety and
-- Crashes draw the consequences; Settling, Returning and Waking build the run by which a call returns.
-- In this system the function returns and does not call dispatch_once on its own gate; Recursion adds
-- such a call, whose accesses interleave with the others.
--
-- Apply: _dispatch_apply_invoke2 of apply.c and the thread event of the lock shims, in the same way;
-- one of the threads is the caller, and waits. Measure and Termination have a number that each access
-- lowers, Progress that some thread can always go on. Apply/Widths has the number of threads that
-- dispatch_apply_f asks for and _dispatch_apply_redirect, over the list of queues between the one given
-- and the root; Apply/Reserving is about it.
--
-- Unfair: the unfair lock of shims/lock.h and shims/lock.c over the kernel's, in the same way. A wake
-- wakes one thread, and `awoken` says what the kernel tells it.
--
-- Not modelled: queues, sources, I/O, Mach channels, vouchers, the event loop, the allocator,
-- firehose logging: other parts of libdispatch. The rest of the repository is
-- notes.
pub mod Base
pub mod Semaphore
pub mod Group
pub mod Data
pub mod Transform
pub mod Time
pub mod Timer
pub mod Lock
pub mod Once
pub mod Apply
pub mod Unfair
