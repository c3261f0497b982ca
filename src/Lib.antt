-- ===== src/Lib.antt =====
-- The Sapote kernel: its memory, time and interrupt bookkeeping.
--
-- Base holds Boolean tests, arrays, machine words, counts over a range of indices and masks.
--
-- Frames models src/kernel/physical_memory.c, the allocator of physical frames. Frames/State has
-- its file-scope state as one record, and each entry point is a function from that state to a
-- status and the state after. Frames/Bitmap reads and writes the two bitmaps bit by bit inside
-- their bytes. Frames/Setup is apply_memory_map and frame_allocator_initialize, Frames/Single
-- frame_allocate and frame_release, Frames/Contiguous frame_allocate_contiguous and
-- frame_release_contiguous with the table of records (Frames/Records), and Frames/Range the
-- conversion of byte ranges to frames, recompute_stats, frame_reserve_range and
-- frame_range_overlaps_allocatable_memory. The number of frames is an argument `frames`, the
-- FRAME_COUNT of the source, which is 2^20; the theorems ask that it is below 2^52, so that no
-- address of a frame leaves 64 bits. Frames/Invariant is what holds between calls. Each loop of
-- the source runs on a number of rounds that is the length of its range, so none is cut short. The
-- memory map is the list of what boot_information_region_at answers for each index.
--
-- Boot models src/kernel/multiboot2.c, the parser of the boot information. Memory is the byte at
-- each address (Boot/Memory), Boot/Tags has what is done with one tag and Boot/Parse the header
-- and the walk over the tags, on fuel: `none` is its end, and more than the 16 MiB that the
-- information may have is enough. A theorem on values asks that memory holds bytes. Boot/Ends is
-- about the walk, Boot/Reads and Boot/Inside about what a parse reads, Boot/Regions about the
-- memory map, Boot/Pixels about the framebuffer, and Boot/Handover gives the parsed memory map to
-- Frames.
--
-- Time models src/kernel/tsc.c and src/kernel/clock.c: Time/Tsc the calibration of the counter and
-- the conversion to nanoseconds, Time/Clock the monotonic clock over it. Time/PmTimer models
-- src/kernel/pm_timer.c: the reads of the ACPI timer, the wait over them (Time/PmTimer/Wait) and
-- the conversions (Time/PmTimer/Convert). The wait runs on fuel, and more than its 64 polls for
-- each tick is enough. What the processor and the ACPI timer answer during a calibration is the
-- record Probe, and a reading of the counter is an argument of the call that takes it.
--
-- Vectors models src/kernel/interrupt_vector.c: Vectors/Table has the two arrays and the counts as
-- one record and the operations on it, Vectors/Counts the states that calls reach, Vectors/Scan
-- what a request is granted, and Vectors/Handles what a handle is good for. Whether interrupts are
-- enabled is an argument.
--
-- Heap models src/kernel/heap.c: Heap/Table the block table and its check, Heap/Calls the entry
-- points and the pages under them. The frame allocator and the page tables are a record of
-- operations, Memory, on a state of their own, of which nothing is assumed. Heap/Chain has the
-- abstract view, a map from the offset of a live allocation to its size; Heap/Split, Heap/Merge,
-- Heap/Coalesce and Heap/Growth are about the steps on the table, Heap/Grant, Heap/Allocate and
-- Heap/Complete about heap_allocate, and Heap/Release about heap_free. The loop over pages runs on
-- the number of pages in its range.
--
-- Keyboard models the scancode decoding and the event ring of src/kernel/keyboard.c, a byte from
-- the controller being an argument; Keyboard/Queue is the ring as a list.
--
-- Surface models clipping, the damage rectangle and surface_fill_rect of src/kernel/surface.c,
-- with the start and the release (Surface/Life) and single pixels (Surface/Pixel). Surface/Picture
-- has the operations, Surface/Rows what the loops write, Surface/Damage the damage and
-- Surface/Fill a whole fill. The pixels are the words by index.
--
-- Threads models src/kernel/thread.c: Threads/State the slot table and the file-scope variables
-- as one record, Threads/Schedule the choice of the next thread, yielding, the quantum and
-- exiting, Threads/Stacks the pages under a thread's stack and its first frame, Threads/Life
-- start, creation, stop and reports, Threads/Verify thread_verify, Threads/Sound and Verified
-- what its answer says, and Threads/Join thread_join (on fuel). A switch of the registers is the
-- change of the current slot. Threads/Invariant, Keeps and Slots are what holds between calls,
-- Threads/Rotation the distance from the current slot to another, and Threads/Turns sequences of
-- calls. A panic is `none`. The loops run on the number of slots or pages in their range.
--
-- Timer models src/kernel/timer.c: Timer/Table the table of deadlines and the scans over it, and
-- Timer/Calls the entry points with the programming of the local APIC timer. The clock and the
-- answers of the local APIC timer are a record that the caller gives, and a callback is the list
-- of the calls that it makes. expire_reached runs on fuel, and `none` is its end: a fuel above
-- the capacity is enough. Timer/Sleep is timer_sleep_ns with the flag that sleep_callback sets,
-- over a list of the turns of its wait: `none` is a halt that does not return, or the end of the
-- list, and the pass in an interrupt has the fuel that it needs. What interrupts do in a turn is
-- a list of expiry passes and of calls of the timer; a second sleep in the meantime is not among
-- them. Timer/Waking is about the answers of a sleep, Timer/Due, Expiry and Cover about the
-- expiry pass and what the timer is left programmed for, and Timer/Slots, Identifiers and
-- Requests about the table.
--
-- Pages is the interface that Heap and Threads take: the frame allocator and the page tables as a
-- record of operations on a state of their own.
--
-- A word of 64 bits is a native number, and the wrap-around of an operation is written out
-- (Base/Words). A pointer argument that may be null is a Boolean or an Option.
--
-- Not modelled: the drivers and their port access, the page tables, the rest of the surface, the
-- switch of the registers, the tests, the text output, and the status strings.
pub mod Base
pub mod Pages
pub mod Time
pub mod Frames
pub mod Vectors
pub mod Heap
pub mod Keyboard
pub mod Boot
pub mod Surface
pub mod Timer
pub mod Threads
