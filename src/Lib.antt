-- ===== src/Lib.antt =====
-- TypeOS, an x86_64 kernel in C (core/): its frames and page tables, its kernel heap, its filesystem in
-- memory, the unpacker that fills that filesystem at boot, its tasks and their scheduler, descriptors and
-- pipes, the copies from and to a program, the segments of a program, the keyboard, the console, and the
-- string routines that all of them call.
--
-- How the parts interact: the unpacker (core/fs/cpio.c) reads an archive out of physical memory and
-- makes directories, files and links through core/fs/vfs.c. A program reaches the kernel through
-- core/syscall.c, which checks its addresses, and works on the slots of the current task (core/proc.c):
-- open files of the filesystem, or ends of pipes. fork copies the slots, exit makes a zombie that the
-- parent collects, and core/sched.c passes the processor from task to task. The keyboard wakes the
-- tasks that wait. Inodes, files, names and stacks come from the kernel heap (core/mm/heap.c).
--
-- The files:
--  Base - the names of the libraries, Boolean tests, lists over the native numbers, ℤ.
--  CString - core/string.c: texts are lists of bytes, objects are lists with bounds; an access outside
--   of an object is none. Length, Compare, Copy: its theorems.
--  Ring - the window of a circular buffer, which Pipe and Keyboard use.
--  Pipe - struct pipe of core/include/proc.h, its pool in core/proc.c, pipe_read and pipe_write of
--   core/syscall.c. Invariant, Queue: its theorems.
--  Pager - the mapping of pages as the heap sees it, an interface, which Paging/Serve fills.
--  Heap - core/mm/heap.c: the list of blocks with their places. Invariant, Fit, Release, Mapped, Grow and
--   Limit hold its theorems.
--  Paging - core/mm/paging.c: the bitmap of frames and the page tables, with the set-up at boot in Boot.
--   Bitmap and Frames hold the theorems on frames; Walk sees the tables as a tree, Change, Link, Step,
--   Create, Split and Reach follow an address through a change of it; Mapping and Unmap state what a
--   mapped and an unmapped page are; Taken and Reserved: what stays in use. Ram reads and writes frames
--   through the window, with theorems in Window, Rounds, Loops and Whole; Clone copies an address space.
--  Multiboot - core/multiboot.c: the walks over the tags of the boot loader; Modules holds the theorem.
--  Elf - core/elf.c: the test of a header and the pages of a segment; Segment holds the theorem.
--  Vfs - core/fs/vfs.c: the store of inodes; Path has the walks over paths, Ops the entry points; Names,
--   Lookup and Files hold the theorems.
--  Cpio - core/fs/cpio.c; Hex, Entry and Loop hold the theorems.
--  Proc - the task table of core/proc.c, with fork in Fork; Table, Pids, Clone and Reap hold the theorems.
--  Sched - core/sched.c; Pick and Switch hold the theorems.
--  UserMem - the checked copies of core/syscall.c; Bounds holds the theorems.
--  Fd - the descriptor table of core/syscall.c; Slots and Duplicate hold the theorems.
--  Syscall - syscall_dispatch of core/syscall.c and its calls, over the state of all parts: Path resolves
--   paths, Io reads and writes, Files and Paths have the calls on files, Space brk and mmap, Tasks the
--   calls on tasks, Dispatch the switch; Resolve and Joined, Screen, Reads, Pipes, Part, Fill and
--   RoundTrip, Listing, Break and Raise hold the theorems.
--  Keyboard - core/drivers/keyboard.c; Buffer and Line hold the theorems.
--  Console - core/drivers/vga.c: the screen and its cursor, with kprintf in Format and Print; Screen,
--   Digits, Reverse and Numbers hold the theorems.
-- Each operation keeps the name of its C function; the state it changes is an argument and a result.
--
-- Numbers, bounds and fuel: numbers are natural, and a word keeps its wrap-around where the code can
-- reach it (sizes of the heap, the fields and offsets of the archive, ticks, the places of the round
-- robin). Loops over lists are recursion on them. The walk of vfs_lookup_parent has a round of fuel for
-- each byte of the path, which is enough since each round takes one. vfs_lookup_path takes its fuel as
-- an argument, since with links it may not end. The loop over the archive has a round for each byte and
-- one more, and so has the loop of kprintf over its format, of which each round takes a byte. The walks
-- over the tags have their total size as fuel, and a tag that advances takes 8 bytes.
--
-- Allocation: the heap is modelled on its own. Its clients see an oracle of outcomes, so that every call
-- may fail; what kfree gives back is not followed there.
--
-- Page tables: a table is named by the address of its page and holds 512 entries, and two tables share no
-- entry; the view as a tree (each table at one place) is the invariant under which mappings are local.
-- The loops over frames run for their number of frames. The contents of frames other than tables are
-- bytes by their addresses; a loop over a range has a round for each byte, since each takes one at least.
-- The TLB and CR3 are not modelled. Faults: a store to a page that is not mapped is a value of its own in
-- Heap (the headers of blocks) and in Paging.Ram (the bytes of frames). The accesses to the tables
-- themselves always reach them, so what is said of tables is said of runs in which the identity map leads
-- to each of them; a write to the contents of frames is followed where the range meets no table.
--
-- System calls: a program sees its memory by its own addresses, and the frames of the tables hold what it
-- gets from brk and mmap; the copy of the memory of a program back to its frames at a fork is not followed.
-- A call that waits takes what the other tasks do meanwhile from a list, and is still waiting at its end.
-- A loop over a count has as many rounds as bytes, which is enough since each takes one.
--
-- Not modelled: the rest of the ELF loader (its stack and its writes), the tables
-- of the processor and its interrupts, the start of the kernel, what leaves C (the switch to a program,
-- jumps, halts, ports), and time.
pub mod Base
pub mod CString
pub mod Ring
pub mod Pipe
pub mod Pager
pub mod Heap
pub mod Paging
pub mod Multiboot
pub mod Elf
pub mod Vfs
pub mod Cpio
pub mod Proc
pub mod Sched
pub mod UserMem
pub mod Fd
pub mod Keyboard
pub mod Console
pub mod Syscall
