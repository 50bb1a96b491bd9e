-- ===== src/Lib.antt =====
-- A model of the core of this kernel, a xv6 with limits on resources, written as functions and step
-- relations, with the theorems that make the modelled parts correct.
--
-- Parts and files:
--   Prelude: numbers, Boolean tests, arrays as lists, and machine words with their wrap-around
--     written out; memory as a function of the address.
--   Kalloc (kernel/kalloc.c): the free list of pages, with the count of free memory. The linker
--     symbol `end` is the parameter `kend`.
--   Spinlock (kernel/spinlock.c): `push_off` and `pop_off` of one CPU, and `acquire` and `release`
--     cut at each write to the lock, with the reads of `holding` in the step before it or with it, for
--     any number of CPUs that interleave in any order. `Sys` is the lock, the CPUs, and the point at which each stands.
--   Cstring (kernel/string.c): the byte and string functions over a memory of bytes.
--   Proc (kernel/proc.c, kernel/proc.h): the process table. Proc.Alloc has `allocproc`, `freeproc`,
--     `userinit` and `kfork`, Proc.Wake has `sleep`, `wakeup`, `yield`, the scheduler's choice and
--     `kkill`, Proc.Exit has `reparent`, `kexit` and `kwait`. A process is an index in the table. What
--     these functions call in other parts of the kernel is the record `Services`, over any state of
--     those parts. `kwait` is cut at its sleep; `Proc.Reach.Step` interleaves all operations.
--   Rlimit (kernel/sysproc.c, kernel/trap.c, kernel/file.c, kernel/sysfile.c): `sys_getrlimit` and
--     `sys_setrlimit`, the timer's count of ticks, the test of `sys_open`, and `fdalloc`. It uses the
--     process record of Proc.
--   Pipe (kernel/pipe.c): the ring of 512 bytes; `pipewrite` and `piperead` are cut at their sleeps.
--     The bytes of user memory are a list, with `none` where the copy fails.
--   Log (kernel/log.c, and `bwrite`, `bpin`, `bunpin` of kernel/bio.c): the redo log over a disk that
--     writes one block atomically, with the trace of its writes. Log.Writes and Log.Order say which
--     writes a commit makes, Log.Stages what the disk holds between them, Log.Crash what a recovery
--     makes of that. Log.Running has operations that run side by side as steps, where `end_op` is cut at
--     the points at which it lets the lock go and takes it again around its commit; Log.Reserve and
--     Log.Budget are about the space that they reserve.
--   Bio (kernel/bio.c): the buffers in the order of their last use, without their data. Bio.Unique has
--     lists with at most one buffer for each block, Bio.Get what `bget` does, Bio.Reuse any order of
--     calls.
--   File (kernel/file.c, kernel/sysfile.c): the table of open files, with `sys_dup` and `sys_close` over
--     Proc and Rlimit. File.Counted relates each count to the references that holders have,
--     File.References follows any order of calls, File.Limit is about `sys_dup` at the limit on open files.
--   Fs (kernel/fs.c, kernel/fs.h): the file system above the buffers and the log. `Disk` has a view of a
--     block for each use: bits of the free map, numbers of an indirect block, bytes, inodes. A block that
--     `bread` gives is the block on the disk, and `none` is a panic. Fs.Bitmap has `balloc` and `bfree`,
--     Fs.Blocks `bmap` and `iupdate`: Fs.Blocks.Table sees the addresses of an inode as one table of 269
--     slots. Fs.Content has `readi` and `writei`; the memory they transfer to or from is a `Source`, with
--     a bound on what each copy gets through. Fs.Content.View is the content as a function of the
--     position, Fs.Content.Frame says what the blocks of other files keep, Fs.Content.Refine has
--     the array of bytes that a file implements. Fs.Trunc has `itrunc`.
--   Vm (kernel/vm.c): page tables of three levels. `Vm` is the entries of the pages that are tables, the
--     bytes of the others, and the free pages of the allocator as a list. Vm.Tree sees the tables as the
--     nodes of a tree, Vm.Attach and Vm.Store say what a new table and a new entry change, Vm.Walk is
--     about `walk`, Vm.Map and Vm.Pages about `mappages`. Vm.Space has the address spaces that share no
--     page, Vm.Fault is about `vmfault`, Vm.User has the bytes that a process sees, Vm.Copyin and Vm.Copied
--     are about `copyin`. `none` is a panic.
--   Console (kernel/console.c): the ring of typed characters; Console.Editing is about `consoleintr`,
--     Console.Consumed and Console.Reading about `consoleread`, which is cut at its sleeps.
--   Sleeplock (kernel/sleeplock.c), Syscall (kernel/syscall.c: argument registers and `fetchaddr`),
--     Sbrk (`sys_sbrk` of kernel/sysproc.c and `growproc` of kernel/proc.c, on the size alone).
--
-- Bounds and fuel: counters of 32 and 64 bits wrap as in C. `count_free_mem` walks on fuel of one
-- more than the number of pages below PHYSTOP, which a list of distinct pages cannot exceed, and
-- `freerange` on the number of pages; `strlen` takes fuel, and ends with any that is above the
-- length of the text; ^U has fuel for the whole ring; `balloc` has one more than the
-- blocks of the free map, and `readi` and `writei` as much as the bytes asked for;
-- `mappages` has the number of pages, and `copyin` two more than the full pages of its length. The interleavings of Proc are followed until
-- `ticks` or `nextpid` wraps, those of File while the references are fewer than the largest `int`.
--
-- Not modelled: copying, shrinking and freeing of address spaces, and `copyout` (kernel/vm.c), the
-- table of inodes, directories and paths (kernel/fs.c),
-- reading and writing through the file table, the dispatch of system calls, program loading, the echo of the console,
-- device drivers, assembly, and the user programs. Locks of the table, of the page allocator, of a
-- pipe and of the log are taken and released within one step each.
pub mod Prelude
pub mod Kalloc
pub mod Spinlock
pub mod Cstring
pub mod Proc
pub mod Rlimit
pub mod Pipe
pub mod Bio
pub mod Log
pub mod File
pub mod Fs
pub mod Console
pub mod Sleeplock
pub mod Sbrk
pub mod Syscall
pub mod Vm
