-- ===== src/Proc.antt =====
-- kernel/proc.h, kernel/proc.c: the process table. A process is named by its index in the table, a
-- null pointer to one is `none`; other pointers are addresses, with 0 for null; an `int` is a
-- 32-bit pattern. The locks of the table are taken and released within each operation, so an
-- operation, or the part of it up to a `sleep`, is one step here.
pub mod Alloc
pub mod Wake
pub mod Exit
pub mod Kill
pub mod Fresh
pub mod Frame
pub mod Preserved
pub mod Reach
pub mod Account
pub mod Keep
mod Tests
use os_final_project.Prelude.{ℕ, Bool, Option, List}

-- `enum procstate`
pub data Procstate : Type 0 where
  unused used sleeping runnable running zombie : Procstate

-- `struct proc`, less its lock. An open file and the current directory are given by the index in
-- the table of files and of inodes; `name` is the text before the NUL.
pub record Proc : Type 0 where
  pub state : Procstate
  pub chan : ℕ
  pub killed : ℕ
  pub xstate : ℕ
  pub pid : ℕ
  pub nofile_cur : ℕ
  pub nofile_max : ℕ
  pub parent : Option ℕ
  pub kstack : ℕ
  pub sz : ℕ
  pub pagetable : ℕ
  pub trapframe : ℕ
  pub context_ra : ℕ
  pub context_sp : ℕ
  pub ofile : List (Option ℕ)
  pub cwd : Option ℕ
  pub name : List ℕ
  pub cpu_ticks : ℕ
  pub cpu_ticks_max : ℕ
  pub start_time : ℕ
  pub sleep_ticks : ℕ
  pub wait_ticks : ℕ
  pub wait_start : ℕ
  pub sleep_start : ℕ
  pub context_switches : ℕ

-- The table, `nextpid`, `initproc` and the clock.
pub record Table : Type 0 where
  pub procs : List Proc
  pub nextpid : ℕ
  pub initproc : Option ℕ
  pub ticks : ℕ

-- NPROC, NOFILE, PGSIZE
abbrev pub nproc : ℕ
nproc = 64

abbrev pub nofile : ℕ
nofile = 16

abbrev pub pgsize : ℕ
pgsize = 4096

-- What the operations call in the other parts of the kernel, over the state `W` of those parts.
-- A page, a page table and a user address are numbers, with 0 for a failed allocation.
pub record Services (W : Type 0) : Type 0 where
  pub kalloc : W → ℕ × W
  pub kfree : ℕ → W → W
  pub proc_pagetable : ℕ → W → ℕ × W
  pub proc_freepagetable : ℕ → ℕ → W → W
  pub uvmcopy : ℕ → ℕ → ℕ → W → Bool × W
  -- The registers saved in the trapframe page of the second process become those of the first,
  -- with 0 in a0.
  pub copy_trapframe : ℕ → ℕ → W → W
  pub copyout_int : ℕ → ℕ → ℕ → W → Bool × W
  pub filedup : ℕ → W → W
  pub fileclose : ℕ → W → W
  pub idup : ℕ → W → W
  pub iput_in_op : ℕ → W → W
  -- `namei("/")`: the inode, `none` for a null pointer.
  pub namei_root : W → Option ℕ × W
