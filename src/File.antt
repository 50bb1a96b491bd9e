-- ===== src/File.antt =====
-- kernel/file.c, kernel/sysfile.c: the table of open files with its reference counts, and the two
-- system calls that copy and drop a descriptor. A file is its index in the table. Each function
-- runs under the table's lock, so it is one step; the lock itself is left out.
pub mod Counts
pub mod Counted
pub mod References
pub mod Limit
mod Tests
use os_final_project.Prelude.{
  ℕ, zero, suc, ◌+◌, Bool, true, false, Option, none, some, List, [], ◌∷◌, ◌==◌, if◌then◌else◌,
  add32, sub32, slt, sle, modify, set, get_elem?,
}
use os_final_project.Proc.{Proc, nofile}
use os_final_project.Rlimit.{fdalloc}

pub data Kind : Type 0 where
  fd_none fd_pipe fd_inode fd_device : Kind

-- `struct file`; the pipe and the inode are addresses.
pub record File : Type 0 where
  pub kind : Kind
  pub ref : ℕ
  pub readable : Bool
  pub writable : Bool
  pub pipe : ℕ
  pub ip : ℕ
  pub off : ℕ
  pub major : ℕ

unfoldable pub set_ref : ℕ → File → File
set_ref n f = record f { ref = n }

-- The loop of `filealloc` from the entry `i` on: the first file with no reference.
unfoldable pub alloc_from : ℕ → List File → Option ℕ
alloc_from i [] = none
alloc_from i (f ∷ fs) = if f.ref == 0 then some i else alloc_from (i + 1) fs

-- The file, none for a null pointer, with the table after it.
unfoldable pub filealloc : List File → Option (ℕ × List File)
filealloc fs = elim (alloc_from 0 fs) [ none ↦ none | some i ↦ some (i, modify fs i (set_ref 1)) ]

-- `none` is a panic, here and in `fileclose`.
unfoldable pub filedup : ℕ → List File → Option (List File)
filedup i fs = elim (get_elem? fs i) [
  | none ↦ none
  | some f ↦ if slt f.ref 1 then none else some (modify fs i (set_ref (add32 f.ref 1)))
]

-- What `fileclose` does once it has let the table's lock go.
pub data Closing : Type 0 where
  kept : Closing
  nothing : Closing
  close_pipe : ℕ → Bool → Closing
  put_inode : ℕ → Closing

unfoldable pub last_close : File → Closing
last_close f = elim f.kind [
  | fd_none ↦ nothing
  | fd_pipe ↦ close_pipe f.pipe f.writable
  | fd_inode ↦ put_inode f.ip
  | fd_device ↦ put_inode f.ip
]

unfoldable pub clear_file : File → File
clear_file f = record f { ref = 0; kind = fd_none }

unfoldable pub fileclose : ℕ → List File → Option (Closing × List File)
unfolding last_close clear_file
fileclose i fs = elim (get_elem? fs i) [
  | none ↦ none
  | some f ↦
      if slt f.ref 1
      then none
      else if slt 0 (sub32 f.ref 1)
      then some (kept, modify fs i (set_ref (sub32 f.ref 1)))
      else some (last_close f, modify fs i clear_file)
]

-- `argfd`, for a descriptor that is an `int`.
unfoldable pub argfd : ℕ → Proc → Option ℕ
argfd fd p =
    if slt fd 0
    then none
    else if sle nofile fd
    then none
    else elim (get_elem? p.ofile fd) [ none ↦ none | some f ↦ f ]

-- A system call returns -1, here `none`, or panics.
pub data Call (A : Type 0) : Type 0 where
  failed : Call A
  panicked : Call A
  returned : A → Call A

unfoldable pub sys_dup : ℕ → Proc → List File → Call (ℕ × Proc × List File)
sys_dup old p fs = elim (argfd old p) [
  | none ↦ failed
  | some f ↦ elim (fdalloc f p) [
    | none ↦ failed
    | some (fd, q) ↦ elim (filedup f fs) [ none ↦ panicked | some fs' ↦ returned (fd, q, fs') ]
  ]
]

unfoldable pub sys_close : ℕ → Proc → List File → Call (Closing × Proc × List File)
sys_close fd p fs = elim (argfd fd p) [
  | none ↦ failed
  | some f ↦ elim (fileclose f fs) [
    | none ↦ panicked
    | some (c, fs') ↦ returned (c, record p { ofile = set p.ofile fd none }, fs')
  ]
]
