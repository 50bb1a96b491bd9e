-- ===== src/File/Tests.antt =====
-- kernel/file.c, kernel/sysfile.c: a pipe's file with two references.
use os_final_project.Prelude.{
  ℕ, zero, suc, ◌<◌, ◌≡◌, ◌≢◌, refl, true, false, none, some, List, [], ◌∷◌, arith, get_elem?,
  replicate,
}
use os_final_project.File.{
  File, fd_none, fd_pipe, set_ref, alloc_from, filealloc, filedup, Closing, kept, fileclose, argfd,
  returned, sys_dup,
}
use os_final_project.Proc.{Proc, running}
use os_final_project.Rlimit.{get_proc_open_files, count_open, open_allowed}
use os_final_project.File.Limit.{sys_dup_over_limit}
use os_final_project.File.Counted.{Open, IsCounted}
use os_final_project.File.References.{Reach, start, later, allocates, copies, fills, close_last}

abbrev free_file : File
free_file = record {
  kind = fd_none;
  ref = 0;
  readable = true;
  writable = false;
  pipe = 0;
  ip = 0;
  off = 0;
  major = 0;
}

abbrev as_pipe : File → File
as_pipe f = record f { kind = fd_pipe; pipe = 0x8005_0000 }

abbrev closed_files : Open
closed_files = record { files = free_file ∷ free_file ∷ []; refs = [] }

closed_files-IsCounted : IsCounted closed_files
closed_files-IsCounted = record {
  exact = λ i f e. zero_refs i f e;
  inside = λ i pos. absurd (omega arith);
  few = omega arith;
}
  where
    zero_refs : (i : ℕ) (f : File) → get_elem? closed_files.files i ≡ some f → f.ref ≡ 0
    zero_refs zero f e = ground arith
    zero_refs (suc zero) f e = ground arith
    zero_refs (suc (suc i)) f e = cc e

abbrev allocated : Open
allocated = record { files = record free_file { ref = 1 } ∷ free_file ∷ []; refs = 0 ∷ [] }

abbrev filled : Open
filled = record { files = as_pipe (record free_file { ref = 1 }) ∷ free_file ∷ []; refs = 0 ∷ [] }

abbrev copied : Open
copied = record {
  files = as_pipe (record free_file { ref = 2 }) ∷ free_file ∷ [];
  refs = 0 ∷ 0 ∷ [];
}

copied-Reach : Reach closed_files copied
unfolding filealloc alloc_from filedup set_ref
copied-Reach =
    later
      (later
        (later start (allocates 0 (record free_file { ref = 1 } ∷ free_file ∷ []) refl refl)
          (omega arith))
        (fills 0 as_pipe (λ f. refl) refl) (omega arith))
      (copies 0 0 (as_pipe (record free_file { ref = 2 }) ∷ free_file ∷ []) refl refl refl)
      (omega arith)

close_last_example :
    (filedup 0 copied.files ≢ none)
    × (f : File) × (c : Closing) × (fs : List File) × (get_elem? copied.files 0 ≡ some f)
    × (fileclose 0 copied.files ≡ some (c, fs))
    × (c ≡ kept)
close_last_example = close_last closed_files-IsCounted copied-Reach 1 0 refl

-- A process at its limit of one open file, the pipe's.
abbrev process : Proc
process = record {
  state = running;
  chan = 0;
  killed = 0;
  xstate = 0;
  pid = 7;
  nofile_cur = 16;
  nofile_max = 1;
  parent = none;
  kstack = 0x3fff_0000;
  sz = 4096;
  pagetable = 0x8003_0000;
  trapframe = 0x8004_0000;
  context_ra = 0;
  context_sp = 0;
  ofile = some 0 ∷ replicate 15 none;
  cwd = none;
  name = [];
  cpu_ticks = 3;
  cpu_ticks_max = 5;
  start_time = 0;
  sleep_ticks = 0;
  wait_ticks = 0;
  wait_start = 0;
  sleep_start = 0;
  context_switches = 0;
}

sys_dup_over_limit_example :
    (fd : ℕ) × (q : Proc) × (fs : List File) × (open_allowed process ≡ false)
    × (sys_dup 0 process copied.files ≡ returned (fd, q, fs))
    × (q.nofile_max < get_proc_open_files q)
unfolding argfd get_proc_open_files count_open
sys_dup_over_limit_example =
    sys_dup_over_limit 0 0 process copied.files refl refl (omega arith) (omega arith) refl refl refl
      (omega arith)
