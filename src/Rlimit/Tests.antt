-- ===== src/Rlimit/Tests.antt =====
-- kernel/sysproc.c, kernel/trap.c, kernel/file.c, kernel/sysfile.c: runs with one process.
use os_final_project.Prelude.{◌<◌, ◌≤◌, ◌≡◌, refl, none, some, [], ◌∷◌, arith, sext, replicate}
use os_final_project.Proc.{Proc, running}
use os_final_project.Rlimit.{
  rlimit_cpu, max_cpu_ticks, setrlimit, get_proc_open_files, count_open, fdalloc, fd_from,
  open_allowed,
}
use os_final_project.Rlimit.Cpu.{user, kernel, run_ticks, setrlimit_cpu_negative, limit_enforced}
use os_final_project.Rlimit.Files.{open_within_limit}

-- A running process with two open files and a limit of 5 ticks, of which it has used 3.
abbrev process : Proc
process = record {
  state = running;
  chan = 0;
  killed = 0;
  xstate = 0;
  pid = 7;
  nofile_cur = 16;
  nofile_max = 16;
  parent = none;
  kstack = 0x3fff_0000;
  sz = 4096;
  pagetable = 0x8003_0000;
  trapframe = 0x8004_0000;
  context_ra = 0;
  context_sp = 0;
  ofile = some 0 ∷ some 1 ∷ replicate 14 none;
  cwd = none;
  name = [];
  cpu_ticks = 3;
  cpu_ticks_max = 5;
  start_time = 0;
  sleep_ticks = 0;
  wait_ticks = 0;
  wait_start = 0;
  sleep_start = 0;
  context_switches = 0;
}

setrlimit_cpu_negative_example :
    (setrlimit rlimit_cpu 0xffff_ffff process
      ≡ (0, record process { cpu_ticks_max = sext 0xffff_ffff }))
    × (max_cpu_ticks < sext 0xffff_ffff)
setrlimit_cpu_negative_example =
    setrlimit_cpu_negative 0xffff_ffff process (omega arith) (omega arith) (omega arith)

-- The fourth tick is counted in the kernel, so only the fifth kills.
limit_enforced_example : (run_ticks (kernel ∷ user ∷ []) process).killed ≡ 1
limit_enforced_example =
    limit_enforced (kernel ∷ []) process refl (omega arith) (omega arith) (omega arith)

abbrev opened : Proc
opened = record process { ofile = some 0 ∷ some 1 ∷ some 9 ∷ replicate 13 none }

fdalloc-process : fdalloc 9 process ≡ some (2, opened)
unfolding fdalloc fd_from
fdalloc-process = refl

open_within_limit_example : get_proc_open_files opened ≤ 16
unfolding open_allowed get_proc_open_files count_open
open_within_limit_example =
    open_within_limit 9 process (omega arith) (omega arith) (omega arith) refl fdalloc-process
