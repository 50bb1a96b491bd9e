-- ===== src/Sbrk/Tests.antt =====
-- kernel/sysproc.c: a process of two pages that gives one page back.
use os_final_project.Prelude.{◌≤◌, ◌≡◌, ◌⊎◌, true, none, [], arith, minus_one64, replicate}
use os_final_project.Proc.{Proc, running}
use os_final_project.Sbrk.{trapframe_va, sys_sbrk}
use os_final_project.Sbrk.Size.{sys_sbrk_lem}

abbrev two_pages : Proc
two_pages = record {
  state = running;
  chan = 0;
  killed = 0;
  xstate = 0;
  pid = 7;
  nofile_cur = 16;
  nofile_max = 16;
  parent = none;
  kstack = 0x3fff_0000;
  sz = 8192;
  pagetable = 0x8003_0000;
  trapframe = 0x8004_0000;
  context_ra = 0;
  context_sp = 0;
  ofile = replicate 16 none;
  cwd = none;
  name = [];
  cpu_ticks = 3;
  cpu_ticks_max = 5;
  start_time = 0;
  sleep_ticks = 0;
  wait_ticks = 0;
  wait_start = 0;
  sleep_start = 0;
  context_switches = 0;
}

-- The argument is -4096.
sys_sbrk_example :
    ((sys_sbrk true 0xffff_f000 1 two_pages).1.sz ≤ trapframe_va)
    × ((((sys_sbrk true 0xffff_f000 1 two_pages).0 ≡ minus_one64)
          × ((sys_sbrk true 0xffff_f000 1 two_pages).1.sz ≡ 8192))
        ⊎ (((sys_sbrk true 0xffff_f000 1 two_pages).0 ≡ 8192)
            × ((sys_sbrk true 0xffff_f000 1 two_pages).1.sz ≡ 4096)))
sys_sbrk_example = sys_sbrk_lem true 0xffff_f000 1 two_pages (omega arith) (omega arith)
