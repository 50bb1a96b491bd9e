-- ===== src/Proc/Tests.antt =====
-- kernel/proc.c: runs on a table of two entries. The other parts of the kernel are a counter of the
-- pages handed out.
use os_final_project.Prelude.{
  ℕ, ◌+◌, ◌*◌, ◌-◌, ◌≤◌, ◌≡◌, refl, true, none, some, [], ◌∷◌, arith, ◌==◌, get_elem?, replicate,
}
use os_final_project.Proc.{Proc, Table, Services, unused, used, sleeping, runnable}
use os_final_project.Proc.Alloc.{
  allocpid, is_unused, find_unused, init_proc, clear_proc, freeproc, set_context, alloc_at,
  allocproc, start_first, userinit,
}
use os_final_project.Proc.Wake.{is_runnable, schedule, dispatch, fall_asleep, sleep, kkill}
use os_final_project.Proc.Fresh.{fresh, kkill_zero}
use os_final_project.Proc.Reach.{
  Step, Reach, boot, choose, block, clock, start, later, times_bounded, pid_zero_free,
}

-- The state is the number of pages handed out.
abbrev services : Services ℕ
services = record {
  kalloc = λ w. (0x8003_0000 + w * 4096, w + 1);
  kfree = λ a w. w - 1;
  proc_pagetable = λ a w. (0x8003_0000 + w * 4096, w + 1);
  proc_freepagetable = λ a sz w. w - 1;
  uvmcopy = λ old new sz w. (true, w);
  copy_trapframe = λ a b w. w;
  copyout_int = λ a b c w. (true, w);
  filedup = λ f w. w;
  fileclose = λ f w. w;
  idup = λ i w. w;
  iput_in_op = λ i w. w;
  namei_root = λ w. (some 0, w);
}

-- The same with no page left.
abbrev exhausted : Services ℕ
exhausted = record services { kalloc = λ w. (0, w) }

abbrev blank : Proc
blank = record {
  state = unused;
  chan = 0;
  killed = 0;
  xstate = 0;
  pid = 0;
  nofile_cur = 0;
  nofile_max = 0;
  parent = none;
  kstack = 0x3fff_0000;
  sz = 0;
  pagetable = 0;
  trapframe = 0;
  context_ra = 0;
  context_sp = 0;
  ofile = replicate 16 none;
  cwd = none;
  name = [];
  cpu_ticks = 0;
  cpu_ticks_max = 0;
  start_time = 0;
  sleep_ticks = 0;
  wait_ticks = 0;
  wait_start = 0;
  sleep_start = 0;
  context_switches = 0;
}

abbrev blank_table : Table
blank_table = record { procs = blank ∷ blank ∷ []; nextpid = 1; initproc = none; ticks = 5 }

abbrev addr : ℕ → ℕ
addr i = 0x8001_0000 + i * 1000

-- A process that sleeps on the channel 77 since the tick 3.
abbrev sleeper : Proc
sleeper = record blank { state = sleeping; chan = 77; pid = 4; sleep_start = 3 }

abbrev sleepers : Table
sleepers = record blank_table { procs = blank ∷ sleeper ∷ [] }

kkill_zero_example :
    ((kkill 0 blank_table).0 ≡ 0)
    × (u : Table) × (q : Proc) × (allocproc services 9 (kkill 0 blank_table).1 0 ≡ (some 0, u, 2))
    × (get_elem? u.procs 0 ≡ some q)
    × (q.state ≡ used)
    × (q.killed ≡ 1)
unfolding find_unused is_unused
kkill_zero_example =
    kkill_zero services 9 blank_table 0 0 blank (refl, (refl, tt)) refl refl (omega arith)
      (omega arith)

-- `userinit` makes the first process, the scheduler runs it, it sleeps, and a tick passes.
abbrev first_process : Proc
first_process = record (fresh 9 1 5 0x8003_0000 0x8003_1000 blank) {
  cwd = some 0;
  state = runnable;
  wait_start = 5;
}

abbrev booted : Table
booted = record { procs = first_process ∷ blank ∷ []; nextpid = 2; initproc = some 0; ticks = 5 }

abbrev run_table : Table
run_table = record booted { procs = dispatch 5 first_process ∷ blank ∷ [] }

abbrev slept : Table
slept = record booted { procs = fall_asleep 77 5 (dispatch 5 first_process) ∷ blank ∷ [] }

abbrev later_table : Table
later_table = record slept { ticks = 6 }

booted-Step : Step services addr 9 blank_table booted
unfolding userinit allocproc alloc_at find_unused is_unused allocpid init_proc freeproc clear_proc
    set_context start_first fresh
booted-Step = boot 0 2 refl

run_table-Step : Step services addr 9 booted run_table
unfolding schedule is_runnable
run_table-Step = choose 0 refl

slept-Step : Step services addr 9 run_table slept
unfolding sleep dispatch
slept-Step = block 0 77 (_, refl, refl) refl

later_table-Reach : Reach services addr 9 blank_table later_table
later_table-Reach =
    later
      (later
        (later (later start (omega arith) (omega arith) booted-Step) (omega arith) (omega arith)
          run_table-Step)
        (omega arith) (omega arith) slept-Step)
      (omega arith) (omega arith) (clock refl)

abbrev resting : Proc
resting = fall_asleep 77 5 (dispatch 5 first_process)

times_bounded_example :
    (resting.start_time ≤ 6) × (resting.wait_ticks + resting.sleep_ticks ≤ 6 - resting.start_time)
unfolding fall_asleep
times_bounded_example =
    times_bounded ((refl, refl), ((refl, refl), tt)) (omega arith) later_table-Reach 0 {p = resting}
      refl (λ e. cc e)

pid_zero_free_example : (resting.pid == 0) ≡ is_unused resting.state
pid_zero_free_example =
    pid_zero_free ((refl, refl), ((refl, refl), tt)) (omega arith) later_table-Reach 0 {p = resting}
      refl
