-- ===== src/Proc/Wake.antt =====
-- kernel/proc.c: the operations that change a process's state while it lives: `sleep`, `wakeup`,
-- `yield`, the choice of the scheduler, `kkill`, `setkilled` and `killed`.
use os_final_project.Prelude.{
  ℕ, ◌+◌, Bool, true, false, ◌&&◌, Option, none, some, List, [], ◌∷◌, ◌==◌, if◌then◌else◌, add32,
  add64, sub64, modify, get_elem?, minus_one32,
}
use os_final_project.Proc.{Procstate, sleeping, runnable, running, Proc, Table}

unfoldable pub is_sleeping : Procstate → Bool
is_sleeping sleeping = true
is_sleeping _ = false

unfoldable pub is_runnable : Procstate → Bool
is_runnable runnable = true
is_runnable _ = false

-- `sleep`, up to the switch to the scheduler, and what it does once it is switched back to.
unfoldable pub fall_asleep : ℕ → ℕ → Proc → Proc
fall_asleep chan ticks p = record p { chan = chan; state = sleeping; sleep_start = ticks }

unfoldable pub tidy_up : Proc → Proc
tidy_up p = record p { chan = 0 }

unfoldable pub sleep : ℕ → ℕ → Table → Table
sleep me chan t = record t { procs = modify t.procs me (fall_asleep chan t.ticks) }

-- The three assignments that make a sleeping process runnable. `ticks` is a `uint` and the two
-- counters are `uint64`.
unfoldable pub wake : ℕ → Proc → Proc
wake ticks p = record p {
  state = runnable;
  sleep_ticks = add64 p.sleep_ticks (sub64 ticks p.sleep_start);
  wait_start = ticks;
}

unfoldable pub wake_on : ℕ → ℕ → Proc → Proc
wake_on chan ticks p = if is_sleeping p.state && (p.chan == chan) then wake ticks p else p

-- The loop of `wakeup` from the entry `i` on; `me` is the caller, `none` in the scheduler's
-- context.
unfoldable pub is_me : Option ℕ → ℕ → Bool
is_me none i = false
is_me (some me) i = i == me

unfoldable pub wakeup_from : ℕ → ℕ → Option ℕ → ℕ → List Proc → List Proc
wakeup_from i chan me ticks [] = []
wakeup_from i chan me ticks (p ∷ ps) =
    (if is_me me i then p else wake_on chan ticks p) ∷ wakeup_from (i + 1) chan me ticks ps

unfoldable pub wakeup : ℕ → Option ℕ → Table → Table
wakeup chan me t = record t { procs = wakeup_from 0 chan me t.ticks t.procs }

unfoldable pub requeue : ℕ → Proc → Proc
requeue ticks p = record p { state = runnable; wait_start = ticks }

-- `yield`, up to the switch to the scheduler.
unfoldable pub yield : ℕ → Table → Table
yield me t = record t { procs = modify t.procs me (requeue t.ticks) }

-- What the scheduler writes into the process that it switches to.
unfoldable pub dispatch : ℕ → Proc → Proc
dispatch ticks p = record p {
  state = running;
  context_switches = add32 p.context_switches 1;
  wait_ticks = add64 p.wait_ticks (sub64 ticks p.wait_start);
}

-- One look of the scheduler's loop at the entry `i`: whether it runs it, and the table then.
unfoldable pub schedule : ℕ → Table → Bool × Table
schedule i t = elim (get_elem? t.procs i) [
  | none ↦ (false, t)
  | some p ↦
      if is_runnable p.state
      then (true, record t { procs = modify t.procs i (dispatch t.ticks) })
      else (false, t)
]

-- What `kkill` does to the process that it finds.
unfoldable pub mark_killed : Proc → Proc
mark_killed p = record p { killed = 1 }

unfoldable pub kill : ℕ → Proc → Proc
kill ticks p = if is_sleeping p.state then wake ticks (mark_killed p) else mark_killed p

unfoldable pub kill_first : ℕ → ℕ → List Proc → ℕ × List Proc
kill_first pid ticks [] = (minus_one32, [])
kill_first pid ticks (p ∷ ps) =
    let (r, ps') = kill_first pid ticks ps in
    if p.pid == pid then (0, kill ticks p ∷ ps) else (r, p ∷ ps')

unfoldable pub kkill : ℕ → Table → ℕ × Table
kkill pid t = let (r, ps) = kill_first pid t.ticks t.procs in (r, record t { procs = ps })

unfoldable pub setkilled : ℕ → Table → Table
setkilled i t = record t { procs = modify t.procs i mark_killed }

unfoldable pub killed : ℕ → Table → ℕ
killed i t = elim (get_elem? t.procs i) [ none ↦ 0 | some p ↦ p.killed ]
