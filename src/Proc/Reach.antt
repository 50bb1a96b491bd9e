-- ===== src/Proc/Reach.antt =====
-- kernel/proc.c, kernel/trap.c: any interleaving of the operations on the process table, with what
-- holds of every process at every time.
use os_final_project.Prelude.{
  ℕ, ◌+◌, ◌-◌, ◌^◌, ◌≤◌, ◌<◌, ◌≡◌, ◌≢◌, subst, sym, Option, some, List, [], ◌∷◌, arith, ◌==◌, All,
  All-get_elem?, get_elem?, add32,
}
use os_final_project.Proc.{Proc, Table, Services, unused}
use os_final_project.Proc.Alloc.{is_unused, kfork, userinit}
use os_final_project.Proc.Wake.{sleep, wakeup, yield, schedule, kkill, setkilled}
use os_final_project.Proc.Exit.{kexit, kwait_round}
use os_final_project.Proc.Account.{IsAccounted}
use os_final_project.Proc.Fresh.{IsZeroFree}
use os_final_project.Proc.Keep.{
  Kept, sleep-All, yield-All, wakeup-All, kkill-All, setkilled-All, schedule-All,
}
use os_final_project.Proc.Frame.{kfork-Frame, userinit-Frame, kexit-Frame, kwait_round-Frame}
use os_final_project.Proc.Keep.Fork.{kfork-All, userinit-All}
use os_final_project.Proc.Keep.Leave.{Runs, kexit-All, kwait_round-All}
use os_final_project.Proc.Preserved.{Accounted-Kept, ZeroFree-Kept}

-- One operation on the table `t`, which leaves `u`. An operation of a process is made by one that
-- runs; the other parts of the kernel are in any state `w`.
pub data Step {W : Type 0} (sv : Services W) (addr : ℕ → ℕ) (forkret : ℕ) (t u : Table)
    : Type 0 where
  boot : (w w' : W) → userinit sv forkret t w ≡ some (u, w') → Step sv addr forkret t u
  fork : (me : ℕ) (w : W) → Runs me t → u ≡ (kfork sv forkret me t w).1 → Step sv addr forkret t u
  exit :
      (me status : ℕ) (w w' : W)
      → Runs me t
      → kexit sv addr status me t w ≡ some (u, w')
      → Step sv addr forkret t u
  wait :
      (me uaddr : ℕ) (p : Proc) (w : W)
      → Runs me t
      → u ≡ (kwait_round sv addr me uaddr p t w).1
      → Step sv addr forkret t u
  block : (me chan : ℕ) → Runs me t → u ≡ sleep me chan t → Step sv addr forkret t u
  give_up : (me : ℕ) → Runs me t → u ≡ yield me t → Step sv addr forkret t u
  choose : (i : ℕ) → u ≡ (schedule i t).1 → Step sv addr forkret t u
  signal : (chan : ℕ) (me : Option ℕ) → u ≡ wakeup chan me t → Step sv addr forkret t u
  send : (pid : ℕ) → u ≡ (kkill pid t).1 → Step sv addr forkret t u
  mark : (i : ℕ) → u ≡ setkilled i t → Step sv addr forkret t u
  clock : u ≡ record t { ticks = add32 t.ticks 1 } → Step sv addr forkret t u

-- Reachable while neither `ticks` nor `nextpid` has wrapped.
pub data Reach {W : Type 0} (sv : Services W) (addr : ℕ → ℕ) (forkret : ℕ) (s : Table)
    : Table → Type 0 where
  start : Reach sv addr forkret s s
  later :
      {t u : Table}
      → Reach sv addr forkret s t
      → t.ticks + 1 < 2 ^ 32
      → t.nextpid + 1 < 2 ^ 32
      → Step sv addr forkret t u
      → Reach sv addr forkret s u

-- What holds in every reachable table.
record Holds (t : Table) : Type 0 where
  accounted : All (IsAccounted t.ticks) t.procs
  zero_free : All IsZeroFree t.procs
  next : 0 < t.nextpid

mono-one : (now then' : ℕ) (p : Proc) → now ≤ then' → IsAccounted now p → IsAccounted then' p
mono-one now then' p h a = ground arith

mono :
    (now then' : ℕ) (ps : List Proc)
    → now ≤ then'
    → All (IsAccounted now) ps
    → All (IsAccounted then') ps
mono now then' [] h a = a
mono now then' (p ∷ ps) h a = (mono-one now then' p h a.0, mono now then' ps h a.1)

module _ {W : Type 0} {sv : Services W} {addr : ℕ → ℕ} {forkret : ℕ} where
  -- A property that the assignments keep is kept by every operation.
  Step-All :
      (P : Proc → Type 0) {t u : Table}
      → Kept t.ticks P
      → All P t.procs
      → 0 < t.nextpid
      → Step sv addr forkret t u
      → All P u.procs
  Step-All P {t} {u} k all pos (boot w w' e) = userinit-All sv P forkret t w k all pos u w' e
  Step-All P {t} k all pos (fork me w r e) =
      subst (λ (v : Table). All P v.procs) (sym e) (kfork-All sv P forkret t w k all pos me)
  Step-All P {t} {u} k all pos (exit me status w w' r e) =
      kexit-All P me sv addr status t u w w' k all r e
  Step-All P {t} k all pos (wait me uaddr p w r e) =
      subst (λ (v : Table). All P v.procs) (sym e)
        (kwait_round-All P me sv addr uaddr p t w k all r)
  Step-All P {t} k all pos (block me chan r e) =
      subst (λ (v : Table). All P v.procs) (sym e) (sleep-All P t k all me r.0 r.1 r.2 chan)
  Step-All P {t} k all pos (give_up me r e) =
      subst (λ (v : Table). All P v.procs) (sym e) (yield-All P t k all me r.0 r.1 r.2)
  Step-All P {t} k all pos (choose i e) =
      subst (λ (v : Table). All P v.procs) (sym e) (schedule-All P t k all i)
  Step-All P {t} k all pos (signal chan me e) =
      subst (λ (v : Table). All P v.procs) (sym e) (wakeup-All P t k all chan me)
  Step-All P {t} k all pos (send pid e) =
      subst (λ (v : Table). All P v.procs) (sym e) (kkill-All P t k all pid)
  Step-All P {t} k all pos (mark i e) =
      subst (λ (v : Table). All P v.procs) (sym e) (setkilled-All P t k all i)
  Step-All P {t} k all pos (clock e) = subst (λ (v : Table). All P v.procs) (sym e) all

  Step-clock :
      {t u : Table}
      → t.ticks + 1 < 2 ^ 32
      → t.nextpid + 1 < 2 ^ 32
      → Step sv addr forkret t u
      → (t.ticks ≤ u.ticks) × (t.nextpid ≤ u.nextpid)
  unfolding sleep yield schedule wakeup kkill setkilled
  Step-clock {t} {u} h k (boot w w' e) = ground (arith, userinit-Frame sv forkret t u w w' k e)
  Step-clock {t} h k (fork me w r e) = ground (arith, kfork-Frame sv forkret me t w k)
  Step-clock {t} {u} h k (exit me status w w' r e) =
      ground (arith, kexit-Frame sv addr status me t u w w' e)
  Step-clock {t} h k (wait me uaddr p w r e) =
      ground (arith, kwait_round-Frame sv addr me uaddr p t w)
  Step-clock h k (block me chan r e) = ground arith
  Step-clock h k (give_up me r e) = ground arith
  Step-clock h k (choose i e) = ground arith
  Step-clock h k (signal chan me e) = ground arith
  Step-clock h k (send pid e) = ground arith
  Step-clock h k (mark i e) = ground arith
  Step-clock h k (clock e) = ground arith

  Step-Holds :
      {t u : Table}
      → t.ticks + 1 < 2 ^ 32
      → t.nextpid + 1 < 2 ^ 32
      → Step sv addr forkret t u
      → Holds t
      → Holds u
  Step-Holds {t} {u} h k s i =
      let (le, more) = Step-clock h k s in
      record {
        accounted = mono t.ticks u.ticks u.procs le (
            Step-All (IsAccounted t.ticks) (Accounted-Kept t.ticks (omega arith)) i.accounted i.next
              s);
        zero_free = Step-All IsZeroFree (ZeroFree-Kept t.ticks) i.zero_free i.next s;
        next = omega (arith, i.next);
      }

  Reach-Holds : {s t : Table} → Holds s → Reach sv addr forkret s t → Holds t
  Reach-Holds i start = i
  Reach-Holds i (later r h k st) = Step-Holds h k st (Reach-Holds i r)

-- The table of `procinit`: every entry is free, with the pid 0.
abbrev pub IsBlank : Proc → Type 0
IsBlank p = (p.state ≡ unused) × (p.pid ≡ 0)

blank-IsAccounted : (now : ℕ) (ps : List Proc) → All IsBlank ps → All (IsAccounted now) ps
blank-IsAccounted now [] b = b
blank-IsAccounted now (p ∷ ps) b = (ground arith, blank-IsAccounted now ps b.1)

blank-IsZeroFree : (ps : List Proc) → All IsBlank ps → All IsZeroFree ps
unfolding is_unused
blank-IsZeroFree [] b = b
blank-IsZeroFree (p ∷ ps) b = (ground arith, blank-IsZeroFree ps b.1)

Blank-Holds : (t : Table) → All IsBlank t.procs → 0 < t.nextpid → Holds t
Blank-Holds t blank pos = record {
  accounted = blank-IsAccounted t.ticks t.procs blank;
  zero_free = blank-IsZeroFree t.procs blank;
  next = pos;
}

-- From a blank table, in any interleaving and until the clock or `nextpid` wraps: the ticks that a
-- live process has slept and waited never exceed the time since its start.
pub times_bounded :
    {W : Type 0} {sv : Services W} {addr : ℕ → ℕ} {forkret : ℕ} {s t : Table}
    → All IsBlank s.procs
    → 0 < s.nextpid
    → Reach sv addr forkret s t
    → (i : ℕ) {p : Proc} → get_elem? t.procs i ≡ some p
    → p.state ≢ unused
    → (p.start_time ≤ t.ticks) × (p.wait_ticks + p.sleep_ticks ≤ t.ticks - p.start_time)
times_bounded {s} {t} blank pos r i {p} e live = bounded (
    All-get_elem? (IsAccounted t.ticks) t.procs i
      (Reach-Holds (Blank-Holds s blank pos) r).accounted e)
  where
    bounded :
        IsAccounted t.ticks p
        → (p.start_time ≤ t.ticks) × (p.wait_ticks + p.sleep_ticks ≤ t.ticks - p.start_time)
    bounded a = ground arith

-- From a blank table, in any interleaving and until the clock or `nextpid` wraps: exactly the free
-- entries of the table have the pid 0.
pub pid_zero_free :
    {W : Type 0} {sv : Services W} {addr : ℕ → ℕ} {forkret : ℕ} {s t : Table}
    → All IsBlank s.procs
    → 0 < s.nextpid
    → Reach sv addr forkret s t
    → (i : ℕ) {p : Proc} → get_elem? t.procs i ≡ some p
    → (p.pid == 0) ≡ is_unused p.state
pid_zero_free {s} {t} blank pos r i e =
    All-get_elem? IsZeroFree t.procs i (Reach-Holds (Blank-Holds s blank pos) r).zero_free e
