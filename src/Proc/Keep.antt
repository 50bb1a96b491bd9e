-- ===== src/Proc/Keep.antt =====
-- kernel/proc.c: a property of single processes that every assignment of the operations keeps is
-- kept by the operations, for all entries of the table.
pub mod Fork
pub mod Leave
use os_final_project.Prelude.{
  ℕ, zero, suc, ◌+◌, ◌<◌, ◌≡◌, ◌≢◌, refl, ap, subst, sym, ◌∙◌, Bool, true, false, ◌&&◌, not, inl,
  inr, Option, Option-cases, some, none, List, [], ◌∷◌, arith, ◌==◌, ==_iff, ==_ne, Bool-cases,
  if◌then◌else◌, All, All-modify, modify, get_elem?, get_elem?-modify_inv, length,
}
use os_final_project.Proc.{
  Proc, Procstate, Table, Services, unused, used, sleeping, runnable, running, zombie,
}
use os_final_project.Proc.Alloc.{
  allocpid, find_unused, init_proc, clear_proc, set_context, inherit, start_child, start_first,
  freeproc, alloc_at, allocproc, fork_into, kfork,
}
use os_final_project.Proc.Wake.{
  is_runnable, fall_asleep, sleep, wake_on, is_me, wakeup_from, wakeup, requeue, yield, dispatch,
  schedule, mark_killed, kill, kill_first, kkill, setkilled, tidy_up,
}
use os_final_project.Proc.Exit.{
  adopt, is_child, reparent_at, reparent_loop, reparent, become_zombie, closed, leave, kexit, reap,
  kwait_round, scan, exited, none_exited, addr_of,
}

-- `P` is kept by each assignment, at the time `now`.
pub record Kept (now : ℕ) (P : Proc → Type 0) : Type 0 where
  pub init : (pid : ℕ) (p : Proc) → 0 < pid → P (init_proc pid now p)
  pub clear : (p : Proc) → P (clear_proc p)
  pub trapframe : (p : Proc) (a : ℕ) → P p → P (record p { trapframe = a })
  pub pagetable : (p : Proc) (a : ℕ) → P p → P (record p { pagetable = a })
  pub context : (p : Proc) (a b : ℕ) → P p → P (record p { context_ra = a; context_sp = b })
  pub child :
      (me : ℕ) (parent p : Proc) → p.state ≡ used → P p → P (start_child me now (inherit parent p))
  pub first : (root : Option ℕ) (p : Proc) → p.state ≡ used → P p → P (start_first root now p)
  pub fall : (chan : ℕ) (p : Proc) → p.state ≡ running → P p → P (fall_asleep chan now p)
  pub tidy : (p : Proc) → P p → P (tidy_up p)
  pub woken : (chan : ℕ) (p : Proc) → P p → P (wake_on chan now p)
  pub queued : (p : Proc) → p.state ≡ running → P p → P (requeue now p)
  pub chosen : (p : Proc) → p.state ≡ runnable → P p → P (dispatch now p)
  pub marked : (p : Proc) → P p → P (mark_killed p)
  pub killed : (p : Proc) → P p → P (kill now p)
  pub adopted : (me : ℕ) (i : Option ℕ) (p : Proc) → P p → P (adopt me i p)
  pub files : (p : Proc) → P p → P (closed p)
  pub dead : (status : ℕ) (p : Proc) → p.state ≡ running → P p → P (become_zombie status p)

runnable_of : (p q : Proc) → p ≡ q → is_runnable p.state ≡ true → q.state ≡ runnable
unfolding is_runnable
runnable_of p q e r = ground arith

module _ (P : Proc → Type 0) (t : Table) (k : Kept t.ticks P) (all : All P t.procs) where
  wakeup_from-All :
      (i chan : ℕ) (me : Option ℕ) (ps : List Proc)
      → All P ps
      → All P (wakeup_from i chan me t.ticks ps)
  unfolding wakeup_from
  wakeup_from-All i chan me [] h = h
  wakeup_from-All i chan me (p ∷ ps) h = (
    elim (Bool-cases (is_me me i)) [ inl e ↦ rw e h.0 | inr e ↦ rw e (k.woken chan p h.0) ],
    wakeup_from-All (i + 1) chan me ps h.1,
  )

  pub wakeup-All : (chan : ℕ) (me : Option ℕ) → All P (wakeup chan me t).procs
  unfolding wakeup
  wakeup-All chan me = wakeup_from-All 0 chan me t.procs all

  kill_first-All : (pid : ℕ) (ps : List Proc) → All P ps → All P (kill_first pid t.ticks ps).1
  unfolding kill_first
  kill_first-All pid [] h = h
  kill_first-All pid (p ∷ ps) h = elim (Bool-cases (p.pid == pid)) [
    | inl e ↦ rw e (k.killed p h.0, h.1)
    | inr e ↦ rw e (h.0, kill_first-All pid ps h.1)
  ]

  pub kkill-All : (pid : ℕ) → All P (kkill pid t).1.procs
  unfolding kkill
  kkill-All pid = kill_first-All pid t.procs all

  pub setkilled-All : (i : ℕ) → All P (setkilled i t).procs
  unfolding setkilled
  setkilled-All i = All-modify P t.procs i mark_killed all (λ p e h. k.marked p h)

  pub schedule-All : (i : ℕ) → All P (schedule i t).1.procs
  unfolding schedule
  schedule-All i = elim (Option-cases (get_elem? t.procs i)) [
    | inl e ↦ rw (e, schedule) all
    | inr (p, e) ↦ elim (Bool-cases (is_runnable p.state)) [
      | inl r ↦
          rw (e, r, schedule)
            (All-modify P t.procs i (dispatch t.ticks) all
              (λ q e' h. k.chosen q (runnable_of p q (cc) r) h))
      | inr r ↦ rw (e, r, schedule) all
    ]
  ]

  module _ (me : ℕ) (p : Proc) (at : get_elem? t.procs me ≡ some p) (run : p.state ≡ running) where
    pub sleep-All : (chan : ℕ) → All P (sleep me chan t).procs
    unfolding sleep
    sleep-All chan =
        All-modify P t.procs me (fall_asleep chan t.ticks) all (λ q e h. k.fall chan q (same q e) h)
      where
        same : (q : Proc) → get_elem? t.procs me ≡ some q → q.state ≡ running
        same q e = cc

    pub yield-All : All P (yield me t).procs
    unfolding yield
    yield-All = All-modify P t.procs me (requeue t.ticks) all (λ q e h. k.queued q (cc) h)

module _ {W : Type 0} (sv : Services W) (P : Proc → Type 0) (t : Table) (k : Kept t.ticks P)
    (all : All P t.procs) where
  pub freeproc-All : (i : ℕ) (w : W) → All P (freeproc sv i t w).0.procs
  unfolding freeproc
  freeproc-All i w = elim (Option-cases (get_elem? t.procs i)) [
    | inl e ↦ rw (e, freeproc) all
    | inr (p, e) ↦ rw (e, freeproc) (All-modify P t.procs i clear_proc all (λ q e' h. k.clear q))
  ]
