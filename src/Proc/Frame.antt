-- ===== src/Proc/Frame.antt =====
-- kernel/proc.c: no operation on the table touches the clock, and `nextpid` never falls.
use os_final_project.Prelude.{
  ℕ, zero, suc, ◌+◌, ◌^◌, ◌≤◌, ◌<◌, ◌≡◌, ◌∙◌, arith, Option, Option-cases, inl, inr, some, length,
  get_elem?, modify,
}
use os_final_project.Proc.{Proc, Table, Services}
use os_final_project.Proc.Alloc.{
  freeproc, allocpid, allocproc, alloc_at, fork_into, kfork, userinit,
}
use os_final_project.Proc.Wake.{sleep, wakeup}
use os_final_project.Proc.Exit.{
  reparent_at, reparent_loop, reparent, addr_of, closed, leave, kexit, reap, kwait_round,
}

pub record Frame (t u : Table) : Type 0 where
  pub clock : u.ticks ≡ t.ticks
  pub grows : t.nextpid ≤ u.nextpid

Frame-trans : {t u v : Table} → Frame t u → Frame u v → Frame t v
Frame-trans a b = record { clock = b.clock ∙ a.clock; grows = omega (arith, a.grows, b.grows) }

reparent_at-Frame : (me chan i : ℕ) (t : Table) → Frame t (reparent_at me chan i t)
unfolding reparent_at wakeup
reparent_at-Frame me chan i t = ground arith

reparent_loop-Frame : (n me chan i : ℕ) (t : Table) → Frame t (reparent_loop n me chan i t)
unfolding reparent_loop
reparent_loop-Frame zero me chan i t = ground arith
reparent_loop-Frame (suc n) me chan i t =
    Frame-trans (reparent_at-Frame me chan i t)
      (reparent_loop-Frame n me chan (i + 1) (reparent_at me chan i t))

module _ {W : Type 0} (sv : Services W) where
  freeproc-Frame : (i : ℕ) (t : Table) (w : W) → Frame t (freeproc sv i t w).0
  unfolding freeproc
  freeproc-Frame i t w = ground arith

  allocproc-Frame :
      (forkret : ℕ) (t : Table) (w : W)
      → t.nextpid + 1 < 2 ^ 32
      → Frame t (allocproc sv forkret t w).1
  unfolding allocproc alloc_at freeproc allocpid
  allocproc-Frame forkret t w h = ground arith

  fork_into-Frame :
      (me j : ℕ) (p np : Proc) (t : Table) (w : W) → Frame t (fork_into sv me j p np t w).1
  unfolding fork_into freeproc
  fork_into-Frame me j p np t w = ground arith

  pub kfork-Frame :
      (forkret me : ℕ) (t : Table) (w : W)
      → t.nextpid + 1 < 2 ^ 32
      → Frame t (kfork sv forkret me t w).1
  unfolding kfork fork_into freeproc
  kfork-Frame forkret me t w h = ground (arith, allocproc-Frame forkret t w h)

  pub userinit-Frame :
      (forkret : ℕ) (t u : Table) (w w' : W)
      → t.nextpid + 1 < 2 ^ 32
      → userinit sv forkret t w ≡ some (u, w')
      → Frame t u
  unfolding userinit
  userinit-Frame forkret t u w w' h e = ground (arith, allocproc-Frame forkret t w h)

  module _ (addr : ℕ → ℕ) where
    leave-Frame :
        (status me : ℕ) (parent : Option ℕ) (t : Table) → Frame t (leave sv addr status me parent t)
    unfolding leave reparent wakeup
    leave-Frame status me parent t =
        let a = reparent_loop-Frame (length t.procs) me (addr_of sv addr t.initproc) 0 t in
        record { clock = a.clock; grows = a.grows }

    pub kexit-Frame :
        (status me : ℕ) (t u : Table) (w w' : W)
        → kexit sv addr status me t w ≡ some (u, w')
        → Frame t u
    unfolding kexit
    kexit-Frame status me t u w w' e = elim (Option-cases (get_elem? t.procs me)) [
      | inl at ↦ absurd (ground arith)
      | inr (p, at) ↦
          ground
            (arith, leave-Frame status me p.parent (record t { procs = modify t.procs me closed }))
    ]

    pub kwait_round-Frame :
        (me uaddr : ℕ) (p : Proc) (t : Table) (w : W)
        → Frame t (kwait_round sv addr me uaddr p t w).1
    unfolding kwait_round reap freeproc sleep
    kwait_round-Frame me uaddr p t w = ground arith
