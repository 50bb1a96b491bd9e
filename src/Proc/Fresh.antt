-- ===== src/Proc/Fresh.antt =====
-- kernel/proc.c: what `allocproc` leaves when it succeeds and when it fails, and what a stray
-- `kkill(0)` does to the next process.
use os_final_project.Prelude.{
  ℕ, zero, suc, ◌+◌, ◌≡◌, ◌≢◌, ◌⊎◌, refl, ap, ap₂, subst, sym, ◌∙◌, inl, inr, some, none, List, [],
  ◌∷◌, arith, ◌==◌, ==_ne, ==_iff, if◌then◌else◌, add32, modify, get_elem?, get_elem?-modify_self,
  All, ℕ_discrete,
}
use os_final_project.Proc.{Proc, Table, Services, used, nofile, pgsize}
use os_final_project.Proc.Alloc.{
  allocpid, is_unused, find_unused, init_proc, clear_proc, free_pages, freeproc, alloc_at,
  allocproc,
}
use os_final_project.Proc.Wake.{is_sleeping, kill, mark_killed, kkill, wake}
use os_final_project.Proc.Kill.{find_pid, kkill_found}

modify-modify :
    (ps : List Proc) (i : ℕ) (f g : Proc → Proc)
    → modify (modify ps i f) i g ≡ modify ps i (λ p. g (f p))
modify-modify [] i f g = refl
modify-modify (p ∷ ps) zero f g = refl
modify-modify (p ∷ ps) (suc i) f g = ap (λ qs. p ∷ qs) (modify-modify ps i f g)

-- A process as `allocproc` hands it out: the fields that it writes, the others unchanged.
unfoldable pub fresh : ℕ → ℕ → ℕ → ℕ → ℕ → Proc → Proc
fresh forkret pid ticks trapframe pagetable p = record p {
  pid = pid;
  state = used;
  cpu_ticks = 0;
  cpu_ticks_max = 100;
  nofile_cur = nofile;
  nofile_max = nofile;
  start_time = ticks;
  sleep_ticks = 0;
  wait_ticks = 0;
  context_switches = 0;
  wait_start = ticks;
  sleep_start = 0;
  trapframe = trapframe;
  pagetable = pagetable;
  context_ra = forkret;
  context_sp = p.kstack + pgsize;
}

free_pages_none :
    {W : Type 0} (sv : Services W) (p : Proc) (w : W)
    → p.trapframe ≡ 0
    → p.pagetable ≡ 0
    → free_pages sv p w ≡ w
unfolding free_pages
free_pages_none sv p w e f = ground arith

free_pages_frame :
    {W : Type 0} (sv : Services W) (p : Proc) (w : W)
    → p.trapframe ≢ 0
    → p.pagetable ≡ 0
    → free_pages sv p w ≡ sv.kfree p.trapframe w
unfolding free_pages
free_pages_frame sv p w e f = ground arith

module _ {W : Type 0} (sv : Services W) (forkret : ℕ) (t : Table) (w : W) where
  abbrev frame : ℕ
  frame = (sv.kalloc w).0

  abbrev pages : ℕ × W
  pages = sv.proc_pagetable frame (sv.kalloc w).1

  alloc_at_lem :
      (i : ℕ)
      → frame ≢ 0
      → pages.0 ≢ 0
      → alloc_at sv forkret i t w ≡ (
        some i,
        record t {
          procs = modify t.procs i (fresh forkret t.nextpid t.ticks frame pages.0);
          nextpid = add32 t.nextpid 1;
        },
        pages.1,
      )
  unfolding alloc_at allocpid init_proc fresh
  alloc_at_lem i f g = rw (==_ne frame 0 f, ==_ne pages.0 0 g) (simp modify-modify)

  -- The entry as a failed allocation leaves it.
  abbrev undone : ℕ → Table
  undone i = record t {
    procs = modify t.procs i (λ q. clear_proc (init_proc t.nextpid t.ticks q));
    nextpid = add32 t.nextpid 1;
  }

  alloc_at-no_frame :
      (i : ℕ) (p : Proc)
      → get_elem? t.procs i ≡ some p
      → p.pagetable ≡ 0
      → frame ≡ 0
      → alloc_at sv forkret i t w ≡ (none, undone i, (sv.kalloc w).1)
  unfolding alloc_at allocpid freeproc clear_proc init_proc
  alloc_at-no_frame i p e clear f =
      rw
        (
          (==_iff frame 0).1 f,
          get_elem?-modify_self _ i (λ q. record q { trapframe = frame })
              (get_elem?-modify_self t.procs i (init_proc t.nextpid t.ticks) e),
        )
        (ap₂ (λ ps w'. (none, record t { procs = ps; nextpid = add32 t.nextpid 1 }, w'))
          (simp modify-modify)
          (free_pages_none sv (record (init_proc t.nextpid t.ticks p) { trapframe = frame }) _ f
            clear))

  alloc_at-no_pages :
      (i : ℕ) (p : Proc)
      → get_elem? t.procs i ≡ some p
      → frame ≢ 0
      → pages.0 ≡ 0
      → alloc_at sv forkret i t w ≡ (none, undone i, sv.kfree frame pages.1)
  unfolding alloc_at allocpid freeproc clear_proc init_proc
  alloc_at-no_pages i p e f g =
      rw
        (
          ==_ne frame 0 f,
          (==_iff pages.0 0).1 g,
          get_elem?-modify_self _ i (λ q. record q { pagetable = pages.0 })
              (get_elem?-modify_self _ i (λ q. record q { trapframe = frame })
                (get_elem?-modify_self t.procs i (init_proc t.nextpid t.ticks) e)),
        )
        (ap₂ (λ ps w'. (none, record t { procs = ps; nextpid = add32 t.nextpid 1 }, w'))
          (simp modify-modify)
          (free_pages_frame sv
            (record (init_proc t.nextpid t.ticks p) { trapframe = frame; pagetable = pages.0 }) _ f
            g))

  -- When a free entry with no page table is found but one of the allocations fails, `allocproc`
  -- returns null; the entry is free again, no other one has changed, and a trapframe page that was
  -- allocated is given back.
  pub allocproc_fails :
      (i : ℕ) (p : Proc)
      → find_unused 0 t.procs ≡ some i
      → get_elem? t.procs i ≡ some p
      → p.pagetable ≡ 0
      → (frame ≡ 0) ⊎ (pages.0 ≡ 0)
      → allocproc sv forkret t w ≡ (
        none,
        record t {
          procs = modify t.procs i (λ q. clear_proc (init_proc t.nextpid t.ticks q));
          nextpid = add32 t.nextpid 1;
        },
        if frame == 0 then (sv.kalloc w).1 else sv.kfree frame pages.1,
      )
  unfolding allocproc
  allocproc_fails i p u e clear h = elim (ℕ_discrete frame 0) [
    | yes f ↦
        rw (u, allocproc)
          (alloc_at-no_frame i p e clear f ∙ ap (λ w'. (none, undone i, w')) (ground arith))
    | no f ↦
        rw (u, allocproc)
          (alloc_at-no_pages i p e f (second h f) ∙ ap (λ w'. (none, undone i, w')) (ground arith))
  ]
    where
      second : (frame ≡ 0) ⊎ (pages.0 ≡ 0) → frame ≢ 0 → pages.0 ≡ 0
      second (inl f) n = absurd (n f)
      second (inr g) n = g

  -- When the table has a free entry and both allocations succeed, `allocproc` returns the first
  -- free entry, set up with the next pid, the default limits and zero counters, and changes no
  -- other one.
  pub allocproc_lem :
      (i : ℕ)
      → find_unused 0 t.procs ≡ some i
      → frame ≢ 0
      → pages.0 ≢ 0
      → allocproc sv forkret t w ≡ (
        some i,
        record t {
          procs = modify t.procs i (fresh forkret t.nextpid t.ticks frame pages.0);
          nextpid = add32 t.nextpid 1;
        },
        pages.1,
      )
  unfolding allocproc
  allocproc_lem i e f g = rw (e, allocproc) (alloc_at_lem i f g)

-- A free entry has the pid 0, and no other one has.
abbrev pub IsZeroFree : Proc → Type 0
IsZeroFree p = (p.pid == 0) ≡ is_unused p.state

find_pid-find_unused :
    (i : ℕ) (ps : List Proc) → All IsZeroFree ps → find_pid i 0 ps ≡ find_unused i ps
unfolding find_pid find_unused
find_pid-find_unused i [] h = refl
find_pid-find_unused i (p ∷ ps) h = ground (arith, h.0, find_pid-find_unused (i + 1) ps h.1)

is_unused-kill : (ticks : ℕ) (p : Proc) → is_unused (kill ticks p).state ≡ is_unused p.state
unfolding kill is_sleeping is_unused wake mark_killed
is_unused-kill ticks p = ground arith

find_unused-modify :
    (i j : ℕ) (f : Proc → Proc) (ps : List Proc)
    → ((p : Proc) → is_unused (f p).state ≡ is_unused p.state)
    → find_unused j (modify ps i f) ≡ find_unused j ps
unfolding find_unused
find_unused-modify i j f [] h = refl
find_unused-modify zero j f (p ∷ ps) h = rw (h p)
find_unused-modify (suc i) j f (p ∷ ps) h = rw (find_unused-modify i (j + 1) f ps h)

killed-kill : (ticks : ℕ) (p : Proc) → (kill ticks p).killed ≡ 1
unfolding kill is_sleeping wake mark_killed
killed-kill ticks p = ground arith

-- `kkill(0)` on a table with a free entry returns 0, as if a process had been killed, and marks the
-- entry; the process that `allocproc` next makes of it is born with `killed` set.
pub kkill_zero :
    {W : Type 0} (sv : Services W) (forkret : ℕ) (t : Table) (w : W) (i : ℕ) (p : Proc)
    → All IsZeroFree t.procs
    → find_unused 0 t.procs ≡ some i
    → get_elem? t.procs i ≡ some p
    → (sv.kalloc w).0 ≢ 0
    → (sv.proc_pagetable (sv.kalloc w).0 (sv.kalloc w).1).0 ≢ 0
    → ((kkill 0 t).0 ≡ 0)
      × (u : Table) × (q : Proc) × (allocproc sv forkret (kkill 0 t).1 w
          ≡ (some i, u, (sv.proc_pagetable (sv.kalloc w).0 (sv.kalloc w).1).1))
      × (get_elem? u.procs i ≡ some q)
      × (q.state ≡ used)
      × (q.killed ≡ 1)
unfolding fresh
kkill_zero sv forkret t w i p z e g f h =
    let t' : Table = record t { procs = modify t.procs i (kill t.ticks) } in
    let k : kkill 0 t ≡ (0, t') = kkill_found 0 t i (find_pid-find_unused 0 t.procs z ∙ e) in
    let q : Proc = kill t.ticks p in
    let make : Proc → Proc =
      fresh forkret t.nextpid t.ticks (sv.kalloc w).0
        (sv.proc_pagetable (sv.kalloc w).0 (sv.kalloc w).1).0 in
    let u : Table = record t' { procs = modify t'.procs i make; nextpid = add32 t.nextpid 1 } in
    (
      ap (λ x. x.0) k,
      u,
      make q,
      subst
          (λ (x : ℕ × Table).
            allocproc sv forkret x.1 w
            ≡ (some i, u, (sv.proc_pagetable (sv.kalloc w).0 (sv.kalloc w).1).1))
          (sym k)
          (allocproc_lem sv forkret t' w i
            (find_unused-modify i 0 (kill t.ticks) t.procs (is_unused-kill t.ticks) ∙ e) f h),
      get_elem?-modify_self t'.procs i make (get_elem?-modify_self t.procs i (kill t.ticks) g),
      refl,
      killed-kill t.ticks p,
    )
