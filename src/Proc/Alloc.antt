-- ===== src/Proc/Alloc.antt =====
-- kernel/proc.c: `allocpid`, `allocproc`, `freeproc`, `userinit` and `kfork`.
use os_final_project.Prelude.{
  ℕ, ◌+◌, Bool, true, false, Option, none, some, List, [], ◌∷◌, ◌==◌, if◌then◌else◌, add32, modify,
  get_elem?, minus_one32, take,
}
use os_final_project.Proc.{Procstate, unused, used, runnable, Proc, Table, Services, nofile, pgsize}

unfoldable pub allocpid : Table → ℕ × Table
allocpid t = (t.nextpid, record t { nextpid = add32 t.nextpid 1 })

unfoldable pub is_unused : Procstate → Bool
is_unused unused = true
is_unused _ = false

-- The index of the first UNUSED entry, counted from `i`.
unfoldable pub find_unused : ℕ → List Proc → Option ℕ
find_unused i [] = none
find_unused i (p ∷ ps) = if is_unused p.state then some i else find_unused (i + 1) ps

-- The fields that `allocproc` writes before it allocates memory.
unfoldable pub init_proc : ℕ → ℕ → Proc → Proc
init_proc pid ticks p = record p {
  pid = pid;
  state = used;
  cpu_ticks = 0;
  cpu_ticks_max = 100;
  nofile_cur = nofile;
  nofile_max = nofile;
  start_time = ticks;
  sleep_ticks = 0;
  wait_ticks = 0;
  context_switches = 0;
  wait_start = ticks;
  sleep_start = 0;
}

-- The fields that `freeproc` writes, once the pages are freed.
unfoldable pub clear_proc : Proc → Proc
clear_proc p = record p {
  trapframe = 0;
  pagetable = 0;
  sz = 0;
  pid = 0;
  parent = none;
  name = [];
  chan = 0;
  killed = 0;
  xstate = 0;
  state = unused;
}

-- The file descriptors that `kfork` copies: a free slot of the parent leaves the child's as it is.
unfoldable pub copy_ofile : List (Option ℕ) → List (Option ℕ) → List (Option ℕ)
copy_ofile [] child = child
copy_ofile (f ∷ fs) [] = []
copy_ofile (none ∷ fs) (g ∷ gs) = g ∷ copy_ofile fs gs
copy_ofile (some f ∷ fs) (g ∷ gs) = some f ∷ copy_ofile fs gs

-- What the child takes from its parent before it can run.
unfoldable pub inherit : Proc → Proc → Proc
inherit p np = record np {
  sz = p.sz;
  nofile_max = p.nofile_max;
  cpu_ticks_max = p.cpu_ticks_max;
  cpu_ticks = 0;
  ofile = copy_ofile p.ofile np.ofile;
  cwd = p.cwd;
  name = take 15 p.name;
}

-- The last two critical sections of `kfork`.
unfoldable pub start_child : ℕ → ℕ → Proc → Proc
start_child me ticks np = record np { parent = some me; state = runnable; wait_start = ticks }

-- What `userinit` writes into the first process.
unfoldable pub start_first : Option ℕ → ℕ → Proc → Proc
start_first root ticks p = record p { cwd = root; state = runnable; wait_start = ticks }

module _ {W : Type 0} (sv : Services W) where
  unfoldable pub free_pages : Proc → W → W
  free_pages p w =
      let w₁ = if p.trapframe == 0 then w else sv.kfree p.trapframe w in
      if p.pagetable == 0 then w₁ else sv.proc_freepagetable p.pagetable p.sz w₁

  unfoldable pub freeproc : ℕ → Table → W → Table × W
  unfolding free_pages
  freeproc i t w = elim (get_elem? t.procs i) [
    | none ↦ (t, w)
    | some p ↦ (record t { procs = modify t.procs i clear_proc }, free_pages p w)
  ]

  -- The last part of `allocproc`: the address of `forkret` and the top of the kernel stack.
  unfoldable pub set_context : ℕ → Proc → Proc
  set_context forkret p = record p { context_ra = forkret; context_sp = p.kstack + pgsize }

  -- The part of `allocproc` behind `found`, at the entry `i`.
  unfoldable pub alloc_at : ℕ → ℕ → Table → W → Option ℕ × Table × W
  unfolding freeproc set_context
  alloc_at forkret i t w =
      let (pid, t₁) = allocpid t in
      let t₂ : Table = record t₁ { procs = modify t₁.procs i (init_proc pid t.ticks) } in
      let (tf, w₁) = sv.kalloc w in
      let t₃ : Table = record t₂ { procs = modify t₂.procs i (λ p. record p { trapframe = tf }) } in
      let (pt, w₂) = sv.proc_pagetable tf w₁ in
      let t₄ : Table = record t₃ { procs = modify t₃.procs i (λ p. record p { pagetable = pt }) } in
      let (t₅, w₅) = freeproc i t₃ w₁ in
      let (t₆, w₆) = freeproc i t₄ w₂ in
      if tf == 0
      then (none, t₅, w₅)
      else if pt == 0
      then (none, t₆, w₆)
      else (some i, record t₄ { procs = modify t₄.procs i (set_context forkret) }, w₂)

  unfoldable pub allocproc : ℕ → Table → W → Option ℕ × Table × W
  unfolding alloc_at
  allocproc forkret t w = elim (find_unused 0 t.procs) [
    | none ↦ (none, t, w)
    | some i ↦ alloc_at forkret i t w
  ]

  -- `none` where `allocproc` fails and `userinit` writes through a null pointer.
  unfoldable pub userinit : ℕ → Table → W → Option (Table × W)
  userinit forkret t w =
      let (found, t₁, w₁) = allocproc forkret t w in
      let (root, w₂) = sv.namei_root w₁ in
      elim found [
        | none ↦ none
        | some i ↦ some (
          record t₁ { procs = modify t₁.procs i (start_first root t.ticks); initproc = some i },
          w₂,
        )
      ]

  unfoldable pub dup_files : List (Option ℕ) → W → W
  dup_files [] w = w
  dup_files (none ∷ fs) w = dup_files fs w
  dup_files (some f ∷ fs) w = dup_files fs (sv.filedup f w)

  unfoldable pub dup_cwd : Option ℕ → W → W
  dup_cwd none w = w
  dup_cwd (some c) w = sv.idup c w

  -- The part of `kfork` behind a successful `allocproc`, at the parent `p` and the child `np`.
  unfoldable pub fork_into : ℕ → ℕ → Proc → Proc → Table → W → ℕ × Table × W
  unfolding freeproc dup_files dup_cwd
  fork_into me j p np t w =
      let (copied, w₁) = sv.uvmcopy p.pagetable np.pagetable p.sz w in
      let (t₁, w₂) = freeproc j t w₁ in
      let w₃ = dup_cwd p.cwd (dup_files p.ofile (sv.copy_trapframe p.trapframe np.trapframe w₁)) in
      if copied
      then (
        np.pid,
        record t { procs = modify t.procs j (λ q. start_child me t.ticks (inherit p q)) },
        w₃,
      )
      else (minus_one32, t₁, w₂)

  -- `kfork`, called by the process `me`.
  unfoldable pub kfork : ℕ → ℕ → Table → W → ℕ × Table × W
  kfork forkret me t w =
      let (found, t₁, w₁) = allocproc forkret t w in
      elim found [
        | none ↦ (minus_one32, t₁, w₁)
        | some j ↦ elim (get_elem? t₁.procs me) [
          | none ↦ (minus_one32, t₁, w₁)
          | some p ↦ elim (get_elem? t₁.procs j) [
            | none ↦ (minus_one32, t₁, w₁)
            | some np ↦ fork_into me j p np t₁ w₁
          ]
        ]
      ]
