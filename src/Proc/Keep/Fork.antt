-- ===== src/Proc/Keep/Fork.antt =====
-- kernel/proc.c: `allocproc` and `kfork` keep a property of single processes.
use os_final_project.Prelude.{
  ℕ, ◌+◌, ◌<◌, ◌≡◌, refl, ap, subst, sym, ◌∙◌, Bool, true, false, inl, inr, Option, Option-cases,
  some, none, List, arith, ◌==◌, Bool-cases, All, All-modify, modify, get_elem?,
  get_elem?-modify_inv,
}
use os_final_project.Proc.{Proc, Table, Services, used}
use os_final_project.Proc.Alloc.{
  allocpid, find_unused, init_proc, set_context, inherit, start_child, freeproc, alloc_at,
  allocproc, fork_into, kfork, start_first, userinit,
}
use os_final_project.Proc.Keep.{Kept, freeproc-All}

module _ {W : Type 0} (sv : Services W) (P : Proc → Type 0) (forkret : ℕ) (t : Table) (w : W) where
  -- The entry at the points of `alloc_at`.
  abbrev at_init : ℕ → List Proc
  at_init i = modify t.procs i (init_proc t.nextpid t.ticks)

  abbrev at_frame : ℕ → List Proc
  at_frame i = modify (at_init i) i (λ p. record p { trapframe = (sv.kalloc w).0 })

  abbrev table_pages : ℕ
  table_pages = (sv.proc_pagetable (sv.kalloc w).0 (sv.kalloc w).1).0

  abbrev at_pages : ℕ → List Proc
  at_pages i = modify (at_frame i) i (λ p. record p { pagetable = table_pages })

  module _ (k : Kept t.ticks P) (all : All P t.procs) (pos : 0 < t.nextpid) where
    at_init-All : (i : ℕ) → All P (at_init i)
    at_init-All i =
        All-modify P t.procs i (init_proc t.nextpid t.ticks) all (λ q e h. k.init t.nextpid q pos)

    at_frame-All : (i : ℕ) → All P (at_frame i)
    at_frame-All i =
        All-modify P (at_init i) i (λ p. record p { trapframe = (sv.kalloc w).0 }) (at_init-All i)
          (λ q e h. k.trapframe q (sv.kalloc w).0 h)

    at_pages-All : (i : ℕ) → All P (at_pages i)
    at_pages-All i =
        All-modify P (at_frame i) i (λ p. record p { pagetable = table_pages }) (at_frame-All i)
          (λ q e h. k.pagetable q table_pages h)

    alloc_at-All : (i : ℕ) → All P (alloc_at sv forkret i t w).1.procs
    unfolding alloc_at allocpid set_context
    alloc_at-All i = elim (Bool-cases ((sv.kalloc w).0 == 0)) [
      | inl e ↦ rw e (freeproc-All sv P _ k (at_frame-All i) i (sv.kalloc w).1)
      | inr e ↦ elim (Bool-cases (table_pages == 0)) [
        | inl f ↦
            rw (e, f)
              (freeproc-All sv P _ k (at_pages-All i) i
                (sv.proc_pagetable (sv.kalloc w).0 (sv.kalloc w).1).1)
        | inr f ↦
            rw (e, f)
              (All-modify P (at_pages i) i (set_context sv forkret) (at_pages-All i)
                (λ q e h. k.context q forkret (q.kstack + 4096) h))
      ]
    ]

    pub allocproc-All : All P (allocproc sv forkret t w).1.procs
    unfolding allocproc
    allocproc-All = elim (Option-cases (find_unused 0 t.procs)) [
      | inl e ↦ rw (e, allocproc) all
      | inr (i, e) ↦ rw (e, allocproc) (alloc_at-All i)
    ]

  alloc_at-no_frame : (i : ℕ) → ((sv.kalloc w).0 == 0) ≡ true → (alloc_at sv forkret i t w).0 ≡ none
  unfolding alloc_at
  alloc_at-no_frame i e = rw e

  alloc_at-no_pages :
      (i : ℕ)
      → ((sv.kalloc w).0 == 0) ≡ false
      → (table_pages == 0) ≡ true
      → (alloc_at sv forkret i t w).0 ≡ none
  unfolding alloc_at
  alloc_at-no_pages i e f = rw (e, f)

  alloc_at-procs :
      (i : ℕ)
      → ((sv.kalloc w).0 == 0) ≡ false
      → (table_pages == 0) ≡ false
      → ((alloc_at sv forkret i t w).0 ≡ some i)
        × ((alloc_at sv forkret i t w).1.procs ≡ modify (at_pages i) i (set_context sv forkret))
  unfolding alloc_at allocpid
  alloc_at-procs i e f = rw (e, f) (refl, refl)

  modify-used :
      (i : ℕ) {q : Proc}
      → get_elem? (modify (at_pages i) i (set_context sv forkret)) i ≡ some q
      → q.state ≡ used
  unfolding set_context init_proc
  modify-used i g =
      let (q₁, g₁, e₁) = get_elem?-modify_inv (at_pages i) i (set_context sv forkret) g in
      let (q₂, g₂, e₂) = get_elem?-modify_inv (at_frame i) i _ g₁ in
      let (q₃, g₃, e₃) = get_elem?-modify_inv (at_init i) i _ g₂ in
      let (q₄, g₄, e₄) = get_elem?-modify_inv t.procs i _ g₃ in cc

  alloc_at-used :
      (i j : ℕ) (q : Proc)
      → (alloc_at sv forkret i t w).0 ≡ some j
      → get_elem? (alloc_at sv forkret i t w).1.procs j ≡ some q
      → q.state ≡ used
  alloc_at-used i j q a g = elim (Bool-cases ((sv.kalloc w).0 == 0)) [
    | inl e ↦ cc (alloc_at-no_frame i e)
    | inr e ↦ elim (Bool-cases (table_pages == 0)) [
      | inl f ↦ cc (alloc_at-no_pages i e f)
      | inr f ↦
          let (b, c) = alloc_at-procs i e f in
          let same : i ≡ j = cc in
          modify-used i (
            subst (λ n. get_elem? (modify (at_pages i) i (set_context sv forkret)) n ≡ some q)
              (sym same) (subst (λ ps. get_elem? ps j ≡ some q) c g))
    ]
  ]

  allocproc-full : find_unused 0 t.procs ≡ none → allocproc sv forkret t w ≡ (none, t, w)
  unfolding allocproc
  allocproc-full e = rw (e, allocproc)

  allocproc-found :
      (i : ℕ)
      → find_unused 0 t.procs ≡ some i
      → allocproc sv forkret t w ≡ alloc_at sv forkret i t w
  unfolding allocproc
  allocproc-found i e = rw (e, allocproc)

  pub allocproc-used :
      (j : ℕ) (q : Proc)
      → (allocproc sv forkret t w).0 ≡ some j
      → get_elem? (allocproc sv forkret t w).1.procs j ≡ some q
      → q.state ≡ used
  allocproc-used j q a g = elim (Option-cases (find_unused 0 t.procs)) [
    | inl e ↦ cc (allocproc-full e)
    | inr (i, e) ↦
        alloc_at-used i j q (ap (λ r. r.0) (sym (allocproc-found i e)) ∙ a)
          (subst (λ r. get_elem? r.1.procs j ≡ some q) (allocproc-found i e) g)
  ]

  module _ (k : Kept t.ticks P) (all : All P t.procs) where
    fork_into-All :
        (me j : ℕ) (p np : Proc)
        → ((q : Proc) → get_elem? t.procs j ≡ some q → q.state ≡ used)
        → All P (fork_into sv me j p np t w).1.procs
    unfolding fork_into
    fork_into-All me j p np u = elim (Bool-cases copied) [
      | inl e ↦ rw e (
          All-modify P t.procs j (λ q. start_child me t.ticks (inherit p q)) all
            (λ q e h. k.child me p q (u q e) h))
      | inr e ↦ rw e (freeproc-All sv P t k all j (sv.uvmcopy p.pagetable np.pagetable p.sz w).1)
    ]
      where
        copied : Bool
        copied = (sv.uvmcopy p.pagetable np.pagetable p.sz w).0

allocproc-ticks :
    {W : Type 0} (sv : Services W) (forkret : ℕ) (t : Table) (w : W)
    → (allocproc sv forkret t w).1.ticks ≡ t.ticks
unfolding allocproc alloc_at freeproc allocpid
allocproc-ticks sv forkret t w = ground arith

module _ {W : Type 0} (sv : Services W) (P : Proc → Type 0) (forkret : ℕ) (t : Table) (w : W)
    (k : Kept t.ticks P) (all : All P t.procs) (pos : 0 < t.nextpid) where
  pub kfork-All : (me : ℕ) → All P (kfork sv forkret me t w).1.procs
  unfolding kfork
  kfork-All me = elim (Option-cases found) [
    | inl e ↦ rw (e, kfork) kept
    | inr (j, e) ↦ elim (Option-cases (get_elem? t₁.procs me)) [
      | inl f ↦ rw (e, f, kfork) kept
      | inr (p, f) ↦ elim (Option-cases (get_elem? t₁.procs j)) [
        | inl g ↦ rw (e, f, g, kfork) kept
        | inr (np, g) ↦
            rw (e, f, g, kfork)
              (fork_into-All sv P forkret t₁ w₁ k₁ kept me j p np
                (λ q h. allocproc-used sv P forkret t w j q e h))
      ]
    ]
  ]
    where
      found : Option ℕ
      found = (allocproc sv forkret t w).0

      t₁ : Table
      t₁ = (allocproc sv forkret t w).1

      w₁ : W
      w₁ = (allocproc sv forkret t w).2

      kept : All P t₁.procs
      kept = allocproc-All sv P forkret t w k all pos

      k₁ : Kept t₁.ticks P
      k₁ = subst (λ n. Kept n P) (sym (allocproc-ticks sv forkret t w)) k

  pub userinit-All : (u : Table) (w' : W) → userinit sv forkret t w ≡ some (u, w') → All P u.procs
  unfolding userinit
  userinit-All u w' e = elim (Option-cases (allocproc sv forkret t w).0) [
    | inl n ↦ absurd (ground arith)
    | inr (i, n) ↦
        subst (λ ps. All P ps) (ground arith)
          (All-modify P (allocproc sv forkret t w).1.procs i
            (start_first (sv.namei_root (allocproc sv forkret t w).2).0 t.ticks)
            (allocproc-All sv P forkret t w k all pos)
            (λ q g h. k.first _ q (allocproc-used sv P forkret t w i q n g) h))
  ]
