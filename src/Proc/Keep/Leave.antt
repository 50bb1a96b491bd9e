-- ===== src/Proc/Keep/Leave.antt =====
-- kernel/proc.c: `kexit` and `kwait` keep a property of single processes.
use os_final_project.Prelude.{
  ℕ, zero, suc, ◌+◌, ◌≡◌, refl, subst, sym, ◌∙◌, Bool, true, false, ◌&&◌, ◌||◌, not, inl, inr,
  Option, Option-cases, some, none, arith, ◌==◌, Bool-cases, if◌then◌else◌, All, All-modify, modify,
  get_elem?, get_elem?-modify_self, get_elem?-modify_ne, length, ℕ_discrete,
}
use os_final_project.Proc.{Proc, Table, Services, running}
use os_final_project.Proc.Wake.{is_me, wakeup_from, wakeup, wake_on}
use os_final_project.Proc.Kill.{wakeup_from-get}
use os_final_project.Proc.Keep.{Kept, freeproc-All, wakeup-All, sleep-All}
use os_final_project.Proc.Exit.{
  adopt, is_child, reparent_at, reparent_loop, reparent, become_zombie, closed, leave, kexit, reap,
  kwait_round, scan, exited, none_exited, addr_of,
}

-- The process `me` is in the table and runs.
abbrev pub Runs : ℕ → Table → Type 0
Runs me t = (p : Proc) × (get_elem? t.procs me ≡ some p) × (p.state ≡ running)

wakeup-Runs : (chan me : ℕ) (t : Table) → Runs me t → Runs me (wakeup chan (some me) t)
unfolding wakeup is_me
wakeup-Runs chan me t (p, e, r) =
    let z : 0 + me ≡ me = omega arith in
    let s : (me == me) ≡ true = ground arith in
    let f =
      subst
        (λ i.
          get_elem? (wakeup_from 0 chan (some me) t.ticks t.procs) me
          ≡ some (if i == me then p else wake_on chan t.ticks p))
        z (wakeup_from-get 0 chan (some me) t.ticks t.procs me e) in
    (p, f ∙ rw s, r)

modify-Runs :
    (me i : ℕ) (f : Proc → Proc) (t : Table)
    → ((p : Proc) → (f p).state ≡ p.state)
    → Runs me t
    → Runs me (record t { procs = modify t.procs i f })
modify-Runs me i f t same (p, e, r) = elim (ℕ_discrete i me) [
  | yes h ↦ (
    f p,
    subst (λ k. get_elem? (modify t.procs k f) me ≡ some (f p)) (sym h)
        (get_elem?-modify_self t.procs me f e),
    same p ∙ r,
  )
  | no h ↦ (p, get_elem?-modify_ne t.procs i me f h ∙ e, r)
]

adopt-state : (me : ℕ) (init : Option ℕ) (p : Proc) → (adopt me init p).state ≡ p.state
unfolding adopt
adopt-state me init p = ground arith

-- What a step of `kexit` before its last leaves: the clock, the process running, and `P`.
record Leaving (P : Proc → Type 0) (me : ℕ) (t u : Table) : Type 0 where
  clock : u.ticks ≡ t.ticks
  runs : Runs me u
  kept : All P u.procs

module _ (P : Proc → Type 0) (me : ℕ) where
  wakeup-Leaving :
      (chan : ℕ) (t : Table)
      → Kept t.ticks P
      → All P t.procs
      → Runs me t
      → Leaving P me t (wakeup chan (some me) t)
  unfolding wakeup
  wakeup-Leaving chan t k all r = record {
    clock = refl;
    runs = wakeup-Runs chan me t r;
    kept = wakeup-All P t k all chan (some me);
  }

  adopted-Leaving :
      (chan i : ℕ) (t : Table)
      → Kept t.ticks P
      → All P t.procs
      → Runs me t
      → Leaving P me
          (record t { procs = modify t.procs i (adopt me t.initproc) })
          (wakeup chan (some me) (record t { procs = modify t.procs i (adopt me t.initproc) }))
  adopted-Leaving chan i t k all r =
      wakeup-Leaving chan (record t { procs = modify t.procs i (adopt me t.initproc) }) k
        (All-modify P t.procs i (adopt me t.initproc) all (λ q e h. k.adopted me t.initproc q h))
        (modify-Runs me i (adopt me t.initproc) t (adopt-state me t.initproc) r)

  reparent_at-Leaving :
      (chan i : ℕ) (t : Table)
      → Kept t.ticks P
      → All P t.procs
      → Runs me t
      → Leaving P me t (reparent_at me chan i t)
  unfolding reparent_at
  reparent_at-Leaving chan i t k all r = elim (Option-cases (get_elem? t.procs i)) [
    | inl e ↦ rw (e, reparent_at) (record { clock = refl; runs = r; kept = all })
    | inr (p, e) ↦ elim (Bool-cases (is_child me p)) [
      | inl c ↦
          let b = adopted-Leaving chan i t k all r in
          rw (e, c, reparent_at) (record { clock = b.clock; runs = b.runs; kept = b.kept })
      | inr c ↦ rw (e, c, reparent_at) (record { clock = refl; runs = r; kept = all })
    ]
  ]

  Leaving-trans : {t u v : Table} → Leaving P me t u → Leaving P me u v → Leaving P me t v
  Leaving-trans a b = record { clock = b.clock ∙ a.clock; runs = b.runs; kept = b.kept }

  reparent_loop-Leaving :
      (n chan i : ℕ) (t : Table)
      → Kept t.ticks P
      → All P t.procs
      → Runs me t
      → Leaving P me t (reparent_loop n me chan i t)
  unfolding reparent_loop
  reparent_loop-Leaving zero chan i t k all r = record { clock = refl; runs = r; kept = all }
  reparent_loop-Leaving (suc n) chan i t k all r =
      let a = reparent_at-Leaving chan i t k all r in
      Leaving-trans a (
        reparent_loop-Leaving n chan (i + 1) (reparent_at me chan i t)
          (subst (λ c. Kept c P) (sym a.clock) k) a.kept a.runs)

  module _ {W : Type 0} (sv : Services W) (addr : ℕ → ℕ) where
    leave-All :
        (status : ℕ) (parent : Option ℕ) (t : Table)
        → Kept t.ticks P
        → All P t.procs
        → Runs me t
        → All P (leave sv addr status me parent t).procs
    unfolding leave reparent
    leave-All status parent t k all r =
        let a = reparent_loop-Leaving (length t.procs) (addr_of sv addr t.initproc) 0 t k all r in
        let b =
          wakeup-Leaving (addr_of sv addr parent) _ (subst (λ c. Kept c P) (sym a.clock) k) a.kept
            a.runs in
        let (p, e, run) = b.runs in
        All-modify P _ me (become_zombie status) b.kept
          (λ q f h. (subst (λ c. Kept c P) (sym (b.clock ∙ a.clock)) k).dead status q (cc) h)

    kexit_init :
        (status : ℕ) (t : Table) (w : W)
        → is_me t.initproc me ≡ true
        → kexit sv addr status me t w ≡ none
    unfolding kexit
    kexit_init status t w e = rw e

    kexit_left :
        (status : ℕ) (t u : Table) (w w' : W) (p : Proc)
        → is_me t.initproc me ≡ false
        → get_elem? t.procs me ≡ some p
        → kexit sv addr status me t w ≡ some (u, w')
        → leave sv addr status me p.parent (record t { procs = modify t.procs me closed }) ≡ u
    unfolding kexit
    kexit_left status t u w w' p e at h = ground arith

    -- `kexit` of a running process keeps `P` for every process.
    pub kexit-All :
        (status : ℕ) (t u : Table) (w w' : W)
        → Kept t.ticks P
        → All P t.procs
        → Runs me t
        → kexit sv addr status me t w ≡ some (u, w')
        → All P u.procs
    unfolding closed
    kexit-All status t u w w' k all r e = elim (Bool-cases (is_me t.initproc me)) [
      | inl i ↦ absurd (cc (kexit_init status t w i))
      | inr i ↦
          subst (λ (v : Table). All P v.procs) (kexit_left status t u w w' r.0 i r.1 e)
            (leave-All status r.0.parent (record t { procs = modify t.procs me closed }) k
              (All-modify P t.procs me closed all (λ q f h. k.files q h))
              (modify-Runs me me closed t (λ q. refl) r))
    ]

    reap-All :
        (j uaddr pagetable : ℕ) (pp : Proc) (t : Table) (w : W)
        → Kept t.ticks P
        → All P t.procs
        → All P (reap sv addr j uaddr pp pagetable t w).1.procs
    unfolding reap
    reap-All j uaddr pagetable pp t w k all = elim (Bool-cases failed) [
      | inl e ↦ rw e all
      | inr e ↦ rw e (freeproc-All sv P t k all j _)
    ]
      where
        failed : Bool
        failed = not (uaddr == 0) && not (sv.copyout_int pagetable uaddr pp.xstate w).0

    -- A round of `kwait` of a running process keeps `P` for every process.
    pub kwait_round-All :
        (uaddr : ℕ) (p : Proc) (t : Table) (w : W)
        → Kept t.ticks P
        → All P t.procs
        → Runs me t
        → All P (kwait_round sv addr me uaddr p t w).1.procs
    unfolding kwait_round
    kwait_round-All uaddr p t w k all r =
        elim (scan me 0 false t.procs)
            as (λ s.
              scan me 0 false t.procs ≡ s → All P (kwait_round sv addr me uaddr p t w).1.procs) [
                | exited j ↦ λ e. elim (Option-cases (get_elem? t.procs j)) [
                  | inl f ↦ rw (e, f, kwait_round) all
                  | inr (pp, f) ↦ rw (e, f, kwait_round) (reap-All j uaddr p.pagetable pp t w k all)
                ]
                | none_exited b ↦ λ e. elim (Bool-cases (not b || not (p.killed == 0))) [
                  | inl f ↦ rw (e, f, kwait_round) all
                  | inr f ↦ rw (e, f, kwait_round) (sleep-All P t k all me r.0 r.1 r.2 (addr me))
                ]
              ]
          refl
