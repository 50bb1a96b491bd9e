-- ===== src/Proc/Exit.antt =====
-- kernel/proc.c: `reparent`, `kexit` and `kwait`.
use os_final_project.Prelude.{
  ℕ, zero, suc, ◌+◌, Bool, true, false, ◌&&◌, ◌||◌, not, Option, none, some, List, [], ◌∷◌, ◌==◌,
  if◌then◌else◌, map, modify, get_elem?, minus_one32, length,
}
use os_final_project.Proc.{Procstate, zombie, Proc, Table, Services}
use os_final_project.Proc.Alloc.{freeproc}
use os_final_project.Proc.Wake.{is_me, wakeup, sleep}

unfoldable pub is_zombie : Procstate → Bool
is_zombie zombie = true
is_zombie _ = false

-- `pp->parent == p`, for the process `p` at the index `me`.
unfoldable pub is_child : ℕ → Proc → Bool
is_child me p = is_me p.parent me

unfoldable pub adopt : ℕ → Option ℕ → Proc → Proc
adopt me initproc p = if is_child me p then record p { parent = initproc } else p

-- The entry `i` of the table, given to init; init is woken each time.
unfoldable pub reparent_at : ℕ → ℕ → ℕ → Table → Table
reparent_at me chan i t = elim (get_elem? t.procs i) [
  | none ↦ t
  | some p ↦
      if is_child me p
      then wakeup chan (some me) (record t { procs = modify t.procs i (adopt me t.initproc) })
      else t
]

-- The entries from `i` on, `n` of them; `chan` is the address of init's entry.
unfoldable pub reparent_loop : ℕ → ℕ → ℕ → ℕ → Table → Table
reparent_loop zero me chan i t = t
reparent_loop (suc n) me chan i t = reparent_loop n me chan (i + 1) (reparent_at me chan i t)

unfoldable pub reparent : ℕ → ℕ → Table → Table
reparent me chan t = reparent_loop (length t.procs) me chan 0 t

unfoldable pub become_zombie : ℕ → Proc → Proc
become_zombie status p = record p { xstate = status; state = zombie }

-- What the loop of `kexit` over the descriptors and the two lines behind `end_op` leave.
unfoldable pub closed : Proc → Proc
closed p = record p { ofile = map (λ _. none) p.ofile; cwd = none }

-- What `kwait`'s look at the table finds first: an exited child, or none, with `havekids`.
pub data Scan : Type 0 where
  exited : ℕ → Scan
  none_exited : Bool → Scan

unfoldable pub scan : ℕ → ℕ → Bool → List Proc → Scan
scan me i havekids [] = none_exited havekids
scan me i havekids (p ∷ ps) =
    if is_child me p && is_zombie p.state
    then exited i
    else scan me (i + 1) (havekids || is_child me p) ps

-- A round of `kwait` returns, or goes to sleep and makes another round when it is woken.
pub data Round : Type 0 where
  returned : ℕ → Round
  asleep : Round

-- `addr` gives the address of each entry of the table, on which `kwait` sleeps.
module _ {W : Type 0} (sv : Services W) (addr : ℕ → ℕ) where
  unfoldable pub close_files : List (Option ℕ) → W → W
  close_files [] w = w
  close_files (none ∷ fs) w = close_files fs w
  close_files (some f ∷ fs) w = close_files fs (sv.fileclose f w)

  unfoldable pub put_cwd : Option ℕ → W → W
  put_cwd none w = w
  put_cwd (some c) w = sv.iput_in_op c w

  unfoldable pub addr_of : Option ℕ → ℕ
  addr_of none = 0
  addr_of (some i) = addr i

  -- From `acquire(&wait_lock)` on, for a process with the given parent.
  unfoldable pub leave : ℕ → ℕ → Option ℕ → Table → Table
  unfolding addr_of
  leave status me parent t =
      let t₁ = reparent me (addr_of t.initproc) t in
      let t₂ = wakeup (addr_of parent) (some me) t₁ in
      record t₂ { procs = modify t₂.procs me (become_zombie status) }

  -- `kexit`, up to the switch to the scheduler; `none` is its panic.
  unfoldable pub kexit : ℕ → ℕ → Table → W → Option (Table × W)
  kexit status me t w = if is_me t.initproc me then none else elim (get_elem? t.procs me) [
    | none ↦ none
    | some p ↦ some (
      leave status me p.parent (record t { procs = modify t.procs me closed }),
      put_cwd p.cwd (close_files p.ofile w),
    )
  ]

  -- `kwait` at the exited child `pp` with the index `j`.
  unfoldable pub reap : ℕ → ℕ → Proc → ℕ → Table → W → Round × Table × W
  reap j uaddr pp pagetable t w =
      let (copied, w₁) = sv.copyout_int pagetable uaddr pp.xstate w in
      let (t₂, w₂) = freeproc sv j t (if uaddr == 0 then w else w₁) in
      if not (uaddr == 0) && not copied
      then (returned minus_one32, t, w₁)
      else (returned pp.pid, t₂, w₂)

  -- One round of `kwait`, by the process `p` with the index `me`.
  unfoldable pub kwait_round : ℕ → ℕ → Proc → Table → W → Round × Table × W
  kwait_round me uaddr p t w = elim (scan me 0 false t.procs) [
    | exited j ↦ elim (get_elem? t.procs j) [
      | none ↦ (returned minus_one32, t, w)
      | some pp ↦ reap j uaddr pp p.pagetable t w
    ]
    | none_exited havekids ↦
        if not havekids || not (p.killed == 0)
        then (returned minus_one32, t, w)
        else (asleep, sleep me (addr me) t, w)
  ]
