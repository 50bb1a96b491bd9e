-- ===== src/Proc/Kill.antt =====
-- kernel/proc.c: which processes `wakeup` and `kkill` change, and how.
use os_final_project.Prelude.{
  ℕ, zero, suc, ◌+◌, ◌-◌, ◌^◌, ◌≤◌, ◌<◌, ◌≡◌, refl, ap, subst, ◌&&◌, ◌∙◌, inl, inr, Option-cases,
  not, Option, some, none, List, [], ◌∷◌, arith, ◌==◌, if◌then◌else◌, minus_one32, modify,
  get_elem?,
}
use os_final_project.Proc.{Proc, Table, runnable}
use os_final_project.Proc.Wake.{
  is_sleeping, wake, wake_on, is_me, wakeup_from, wakeup, kill, kill_first, kkill,
}

-- The index of the first entry with the given pid, counted from `i`.
unfoldable pub find_pid : ℕ → ℕ → List Proc → Option ℕ
find_pid i pid [] = none
find_pid i pid (p ∷ ps) = if p.pid == pid then some i else find_pid (i + 1) pid ps

pub wakeup_from-get :
    (i chan : ℕ) (me : Option ℕ) (ticks : ℕ) (ps : List Proc) (j : ℕ) {p : Proc}
    → get_elem? ps j ≡ some p
    → get_elem? (wakeup_from i chan me ticks ps) j
      ≡ some (if is_me me (i + j) then p else wake_on chan ticks p)
unfolding wakeup_from
wakeup_from-get i chan me ticks [] j e = cc
wakeup_from-get i chan me ticks (p ∷ ps) zero e = let z : i + 0 ≡ i = omega arith in rw z (cc)
wakeup_from-get i chan me ticks (p ∷ ps) (suc j) e =
    let z : i + suc j ≡ i + 1 + j = omega arith in
    rw z (wakeup_from-get (i + 1) chan me ticks ps j e)

wake_lem :
    (ticks : ℕ) (p : Proc)
    → p.sleep_ticks + ticks < 2 ^ 64
    → p.sleep_start ≤ ticks
    → wake ticks p ≡ record p {
      state = runnable;
      sleep_ticks = p.sleep_ticks + (ticks - p.sleep_start);
      wait_start = ticks;
    }
unfolding wake
wake_lem ticks p fits le =
    ap (λ n. record p { state = runnable; sleep_ticks = n; wait_start = ticks }) (omega arith)

wake_on_lem :
    (chan : ℕ) (me : Option ℕ) (ticks j : ℕ) (p : Proc)
    → p.sleep_ticks + ticks < 2 ^ 64
    → p.sleep_start ≤ ticks
    → ◌≡◌ {A = Option Proc} (some (if is_me me j then p else wake_on chan ticks p)) (
        some (
          if not (is_me me j) && (is_sleeping p.state && (p.chan == chan))
          then record p {
            state = runnable;
            sleep_ticks = p.sleep_ticks + (ticks - p.sleep_start);
            wait_start = ticks;
          }
          else p))
unfolding wake_on
wake_on_lem chan me ticks j p fits le = ground (arith, wake_lem ticks p fits le)

-- For entries that fell asleep in the past and whose count of ticks has room: `wakeup` makes
-- runnable exactly the processes, other than the caller, that sleep on the channel, adds to each
-- the time that it slept, and changes no other process.
pub wakeup_lem :
    (chan : ℕ) (me : Option ℕ) (t : Table) (j : ℕ) {p : Proc}
    → get_elem? t.procs j ≡ some p
    → p.sleep_ticks + t.ticks < 2 ^ 64
    → p.sleep_start ≤ t.ticks
    → get_elem? (wakeup chan me t).procs j
      ≡ some (
          if not (is_me me j) && (is_sleeping p.state && (p.chan == chan))
          then record p {
            state = runnable;
            sleep_ticks = p.sleep_ticks + (t.ticks - p.sleep_start);
            wait_start = t.ticks;
          }
          else p)
unfolding wakeup
wakeup_lem chan me t j {p} e fits le =
    let z : 0 + j ≡ j = omega arith in
    subst
      (λ i.
        get_elem? (wakeup_from 0 chan me t.ticks t.procs) j
        ≡ some (if is_me me i then p else wake_on chan t.ticks p))
      z (wakeup_from-get 0 chan me t.ticks t.procs j e)
    ∙ wake_on_lem chan me t.ticks j p fits le

-- The result of `kkill` for what `find_pid` finds.
abbrev found : ℕ → ℕ → List Proc → Option ℕ → ℕ × List Proc
found i ticks ps none = (minus_one32, ps)
found i ticks ps (some k) = (0, modify ps (k - i) (kill ticks))

find_pid-le : (i pid : ℕ) (ps : List Proc) (k : ℕ) → find_pid i pid ps ≡ some k → i ≤ k
unfolding find_pid
find_pid-le i pid [] k e = cc
find_pid-le i pid (p ∷ ps) k e = ground (arith, find_pid-le (i + 1) pid ps k)

modify-later :
    (p : Proc) (ps : List Proc) (f : Proc → Proc) (i k : ℕ)
    → i + 1 ≤ k
    → modify (p ∷ ps) (k - i) f ≡ p ∷ modify ps (k - (i + 1)) f
modify-later p ps f i k h = let e : k - i ≡ suc (k - (i + 1)) = omega arith in rw e

modify-now :
    (p : Proc) (ps : List Proc) (f : Proc → Proc) (i : ℕ) → modify (p ∷ ps) (i - i) f ≡ f p ∷ ps
modify-now p ps f i = let e : i - i ≡ 0 = omega arith in rw e

kill_first_lem :
    (i pid ticks : ℕ) (ps : List Proc)
    → kill_first pid ticks ps ≡ found i ticks ps (find_pid i pid ps)
unfolding kill_first find_pid
kill_first_lem i pid ticks [] = refl
kill_first_lem i pid ticks (p ∷ ps) = elim (Option-cases (find_pid (i + 1) pid ps)) [
  | inl e ↦ ground (arith, kill_first_lem (i + 1) pid ticks ps, modify-now p ps (kill ticks) i)
  | inr (k, e) ↦ ground (
    arith,
    kill_first_lem (i + 1) pid ticks ps,
    modify-now p ps (kill ticks) i,
    find_pid-le (i + 1) pid ps k e,
    modify-later p ps (kill ticks) i k,
  )
]

modify_at : (ps : List Proc) (k : ℕ) (f : Proc → Proc) → modify ps (k - 0) f ≡ modify ps k f
modify_at ps k f = let e : k - 0 ≡ k = omega arith in rw e

-- `kkill` finds the first process with the pid, sets `killed`, and makes it runnable if it sleeps;
-- every other process stays as it is. Without such a process it returns -1 and changes nothing.
pub kkill_lem :
    (pid : ℕ) (t : Table)
    → kkill pid t ≡ elim (find_pid 0 pid t.procs) [
      | none ↦ (minus_one32, t)
      | some k ↦ (0, record t { procs = modify t.procs k (kill t.ticks) })
    ]
unfolding kkill
kkill_lem pid t = elim (Option-cases (find_pid 0 pid t.procs)) [
  | inl e ↦ ground (arith, kill_first_lem 0 pid t.ticks t.procs)
  | inr (k, e) ↦
      ground (arith, kill_first_lem 0 pid t.ticks t.procs, modify_at t.procs k (kill t.ticks))
]

pub kkill_found :
    (pid : ℕ) (t : Table) (k : ℕ)
    → find_pid 0 pid t.procs ≡ some k
    → kkill pid t ≡ (0, record t { procs = modify t.procs k (kill t.ticks) })
kkill_found pid t k e = ground (arith, kkill_lem pid t)
