-- ===== src/Log/Counters.antt =====
-- kernel/log.c: sums of budgets, and what one `log_write` or `end_op` does to the log's counters.
use os_final_project.Prelude.{
  ℕ, zero, suc, ◌+◌, ◌*◌, ◌≤◌, ◌<◌, ◌≡◌, refl, true, false, some, Bool, Bool-cases, inl, inr, List,
  [], ◌∷◌, ◌++◌, arith, ◌==◌, length, remove, set, get_elem?, All, sub32,
}
use os_final_project.Log.{Io, Log, maxopblocks, logblocks, log_write, end_op, commit, logged, bpin}

unfoldable pub total : List ℕ → ℕ
total [] = 0
total (x ∷ xs) = x + total xs

pub total-le : (xs : List ℕ) → All (λ x. x ≤ maxopblocks) xs → total xs ≤ length xs * maxopblocks
unfolding total
total-le [] a = omega arith
total-le (x ∷ xs) a = omega (arith, total-le xs a.1, a.0)

pub total-set :
    (xs : List ℕ) (i left : ℕ)
    → get_elem? xs i ≡ some (suc left)
    → total (set xs i left) + 1 ≡ total xs
unfolding total
total-set [] i left e = cc
total-set (x ∷ xs) zero left e = ground arith
total-set (x ∷ xs) (suc i) left e = omega (arith, total-set xs i left e)

pub total-remove : (xs : List ℕ) (i : ℕ) → total (remove xs i) ≤ total xs
unfolding total
total-remove [] i = omega arith
total-remove (x ∷ xs) zero = omega arith
total-remove (x ∷ xs) (suc i) = omega (arith, total-remove xs i)

length-snoc : (xs : List ℕ) (x : ℕ) → length (xs ++ (x ∷ [])) ≡ length xs + 1
length-snoc [] x = refl
length-snoc (y ∷ xs) x = omega (arith, length-snoc xs x)

-- `log_write` by an operation with a budget, in a log with room.
pub log_write-adds :
    {D : Type 0} (b : ℕ) (lg : Log) (io : Io D)
    → length lg.lh < logblocks
    → 0 < lg.outstanding
    → lg.outstanding ≤ 3
    → (lg' : Log) × (io' : Io D) × (log_write b lg io ≡ some (lg', io'))
      × (length lg'.lh ≤ length lg.lh + 1)
      × (lg'.outstanding ≡ lg.outstanding)
      × (lg'.committing ≡ lg.committing)
unfolding log_write
log_write-adds b lg io room some_op few = elim (Bool-cases (logged b lg.lh)) [
  | inl e ↦ (lg, io, ground arith, omega arith, refl, refl)
  | inr e ↦ (
    record lg { lh = lg.lh ++ (b ∷ []) },
    bpin b io,
    ground arith,
    omega (arith, length-snoc lg.lh b),
    refl,
    refl,
  )
]

pub commit-lh : {D : Type 0} (lg : Log) (io : Io D) → length (commit lg io).0.lh ≡ 0
unfolding commit
commit-lh lg io = elim (Bool-cases (length lg.lh == 0)) [
  | inl e ↦ rw (e, commit) (ground arith)
  | inr e ↦ rw (e, commit) refl
]

pub commit-outstanding :
    {D : Type 0} (lg : Log) (io : Io D) → (commit lg io).0.outstanding ≡ lg.outstanding
unfolding commit
commit-outstanding lg io = elim (Bool-cases (length lg.lh == 0)) [
  | inl e ↦ rw (e, commit) refl
  | inr e ↦ rw (e, commit) refl
]

pub commit-committing :
    {D : Type 0} (lg : Log) (io : Io D) → (commit lg io).0.committing ≡ lg.committing
unfolding commit
commit-committing lg io = elim (Bool-cases (length lg.lh == 0)) [
  | inl e ↦ rw (e, commit) refl
  | inr e ↦ rw (e, commit) refl
]

-- What the part of `end_op` under the lock leaves: one operation fewer, and a commit to be made if it was
-- the last.
pub end_op-ends :
    (lg : Log)
    → lg.committing ≡ false
    → 0 < lg.outstanding
    → lg.outstanding ≤ 3
    → (last : Bool) × (lg' : Log) × (end_op lg ≡ some (last, lg'))
      × (lg'.lh ≡ lg.lh)
      × (lg'.outstanding + 1 ≡ lg.outstanding)
      × (lg'.committing ≡ last)
      × ((last ≡ true) → lg'.outstanding ≡ 0)
unfolding end_op
end_op-ends lg quiet some_op few = elim (Bool-cases (sub32 lg.outstanding 1 == 0)) [
  | inl e ↦ (
    true,
    record lg { outstanding = sub32 lg.outstanding 1; committing = true },
    rw (quiet, e) refl,
    refl,
    omega arith,
    refl,
    λ t. ground arith,
  )
  | inr e ↦ (
    false,
    record lg { outstanding = sub32 lg.outstanding 1 },
    rw (quiet, e) refl,
    refl,
    omega arith,
    quiet,
    λ t. cc,
  )
]
