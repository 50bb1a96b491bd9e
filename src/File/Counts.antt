-- ===== src/File/Counts.antt =====
-- kernel/file.c: what `filealloc`, `filedup` and `fileclose` do to a file whose count is known.
use os_final_project.Prelude.{
  ℕ, zero, suc, ◌+◌, ◌-◌, ◌≤◌, ◌<◌, ◌≡◌, refl, subst, inl, inr, some, Option-cases, Bool-cases,
  List, [], ◌∷◌, arith, ◌==◌, if◌then◌else◌, modify, get_elem?, length, remove,
}
use os_final_project.File.{
  File, set_ref, alloc_from, filealloc, filedup, kept, last_close, clear_file, fileclose,
}

-- How many of the references are to the file `i`.
abbrev pub count : ℕ → List ℕ → ℕ
count i [] = 0
count i (j ∷ js) = if j == i then count i js + 1 else count i js

pub count-le : (i : ℕ) (js : List ℕ) → count i js ≤ length js
count-le i [] = omega arith
count-le i (j ∷ js) = ground (arith, count-le i js)

pub count-remove :
    (i : ℕ) (js : List ℕ) (k j : ℕ)
    → get_elem? js k ≡ some j
    → count i (remove js k) + (if j == i then 1 else 0) ≡ count i js
count-remove i [] k j e = cc
count-remove i (x ∷ js) zero j e = ground arith
count-remove i (x ∷ js) (suc k) j e = ground (arith, count-remove i js k j e)

pub alloc_from_lem :
    (k : ℕ) (fs : List File) {i : ℕ}
    → alloc_from k fs ≡ some i
    → (j : ℕ) × (f : File) × (i ≡ k + j) × (get_elem? fs j ≡ some f) × (f.ref ≡ 0)
unfolding alloc_from
alloc_from_lem k [] e = cc
alloc_from_lem k (f ∷ fs) {i} e = elim (Bool-cases (f.ref == 0)) [
  | inl z ↦ (0, f, ground arith, refl, ground arith)
  | inr z ↦
      let (j, g, a, b, c) = alloc_from_lem (k + 1) fs {i = i} (ground arith) in
      (suc j, g, omega arith, b, c)
]

pub filealloc_lem :
    (fs : List File) {i : ℕ} {fs' : List File}
    → filealloc fs ≡ some (i, fs')
    → (f : File) × (get_elem? fs i ≡ some f) × (f.ref ≡ 0) × (fs' ≡ modify fs i (set_ref 1))
unfolding filealloc
filealloc_lem fs {i} {fs'} e = elim (Option-cases (alloc_from 0 fs)) [
  | inl n ↦ absurd (ground arith)
  | inr (m, n) ↦
      let (j, f, a, b, c) = alloc_from_lem 0 fs n in
      let same : i ≡ m = ground arith in
      let at : j ≡ i = omega arith in
      (f, subst (λ x. get_elem? fs x ≡ some f) at b, c, ground arith)
]

module _ (i : ℕ) (fs : List File) (f : File) (at : get_elem? fs i ≡ some f) (used : 0 < f.ref)
    (small : f.ref + 1 < 0x8000_0000) where
  pub filedup_lem : filedup i fs ≡ some (modify fs i (set_ref (f.ref + 1)))
  unfolding filedup
  filedup_lem = ground arith

  pub fileclose_kept : 1 < f.ref → fileclose i fs ≡ some (kept, modify fs i (set_ref (f.ref - 1)))
  unfolding fileclose
  fileclose_kept more = ground arith

  pub fileclose_last : f.ref ≡ 1 → fileclose i fs ≡ some (last_close f, modify fs i clear_file)
  unfolding fileclose
  fileclose_last one = ground arith
