-- ===== src/Kalloc/Count.antt =====
-- kernel/kalloc.c: `count_free_mem` ends, and counts the pages of the free list.
use os_final_project.Prelude.{
  ℕ, zero, suc, ◌+◌, ◌*◌, ◌/◌, ◌%◌, ◌≤◌, ◌<◌, ◌≡◌, some, List, [], ◌∷◌, arith, All, length, NotIn,
  Distinct, ◌==◌, ==_iff, ==_ne, ℕ_discrete, subst, sym, ap, ◌∙◌, if◌then◌else◌,
}
use os_final_project.Kalloc.{Kmem, count_loop, count_free_mem, pgsize, phystop}
use os_final_project.Kalloc.FreeList.{IsRun, IsPage, FreeList}

-- A page among the first `n` of the address space.
abbrev IsBelow : ℕ → ℕ → Type 0
IsBelow n pa = (pa % pgsize ≡ 0) × (pa < n * pgsize)

-- The list without its first `v`.
remove : ℕ → List ℕ → List ℕ
remove v [] = []
remove v (x ∷ xs) = if x == v then xs else x ∷ remove v xs

length-remove : (v : ℕ) (xs : List ℕ) → length xs ≤ suc (length (remove v xs))
unfolding remove
length-remove v [] = omega arith
length-remove v (x ∷ xs) = ground (arith, length-remove v xs)

NotIn-remove : (v y : ℕ) (xs : List ℕ) → NotIn y xs → NotIn y (remove v xs)
unfolding remove
NotIn-remove v y [] h = h
NotIn-remove v y (x ∷ xs) h = ground (arith, NotIn-remove v y xs h.1)

Distinct-remove : (v : ℕ) (xs : List ℕ) → Distinct xs → Distinct (remove v xs)
unfolding remove
Distinct-remove v [] d = d
Distinct-remove v (x ∷ xs) d = ground (arith, Distinct-remove v xs d.1, NotIn-remove v x xs d.0)

-- What is left of distinct pages below `n + 1` without the last of them is below `n`.
IsBelow-of_ne :
    (n : ℕ) (xs : List ℕ) → NotIn (n * pgsize) xs → All (IsBelow (suc n)) xs → All (IsBelow n) xs
IsBelow-of_ne n [] d h = h
IsBelow-of_ne n (x ∷ xs) d h = ((h.0.0, omega arith), IsBelow-of_ne n xs d.1 h.1)

IsBelow-remove :
    (n : ℕ) (xs : List ℕ)
    → Distinct xs
    → All (IsBelow (suc n)) xs
    → All (IsBelow n) (remove (n * pgsize) xs)
unfolding remove
IsBelow-remove n [] d h = h
IsBelow-remove n (x ∷ xs) d h = elim (ℕ_discrete x (n * pgsize)) [
  | yes e ↦
      rw ((==_iff x (n * pgsize)).1 e) (IsBelow-of_ne n xs (subst (λ y. NotIn y xs) e d.0) h.1)
  | no e ↦ rw (==_ne x (n * pgsize) e) ((h.0.0, omega arith), IsBelow-remove n xs d.1 h.1)
]

-- There are at most `n` distinct pages below `n * pgsize`.
pub few_pages : (n : ℕ) (xs : List ℕ) → Distinct xs → All (IsBelow n) xs → length xs ≤ n
few_pages zero [] d h = omega arith
few_pages zero (x ∷ xs) d h = absurd (omega arith)
few_pages (suc n) xs d h = omega (
  arith,
  length-remove (n * pgsize) xs,
  few_pages n (remove (n * pgsize) xs) (Distinct-remove (n * pgsize) xs d)
      (IsBelow-remove n xs d h),
)

count_loop_lem :
    (fuel : ℕ) (word : ℕ → ℕ) (r n : ℕ) (ps : List ℕ)
    → length ps < fuel
    → IsRun word r ps
    → count_loop fuel word r n ≡ some (n + length ps)
unfolding count_loop
count_loop_lem zero word r n ps h run = elim h [ ]
count_loop_lem (suc fuel) word r n [] h run = ground arith
count_loop_lem (suc fuel) word r n (p ∷ ps) h run = rw (==_ne r 0 (omega arith)) (
    count_loop_lem fuel word (word r) (n + 1) ps (omega arith)
      (subst (λ q. IsRun word (word q) ps) (sym run.0) run.2)
    ∙ ap some (omega arith))

-- A page of the allocator is one of the first `phystop / pgsize`.
IsBelow-IsPage :
    (kend : ℕ) (ps : List ℕ) → All (IsPage kend) ps → All (IsBelow (phystop / pgsize)) ps
IsBelow-IsPage kend [] h = h
IsBelow-IsPage kend (p ∷ ps) h = ((h.0.0, h.0.2), IsBelow-IsPage kend ps h.1)

pub length-free-le :
    {kend : ℕ} {k : Kmem} (ps : List ℕ) → FreeList kend k ps → length ps ≤ phystop / pgsize
length-free-le {kend} ps f =
    few_pages (phystop / pgsize) ps f.distinct (IsBelow-IsPage kend ps f.inside)

-- On a free list the walk of `count_free_mem` ends, and the result is the size of the free pages.
pub count_free_mem_lem :
    {kend : ℕ} {k : Kmem} (ps : List ℕ)
    → FreeList kend k ps
    → count_free_mem k ≡ some (length ps * pgsize)
unfolding count_free_mem
count_free_mem_lem {k} ps f =
    rw
      (
        count_loop_lem (phystop / pgsize + 1) k.word k.freelist 0 ps
            (omega (arith, length-free-le ps f)) f.linked,
        count_free_mem,
      )
      (ap (λ n. some (n * pgsize)) (omega arith))
