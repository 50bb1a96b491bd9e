-- ===== src/Kalloc/Init.antt =====
-- kernel/kalloc.c: what `freerange` and `kinit` put on the free list.
use os_final_project.Prelude.{
  ℕ, zero, suc, ◌+◌, ◌-◌, ◌*◌, ◌/◌, ◌%◌, ◌≤◌, ◌<◌, ◌≡◌, refl, List, [], ◌∷◌, arith, All, length,
  Bool-cases, inl, inr, leb, NotIn,
}
use os_final_project.Kalloc.{
  Kmem, done, freerange_loop, freerange, kinit, record_total, pgsize, phystop, pg_round_up,
}
use os_final_project.Kalloc.FreeList.{FreeList, kfree_lem}
use os_final_project.Kalloc.Count.{count_free_mem_lem}

-- All pages of `ps` lie below `p`.
abbrev Below : ℕ → List ℕ → Type 0
Below p ps = All (λ q. q < p) ps

Below-mono : (p r : ℕ) (ps : List ℕ) → p ≤ r → Below p ps → Below r ps
Below-mono p r [] h b = b
Below-mono p r (q ∷ qs) h b = (omega arith, Below-mono p r qs h b.1)

NotIn-Below : (p : ℕ) (ps : List ℕ) → Below p ps → NotIn p ps
NotIn-Below p [] b = b
NotIn-Below p (q ∷ qs) b = (omega arith, NotIn-Below p qs b.1)

-- With enough fuel the loop ends without a panic and adds every whole page from `p` up to `pa_end`.
freerange_loop_lem :
    (fuel kend p pa_end : ℕ) (k : Kmem) (ps : List ℕ)
    → pa_end < p + pgsize + fuel * pgsize
    → 0 < kend
    → kend ≤ p
    → pa_end ≤ phystop
    → p % pgsize ≡ 0
    → FreeList kend k ps
    → Below p ps
    → (k' : Kmem) × (ps' : List ℕ) × (freerange_loop (suc fuel) kend p pa_end k ≡ done k')
      × FreeList kend k' ps'
      × (length ps' ≡ length ps + (pa_end / pgsize - p / pgsize))
unfolding freerange_loop
freerange_loop_lem zero kend p pa_end k ps enough pos le top al f b =
    (k, ps, ground arith, f, ground arith)
freerange_loop_lem (suc fuel) kend p pa_end k ps enough pos le top al f b =
    elim (Bool-cases (leb (p + pgsize) pa_end)) [
      | inr last ↦ (k, ps, rw last, f, ground arith)
      | inl more ↦
          let (k₁, e, f₁, _) = kfree_lem p pos f (al, le, ground arith) (NotIn-Below p ps b) in
          let (k', ps', e', f', n) =
            freerange_loop_lem fuel kend (p + pgsize) pa_end k₁ (p ∷ ps) (omega arith) pos
              (omega arith) top (omega arith) f₁
              (omega arith, Below-mono p (p + pgsize) ps (omega arith) b) in
          (k', ps', rw (more, e, freerange_loop) e', f', ground arith)
    ]

-- From an empty free list, with a kernel that ends above 0 and below PHYSTOP: `kinit` ends without
-- a panic, with every whole page from the end of the kernel to the top of the memory on the free
-- list, and records their total size.
pub kinit_lem :
    (kend : ℕ) (k : Kmem)
    → 0 < kend
    → kend ≤ phystop
    → k.freelist ≡ 0
    → (k' : Kmem) × (ps : List ℕ) × (kinit kend k ≡ done k')
      × FreeList kend k' ps
      × (length ps * pgsize ≡ phystop - pg_round_up kend)
      × (k'.total_mem_bytes ≡ length ps * pgsize)
unfolding kinit freerange
kinit_lem kend k pos le empty =
    let f : FreeList kend k [] = record { linked = empty; distinct = tt; inside = tt } in
    let (k₁, ps, e, f₁, n) =
      freerange_loop_lem (phystop / pgsize) kend (pg_round_up kend) phystop k [] (omega arith) pos
        (omega arith) (omega arith) (omega arith) f tt in
    (
      record k₁ { total_mem_bytes = length ps * pgsize },
      ps,
      rw (e, count_free_mem_lem ps f₁, record_total),
      record { linked = f₁.linked; distinct = f₁.distinct; inside = f₁.inside },
      omega arith,
      refl,
    )
