-- ===== src/Vm/Pages.antt =====
-- kernel/vm.c: the loop of `mappages`.
use os_final_project.Prelude.{
  ℕ, zero, suc, ◌+◌, ◌*◌, ◌/◌, ◌%◌, ◌≤◌, ◌<◌, ◌≡◌, ◌≢◌, refl, ap, sym, ◌∙◌, ◌⊎◌, inl, inr, true,
  false, none, some, [], ◌==◌, ◌||◌, not, arith, ==_iff, ==_ne, minus_one32, add64, sub64, m64,
}
use os_final_project.Vm.{
  Vm, pgsize, maxva, is_valid, px0, set_entry, walk, new_pte, map_loop, mappages,
}
use os_final_project.Vm.Tree.{IsTree}
use os_final_project.Vm.Walk.{WalkEnd-cases, walk_lem, leaf_at}
use os_final_project.Vm.Map.{
  in_pages, IsMapped, MapEnd, mapped, out_of_memory, store_one, join, IsUnmapped, still-IsUnmapped,
  nothing-IsMapped,
}

extend :
    {v v₁ v' : Vm} {root a n pa perm r : ℕ}
    → a % 4096 ≡ 0
    → IsMapped v root a 1 pa perm v₁
    → MapEnd v₁ root (a + 4096) n (pa + 4096) perm r v'
    → MapEnd v root a (suc n) pa perm r v'
extend al m (mapped v' m') = mapped v' (join al m m')
extend al m (out_of_memory k v' lt m' z) = out_of_memory (suc k) v' (omega arith) (join al m m') z

-- One turn of the loop: the page is mapped, or there is no memory for its page table.
turn :
    (root a pa perm : ℕ) (v : Vm)
    → IsTree v root
    → a < maxva
    → IsUnmapped v root a 1
    → ((pt : ℕ) × (v' : Vm) × (walk root a true v ≡ some (some (pt, px0 a), v'))
        × (is_valid (v'.entries pt (px0 a)) ≡ false)
        × IsMapped v root a 1 pa perm (set_entry pt (px0 a) (new_pte pa perm) v'))
      ⊎ ((v' : Vm) × (walk root a true v ≡ some (none, v'))
          × IsMapped v root a 0 pa perm v'
          × (v'.free ≡ []))
turn root a pa perm v t lt u =
    let (r, v', e, end) = walk_lem a true t lt in
    elim (WalkEnd-cases end) [
      | inl (pt, s, w, at, still) ↦
          let here : in_pages a 1 a ≡ true = ground arith in
          inl (
            pt,
            v',
            e ∙ ap (λ x. some (x, v')) s,
            ap is_valid (sym (leaf_at v' root a pt at) ∙ w.leaves a) ∙ u a lt here,
            store_one w lt at,
          )
      | inr (s, why) ↦ elim why [
        | inl (f, _, _) ↦ let q : true ≡ false = f in cc
        | inr (_, w, z) ↦ inr (v', e ∙ ap (λ x. some (x, v')) s, nothing-IsMapped w, z)
      ]
    ]

map_loop-next :
    (fuel root a a' last pa pa' perm pt i : ℕ) (v v' : Vm)
    → walk root a true v ≡ some (some (pt, i), v')
    → is_valid (v'.entries pt i) ≡ false
    → a ≢ last
    → add64 a pgsize ≡ a'
    → add64 pa pgsize ≡ pa'
    → map_loop (suc fuel) root a last pa perm v
      ≡ map_loop fuel root a' last pa' perm (set_entry pt i (new_pte pa perm) v')
unfolding map_loop
map_loop-next fuel root a a' last pa pa' perm pt i v v' w free ne s s' =
    rw (map_loop, w, free, ==_ne a last ne, s, s') refl

-- The fuel is the number of pages.
pub map_loop_lem :
    (n : ℕ) (root a last pa perm : ℕ) (v : Vm)
    → IsTree v root
    → a % 4096 ≡ 0
    → last ≡ a + n * 4096
    → last < maxva
    → pa + n * 4096 < m64
    → IsUnmapped v root a (suc n)
    → (r : ℕ) × (v' : Vm) × (map_loop (suc n) root a last pa perm v ≡ some (r, v'))
      × MapEnd v root a (suc n) pa perm r v'
unfolding map_loop
map_loop_lem zero root a last pa perm v t al e lt bound u =
    elim (turn root a pa perm v t (omega arith) (λ x lx h. u x lx (ground arith))) [
      | inr (v', w, m, z) ↦
          (minus_one32, v', rw (map_loop, w) refl, out_of_memory 0 v' (omega arith) m z)
      | inl (pt, v', w, free, m) ↦ (
        0,
        set_entry pt (px0 a) (new_pte pa perm) v',
        rw (map_loop, w, free, (==_iff a last).1 (omega arith)) refl,
        mapped (set_entry pt (px0 a) (new_pte pa perm) v') m,
      )
    ]
map_loop_lem (suc k) root a last pa perm v t al e lt bound u =
    elim (turn root a pa perm v t (omega arith) (λ x lx h. u x lx (ground arith))) [
      | inr (v', w, m, z) ↦
          (minus_one32, v', rw (map_loop, w) refl, out_of_memory 0 v' (omega arith) m z)
      | inl (pt, v', w, free, m) ↦
          let s : add64 a pgsize ≡ a + 4096 = omega arith in
          let s' : add64 pa pgsize ≡ pa + 4096 = omega arith in
          let (r, v'', e', end) =
            map_loop_lem k root (a + 4096) last (pa + 4096) perm
              (set_entry pt (px0 a) (new_pte pa perm) v') m.tree (omega arith) (omega arith) lt
              (omega arith) (still-IsUnmapped (suc k) al m u) in
          (
            r,
            v'',
            map_loop-next (suc k) root a (a + 4096) last pa (pa + 4096) perm pt (px0 a) v v' w free
                  (omega arith) s s'
                ∙ e',
            extend al m end,
          )
    ]

mappages-map_loop :
    (root va n pa perm : ℕ) (v : Vm)
    → va % 4096 ≡ 0
    → va + suc n * 4096 ≤ maxva
    → mappages root va (suc n * 4096) pa perm v ≡ map_loop (suc n) root va (va + n * 4096) pa perm v
unfolding mappages
mappages-map_loop root va n pa perm v al fits =
    let last : sub64 (add64 va (suc n * 4096)) pgsize ≡ va + n * 4096 = omega arith in
    let pages : suc n * 4096 / pgsize ≡ suc n = omega arith in rw (proper va n al, last, pages) refl
  where
    proper :
        (va n : ℕ)
        → va % 4096 ≡ 0
        → (not (va % pgsize == 0) || not (suc n * 4096 % pgsize == 0) || suc n * 4096 == 0) ≡ false
    proper va n al = ground arith

-- For a tree of page tables, an address and a size that are multiples of the page size, with pages below MAXVA of
-- which none is mapped, and physical addresses that do not wrap: `mappages` does not panic. Either it maps each
-- page of the range to its physical page with the flags, and changes the entry of no other page, and
-- returns 0; or no page is free, when it returns -1 and has mapped some of the first pages of the range.
-- The page tables are a tree again.
pub mappages_lem :
    (root va n pa perm : ℕ) (v : Vm)
    → IsTree v root
    → va % 4096 ≡ 0
    → va + suc n * 4096 ≤ maxva
    → pa + n * 4096 < m64
    → IsUnmapped v root va (suc n)
    → (r : ℕ) × (v' : Vm) × (mappages root va (suc n * 4096) pa perm v ≡ some (r, v'))
      × MapEnd v root va (suc n) pa perm r v'
mappages_lem root va n pa perm v t al fits bound u =
    let (r, v', e, end) =
      map_loop_lem n root va (va + n * 4096) pa perm v t al refl (omega arith) bound u in
    (r, v', mappages-map_loop root va n pa perm v al fits ∙ e, end)
