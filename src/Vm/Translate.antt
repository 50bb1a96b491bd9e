-- ===== src/Vm/Translate.antt =====
-- kernel/vm.c: `walkaddr` and `ismapped` read the entry of an address.
use os_final_project.Prelude.{
  ℕ, ◌+◌, ◌-◌, ◌*◌, ◌/◌, ◌%◌, ◌<◌, ◌≡◌, refl, ap, ap₂, sym, ◌∙◌, ◌⊎◌, inl, inr, true, false,
  Bool-cases, none, some, if◌then◌else◌, leb, ◌&&◌, m64, arith,
}
use os_final_project.Vm.{
  Vm, maxva, is_valid, is_user, pte2pa, px2, px1, px0, walk, walkaddr, ismapped, new_pte,
}
use os_final_project.Vm.Tree.{low, page, leaf, IsTree}
use os_final_project.Vm.Walk.{WalkEnd-cases, walk_lem, leaf_at}
use os_final_project.Vm.Store.{page_same_entry}
use os_final_project.Vm.Map.{in_pages, IsMapped}

-- Without allocation `walk` gives the place of the entry, or the entry counts as 0.
walk_read :
    {v : Vm} {root : ℕ} (va : ℕ)
    → IsTree v root
    → va < maxva
    → ((pt : ℕ) × (walk root va false v ≡ some (some (pt, px0 va), v))
        × (v.entries pt (px0 va) ≡ leaf v root va))
      ⊎ ((walk root va false v ≡ some (none, v)) × (leaf v root va ≡ 0))
walk_read {v} {root} va t lt =
    let (r, v', e, end) = walk_lem va false t lt in
    elim (WalkEnd-cases end) [
      | inl (pt, s, w, at, still) ↦
          let same = still refl in
          inl (
            pt,
            e ∙ ap₂ (λ x y. some (x, y)) s same,
            sym (
                leaf_at v root va pt
                  (ap (λ x. page x root (low (px2 va) (px1 va))) (sym same) ∙ at)),
          )
      | inr (s, why) ↦ elim why [
        | inl (_, z, same) ↦ inr (e ∙ ap₂ (λ x y. some (x, y)) s same, z)
        | inr (f, _, _) ↦ let q : false ≡ true = f in cc
      ]
    ]

-- For a tree of page tables: `walkaddr` is the physical page that the entry of the address refers to, if the
-- address is below MAXVA and the entry is valid and for the user, and 0 otherwise.
pub walkaddr_lem :
    (root va : ℕ) (v : Vm)
    → IsTree v root
    → walkaddr root va v ≡ (
        if leb maxva va
        then 0
        else if is_valid (leaf v root va) && is_user (leaf v root va)
        then pte2pa (leaf v root va)
        else 0)
unfolding walkaddr
walkaddr_lem root va v t = elim (Bool-cases (leb maxva va)) [
  | inl high ↦ rw (walkaddr, high) refl
  | inr below ↦ elim (walk_read va t (ground arith)) [
    | inl (pt, e, at) ↦
        rw (walkaddr, below, e)
          (ap (λ pte. if is_valid pte && is_user pte then pte2pa pte else 0) at)
    | inr (e, z) ↦ rw (walkaddr, below, e, z) refl
  ]
]

pub ismapped_lem :
    (root va : ℕ) (v : Vm)
    → IsTree v root
    → va < maxva
    → ismapped root va v ≡ some (is_valid (leaf v root va))
unfolding ismapped
ismapped_lem root va v t lt = elim (walk_read va t lt) [
  | inl (pt, e, at) ↦ rw (ismapped, e) (ap (λ pte. some (is_valid pte)) at)
  | inr (e, z) ↦ rw (ismapped, e, z) refl
]

-- An entry that `mappages` writes.
pub new_pte_lem :
    (pa perm : ℕ)
    → pa % 4096 ≡ 0
    → pa < m64
    → perm < 1024
    → (is_valid (new_pte pa perm) ≡ true)
      × (pte2pa (new_pte pa perm) ≡ pa)
      × ((perm / 16 % 2 ≡ 1) → is_user (new_pte pa perm) ≡ true)
new_pte_lem pa perm al below lt = (ground arith, omega arith, λ u. ground arith)

-- The pages of a range that `mappages` has mapped for the user are where it was told to put them.
pub walkaddr-mapped :
    {v v' : Vm} {root va n pa perm : ℕ} (x : ℕ)
    → IsMapped v root va n pa perm v'
    → pa % 4096 ≡ 0
    → pa + (x / 4096 - va / 4096) * 4096 < m64
    → perm < 1024
    → perm / 16 % 2 ≡ 1
    → x < maxva
    → in_pages va n x ≡ true
    → walkaddr root x v' ≡ pa + (x / 4096 - va / 4096) * 4096
walkaddr-mapped {v} {v'} {root} {va} {n} {pa} {perm} x m al top small user lt inside =
    let to = pa + (x / 4096 - va / 4096) * 4096 in
    let leaf_new : leaf v' root x ≡ new_pte to perm =
      m.leaves x lt ∙ ap (λ t. if t then new_pte to perm else leaf v root x) inside in
    let (valid, page_of, user_bit) = new_pte_lem to perm (omega arith) top small in
    let below : leb maxva x ≡ false = ground arith in
    walkaddr_lem root x v' m.tree
    ∙ ap
        (λ t.
          if t
          then 0
          else if is_valid (leaf v' root x) && is_user (leaf v' root x)
          then pte2pa (leaf v' root x)
          else 0)
        below
    ∙ ap (λ pte. if is_valid pte && is_user pte then pte2pa pte else 0) leaf_new
    ∙ ap₂ (λ a b. if a && b then pte2pa (new_pte to perm) else 0) valid (user_bit user)
    ∙ page_of

-- The addresses of one page have one entry.
pub leaf_page : (v : Vm) (root x y : ℕ) → x / 4096 ≡ y / 4096 → leaf v root x ≡ leaf v root y
unfolding leaf
leaf_page v root x y e =
    let (e2, e1, e0) = page_same_entry x y e in
    ap₂ (λ a b. at a b (px0 x)) e2 e1 ∙ ap (at (px2 y) (px1 y)) e0
  where
    at : ℕ → ℕ → ℕ → ℕ
    at i j k = elim (page v root (low i j)) [ none ↦ 0 | some p ↦ v.entries p k ]
