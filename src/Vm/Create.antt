-- ===== src/Vm/Create.antt =====
-- kernel/vm.c: `uvmcreate` makes an address space with no pages.
use os_final_project.Prelude.{
  ℕ, ◌≡◌, ◌≢◌, refl, ap, sym, ◌∙◌, subst, ◌⊎◌, inl, inr, true, false, none, some, some-injective,
  List, [], ◌∷◌, update_self, NotIn, Distinct, All,
}
use os_final_project.Vm.{Vm, is_valid, px2, px1, clear_table, uvmcreate}
use os_final_project.Vm.Tree.{Node, top, mid, low, child, page, leaf, IsFrame}
use os_final_project.Vm.Attach.{page_low_none}
use os_final_project.Vm.Space.{IsSpace}
use os_final_project.Vm.Fault.{list_cases}

module _ (v : Vm) (p : ℕ) (rest : List ℕ) where
  empty_mid : (i : ℕ) → page (clear_table p rest v) p (mid i) ≡ none
  unfolding page clear_table
  empty_mid i = ap (λ f. child (f i)) (update_self v.entries p (λ k. 0))

  -- The first page table is the only one.
  only_top : (m : Node) (q : ℕ) → page (clear_table p rest v) p m ≡ some q → (m ≡ top) × (q ≡ p)
  unfolding page
  only_top top q e = (refl, sym (some-injective _ _ e))
  only_top (mid i) q e = let r : none ≡ some q = sym (empty_mid i) ∙ e in cc
  only_top (low i j) q e =
      let z = page_low_none (clear_table p rest v) p i j (empty_mid i) in
      let r : none ≡ some q = sym z ∙ e in cc

  pub empty_leaf : (x : ℕ) → leaf (clear_table p rest v) p x ≡ 0
  unfolding leaf
  empty_leaf x =
      let z = page_low_none (clear_table p rest v) p (px2 x) (px1 x) (empty_mid (px2 x)) in
      rw (leaf, z) refl

  pub empty-IsSpace : Distinct (p ∷ rest) → All IsFrame rest → IsSpace (clear_table p rest v) p
  unfolding clear_table
  empty-IsSpace d frames = record {
    tree = record {
      apart = λ m n q e e'. (only_top m q e).0 ∙ sym (only_top n q e').0;
      taken = λ m q e. subst (λ x. NotIn x rest) (sym (only_top m q e).1) d.0;
      distinct = d.1;
      frames = frames;
    };
    spare = λ x lx u. let r : false ≡ true = ap is_valid (sym (empty_leaf x)) ∙ u in cc;
    apart = λ x y lx ly u. let r : false ≡ true = ap is_valid (sym (empty_leaf x)) ∙ u in cc;
  }

-- The choice of `uvmcreate`.
abbrev created : Vm → List ℕ → ℕ × Vm
created v [] = (0, v)
created v (p ∷ rest) = (p, clear_table p rest v)

-- For free pages that are different pages of the allocator: `uvmcreate` returns 0 and changes nothing if there
-- are none, and otherwise the page table of an address space in which nothing is mapped.
pub uvmcreate_lem :
    (v : Vm)
    → Distinct v.free
    → All IsFrame v.free
    → ((v.free ≡ []) × (uvmcreate v ≡ (0, v)))
      ⊎ (((uvmcreate v).0 ≢ 0)
          × IsSpace (uvmcreate v).1 (uvmcreate v).0
          × ((x : ℕ) → leaf (uvmcreate v).1 (uvmcreate v).0 x ≡ 0))
unfolding uvmcreate
uvmcreate_lem v d f = elim (list_cases v.free) [
  | inl z ↦ inl (z, ap (created v) z)
  | inr (p, rest, free) ↦
      let d' = subst Distinct free d in
      let f' = subst (All IsFrame) free f in
      inr (
        subst (λ r. (r.0 ≢ 0) × IsSpace r.1 r.0 × ((x : ℕ) → leaf r.1 r.0 x ≡ 0))
          (sym (ap (created v) free)) (f'.0.1, empty-IsSpace v p rest d' f'.1, empty_leaf v p rest))
]
