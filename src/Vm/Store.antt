-- ===== src/Vm/Store.antt =====
-- kernel/vm.c: writing the last entry of an address changes the entry of this page only.
use os_final_project.Prelude.{
  ℕ, ◌/◌, ◌<◌, ◌≡◌, ◌≢◌, refl, ap, ap₂, sym, ◌∙◌, subst, inl, inr, Option-cases, none, some,
  some-injective, ◌==◌, if◌then◌else◌, arith, update, update_self, update_ne, ==_iff, ==_ne,
}
use os_final_project.Vm.{Vm, maxva, px2, px1, px0, set_entry}
use os_final_project.Vm.Tree.{
  Node, top, mid, low, child, page, leaf, IsTree, node_discrete, IsSpare,
}
use os_final_project.Vm.Attach.{page_low, page_low_none}

low_left : {a b i j : ℕ} → low a b ≡ low i j → a ≡ i
low_left e = cc

low_right : {a b i j : ℕ} → low a b ≡ low i j → b ≡ j
low_right e = cc

module _ {v : Vm} {root : ℕ} (t : IsTree v root) (i j pt k pte : ℕ)
    (at : page v root (low i j) ≡ some pt) where
  abbrev after : Vm
  after = set_entry pt k pte v

  not_last : (m : Node) (q : ℕ) → page v root m ≡ some q → m ≢ low i j → q ≢ pt
  not_last m q e ne s = ne (t.apart m (low i j) q e (at ∙ ap some (sym s)))

  entries_other : (q : ℕ) → q ≢ pt → after.entries q ≡ v.entries q
  unfolding set_entry
  entries_other q ne = update_ne v.entries pt q (update (v.entries pt) k pte) ne

  entries_at : (l : ℕ) → after.entries pt l ≡ (if l == k then pte else v.entries pt l)
  unfolding set_entry
  entries_at l = ap (λ f. f l) (update_self v.entries pt (update (v.entries pt) k pte))

  mid_same : (a : ℕ) → page after root (mid a) ≡ page v root (mid a)
  unfolding page
  mid_same a = ap (λ f. child (f a)) (entries_other root (not_last top root refl (λ s. cc)))

  -- No page of the tree changes.
  page_same : (m : Node) → page after root m ≡ page v root m
  unfolding page
  page_same top = refl
  page_same (mid a) = mid_same a
  page_same (low a b) = elim (Option-cases (page v root (mid a))) [
    | inl z ↦ page_low_none after root a b (mid_same a ∙ z) ∙ sym (page_low_none v root a b z)
    | inr (m, e) ↦
        page_low after root a b m (mid_same a ∙ e)
        ∙ ap (λ f. child (f b)) (entries_other m (not_last (mid a) m e (λ s. cc)))
        ∙ sym (page_low v root a b m e)
  ]

  pub store-IsTree : IsTree after root
  unfolding set_entry
  store-IsTree = record {
    apart = λ m n p e e'. t.apart m n p (sym (page_same m) ∙ e) (sym (page_same n) ∙ e');
    taken = λ m p e. t.taken m p (sym (page_same m) ∙ e);
    distinct = t.distinct;
    frames = t.frames;
  }

  pub store-IsSpare : (q : ℕ) → IsSpare v root q → IsSpare after root q
  unfolding set_entry
  store-IsSpare q s = (s.0, λ m e. s.1 m (sym (page_same m) ∙ e))

  leaf_at :
      (w : Vm) (va p : ℕ)
      → page w root (low (px2 va) (px1 va)) ≡ some p
      → leaf w root va ≡ w.entries p (px0 va)
  unfolding leaf
  leaf_at w va p e = rw (leaf, e) refl

  leaf-none : (w : Vm) (va : ℕ) → page w root (low (px2 va) (px1 va)) ≡ none → leaf w root va ≡ 0
  unfolding leaf
  leaf-none w va e = rw (leaf, e) refl

  pub store_leaf : (va : ℕ) → px2 va ≡ i → px1 va ≡ j → px0 va ≡ k → leaf after root va ≡ pte
  store_leaf va a b c =
      leaf_at after va pt
        (page_same (low (px2 va) (px1 va)) ∙ ap₂ (λ x y. page v root (low x y)) a b ∙ at)
      ∙ entries_at (px0 va)
      ∙ ap (λ x. if x then pte else v.entries pt (px0 va)) ((==_iff (px0 va) k).1 c)

  pub store_leaf_other :
      (va : ℕ)
      → ¬ ((px2 va ≡ i) × (px1 va ≡ j) × (px0 va ≡ k))
      → leaf after root va ≡ leaf v root va
  store_leaf_other va ne = elim (Option-cases (page v root (low (px2 va) (px1 va)))) [
    | inl z ↦ leaf-none after va (page_same (low (px2 va) (px1 va)) ∙ z) ∙ sym (leaf-none v va z)
    | inr (p, e) ↦
        leaf_at after va p (page_same (low (px2 va) (px1 va)) ∙ e)
        ∙ entry p e
        ∙ sym (leaf_at v va p e)
  ]
    where
      entry :
          (p : ℕ)
          → page v root (low (px2 va) (px1 va)) ≡ some p
          → after.entries p (px0 va) ≡ v.entries p (px0 va)
      entry p e = elim (node_discrete (low (px2 va) (px1 va)) (low i j)) [
        | no differ ↦
            ap (λ f. f (px0 va)) (entries_other p (not_last (low (px2 va) (px1 va)) p e differ))
        | yes s ↦
            let same : pt ≡ p = some-injective _ _ (sym at ∙ ap (page v root) (sym s) ∙ e) in
            subst (λ x. after.entries x (px0 va) ≡ v.entries x (px0 va)) same
              (entries_at (px0 va)
                ∙ ap (λ x. if x then pte else v.entries pt (px0 va))
                    (==_ne (px0 va) k (λ c. ne (low_left s, low_right s, c))))
      ]

-- Two addresses below MAXVA with the same entry lie in one page.
pub same_page :
    (va a : ℕ)
    → va < maxva
    → a < maxva
    → px2 va ≡ px2 a
    → px1 va ≡ px1 a
    → px0 va ≡ px0 a
    → va / 4096 ≡ a / 4096
same_page va a lt lt' e2 e1 e0 = omega arith

pub page_same_entry :
    (va a : ℕ) → va / 4096 ≡ a / 4096 → (px2 va ≡ px2 a) × (px1 va ≡ px1 a) × (px0 va ≡ px0 a)
page_same_entry va a e = (omega arith, omega arith, omega arith)
