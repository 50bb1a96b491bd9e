-- ===== src/Vm/Walk.antt =====
-- kernel/vm.c: `walk` finds the last entry of an address, and changes the entry of none.
use os_final_project.Prelude.{
  ℕ, ◌+◌, ◌<◌, ◌≡◌, refl, ap, sym, ◌∙◌, subst, ◌⊎◌, inl, inr, Bool, true, false, Bool-cases, Option,
  none, some, List, [], ◌∷◌, if◌then◌else◌, leb, arith,
}
use os_final_project.Vm.{
  Vm, maxva, pa2pte, pte2pa, is_valid, px2, px1, px0, set_entry, clear_table, descend, walk,
  walk_next, place,
}
use os_final_project.Vm.Tree.{
  Node, mid, low, child, page, leaf, IsTree, IsAttached, attached-IsTree, attached-leaf, IsSpare,
  attached-IsSpare,
}
use os_final_project.Vm.Attach.{attach_mid, attach_low, page_low, page_low_none}

-- What `walk` leaves as it was: the tree may have new pages.
pub record Walked (v : Vm) (root : ℕ) (v' : Vm) : Type 0 where
  pub tree : IsTree v' root
  pub leaves : (va : ℕ) → leaf v' root va ≡ leaf v root va
  pub spare : (q : ℕ) → IsSpare v root q → IsSpare v' root q
  pub bytes : v'.bytes ≡ v.bytes

pub refl-Walked : {v : Vm} {root : ℕ} → IsTree v root → Walked v root v
refl-Walked t = record { tree = t; leaves = λ va. refl; spare = λ q s. s; bytes = refl }

pub trans-Walked :
    {v v' v'' : Vm} {root : ℕ} → Walked v root v' → Walked v' root v'' → Walked v root v''
trans-Walked w w' = record {
  tree = w'.tree;
  leaves = λ va. w'.leaves va ∙ w.leaves va;
  spare = λ q s. w'.spare q (w.spare q s);
  bytes = w'.bytes ∙ w.bytes;
}

attached-Walked :
    {v v' : Vm} {root : ℕ} (n : Node) (p : ℕ)
    → IsTree v root
    → IsAttached v root n p v'
    → Walked v root v'
attached-Walked n p t a = record {
  tree = attached-IsTree n p t a;
  leaves = λ va. attached-leaf n p va a;
  spare = attached-IsSpare n p a;
  bytes = a.bytes;
}

-- The outcome of looking for the page of the node `n`.
pub data Found (v : Vm) (root : ℕ) (alloc : Bool) (n : Node) : Option ℕ × Vm → Type 0 where
  found :
      (p : ℕ) (v' : Vm)
      → Walked v root v'
      → page v' root n ≡ some p
      → (alloc ≡ false → v' ≡ v)
      → Found v root alloc n (some p, v')
  missing : alloc ≡ false → page v root n ≡ none → Found v root alloc n (none, v)
  no_memory : alloc ≡ true → v.free ≡ [] → Found v root alloc n (none, v)

-- One level, given the entry that refers to the node.
descend_node :
    {v : Vm} {root : ℕ} (alloc : Bool) (n : Node) (pt i : ℕ)
    → IsTree v root
    → page v root n ≡ child (v.entries pt i)
    → ((p : ℕ) (rest : List ℕ)
        → v.free ≡ p ∷ rest
        → page v root n ≡ none
        → IsAttached v root n p (set_entry pt i (pa2pte p + 1) (clear_table p rest v)))
    → Found v root alloc n (descend alloc pt i v)
unfolding descend
descend_node {v} {root} alloc n pt i t e attach = elim (Bool-cases (is_valid (v.entries pt i))) [
  | inl valid ↦
      rw (valid) (found (pte2pa (v.entries pt i)) v (refl-Walked t) (rw (valid) at e) (λ _. refl))
  | inr invalid ↦
      let was : page v root n ≡ none = rw (invalid) at e in rw (invalid) (go alloc v.free refl was)
]
  where
    go :
        (alloc : Bool) (free : List ℕ)
        → v.free ≡ free
        → page v root n ≡ none
        → Found v root alloc n (
            if alloc
            then elim free [
              | [] ↦ (none, v)
              | p ∷ rest ↦ (some p, set_entry pt i (pa2pte p + 1) (clear_table p rest v))
            ]
            else (none, v))
    go false free q was = missing refl was
    go true [] q was = no_memory refl q
    go true (p ∷ rest) q was =
        let a = attach p rest q was in found p _ (attached-Walked n p t a) a.new (λ z. cc)

descend_mid :
    {v : Vm} {root : ℕ} (alloc : Bool) (i : ℕ)
    → IsTree v root
    → Found v root alloc (mid i) (descend alloc root i v)
unfolding page
descend_mid {v} {root} alloc i t =
    descend_node alloc (mid i) root i t refl (λ p rest free was. attach_mid t free i was)

descend_low :
    {v : Vm} {root : ℕ} (alloc : Bool) (i j m : ℕ)
    → IsTree v root
    → page v root (mid i) ≡ some m
    → Found v root alloc (low i j) (descend alloc m j v)
descend_low {v} {root} alloc i j m t e =
    descend_node alloc (low i j) m j t (page_low v root i j m e)
      (λ p rest free was. attach_low t free i j m e was)

-- The outcome of `walk` at an address.
pub data WalkEnd (v : Vm) (root va : ℕ) (alloc : Bool) : Option (ℕ × ℕ) → Vm → Type 0 where
  at_entry :
      (pt : ℕ) (v' : Vm)
      → Walked v root v'
      → page v' root (low (px2 va) (px1 va)) ≡ some pt
      → (alloc ≡ false → v' ≡ v)
      → WalkEnd v root va alloc (some (pt, px0 va)) v'
  unmapped : alloc ≡ false → leaf v root va ≡ 0 → WalkEnd v root va alloc none v
  walk_failed :
      (v' : Vm) → alloc ≡ true → Walked v root v' → v'.free ≡ [] → WalkEnd v root va alloc none v'

Found-cases :
    {v : Vm} {root : ℕ} {alloc : Bool} {n : Node} {r : Option ℕ × Vm}
    → Found v root alloc n r
    → ((p : ℕ) × (v' : Vm) × (r ≡ (some p, v'))
        × Walked v root v'
        × (page v' root n ≡ some p)
        × (alloc ≡ false → v' ≡ v))
      ⊎ ((r ≡ (none, v))
          × (((alloc ≡ false) × (page v root n ≡ none)) ⊎ ((alloc ≡ true) × (v.free ≡ []))))
Found-cases (found p v' w e s) = inl (p, v', refl, w, e, s)
Found-cases (missing a e) = inr (refl, inl (a, e))
Found-cases (no_memory a e) = inr (refl, inr (a, e))

pub leaf_at :
    (v : Vm) (root va p : ℕ)
    → page v root (low (px2 va) (px1 va)) ≡ some p
    → leaf v root va ≡ v.entries p (px0 va)
unfolding leaf
leaf_at v root va p e = rw (leaf, e) refl

no_leaf : (v : Vm) (root va : ℕ) → page v root (low (px2 va) (px1 va)) ≡ none → leaf v root va ≡ 0
unfolding leaf
no_leaf v root va e = rw (leaf, e) refl

-- For a tree of page tables and an address below MAXVA: `walk` does not panic. It gives the place of the last
-- entry, or 0 with nothing changed if it may not allocate and a page table is missing, when the
-- entry of the address counts as 0; or 0 if it may allocate and no page is free. It changes
-- the entry of no address, and the pages are a tree again.
pub walk_lem :
    {v : Vm} {root : ℕ} (va : ℕ) (alloc : Bool)
    → IsTree v root
    → va < maxva
    → (r : Option (ℕ × ℕ)) × (v' : Vm) × (walk root va alloc v ≡ some (r, v'))
      × WalkEnd v root va alloc r v'
unfolding walk walk_next place
walk_lem {v} {root} va alloc t lt = elim (Found-cases (descend_mid alloc (px2 va) t)) [
  | inr (e, why) ↦ (
    none,
    v,
    rw (walk, below, e) refl,
    elim why [
      | inl (a, z) ↦ unmapped a (no_leaf v root va (page_low_none v root (px2 va) (px1 va) z))
      | inr (a, z) ↦ walk_failed v a (refl-Walked t) z
    ],
  )
  | inl (m, v', e, w, at, still) ↦
      elim (Found-cases (descend_low alloc (px2 va) (px1 va) m w.tree at)) [
        | inr (e', why) ↦ (
          none,
          v',
          rw (walk, below, e, e') refl,
          elim why [
            | inl (a, z) ↦ subst (WalkEnd v root va alloc none) (sym (still a)) (
                unmapped a (
                  no_leaf v root va
                    (ap (λ x. page x root (low (px2 va) (px1 va))) (sym (still a)) ∙ z)))
            | inr (a, z) ↦ walk_failed v' a w z
          ],
        )
        | inl (q, v'', e', w', at', still') ↦ (
          some (q, px0 va),
          v'',
          rw (walk, below, e, e') refl,
          at_entry q v'' (trans-Walked w w') at' (λ a. still' a ∙ still a),
        )
      ]
]
  where
    below : leb maxva va ≡ false
    below = ground arith

pub WalkEnd-cases :
    {v v' : Vm} {root va : ℕ} {alloc : Bool} {r : Option (ℕ × ℕ)}
    → WalkEnd v root va alloc r v'
    → ((pt : ℕ) × (r ≡ some (pt, px0 va))
        × Walked v root v'
        × (page v' root (low (px2 va) (px1 va)) ≡ some pt)
        × (alloc ≡ false → v' ≡ v))
      ⊎ ((r ≡ none)
          × (((alloc ≡ false) × (leaf v root va ≡ 0) × (v' ≡ v))
              ⊎ ((alloc ≡ true) × Walked v root v' × (v'.free ≡ []))))
WalkEnd-cases (at_entry pt v' w at still) = inl (pt, refl, w, at, still)
WalkEnd-cases (unmapped a z) = inr (refl, inl (a, z, refl))
WalkEnd-cases (walk_failed v' a w z) = inr (refl, inr (a, w, z))
