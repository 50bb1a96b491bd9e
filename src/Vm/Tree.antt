-- ===== src/Vm/Tree.antt =====
-- kernel/vm.c: the pages of a page table as a tree, and the entry of an address.
use os_final_project.Prelude.{
  ℕ, ◌+◌, ◌%◌, ◌<◌, ◌≡◌, ◌≢◌, refl, ap, ap₂, sym, ◌∙◌, subst, inl, inr, true, Option, Option-cases,
  none, some, some-injective, List, ◌∷◌, if◌then◌else◌, arith, ℕ_discrete, NotIn, Distinct, All,
  m64,
}
use os_final_project.Vm.{Vm, pa2pte, pte2pa, is_valid, px2, px1, px0}

-- The page tables of a tree: the first one, the 512 that it refers to, and what these refer to.
pub data Node : Type 0 where
  top : Node
  mid : ℕ → Node
  low : ℕ → ℕ → Node

-- The page that an entry refers to.
abbrev pub child : ℕ → Option ℕ
child pte = if is_valid pte then some (pte2pa pte) else none

-- The page of a node.
unfoldable pub page : Vm → ℕ → Node → Option ℕ
page v root top = some root
page v root (mid i) = child (v.entries root i)
page v root (low i j) = elim (child (v.entries root i)) [
  | none ↦ none
  | some m ↦ child (v.entries m j)
]

-- The last entry for an address; 0, which is not valid, if its page table is not there.
unfoldable pub leaf : Vm → ℕ → ℕ → ℕ
leaf v root va = elim (page v root (low (px2 va) (px1 va))) [
  | none ↦ 0
  | some p ↦ v.entries p (px0 va)
]

-- A page that the allocator hands out.
abbrev pub IsFrame : ℕ → Type 0
IsFrame p = (p % 4096 ≡ 0) × (p ≢ 0) × (p < m64)

-- The page tables are different pages, none of them is free, and the free pages are different.
pub record IsTree (v : Vm) (root : ℕ) : Type 0 where
  pub apart : (m n : Node) (p : ℕ) → page v root m ≡ some p → page v root n ≡ some p → m ≡ n
  pub taken : (m : Node) (p : ℕ) → page v root m ≡ some p → NotIn p v.free
  pub distinct : Distinct v.free
  pub frames : All IsFrame v.free

-- Pages and entries depend on the page tables alone.
pub page-entries :
    (w w' : Vm) (root : ℕ) (m : Node) → w.entries ≡ w'.entries → page w root m ≡ page w' root m
unfolding page
page-entries w w' root top e = refl
page-entries w w' root (mid i) e = ap (λ f. child (f root i)) e
page-entries w w' root (low i j) e =
    ap (λ f. elim (child (f root i)) [ none ↦ none | some m ↦ child (f m j) ]) e

pub leaf-entries :
    (w w' : Vm) (root va : ℕ) → w.entries ≡ w'.entries → leaf w root va ≡ leaf w' root va
unfolding page leaf
leaf-entries w w' root va e =
    ap
      (λ (f : ℕ → ℕ → ℕ).
        elim (elim (child (f root (px2 va))) as (λ _. Option ℕ) [
          | none ↦ none
          | some m ↦ child (f m (px1 va))
        ])
          as (λ _. ℕ) [ none ↦ 0 | some p ↦ f p (px0 va) ])
      e

pub child_new : (p : ℕ) → IsFrame p → child (pa2pte p + 1) ≡ some p
child_new p (al, _, lt) =
    let e : pte2pa (pa2pte p + 1) ≡ p = omega arith in
    let t : is_valid (pa2pte p + 1) ≡ true = ground arith in rw (t, e) refl

pub node_discrete : (m n : Node) → Dec (m ≡ n)
node_discrete top top = yes refl
node_discrete top (mid i) = no (λ e. cc)
node_discrete top (low i j) = no (λ e. cc)
node_discrete (mid i) top = no (λ e. cc)
node_discrete (mid i) (mid k) = elim (ℕ_discrete i k) [
  | yes e ↦ yes (ap mid e)
  | no ne ↦ no (λ e. ne (cc))
]
node_discrete (mid i) (low k l) = no (λ e. cc)
node_discrete (low i j) top = no (λ e. cc)
node_discrete (low i j) (mid k) = no (λ e. cc)
node_discrete (low i j) (low k l) = elim (ℕ_discrete i k) [
  | yes e ↦ elim (ℕ_discrete j l) [ yes e' ↦ yes (ap₂ low e e') | no ne ↦ no (λ q. ne (cc)) ]
  | no ne ↦ no (λ q. ne (cc))
]

-- A free page `p` has become the page of the node `n`.
pub record IsAttached (v : Vm) (root : ℕ) (n : Node) (p : ℕ) (v' : Vm) : Type 0 where
  pub pages : (k : Node) → k ≢ n → page v' root k ≡ page v root k
  pub new : page v' root n ≡ some p
  pub was : page v root n ≡ none
  pub free : v.free ≡ p ∷ v'.free
  pub kept : (i j q : ℕ) → page v root (low i j) ≡ some q → v'.entries q ≡ v.entries q
  pub zero : (i j : ℕ) → n ≡ low i j → v'.entries p ≡ λ k. 0
  pub bytes : v'.bytes ≡ v.bytes

NotIn-head : (p q : ℕ) (rest : List ℕ) → NotIn p (q ∷ rest) → q ≢ p
NotIn-head p q rest h = h.0

pub attached-IsTree :
    {v v' : Vm} {root : ℕ} (n : Node) (p : ℕ)
    → IsTree v root
    → IsAttached v root n p v'
    → IsTree v' root
attached-IsTree {v} {v'} {root} n p t a = record {
  apart = λ k l q e e'. elim (node_discrete k n) [
    | yes s ↦ elim (node_discrete l n) [
      | yes s' ↦ s ∙ sym s'
      | no ne' ↦ absurd (old l q (sym (a.pages l ne') ∙ e') (of_new k s q e))
    ]
    | no ne ↦ elim (node_discrete l n) [
      | yes s' ↦ absurd (old k q (sym (a.pages k ne) ∙ e) (of_new l s' q e'))
      | no ne' ↦ t.apart k l q (sym (a.pages k ne) ∙ e) (sym (a.pages l ne') ∙ e')
    ]
  ];
  taken = λ k q e. elim (node_discrete k n) [
    | yes s ↦ subst (λ x. NotIn x v'.free) (of_new k s q e) free'.0
    | no ne ↦ (subst (NotIn q) a.free (t.taken k q (sym (a.pages k ne) ∙ e))).1
  ];
  distinct = free'.1;
  frames = (subst (All IsFrame) a.free t.frames).1;
}
  where
    free' : Distinct (p ∷ v'.free)
    free' = subst Distinct a.free t.distinct

    of_new : (k : Node) → k ≡ n → (q : ℕ) → page v' root k ≡ some q → p ≡ q
    of_new k s q e = some-injective _ _ (sym a.new ∙ ap (page v' root) (sym s) ∙ e)

    old : (k : Node) (q : ℕ) → page v root k ≡ some q → p ≡ q → ⊥
    old k q e s = (subst (NotIn q) a.free (t.taken k q e)).0 s

-- A page that is neither in the tree nor free.
abbrev pub IsSpare : Vm → ℕ → ℕ → Type 0
IsSpare v root q = NotIn q v.free × ((m : Node) → page v root m ≢ some q)

pub attached-IsSpare :
    {v v' : Vm} {root : ℕ} (n : Node) (p : ℕ)
    → IsAttached v root n p v'
    → (q : ℕ) → IsSpare v root q
    → IsSpare v' root q
attached-IsSpare {v} {v'} {root} n p a q s =
    let f : NotIn q (p ∷ v'.free) = subst (NotIn q) a.free s.0 in
    (
      f.1,
      λ m e. elim (node_discrete m n) [
        | yes same ↦ f.0 (some-injective _ _ (sym a.new ∙ ap (page v' root) (sym same) ∙ e))
        | no ne ↦ s.1 m (sym (a.pages m ne) ∙ e)
      ],
    )

-- The entry of no address changes.
pub attached-leaf :
    {v v' : Vm} {root : ℕ} (n : Node) (p va : ℕ)
    → IsAttached v root n p v'
    → leaf v' root va ≡ leaf v root va
unfolding leaf
attached-leaf {v} {v'} {root} n p va a = elim (node_discrete (low (px2 va) (px1 va)) n) [
  | yes s ↦
      let new = ap (page v' root) s ∙ a.new in
      let was = ap (page v root) s ∙ a.was in
      rw (leaf, new, was) (ap (λ f. f (px0 va)) (a.zero (px2 va) (px1 va) (sym s)))
  | no ne ↦
      let same = a.pages (low (px2 va) (px1 va)) ne in
      elim (Option-cases (page v root (low (px2 va) (px1 va)))) [
        | inl z ↦ rw (leaf, same ∙ z, z) refl
        | inr (q, e) ↦ rw (leaf, same ∙ e, e) (ap (λ f. f (px0 va)) (a.kept (px2 va) (px1 va) q e))
      ]
]
