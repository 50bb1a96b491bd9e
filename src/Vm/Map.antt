-- ===== src/Vm/Map.antt =====
-- kernel/vm.c: `mappages` fills the entries of a range of pages.
use os_final_project.Prelude.{
  ℕ, suc, ◌+◌, ◌-◌, ◌*◌, ◌/◌, ◌%◌, ◌≤◌, ◌<◌, ◌≡◌, refl, ap, ap₂, sym, ◌∙◌, inl, inr, Bool, true,
  false, Bool-cases, some, [], if◌then◌else◌, ltb, leb, ◌&&◌, arith, ℕ_discrete, minus_one32,
}
use os_final_project.Vm.{Vm, maxva, is_valid, px2, px1, px0, set_entry, new_pte}
use os_final_project.Vm.Tree.{low, page, leaf, IsTree, IsSpare}
use os_final_project.Vm.Walk.{Walked}
use os_final_project.Vm.Store.{
  store-IsTree, store-IsSpare, store_leaf, store_leaf_other, same_page, page_same_entry,
}

-- The page of `x` is one of the first `n` from `a` on.
abbrev pub in_pages : ℕ → ℕ → ℕ → Bool
in_pages a n x = leb (a / 4096) (x / 4096) && ltb (x / 4096) (a / 4096 + n)

-- The first `n` pages from `a` on have entries for the pages from `pa` on, and all else is as before.
pub record IsMapped (v : Vm) (root a n pa perm : ℕ) (v' : Vm) : Type 0 where
  pub tree : IsTree v' root
  pub leaves :
      (x : ℕ)
      → x < maxva
      → leaf v' root x ≡ (
          if in_pages a n x
          then new_pte (pa + (x / 4096 - a / 4096) * 4096) perm
          else leaf v root x)
  pub spare : (q : ℕ) → IsSpare v root q → IsSpare v' root q
  pub bytes : v'.bytes ≡ v.bytes

-- All pages, or a part of them and no memory left.
pub data MapEnd (v : Vm) (root a n pa perm : ℕ) : ℕ → Vm → Type 0 where
  mapped : (v' : Vm) → IsMapped v root a n pa perm v' → MapEnd v root a n pa perm 0 v'
  out_of_memory :
      (k : ℕ) (v' : Vm)
      → k < n
      → IsMapped v root a k pa perm v'
      → v'.free ≡ []
      → MapEnd v root a n pa perm minus_one32 v'

-- One page.
pub store_one :
    {v v' : Vm} {root a pa perm pt : ℕ}
    → Walked v root v'
    → a < maxva
    → page v' root (low (px2 a) (px1 a)) ≡ some pt
    → IsMapped v root a 1 pa perm (set_entry pt (px0 a) (new_pte pa perm) v')
unfolding set_entry
store_one {v} {v'} {root} {a} {pa} {perm} {pt} w lt at = record {
  tree = store-IsTree w.tree (px2 a) (px1 a) pt (px0 a) (new_pte pa perm) at;
  leaves = λ x lx. elim (ℕ_discrete (x / 4096) (a / 4096)) [
    | yes e ↦
        let (e2, e1, e0) = page_same_entry x a e in
        let here : in_pages a 1 x ≡ true = ground arith in
        let off : pa + (x / 4096 - a / 4096) * 4096 ≡ pa = omega arith in
        store_leaf w.tree (px2 a) (px1 a) pt (px0 a) (new_pte pa perm) at x e2 e1 e0
        ∙ ap₂ (λ t y. if t then new_pte y perm else leaf v root x) (sym here) (sym off)
    | no ne ↦
        let there : in_pages a 1 x ≡ false = ground arith in
        store_leaf_other w.tree (px2 a) (px1 a) pt (px0 a) (new_pte pa perm) at x
          (λ q. ne (same_page x a lx lt q.0 q.1 q.2))
        ∙ w.leaves x
        ∙ ap (λ t. if t then new_pte (pa + (x / 4096 - a / 4096) * 4096) perm else leaf v root x)
            (sym there)
  ];
  spare =
      λ q s. store-IsSpare w.tree (px2 a) (px1 a) pt (px0 a) (new_pte pa perm) at q (w.spare q s);
  bytes = w.bytes;
}

-- One page, and then `k` pages.
joined :
    (f : ℕ → ℕ) (a k pa x old : ℕ)
    → a % 4096 ≡ 0
    → (if in_pages (a + 4096) k x
        then f (pa + 4096 + (x / 4096 - (a + 4096) / 4096) * 4096)
        else if in_pages a 1 x
        then f (pa + (x / 4096 - a / 4096) * 4096)
        else old)
      ≡ (if in_pages a (suc k) x then f (pa + (x / 4096 - a / 4096) * 4096) else old)
joined f a k pa x old al = elim (Bool-cases (in_pages (a + 4096) k x)) [
  | inl t ↦
      let u : in_pages a (suc k) x ≡ true = later a k x al t in
      let ge : (a + 4096) / 4096 ≤ x / 4096 = ground arith in
      let e : pa + 4096 + (x / 4096 - (a + 4096) / 4096) * 4096
          ≡ pa + (x / 4096 - a / 4096) * 4096 =
        omega arith in
      rw (t, u) (ap f e)
  | inr n ↦ let u : in_pages a 1 x ≡ in_pages a (suc k) x = first a k x al n in rw (n, u) refl
]
  where
    later :
        (a k x : ℕ) → a % 4096 ≡ 0 → in_pages (a + 4096) k x ≡ true → in_pages a (suc k) x ≡ true
    later a k x al t = ground arith

    first :
        (a k x : ℕ)
        → a % 4096 ≡ 0
        → in_pages (a + 4096) k x ≡ false
        → in_pages a 1 x ≡ in_pages a (suc k) x
    first a k x al t = ground arith

pub join :
    {v v₁ v' : Vm} {root a k pa perm : ℕ}
    → a % 4096 ≡ 0
    → IsMapped v root a 1 pa perm v₁
    → IsMapped v₁ root (a + 4096) k (pa + 4096) perm v'
    → IsMapped v root a (suc k) pa perm v'
join {v} {v₁} {v'} {root} {a} {k} {pa} {perm} al m m' = record {
  tree = m'.tree;
  leaves = λ x lx.
      m'.leaves x lx
      ∙ ap
          (λ y.
            if in_pages (a + 4096) k x
            then new_pte (pa + 4096 + (x / 4096 - (a + 4096) / 4096) * 4096) perm
            else y)
          (m.leaves x lx)
      ∙ joined (λ y. new_pte y perm) a k pa x (leaf v root x) al;
  spare = λ q s. m'.spare q (m.spare q s);
  bytes = m'.bytes ∙ m.bytes;
}

-- No page of the range is mapped.
abbrev pub IsUnmapped : Vm → ℕ → ℕ → ℕ → Type 0
IsUnmapped v root a n =
    (x : ℕ) → x < maxva → in_pages a n x ≡ true → is_valid (leaf v root x) ≡ false

pub still-IsUnmapped :
    {v v₁ : Vm} {root a pa perm : ℕ} (n : ℕ)
    → a % 4096 ≡ 0
    → IsMapped v root a 1 pa perm v₁
    → IsUnmapped v root a (suc n)
    → IsUnmapped v₁ root (a + 4096) n
still-IsUnmapped {v} {v₁} {root} {a} {pa} {perm} n al m u x lx t =
    let out : in_pages a 1 x ≡ false = ground arith in
    let inside : in_pages a (suc n) x ≡ true = ground arith in
    ap is_valid (
      m.leaves x lx
      ∙ ap (λ b. if b then new_pte (pa + (x / 4096 - a / 4096) * 4096) perm else leaf v root x) out)
    ∙ u x lx inside

pub nothing-IsMapped :
    {v v' : Vm} {root a pa perm : ℕ} → Walked v root v' → IsMapped v root a 0 pa perm v'
nothing-IsMapped {v} {v'} {root} {a} {pa} {perm} w = record {
  tree = w.tree;
  leaves = λ x lx.
      let out : in_pages a 0 x ≡ false = ground arith in
      w.leaves x
      ∙ ap (λ b. if b then new_pte (pa + (x / 4096 - a / 4096) * 4096) perm else leaf v root x)
          (sym out);
  spare = w.spare;
  bytes = w.bytes;
}
