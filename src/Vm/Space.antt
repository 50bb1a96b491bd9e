-- ===== src/Vm/Space.antt =====
-- kernel/vm.c: an address space in which no physical page is mapped twice, free, or a page table; `vmfault` adds a
-- page to it.
use os_final_project.Prelude.{
  ℕ, ◌+◌, ◌-◌, ◌*◌, ◌/◌, ◌<◌, ◌≡◌, ◌≢◌, refl, ap, ap₂, sym, ◌∙◌, subst, ◌⊎◌, inl, inr, true, false,
  some, List, [], ◌∷◌, if◌then◌else◌, arith, ℕ_discrete, NotIn, Distinct, All,
}
use os_final_project.Vm.{Vm, maxva, is_valid, pte2pa, new_pte, clear_page, free_page, rwu}
use os_final_project.Vm.Tree.{page, leaf, IsFrame, IsTree, IsSpare, page-entries, leaf-entries}
use os_final_project.Vm.Map.{in_pages, IsMapped}
use os_final_project.Vm.Translate.{new_pte_lem}

pub record IsSpace (v : Vm) (root : ℕ) : Type 0 where
  pub tree : IsTree v root
  pub spare :
      (x : ℕ)
      → x < maxva
      → is_valid (leaf v root x) ≡ true
      → IsSpare v root (pte2pa (leaf v root x))
  pub apart :
      (x y : ℕ)
      → x < maxva
      → y < maxva
      → is_valid (leaf v root x) ≡ true
      → is_valid (leaf v root y) ≡ true
      → pte2pa (leaf v root x) ≡ pte2pa (leaf v root y)
      → x / 4096 ≡ y / 4096

-- A page that is taken from the allocator.
module _ {v : Vm} {root p : ℕ} {rest : List ℕ} (s : IsSpace v root) (free : v.free ≡ p ∷ rest) where
  abbrev pub cleared : Vm
  cleared = clear_page p rest v

  cleared-page : (m : _) → page cleared root m ≡ page v root m
  unfolding clear_page
  cleared-page m = page-entries cleared v root m refl

  pub cleared-leaf : (x : ℕ) → leaf cleared root x ≡ leaf v root x
  unfolding clear_page
  cleared-leaf x = leaf-entries cleared v root x refl

  pub cleared-IsTree : IsTree cleared root
  unfolding clear_page
  cleared-IsTree = record {
    apart = λ m n q e e'. s.tree.apart m n q (sym (cleared-page m) ∙ e) (sym (cleared-page n) ∙ e');
    taken = λ m q e. (subst (NotIn q) free (s.tree.taken m q (sym (cleared-page m) ∙ e))).1;
    distinct = (subst Distinct free s.tree.distinct).1;
    frames = (subst (All IsFrame) free s.tree.frames).1;
  }

  pub frame : IsFrame p
  frame = (subst (All IsFrame) free s.tree.frames).0

  -- The page itself, and the pages that are mapped.
  pub new-IsSpare : IsSpare cleared root p
  unfolding clear_page
  new-IsSpare = (
    (subst Distinct free s.tree.distinct).0,
    λ m e. (subst (NotIn p) free (s.tree.taken m p (sym (cleared-page m) ∙ e))).0 refl,
  )

  pub old-IsSpare :
      (x : ℕ)
      → x < maxva
      → is_valid (leaf v root x) ≡ true
      → IsSpare cleared root (pte2pa (leaf v root x)) × (p ≢ pte2pa (leaf v root x))
  unfolding clear_page
  old-IsSpare x lx u =
      let (n, out) = s.spare x lx u in
      let n' = subst (NotIn (pte2pa (leaf v root x))) free n in
      ((n'.1, λ m e. out m (sym (cleared-page m) ∙ e)), n'.0)

  module _ {v' : Vm} {va : ℕ} (m : IsMapped cleared root va 1 p rwu v') where
    -- The page of `va` has the new entry, the others theirs.
    new_leaf :
        (x : ℕ)
        → x < maxva
        → ((x / 4096 ≡ va / 4096) × (leaf v' root x ≡ new_pte p rwu))
          ⊎ ((x / 4096 ≢ va / 4096) × (leaf v' root x ≡ leaf v root x))
    new_leaf x lx = elim (ℕ_discrete (x / 4096) (va / 4096)) [
      | yes e ↦
          let here : in_pages va 1 x ≡ true = ground arith in
          let off : p + (x / 4096 - va / 4096) * 4096 ≡ p = omega arith in
          inl (
            e,
            m.leaves x lx ∙ ap₂ (λ t y. if t then new_pte y rwu else leaf cleared root x) here off,
          )
      | no ne ↦
          let there : in_pages va 1 x ≡ false = ground arith in
          inr (
            ne,
            m.leaves x lx
                ∙ ap
                    (λ t.
                      if t
                      then new_pte (p + (x / 4096 - va / 4096) * 4096) rwu
                      else leaf cleared root x)
                    there
                ∙ cleared-leaf x,
          )
    ]

    new_page : pte2pa (new_pte p rwu) ≡ p
    new_page = (new_pte_lem p rwu frame.0 frame.2 (omega arith)).1

    pub mapped-IsSpace : IsSpace v' root
    mapped-IsSpace = record {
      tree = m.tree;
      spare = λ x lx u. elim (new_leaf x lx) [
        | inl (_, e) ↦
            subst (IsSpare v' root) (sym (ap pte2pa e ∙ new_page)) (m.spare p new-IsSpare)
        | inr (_, e) ↦
            subst (λ q. IsSpare v' root (pte2pa q)) (sym e)
              (m.spare _ (old-IsSpare x lx (ap is_valid (sym e) ∙ u)).0)
      ];
      apart = λ x y lx ly u u' q. elim (new_leaf x lx) [
        | inl (ex, e) ↦ elim (new_leaf y ly) [
          | inl (ey, _) ↦ ex ∙ sym ey
          | inr (_, e') ↦ absurd (
              (old-IsSpare y ly (ap is_valid (sym e') ∙ u')).1
                (sym new_page ∙ ap pte2pa (sym e) ∙ q ∙ ap pte2pa e'))
        ]
        | inr (_, e) ↦ elim (new_leaf y ly) [
          | inl (_, e') ↦ absurd (
              (old-IsSpare x lx (ap is_valid (sym e) ∙ u)).1
                (sym new_page ∙ ap pte2pa (sym e') ∙ sym q ∙ ap pte2pa e))
          | inr (_, e') ↦
              s.apart x y lx ly (ap is_valid (sym e) ∙ u) (ap is_valid (sym e') ∙ u')
                (ap pte2pa (sym e) ∙ q ∙ ap pte2pa e')
        ]
      ];
    }

  -- The page is given back, since there was none for a page table.
  module _ {v' : Vm} {va : ℕ} (m : IsMapped cleared root va 0 p rwu v')
      (none_left : v'.free ≡ []) where
    abbrev back : Vm
    back = free_page p v'

    back-page : (n : _) → page back root n ≡ page v' root n
    unfolding free_page
    back-page n = page-entries back v' root n refl

    pub back-leaf : (x : ℕ) → x < maxva → leaf back root x ≡ leaf v root x
    unfolding free_page
    back-leaf x lx =
        let out : in_pages va 0 x ≡ false = ground arith in
        leaf-entries back v' root x refl
        ∙ m.leaves x lx
        ∙ ap
            (λ t.
              if t then new_pte (p + (x / 4096 - va / 4096) * 4096) rwu else leaf cleared root x)
            out
        ∙ cleared-leaf x

    -- A page apart from `p` and from the tree.
    back-IsSpare : (q : ℕ) → IsSpare cleared root q → p ≢ q → IsSpare back root q
    unfolding free_page
    back-IsSpare q o ne =
        let (_, out) = m.spare q o in
        (
          subst (NotIn q) (ap (λ f. p ∷ f) (sym none_left)) (ne, tt),
          λ n e. out n (sym (back-page n) ∙ e),
        )

    pub back-IsSpace : IsSpace back root
    unfolding free_page
    back-IsSpace = record {
      tree = record {
        apart = λ i n q e e'. m.tree.apart i n q (sym (back-page i) ∙ e) (sym (back-page n) ∙ e');
        taken = λ i q e.
            subst (NotIn q) (ap (λ f. p ∷ f) (sym none_left))
              ((λ z. (m.spare p new-IsSpare).1 i (sym (back-page i) ∙ e ∙ ap some (sym z))), tt);
        distinct = subst Distinct (ap (λ f. p ∷ f) (sym none_left)) (tt, tt);
        frames = subst (All IsFrame) (ap (λ f. p ∷ f) (sym none_left)) (frame, tt);
      };
      spare = λ x lx u.
          let e = back-leaf x lx in
          let (o, ne) = old-IsSpare x lx (ap is_valid (sym e) ∙ u) in
          subst (λ q. IsSpare back root (pte2pa q)) (sym e) (back-IsSpare _ o ne);
      apart = λ x y lx ly u u' q.
          let e = back-leaf x lx in
          let e' = back-leaf y ly in
          s.apart x y lx ly (ap is_valid (sym e) ∙ u) (ap is_valid (sym e') ∙ u')
            (ap pte2pa (sym e) ∙ q ∙ ap pte2pa e');
    }
