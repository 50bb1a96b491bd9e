-- ===== src/Vm/Fault.antt =====
-- kernel/vm.c: `vmfault` on all of its branches.
use os_final_project.Prelude.{
  ℕ, ◌+◌, ◌-◌, ◌*◌, ◌/◌, ◌≤◌, ◌<◌, ◌≡◌, ◌≢◌, refl, ap, sym, ◌∙◌, subst, ◌⊎◌, inl, inr, true, false,
  Bool-cases, Option, some, List, [], ◌∷◌, if◌then◌else◌, leb, arith, update, update_ne, NotIn,
  length,
}
use os_final_project.Vm.{
  Vm, pgsize, maxva, is_valid, walkaddr, new_pte, mappages, clear_page, free_page, rwu,
  fault_mapped, fault_page, vmfault,
}
use os_final_project.Vm.Tree.{leaf}
use os_final_project.Vm.Map.{in_pages, IsMapped, IsUnmapped, MapEnd, mapped, out_of_memory}
use os_final_project.Vm.Pages.{mappages_lem}
use os_final_project.Vm.Translate.{ismapped_lem, walkaddr-mapped, leaf_page}
use os_final_project.Vm.Space.{
  IsSpace, cleared-leaf, cleared-IsTree, frame, mapped-IsSpace, back-IsSpace, back-leaf,
}

-- Why `vmfault` maps nothing: the address is not below the size, it is mapped, or the pages have run out,
-- but for the one that is given back.
abbrev pub Refused : Vm → ℕ → ℕ → ℕ → Vm → Type 0
Refused v root sz va v' =
    (sz ≤ va) ⊎ (is_valid (leaf v root (va / pgsize * pgsize)) ≡ true) ⊎ (length v'.free ≤ 1)

-- The outcome of `vmfault`: nothing is mapped, or a page that was free is mapped at the page of `va`, and is zero.
pub data FaultEnd (v : Vm) (root sz va : ℕ) : ℕ → Vm → Type 0 where
  no_page :
      (v' : Vm)
      → Refused v root sz va v'
      → ((x : ℕ) → x < maxva → leaf v' root x ≡ leaf v root x)
      → ((q : ℕ) → NotIn q v.free → v'.bytes q ≡ v.bytes q)
      → FaultEnd v root sz va 0 v'
  new_page :
      (p : ℕ) (rest : List ℕ) (v' : Vm)
      → va < sz
      → p ≢ 0
      → v.free ≡ p ∷ rest
      → is_valid (leaf v root (va / pgsize * pgsize)) ≡ false
      → walkaddr root va v' ≡ p
      → v'.bytes ≡ update v.bytes p (λ i. 0)
      → ((x : ℕ) → x < maxva → x / 4096 ≢ va / 4096 → leaf v' root x ≡ leaf v root x)
      → FaultEnd v root sz va p v'

-- What is claimed of a step that gives `o`.
abbrev Faults : Vm → ℕ → ℕ → ℕ → Option (ℕ × Vm) → Type 0
Faults v root sz va o =
    (r : ℕ) × (v' : Vm) × (o ≡ some (r, v')) × IsSpace v' root × FaultEnd v root sz va r v'

-- The choice of `fault_page`.
abbrev taken : ℕ → ℕ → Vm → List ℕ → Option (ℕ × Vm)
taken root va v [] = some (0, v)
taken root va v (p ∷ rest) =
    fault_mapped p (mappages root (va / pgsize * pgsize) pgsize p rwu (clear_page p rest v))

module _ {v : Vm} (root sz va p : ℕ) (rest : List ℕ) (s : IsSpace v root) (free : v.free ≡ p ∷ rest)
    (inside : va < sz) (lt : va < maxva)
    (u : is_valid (leaf v root (va / pgsize * pgsize)) ≡ false) where
  page_of : (x : ℕ) → x / 4096 ≢ va / 4096 → in_pages (va / pgsize * pgsize) 1 x ≡ false
  page_of x ne = ground arith

  mapped_fault :
      {r : ℕ} {v' : Vm}
      → MapEnd (clear_page p rest v) root (va / pgsize * pgsize) 1 p rwu r v'
      → Faults v root sz va (fault_mapped p (some (r, v')))
  unfolding fault_mapped clear_page free_page
  mapped_fault (mapped v' m) = (
    p,
    v',
    refl,
    mapped-IsSpace s free m,
    new_page p rest v' inside (frame s free).1 free u here m.bytes (λ x lx ne.
        m.leaves x lx
        ∙ ap
            (λ t.
              if t
              then new_pte (p + (x / 4096 - va / pgsize * pgsize / 4096) * 4096) rwu
              else leaf (clear_page p rest v) root x)
            (page_of x ne)
        ∙ cleared-leaf s free x),
  )
    where
      here : walkaddr root va v' ≡ p
      here =
          let inside : in_pages (va / pgsize * pgsize) 1 va ≡ true = ground arith in
          let top = (frame s free).2 in
          walkaddr-mapped va m (frame s free).0 (omega arith) (omega arith) (omega arith) lt inside
          ∙ (omega arith)
  mapped_fault (out_of_memory k v' less m z) =
      let m0 =
        subst (λ k. IsMapped (clear_page p rest v) root (va / pgsize * pgsize) k p rwu v')
          (omega arith) m in
      (
        0,
        free_page p v',
        refl,
        back-IsSpace s free m0 z,
        no_page (free_page p v') (inr (inr (omega (arith, ap (λ xs. length xs) z))))
            (back-leaf s free m0 z)
            (λ q n.
              ap (λ f. f q) m0.bytes
              ∙ update_ne v.bytes p q (λ i. 0) (λ e. (subst (NotIn q) free n).0 (sym e))),
      )

  unmapped : IsUnmapped (clear_page p rest v) root (va / pgsize * pgsize) 1
  unmapped x lx inside =
      ap is_valid (cleared-leaf s free x ∙ leaf_page v root x (va / pgsize * pgsize) (ground arith))
      ∙ u

  fault_new : Faults v root sz va (fault_page root (va / pgsize * pgsize) v)
  unfolding fault_page
  fault_new =
      let (r, v', e, end) =
        mappages_lem root (va / pgsize * pgsize) 0 p rwu (clear_page p rest v)
          (cleared-IsTree s free) (omega arith) (omega arith) (omega (arith, (frame s free).2))
          unmapped in
      let (r', v'', e', t, o) = mapped_fault end in
      (r', v'', ap (taken root va v) free ∙ ap (fault_mapped p) e ∙ e', t, o)

fault_none :
    (v : Vm) (root sz va : ℕ)
    → IsSpace v root
    → v.free ≡ []
    → Faults v root sz va (fault_page root (va / pgsize * pgsize) v)
unfolding fault_page
fault_none v root sz va s free = (
  0,
  v,
  ap (taken root va v) free,
  s,
  no_page v (inr (inr (omega (arith, ap (λ xs. length xs) free)))) (λ x lx. refl) (λ q n. refl),
)

pub list_cases : (xs : List ℕ) → (xs ≡ []) ⊎ ((x : ℕ) × (rest : List ℕ) × (xs ≡ x ∷ rest))
list_cases [] = inl refl
list_cases (x ∷ rest) = inr (x, rest, refl)

-- For an address space in which no physical page is mapped twice, free, or a page table, and a process
-- whose memory ends below MAXVA, with its own page table: `vmfault` does not panic and keeps the address space so. It maps nothing and
-- returns 0, for an address that is not below the size of the process, for one whose page is mapped, or when
-- at most one page is left free; or it takes a page that was free, fills it with zeros, and maps it at the
-- page of the address, which is below the size and was not mapped; then `walkaddr` gives the page it
-- returns, and no other entry changes.
pub vmfault_lem :
    {v : Vm} (root sz va : ℕ)
    → IsSpace v root
    → sz ≤ maxva
    → (r : ℕ) × (v' : Vm) × (vmfault root root sz va v ≡ some (r, v'))
      × IsSpace v' root
      × FaultEnd v root sz va r v'
unfolding vmfault
vmfault_lem {v} root sz va s small = elim (Bool-cases (leb sz va)) [
  | inl out ↦ (0, v, rw (out) refl, s, no_page v (inl (ground arith)) (λ x lx. refl) (λ q n. refl))
  | inr inside ↦
      let lt : va < maxva = ground arith in
      let known = ismapped_lem root (va / pgsize * pgsize) v s.tree (omega arith) in
      elim (Bool-cases (is_valid (leaf v root (va / pgsize * pgsize)))) [
        | inl t ↦ (
          0,
          v,
          rw (inside, known ∙ ap some t) refl,
          s,
          no_page v (inr (inl t)) (λ x lx. refl) (λ q n. refl),
        )
        | inr u ↦
            let (r, v', e, t, o) = faults root sz va s (ground arith) lt u in
            (r, v', rw (inside, known ∙ ap some u) e, t, o)
      ]
]
  where
    faults :
        (root sz va : ℕ)
        → IsSpace v root
        → va < sz
        → va < maxva
        → is_valid (leaf v root (va / pgsize * pgsize)) ≡ false
        → Faults v root sz va (fault_page root (va / pgsize * pgsize) v)
    faults root sz va s below lt u = elim (list_cases v.free) [
      | inl z ↦ fault_none v root sz va s z
      | inr (p, rest, free) ↦ fault_new root sz va p rest s free below lt u
    ]
