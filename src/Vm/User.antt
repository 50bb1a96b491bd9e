-- ===== src/Vm/User.antt =====
-- kernel/vm.c: the memory of a process, where pages that are not there yet read as zeros.
use os_final_project.Prelude.{
  ℕ, ◌*◌, ◌/◌, ◌%◌, ◌<◌, ◌≡◌, ◌≢◌, refl, ap, ap₂, sym, ◌∙◌, subst, inl, inr, Bool, true, false,
  Bool-cases, if◌then◌else◌, leb, ◌&&◌, arith, ℕ_discrete, update_ne, update_self, NotIn,
}
use os_final_project.Vm.{Vm, pgsize, maxva, is_valid, is_user, pte2pa, walkaddr}
use os_final_project.Vm.Tree.{leaf, IsTree}
use os_final_project.Vm.Translate.{leaf_page}
use os_final_project.Vm.Space.{IsSpace}
use os_final_project.Vm.Translate.{walkaddr_lem}
use os_final_project.Vm.Fault.{FaultEnd, no_page, new_page}

-- Whether the process may read the address.
abbrev pub readable : Vm → ℕ → ℕ → Bool
readable v root x = is_valid (leaf v root x) && is_user (leaf v root x)

-- The byte at an address.
unfoldable pub user_byte : Vm → ℕ → ℕ → ℕ
user_byte v root x = if readable v root x then v.bytes (pte2pa (leaf v root x)) (x % 4096) else 0

-- A page of the process is not free.
mapped_taken :
    {v : Vm} {root : ℕ} (x : ℕ)
    → IsSpace v root
    → x < maxva
    → is_valid (leaf v root x) ≡ true
    → NotIn (pte2pa (leaf v root x)) v.free
mapped_taken x s lx u = (s.spare x lx u).0

-- The byte over a change that keeps the entry, and the page if it is mapped.
same_byte :
    (v v' : Vm) (root x : ℕ)
    → leaf v' root x ≡ leaf v root x
    → (is_valid (leaf v root x) ≡ true
        → v'.bytes (pte2pa (leaf v root x)) ≡ v.bytes (pte2pa (leaf v root x)))
    → user_byte v' root x ≡ user_byte v root x
unfolding user_byte
same_byte v v' root x e b =
    ap (λ y. if is_valid y && is_user y then v'.bytes (pte2pa y) (x % 4096) else 0) e
    ∙ elim (Bool-cases (is_valid (leaf v root x))) [
      | inl t ↦ ap (λ f. if readable v root x then f (x % 4096) else 0) (b t)
      | inr f ↦ rw (f) refl
    ]

-- An address for which `walkaddr` gives a page.
pub walkaddr_readable :
    (v : Vm) (root x p : ℕ)
    → IsTree v root
    → x < maxva
    → walkaddr root x v ≡ p
    → p ≢ 0
    → (readable v root x ≡ true) × (pte2pa (leaf v root x) ≡ p)
walkaddr_readable v root x p t lx e nz =
    let below : leb maxva x ≡ false = ground arith in
    let q : (if readable v root x then pte2pa (leaf v root x) else 0) ≡ p =
      sym (ap (λ b. if b then 0 else if readable v root x then pte2pa (leaf v root x) else 0) below)
      ∙ sym (walkaddr_lem root x v t)
      ∙ e in
    elim (Bool-cases (readable v root x)) [
      | inl u ↦ (u, rw (u) at q)
      | inr f ↦ absurd (nz (sym (rw (f) at q)))
    ]

-- The bytes of a page that `walkaddr` gives.
pub user_byte_at :
    (v : Vm) (root va p x : ℕ)
    → IsTree v root
    → va < maxva
    → walkaddr root va v ≡ p
    → p ≢ 0
    → x / 4096 ≡ va / 4096
    → user_byte v root x ≡ v.bytes p (x % 4096)
unfolding user_byte
user_byte_at v root va p x t lt e nz same =
    let (u, q) = walkaddr_readable v root va p t lt e nz in
    ap (λ y. if is_valid y && is_user y then v.bytes (pte2pa y) (x % 4096) else 0)
      (leaf_page v root x va same)
    ∙ ap₂ (λ b y. if b then v.bytes y (x % 4096) else 0) u q

user_byte_none : (v : Vm) (root x : ℕ) → is_valid (leaf v root x) ≡ false → user_byte v root x ≡ 0
unfolding user_byte
user_byte_none v root x f = rw (user_byte, f) refl

-- `vmfault` changes no byte.
pub fault_user_byte :
    {v v' : Vm} {root sz va r : ℕ}
    → IsSpace v root
    → IsSpace v' root
    → va < maxva
    → FaultEnd v root sz va r v'
    → (x : ℕ) → x < maxva
    → user_byte v' root x ≡ user_byte v root x
fault_user_byte {v} s s' lt (no_page v₁ why leaves bytes) x lx =
    same_byte v v₁ _ x (leaves x lx) (λ u. bytes _ (mapped_taken x s lx u))
fault_user_byte {v} {root = root} {va = va} s s' lt
      (new_page p rest v₁ inside nz free u at bytes leaves) x lx =
    elim (ℕ_discrete (x / 4096) (va / 4096)) [
      | no ne ↦ same_byte v v₁ root x (leaves x lx ne) (λ t.
          ap (λ f. f (pte2pa (leaf v root x))) bytes
          ∙ update_ne v.bytes p _ (λ i. 0)
              (λ e.
                (subst (NotIn (pte2pa (leaf v root x))) free (mapped_taken x s lx t)).0 (sym e)))
      | yes e ↦
          user_byte_at v₁ root va p x s'.tree lt at nz e
          ∙ ap (λ f. f p (x % 4096)) bytes
          ∙ ap (λ f. f (x % 4096)) (update_self v.bytes p (λ i. 0))
          ∙ sym (
              user_byte_none v root x
                (ap is_valid (leaf_page v root x (va / pgsize * pgsize) (omega arith)) ∙ u))
    ]
