-- ===== src/Vm/Copyin.antt =====
-- kernel/vm.c: `copyin` copies what the process has at a range of addresses.
use os_final_project.Prelude.{
  ℕ, ◌+◌, ◌-◌, ◌*◌, ◌/◌, ◌%◌, ◌≤◌, ◌<◌, ◌≡◌, ◌≢◌, refl, ap, sym, ◌∙◌, ◌⊎◌, inl, inr, true,
  Bool-cases, some, if◌then◌else◌, ltb, leb, ◌&&◌, arith, ==_iff, ==_ne, ℕ_discrete, minus_one64,
  add64,
}
use os_final_project.Vm.{Vm, pgsize, maxva, is_valid, is_user, pte2pa, walkaddr, vmfault}
use os_final_project.Vm.Tree.{leaf, IsTree}
use os_final_project.Vm.Space.{IsSpace}
use os_final_project.Vm.{resolve}
use os_final_project.Vm.Translate.{walkaddr_lem}
use os_final_project.Vm.Fault.{FaultEnd, no_page, new_page, vmfault_lem}
use os_final_project.Vm.{copy_part}
use os_final_project.Vm.User.{user_byte, user_byte_at, fault_user_byte}

-- The memory of the process is as before, byte for byte, and no page is mapped that was not and does
-- not lie below its size.
pub record IsSame (v : Vm) (root sz : ℕ) (v' : Vm) : Type 0 where
  pub space : IsSpace v' root
  pub bytes : (x : ℕ) → x < maxva → user_byte v' root x ≡ user_byte v root x
  pub within :
      (x : ℕ)
      → x < maxva
      → is_valid (leaf v' root x) ≡ true
      → (is_valid (leaf v root x) ≡ true) ⊎ (x / 4096 * 4096 < sz)

pub refl-IsSame : {v : Vm} {root sz : ℕ} → IsSpace v root → IsSame v root sz v
refl-IsSame s = record { space = s; bytes = λ x lx. refl; within = λ x lx t. inl t }

pub trans-IsSame :
    {v v₁ v₂ : Vm} {root sz : ℕ} → IsSame v root sz v₁ → IsSame v₁ root sz v₂ → IsSame v root sz v₂
trans-IsSame a b = record {
  space = b.space;
  bytes = λ x lx. b.bytes x lx ∙ a.bytes x lx;
  within = λ x lx t. elim (b.within x lx t) [ inl u ↦ a.within x lx u | inr below ↦ inr below ];
}

-- A page has been found, or the process cannot read it.
abbrev pub Resolved : Vm → ℕ → ℕ → ℕ → ℕ → Vm → Type 0
Resolved v root sz va0 pa v' =
    IsSame v root sz v'
    × (((pa ≢ 0) × (va0 < maxva) × (walkaddr root va0 v' ≡ pa))
        ⊎ ((pa ≡ 0) × (walkaddr root va0 v' ≡ 0)))

walkaddr_above : (v : Vm) (root va : ℕ) → maxva ≤ va → walkaddr root va v ≡ 0
unfolding walkaddr
walkaddr_above v root va h = let e : leb maxva va ≡ true = ground arith in rw (walkaddr, e) refl

walkaddr-leaf :
    (v v' : Vm) (root va : ℕ)
    → IsTree v root
    → IsTree v' root
    → leaf v' root va ≡ leaf v root va
    → walkaddr root va v' ≡ walkaddr root va v
walkaddr-leaf v v' root va t t' e =
    walkaddr_lem root va v' t'
    ∙ ap (λ y. if leb maxva va then 0 else if is_valid y && is_user y then pte2pa y else 0) e
    ∙ sym (walkaddr_lem root va v t)

resolve_fault :
    {v v' : Vm} {root sz va r : ℕ}
    → IsSpace v root
    → IsSpace v' root
    → va < maxva
    → walkaddr root va v ≡ 0
    → FaultEnd v root sz va r v'
    → Resolved v root sz va r v'
resolve_fault {v} {root = root} {va = va} s s' lt z (no_page v₁ why leaves bytes) = (
  record {
    space = s';
    bytes = fault_user_byte s s' lt (no_page v₁ why leaves bytes);
    within = λ x lx t. inl (sym (ap is_valid (leaves x lx)) ∙ t);
  },
  inr (refl, walkaddr-leaf v v₁ root va s.tree s'.tree (leaves va lt) ∙ z),
)
resolve_fault {v} {va = va} s s' lt z (new_page p rest v₁ inside nz free u at bytes leaves) = (
  record {
    space = s';
    bytes = fault_user_byte s s' lt (new_page p rest v₁ inside nz free u at bytes leaves);
    within = λ x lx t. elim (ℕ_discrete (x / 4096) (va / 4096)) [
      | yes e ↦ inr (omega arith)
      | no ne ↦ inl (sym (ap is_valid (leaves x lx ne)) ∙ t)
    ];
  },
  inl (nz, lt, at),
)

vmfault_above : (v : Vm) (root sz va : ℕ) → sz ≤ va → vmfault root root sz va v ≡ some (0, v)
unfolding vmfault
vmfault_above v root sz va h = let e : leb sz va ≡ true = ground arith in rw (vmfault, e) refl

pub resolve_lem :
    (v : Vm) (root sz va0 : ℕ)
    → IsSpace v root
    → sz ≤ maxva
    → (pa : ℕ) × (v' : Vm) × (resolve root root sz va0 v ≡ some (pa, v'))
      × (Resolved v root sz va0 pa v')
unfolding resolve
resolve_lem v root sz va0 s small = elim (Bool-cases (ltb va0 maxva)) [
  | inr f ↦
      let h : maxva ≤ va0 = ground arith in
      let z = walkaddr_above v root va0 h in
      (
        0,
        v,
        rw (resolve, (==_iff (walkaddr root va0 v) 0).1 z)
            (vmfault_above v root sz va0 (omega arith)),
        (refl-IsSame s, inr (refl, z)),
      )
  | inl t ↦
      let lt : va0 < maxva = ground arith in
      elim (ℕ_discrete (walkaddr root va0 v) 0) [
        | no nz ↦ (
          walkaddr root va0 v,
          v,
          rw (resolve, ==_ne (walkaddr root va0 v) 0 nz) refl,
          (refl-IsSame s, inl (nz, lt, refl)),
        )
        | yes z ↦
            let (r, v', e, s', end) = vmfault_lem root sz va0 s small in
            (
              r,
              v',
              rw (resolve, (==_iff (walkaddr root va0 v) 0).1 z) e,
              resolve_fault s s' lt z end,
            )
      ]
]

-- The end of the loop: all of the bytes, or a page of the range that the process cannot read.
pub data CopyEnd (v : Vm) (root srcva len : ℕ) (out : ℕ → ℕ) (v' : Vm) : ℕ → (ℕ → ℕ) → Type 0 where
  all_copied :
      (out' : ℕ → ℕ)
      → ((q : ℕ) → out' q ≡ (if ltb q len then user_byte v root (srcva + q) else out q))
      → CopyEnd v root srcva len out v' 0 out'
  unreadable :
      (out' : ℕ → ℕ) (x : ℕ)
      → srcva ≤ x
      → x < srcva + len
      → walkaddr root (x / pgsize * pgsize) v' ≡ 0
      → CopyEnd v root srcva len out v' minus_one64 out'

-- What the loop has done after `tot` of `len` bytes from `src` on.
pub record Copying (v : Vm) (root sz src len : ℕ) (out : ℕ → ℕ) (srcva left tot : ℕ) (out₁ : ℕ → ℕ)
    (v₁ : Vm) : Type 0 where
  pub same : IsSame v root sz v₁
  pub sum : tot + left ≡ len
  pub here : left ≢ 0 → srcva ≡ src + tot
  pub bytes : (q : ℕ) → out₁ q ≡ (if ltb q tot then user_byte v root (src + q) else out q)

copied :
    (f block old out : ℕ → ℕ) (pos len tot q : ℕ)
    → (tot ≤ q → q < tot + len → block (pos + (q - tot)) ≡ f q)
    → out q ≡ (if ltb q tot then f q else old q)
    → copy_part block pos len tot out q ≡ (if ltb q (tot + len) then f q else old q)
unfolding copy_part
copied f block old out pos len tot q h k = elim (Bool-cases (leb tot q && ltb q (tot + len))) [
  | inl t ↦
      let u : ltb q (tot + len) ≡ true = ground arith in rw (t, u) (h (ground arith) (ground arith))
  | inr n ↦ let u : ltb q (tot + len) ≡ ltb q tot = ground arith in rw (n, u) k
]

abbrev pub chunk : ℕ → ℕ → ℕ
chunk srcva left =
    if ltb left (pgsize - (srcva - srcva / pgsize * pgsize))
    then left
    else pgsize - (srcva - srcva / pgsize * pgsize)

pub chunk-le : (s l : ℕ) → chunk s l ≤ l
chunk-le s l = ground arith

chunk_fits : (s l : ℕ) → (s - s / pgsize * pgsize) + chunk s l ≤ pgsize
chunk_fits s l = ground arith

chunk_full : (s l : ℕ) → l - chunk s l ≢ 0 → chunk s l ≡ pgsize - (s - s / pgsize * pgsize)
chunk_full s l h = ground arith

-- One turn that finds its page.
pub turn :
    {v v₁ v₂ : Vm} {root sz src len srcva left tot pa : ℕ} {out out₁ : ℕ → ℕ}
    → Copying v root sz src len out srcva left tot out₁ v₁
    → left ≢ 0
    → IsSame v₁ root sz v₂
    → pa ≢ 0
    → srcva / pgsize * pgsize < maxva
    → walkaddr root (srcva / pgsize * pgsize) v₂ ≡ pa
    → Copying v root sz src len out
        (add64 (srcva / pgsize * pgsize) pgsize)
        (left - chunk srcva left)
        (tot + chunk srcva left)
        (copy_part (v₂.bytes pa) (srcva - srcva / pgsize * pgsize) (chunk srcva left) tot out₁)
        v₂
turn {v} {v₁} {v₂} {root} {sz} {src} {len} {srcva} {left} {tot} {pa} {out} {out₁} c nz same pnz lt
      at =
    record {
      same = trans-IsSame c.same same;
      sum = omega (arith, c.sum, chunk-le srcva left);
      here = λ more. omega (arith, c.here nz, chunk_full srcva left more);
      bytes = λ q.
          copied (λ q. user_byte v root (src + q)) (v₂.bytes pa) out out₁
            (srcva - srcva / pgsize * pgsize) (chunk srcva left) tot q (byte q) (c.bytes q);
    }
  where
    byte :
        (q : ℕ)
        → tot ≤ q
        → q < tot + chunk srcva left
        → v₂.bytes pa (srcva - srcva / pgsize * pgsize + (q - tot)) ≡ user_byte v root (src + q)
    byte q ge le =
        let fits = chunk_fits srcva left in
        let start = c.here nz in
        let low_enough : src + q < maxva = omega arith in
        let off : (src + q) % 4096 ≡ srcva - srcva / pgsize * pgsize + (q - tot) = omega arith in
        ap (v₂.bytes pa) (sym off)
        ∙ sym (
            user_byte_at v₂ root (srcva / pgsize * pgsize) pa (src + q) same.space.tree lt at pnz
              (omega arith))
        ∙ same.bytes (src + q) low_enough
        ∙ c.same.bytes (src + q) low_enough
