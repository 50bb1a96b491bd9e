-- ===== src/Fs/Trunc/Laws.antt =====
-- kernel/fs.c: the indirect part of `itrunc`.
use os_final_project.Prelude.{
  ℕ, zero, suc, ◌+◌, ◌-◌, ◌≤◌, ◌<◌, ◌≡◌, ◌≢◌, refl, ap, ap₂, sym, ◌∙◌, subst, ◌⊎◌, inl, inr,
  Option-cases, none, some, some-injective, ◌==◌, if◌then◌else◌, ==_iff, ==_ne, ℕ_discrete, arith,
  get_or, set, length, length-set, get_or-set_self, get_or-set_ne,
}
use os_final_project.Fs.{Super, Disk, Inode, ndirect, nindirect, maxfile}
use os_final_project.Fs.Bitmap.{bfree}
use os_final_project.Fs.Bitmap.Free.{bfree-some}
use os_final_project.Fs.Trunc.{free_indirect}
use os_final_project.Fs.Trunc.Run.{free_run, free_entries_lem}
use os_final_project.Fs.Trunc.Direct.{IsCleared}

-- A run in two parts.
pub split_run :
    (m n j : ℕ) (f : ℕ → ℕ) (sb : Super) (d d' : Disk)
    → free_run (m + n) j f sb d ≡ some d'
    → (d₁ : Disk) × (free_run m j f sb d ≡ some d₁) × (free_run n (j + m) f sb d₁ ≡ some d')
unfolding free_run
split_run zero n j f sb d d' e =
    let z : 0 + n ≡ n = omega arith in
    let z' : j + 0 ≡ j = omega arith in (d, refl, ap₂ (λ x y. free_run x y f sb d) (sym z) z' ∙ e)
split_run (suc m) n j f sb d d' e =
    let s : suc m + n ≡ suc (m + n) = omega arith in
    let s' : j + 1 + m ≡ j + suc m = omega arith in
    let e' : free_run (suc (m + n)) j f sb d ≡ some d' =
      ap (λ x. free_run x j f sb d) (sym s) ∙ e in
    elim (ℕ_discrete (f j) 0) [
      | yes z ↦
          let t = (==_iff (f j) 0).1 z in
          let (d₁, a, b) = split_run m n (j + 1) f sb d d' (rw (t) at e') in
          (d₁, rw (t) a, ap (λ x. free_run n x f sb d₁) (sym s') ∙ b)
      | no nz ↦ elim (Option-cases (bfree sb (f j) d)) [
        | inl no_block ↦ let r : none ≡ some d' = rw (==_ne (f j) 0 nz, no_block) at e' in cc
        | inr (d₂, e₂) ↦
            let t = ==_ne (f j) 0 nz in
            let (d₁, a, b) = split_run m n (j + 1) f sb d₂ d' (rw (t, e₂) at e') in
            (d₁, rw (t, e₂) a, ap (λ x. free_run n x f sb d₁) (sym s') ∙ b)
      ]
    ]

pub free_run_words :
    (left j : ℕ) (f : ℕ → ℕ) (sb : Super) (d d' : Disk)
    → free_run left j f sb d ≡ some d'
    → d'.words ≡ d.words
unfolding free_run
free_run_words zero j f sb d d' e = ap (λ (x : Disk). x.words) (sym (some-injective _ _ e))
free_run_words (suc left) j f sb d d' e = elim (ℕ_discrete (f j) 0) [
  | yes z ↦ free_run_words left (j + 1) f sb d d' (rw ((==_iff (f j) 0).1 z) at e)
  | no nz ↦ elim (Option-cases (bfree sb (f j) d)) [
    | inl n ↦ let r : none ≡ some d' = rw (==_ne (f j) 0 nz, n) at e in cc
    | inr (d₁, e₁) ↦
        free_run_words left (j + 1) f sb d₁ d' (rw (==_ne (f j) 0 nz, e₁) at e)
        ∙ (bfree-some (f j) e₁).words
  ]
]

-- Empty slots are passed over.
free_run_none :
    (left j : ℕ) (f : ℕ → ℕ) (sb : Super) (d : Disk)
    → ((i : ℕ) → j ≤ i → i < j + left → f i ≡ 0)
    → free_run left j f sb d ≡ some d
unfolding free_run
free_run_none zero j f sb d h = refl
free_run_none (suc left) j f sb d h =
    rw ((==_iff (f j) 0).1 (h j (omega arith) (omega arith)))
      (free_run_none left (j + 1) f sb d (λ i ge lt. h i (omega arith) (omega arith)))

-- One slot.
free_run_one :
    (j : ℕ) (f : ℕ → ℕ) (sb : Super) (d d' : Disk)
    → f j ≢ 0
    → free_run 1 j f sb d ≡ some d'
    → bfree sb (f j) d ≡ some d'
unfolding free_run
free_run_one j f sb d d' nz e = elim (Option-cases (bfree sb (f j) d)) [
  | inl n ↦ let r : none ≡ some d' = rw (==_ne (f j) 0 nz, n) at e in cc
  | inr (d₁, e₁) ↦ let r : some d₁ ≡ some d' = rw (==_ne (f j) 0 nz, e₁) at e in e₁ ∙ r
]

pub free_indirect_lem :
    (f : ℕ → ℕ) (sb : Super) (ip : Inode) (d d' : Disk)
    → ndirect < length ip.addrs
    → f maxfile ≡ get_or ip.addrs ndirect 0
    → ((i : ℕ)
        → i < nindirect
        → f (ndirect + i)
          ≡ (if get_or ip.addrs ndirect 0 == 0 then 0 else d.words (get_or ip.addrs ndirect 0) i))
    → free_run (nindirect + 1) ndirect f sb d ≡ some d'
    → (ip' : Inode) × (free_indirect sb ip d ≡ some (ip', d'))
      × IsCleared ip ndirect (ndirect + 1) ip'
unfolding free_indirect
free_indirect_lem f sb ip d d' le last entry e = elim (ℕ_discrete (get_or ip.addrs ndirect 0) 0) [
  | yes z ↦
      let t = (==_iff (get_or ip.addrs ndirect 0) 0).1 z in
      let none_left : (i : ℕ) → ndirect ≤ i → i < ndirect + (nindirect + 1) → f i ≡ 0 = λ i ge lt.
        elim (ℕ_discrete i maxfile) [
          | yes q ↦ ap f q ∙ last ∙ z
          | no ne ↦
              let s : ndirect + (i - ndirect) ≡ i = omega arith in
              subst (λ x. f x ≡ 0) s
                (entry (i - ndirect) (omega arith)
                  ∙ ap (λ b. if b then 0 else d.words (get_or ip.addrs ndirect 0) (i - ndirect)) t)
        ] in
      let same : d ≡ d' =
        some-injective _ _ (sym (free_run_none (nindirect + 1) ndirect f sb d none_left) ∙ e) in
      (
        ip,
        rw (t) (ap (λ x. some (ip, x)) same),
        record {
          fields = refl;
          array = refl;
          zeros = λ j ge lt. subst (λ x. get_or ip.addrs x 0 ≡ 0) (omega arith) z;
          others = λ j o. refl;
        },
      )
  | no nz ↦
      let t = ==_ne (get_or ip.addrs ndirect 0) 0 nz in
      let (d₁, a, b) = split_run nindirect 1 ndirect f sb d d' e in
      let entries =
        free_entries_lem nindirect 0 ndirect (get_or ip.addrs ndirect 0) f sb d d₁
          (λ i lt.
            sym (entry i lt ∙ ap (λ b. if b then 0 else d.words (get_or ip.addrs ndirect 0) i) t))
          a in
      let block = free_run_one maxfile f sb d₁ d' (λ z. nz (sym last ∙ z)) b in
      let block' : bfree sb (get_or ip.addrs ndirect 0) d₁ ≡ some d' =
        ap (λ x. bfree sb x d₁) (sym last) ∙ block in
      (
        record ip { addrs = set ip.addrs ndirect 0 },
        rw (t, entries, block') refl,
        record {
          fields = refl;
          array = length-set ip.addrs ndirect 0;
          zeros = λ j ge lt.
              subst (λ x. get_or (set ip.addrs ndirect 0) x 0 ≡ 0) (omega arith)
                (get_or-set_self ip.addrs ndirect 0 0 le);
          others = λ j o. get_or-set_ne ip.addrs ndirect j 0 0 (other j o);
        },
      )
]
  where
    other : (j : ℕ) → (j < ndirect) ⊎ (ndirect + 1 ≤ j) → ndirect ≢ j
    other j o = ground arith
