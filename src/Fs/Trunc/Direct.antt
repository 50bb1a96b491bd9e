-- ===== src/Fs/Trunc/Direct.antt =====
-- kernel/fs.c: the loop of `itrunc` over the direct blocks.
use os_final_project.Prelude.{
  ℕ, zero, suc, ◌+◌, ◌≤◌, ◌<◌, ◌≡◌, ◌≢◌, refl, sym, ◌∙◌, subst, ◌⊎◌, inl, inr, Option-cases, none,
  some, some-injective, ==_iff, ==_ne, ℕ_discrete, arith, get_or, set, length, length-set,
  get_or-set_self, get_or-set_ne,
}
use os_final_project.Fs.{Super, Disk, Inode}
use os_final_project.Fs.Bitmap.{bfree}
use os_final_project.Fs.Trunc.{free_direct}
use os_final_project.Fs.Trunc.Run.{free_run}

-- The addresses from `i` up to `k` have become 0.
pub record IsCleared (ip : Inode) (i k : ℕ) (ip' : Inode) : Type 0 where
  pub fields : ip' ≡ record ip { addrs = ip'.addrs }
  pub array : length ip'.addrs ≡ length ip.addrs
  pub zeros : (j : ℕ) → i ≤ j → j < k → get_or ip'.addrs j 0 ≡ 0
  pub others : (j : ℕ) → (j < i) ⊎ (k ≤ j) → get_or ip'.addrs j 0 ≡ get_or ip.addrs j 0

pub free_direct_lem :
    (left i : ℕ) (f : ℕ → ℕ) (sb : Super) (ip : Inode) (d d' : Disk)
    → i + left ≤ length ip.addrs
    → ((j : ℕ) → i ≤ j → j < i + left → get_or ip.addrs j 0 ≡ f j)
    → free_run left i f sb d ≡ some d'
    → (ip' : Inode) × (free_direct left i sb ip d ≡ some (ip', d')) × IsCleared ip i (i + left) ip'
unfolding free_direct free_run
free_direct_lem zero i f sb ip d d' le h e = (
  ip,
  rw (some-injective _ _ e) refl,
  record {
    fields = refl;
    array = refl;
    zeros = λ j ge lt. absurd (omega arith);
    others = λ j o. refl;
  },
)
free_direct_lem (suc left) i f sb ip d d' le h e = elim (ℕ_discrete (f i) 0) [
  | yes z ↦
      let q = h i (omega arith) (omega arith) in
      let (ip', e', c) =
        free_direct_lem left (i + 1) f sb ip d d' (omega arith)
          (λ j ge lt. h j (omega arith) (omega arith)) (rw ((==_iff (f i) 0).1 z) at e) in
      (
        ip',
        rw ((==_iff (get_or ip.addrs i 0) 0).1 (q ∙ z)) e',
        record {
          fields = c.fields;
          array = c.array;
          zeros = λ j ge lt. elim (ℕ_discrete j i) [
            | yes same ↦
                subst (λ x. get_or ip'.addrs x 0 ≡ 0) (sym same)
                  (c.others i (inl (omega arith)) ∙ q ∙ z)
            | no ne ↦ c.zeros j (omega arith) (omega arith)
          ];
          others = λ j o. c.others j (weaken i left j o);
        },
      )
  | no nz ↦ elim (Option-cases (bfree sb (f i) d)) [
    | inl n ↦ let r : none ≡ some d' = rw (==_ne (f i) 0 nz, n) at e in cc
    | inr (d₁, e₁) ↦
        let q = h i (omega arith) (omega arith) in
        let ip₁ : Inode = record ip { addrs = set ip.addrs i 0 } in
        let (ip', e', c) =
          free_direct_lem left (i + 1) f sb ip₁ d₁ d' (omega (arith, length-set ip.addrs i 0))
            (λ j ge lt.
              get_or-set_ne ip.addrs i j 0 0 (omega arith) ∙ h j (omega arith) (omega arith))
            (rw (==_ne (f i) 0 nz, e₁) at e) in
        (
          ip',
          rw (q, ==_ne (f i) 0 nz, e₁) e',
          record {
            fields = c.fields;
            array = c.array ∙ length-set ip.addrs i 0;
            zeros = λ j ge lt. elim (ℕ_discrete j i) [
              | yes same ↦
                  subst (λ x. get_or ip'.addrs x 0 ≡ 0) (sym same)
                    (c.others i (inl (omega arith)) ∙ get_or-set_self ip.addrs i 0 0 (omega arith))
              | no ne ↦ c.zeros j (omega arith) (omega arith)
            ];
            others = λ j o.
                c.others j (weaken i left j o)
                ∙ get_or-set_ne ip.addrs i j 0 0 (outside i left j o);
          },
        )
  ]
]
  where
    weaken : (i left j : ℕ) → (j < i) ⊎ (i + suc left ≤ j) → (j < i + 1) ⊎ (i + 1 + left ≤ j)
    weaken i left j o = ground arith

    outside : (i left j : ℕ) → (j < i) ⊎ (i + suc left ≤ j) → i ≢ j
    outside i left j o e = ground arith
