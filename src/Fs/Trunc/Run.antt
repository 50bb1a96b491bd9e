-- ===== src/Fs/Trunc/Run.antt =====
-- kernel/fs.c: the calls of `bfree` in `itrunc` as one run over the table of an inode's blocks.
use os_final_project.Prelude.{
  ℕ, zero, suc, ◌+◌, ◌≤◌, ◌<◌, ◌≡◌, ◌≢◌, refl, ap, sym, ◌∙◌, subst, ◌⊎◌, inl, inr, Bool, true,
  false, Option, Option-cases, none, some, ◌==◌, if◌then◌else◌, ==_iff, ==_ne, ℕ_discrete, arith,
}
use os_final_project.Fs.{Super, Disk}
use os_final_project.Fs.Bitmap.{bfree}
use os_final_project.Fs.Bitmap.Laws.{is_used}
use os_final_project.Fs.Bitmap.Free.{bfree_used, bfree-some}
use os_final_project.Fs.Trunc.{free_entries}

-- The blocks in the slots from `j` on, `left` of them, are freed in order.
unfoldable pub free_run : ℕ → ℕ → (ℕ → ℕ) → Super → Disk → Option Disk
free_run zero j f sb d = some d
free_run (suc left) j f sb d =
    if f j == 0
    then free_run left (j + 1) f sb d
    else elim (bfree sb (f j) d) [ none ↦ none | some d' ↦ free_run left (j + 1) f sb d' ]

-- The slots from `j` up to `k` hold marked blocks, no two of them the same.
pub record IsPart (used : ℕ → Bool) (f : ℕ → ℕ) (j k : ℕ) : Type 0 where
  pub marked : (i : ℕ) → j ≤ i → i < k → f i ≢ 0 → used (f i) ≡ true
  pub apart : (i i' : ℕ) → j ≤ i → i < i' → i' < k → f i ≢ 0 → f i ≢ f i'

-- They are free now, and nothing else has changed.
pub record IsReleased (sb : Super) (d : Disk) (f : ℕ → ℕ) (j k : ℕ) (d' : Disk) : Type 0 where
  pub freed : (i : ℕ) → j ≤ i → i < k → f i ≢ 0 → is_used sb d' (f i) ≡ false
  pub others :
      (c : ℕ) → ((i : ℕ) → j ≤ i → i < k → f i ≢ 0 → f i ≢ c) → is_used sb d' c ≡ is_used sb d c
  pub bytes : d'.bytes ≡ d.bytes
  pub words : d'.words ≡ d.words
  pub dinodes : d'.dinodes ≡ d.dinodes

-- A run over such slots meets no free block.
pub free_run_lem :
    (left j : ℕ) (f : ℕ → ℕ) (sb : Super) (d : Disk)
    → IsPart (is_used sb d) f j (j + left)
    → (d' : Disk) × (free_run left j f sb d ≡ some d') × IsReleased sb d f j (j + left) d'
unfolding free_run
free_run_lem zero j f sb d p = (
  d,
  refl,
  record {
    freed = λ i le lt. absurd (omega arith);
    others = λ c h. refl;
    bytes = refl;
    words = refl;
    dinodes = refl;
  },
)
free_run_lem (suc left) j f sb d p = elim (ℕ_discrete (f j) 0) [
  | yes z ↦
      let (d', e, r) = free_run_lem left (j + 1) f sb d (record {
        marked = λ i le lt. p.marked i (omega arith) (omega arith);
        apart = λ i i' le lt lt'. p.apart i i' (omega arith) lt (omega arith);
      }) in
      (
        d',
        rw ((==_iff (f j) 0).1 z) e,
        record {
          freed = λ i le lt nz.
              r.freed i (omega (arith, differs i j (λ q. nz (ap f q ∙ z)))) (omega arith) nz;
          others = λ c h. r.others c (λ i le lt. h i (omega arith) (omega arith));
          bytes = r.bytes;
          words = r.words;
          dinodes = r.dinodes;
        },
      )
  | no nz ↦
      let (d₁, e₁, b) = bfree_used sb d (f j) (p.marked j (omega arith) (omega arith) nz) in
      let (d', e, r) = free_run_lem left (j + 1) f sb d₁ (record {
        marked = λ i le lt nz'.
            b.marked (f i)
            ∙ ap (λ t. if t then false else is_used sb d (f i))
                (==_ne (f i) (f j)
                  (λ q. p.apart j i (omega arith) (omega arith) (omega arith) nz (sym q)))
            ∙ p.marked i (omega arith) (omega arith) nz';
        apart = λ i i' le lt lt'. p.apart i i' (omega arith) lt (omega arith);
      }) in
      (
        d',
        rw (==_ne (f j) 0 nz, e₁) e,
        record {
          freed = λ i le lt nz'. elim (ℕ_discrete i j) [
            | yes q ↦
                subst (λ x. is_used sb d' (f x) ≡ false) (sym q)
                  (r.others (f j) (λ i' le' lt' nz'' same.
                      p.apart j i' (omega arith) (omega arith) (omega arith) nz (sym same))
                    ∙ b.marked (f j)
                    ∙ ap (λ t. if t then false else is_used sb d (f j))
                        ((==_iff (f j) (f j)).1 refl))
            | no ne ↦ r.freed i (omega (arith, differs i j ne)) (omega arith) nz'
          ];
          others = λ c h.
              r.others c (λ i le lt. h i (omega arith) (omega arith))
              ∙ b.marked c
              ∙ ap (λ t. if t then false else is_used sb d c)
                  (==_ne c (f j) (λ q. h j (omega arith) (omega arith) nz (sym q)));
          bytes = r.bytes ∙ b.bytes;
          words = r.words ∙ b.words;
          dinodes = r.dinodes ∙ b.dinodes;
        },
      )
]
  where
    differs : (i j : ℕ) → i ≢ j → (i < j) ⊎ (j < i)
    differs i j ne = ground arith

-- The run over the entries of an indirect block, which stand in the slots from `base` on.
pub free_entries_lem :
    (left j base ind : ℕ) (f : ℕ → ℕ) (sb : Super) (d d' : Disk)
    → ((i : ℕ) → i < j + left → d.words ind i ≡ f (base + i))
    → free_run left (base + j) f sb d ≡ some d'
    → free_entries left j sb ind d ≡ some d'
unfolding free_run free_entries
free_entries_lem zero j base ind f sb d d' h e = e
free_entries_lem (suc left) j base ind f sb d d' h e =
    let q = h j (omega arith) in
    let s : base + (j + 1) ≡ base + j + 1 = omega arith in
    elim (ℕ_discrete (f (base + j)) 0) [
      | yes z ↦ rw ((==_iff (d.words ind j) 0).1 (q ∙ z)) (
          free_entries_lem left (j + 1) base ind f sb d d' (λ i lt. h i (omega arith))
            (subst (λ x. free_run left x f sb d ≡ some d') (sym s)
              (rw ((==_iff (f (base + j)) 0).1 z) at e)))
      | no nz ↦ elim (Option-cases (bfree sb (f (base + j)) d)) [
        | inl n ↦ let r : none ≡ some d' = rw (==_ne (f (base + j)) 0 nz, n) at e in cc
        | inr (d₁, e₁) ↦
            let w = (bfree-some (f (base + j)) e₁).words in
            rw (q, ==_ne (f (base + j)) 0 nz, e₁)
              (free_entries_lem left (j + 1) base ind f sb d₁ d'
                (λ i lt. ap (λ g. g ind i) w ∙ h i (omega arith))
                (subst (λ x. free_run left x f sb d₁ ≡ some d') (sym s)
                  (rw (==_ne (f (base + j)) 0 nz, e₁) at e)))
      ]
    ]
