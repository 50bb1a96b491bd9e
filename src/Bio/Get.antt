-- ===== src/Bio/Get.antt =====
-- kernel/bio.c: `bget` gives the block its one buffer, and takes none away from a holder.
use os_final_project.Prelude.{
  ℕ, suc, ◌+◌, ◌^◌, ◌≤◌, ◌<◌, ◌≡◌, ◌≢◌, refl, ap, sym, ◌∙◌, subst, inl, inr, true, none, some,
  Option-cases, Bool-cases, List, [], ◌∷◌, arith, modify, get_elem?, get_elem?-modify_self,
  get_elem?-modify_ne, All, All-get_elem?, ℕ_discrete,
}
use os_final_project.Bio.{Buf, is_for, hold, recycle, find_cached, last_unused, bget}
use os_final_project.Bio.Unique.{IsAbsent}

find_cached_lem :
    (k dev blockno : ℕ) (bs : List Buf) {i : ℕ}
    → find_cached k dev blockno bs ≡ some i
    → (j : ℕ) × (b : Buf) × (i ≡ k + j) × (get_elem? bs j ≡ some b) × (is_for dev blockno b ≡ true)
unfolding find_cached
find_cached_lem k dev blockno [] e = cc
find_cached_lem k dev blockno (b ∷ bs) {i} e = elim (Bool-cases (is_for dev blockno b)) [
  | inl f ↦ (0, b, ground arith, refl, f)
  | inr f ↦
      let (j, c, a, g, h) = find_cached_lem (k + 1) dev blockno bs {i = i} (ground arith) in
      (suc j, c, omega arith, g, h)
]

find_cached-none :
    (k dev blockno : ℕ) (bs : List Buf)
    → find_cached k dev blockno bs ≡ none
    → IsAbsent dev blockno bs
unfolding find_cached
find_cached-none k dev blockno [] e = tt
find_cached-none k dev blockno (b ∷ bs) e = elim (Bool-cases (is_for dev blockno b)) [
  | inl f ↦ absurd (ground arith)
  | inr f ↦ (f, find_cached-none (k + 1) dev blockno bs (ground arith))
]

last_unused_lem :
    (k : ℕ) (bs : List Buf) {i : ℕ}
    → last_unused k bs ≡ some i
    → (j : ℕ) × (b : Buf) × (i ≡ k + j) × (get_elem? bs j ≡ some b) × (b.refcnt ≡ 0)
unfolding last_unused
last_unused_lem k [] e = cc
last_unused_lem k (b ∷ bs) {i} e = elim (Option-cases (last_unused (k + 1) bs)) [
  | inl f ↦ (0, b, ground arith, refl, ground arith)
  | inr (m, f) ↦
      let (j, c, a, g, h) = last_unused_lem (k + 1) bs f in (suc j, c, ground arith, g, h)
]

-- The two ways in which `bget` succeeds.
pub data Got (dev blockno i : ℕ) (bs bs' : List Buf) : Type 0 where
  cached :
      (b : Buf)
      → get_elem? bs i ≡ some b
      → is_for dev blockno b ≡ true
      → bs' ≡ modify bs i hold
      → Got dev blockno i bs bs'
  reused :
      (b : Buf)
      → get_elem? bs i ≡ some b
      → b.refcnt ≡ 0
      → IsAbsent dev blockno bs
      → bs' ≡ modify bs i (recycle dev blockno)
      → Got dev blockno i bs bs'

pub bget-Got :
    (dev blockno : ℕ) (bs : List Buf) {i : ℕ} {bs' : List Buf}
    → bget dev blockno bs ≡ some (i, bs')
    → Got dev blockno i bs bs'
unfolding bget
bget-Got dev blockno bs {i} {bs'} e = elim (Option-cases (find_cached 0 dev blockno bs)) [
  | inl n ↦ elim (Option-cases (last_unused 0 bs)) [
    | inl m ↦ absurd (ground arith)
    | inr (k, m) ↦
        let (j, b, a, at, free) = last_unused_lem 0 bs m in
        let same : j ≡ i = ground arith in
        reused b (subst (λ x. get_elem? bs x ≡ some b) same at) free
          (find_cached-none 0 dev blockno bs n) (ground arith)
  ]
  | inr (k, n) ↦
      let (j, b, a, at, f) = find_cached_lem 0 dev blockno bs n in
      let same : j ≡ i = ground arith in
      cached b (subst (λ x. get_elem? bs x ≡ some b) same at) f (ground arith)
]

-- While no reference count is at the largest `uint`: where `bget` succeeds, the buffer that it
-- returns is for the wanted block and has a reference, and a buffer that had one before still is
-- for its block.
pub bget_lem :
    (dev blockno : ℕ) (bs : List Buf) (i j : ℕ) (bs' : List Buf) (c : Buf)
    → All (λ b. b.refcnt + 1 < 2 ^ 32) bs
    → bget dev blockno bs ≡ some (i, bs')
    → get_elem? bs j ≡ some c
    → 0 < c.refcnt
    → (b : Buf) × (d : Buf) × (get_elem? bs' i ≡ some b)
      × (is_for dev blockno b ≡ true)
      × (0 < b.refcnt)
      × (get_elem? bs' j ≡ some d)
      × (d.dev ≡ c.dev)
      × (d.blockno ≡ c.blockno)
      × (c.refcnt ≤ d.refcnt)
unfolding hold recycle is_for
bget_lem dev blockno bs i j bs' c small e at held = elim (bget-Got dev blockno bs e) [
  | cached b g f q ↦
      let s = All-get_elem? (λ x. x.refcnt + 1 < 2 ^ 32) bs i small g in
      elim (ℕ_discrete i j) [
        | yes same ↦
            let bc : b ≡ c = cc in
            (
              hold b,
              hold b,
              subst (λ xs. get_elem? xs i ≡ some (hold b)) (sym q)
                  (get_elem?-modify_self bs i hold g),
              f,
              omega arith,
              subst (λ xs. get_elem? xs j ≡ some (hold b)) (sym q)
                  (subst (λ k. get_elem? (modify bs i hold) k ≡ some (hold b)) same
                    (get_elem?-modify_self bs i hold g)),
              ap (λ (x : Buf). x.dev) bc,
              ap (λ (x : Buf). x.blockno) bc,
              omega (arith, ap (λ (x : Buf). x.refcnt) bc),
            )
        | no differ ↦ (
          hold b,
          c,
          subst (λ xs. get_elem? xs i ≡ some (hold b)) (sym q) (get_elem?-modify_self bs i hold g),
          f,
          omega arith,
          subst (λ xs. get_elem? xs j ≡ some c) (sym q)
              (get_elem?-modify_ne bs i j hold differ ∙ at),
          refl,
          refl,
          omega arith,
        )
      ]
  | reused b g free absent q ↦
      let differ : i ≢ j = λ same. reused_held b g free same in
      (
        recycle dev blockno b,
        c,
        subst (λ xs. get_elem? xs i ≡ some (recycle dev blockno b)) (sym q)
            (get_elem?-modify_self bs i (recycle dev blockno) g),
        ground arith,
        omega arith,
        subst (λ xs. get_elem? xs j ≡ some c) (sym q)
            (get_elem?-modify_ne bs i j (recycle dev blockno) differ ∙ at),
        refl,
        refl,
        omega arith,
      )
]
  where
    reused_held : (b : Buf) → get_elem? bs i ≡ some b → b.refcnt ≡ 0 → i ≡ j → ⊥
    reused_held b g free same =
        let bc : b ≡ c = cc in absurd (omega (arith, ap (λ (x : Buf). x.refcnt) bc))
