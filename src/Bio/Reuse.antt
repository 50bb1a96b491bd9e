-- ===== src/Bio/Reuse.antt =====
-- kernel/bio.c: whatever the order of the calls, a block has one buffer at most.
use os_final_project.Prelude.{
  ℕ, ◌≡◌, ◌≢◌, refl, sym, subst, ◌⊎◌, inl, inr, Bool, some, Option-cases, Bool-cases, List, ◌∷◌,
  arith, ◌==◌, sub32, modify, get_elem?, remove,
}
use os_final_project.Bio.{Buf, nbuf, binit, hold, unhold, validate, bget, bread, brelse}
use os_final_project.Bio.Unique.{
  IsUnique, SameBlock, All-Apart-same, modify-IsUnique, remove-IsUnique, remove-Apart,
  link-IsUnique, recycle-IsUnique, same_position,
}
use os_final_project.Bio.Get.{cached, reused, bget-Got}

-- What the users of the cache do to it, for the devices of the file system.
pub data Step (bs bs' : List Buf) : Type 0 where
  reads :
      (dev blockno i : ℕ) (r : Bool)
      → dev ≢ 0
      → bread dev blockno bs ≡ some (i, r, bs')
      → Step bs bs'
  releases : (holding : Bool) (i : ℕ) → brelse holding i bs ≡ some bs' → Step bs bs'
  pins : (i : ℕ) → bs' ≡ modify bs i hold → Step bs bs'
  unpins : (i : ℕ) → bs' ≡ modify bs i unhold → Step bs bs'

pub data Reach (bs : List Buf) : List Buf → Type 0 where
  start : Reach bs bs
  later : {cs ds : List Buf} → Reach bs cs → Step cs ds → Reach bs ds

hold-SameBlock : SameBlock hold
unfolding hold
hold-SameBlock b = (refl, refl)

unhold-SameBlock : SameBlock unhold
unfolding unhold
unhold-SameBlock b = (refl, refl)

validate-SameBlock : SameBlock validate
unfolding validate
validate-SameBlock b = (refl, refl)

bget-IsUnique :
    (dev blockno : ℕ) (bs : List Buf) {i : ℕ} {bs' : List Buf}
    → IsUnique bs
    → bget dev blockno bs ≡ some (i, bs')
    → IsUnique bs'
bget-IsUnique dev blockno bs {i} u e = elim (bget-Got dev blockno bs e) [
  | cached b g f q ↦ subst IsUnique (sym q) (modify-IsUnique hold hold-SameBlock bs i u)
  | reused b g free absent q ↦ subst IsUnique (sym q) (recycle-IsUnique dev blockno bs i absent u)
]

bread-bget :
    (dev blockno : ℕ) (bs : List Buf) {i : ℕ} {r : Bool} {bs' : List Buf}
    → bread dev blockno bs ≡ some (i, r, bs')
    → (cs : List Buf) × (bget dev blockno bs ≡ some (i, cs))
      × ((bs' ≡ cs) ⊎ (bs' ≡ modify cs i validate))
unfolding bread
bread-bget dev blockno bs {i} {r} {bs'} e = elim (Option-cases (bget dev blockno bs)) [
  | inl n ↦ absurd (ground arith)
  | inr ((k, cs), n) ↦ elim (Option-cases (get_elem? cs k)) [
    | inl m ↦ absurd (ground arith)
    | inr (b, m) ↦ (cs, ground arith, ground arith)
  ]
]

bread-IsUnique :
    (dev blockno : ℕ) (bs : List Buf) {i : ℕ} {r : Bool} {bs' : List Buf}
    → IsUnique bs
    → bread dev blockno bs ≡ some (i, r, bs')
    → IsUnique bs'
bread-IsUnique dev blockno bs {i} u e =
    let (cs, g, h) = bread-bget dev blockno bs e in
    let v = bget-IsUnique dev blockno bs u g in
    elim h [
      | inl q ↦ subst IsUnique (sym q) v
      | inr q ↦ subst IsUnique (sym q) (modify-IsUnique validate validate-SameBlock cs i v)
    ]

brelse-IsUnique :
    (holding : Bool) (i : ℕ) (bs : List Buf) {bs' : List Buf}
    → IsUnique bs
    → brelse holding i bs ≡ some bs'
    → IsUnique bs'
unfolding brelse unhold
brelse-IsUnique holding i bs {bs'} u e = elim (Option-cases (get_elem? bs i)) [
  | inl n ↦ absurd (ground arith)
  | inr (b, n) ↦ elim (Bool-cases (sub32 b.refcnt 1 == 0)) [
    | inl z ↦
        let q : unhold b ∷ remove bs i ≡ bs' = ground arith in
        subst IsUnique q (
          All-Apart-same b (unhold b) (remove bs i) refl refl (remove-Apart bs i b n u),
          remove-IsUnique bs i u,
        )
    | inr z ↦
        let q : modify bs i unhold ≡ bs' = ground arith in
        subst IsUnique q (modify-IsUnique unhold unhold-SameBlock bs i u)
  ]
]

Step-IsUnique : {bs cs : List Buf} → IsUnique bs → Step bs cs → IsUnique cs
Step-IsUnique {bs} u (reads dev blockno i r n e) = bread-IsUnique dev blockno bs u e
Step-IsUnique {bs} u (releases holding i e) = brelse-IsUnique holding i bs u e
Step-IsUnique {bs} u (pins i q) =
    subst IsUnique (sym q) (modify-IsUnique hold hold-SameBlock bs i u)
Step-IsUnique {bs} u (unpins i q) =
    subst IsUnique (sym q) (modify-IsUnique unhold unhold-SameBlock bs i u)

Reach-IsUnique : {bs cs : List Buf} → IsUnique bs → Reach bs cs → IsUnique cs
Reach-IsUnique u start = u
Reach-IsUnique u (later r st) = Step-IsUnique (Reach-IsUnique u r) st

binit-IsUnique : IsUnique binit
unfolding binit
binit-IsUnique = link-IsUnique nbuf

-- In any order of calls from the cache of `binit`, no block of a device is in two buffers.
pub one_buffer_per_block :
    {bs : List Buf}
    → Reach binit bs
    → (i j : ℕ) (b c : Buf) → get_elem? bs i ≡ some b
    → get_elem? bs j ≡ some c
    → b.dev ≢ 0
    → c.dev ≡ b.dev
    → c.blockno ≡ b.blockno
    → i ≡ j
one_buffer_per_block {bs} r i j b c e f n d k =
    same_position bs i j b c (Reach-IsUnique binit-IsUnique r) e f n d k
