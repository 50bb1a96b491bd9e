-- ===== src/Bio/Unique.antt =====
-- kernel/bio.c: lists of buffers with at most one buffer for each block. The device 0 is that of
-- the buffers not yet used, and no device of the file system.
use os_final_project.Prelude.{
  ℕ, zero, suc, ◌≡◌, ◌≢◌, refl, ap, subst, ◌⊎◌, inl, inr, false, some, List, [], ◌∷◌, arith, modify,
  get_elem?, remove, All, All-modify, All-remove, All-get_elem?,
}
use os_final_project.Bio.{Buf, is_for, recycle, link}

-- The two buffers are not both for one block.
abbrev pub Apart : Buf → Buf → Type 0
Apart b c = (b.dev ≡ 0) ⊎ (is_for b.dev b.blockno c ≡ false)

abbrev pub IsUnique : List Buf → Type 0
IsUnique [] = Unit
IsUnique (b ∷ bs) = All (Apart b) bs × IsUnique bs

-- A change that leaves the block of a buffer as it is.
abbrev pub SameBlock : (Buf → Buf) → Type 0
SameBlock g = (b : Buf) → ((g b).dev ≡ b.dev) × ((g b).blockno ≡ b.blockno)

pub Apart-sym : (b c : Buf) → Apart b c → Apart c b
unfolding is_for
Apart-sym b c a = ground arith

pub All-Apart-same :
    (b c : Buf) (bs : List Buf)
    → c.dev ≡ b.dev
    → c.blockno ≡ b.blockno
    → All (Apart b) bs
    → All (Apart c) bs
unfolding is_for
All-Apart-same b c [] e f a = a
All-Apart-same b c (d ∷ bs) e f a = (ground arith, All-Apart-same b c bs e f a.1)

Apart-same : (g : Buf → Buf) → SameBlock g → (b c : Buf) → Apart b c → Apart b (g c)
unfolding is_for
Apart-same g s b c a = ground (arith, s c)

pub modify-IsUnique :
    (g : Buf → Buf) → SameBlock g → (bs : List Buf) (i : ℕ) → IsUnique bs → IsUnique (modify bs i g)
modify-IsUnique g s [] i u = u
modify-IsUnique g s (b ∷ bs) zero u = (All-Apart-same b (g b) bs (s b).0 (s b).1 u.0, u.1)
modify-IsUnique g s (b ∷ bs) (suc i) u =
    (All-modify (Apart b) bs i g u.0 (λ c e a. Apart-same g s b c a), modify-IsUnique g s bs i u.1)

pub remove-IsUnique : (bs : List Buf) (i : ℕ) → IsUnique bs → IsUnique (remove bs i)
remove-IsUnique [] i u = u
remove-IsUnique (b ∷ bs) zero u = u.1
remove-IsUnique (b ∷ bs) (suc i) u = (All-remove (Apart b) bs i u.0, remove-IsUnique bs i u.1)

-- The buffer at a position, against all others.
pub remove-Apart :
    (bs : List Buf) (i : ℕ) (b : Buf)
    → get_elem? bs i ≡ some b
    → IsUnique bs
    → All (Apart b) (remove bs i)
remove-Apart [] i b e u = cc
remove-Apart (c ∷ bs) zero b e u = let same : c ≡ b = cc in subst (λ d. All (Apart d) bs) same u.0
remove-Apart (c ∷ bs) (suc i) b e u =
    (Apart-sym c b (All-get_elem? (Apart c) bs i u.0 e), remove-Apart bs i b e u.1)

pub link-IsUnique : (n : ℕ) → IsUnique (link n)
unfolding link
link-IsUnique zero = tt
link-IsUnique (suc n) = (blank n n, link-IsUnique n)
  where
    blank :
        (n m : ℕ)
        → All
            (Apart (record { slot = n; valid = false; dev = 0; blockno = 0; refcnt = 0 }))
            (link m)
    blank n zero = tt
    blank n (suc m) = (inl refl, blank n m)

-- A block that has no buffer yet.
abbrev pub IsAbsent : ℕ → ℕ → List Buf → Type 0
IsAbsent dev blockno bs = All (λ b. is_for dev blockno b ≡ false) bs

pub recycle-IsUnique :
    (dev blockno : ℕ) (bs : List Buf) (i : ℕ)
    → IsAbsent dev blockno bs
    → IsUnique bs
    → IsUnique (modify bs i (recycle dev blockno))
unfolding is_for recycle
recycle-IsUnique dev blockno [] i a u = u
recycle-IsUnique dev blockno (b ∷ bs) zero a u = (absent bs a.1, u.1)
  where
    absent :
        (cs : List Buf)
        → IsAbsent dev blockno cs
        → All (Apart (record b { dev = dev; blockno = blockno; valid = false; refcnt = 1 })) cs
    absent [] a = a
    absent (c ∷ cs) a = (inr a.0, absent cs a.1)
recycle-IsUnique dev blockno (b ∷ bs) (suc i) a u = (
  All-modify (Apart b) bs i (recycle dev blockno) u.0 (λ c e p. new c),
  recycle-IsUnique dev blockno bs i a.1 u.1,
)
  where
    new : (c : Buf) → Apart b (recycle dev blockno c)
    new c = ground (arith, a.0)

-- In a list with at most one buffer for each block, a block of a device determines the position.
pub same_position :
    (bs : List Buf) (i j : ℕ) (b c : Buf)
    → IsUnique bs
    → get_elem? bs i ≡ some b
    → get_elem? bs j ≡ some c
    → b.dev ≢ 0
    → c.dev ≡ b.dev
    → c.blockno ≡ b.blockno
    → i ≡ j
unfolding is_for
same_position [] i j b c u e f n d k = cc
same_position (x ∷ bs) zero zero b c u e f n d k = refl
same_position (x ∷ bs) zero (suc j) b c u e f n d k =
    absurd (ground (arith, All-get_elem? (Apart x) bs j u.0 f, n))
same_position (x ∷ bs) (suc i) zero b c u e f n d k =
    absurd (ground (arith, All-get_elem? (Apart x) bs i u.0 e, n))
same_position (x ∷ bs) (suc i) (suc j) b c u e f n d k =
    ap suc (same_position bs i j b c u.1 e f n d k)
