-- ===== src/Bio.antt =====
-- kernel/bio.c: the buffer cache. The circular list of buffers is a list here, the most recently
-- used first; a buffer is named by its position in it. Each function runs under the cache's lock,
-- so it is one step; the sleep lock of a buffer, and its data, are left out.
pub mod Unique
pub mod Get
pub mod Reuse
mod Tests
use os_final_project.Prelude.{
  ℕ, zero, suc, ◌+◌, Bool, true, false, ◌&&◌, not, Option, none, some, List, [], ◌∷◌, ◌==◌,
  if◌then◌else◌, add32, sub32, modify, get_elem?, remove,
}

-- NBUF
abbrev pub nbuf : ℕ
nbuf = 30

-- `struct buf`; `slot` is its index in the array `bcache.buf`.
pub record Buf : Type 0 where
  pub slot : ℕ
  pub valid : Bool
  pub dev : ℕ
  pub blockno : ℕ
  pub refcnt : ℕ

-- The list once the first `n` buffers of the array are put in front of it, one after the other.
unfoldable pub link : ℕ → List Buf
link zero = []
link (suc n) = record { slot = n; valid = false; dev = 0; blockno = 0; refcnt = 0 } ∷ link n

unfoldable pub binit : List Buf
unfolding link
binit = link nbuf

unfoldable pub is_for : ℕ → ℕ → Buf → Bool
is_for dev blockno b = b.dev == dev && (b.blockno == blockno)

-- The first loop of `bget`: the position of the block's buffer, from the front.
unfoldable pub find_cached : ℕ → ℕ → ℕ → List Buf → Option ℕ
find_cached i dev blockno [] = none
find_cached i dev blockno (b ∷ bs) =
    if is_for dev blockno b then some i else find_cached (i + 1) dev blockno bs

-- The second loop: the position of the first unused buffer, from the back.
unfoldable pub last_unused : ℕ → List Buf → Option ℕ
last_unused i [] = none
last_unused i (b ∷ bs) = elim (last_unused (i + 1) bs) [
  | some j ↦ some j
  | none ↦ if b.refcnt == 0 then some i else none
]

unfoldable pub hold : Buf → Buf
hold b = record b { refcnt = add32 b.refcnt 1 }

unfoldable pub recycle : ℕ → ℕ → Buf → Buf
recycle dev blockno b = record b { dev = dev; blockno = blockno; valid = false; refcnt = 1 }

-- The buffer's position, with the cache after it; `none` is the panic.
unfoldable pub bget : ℕ → ℕ → List Buf → Option (ℕ × List Buf)
bget dev blockno bs = elim (find_cached 0 dev blockno bs) [
  | some i ↦ some (i, modify bs i hold)
  | none ↦ elim (last_unused 0 bs) [
    | none ↦ none
    | some i ↦ some (i, modify bs i (recycle dev blockno))
  ]
]

unfoldable pub validate : Buf → Buf
validate b = record b { valid = true }

-- `bread`: besides, whether the disk is read.
unfoldable pub bread : ℕ → ℕ → List Buf → Option (ℕ × Bool × List Buf)
unfolding validate
bread dev blockno bs = elim (bget dev blockno bs) [
  | none ↦ none
  | some (i, bs') ↦ elim (get_elem? bs' i) [
    | none ↦ none
    | some b ↦ if b.valid then some (i, false, bs') else some (i, true, modify bs' i validate)
  ]
]

unfoldable pub unhold : Buf → Buf
unhold b = record b { refcnt = sub32 b.refcnt 1 }

-- `brelse`; `holding` is what `holdingsleep` says, and `none` is the panic.
unfoldable pub brelse : Bool → ℕ → List Buf → Option (List Buf)
brelse holding i bs = if not holding then none else elim (get_elem? bs i) [
  | none ↦ none
  | some b ↦
      if sub32 b.refcnt 1 == 0 then some (unhold b ∷ remove bs i) else some (modify bs i unhold)
]
