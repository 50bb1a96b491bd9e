-- ===== src/Fs/Bitmap.antt =====
-- kernel/fs.c: `bzero`, `balloc` and `bfree` over the free map.
pub mod Laws
pub mod Free
use os_final_project.Prelude.{
  ℕ, zero, suc, ◌+◌, ◌-◌, ◌*◌, ◌/◌, ◌%◌, Bool, true, false, ◌&&◌, not, Option, none, some, ◌==◌,
  if◌then◌else◌, ltb, update,
}
use os_final_project.Fs.{Super, Disk, bpb, bblock}

unfoldable pub bzero : ℕ → Disk → Disk
bzero b d = record d { words = update d.words b (λ i. 0); bytes = update d.bytes b (λ i. 0) }

-- Bit `i` of the block `b` becomes `v`.
unfoldable pub set_bit : ℕ → ℕ → Bool → Disk → Disk
set_bit b i v d = record d { bits = update d.bits b (update (d.bits b) i v) }

-- The loop over the bits of one block of the free map, the first of which stands for the block `b`;
-- `left` bits are not looked at yet, from `bi` on.
unfoldable pub find_bit : ℕ → ℕ → ℕ → ℕ → (ℕ → Bool) → Option ℕ
find_bit zero bi b size bits = none
find_bit (suc left) bi b size bits =
    let rest = find_bit left (bi + 1) b size bits in
    if ltb (b + bi) size then (if bits bi then rest else some bi) else none

-- The loop over the blocks of the free map on fuel: the number of the first free block.
unfoldable pub find_free : ℕ → ℕ → Super → Disk → Option ℕ
find_free zero b sb d = none
find_free (suc fuel) b sb d =
    let rest = find_free fuel (b + bpb) sb d in
    if ltb b sb.size
    then elim (find_bit bpb 0 b sb.size (d.bits (bblock sb b))) [
      | none ↦ rest
      | some bi ↦ some (b + bi)
    ]
    else none

-- The block, 0 if there is no free one. The fuel is one more than the blocks of the free map.
unfoldable pub balloc : Super → Disk → ℕ × Disk
balloc sb d = elim (find_free (suc (sb.size / bpb)) 0 sb d) [
  | none ↦ (0, d)
  | some b ↦ (b, bzero b (set_bit (bblock sb b) (b % bpb) true d))
]

-- `none` is the panic.
unfoldable pub bfree : Super → ℕ → Disk → Option Disk
bfree sb b d =
    if d.bits (bblock sb b) (b % bpb) then some (set_bit (bblock sb b) (b % bpb) false d) else none
