-- ===== src/Vm.antt =====
-- kernel/vm.c: the page tables of a process, three levels of pages with 512 entries each. The free pages
-- of the allocator are a list, from which `kalloc` takes the first and to which `kfree` adds one, as
-- Kalloc.FreeList shows.
pub mod Tree
pub mod Attach
pub mod Walk
pub mod Store
pub mod Map
pub mod Pages
pub mod Translate
pub mod Space
pub mod Fault
pub mod User
pub mod Copyin
pub mod Copied
pub mod Create
mod Tests
use os_final_project.Prelude.{
  ℕ, zero, suc, ◌+◌, ◌-◌, ◌*◌, ◌/◌, ◌%◌, Bool, true, false, ◌&&◌, ◌||◌, not, Option, none, some,
  ◌>>=◌, List, [], ◌∷◌, ◌==◌, if◌then◌else◌, ltb, leb, update, add64, sub64, m64, minus_one32,
  minus_one64,
}

-- PGSIZE and MAXVA of riscv.h.
abbrev pub pgsize : ℕ
pgsize = 4096

abbrev pub maxva : ℕ
maxva = 0x40_0000_0000

-- The entries of the pages that are page tables, the bytes of the others, and the free pages.
pub record Vm : Type 0 where
  pub entries : ℕ → ℕ → ℕ
  pub bytes : ℕ → ℕ → ℕ
  pub free : List ℕ

-- PA2PTE and PTE2PA.
abbrev pub pa2pte : ℕ → ℕ
pa2pte pa = pa / 4096 * 1024

abbrev pub pte2pa : ℕ → ℕ
pte2pa pte = pte / 1024 * 4096 % m64

-- The bits PTE_V and PTE_U.
abbrev pub is_valid : ℕ → Bool
is_valid pte = pte % 2 == 1

abbrev pub is_user : ℕ → Bool
is_user pte = pte / 16 % 2 == 1

-- PX at the three levels.
abbrev pub px2 : ℕ → ℕ
px2 va = va / 0x4000_0000 % 512

abbrev pub px1 : ℕ → ℕ
px1 va = va / 0x20_0000 % 512

abbrev pub px0 : ℕ → ℕ
px0 va = va / 4096 % 512

unfoldable pub set_entry : ℕ → ℕ → ℕ → Vm → Vm
set_entry pt i pte v = record v { entries = update v.entries pt (update (v.entries pt) i pte) }

-- `kalloc` of the page `p`, the rest being free still, and `memset` with zeros.
unfoldable pub clear_table : ℕ → List ℕ → Vm → Vm
clear_table p rest v = record v { free = rest; entries = update v.entries p (λ i. 0) }

-- The body of the loop of `walk`: the page table that the entry `i` of `pt` refers to.
unfoldable pub descend : Bool → ℕ → ℕ → Vm → Option ℕ × Vm
descend alloc pt i v =
    let pte = v.entries pt i in
    if is_valid pte
    then (some (pte2pa pte), v)
    else if alloc
    then elim v.free [
      | [] ↦ (none, v)
      | p ∷ rest ↦ (some p, set_entry pt i (pa2pte p + 1) (clear_table p rest v))
    ]
    else (none, v)

-- The place of the entry for `va` in the last page table.
unfoldable pub place : ℕ → Option ℕ × Vm → Option (ℕ × ℕ) × Vm
place va (none, v) = (none, v)
place va (some pt, v) = (some (pt, px0 va), v)

-- The second turn of the loop of `walk`.
unfoldable pub walk_next : ℕ → Bool → Option ℕ × Vm → Option (ℕ × ℕ) × Vm
walk_next va alloc (none, v) = (none, v)
walk_next va alloc (some pt, v) = place va (descend alloc pt (px1 va) v)

-- The place of the last entry, holding nothing where the code returns 0; `none` is the panic.
unfoldable pub walk : ℕ → ℕ → Bool → Vm → Option (Option (ℕ × ℕ) × Vm)
walk root va alloc v =
    if leb maxva va then none else some (walk_next va alloc (descend alloc root (px2 va) v))

-- `walkaddr`; the call of `walk` cannot panic.
unfoldable pub walkaddr : ℕ → ℕ → Vm → ℕ
walkaddr root va v = if leb maxva va then 0 else elim (walk root va false v) [
  | none ↦ 0
  | some (none, v') ↦ 0
  | some (some (pt, i), v') ↦
      let pte = v'.entries pt i in if is_valid pte && is_user pte then pte2pa pte else 0
]

-- `none` is the panic of `walk`.
unfoldable pub ismapped : ℕ → ℕ → Vm → Option Bool
ismapped root va v = elim (walk root va false v) [
  | none ↦ none
  | some (none, v') ↦ some false
  | some (some (pt, i), v') ↦ some (is_valid (v'.entries pt i))
]

-- PA2PTE(pa) | perm | PTE_V, for flags `perm` below 1024.
abbrev pub new_pte : ℕ → ℕ → ℕ
new_pte pa perm = pa2pte pa + perm / 2 * 2 + 1

-- The loop of `mappages` on fuel, with its result; `none` is a panic.
unfoldable pub map_loop : ℕ → ℕ → ℕ → ℕ → ℕ → ℕ → Vm → Option (ℕ × Vm)
map_loop zero root a last pa perm v = none
map_loop (suc fuel) root a last pa perm v = elim (walk root a true v) [
  | none ↦ none
  | some (none, v') ↦ some (minus_one32, v')
  | some (some (pt, i), v') ↦
      let v'' = set_entry pt i (new_pte pa perm) v' in
      if is_valid (v'.entries pt i)
      then none
      else if a == last
      then some (0, v'')
      else map_loop fuel root (add64 a pgsize) last (add64 pa pgsize) perm v''
]

unfoldable pub mappages : ℕ → ℕ → ℕ → ℕ → ℕ → Vm → Option (ℕ × Vm)
mappages root va size pa perm v =
    if not (va % pgsize == 0) || not (size % pgsize == 0) || size == 0
    then none
    else map_loop (size / pgsize) root va (sub64 (add64 va size) pgsize) pa perm v

-- `kalloc` and `memset` of a page of user memory.
unfoldable pub clear_page : ℕ → List ℕ → Vm → Vm
clear_page p rest v = record v { free = rest; bytes = update v.bytes p (λ i. 0) }

unfoldable pub free_page : ℕ → Vm → Vm
free_page p v = record v { free = p ∷ v.free }

-- The flags PTE_W|PTE_U|PTE_R.
abbrev pub rwu : ℕ
rwu = 22

-- The page after `mappages` has returned: unmapped memory is given back.
unfoldable pub fault_mapped : ℕ → Option (ℕ × Vm) → Option (ℕ × Vm)
fault_mapped p none = none
fault_mapped p (some (r, v)) = if r == 0 then some (p, v) else some (0, free_page p v)

-- The page at `va0` is not mapped.
unfoldable pub fault_page : ℕ → ℕ → Vm → Option (ℕ × Vm)
fault_page own va0 v = elim v.free [
  | [] ↦ some (0, v)
  | p ∷ rest ↦ fault_mapped p (mappages own va0 pgsize p rwu (clear_page p rest v))
]

-- `vmfault` for the page table `root`, by the process whose memory has `sz` bytes and whose own page table is
-- `own`, where it maps the new page; the address of that page, or 0.
unfoldable pub vmfault : ℕ → ℕ → ℕ → ℕ → Vm → Option (ℕ × Vm)
vmfault own root sz va v =
    if leb sz va then some (0, v) else elim (ismapped root (va / pgsize * pgsize) v) [
      | none ↦ none
      | some true ↦ some (0, v)
      | some false ↦ fault_page own (va / pgsize * pgsize) v
    ]

-- The page that `copyin` reads at `va0`: that of `walkaddr`, or a new one of `vmfault`; 0 if there is none.
unfoldable pub resolve : ℕ → ℕ → ℕ → ℕ → Vm → Option (ℕ × Vm)
resolve own root sz va0 v =
    let pa = walkaddr root va0 v in if pa == 0 then vmfault own root sz va0 v else some (pa, v)

-- The first `n` bytes of the page from `pos` on go to the distance `tot` of the destination.
unfoldable pub copy_part : (ℕ → ℕ) → ℕ → ℕ → ℕ → (ℕ → ℕ) → ℕ → ℕ
copy_part block pos n tot out q =
    if leb tot q && ltb q (tot + n) then block (pos + (q - tot)) else out q

-- The loop of `copyin` on fuel: the result, the bytes at the destination, and the memory.
unfoldable pub copyin_loop : ℕ → ℕ → ℕ → ℕ → ℕ → ℕ → ℕ → (ℕ → ℕ) → Vm → Option (ℕ × (ℕ → ℕ) × Vm)
copyin_loop zero own root sz srcva len tot out v = if len == 0 then some (0, out, v) else none
copyin_loop (suc fuel) own root sz srcva len tot out v =
    if len == 0 then some (0, out, v) else elim (resolve own root sz (srcva / pgsize * pgsize) v) [
      | none ↦ none
      | some (pa, v') ↦
          let va0 = srcva / pgsize * pgsize in
          let n = if ltb len (pgsize - (srcva - va0)) then len else pgsize - (srcva - va0) in
          if pa == 0
          then some (minus_one64, out, v')
          else copyin_loop fuel own root sz (add64 va0 pgsize) (len - n) (tot + n)
              (copy_part (v'.bytes pa) (srcva - va0) n tot out) v'
    ]

-- One turn for each page.
unfoldable pub copyin : ℕ → ℕ → ℕ → ℕ → ℕ → (ℕ → ℕ) → Vm → Option (ℕ × (ℕ → ℕ) × Vm)
copyin own root sz srcva len out v = copyin_loop (len / pgsize + 2) own root sz srcva len 0 out v

-- The new page table, 0 if there is no page.
unfoldable pub uvmcreate : Vm → ℕ × Vm
uvmcreate v = elim v.free [ [] ↦ (0, v) | p ∷ rest ↦ (p, clear_table p rest v) ]
