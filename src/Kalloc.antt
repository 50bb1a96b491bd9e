-- ===== src/Kalloc.antt =====
-- kernel/kalloc.c: the allocator of physical pages. The free list is threaded through the free
-- pages themselves: the first word of a free page is the address of the next one. The linker's
-- symbol `end`, the first address after the kernel, is the parameter `kend`.
pub mod FreeList
pub mod Init
pub mod Count
mod Tests
use os_final_project.Prelude.{
  ℕ, zero, suc, ◌+◌, ◌-◌, ◌*◌, ◌/◌, ◌%◌, Bool, ◌||◌, not, Option, none, some, ltb, leb, ◌==◌,
  if◌then◌else◌, update, sub64,
}

-- PGSIZE, and PHYSTOP of memlayout.h.
abbrev pub pgsize : ℕ
pgsize = 4096

abbrev pub phystop : ℕ
phystop = 0x8800_0000

-- PGROUNDUP
abbrev pub pg_round_up : ℕ → ℕ
pg_round_up a = (a + (pgsize - 1)) / pgsize * pgsize

-- `word` is the first word of each page, `fill` the byte that fills the rest of it.
pub record Kmem : Type 0 where
  pub word : ℕ → ℕ
  pub fill : ℕ → ℕ
  pub freelist : ℕ
  pub total_mem_bytes : ℕ

-- `none` is a panic.
pub kfree : ℕ → ℕ → Kmem → Option Kmem
kfree kend pa k =
    if not (pa % pgsize == 0) || (ltb pa kend || leb phystop pa)
    then none
    else some
        (record k { word = update k.word pa k.freelist; fill = update k.fill pa 1; freelist = pa })

-- The page's address, 0 if there is none, and the memory after it.
pub kalloc : Kmem → ℕ × Kmem
kalloc k = if k.freelist == 0 then (0, k) else (
  k.freelist,
  record k {
    freelist = k.word k.freelist;
    word = update k.word k.freelist 0x0505_0505_0505_0505;
    fill = update k.fill k.freelist 5;
  },
)

-- The loop of `freerange` on fuel, from the page `p`; running out of fuel is told from a panic.
pub data Outcome : Type 0 where
  done : Kmem → Outcome
  panic : Outcome
  out_of_fuel : Outcome

pub freerange_loop : ℕ → ℕ → ℕ → ℕ → Kmem → Outcome
freerange_loop zero kend p pa_end k = out_of_fuel
freerange_loop (suc fuel) kend p pa_end k =
    let next : Outcome = elim (kfree kend p k) [
      | none ↦ panic
      | some k' ↦ freerange_loop fuel kend (p + pgsize) pa_end k'
    ] in
    if leb (p + pgsize) pa_end then next else done k

-- Enough fuel for a range that ends at `pa_end`.
pub freerange : ℕ → ℕ → ℕ → Kmem → Outcome
freerange kend pa_start pa_end k =
    freerange_loop (suc (pa_end / pgsize)) kend (pg_round_up pa_start) pa_end k

-- The walk of `count_free_mem` along the free list; `none` is a walk that outlasts its fuel.
pub count_loop : ℕ → (ℕ → ℕ) → ℕ → ℕ → Option ℕ
count_loop zero word r n = none
count_loop (suc fuel) word r n =
    let rest = count_loop fuel word (word r) (n + 1) in if r == 0 then some n else rest

-- There are no more pages than `phystop / pgsize`, so a list without a cycle is walked to its end.
pub count_free_mem : Kmem → Option ℕ
count_free_mem k = elim (count_loop (phystop / pgsize + 1) k.word k.freelist 0) [
  | none ↦ none
  | some n ↦ some (n * pgsize)
]

pub count_total_mem : Kmem → ℕ
count_total_mem k = k.total_mem_bytes

record_total : Outcome → Outcome
record_total (done k) = elim (count_free_mem k) [
  | none ↦ out_of_fuel
  | some n ↦ done (record k { total_mem_bytes = n })
]
record_total panic = panic
record_total out_of_fuel = out_of_fuel

-- `kinit`, on a memory whose free list is still empty.
pub kinit : ℕ → Kmem → Outcome
unfolding record_total
kinit kend k = record_total (freerange kend kend phystop k)

-- `struct meminfo`, as `sys_meminfo` fills it in; `none` as for `count_free_mem`.
pub record Meminfo : Type 0 where
  pub total_mem : ℕ
  pub free_mem : ℕ
  pub used_mem : ℕ

pub meminfo : Kmem → Option Meminfo
meminfo k = elim (count_free_mem k) [
  | none ↦ none
  | some free ↦ some (record {
    total_mem = count_total_mem k;
    free_mem = free;
    used_mem = sub64 (count_total_mem k) free;
  })
]
