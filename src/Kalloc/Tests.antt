-- ===== src/Kalloc/Tests.antt =====
-- kernel/kalloc.c: runs of the allocator on a memory with one and with two free pages.
use os_final_project.Prelude.{ℕ, ◌*◌, ◌-◌, ◌≡◌, refl, some, List, [], ◌∷◌, arith, length}
use os_final_project.Kalloc.{
  Kmem, kfree, kalloc, count_free_mem, kinit, done, pgsize, phystop, pg_round_up,
}
use os_final_project.Kalloc.FreeList.{FreeList, kfree_lem, kalloc_lem}
use os_final_project.Kalloc.Count.{count_free_mem_lem}
use os_final_project.Kalloc.Init.{kinit_lem}

abbrev kernel_end : ℕ
kernel_end = 0x8002_0000

abbrev page : ℕ
page = 0x8003_0000

abbrev no_memory : Kmem
no_memory = record { word = λ a. 0; fill = λ a. 0; freelist = 0; total_mem_bytes = 0 }

abbrev one_page : Kmem
one_page = record { word = λ a. 0; fill = λ a. 1; freelist = page; total_mem_bytes = 0 }

one_page-FreeList : FreeList kernel_end one_page (page ∷ [])
one_page-FreeList = record {
  linked = (refl, omega arith, refl);
  distinct = (tt, tt);
  inside = ((refl, omega arith, omega arith), tt);
}

kfree_example :
    (k' : Kmem) × (kfree kernel_end 0x8004_0000 one_page ≡ some k')
    × FreeList kernel_end k' (0x8004_0000 ∷ page ∷ [])
    × (k'.fill 0x8004_0000 ≡ 1)
kfree_example =
    kfree_lem 0x8004_0000 (omega arith) one_page-FreeList (refl, omega arith, omega arith)
      (omega arith, tt)

kalloc_example : ((kalloc one_page).0 ≡ page) × FreeList kernel_end (kalloc one_page).1 []
kalloc_example = kalloc_lem (page ∷ []) one_page-FreeList

count_free_mem_example : count_free_mem one_page ≡ some 4096
count_free_mem_example = count_free_mem_lem (page ∷ []) one_page-FreeList

kinit_example :
    (k' : Kmem) × (ps : List ℕ) × (kinit kernel_end no_memory ≡ done k')
    × FreeList kernel_end k' ps
    × (length ps * pgsize ≡ phystop - pg_round_up kernel_end)
    × (k'.total_mem_bytes ≡ length ps * pgsize)
kinit_example = kinit_lem kernel_end no_memory (omega arith) (omega arith) refl
