-- ===== src/Vm/Tests.antt =====
-- kernel/vm.c: a new address space over seven free pages.
use os_final_project.Prelude.{
  ℕ, suc, ◌*◌, ◌≡◌, refl, ap, true, Option, some, List, [], ◌∷◌, ◌&&◌, if◌then◌else◌, leb, arith,
  Distinct, All,
}
use os_final_project.Vm.{
  Vm, maxva, is_valid, is_user, pte2pa, clear_table, walk, walkaddr, mappages, vmfault, copyin,
}
use os_final_project.Vm.Tree.{leaf, IsFrame}
use os_final_project.Vm.Walk.{WalkEnd, walk_lem}
use os_final_project.Vm.Map.{MapEnd}
use os_final_project.Vm.Pages.{mappages_lem}
use os_final_project.Vm.Translate.{walkaddr_lem}
use os_final_project.Vm.Space.{IsSpace}
use os_final_project.Vm.Fault.{FaultEnd, vmfault_lem}
use os_final_project.Vm.Copyin.{IsSame, CopyEnd}
use os_final_project.Vm.Copied.{copyin_lem}
use os_final_project.Vm.Create.{empty-IsSpace, empty_leaf}

abbrev free_pages : List ℕ
free_pages = 0x9000 ∷ 0xa000 ∷ 0xb000 ∷ 0xc000 ∷ 0xd000 ∷ 0xe000 ∷ []

abbrev memory : Vm
memory = record { entries = λ p i. 7; bytes = λ p i. 9; free = 0x8000 ∷ free_pages }

-- The space after `uvmcreate` has taken the page 0x8000.
abbrev space : Vm
space = clear_table 0x8000 free_pages memory

distinct : Distinct (0x8000 ∷ free_pages)
distinct = ground arith

frames : All IsFrame (0x8000 ∷ free_pages)
frames = ground arith

space-IsSpace : IsSpace space 0x8000
space-IsSpace = empty-IsSpace memory 0x8000 free_pages distinct frames.1

walk_example :
    (r : Option (ℕ × ℕ)) × (v' : Vm) × (walk 0x8000 0x12_3456 true space ≡ some (r, v'))
    × WalkEnd space 0x8000 0x12_3456 true r v'
walk_example = walk_lem 0x12_3456 true space-IsSpace.tree (omega arith)

mappages_example :
    (r : ℕ) × (v' : Vm) × (mappages 0x8000 0x4000 (suc 2 * 4096) 0x10_0000 22 space ≡ some (r, v'))
    × MapEnd space 0x8000 0x4000 (suc 2) 0x10_0000 22 r v'
mappages_example =
    mappages_lem 0x8000 0x4000 2 0x10_0000 22 space space-IsSpace.tree refl (omega arith)
      (omega arith) (λ x lx t. ap is_valid (empty_leaf memory 0x8000 free_pages x))

walkaddr_example : walkaddr 0x8000 0x5000 space ≡ (
    if leb maxva 0x5000
    then 0
    else if is_valid (leaf space 0x8000 0x5000) && is_user (leaf space 0x8000 0x5000)
    then pte2pa (leaf space 0x8000 0x5000)
    else 0)
walkaddr_example = walkaddr_lem 0x8000 0x5000 space space-IsSpace.tree

vmfault_example :
    (r : ℕ) × (v' : Vm) × (vmfault 0x8000 0x8000 0x6000 0x5008 space ≡ some (r, v'))
    × IsSpace v' 0x8000
    × FaultEnd space 0x8000 0x6000 0x5008 r v'
vmfault_example = vmfault_lem 0x8000 0x6000 0x5008 space-IsSpace (omega arith)

copyin_example :
    (r : ℕ) × (out' : ℕ → ℕ) × (v' : Vm) × (copyin 0x8000 0x8000 0x6000 0x1ff0 6000 (λ q. 1) space
      ≡ some (r, out', v'))
    × IsSame space 0x8000 0x6000 v'
    × CopyEnd space 0x8000 0x1ff0 6000 (λ q. 1) v' r out'
copyin_example = copyin_lem 0x8000 0x6000 0x1ff0 6000 (λ q. 1) space space-IsSpace (omega arith)
