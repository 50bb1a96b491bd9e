-- ===== src/Sbrk.antt =====
-- kernel/proc.c, kernel/sysproc.c, kernel/vm.c: the size of a process's memory, as `sys_sbrk` and
-- `growproc` change it. Of `uvmalloc` and `uvmdealloc` there is the size that they return; whether
-- the pages could be had is an argument.
pub mod Size
mod Tests
use os_final_project.Prelude.{
  ℕ, ◌+◌, ◌-◌, ◌*◌, ◌^◌, Bool, true, false, ◌||◌, ◌==◌, if◌then◌else◌, ltb, leb, slt, sext, add64,
  minus_one64, is_neg,
}
use os_final_project.Proc.{Proc, pgsize}

-- TRAPFRAME: the second page below MAXVA.
abbrev pub trapframe_va : ℕ
trapframe_va = 2 ^ 38 - 2 * pgsize

-- SBRK_EAGER
abbrev pub sbrk_eager : ℕ
sbrk_eager = 1

unfoldable pub uvmalloc : Bool → ℕ → ℕ → ℕ
uvmalloc ok oldsz newsz = if ltb newsz oldsz then oldsz else if ok then newsz else 0

unfoldable pub uvmdealloc : ℕ → ℕ → ℕ
uvmdealloc oldsz newsz = if leb oldsz newsz then oldsz else newsz

-- `n` is an `int`; the result is whether `growproc` succeeds.
unfoldable pub growproc : Bool → ℕ → Proc → Bool × Proc
growproc ok n p =
    let target = add64 p.sz (sext n) in
    let sz = uvmalloc ok p.sz target in
    if slt 0 n
    then if ltb trapframe_va target
      then (false, p)
      else if sz == 0
      then (false, p)
      else (true, record p { sz = sz })
    else if is_neg n
    then (true, record p { sz = uvmdealloc p.sz target })
    else (true, p)

unfoldable pub sys_sbrk : Bool → ℕ → ℕ → Proc → ℕ × Proc
sys_sbrk ok n t p =
    let addr = p.sz in
    let (grown, q) = growproc ok n p in
    if (t == sbrk_eager) || is_neg n
    then if grown then (addr, q) else (minus_one64, q)
    else if ltb (add64 addr (sext n)) addr
    then (minus_one64, p)
    else if ltb trapframe_va (add64 addr (sext n))
    then (minus_one64, p)
    else (addr, record p { sz = add64 addr (sext n) })
