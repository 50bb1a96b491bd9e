-- ===== src/Sbrk/Size.antt =====
-- kernel/sysproc.c: the effect of `sys_sbrk` on the size of the process.
use os_final_project.Prelude.{
  ℕ, ◌+◌, ◌-◌, ◌≤◌, ◌<◌, ◌^◌, ◌≡◌, ◌⊎◌, Bool, arith, if◌then◌else◌, ltb, minus_one64, is_neg,
}
use os_final_project.Proc.{Proc}
use os_final_project.Sbrk.{trapframe_va, uvmalloc, uvmdealloc, growproc, sys_sbrk}

-- For a request that is an `int` and a process that ends at or below TRAPFRAME: afterwards it still
-- does. The call returns -1 with the size unchanged, or the old size; then the size has grown by a
-- request that is not negative, has shrunk by one that is, or is unchanged where the request takes
-- away more than there is.
pub sys_sbrk_lem :
    (ok : Bool) (n t : ℕ) (p : Proc)
    → n < 2 ^ 32
    → p.sz ≤ trapframe_va
    → ((sys_sbrk ok n t p).1.sz ≤ trapframe_va)
      × ((((sys_sbrk ok n t p).0 ≡ minus_one64) × ((sys_sbrk ok n t p).1.sz ≡ p.sz))
          ⊎ (((sys_sbrk ok n t p).0 ≡ p.sz)
              × ((sys_sbrk ok n t p).1.sz ≡ (
                  if is_neg n
                  then (if ltb p.sz (2 ^ 32 - n) then p.sz else p.sz - (2 ^ 32 - n))
                  else p.sz + n))))
unfolding sys_sbrk growproc uvmalloc uvmdealloc
sys_sbrk_lem ok n t p word top = ground arith
