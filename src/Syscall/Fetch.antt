-- ===== src/Syscall/Fetch.antt =====
-- kernel/syscall.c: the bounds of `fetchaddr`.
use os_final_project.Prelude.{
  ℕ, ◌+◌, ◌-◌, ◌^◌, ◌≤◌, ◌<◌, ◌≡◌, Option, none, arith, if◌then◌else◌, leb,
}
use os_final_project.Syscall.{fetchaddr}

-- For a process smaller than the address space by a word: the two tests of `fetchaddr` let pass
-- exactly the words that lie below the size, also where the sum of the address and the width of the
-- word overflows.
pub fetchaddr_lem :
    (sz addr : ℕ) (found : ℕ → Option ℕ)
    → sz ≤ 2 ^ 64 - 8
    → addr < 2 ^ 64
    → fetchaddr sz found addr ≡ (if leb (addr + 8) sz then found addr else none)
unfolding fetchaddr
fetchaddr_lem sz addr found a b = ground arith
