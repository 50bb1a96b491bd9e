-- ===== src/Syscall.antt =====
-- kernel/syscall.c: the arguments of a system call. The six argument registers of the trapframe are
-- a list; what `copyin` and `copyinstr` deliver is an argument.
pub mod Fetch
use os_final_project.Prelude.{
  ℕ, ◌+◌, ◌%◌, ◌^◌, Bool, true, false, ◌||◌, Option, none, some, List, ◌==◌, if◌then◌else◌, leb,
  ltb, add64, get_elem?,
}

-- `none` is the panic.
unfoldable pub argraw : ℕ → List ℕ → Option ℕ
argraw n regs = if ltb n 6 then get_elem? regs n else none

-- An `int` takes the low half of the register.
unfoldable pub argint : ℕ → List ℕ → Option ℕ
argint n regs = elim (argraw n regs) [ none ↦ none | some a ↦ some (a % 2 ^ 32) ]

unfoldable pub argaddr : ℕ → List ℕ → Option ℕ
argaddr n regs = argraw n regs

-- For a process of the size `sz`; `found` is what `copyin` reads at the address.
unfoldable pub fetchaddr : ℕ → (ℕ → Option ℕ) → ℕ → Option ℕ
fetchaddr sz found addr = if leb sz addr || ltb sz (add64 addr 8) then none else found addr
