-- ===== src/Spinlock.antt =====
-- kernel/spinlock.c: nested disabling of interrupts, and the spin lock, for any number of CPUs.
-- A CPU is a number; `none` as a result is a panic.
pub mod Nesting
pub mod Exclusion
mod Tests
use os_final_project.Prelude.{
  ℕ, ◌+◌, Bool, true, false, ◌&&◌, not, Option, none, some, ◌==◌, if◌then◌else◌, add32, sub32, slt,
  update,
}

-- The part of `struct cpu` that locks use, and the interrupt-enable bit of the hardware.
pub record Cpu : Type 0 where
  pub noff : ℕ
  pub intena : Bool
  pub intr : Bool

-- `struct spinlock`; `cpu` is `none` where the field is null.
pub record Lock : Type 0 where
  pub locked : Bool
  pub cpu : Option ℕ

pub initlock : Lock
initlock = record { locked = false; cpu = none }

pub push_off : Cpu → Cpu
push_off c = record {
  noff = add32 c.noff 1;
  intena = if c.noff == 0 then c.intr else c.intena;
  intr = false;
}

pub pop_off : Cpu → Option Cpu
pop_off c =
    if c.intr
    then none
    else if slt c.noff 1
    then none
    else some (record c {
      noff = sub32 c.noff 1;
      intr = if (sub32 c.noff 1 == 0) && c.intena then true else c.intr;
    })

is_cpu : Option ℕ → ℕ → Bool
is_cpu none id = false
is_cpu (some j) id = j == id

-- `holding`, asked by the CPU `id`.
pub holding : ℕ → Lock → Bool
unfolding is_cpu
holding id lk = lk.locked && is_cpu lk.cpu id

-- The atomic swap: the old value, and the lock with 1 stored.
pub test_and_set : Lock → Bool × Lock
test_and_set lk = (lk.locked, record lk { locked = true })

-- Where a CPU stands: outside, in the loop of `acquire`, past it with `lk->cpu` not yet written, in
-- the critical section, and in `release` after `lk->cpu = 0`.
pub data Pc : Type 0 where
  outside spinning won inside cleared : Pc

pub record Sys : Type 0 where
  pub lock : Lock
  pub cpu : ℕ → Cpu
  pub pc : ℕ → Pc

-- The next write of CPU `i` to the lock or to its own nesting, by the point at which the CPU stands. The
-- two reads of `holding` are in the step of `push_off`: they ask whether the CPU itself has the lock,
-- which no other CPU changes.
pub acquire_enter : ℕ → Sys → Option Sys
acquire_enter i s =
    if holding i s.lock
    then none
    else some (record s { cpu = update s.cpu i (push_off (s.cpu i)); pc = update s.pc i spinning })

pub acquire_spin : ℕ → Sys → Option Sys
acquire_spin i s =
    let (old, lk) = test_and_set s.lock in
    some (record s { lock = lk; pc = update s.pc i (if old then spinning else won) })

pub acquire_record : ℕ → Sys → Option Sys
acquire_record i s =
    some (record s { lock = record (s.lock) { cpu = some i }; pc = update s.pc i inside })

pub release_clear : ℕ → Sys → Option Sys
release_clear i s =
    if holding i s.lock
    then some (record s { lock = record (s.lock) { cpu = none }; pc = update s.pc i cleared })
    else none

pub release_unlock : ℕ → Sys → Option Sys
release_unlock i s = elim (pop_off (s.cpu i)) [
  | none ↦ none
  | some c ↦ some (record {
    lock = record (s.lock) { locked = false };
    cpu = update s.cpu i c;
    pc = update s.pc i outside;
  })
]

pub cpu_step : Pc → ℕ → Sys → Option Sys
cpu_step outside i s = acquire_enter i s
cpu_step spinning i s = acquire_spin i s
cpu_step won i s = acquire_record i s
cpu_step inside i s = release_clear i s
cpu_step cleared i s = release_unlock i s
