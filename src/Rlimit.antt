-- ===== src/Rlimit.antt =====
-- kernel/sysproc.c, kernel/trap.c, kernel/file.c, kernel/sysfile.c: the limits on processor time
-- and on open files, with the calls that read and set them and the places that enforce them.
pub mod Cpu
pub mod Files
mod Tests
use os_final_project.Prelude.{
  ℕ, zero, suc, ◌+◌, Bool, true, false, ◌&&◌, ◌||◌, not, Option, none, some, List, [], ◌∷◌, ◌==◌,
  if◌then◌else◌, ltb, leb, slt, sle, sext, add32, add64, sub64, sub32, minus_one64, set,
}
use os_final_project.Proc.{Procstate, running, Proc}

-- RLIMIT_NOFILE, RLIMIT_CPU, MAX_CPU_TICKS, NOFILE of param.h.
abbrev pub rlimit_nofile : ℕ
rlimit_nofile = 0

abbrev pub rlimit_cpu : ℕ
rlimit_cpu = 1

abbrev pub max_cpu_ticks : ℕ
max_cpu_ticks = 10000

abbrev pub nofile : ℕ
nofile = 16

-- `struct rlimit`
pub record Limits : Type 0 where
  pub rlim_cur : ℕ
  pub rlim_max : ℕ

unfoldable pub count_open : List (Option ℕ) → ℕ
count_open [] = 0
count_open (none ∷ fs) = count_open fs
count_open (some f ∷ fs) = count_open fs + 1

unfoldable pub get_proc_open_files : Proc → ℕ
unfolding count_open
get_proc_open_files p = count_open p.ofile

-- The structure that `sys_getrlimit` fills in; `none` is its error for an unknown resource. The
-- comparison of the number of open files with the limit is between two `int`s.
pub getrlimit : ℕ → Proc → Option Limits
getrlimit resource p =
    let open_files = get_proc_open_files p in
    if resource == rlimit_nofile
    then some (record {
      rlim_cur = if sle p.nofile_max open_files then 0 else sext (sub32 p.nofile_max open_files);
      rlim_max = sext p.nofile_max;
    })
    else if resource == rlimit_cpu
    then some (record {
      rlim_cur = if leb p.cpu_ticks_max p.cpu_ticks then 0 else sub64 p.cpu_ticks_max p.cpu_ticks;
      rlim_max = p.cpu_ticks_max;
    })
    else none

-- `sys_setrlimit`: `rlim_max` is an `int`; where it meets a `uint64` it is sign-extended.
pub set_cpu_limit : ℕ → Proc → ℕ × Proc
set_cpu_limit rlim_max p =
    if rlim_max == 0
    then (minus_one64, p)
    else if slt max_cpu_ticks rlim_max
    then (minus_one64, p)
    else if leb (sext rlim_max) p.cpu_ticks
    then (minus_one64, p)
    else (0, record p { cpu_ticks_max = sext rlim_max })

pub set_file_limit : ℕ → Proc → ℕ × Proc
set_file_limit rlim_max p =
    if slt nofile rlim_max
    then (minus_one64, p)
    else if sle rlim_max 0
    then (minus_one64, p)
    else if sle rlim_max (get_proc_open_files p)
    then (minus_one64, p)
    else (0, record p { nofile_max = rlim_max })

pub setrlimit : ℕ → ℕ → Proc → ℕ × Proc
setrlimit resource rlim_max p =
    if resource == rlimit_cpu
    then set_cpu_limit rlim_max p
    else if resource == rlimit_nofile
    then set_file_limit rlim_max p
    else (minus_one64, p)

pub is_running : Procstate → Bool
is_running running = true
is_running _ = false

-- The timer's part of `usertrap`, before its `yield`.
pub user_tick : Proc → Proc
user_tick p =
    let ticks = add64 p.cpu_ticks 1 in
    if is_running p.state
    then if not (p.cpu_ticks_max == 0) && leb p.cpu_ticks_max ticks
      then record p { cpu_ticks = ticks; killed = 1 }
      else record p { cpu_ticks = ticks }
    else p

-- The timer's part of `kerneltrap`, before its `yield`.
pub kernel_tick : Proc → Proc
kernel_tick p = record p { cpu_ticks = add64 p.cpu_ticks 1 }

-- The first lines of `sys_open`: whether it goes on.
pub open_allowed : Proc → Bool
open_allowed p = not (sle p.nofile_max (get_proc_open_files p))

-- `fdalloc`: the first free slot below `nofile_cur`, filled with the file.
pub fd_from : ℕ → ℕ → List (Option ℕ) → Option ℕ
fd_from fd limit [] = none
fd_from fd limit (none ∷ fs) = if slt fd limit then some fd else none
fd_from fd limit (some f ∷ fs) =
    let rest = fd_from (fd + 1) limit fs in if slt fd limit then rest else none

pub fdalloc : ℕ → Proc → Option (ℕ × Proc)
fdalloc f p = elim (fd_from 0 p.nofile_cur p.ofile) [
  | none ↦ none
  | some fd ↦ some (fd, record p { ofile = set p.ofile fd (some f) })
]
