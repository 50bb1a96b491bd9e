-- ===== src/Pipe.antt =====
-- kernel/pipe.c: the ring of bytes behind a pipe. The lock is held between two sleeps, so each call
-- is cut at its sleeps: what it does up to the next one, or up to its return, is one step here.
pub mod Ring
pub mod Stream
mod Tests
use os_final_project.Prelude.{
  ℕ, zero, suc, ◌+◌, ◌%◌, Bool, true, false, ◌&&◌, ◌||◌, not, Option, none, some, List, [], ◌∷◌,
  ◌++◌, ◌==◌, if◌then◌else◌, add32, get_or, set, minus_one32, replicate,
}

-- PIPESIZE
abbrev pub pipesize : ℕ
pipesize = 512

-- `struct pipe`, less its lock. The two counters are `uint`s.
pub record Pipe : Type 0 where
  pub buf : List ℕ
  pub nread : ℕ
  pub nwrite : ℕ
  pub readopen : Bool
  pub writeopen : Bool

-- The page that `pipealloc` gets from `kalloc` holds the given bytes.
unfoldable pub pipealloc : List ℕ → Pipe
pipealloc page = record { buf = page; nread = 0; nwrite = 0; readopen = true; writeopen = true }

-- Whether the structure is freed, and the structure.
unfoldable pub pipeclose : Bool → Pipe → Bool × Pipe
pipeclose writable p =
    let p' : Pipe =
      if writable then record p { writeopen = false } else record p { readopen = false } in
    (not p'.readopen && not p'.writeopen, p')

unfoldable pub is_full : Pipe → Bool
is_full p = p.nwrite == add32 p.nread pipesize

unfoldable pub is_empty : Pipe → Bool
is_empty p = p.nread == p.nwrite

-- `pi->data[pi->nwrite++ % PIPESIZE] = ch`
unfoldable pub put : ℕ → Pipe → Pipe
put ch p = record p { buf = set p.buf (p.nwrite % pipesize) ch; nwrite = add32 p.nwrite 1 }

-- `ch = pi->data[pi->nread % PIPESIZE]`
unfoldable pub peek : Pipe → ℕ
peek p = get_or p.buf (p.nread % pipesize) 0

-- `pi->nread++`
unfoldable pub advance : Pipe → Pipe
advance p = record p { nread = add32 p.nread 1 }

-- A run of `pipewrite` returns a value, or sleeps with the bytes from `i` on still to be written.
pub data Written : Type 0 where
  returned : ℕ → Written
  asleep : ℕ → List (Option ℕ) → Written

-- `src` is the user's memory from `addr + i` to `addr + n`, `none` for a byte that `copyin` cannot
-- read; `killed` is the caller's flag.
unfoldable pub pipewrite : Bool → List (Option ℕ) → ℕ → Pipe → Written × Pipe
pipewrite killed [] i p = (returned i, p)
pipewrite killed (b ∷ src) i p =
    let stuck : Written × Pipe = (asleep i (b ∷ src), p) in
    let stored : Written × Pipe = elim b [
      | none ↦ (returned i, p)
      | some ch ↦ pipewrite killed src (i + 1) (put ch p)
    ] in
    if not p.readopen || killed
    then (returned minus_one32, p)
    else if is_full p
    then stuck
    else stored

-- The copying loop of `piperead`: `dst` tells for each of the user's bytes from `addr + i` on
-- whether `copyout` can write it. The result is the value returned, the bytes copied, and the pipe.
unfoldable pub copy_loop : List Bool → ℕ → Pipe → ℕ × List ℕ × Pipe
copy_loop [] i p = (i, [], p)
copy_loop (b ∷ dst) i p =
    let (r, out, p') = copy_loop dst (i + 1) (advance p) in
    if is_empty p
    then (i, [], p)
    else if b
    then (r, peek p ∷ out, p')
    else (if i == 0 then minus_one32 else i, [], p)

pub data Reading : Type 0 where
  returned : ℕ → List ℕ → Reading
  asleep : Reading

-- A run of `piperead`, from its call or from the return of its sleep.
unfoldable pub piperead : Bool → List Bool → Pipe → Reading × Pipe
piperead killed dst p =
    let (r, out, p') = copy_loop dst 0 p in
    if is_empty p && p.writeopen
    then if killed then (returned minus_one32 [], p) else (asleep, p)
    else (returned r out, p')
