-- ===== src/Fs/Content.antt =====
-- kernel/fs.c: `readi` and `writei`, the loops over the blocks of a file's content.
pub mod View
pub mod Frame
pub mod Turn
pub mod Write
pub mod Read
pub mod Refine
pub mod RoundTrip
pub mod Isolated
use os_final_project.Prelude.{
  ℕ, zero, suc, ◌+◌, ◌-◌, ◌*◌, ◌/◌, ◌%◌, Bool, true, false, ◌&&◌, ◌||◌, not, Option, none, some,
  List, ◌==◌, if◌then◌else◌, ltb, leb, update, get_or, set, minus_one32, add32,
}
use os_final_project.Fs.{Super, Disk, Inode, maxfile, bsize, min}
use os_final_project.Fs.Blocks.{iupdate, bmap}

-- The memory that a transfer reads or writes, seen from its start: the bytes there, and how many of the
-- bytes asked for at a distance `either_copyin` or `either_copyout` gets through. It fails if these are not
-- all of them.
pub record Source : Type 0 where
  pub byte : ℕ → ℕ
  pub reach : ℕ → ℕ → ℕ

-- The variables of the loop of `writei`.
pub record WriteLoop : Type 0 where
  pub tot : ℕ
  pub off : ℕ
  pub inode : Inode
  pub disk : Disk

-- The first `len` bytes from `tot` on go into the block, from `pos` on.
unfoldable pub copy_in : Source → ℕ → ℕ → ℕ → ℕ → Disk → Disk
copy_in s b pos len tot d = record d {
  bytes =
      update d.bytes b
        (λ q. if leb pos q && ltb q (pos + len) then s.byte (tot + (q - pos)) else d.bytes b q);
}

-- The body of the loop of `writei`: whether the loop goes on, and its new state; `none` is the panic.
unfoldable pub write_step : Super → Source → ℕ → WriteLoop → Option (Bool × WriteLoop)
write_step sb s n w = elim (bmap sb w.inode (w.off / bsize) w.disk) [
  | none ↦ none
  | some (addr, ip, d) ↦
      let m = min (n - w.tot) (bsize - w.off % bsize) in
      let got = min (s.reach w.tot m) m in
      let d' = copy_in s addr (w.off % bsize) got w.tot d in
      if addr == 0
      then some (false, record w { inode = ip; disk = d })
      else if ltb got m
      then some (false, record w { inode = ip; disk = d' })
      else some (true, record { tot = add32 w.tot m; off = add32 w.off m; inode = ip; disk = d' })
]

-- The loop of `writei` on fuel; also `none` if the fuel is spent too early.
unfoldable pub write_loop : ℕ → Super → Source → ℕ → WriteLoop → Option WriteLoop
write_loop zero sb s n w = if ltb w.tot n then none else some w
write_loop (suc fuel) sb s n w =
    if ltb w.tot n
    then elim (write_step sb s n w) [
      | none ↦ none
      | some (true, w') ↦ write_loop fuel sb s n w'
      | some (false, w') ↦ some w'
    ]
    else some w

unfoldable pub grow : ℕ → Inode → Inode
grow off ip = record ip { size = if ltb ip.size off then off else ip.size }

-- The result and the new state; each turn of the loop transfers at least one byte.
unfoldable pub writei : Super → Inode → Source → ℕ → ℕ → Disk → Option (ℕ × Inode × Disk)
writei sb ip s off n d =
    if ltb ip.size off || ltb (add32 off n) off
    then some (minus_one32, ip, d)
    else if ltb (maxfile * bsize) (add32 off n)
    then some (minus_one32, ip, d)
    else elim (write_loop n sb s n (record { tot = 0; off = off; inode = ip; disk = d })) [
      | none ↦ none
      | some w ↦ let ip' = grow w.off w.inode in some (w.tot, ip', iupdate sb ip' w.disk)
    ]

-- The variables of the loop of `readi`, and the memory at its destination.
pub record ReadLoop : Type 0 where
  pub tot : ℕ
  pub off : ℕ
  pub inode : Inode
  pub disk : Disk
  pub out : ℕ → ℕ

-- The first `len` bytes of the block from `pos` on go to the distance `tot`.
unfoldable pub copy_out : (ℕ → ℕ) → ℕ → ℕ → ℕ → (ℕ → ℕ) → ℕ → ℕ
copy_out block pos len tot out q =
    if leb tot q && ltb q (tot + len) then block (pos + (q - tot)) else out q

unfoldable pub read_step : Super → (ℕ → ℕ → ℕ) → ℕ → ReadLoop → Option (Bool × ReadLoop)
read_step sb reach n r = elim (bmap sb r.inode (r.off / bsize) r.disk) [
  | none ↦ none
  | some (addr, ip, d) ↦
      let m = min (n - r.tot) (bsize - r.off % bsize) in
      let got = min (reach r.tot m) m in
      let out' = copy_out (d.bytes addr) (r.off % bsize) got r.tot r.out in
      if addr == 0
      then some (false, record r { inode = ip; disk = d })
      else if ltb got m
      then some (false, record r { tot = minus_one32; inode = ip; disk = d; out = out' })
      else some (
        true,
        record { tot = add32 r.tot m; off = add32 r.off m; inode = ip; disk = d; out = out' },
      )
]

unfoldable pub read_loop : ℕ → Super → (ℕ → ℕ → ℕ) → ℕ → ReadLoop → Option ReadLoop
read_loop zero sb reach n r = if ltb r.tot n then none else some r
read_loop (suc fuel) sb reach n r =
    if ltb r.tot n
    then elim (read_step sb reach n r) [
      | none ↦ none
      | some (true, r') ↦ read_loop fuel sb reach n r'
      | some (false, r') ↦ some r'
    ]
    else some r

-- The state at the end; `tot` is the result.
unfoldable pub readi : Super → Inode → (ℕ → ℕ → ℕ) → ℕ → ℕ → Disk → (ℕ → ℕ) → Option ReadLoop
readi sb ip reach off n d out =
    let start : ReadLoop = record { tot = 0; off = off; inode = ip; disk = d; out = out } in
    if ltb ip.size off || ltb (add32 off n) off
    then some start
    else (let n' = if ltb ip.size (add32 off n) then ip.size - off else n in
        read_loop n' sb reach n' start)
