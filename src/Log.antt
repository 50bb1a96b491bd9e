-- ===== src/Log.antt =====
-- kernel/log.c: the redo log. A block is a number, its content a value of the type `D`; the buffer
-- cache gives, for each block, what `bread` would return, and `disk` what the device holds. A
-- buffer that `log_write` has pinned stays in the cache, so between two writes to the device the
-- cache keeps the modified content.
pub mod Writes
pub mod Order
pub mod Stages
pub mod Crash
pub mod Counters
pub mod Running
pub mod Reserve
pub mod Budget
mod Tests
use os_final_project.Prelude.{
  ℕ, ◌+◌, ◌-◌, ◌*◌, Bool, true, false, ◌||◌, Option, none, some, List, [], ◌∷◌, ◌++◌, ◌==◌,
  if◌then◌else◌, leb, update, length, add32, sub32, slt,
}

-- MAXOPBLOCKS and LOGBLOCKS of param.h.
abbrev pub maxopblocks : ℕ
maxopblocks = 10

abbrev pub logblocks : ℕ
logblocks = 30

-- `struct logheader`: `n` is the number of entries.
abbrev pub Header : Type 0
Header = List ℕ

-- `D` is the content of a data block. The header block, number `start`, holds a header instead.
pub record Disk (D : Type 0) : Type 0 where
  pub header : Header
  pub block : ℕ → D

-- What the device is told to write; one such write is atomic.
pub data Write (D : Type 0) : Type 0 where
  block : ℕ → D → Write D
  header : Header → Write D

-- The cache, the disk, the references that pin each buffer, and the writes made so far, in order.
pub record Io (D : Type 0) : Type 0 where
  pub cache : ℕ → D
  pub disk : Disk D
  pub pins : ℕ → ℕ
  pub trace : List (Write D)

-- `struct log`, less its lock and `dev`.
pub record Log : Type 0 where
  pub start : ℕ
  pub outstanding : ℕ
  pub committing : Bool
  pub lh : Header

-- `begin_op` enters the transaction or waits and is called again.
unfoldable pub begin_op : Log → Option Log
begin_op lg =
    if lg.committing
    then none
    else if slt logblocks (length lg.lh + (lg.outstanding + 1) * maxopblocks)
    then none
    else some (record lg { outstanding = add32 lg.outstanding 1 })

-- The part of `end_op` under the lock: whether the caller is to commit; `none` is the panic.
unfoldable pub end_op : Log → Option (Bool × Log)
end_op lg =
    let left = sub32 lg.outstanding 1 in
    if lg.committing
    then none
    else if left == 0
    then some (true, record lg { outstanding = left; committing = true })
    else some (false, record lg { outstanding = left })

-- The end of `end_op`, once `commit` has returned.
unfoldable pub commit_done : Log → Log
commit_done lg = record lg { committing = false }

unfoldable pub logged : ℕ → Header → Bool
logged b [] = false
logged b (x ∷ xs) = x == b || logged b xs

module _ {D : Type 0} where
  unfoldable pub apply : Write D → Disk D → Disk D
  apply (Write.block b v) d = record d { block = update d.block b v }
  apply (Write.header h) d = record d { header = h }

  -- `bwrite` of a buffer for the block `b` with the content `v`.
  unfoldable pub bwrite : ℕ → D → Io D → Io D
  unfolding apply
  bwrite b v io = record io {
    cache = update io.cache b v;
    disk = apply (Write.block b v) io.disk;
    trace = io.trace ++ (Write.block b v ∷ []);
  }

  -- `write_head`, with the header `h` in memory.
  unfoldable pub write_head : Header → Io D → Io D
  unfolding apply
  write_head h io = record io {
    disk = apply (Write.header h) io.disk;
    trace = io.trace ++ (Write.header h ∷ []);
  }

  unfoldable pub bpin : ℕ → Io D → Io D
  bpin b io = record io { pins = update io.pins b (io.pins b + 1) }

  unfoldable pub bunpin : ℕ → Io D → Io D
  bunpin b io = record io { pins = update io.pins b (io.pins b - 1) }

  -- The loop of `write_log` from the entry number `tail` of the header on.
  unfoldable pub write_log : ℕ → ℕ → Header → Io D → Io D
  write_log start tail [] io = io
  write_log start tail (b ∷ bs) io =
      write_log start (tail + 1) bs (bwrite (start + tail + 1) (io.cache b) io)

  -- The loop of `install_trans`.
  unfoldable pub install_trans : Bool → ℕ → ℕ → Header → Io D → Io D
  install_trans recovering start tail [] io = io
  install_trans recovering start tail (b ∷ bs) io =
      let io' = bwrite b (io.cache (start + tail + 1)) io in
      install_trans recovering start (tail + 1) bs (if recovering then io' else bunpin b io')

  unfoldable pub commit : Log → Io D → Log × Io D
  commit lg io =
      if length lg.lh == 0
      then (lg, io)
      else let after_head = write_head lg.lh (write_log lg.start 0 lg.lh io) in
        (record lg { lh = [] }, write_head [] (install_trans false lg.start 0 lg.lh after_head))

  -- `read_head` and the rest of `recover_from_log`; after a crash `bread` reads the disk.
  unfoldable pub recover_from_log : ℕ → Disk D → Disk D
  recover_from_log start d =
      let io : Io D = record { cache = d.block; disk = d; pins = λ b. 0; trace = [] } in
      (write_head [] (install_trans true start 0 d.header io)).disk

  -- The other fields of `log` are 0 at the start.
  unfoldable pub initlog : ℕ → Disk D → Log × Disk D
  initlog start d = (
    record { start = start; outstanding = 0; committing = false; lh = [] },
    recover_from_log start d,
  )

  -- `log_write` of a buffer for the block `b` that the caller has modified; `none` is a panic.
  unfoldable pub log_write : ℕ → Log → Io D → Option (Log × Io D)
  log_write b lg io =
      if leb logblocks (length lg.lh)
      then none
      else if slt lg.outstanding 1
      then none
      else if logged b lg.lh
      then some (lg, io)
      else some (record lg { lh = lg.lh ++ (b ∷ []) }, bpin b io)
