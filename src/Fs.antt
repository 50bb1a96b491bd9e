-- ===== src/Fs.antt =====
-- kernel/fs.c, kernel/fs.h: the file system above the buffer cache and the log. Each use of a block has
-- its own view here: the bits of a block of the free map, the `uint`s of an indirect block, the bytes of
-- a data block, and the inodes of an inode block. `bread` gives the block, and what is handed to
-- `log_write` is the block from then on.
pub mod Bitmap
pub mod Blocks
pub mod Content
pub mod Trunc
mod Tests
use os_final_project.Prelude.{ℕ, ◌+◌, ◌*◌, ◌/◌, ◌%◌, Bool, List, if◌then◌else◌, ltb}

-- BSIZE, BPB, NDIRECT, NINDIRECT, MAXFILE and IPB of fs.h.
abbrev pub bsize : ℕ
bsize = 1024

abbrev pub bpb : ℕ
bpb = 8192

abbrev pub ndirect : ℕ
ndirect = 12

abbrev pub nindirect : ℕ
nindirect = 256

abbrev pub maxfile : ℕ
maxfile = 268

abbrev pub ipb : ℕ
ipb = 16

-- The fields of `struct superblock` that the kernel reads after it has started.
pub record Super : Type 0 where
  pub size : ℕ
  pub ninodes : ℕ
  pub inodestart : ℕ
  pub bmapstart : ℕ

-- `struct dinode`
pub record Dinode : Type 0 where
  pub type : ℕ
  pub major : ℕ
  pub minor : ℕ
  pub nlink : ℕ
  pub size : ℕ
  pub addrs : List ℕ

-- The four views: from the number of a block and a position in it.
pub record Disk : Type 0 where
  pub bits : ℕ → ℕ → Bool
  pub words : ℕ → ℕ → ℕ
  pub bytes : ℕ → ℕ → ℕ
  pub dinodes : ℕ → ℕ → Dinode

-- `struct inode`, less its lock.
pub record Inode : Type 0 where
  pub dev : ℕ
  pub inum : ℕ
  pub ref : ℕ
  pub valid : Bool
  pub type : ℕ
  pub major : ℕ
  pub minor : ℕ
  pub nlink : ℕ
  pub size : ℕ
  pub addrs : List ℕ

-- BBLOCK, with the position of the bit, and IBLOCK.
abbrev pub bblock : Super → ℕ → ℕ
bblock sb b = b / bpb + sb.bmapstart

abbrev pub iblock : Super → ℕ → ℕ
iblock sb i = i / ipb + sb.inodestart

-- The macro `min`.
abbrev pub min : ℕ → ℕ → ℕ
min a b = if ltb a b then a else b
