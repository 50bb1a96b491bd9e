-- ===== src/Fs/Blocks.antt =====
-- kernel/fs.c: the blocks of an inode (`bmap`, `itrunc`, `iupdate`), and its content (`readi`, `writei`).
pub mod Table
pub mod Put
pub mod Grown
pub mod Map
pub mod Bmap
use os_final_project.Prelude.{
  ℕ, zero, suc, ◌+◌, ◌-◌, ◌*◌, ◌/◌, ◌%◌, Bool, true, false, ◌&&◌, ◌||◌, not, Option, none, some,
  List, ◌==◌, if◌then◌else◌, ltb, leb, update, get_or, set, minus_one32, add32,
}
use os_final_project.Fs.{
  Super, Disk, Inode, Dinode, ndirect, nindirect, maxfile, bsize, ipb, iblock, min,
}
use os_final_project.Fs.Bitmap.{balloc, bfree}

unfoldable pub iupdate : Super → Inode → Disk → Disk
iupdate sb ip d = record d {
  dinodes = update d.dinodes (iblock sb ip.inum) (
      update (d.dinodes (iblock sb ip.inum)) (ip.inum % ipb) (record {
        type = ip.type;
        major = ip.major;
        minor = ip.minor;
        nlink = ip.nlink;
        size = ip.size;
        addrs = ip.addrs;
      }));
}

-- The block in `addrs[i]`, allocated if there is none; 0 if the disk is full.
unfoldable pub load_addr : Super → Inode → ℕ → Disk → ℕ × Inode × Disk
load_addr sb ip i d =
    let addr = get_or ip.addrs i 0 in
    let (new, d') = balloc sb d in
    if addr == 0
    then if new == 0 then (0, ip, d') else (new, record ip { addrs = set ip.addrs i new }, d')
    else (addr, ip, d)

-- The same for the entry `bn` of the indirect block `ind`.
unfoldable pub load_entry : Super → ℕ → ℕ → Disk → ℕ × Disk
load_entry sb ind bn d =
    let addr = d.words ind bn in
    let (new, d') = balloc sb d in
    if addr == 0
    then if new == 0
      then (0, d')
      else (new, record d' { words = update d'.words ind (update (d'.words ind) bn new) })
    else (addr, d)

-- `none` is the panic.
unfoldable pub bmap : Super → Inode → ℕ → Disk → Option (ℕ × Inode × Disk)
bmap sb ip bn d =
    if ltb bn ndirect
    then some (load_addr sb ip bn d)
    else if ltb (bn - ndirect) nindirect
    then (let (ind, ip', d') = load_addr sb ip ndirect d in
        if ind == 0
        then some (0, ip', d')
        else (let (addr, d'') = load_entry sb ind (bn - ndirect) d' in some (addr, ip', d'')))
    else none
