-- ===== src/Fs/Trunc.antt =====
-- kernel/fs.c: `itrunc` and the release of an inode that nothing refers to (`iput`).
pub mod Run
pub mod Direct
pub mod Laws
pub mod Whole
use os_final_project.Prelude.{
  ℕ, zero, suc, ◌+◌, ◌-◌, ◌*◌, ◌/◌, ◌%◌, Bool, true, false, ◌&&◌, ◌||◌, not, Option, none, some,
  List, ◌==◌, if◌then◌else◌, ltb, leb, update, get_or, set, ◌>>=◌,
}
use os_final_project.Fs.{Super, Disk, Inode, ndirect, nindirect}
use os_final_project.Fs.Bitmap.{bfree}
use os_final_project.Fs.Blocks.{iupdate}

-- The loop over the direct blocks from `i` on, `left` of them; `none` is a panic of `bfree`.
unfoldable pub free_direct : ℕ → ℕ → Super → Inode → Disk → Option (Inode × Disk)
free_direct zero i sb ip d = some (ip, d)
free_direct (suc left) i sb ip d =
    let addr = get_or ip.addrs i 0 in
    if addr == 0 then free_direct left (i + 1) sb ip d else elim (bfree sb addr d) [
      | none ↦ none
      | some d' ↦ free_direct left (i + 1) sb (record ip { addrs = set ip.addrs i 0 }) d'
    ]

-- The loop over the entries of the indirect block `ind`.
unfoldable pub free_entries : ℕ → ℕ → Super → ℕ → Disk → Option Disk
free_entries zero j sb ind d = some d
free_entries (suc left) j sb ind d =
    let addr = d.words ind j in
    if addr == 0
    then free_entries left (j + 1) sb ind d
    else elim (bfree sb addr d) [ none ↦ none | some d' ↦ free_entries left (j + 1) sb ind d' ]

-- The indirect block with its entries.
unfoldable pub free_indirect : Super → Inode → Disk → Option (Inode × Disk)
free_indirect sb ip d =
    let ind = get_or ip.addrs ndirect 0 in
    if ind == 0 then some (ip, d) else do
      d' ← free_entries nindirect 0 sb ind d
      d'' ← bfree sb ind d'
      some (record ip { addrs = set ip.addrs ndirect 0 }, d'')

unfoldable pub itrunc : Super → Inode → Disk → Option (Inode × Disk)
itrunc sb ip d = do
  (ip', d') ← free_direct ndirect 0 sb ip d
  (ip'', d'') ← free_indirect sb ip' d'
  let cut : Inode = record ip'' { size = 0 }
  some (cut, iupdate sb cut d'')
