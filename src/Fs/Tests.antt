-- ===== src/Fs/Tests.antt =====
-- kernel/fs.c: a small disk, and a file on it.
use os_final_project.Prelude.{
  ℕ, zero, suc, ◌+◌, ◌%◌, ◌/◌, ◌≤◌, ◌<◌, ◌≡◌, ◌≢◌, refl, ap, sym, ◌∙◌, ◌⊎◌, inl, inr, Bool, true,
  false, Option, none, some, List, [], ◌∷◌, ◌==◌, if◌then◌else◌, ltb, ◌||◌, arith, get_or,
  replicate, minus_one32, subst,
}
use os_final_project.Fs.{Super, Disk, Inode, maxfile, bsize}
use os_final_project.Fs.Bitmap.{balloc, bfree, find_free, find_bit}
use os_final_project.Fs.Bitmap.Laws.{is_used}
use os_final_project.Fs.Bitmap.Free.{IsFull, IsFirstFree, IsTaken, balloc_lem, bfree-balloc}
use os_final_project.Fs.Blocks.{bmap, load_addr}
use os_final_project.Fs.Blocks.Table.{slot, IsFile, slot_kinds, slot_addr, slot_entry}
use os_final_project.Fs.Blocks.Map.{IsMapped}
use os_final_project.Fs.Blocks.Bmap.{bmap_lem}
use os_final_project.Fs.Content.{ReadLoop, writei, readi, write_loop, write_step}
use os_final_project.Fs.Content.View.{content}
use os_final_project.Fs.Content.Frame.{Outside}
use os_final_project.Fs.Content.Write.{IsWritten, writei_lem}
use os_final_project.Fs.Content.Read.{Outcome, available, readi_lem}
use os_final_project.Fs.Content.Refine.{
  Bytes, Write, IsView, kernel_source, spec_run, run, run_refines, writei_refused,
}
use os_final_project.Fs.Content.RoundTrip.{readi-writei}
use os_final_project.Fs.Content.Isolated.{writei_isolated}
use os_final_project.Fs.Trunc.{itrunc}
use os_final_project.Fs.Trunc.Whole.{IsTruncated, itrunc_lem, no_blocks-IsTable, slot-empty}

-- 20 blocks, of which the first 10 are in use, and block 12.
abbrev super : Super
super = record { size = 20; ninodes = 16; inodestart = 5; bmapstart = 9 }

abbrev disk : Disk
disk = record {
  bits = λ b i. ltb i 10 || i == 12;
  words = λ b i. 0;
  bytes = λ b i. 7;
  dinodes = λ b i. record { type = 0; major = 0; minor = 0; nlink = 0; size = 0; addrs = [] };
}

abbrev file : Inode
file = record {
  dev = 1;
  inum = 3;
  ref = 1;
  valid = true;
  type = 2;
  major = 0;
  minor = 0;
  nlink = 1;
  size = 0;
  addrs = replicate 13 0;
}

get_or-replicate : (n j : ℕ) → get_or {A = ℕ} (replicate n 0) j 0 ≡ 0
get_or-replicate zero j = refl
get_or-replicate (suc n) zero = refl
get_or-replicate (suc n) (suc j) = get_or-replicate n j

file-IsFile : IsFile super disk file
file-IsFile = record {
  array = refl;
  boot = refl;
  table =
      no_blocks-IsTable (is_used super disk) (slot disk file)
        (slot-empty disk file (λ j lt. get_or-replicate 13 j));
}

abbrev text : ℕ → ℕ
text i = i + 65

-- Another file, with one block.
abbrev other : Inode
other = record file { inum = 4; size = 9; addrs = 12 ∷ replicate 12 0 }

no_slots : (i : ℕ) → slot disk file i ≡ 0
no_slots = slot-empty disk file (λ j lt. get_or-replicate 13 j)

other_slots : (i : ℕ) → (slot disk other i ≡ 12) ⊎ (slot disk other i ≡ 0)
unfolding slot
other_slots zero = inl refl
other_slots (suc i) = elim (slot_kinds (suc i)) [
  | inl lt ↦ inr (slot_addr disk other (suc i) lt ∙ get_or-replicate 12 i)
  | inr (inl e) ↦ inr (ap (slot disk other) e)
  | inr (inr (le, ne)) ↦ inr (slot_entry disk other (suc i) le ne)
]

other-Outside :
    (i : ℕ) → i ≤ maxfile → slot disk other i ≢ 0 → Outside super disk file (slot disk other i)
other-Outside i le nz = elim (other_slots i) [
  | inr z ↦ absurd (nz z)
  | inl e ↦ subst (Outside super disk file) (sym e) (record {
    block = omega arith;
    marked = refl;
    apart = λ j le' q. let r : 0 ≡ 12 = sym (no_slots j) ∙ q in omega arith;
  })
]

-- Two bytes are written at the start of the file, which gets block 10.
after : Option (ℕ × Inode × Disk)
after = writei super file (kernel_source text) 0 2 disk

inode_after : Inode
inode_after = elim after [ none ↦ file | some (t, ip, d) ↦ ip ]

disk_after : Disk
disk_after = elim after [ none ↦ disk | some (t, ip, d) ↦ d ]

writes : writei super file (kernel_source text) 0 2 disk ≡ some (2, inode_after, disk_after)
unfolding after inode_after disk_after writei write_loop write_step bmap load_addr balloc find_free
    find_bit
writes = refl

balloc_example :
    ((balloc super disk ≡ (0, disk)) × IsFull super disk)
    ⊎ (((balloc super disk).0 ≢ 0)
        × IsFirstFree super disk (balloc super disk).0
        × IsTaken super disk (balloc super disk).0 (balloc super disk).1)
balloc_example = balloc_lem super disk refl

bfree-balloc_example :
    (d' : Disk) × (bfree super (balloc super disk).0 (balloc super disk).1 ≡ some d')
    × ((c : ℕ) → is_used super d' c ≡ is_used super disk c)
unfolding balloc find_free find_bit
bfree-balloc_example = bfree-balloc super disk refl (omega arith)

bmap_example :
    (r : ℕ) × (ip' : Inode) × (d' : Disk) × (bmap super file 20 disk ≡ some (r, ip', d'))
    × IsMapped super disk file 20 r ip' d'
bmap_example = bmap_lem 20 file-IsFile (omega arith)

itrunc_example :
    (ip' : Inode) × (d' : Disk) × (itrunc super file disk ≡ some (ip', d'))
    × IsTruncated super disk file ip' d'
itrunc_example = itrunc_lem file-IsFile

writei_example :
    (tot : ℕ) × (k : ℕ) × (ip' : Inode) × (d' : Disk) × (writei super file
        (kernel_source text)
        0
        3000
        disk
      ≡ some (tot, ip', d'))
    × IsWritten super file (kernel_source text) 0 3000 disk tot k ip' d'
writei_example = writei_lem (kernel_source text) 0 3000 file-IsFile (omega arith) (omega arith)

readi_example :
    (r : ReadLoop) × (readi super file (λ tot m. m) 0 100 disk text ≡ some r)
    × Outcome super (λ tot m. m) disk file 0 (available 0 0 100) text r
readi_example =
    readi_lem (λ tot m. m) 0 100 text file-IsFile (omega arith) (omega arith) (omega arith)

writei_refused_example :
    writei super file (kernel_source text) 0xffff_ffff 2 disk ≡ some (minus_one32, file, disk)
writei_refused_example =
    writei_refused super file disk (kernel_source text) 0xffff_ffff 2 (omega arith) (omega arith)
      (inl (omega arith))

readi-writei_example :
    (r : ReadLoop) × (readi super inode_after (λ tot m. m) 0 2 disk_after (λ q. 0) ≡ some r)
    × (((r.tot ≡ 2) × ((q : ℕ) → q < 2 → r.out q ≡ text q)) ⊎ IsFull super r.disk)
readi-writei_example =
    readi-writei text (λ q. 0) 0 2 file-IsFile (omega arith) (omega arith) (omega arith) writes

writei_isolated_example : content disk_after other 3 ≡ content disk other 3
writei_isolated_example =
    writei_isolated other (kernel_source text) 0 2 file-IsFile other-Outside (omega arith)
      (omega arith) writes 3 (omega arith)

abbrev two_writes : List Write
two_writes = record { off = 0; n = 2; byte = text } ∷ record { off = 1; n = 1500; byte = text } ∷ []

abbrev no_bytes : Bytes
no_bytes = record { size = 0; byte = λ p. 0 }

no_bytes-IsView : IsView no_bytes file disk
unfolding content
no_bytes-IsView = record {
  size = refl;
  small = omega arith;
  bytes = λ p lt. ap (λ b. if b == 0 then 0 else disk.bytes b (p % bsize)) (no_slots (p / bsize));
}

run_refines_example :
    (ok : Bool) × (ip' : Inode) × (d' : Disk) × (run super two_writes file disk
      ≡ some (ok, ip', d'))
    × IsFile super d' ip'
    × (((f' : Bytes) × (ok ≡ true) × (spec_run two_writes no_bytes ≡ some f') × IsView f' ip' d')
        ⊎ ((ok ≡ false) × ((spec_run two_writes no_bytes ≡ none) ⊎ IsFull super d')))
run_refines_example =
    run_refines two_writes super disk file no_bytes file-IsFile no_bytes-IsView
      ((omega arith, omega arith), ((omega arith, omega arith), tt))
