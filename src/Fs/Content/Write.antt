-- ===== src/Fs/Content/Write.antt =====
-- kernel/fs.c: `writei` replaces a part of the content of a file.
use os_final_project.Prelude.{
  ℕ, zero, suc, ◌+◌, ◌-◌, ◌*◌, ◌%◌, ◌≤◌, ◌<◌, ◌≡◌, refl, ap, ap₂, sym, ◌∙◌, subst, inl, inr, false,
  Bool-cases, some, if◌then◌else◌, ltb, arith, update_self, add32,
}
use os_final_project.Fs.{Super, Disk, Inode, Dinode, maxfile, bsize, iblock, ipb}
use os_final_project.Fs.Blocks.{iupdate}
use os_final_project.Fs.Blocks.Table.{slot, IsFile}
use os_final_project.Fs.Content.{Source, WriteLoop, write_loop, grow, writei}
use os_final_project.Fs.Content.View.{content, within}
use os_final_project.Fs.Content.Frame.{Kept, refl-Kept}
use os_final_project.Fs.Content.Turn.{Progress, Ended, done, disk_full, copy_failed, write_step_lem}

module _ {sb : Super} {s : Source} {d : Disk} {ip : Inode} {off n : ℕ}
    (fits : off + n ≤ maxfile * bsize) where
  -- The fuel is enough: each turn but the last one transfers a byte.
  write_loop_lem :
      (fuel : ℕ) (w : WriteLoop)
      → Progress sb s d ip off n w 0
      → n ≤ w.tot + fuel
      → (w' : WriteLoop) × (k : ℕ) × (write_loop fuel sb s n w ≡ some w')
        × Progress sb s d ip off n w' k
        × Ended sb s n w'.tot w'.disk k
  unfolding write_loop
  write_loop_lem zero w pr enough =
      (w, 0, ground (arith, pr.bound), pr, done (omega (arith, pr.bound)))
  write_loop_lem (suc fuel) w pr enough = elim (Bool-cases (ltb w.tot n)) [
    | inr f ↦ (w, 0, rw (f) refl, pr, done (ground (arith, pr.bound)))
    | inl t ↦ elim (write_step_lem w pr fits (ground arith)) [
      | inl (w', e, pr', more) ↦
          let (w'', k, e', pr'', r) = write_loop_lem fuel w' pr' (omega arith) in
          (w'', k, rw (t, e) e', pr'', r)
      | inr (w', k, e, pr', r) ↦ (w', k, rw (t, e) refl, pr', r)
    ]
  ]

-- The inode as `iupdate` writes it.
abbrev pub dinode : Inode → Dinode
dinode ip = record {
  type = ip.type;
  major = ip.major;
  minor = ip.minor;
  nlink = ip.nlink;
  size = ip.size;
  addrs = ip.addrs;
}

-- The outcome of `writei`: `tot` bytes are counted, and `k` more may be in the block where a copy failed.
pub record IsWritten (sb : Super) (ip : Inode) (s : Source) (off n : ℕ) (d : Disk) (tot k : ℕ)
    (ip' : Inode) (d' : Disk) : Type 0 where
  pub file : IsFile sb d' ip'
  pub bound : tot + k ≤ n
  pub size : ip'.size ≡ (if ltb ip.size (off + tot) then off + tot else ip.size)
  pub written :
      (p : ℕ)
      → p < maxfile * bsize
      → content d' ip' p ≡ (if within off (tot + k) p then s.byte (p - off) else content d ip p)
  pub ended : Ended sb s n tot d' k
  pub kept : Kept sb d ip ip' d'
  pub on_disk : d'.dinodes (iblock sb ip.inum) (ip.inum % ipb) ≡ dinode ip'

finish :
    {sb : Super} {s : Source} {d : Disk} {ip : Inode} {off n : ℕ} (w : WriteLoop) (k : ℕ)
    → Progress sb s d ip off n w k
    → Ended sb s n w.tot w.disk k
    → IsWritten sb ip s off n d w.tot k
        (grow w.off w.inode)
        (iupdate sb (grow w.off w.inode) w.disk)
unfolding iupdate grow slot content
finish {sb} {s} {d} {ip} {off} {n} w k pr ended = record {
  file = record { array = pr.file.array; boot = pr.file.boot; table = pr.file.table };
  bound = pr.bound;
  size = ap₂ (λ x y. if ltb x y then y else x) (ap (λ (x : Inode). x.size) pr.fields) pr.off_now;
  written = pr.written;
  ended = still ended;
  kept = λ c o.
      let (o', b, v) = pr.kept c o in
      (record { block = o'.block; marked = o'.marked; apart = o'.apart }, b, v);
  on_disk =
      let e = ap (λ (x : Inode). x.inum) pr.fields in
      subst
        (λ i.
          (iupdate sb (grow w.off w.inode) w.disk).dinodes (iblock sb i) (i % ipb)
          ≡ dinode (grow w.off w.inode))
        e
        (ap (λ f. f (w.inode.inum % ipb)) (update_self w.disk.dinodes (iblock sb w.inode.inum) _)
          ∙ update_self (w.disk.dinodes (iblock sb w.inode.inum)) (w.inode.inum % ipb) _);
}
  where
    still :
        {k : ℕ}
        → Ended sb s n w.tot w.disk k
        → Ended sb s n w.tot (iupdate sb (grow w.off w.inode) w.disk) k
    still (done e) = done e
    still (disk_full f) = disk_full f
    still (copy_failed m le lt) = copy_failed m le lt

empty_part : (off p : ℕ) → within off 0 p ≡ false
empty_part off p = ground arith

-- For an inode whose blocks are a table, and a part that starts in the file or at its end and fits into the largest
-- file: `writei` does not panic and ends. It counts `tot` bytes; these and no other bytes, but for the `k` bytes of a copy
-- that failed, are replaced in the content by those of the source. The size covers what is counted, and is never
-- smaller than before; the blocks are a table again, and the inode is on the disk. Less than
-- asked for is counted only if the disk is full or a copy has failed, and the blocks
-- of other files keep what is in them.
pub writei_lem :
    {sb : Super} {d : Disk} {ip : Inode} (s : Source) (off n : ℕ)
    → IsFile sb d ip
    → off ≤ ip.size
    → off + n ≤ maxfile * bsize
    → (tot : ℕ) × (k : ℕ) × (ip' : Inode) × (d' : Disk) × (writei sb ip s off n d
        ≡ some (tot, ip', d'))
      × IsWritten sb ip s off n d tot k ip' d'
unfolding writei
writei_lem {sb} {d} {ip} s off n file start fits =
    let (w, k, e, pr, ended) = write_loop_lem fits n _ begin (omega arith) in
    (
      w.tot,
      k,
      grow w.off w.inode,
      iupdate sb (grow w.off w.inode) w.disk,
      rw (no_hole, no_wrap, small, e) refl,
      finish w k pr ended,
    )
  where
    begin : Progress sb s d ip off n (record { tot = 0; off = off; inode = ip; disk = d }) 0
    begin = record {
      file = file;
      off_now = omega arith;
      bound = omega arith;
      written =
          λ p lt. sym (ap (λ t. if t then s.byte (p - off) else content d ip p) (empty_part off p));
      fields = refl;
      kept = refl-Kept sb d ip;
      dinodes = refl;
    }

    no_hole : ltb ip.size off ≡ false
    no_hole = ground arith

    no_wrap : ltb (add32 off n) off ≡ false
    no_wrap = ground arith

    small : ltb (maxfile * bsize) (add32 off n) ≡ false
    small = ground arith
