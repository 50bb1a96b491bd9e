-- ===== src/Fs/Content/Turn.antt =====
-- kernel/fs.c: one turn of the loop of `writei`.
use os_final_project.Prelude.{
  ℕ, ◌+◌, ◌-◌, ◌*◌, ◌/◌, ◌%◌, ◌≤◌, ◌<◌, ◌≡◌, ◌≢◌, refl, ap, ap₂, sym, ◌∙◌, subst, ◌⊎◌, inl, inr,
  true, false, Bool-cases, some, if◌then◌else◌, ltb, arith, ==_iff, ==_ne, ℕ_discrete, add32,
}
use os_final_project.Fs.{Super, Disk, Inode, maxfile, bsize, min}
use os_final_project.Fs.Bitmap.Free.{IsFull}
use os_final_project.Fs.Blocks.Table.{slot, IsFile}
use os_final_project.Fs.Blocks.Map.{IsMapped}
use os_final_project.Fs.Blocks.Bmap.{bmap_lem}
use os_final_project.Fs.Content.{Source, WriteLoop, copy_in, write_step}
use os_final_project.Fs.Content.View.{content, within, content-mapped, content-copy_in}
use os_final_project.Fs.Content.Frame.{Kept, trans-Kept, mapped-Kept, copy_in-Kept}

-- After `tot` bytes, and `k` more that are not counted, from the start at the position `off` of the file.
pub record Progress (sb : Super) (s : Source) (d : Disk) (ip : Inode) (off n : ℕ) (w : WriteLoop)
    (k : ℕ) : Type 0 where
  pub file : IsFile sb w.disk w.inode
  pub off_now : w.off ≡ off + w.tot
  pub bound : w.tot + k ≤ n
  pub written :
      (p : ℕ)
      → p < maxfile * bsize
      → content w.disk w.inode p
        ≡ (if within off (w.tot + k) p then s.byte (p - off) else content d ip p)
  pub fields : w.inode ≡ record ip { addrs = w.inode.addrs }
  pub kept : Kept sb d ip w.inode w.disk
  pub dinodes : w.disk.dinodes ≡ d.dinodes

-- Why the loop ends: all is written, the disk is full, or a copy has failed after `k` bytes.
pub data Ended (sb : Super) (s : Source) (n tot : ℕ) (d : Disk) : ℕ → Type 0 where
  done : tot ≡ n → Ended sb s n tot d 0
  disk_full : IsFull sb d → Ended sb s n tot d 0
  copy_failed : (m : ℕ) → tot + m ≤ n → s.reach tot m < m → Ended sb s n tot d (s.reach tot m)

in_longer : (off tot len p : ℕ) → within (off + tot) len p ≡ true → within off (tot + len) p ≡ true
in_longer off tot len p t = ground arith

from_start :
    (off tot len p : ℕ) → within (off + tot) len p ≡ true → tot + (p - (off + tot)) ≡ p - off
from_start off tot len p t = ground arith

in_shorter :
    (off tot len p : ℕ)
    → within (off + tot) len p ≡ false
    → within off (tot + 0) p ≡ within off (tot + len) p
in_shorter off tot len p f = ground arith

-- A part of the source that is copied behind the part that is there makes a longer part.
splice :
    (s : Source) (off tot len p : ℕ) (old : ℕ)
    → (if within (off + tot) len p
        then s.byte (tot + (p - (off + tot)))
        else if within off (tot + 0) p
        then s.byte (p - off)
        else old)
      ≡ (if within off (tot + len) p then s.byte (p - off) else old)
splice s off tot len p old = elim (Bool-cases (within (off + tot) len p)) [
  | inl t ↦
      let u : within off (tot + len) p ≡ true = in_longer off tot len p t in
      let e : tot + (p - (off + tot)) ≡ p - off = from_start off tot len p t in
      rw (t, u) (ap s.byte e)
  | inr f ↦
      let u : within off (tot + 0) p ≡ within off (tot + len) p = in_shorter off tot len p f in
      rw (f, u) refl
]

module _ {sb : Super} {s : Source} {d : Disk} {ip : Inode} {off n : ℕ} {w : WriteLoop}
    (pr : Progress sb s d ip off n w 0) (fits : off + n ≤ maxfile * bsize) (more : w.tot < n)
    {r : ℕ} {ip' : Inode} {d' : Disk}
    (m : IsMapped sb w.disk w.inode (w.off / bsize) r ip' d') where
  -- The block is there, and nothing is copied yet.
  mapped-Progress : Progress sb s d ip off n (record w { inode = ip'; disk = d' }) 0
  mapped-Progress = record {
    file = m.grown.file;
    off_now = pr.off_now;
    bound = pr.bound;
    written = λ p lt. content-mapped pr.file m p lt ∙ pr.written p lt;
    fields = m.grown.fields ∙ ap (λ (x : Inode). record x { addrs = ip'.addrs }) pr.fields;
    kept =
        trans-Kept sb d w.disk d' ip w.inode ip' pr.kept
          (mapped-Kept m (omega (arith, pr.off_now)));
    dinodes = m.grown.dinodes ∙ pr.dinodes;
  }

  -- `len` bytes are copied into it, `c` of them counted.
  copied-Progress :
      (len c k tot off' : ℕ)
      → tot ≡ w.tot + c
      → off' ≡ w.off + c
      → c + k ≡ len
      → r ≢ 0
      → w.off % bsize + len ≤ bsize
      → w.tot + len ≤ n
      → Progress sb s d ip off n
          (record {
            tot = tot;
            off = off';
            inode = ip';
            disk = copy_in s r (w.off % bsize) len w.tot d';
          })
          k
  unfolding copy_in slot
  copied-Progress len c k tot off' et eo sum nz block le = record {
    file = record {
      array = m.grown.file.array;
      boot = m.grown.file.boot;
      table = m.grown.file.table;
    };
    off_now = omega (arith, pr.off_now);
    bound = omega arith;
    written = λ p lt.
        content-copy_in s r w.off len w.tot m.grown.file m.there nz (omega (arith, pr.off_now))
          block p lt
        ∙ ap₂ (λ o x. if within o len p then s.byte (w.tot + (p - o)) else x) pr.off_now
            (mapped-Progress.written p lt)
        ∙ splice s off w.tot len p (content d ip p)
        ∙ ap (λ x. if within off x p then s.byte (p - off) else content d ip p) (omega arith);
    fields = mapped-Progress.fields;
    kept = trans-Kept sb d d' _ ip ip' ip' mapped-Progress.kept (
        copy_in-Kept sb s d' ip' r (w.off % bsize) len w.tot (w.off / bsize) m.there
          (omega (arith, pr.off_now)));
    dinodes = mapped-Progress.dinodes;
  }

pub min-le : (a b : ℕ) → min a b ≤ a
min-le a b = ground arith

pub min-le_right : (a b : ℕ) → min a b ≤ b
min-le_right a b = ground arith

pub min_pos : (a b : ℕ) → 0 < a → 0 < b → 0 < min a b
min_pos a b h k = ground arith

pub min_short : (a b : ℕ) → ltb (min a b) b ≡ true → min a b ≡ a
min_short a b h = ground arith

pub min_full : (a b : ℕ) → ltb (min a b) b ≡ false → min a b ≡ b
min_full a b h = ground arith

-- A turn with bytes left to write: the loop goes on with more written, or ends for a reason.
pub write_step_lem :
    {sb : Super} {s : Source} {d : Disk} {ip : Inode} {off n : ℕ} (w : WriteLoop)
    → Progress sb s d ip off n w 0
    → off + n ≤ maxfile * bsize
    → w.tot < n
    → ((w' : WriteLoop) × (write_step sb s n w ≡ some (true, w'))
        × Progress sb s d ip off n w' 0
        × (w.tot < w'.tot))
      ⊎ ((w' : WriteLoop) × (k : ℕ) × (write_step sb s n w ≡ some (false, w'))
          × Progress sb s d ip off n w' k
          × Ended sb s n w'.tot w'.disk k)
unfolding write_step
write_step_lem {sb} {s} {d} {ip} {off} {n} w pr fits more =
    let (r, ip', d', e, m) = bmap_lem (w.off / bsize) pr.file (omega (arith, pr.off_now)) in
    let len = min (n - w.tot) (bsize - w.off % bsize) in
    let got = min (s.reach w.tot len) len in
    let le = min-le (n - w.tot) (bsize - w.off % bsize) in
    let le' = min-le_right (n - w.tot) (bsize - w.off % bsize) in
    let le'' = min-le_right (s.reach w.tot len) len in
    let pos = min_pos (n - w.tot) (bsize - w.off % bsize) (omega arith) (omega arith) in
    elim (ℕ_discrete r 0) [
      | yes z ↦ inr (
        record w { inode = ip'; disk = d' },
        0,
        rw (e, (==_iff r 0).1 z, write_step) refl,
        mapped-Progress pr fits more m,
        disk_full (m.full z),
      )
      | no nz ↦ elim (Bool-cases (ltb got len)) [
        | inl t ↦
            let w' : WriteLoop = record w {
              inode = ip';
              disk = copy_in s r (w.off % bsize) got w.tot d';
            } in
            inr (
              w',
              got,
              rw (e, ==_ne r 0 nz, t, write_step) refl,
              copied-Progress pr fits more m got 0 got w.tot w.off (omega arith) (omega arith)
                  (omega arith) nz (omega arith) (omega arith),
              subst (λ x. Ended sb s n w'.tot w'.disk x) (sym (min_short (s.reach w.tot len) len t))
                  (copy_failed len (omega arith) (ground arith)),
            )
        | inr f ↦ inl (
          record {
            tot = add32 w.tot len;
            off = add32 w.off len;
            inode = ip';
            disk = copy_in s r (w.off % bsize) got w.tot d';
          },
          rw (e, ==_ne r 0 nz, f, write_step) refl,
          copied-Progress pr fits more m got len 0 (add32 w.tot len) (add32 w.off len)
              (omega (arith, pr.bound)) (omega (arith, pr.off_now))
              (omega (arith, min_full (s.reach w.tot len) len f)) nz (omega arith) (omega arith),
          omega arith,
        )
      ]
    ]
