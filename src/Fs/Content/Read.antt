-- ===== src/Fs/Content/Read.antt =====
-- kernel/fs.c: `readi` copies a part of the content of a file.
use os_final_project.Prelude.{
  ℕ, zero, suc, ◌+◌, ◌-◌, ◌*◌, ◌/◌, ◌%◌, ◌≤◌, ◌<◌, ◌≡◌, ◌≢◌, refl, ap, sym, ◌∙◌, ◌⊎◌, inl, inr,
  true, false, Bool-cases, some, if◌then◌else◌, ltb, arith, ==_iff, ==_ne, ℕ_discrete, add32,
  minus_one32, m32,
}
use os_final_project.Fs.{Super, Disk, Inode, maxfile, bsize, min}
use os_final_project.Fs.Bitmap.Free.{IsFull}
use os_final_project.Fs.Blocks.Table.{slot, IsFile}
use os_final_project.Fs.Blocks.Grown.{Grown, refl-Grown, trans-Grown}
use os_final_project.Fs.Blocks.Map.{IsMapped}
use os_final_project.Fs.Blocks.Bmap.{bmap_lem}
use os_final_project.Fs.Content.{ReadLoop, copy_out, read_step, read_loop, readi}
use os_final_project.Fs.Content.View.{content, content_at, within, content-mapped}
use os_final_project.Fs.Content.Frame.{Kept, refl-Kept, trans-Kept, mapped-Kept}
use os_final_project.Fs.Content.Turn.{min-le, min-le_right, min_pos, min_full}

-- What a read leaves as it was, also one that has failed: all of the content, of this file and of the others.
pub record Untouched (sb : Super) (d : Disk) (ip ip' : Inode) (d' : Disk) : Type 0 where
  pub grown : Grown sb d ip ip' d'
  pub same : (p : ℕ) → p < maxfile * bsize → content d' ip' p ≡ content d ip p
  pub kept : Kept sb d ip ip' d'

mapped-Untouched :
    {sb : Super} {d d' d'' : Disk} {ip ip' ip'' : Inode} {bn r : ℕ}
    → Untouched sb d ip ip' d'
    → IsMapped sb d' ip' bn r ip'' d''
    → bn < maxfile
    → Untouched sb d ip ip'' d''
mapped-Untouched {sb} {d} {d'} {d''} {ip} {ip'} {ip''} u m lt = record {
  grown = trans-Grown u.grown m.grown;
  same = λ p lt. content-mapped u.grown.file m p lt ∙ u.same p lt;
  kept = trans-Kept sb d d' d'' ip ip' ip'' u.kept (mapped-Kept m lt);
}

-- `tot` bytes are at the destination.
pub record Read (sb : Super) (d : Disk) (ip : Inode) (off n : ℕ) (out : ℕ → ℕ) (r : ReadLoop)
    : Type 0 where
  pub untouched : Untouched sb d ip r.inode r.disk
  pub off_now : r.off ≡ off + r.tot
  pub bound : r.tot ≤ n
  pub bytes : (q : ℕ) → r.out q ≡ (if ltb q r.tot then content d ip (off + q) else out q)

-- The end of the loop: all is read, the disk is full where a block is missing, or a copy has failed.
pub data Outcome (sb : Super) (reach : ℕ → ℕ → ℕ) (d : Disk) (ip : Inode) (off n : ℕ) (out : ℕ → ℕ)
    (r : ReadLoop) : Type 0 where
  done : Read sb d ip off n out r → r.tot ≡ n → Outcome sb reach d ip off n out r
  disk_full : Read sb d ip off n out r → IsFull sb r.disk → Outcome sb reach d ip off n out r
  copy_failed :
      r.tot ≡ minus_one32
      → Untouched sb d ip r.inode r.disk
      → (tot m : ℕ) → tot + m ≤ n
      → reach tot m < m
      → Outcome sb reach d ip off n out r

-- A copy behind what is at the destination.
copied :
    (f block old out : ℕ → ℕ) (pos len tot q : ℕ)
    → (tot ≤ q → q < tot + len → block (pos + (q - tot)) ≡ f q)
    → out q ≡ (if ltb q tot then f q else old q)
    → copy_out block pos len tot out q ≡ (if ltb q (tot + len) then f q else old q)
unfolding copy_out
copied f block old out pos len tot q h k = elim (Bool-cases (within tot len q)) [
  | inl t ↦
      let u : ltb q (tot + len) ≡ true = ground arith in rw (t, u) (h (ground arith) (ground arith))
  | inr n ↦ let u : ltb q (tot + len) ≡ ltb q tot = ground arith in rw (n, u) k
]

-- A byte of the block that `bmap` gives.
mapped_byte :
    {sb : Super} {d d' : Disk} {ip ip' : Inode} {b : ℕ} (off tot len q : ℕ)
    → IsMapped sb d ip (off / bsize) b ip' d'
    → b ≢ 0
    → off % bsize + len ≤ bsize
    → tot ≤ q
    → q < tot + len
    → d'.bytes b (off % bsize + (q - tot)) ≡ content d' ip' (off + (q - tot))
mapped_byte {sb} {d} {d'} {ip} {ip'} {b} off tot len q m nz fits le lt =
    let e : (off + (q - tot)) / bsize ≡ off / bsize = omega arith in
    let e' : (off + (q - tot)) % bsize ≡ off % bsize + (q - tot) = omega arith in
    ap (d'.bytes b) (sym e')
    ∙ sym (content_at d' ip' (off + (q - tot)) b (ap (slot d' ip') e ∙ m.there) nz)

module _ {sb : Super} {reach : ℕ → ℕ → ℕ} {d : Disk} {ip : Inode} {off n : ℕ} {out : ℕ → ℕ}
    (fits : off + n ≤ maxfile * bsize) where
  -- A turn with bytes left to read.
  read_step_lem :
      (r : ReadLoop)
      → Read sb d ip off n out r
      → r.tot < n
      → ((r' : ReadLoop) × (read_step sb reach n r ≡ some (true, r'))
          × Read sb d ip off n out r'
          × (r.tot < r'.tot))
        ⊎ ((r' : ReadLoop) × (read_step sb reach n r ≡ some (false, r'))
            × Outcome sb reach d ip off n out r')
  unfolding read_step
  read_step_lem r rd more =
      let lt : r.off / bsize < maxfile = omega (arith, rd.off_now) in
      let (b, ip', d', e, m) = bmap_lem (r.off / bsize) rd.untouched.grown.file lt in
      let u = mapped-Untouched rd.untouched m lt in
      let len = min (n - r.tot) (bsize - r.off % bsize) in
      let got = min (reach r.tot len) len in
      let le = min-le (n - r.tot) (bsize - r.off % bsize) in
      let le' = min-le_right (n - r.tot) (bsize - r.off % bsize) in
      let pos = min_pos (n - r.tot) (bsize - r.off % bsize) (omega arith) (omega arith) in
      elim (ℕ_discrete b 0) [
        | yes z ↦ inr (
          record r { inode = ip'; disk = d' },
          rw (e, (==_iff b 0).1 z, read_step) refl,
          disk_full
              (record { untouched = u; off_now = rd.off_now; bound = rd.bound; bytes = rd.bytes })
              (m.full z),
        )
        | no nz ↦ elim (Bool-cases (ltb got len)) [
          | inl t ↦
              let r' : ReadLoop = record r {
                tot = minus_one32;
                inode = ip';
                disk = d';
                out = copy_out (d'.bytes b) (r.off % bsize) got r.tot r.out;
              } in
              inr (
                r',
                rw (e, ==_ne b 0 nz, t, read_step) refl,
                copy_failed refl u r.tot len (omega arith) (ground arith),
              )
          | inr f ↦
              let full = min_full (reach r.tot len) len f in
              inl (
                record {
                  tot = add32 r.tot len;
                  off = add32 r.off len;
                  inode = ip';
                  disk = d';
                  out = copy_out (d'.bytes b) (r.off % bsize) got r.tot r.out;
                },
                rw (e, ==_ne b 0 nz, f, read_step) refl,
                record {
                  untouched = u;
                  off_now = omega (arith, rd.off_now);
                  bound = omega arith;
                  bytes = λ q.
                      let sum : r.tot + len ≡ add32 r.tot len = omega arith in
                      ap (λ x. copy_out (d'.bytes b) (r.off % bsize) x r.tot r.out q) full
                      ∙ copied (λ q. content d ip (off + q)) (d'.bytes b) out r.out (r.off % bsize)
                          len r.tot q
                          (λ ge lt'.
                            mapped_byte r.off r.tot len q m nz (omega arith) ge lt'
                            ∙ u.same (r.off + (q - r.tot)) (omega (arith, rd.off_now))
                            ∙ ap (content d ip) (omega (arith, rd.off_now)))
                          (rd.bytes q)
                      ∙ ap (λ x. if ltb q x then content d ip (off + q) else out q) sum;
                },
                omega arith,
              )
        ]
      ]

  -- The fuel is enough.
  read_loop_lem :
      (fuel : ℕ) (r : ReadLoop)
      → Read sb d ip off n out r
      → n ≤ r.tot + fuel
      → (r' : ReadLoop) × (read_loop fuel sb reach n r ≡ some r')
        × Outcome sb reach d ip off n out r'
  unfolding read_loop
  read_loop_lem zero r rd enough = (r, ground (arith, rd.bound), done rd (omega (arith, rd.bound)))
  read_loop_lem (suc fuel) r rd enough = elim (Bool-cases (ltb r.tot n)) [
    | inr f ↦ (r, rw (f) refl, done rd (ground (arith, rd.bound)))
    | inl t ↦ elim (read_step_lem r rd (ground arith)) [
      | inl (r', e, rd', more) ↦
          let (r'', e', o) = read_loop_lem fuel r' rd' (omega arith) in (r'', rw (t, e) e', o)
      | inr (r', e, o) ↦ (r', rw (t, e) refl, o)
    ]
  ]

-- What a file of `size` bytes has of `n` bytes from `off` on.
abbrev pub available : ℕ → ℕ → ℕ → ℕ
available size off n = if ltb size (off + n) then size - off else n

within_size :
    (size off n : ℕ)
    → off ≤ size
    → size ≤ maxfile * bsize
    → off + available size off n ≤ maxfile * bsize
within_size size off n le small = ground arith

-- For an inode whose blocks are a table, with a size within the largest file, and a position in the file or at its
-- end (`off + n` does not wrap): `readi` does not panic and ends. It counts the bytes up to the end of the file, and these are
-- the bytes of the content, unless the disk is full where a block is missing, when it counts fewer of them, or a copy has failed, when
-- the result is -1. No byte of the content changes, and no block of other files.
pub readi_lem :
    {sb : Super} {d : Disk} {ip : Inode} (reach : ℕ → ℕ → ℕ) (off n : ℕ) (out : ℕ → ℕ)
    → IsFile sb d ip
    → off ≤ ip.size
    → ip.size ≤ maxfile * bsize
    → off + n < m32
    → (r : ReadLoop) × (readi sb ip reach off n d out ≡ some r)
      × Outcome sb reach d ip off (available ip.size off n) out r
unfolding readi
readi_lem {sb} {d} {ip} reach off n out file start small wrap =
    let sum : add32 off n ≡ off + n = omega arith in
    let no_hole : ltb ip.size off ≡ false = ground arith in
    let no_wrap : ltb (off + n) off ≡ false = ground arith in
    let (r, e, o) =
      read_loop_lem (within_size ip.size off n start small) (available ip.size off n) _ begin
        (omega arith) in
    (r, rw (no_hole, sum, no_wrap) e, o)
  where
    begin :
        Read sb d ip off
          (available ip.size off n)
          out
          (record { tot = 0; off = off; inode = ip; disk = d; out = out })
    begin = record {
      untouched = record { grown = refl-Grown file; same = λ p lt. refl; kept = refl-Kept sb d ip };
      off_now = omega arith;
      bound = omega arith;
      bytes = λ q. ground arith;
    }
