-- ===== src/Fs/Content/RoundTrip.antt =====
-- kernel/fs.c: `readi` after `writei`.
use os_final_project.Prelude.{
  ℕ, ◌+◌, ◌-◌, ◌*◌, ◌≤◌, ◌<◌, ◌≡◌, ap, sym, ◌∙◌, subst, ◌⊎◌, inl, inr, true, some, some-injective,
  if◌then◌else◌, ltb, arith,
}
use os_final_project.Fs.{Super, Disk, Inode, maxfile, bsize}
use os_final_project.Fs.Bitmap.Free.{IsFull}
use os_final_project.Fs.Blocks.Table.{IsFile}
use os_final_project.Fs.Content.{Source, ReadLoop, writei, readi}
use os_final_project.Fs.Content.View.{content, within}
use os_final_project.Fs.Content.Write.{IsWritten, writei_lem}
use os_final_project.Fs.Content.Read.{Outcome, done, disk_full, copy_failed, available, readi_lem}
use os_final_project.Fs.Content.Refine.{kernel_source}

counted :
    {sb : Super} {ip ip' i : Inode} {d d' e : Disk} {s : Source} {off n k : ℕ} (t : ℕ)
    → IsWritten sb ip s off n d t k ip' d'
    → ◌≡◌ {A = ℕ × Inode × Disk} (t, ip', d') (n, i, e)
    → IsWritten sb ip s off n d n k i e
counted {sb} {ip} {ip'} {i} {d} {d'} {e} {s} {off} {n} {k} t r q =
    subst (λ x. IsWritten sb ip s off n d x.0 k x.1 x.2) q r

read_back :
    {sb : Super} {d : Disk} {ip : Inode} {byte out : ℕ → ℕ} {off n : ℕ} {r : ReadLoop}
    → ((p : ℕ) → p < maxfile * bsize → within off n p ≡ true → content d ip p ≡ byte (p - off))
    → off + n ≤ maxfile * bsize
    → available ip.size off n ≡ n
    → Outcome sb (λ tot m. m) d ip off (available ip.size off n) out r
    → ((r.tot ≡ n) × ((q : ℕ) → q < n → r.out q ≡ byte q)) ⊎ IsFull sb r.disk
read_back {sb} {d} {ip} {byte} {out} {off} {n} {r} h fits a (done rd e) = inl (
  e ∙ a,
  λ q lt.
      let in_part : within off n (off + q) ≡ true = ground arith in
      let here : ltb q r.tot ≡ true = ground arith in
      rd.bytes q
      ∙ ap (λ t. if t then content d ip (off + q) else out q) here
      ∙ h (off + q) (omega arith) in_part
      ∙ ap byte (omega arith),
)
read_back h fits a (disk_full rd f) = inr f
read_back h fits a (copy_failed e u tot m le lt) = absurd (omega arith)

-- For an inode whose blocks are a table, and a write from kernel memory that counts all of its `n` bytes: reading
-- as many from the same position gives these bytes, unless the disk is full where a block is missing.
pub readi-writei :
    {sb : Super} {d d' : Disk} {ip ip' : Inode} (byte out : ℕ → ℕ) (off n : ℕ)
    → IsFile sb d ip
    → off ≤ ip.size
    → ip.size ≤ maxfile * bsize
    → off + n ≤ maxfile * bsize
    → writei sb ip (kernel_source byte) off n d ≡ some (n, ip', d')
    → (r : ReadLoop) × (readi sb ip' (λ tot m. m) off n d' out ≡ some r)
      × (((r.tot ≡ n) × ((q : ℕ) → q < n → r.out q ≡ byte q)) ⊎ IsFull sb r.disk)
readi-writei {sb} {d} {d'} {ip} {ip'} byte out off n file le small fits e =
    let (t, k, i, x, e', r) = writei_lem (kernel_source byte) off n file le fits in
    let w = counted t r (some-injective _ _ (sym e' ∙ e)) in
    let (old, new) = sizes ip.size ip'.size off n le small fits w.size in
    let (rd, e'', o) = readi_lem (λ tot m. m) off n out w.file (omega arith) new (omega arith) in
    (
      rd,
      e'',
      read_back
          (λ p lt t.
            w.written p lt
            ∙ ap (λ x. if within off x p then byte (p - off) else content d ip p)
                (omega (arith, w.bound))
            ∙ ap (λ b. if b then byte (p - off) else content d ip p) t)
          fits (all_there ip'.size off n old) o,
    )
  where
    sizes :
        (size size' off n : ℕ)
        → off ≤ size
        → size ≤ maxfile * bsize
        → off + n ≤ maxfile * bsize
        → size' ≡ (if ltb size (off + n) then off + n else size)
        → (off + n ≤ size') × (size' ≤ maxfile * bsize)
    sizes size size' off n le small fits e = ground arith

    all_there : (size off n : ℕ) → off + n ≤ size → available size off n ≡ n
    all_there size off n le = ground arith
