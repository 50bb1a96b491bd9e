-- ===== src/Fs/Content/Refine.antt =====
-- kernel/fs.c: a sequence of writes to a file, and the same writes to an array of bytes with a size.
use os_final_project.Prelude.{
  ℕ, ◌+◌, ◌-◌, ◌*◌, ◌≤◌, ◌<◌, ◌≡◌, ◌≢◌, refl, ap₂, sym, ◌∙◌, ◌⊎◌, inl, inr, Bool, true, false,
  Bool-cases, Option, none, some, List, [], ◌∷◌, ◌==◌, if◌then◌else◌, ltb, ◌||◌, arith, ==_iff,
  ==_ne, ℕ_discrete, add32, minus_one32, m32, All,
}
use os_final_project.Fs.{Super, Disk, Inode, maxfile, bsize}
use os_final_project.Fs.Bitmap.Free.{IsFull}
use os_final_project.Fs.Blocks.Table.{IsFile}
use os_final_project.Fs.Content.{Source, writei}
use os_final_project.Fs.Content.View.{content, within}
use os_final_project.Fs.Content.Turn.{Ended, done, disk_full, copy_failed}
use os_final_project.Fs.Content.Write.{IsWritten, writei_lem}

-- The abstract file.
pub record Bytes : Type 0 where
  pub size : ℕ
  pub byte : ℕ → ℕ

-- A write of `n` bytes from kernel memory.
pub record Write : Type 0 where
  pub off : ℕ
  pub n : ℕ
  pub byte : ℕ → ℕ

-- Kernel memory is always there.
abbrev pub kernel_source : (ℕ → ℕ) → Source
kernel_source byte = record { byte = byte; reach = λ tot m. m }

-- What the write does to the abstract file, `none` if it is refused.
abbrev pub spec_write : Bytes → Write → Option Bytes
spec_write f w =
    if ltb f.size w.off || ltb (maxfile * bsize) (w.off + w.n)
    then none
    else some (record {
      size = if ltb f.size (w.off + w.n) then w.off + w.n else f.size;
      byte = λ p. if within w.off w.n p then w.byte (p - w.off) else f.byte p;
    })

unfoldable pub spec_run : List Write → Bytes → Option Bytes
spec_run [] f = some f
spec_run (w ∷ ws) f = elim (spec_write f w) [ none ↦ none | some f' ↦ spec_run ws f' ]

-- The writes one after the other, up to the first one that does not count all of its bytes; whether all do.
unfoldable pub run : Super → List Write → Inode → Disk → Option (Bool × Inode × Disk)
run sb [] ip d = some (true, ip, d)
run sb (w ∷ ws) ip d = elim (writei sb ip (kernel_source w.byte) w.off w.n d) [
  | none ↦ none
  | some (tot, ip', d') ↦
      let rest = run sb ws ip' d' in if tot == w.n then rest else some (false, ip', d')
]

-- The file has the size and the bytes of the abstract file.
pub record IsView (f : Bytes) (ip : Inode) (d : Disk) : Type 0 where
  pub size : ip.size ≡ f.size
  pub small : f.size ≤ maxfile * bsize
  pub bytes : (p : ℕ) → p < maxfile * bsize → content d ip p ≡ f.byte p

-- The arguments are `uint`s, and the count is not that of an error.
abbrev pub IsValid : Write → Type 0
IsValid w = (w.off < m32) × (w.n < minus_one32)

-- A write that starts behind the end, or that ends behind the largest file, also by a sum that wraps, is
-- refused with -1 and changes nothing.
pub writei_refused :
    (sb : Super) (ip : Inode) (d : Disk) (s : Source) (off n : ℕ)
    → off < m32
    → n < m32
    → (ip.size < off) ⊎ (maxfile * bsize < off + n)
    → writei sb ip s off n d ≡ some (minus_one32, ip, d)
unfolding writei
writei_refused sb ip d s off n lo ln bad =
    elim (Bool-cases (ltb ip.size off || ltb (add32 off n) off)) [
      | inl t ↦ rw (t) refl
      | inr f ↦
          let big : ltb (maxfile * bsize) (add32 off n) ≡ true =
            too_big ip.size off n lo ln bad f in
          rw (f, big) refl
    ]
  where
    too_big :
        (size off n : ℕ)
        → off < m32
        → n < m32
        → (size < off) ⊎ (maxfile * bsize < off + n)
        → (ltb size off || ltb (add32 off n) off) ≡ false
        → ltb (maxfile * bsize) (add32 off n) ≡ true
    too_big size off n lo ln bad f = ground arith

-- One write either does what the abstract one does, or does not count all of its bytes.
abbrev Outcome : Super → Bytes → Write → ℕ → Inode → Disk → Type 0
Outcome sb f w tot ip d =
    ((f' : Bytes) × (tot ≡ w.n) × (spec_write f w ≡ some f') × IsView f' ip d)
    ⊎ ((tot ≢ w.n) × ((spec_write f w ≡ none) ⊎ IsFull sb d))

-- A write that is not refused.
accepted :
    {sb : Super} {d d' : Disk} {ip ip' : Inode} {f : Bytes} {w : Write} {tot k : ℕ}
    → IsView f ip d
    → w.off ≤ ip.size
    → w.off + w.n ≤ maxfile * bsize
    → IsWritten sb ip (kernel_source w.byte) w.off w.n d tot k ip' d'
    → Ended sb (kernel_source w.byte) w.n tot d' k
    → Outcome sb f w tot ip' d'
accepted {sb} {d} {d'} {ip} {ip'} {f} {w} {tot} {k} v le fits r ended = elim (ℕ_discrete tot w.n) [
  | yes e ↦ inl (
    record {
      size = if ltb f.size (w.off + w.n) then w.off + w.n else f.size;
      byte = λ p. if within w.off w.n p then w.byte (p - w.off) else f.byte p;
    },
    e,
    spec_ok f w (omega (arith, v.size)) fits,
    record {
      size = r.size ∙ ap₂ (λ x y. if ltb x (w.off + y) then w.off + y else x) v.size e;
      small = spec_small f w v.small fits;
      bytes = λ p lt.
          r.written p lt
          ∙ ap₂ (λ x y. if within w.off x p then w.byte (p - w.off) else y) (omega (arith, r.bound))
              (v.bytes p lt);
    },
  )
  | no ne ↦ inr (ne, inr (full ne ended))
]
  where
    full : tot ≢ w.n → {k : ℕ} → Ended sb (kernel_source w.byte) w.n tot d' k → IsFull sb d'
    full ne (done e) = absurd (ne e)
    full ne (disk_full f) = f
    full ne (copy_failed m le lt) = absurd (omega arith)

    spec_ok :
        (f : Bytes) (w : Write)
        → w.off ≤ f.size
        → w.off + w.n ≤ maxfile * bsize
        → spec_write f w
          ≡ some (record {
            size = if ltb f.size (w.off + w.n) then w.off + w.n else f.size;
            byte = λ p. if within w.off w.n p then w.byte (p - w.off) else f.byte p;
          })
    spec_ok f w le fits =
        let e : ltb f.size w.off || ltb (maxfile * bsize) (w.off + w.n) ≡ false = ground arith in
        rw (e) refl

    spec_small :
        (f : Bytes) (w : Write)
        → f.size ≤ maxfile * bsize
        → w.off + w.n ≤ maxfile * bsize
        → (if ltb f.size (w.off + w.n) then w.off + w.n else f.size) ≤ maxfile * bsize
    spec_small f w small fits = ground arith

one_write :
    {sb : Super} {d : Disk} {ip : Inode} (f : Bytes) (w : Write)
    → IsFile sb d ip
    → IsView f ip d
    → IsValid w
    → (tot : ℕ) × (ip' : Inode) × (d' : Disk) × (writei sb ip (kernel_source w.byte) w.off w.n d
        ≡ some (tot, ip', d'))
      × IsFile sb d' ip'
      × Outcome sb f w tot ip' d'
one_write {sb} {d} {ip} f w file v ok =
    elim (Bool-cases (ltb ip.size w.off || ltb (maxfile * bsize) (w.off + w.n))) [
      | inl t ↦ (
        minus_one32,
        ip,
        d,
        writei_refused sb ip d (kernel_source w.byte) w.off w.n ok.0 (omega arith) (ground arith),
        file,
        inr (omega arith, inl (rw (sym v.size, t) refl)),
      )
      | inr n ↦
          let le : w.off ≤ ip.size = ground arith in
          let fits : w.off + w.n ≤ maxfile * bsize = ground arith in
          let (tot, k, ip', d', e, r) = writei_lem (kernel_source w.byte) w.off w.n file le fits in
          (tot, ip', d', e, r.file, accepted v le fits r r.ended)
    ]

-- For an inode whose blocks are a table, and any writes from kernel memory with `uint` arguments, of fewer
-- than 2^32 - 1 bytes each: the writes do not panic. If all of them count all of their bytes, then the abstract file accepts them, and the file has its size
-- and its bytes after the last one; otherwise the abstract file refuses one of them, or the
-- disk is full.
pub run_refines :
    (ws : List Write) (sb : Super) (d : Disk) (ip : Inode) (f : Bytes)
    → IsFile sb d ip
    → IsView f ip d
    → All IsValid ws
    → (ok : Bool) × (ip' : Inode) × (d' : Disk) × (run sb ws ip d ≡ some (ok, ip', d'))
      × IsFile sb d' ip'
      × (((f' : Bytes) × (ok ≡ true) × (spec_run ws f ≡ some f') × IsView f' ip' d')
          ⊎ ((ok ≡ false) × ((spec_run ws f ≡ none) ⊎ IsFull sb d')))
unfolding run spec_run
run_refines [] sb d ip f file v ok = (true, ip, d, refl, file, inl (f, refl, refl, v))
run_refines (w ∷ ws) sb d ip f file v ok =
    let (tot, ip', d', e, file', o) = one_write f w file v ok.0 in
    elim o [
      | inl (f', all, s, v') ↦
          let (ok', ip'', d'', e', file'', r) = run_refines ws sb d' ip' f' file' v' ok.1 in
          (ok', ip'', d'', rw (e, (==_iff tot w.n).1 all, run) e', file'', rw (s, spec_run) r)
      | inr (ne, why) ↦ (
        false,
        ip',
        d',
        rw (e, ==_ne tot w.n ne, run) refl,
        file',
        inr (refl, elim why [ inl s ↦ inl (rw (s, spec_run) refl) | inr full ↦ inr full ]),
      )
    ]
