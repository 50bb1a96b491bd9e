-- ===== src/Fs/Content/View.antt =====
-- kernel/fs.c: the content of a file as a function of the position.
use os_final_project.Prelude.{
  ℕ, ◌+◌, ◌-◌, ◌*◌, ◌/◌, ◌%◌, ◌≤◌, ◌<◌, ◌≡◌, ◌≢◌, refl, ap, ap₂, sym, ◌∙◌, Bool, false, ◌==◌,
  if◌then◌else◌, ltb, leb, ◌&&◌, arith, update_self, update_ne, ==_ne, ℕ_discrete,
}
use os_final_project.Fs.{Super, Disk, Inode, maxfile, bsize}
use os_final_project.Fs.Blocks.Table.{slot, IsFile}
use os_final_project.Fs.Blocks.Map.{IsMapped}
use os_final_project.Fs.Content.{Source, copy_in}

-- The byte at a position; where there is no block, 0.
unfoldable pub content : Disk → Inode → ℕ → ℕ
content d ip p =
    if slot d ip (p / bsize) == 0 then 0 else d.bytes (slot d ip (p / bsize)) (p % bsize)

pub content_at :
    (d : Disk) (ip : Inode) (p b : ℕ)
    → slot d ip (p / bsize) ≡ b
    → b ≢ 0
    → content d ip p ≡ d.bytes b (p % bsize)
unfolding content
content_at d ip p b e nz =
    ap (λ x. if x == 0 then 0 else d.bytes x (p % bsize)) e
    ∙ ap (λ t. if t then 0 else d.bytes b (p % bsize)) (==_ne b 0 nz)

content_none : (d : Disk) (ip : Inode) (p : ℕ) → slot d ip (p / bsize) ≡ 0 → content d ip p ≡ 0
unfolding content
content_none d ip p e = ap (λ x. if x == 0 then 0 else d.bytes x (p % bsize)) e

-- `bmap` changes no byte of the content.
pub content-mapped :
    {sb : Super} {d d' : Disk} {ip ip' : Inode} {bn r : ℕ}
    → IsFile sb d ip
    → IsMapped sb d ip bn r ip' d'
    → (p : ℕ) → p < maxfile * bsize
    → content d' ip' p ≡ content d ip p
content-mapped {sb} {d} {d'} {ip} {ip'} {bn} {r} file m p lt =
    elim (ℕ_discrete (slot d ip (p / bsize)) 0) [
      | no nz ↦
          content_at d' ip' p (slot d ip (p / bsize)) (kept nz) nz
          ∙ ap (λ f. f (p % bsize))
              (m.grown.bytes _ (file.table.marked (p / bsize) (omega arith) nz))
          ∙ sym (content_at d ip p (slot d ip (p / bsize)) refl nz)
      | yes z ↦ elim (ℕ_discrete (p / bsize) bn) [
        | no ne ↦
            content_none d' ip' p (m.others (p / bsize) (omega arith) ne ∙ z)
            ∙ sym (content_none d ip p z)
        | yes e ↦ elim (ℕ_discrete r 0) [
          | yes rz ↦
              content_none d' ip' p (ap (slot d' ip') e ∙ m.there ∙ rz)
              ∙ sym (content_none d ip p z)
          | no rnz ↦
              content_at d' ip' p r (ap (slot d' ip') e ∙ m.there) rnz
              ∙ ap (λ f. f (p % bsize)) (m.fresh (ap (slot d ip) (sym e) ∙ z) rnz)
              ∙ sym (content_none d ip p z)
        ]
      ]
    ]
  where
    kept : slot d ip (p / bsize) ≢ 0 → slot d' ip' (p / bsize) ≡ slot d ip (p / bsize)
    kept nz = elim (ℕ_discrete (p / bsize) bn) [
      | no ne ↦ m.others (p / bsize) (omega arith) ne
      | yes e ↦
          ap (slot d' ip') e
          ∙ m.there
          ∙ m.same (λ z. nz (ap (slot d ip) e ∙ z))
          ∙ ap (slot d ip) (sym e)
    ]

-- The positions from `off` on, `len` of them.
abbrev pub within : ℕ → ℕ → ℕ → Bool
within off len p = leb off p && ltb p (off + len)

within_block :
    (off len p : ℕ)
    → p / bsize ≡ off / bsize
    → within (off % bsize) len (p % bsize) ≡ within off len p
within_block off len p e = ground arith

not_within :
    (off len p : ℕ) → p / bsize ≢ off / bsize → off % bsize + len ≤ bsize → within off len p ≡ false
not_within off len p ne fits = ground arith

-- A copy into the block of a position replaces the bytes from there on and no other byte of the content.
pub content-copy_in :
    {sb : Super} {d : Disk} {ip : Inode} (s : Source) (b off len tot : ℕ)
    → IsFile sb d ip
    → slot d ip (off / bsize) ≡ b
    → b ≢ 0
    → off < maxfile * bsize
    → off % bsize + len ≤ bsize
    → (p : ℕ) → p < maxfile * bsize
    → content (copy_in s b (off % bsize) len tot d) ip p
      ≡ (if within off len p then s.byte (tot + (p - off)) else content d ip p)
unfolding copy_in slot
content-copy_in {sb} {d} {ip} s b off len tot file at nz lo fits p lt =
    let d' = copy_in s b (off % bsize) len tot d in
    elim (ℕ_discrete (p / bsize) (off / bsize)) [
      | yes e ↦
          let q : slot d ip (p / bsize) ≡ b = ap (slot d ip) e ∙ at in
          let near : p % bsize - off % bsize ≡ p - off = omega arith in
          content_at d' ip p b q nz
          ∙ ap (λ f. f (p % bsize)) (update_self d.bytes b _)
          ∙ ap₂ (λ t x. if t then s.byte (tot + x) else d.bytes b (p % bsize))
              (within_block off len p e) near
          ∙ ap (λ x. if within off len p then s.byte (tot + (p - off)) else x)
              (sym (content_at d ip p b q nz))
      | no ne ↦
          elim (ℕ_discrete (slot d ip (p / bsize)) 0) [
            | yes z ↦ content_none d' ip p z ∙ sym (content_none d ip p z)
            | no pos ↦
                content_at d' ip p (slot d ip (p / bsize)) refl pos
                ∙ ap (λ f. f (p % bsize))
                    (update_ne d.bytes b (slot d ip (p / bsize)) _ (λ q. ne (
                      file.table.apart (p / bsize) (off / bsize) (omega arith) (omega arith) pos
                        (q ∙ sym at))))
                ∙ sym (content_at d ip p (slot d ip (p / bsize)) refl pos)
          ]
          ∙ ap (λ t. if t then s.byte (tot + (p - off)) else content d ip p)
              (sym (not_within off len p ne fits))
    ]
