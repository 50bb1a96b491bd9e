-- ===== src/Fs/Content/Frame.antt =====
-- kernel/fs.c: an operation on one file leaves the blocks of the other files alone.
use os_final_project.Prelude.{
  ℕ, ◌-◌, ◌*◌, ◌/◌, ◌%◌, ◌≤◌, ◌<◌, ◌≡◌, ◌≢◌, refl, ap, sym, ◌∙◌, subst, inl, inr, true, false, ◌==◌,
  if◌then◌else◌, arith, update_ne, ==_iff, ℕ_discrete, get_or,
}
use os_final_project.Fs.{Super, Disk, Inode, ndirect, maxfile, bsize}
use os_final_project.Fs.Bitmap.Laws.{is_used}
use os_final_project.Fs.Blocks.Table.{slot, slot_addr, slot_indirect, slot_entry, slot_kinds}
use os_final_project.Fs.Blocks.Map.{IsMapped}
use os_final_project.Fs.Content.{Source, copy_in}
use os_final_project.Fs.Content.View.{content}

-- A marked block that is not one of the inode's.
pub record Outside (sb : Super) (d : Disk) (ip : Inode) (c : ℕ) : Type 0 where
  pub block : c ≢ 0
  pub marked : is_used sb d c ≡ true
  pub apart : (i : ℕ) → i ≤ maxfile → slot d ip i ≢ c

-- The blocks outside stay outside, and keep what is in them.
abbrev pub Kept : Super → Disk → Inode → Inode → Disk → Type 0
Kept sb d ip ip' d' =
    (c : ℕ)
    → Outside sb d ip c
    → Outside sb d' ip' c × (d'.bytes c ≡ d.bytes c) × (d'.words c ≡ d.words c)

pub refl-Kept : (sb : Super) (d : Disk) (ip : Inode) → Kept sb d ip ip d
refl-Kept sb d ip c o = (o, refl, refl)

pub trans-Kept :
    (sb : Super) (d d' d'' : Disk) (ip ip' ip'' : Inode)
    → Kept sb d ip ip' d'
    → Kept sb d' ip' ip'' d''
    → Kept sb d ip ip'' d''
trans-Kept sb d d' d'' ip ip' ip'' k l c o =
    let (o', b, w) = k c o in let (o'', b', w') = l c o' in (o'', b' ∙ b, w' ∙ w)

pub mapped-Kept :
    {sb : Super} {d d' : Disk} {ip ip' : Inode} {bn r : ℕ}
    → IsMapped sb d ip bn r ip' d'
    → bn < maxfile
    → Kept sb d ip ip' d'
mapped-Kept {sb} {d} {d'} {ip} {ip'} {bn} {r} m lt c o = (
  record {
    block = o.block;
    marked = m.grown.used c o.marked;
    apart = λ i le. elim (ℕ_discrete i maxfile) [
      | yes e ↦ elim m.grown.indirect [
        | inl q ↦ λ z. o.apart maxfile (omega arith) (sym q ∙ ap (slot d' ip') (sym e) ∙ z)
        | inr q ↦ λ z. stranger (ap (is_used sb d) (sym (ap (slot d' ip') (sym e) ∙ z)) ∙ q)
      ]
      | no ne ↦ elim (ℕ_discrete i bn) [
        | no differ ↦ λ z. o.apart i le (sym (m.others i (omega arith) differ) ∙ z)
        | yes e ↦ λ z. mapped (sym m.there ∙ ap (slot d' ip') (sym e) ∙ z)
      ]
    ];
  },
  m.grown.bytes c o.marked,
  m.grown.words c o.marked (λ e. o.apart maxfile (omega arith) (sym e)),
)
  where
    stranger : is_used sb d c ≡ false → ⊥
    stranger f = let q : true ≡ false = sym o.marked ∙ f in cc

    mapped : r ≡ c → ⊥
    mapped e = elim (ℕ_discrete (slot d ip bn) 0) [
      | yes z ↦ stranger (ap (is_used sb d) (sym e) ∙ m.new z (λ rz. o.block (sym e ∙ rz)))
      | no nz ↦ o.apart bn (omega arith) (sym (m.same nz) ∙ e)
    ]

-- A copy into a block of the inode.
pub copy_in-Kept :
    (sb : Super) (s : Source) (d : Disk) (ip : Inode) (b pos len tot i : ℕ)
    → slot d ip i ≡ b
    → i ≤ maxfile
    → Kept sb d ip ip (copy_in s b pos len tot d)
unfolding copy_in slot
copy_in-Kept sb s d ip b pos len tot i at le c o = (
  record { block = o.block; marked = o.marked; apart = o.apart },
  update_ne d.bytes b c _ (λ e. o.apart i le (at ∙ sym e)),
  refl,
)

-- The blocks of an inode are the same over a change that keeps its indirect block.
same_slot :
    (d d' : Disk) (ip : Inode)
    → (slot d ip maxfile ≢ 0 → d'.words (slot d ip maxfile) ≡ d.words (slot d ip maxfile))
    → (i : ℕ) → slot d' ip i ≡ slot d ip i
same_slot d d' ip w i = elim (slot_kinds i) [
  | inl direct ↦ slot_addr d' ip i direct ∙ sym (slot_addr d ip i direct)
  | inr (inl e) ↦
      subst (λ x. slot d' ip x ≡ slot d ip x) (sym e)
        (slot_indirect d' ip ∙ sym (slot_indirect d ip))
  | inr (inr (le, ne)) ↦ slot_entry d' ip i le ne ∙ same ∙ sym (slot_entry d ip i le ne)
]
  where
    same :
        (if get_or ip.addrs ndirect 0 == 0
          then 0
          else d'.words (get_or ip.addrs ndirect 0) (i - ndirect))
        ≡ (if get_or ip.addrs ndirect 0 == 0
            then 0
            else d.words (get_or ip.addrs ndirect 0) (i - ndirect))
    same = elim (ℕ_discrete (get_or ip.addrs ndirect 0) 0) [
      | yes z ↦ rw ((==_iff (get_or ip.addrs ndirect 0) 0).1 z) refl
      | no nz ↦
          ap (λ x. if get_or ip.addrs ndirect 0 == 0 then 0 else x)
            (ap (λ f. f (i - ndirect))
              (subst (λ b. d'.words b ≡ d.words b) (slot_indirect d ip)
                (w (λ z. nz (sym (slot_indirect d ip) ∙ z)))))
    ]

-- A file all of whose blocks are outside keeps its blocks and its content.
pub Kept-content :
    (sb : Super) (d d' : Disk) (ip ip' other : Inode)
    → ((i : ℕ) → i ≤ maxfile → slot d other i ≢ 0 → Outside sb d ip (slot d other i))
    → Kept sb d ip ip' d'
    → (p : ℕ) → p < maxfile * bsize
    → content d' other p ≡ content d other p
unfolding content
Kept-content sb d d' ip ip' other out k p lt =
    let b = slot d other (p / bsize) in
    ap (λ b. if b == 0 then 0 else d'.bytes b (p % bsize))
      (same_slot d d' other (λ nz. (k _ (out maxfile (omega arith) nz)).2) (p / bsize))
    ∙ elim (ℕ_discrete b 0) [
      | yes z ↦ rw ((==_iff b 0).1 z) refl
      | no nz ↦
          ap (λ x. if b == 0 then 0 else x)
            (ap (λ f. f (p % bsize)) (k b (out (p / bsize) (omega arith) nz)).1)
    ]
