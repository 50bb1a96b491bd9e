-- ===== src/Fs/Blocks/Table.antt =====
-- kernel/fs.c: the blocks of an inode as one table.
use os_final_project.Prelude.{
  ℕ, ◌-◌, ◌≤◌, ◌<◌, ◌≡◌, ◌≢◌, refl, ap, sym, ◌∙◌, subst, ◌⊎◌, Bool, true, false, ◌==◌,
  if◌then◌else◌, ltb, arith, update, update_self, update_ne, ==_iff, ==_ne, lt→ltb, ℕ_discrete,
  get_or, length,
}
use os_final_project.Fs.{Super, Disk, Inode, ndirect, maxfile}
use os_final_project.Fs.Bitmap.Laws.{is_used}

-- The number of the block in slot `i`, 0 for none: the blocks of the content come first, then the indirect
-- block, in the slot MAXFILE.
unfoldable pub slot : Disk → Inode → ℕ → ℕ
slot d ip i =
    let ind = get_or ip.addrs ndirect 0 in
    if ltb i ndirect
    then get_or ip.addrs i 0
    else if i == maxfile
    then ind
    else (if ind == 0 then 0 else d.words ind (i - ndirect))

-- A table of blocks: each block in it is marked, and stands in one slot.
pub record IsTable (used : ℕ → Bool) (f : ℕ → ℕ) : Type 0 where
  pub marked : (i : ℕ) → i ≤ maxfile → f i ≢ 0 → used (f i) ≡ true
  pub apart : (i j : ℕ) → i ≤ maxfile → j ≤ maxfile → f i ≢ 0 → f i ≡ f j → i ≡ j

kept : (u v : Bool) → u ≡ true → (if v then true else u) ≡ true
kept u true e = refl
kept u false e = e

-- A block that was free may be put into any slot.
pub update-IsTable :
    {used used' : ℕ → Bool} {f : ℕ → ℕ} (i b : ℕ)
    → IsTable used f
    → used b ≡ false
    → ((c : ℕ) → used' c ≡ (if c == b then true else used c))
    → IsTable used' (update f i b)
update-IsTable {used} {used'} {f} i b t free more = record {
  marked = λ j le pos. elim (ℕ_discrete j i) [
    | yes e ↦
        more _
        ∙ ap (λ v. if v then true else used (update f i b j))
            ((==_iff (update f i b j) b).1 (at j e))
    | no ne ↦
        let q = update_ne f i j b ne in
        more _
        ∙ kept (used (update f i b j)) (update f i b j == b)
            (ap used q ∙ t.marked j le (λ z. pos (q ∙ z)))
  ];
  apart = λ j k le le' pos e. elim (ℕ_discrete j i) [
    | yes p ↦ elim (ℕ_discrete k i) [
      | yes q ↦ p ∙ sym q
      | no ne ↦
          let q = sym (at j p) ∙ e ∙ update_ne f i k b ne in
          absurd (stranger k q le' (λ z. pos (at j p ∙ q ∙ z)))
    ]
    | no ne ↦ elim (ℕ_discrete k i) [
      | yes q ↦
          let r = sym (update_ne f i j b ne) in
          absurd (stranger j (sym (at k q) ∙ sym e ∙ sym r) le (λ z. pos (sym r ∙ z)))
      | no ne' ↦
          let q = update_ne f i j b ne in
          t.apart j k le le' (λ z. pos (q ∙ z)) (sym q ∙ e ∙ update_ne f i k b ne')
    ]
  ];
}
  where
    at : (j : ℕ) → j ≡ i → update f i b j ≡ b
    at j e = subst (λ x. update f i b x ≡ b) (sym e) (update_self f i b)

    stranger : (j : ℕ) → b ≡ f j → j ≤ maxfile → f j ≢ 0 → ⊥
    stranger j e le pos = let q : false ≡ true = sym free ∙ ap used e ∙ t.marked j le pos in cc

-- A block in `addrs`, and the indirect block.
pub slot_addr : (d : Disk) (ip : Inode) (i : ℕ) → i < ndirect → slot d ip i ≡ get_or ip.addrs i 0
unfolding slot
slot_addr d ip i h = rw (lt→ltb i ndirect h) refl

pub slot_indirect : (d : Disk) (ip : Inode) → slot d ip maxfile ≡ get_or ip.addrs ndirect 0
unfolding slot
slot_indirect d ip = refl

pub slot_entry :
    (d : Disk) (ip : Inode) (i : ℕ)
    → ndirect ≤ i
    → i ≢ maxfile
    → slot d ip i ≡ (
        if get_or ip.addrs ndirect 0 == 0
        then 0
        else d.words (get_or ip.addrs ndirect 0) (i - ndirect))
unfolding slot
slot_entry d ip i h ne = rw (not_ltb i h, ==_ne i maxfile ne) refl
  where
    not_ltb : (i : ℕ) → ndirect ≤ i → ltb i ndirect ≡ false
    not_ltb i h = ground arith

-- Every slot is of one of the three kinds.
pub slot_kinds : (i : ℕ) → (i < ndirect) ⊎ ((i ≡ maxfile) ⊎ ((ndirect ≤ i) × (i ≢ maxfile)))
slot_kinds i = ground arith

-- What an inode in use meets: an array of 13 addresses whose blocks are a table, on a disk where block 0 is
-- marked.
pub record IsFile (sb : Super) (d : Disk) (ip : Inode) : Type 0 where
  pub array : length ip.addrs ≡ 13
  pub boot : is_used sb d 0 ≡ true
  pub table : IsTable (is_used sb d) (slot d ip)
