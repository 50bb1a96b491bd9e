-- ===== src/Fs/Trunc/Whole.antt =====
-- kernel/fs.c: `itrunc` frees the blocks of an inode and nothing else.
use os_final_project.Prelude.{
  ℕ, ◌+◌, ◌-◌, ◌%◌, ◌≤◌, ◌<◌, ◌≡◌, ◌≢◌, refl, ap, ap₂, sym, ◌∙◌, subst, inl, inr, Bool, false, some,
  ◌==◌, if◌then◌else◌, ==_iff, ℕ_discrete, update_self, arith, get_or,
}
use os_final_project.Fs.{Super, Disk, Inode, ndirect, nindirect, maxfile, iblock, ipb}
use os_final_project.Fs.Bitmap.Laws.{is_used}
use os_final_project.Fs.Blocks.{iupdate}
use os_final_project.Fs.Blocks.Table.{
  slot, IsTable, IsFile, slot_addr, slot_indirect, slot_entry, slot_kinds,
}
use os_final_project.Fs.Trunc.{itrunc}
use os_final_project.Fs.Trunc.Run.{IsPart, IsReleased, free_run_lem}
use os_final_project.Fs.Trunc.Direct.{IsCleared, free_direct_lem}
use os_final_project.Fs.Trunc.Laws.{split_run, free_run_words, free_indirect_lem}
use os_final_project.Fs.Content.Write.{dinode}

-- The outcome of `itrunc`.
pub record IsTruncated (sb : Super) (d : Disk) (ip ip' : Inode) (d' : Disk) : Type 0 where
  pub file : IsFile sb d' ip'
  pub fields : ip' ≡ record ip { addrs = ip'.addrs; size = 0 }
  pub empty : (i : ℕ) → i ≤ maxfile → slot d' ip' i ≡ 0
  pub freed : (i : ℕ) → i ≤ maxfile → slot d ip i ≢ 0 → is_used sb d' (slot d ip i) ≡ false
  pub others :
      (c : ℕ)
      → ((i : ℕ) → i ≤ maxfile → slot d ip i ≢ 0 → slot d ip i ≢ c)
      → is_used sb d' c ≡ is_used sb d c
  pub bytes : d'.bytes ≡ d.bytes
  pub words : d'.words ≡ d.words
  pub on_disk : d'.dinodes (iblock sb ip.inum) (ip.inum % ipb) ≡ dinode ip'

-- An inode without addresses has no blocks.
pub slot-empty :
    (d : Disk) (ip : Inode)
    → ((j : ℕ) → j < 13 → get_or ip.addrs j 0 ≡ 0)
    → (i : ℕ) → slot d ip i ≡ 0
slot-empty d ip h i = elim (slot_kinds i) [
  | inl lt ↦ slot_addr d ip i lt ∙ h i (omega arith)
  | inr (inl e) ↦ ap (slot d ip) e ∙ slot_indirect d ip ∙ h ndirect (omega arith)
  | inr (inr (le, ne)) ↦
      slot_entry d ip i le ne
      ∙ ap (λ t. if t then 0 else d.words (get_or ip.addrs ndirect 0) (i - ndirect))
          ((==_iff (get_or ip.addrs ndirect 0) 0).1 (h ndirect (omega arith)))
]

pub no_blocks-IsTable : (used : ℕ → Bool) (f : ℕ → ℕ) → ((i : ℕ) → f i ≡ 0) → IsTable used f
no_blocks-IsTable used f h = record {
  marked = λ i le nz. absurd (nz (h i));
  apart = λ i j le le' nz. absurd (nz (h i));
}

table-IsPart : {used : ℕ → Bool} {f : ℕ → ℕ} → IsTable used f → IsPart used f 0 (maxfile + 1)
table-IsPart t = record {
  marked = λ i ge lt. t.marked i (omega arith);
  apart =
      λ i i' ge lt lt' nz e. let q = t.apart i i' (omega arith) (omega arith) nz e in omega arith;
}

-- The entries of the indirect block, which the loop over the direct blocks does not touch.
entries_left :
    (d d₁ : Disk) (ip ip₁ : Inode)
    → d₁.words ≡ d.words
    → get_or ip₁.addrs ndirect 0 ≡ get_or ip.addrs ndirect 0
    → (i : ℕ) → i < nindirect
    → slot d ip (ndirect + i)
      ≡ (if get_or ip₁.addrs ndirect 0 == 0 then 0 else d₁.words (get_or ip₁.addrs ndirect 0) i)
entries_left d d₁ ip ip₁ w ind i lt =
    let e : ndirect + i - ndirect ≡ i = omega arith in
    slot_entry d ip (ndirect + i) (omega arith) (omega arith)
    ∙ ap (λ x. if get_or ip.addrs ndirect 0 == 0 then 0 else d.words (get_or ip.addrs ndirect 0) x)
        e
    ∙ sym (ap₂ (λ b v. if b == 0 then 0 else v b i) ind w)

module _ {sb : Super} {d d₂ : Disk} {ip ip₁ ip₂ : Inode} (file : IsFile sb d ip)
    (rel : IsReleased sb d (slot d ip) 0 (maxfile + 1) d₂) (c₁ : IsCleared ip 0 ndirect ip₁)
    (c₂ : IsCleared ip₁ ndirect (ndirect + 1) ip₂) where
  no_addr : (j : ℕ) → j < 13 → get_or ip₂.addrs j 0 ≡ 0
  no_addr j lt = elim (ℕ_discrete j ndirect) [
    | yes e ↦ c₂.zeros j (omega arith) (omega arith)
    | no ne ↦ c₂.others j (inl (omega arith)) ∙ c₁.zeros j (omega arith) (omega arith)
  ]

  cut_fields : record ip₂ { size = 0 } ≡ record ip { addrs = ip₂.addrs; size = 0 }
  cut_fields =
      ap (λ (x : Inode). record x { size = 0 }) c₂.fields
      ∙ ap (λ (x : Inode). record x { addrs = ip₂.addrs; size = 0 }) c₁.fields

  all_cut : IsTruncated sb d ip (record ip₂ { size = 0 }) (iupdate sb (record ip₂ { size = 0 }) d₂)
  unfolding iupdate
  all_cut =
      let ip' : Inode = record ip₂ { size = 0 } in
      record {
        file = record {
          array = c₂.array ∙ c₁.array ∙ file.array;
          boot = rel.others 0 (λ i ge lt nz. nz) ∙ file.boot;
          table = no_blocks-IsTable (is_used sb d₂) (slot _ ip') (slot-empty _ ip' no_addr);
        };
        fields = cut_fields;
        empty = λ i le. slot-empty _ ip' no_addr i;
        freed = λ i le. rel.freed i (omega arith) (omega arith);
        others = λ c h. rel.others c (λ i ge lt. h i (omega arith));
        bytes = rel.bytes;
        words = rel.words;
        on_disk =
            subst (λ i. (iupdate sb ip' d₂).dinodes (iblock sb i) (i % ipb) ≡ dinode ip')
              (ap (λ (x : Inode). x.inum) cut_fields)
              (ap (λ f. f (ip'.inum % ipb)) (update_self d₂.dinodes (iblock sb ip'.inum) _)
                ∙ update_self (d₂.dinodes (iblock sb ip'.inum)) (ip'.inum % ipb) _);
      }

-- For an inode whose blocks are a table: `itrunc` does not panic. It frees each block of the inode, the indirect
-- one too, changes the mark of no other block and the bytes of none, and leaves an inode of size 0 without blocks,
-- also on the disk.
pub itrunc_lem :
    {sb : Super} {d : Disk} {ip : Inode}
    → IsFile sb d ip
    → (ip' : Inode) × (d' : Disk) × (itrunc sb ip d ≡ some (ip', d')) × IsTruncated sb d ip ip' d'
unfolding itrunc
itrunc_lem {sb} {d} {ip} file =
    let (d₂, e, rel) = free_run_lem (maxfile + 1) 0 (slot d ip) sb d (table-IsPart file.table) in
    let (d₁, a, b) = split_run ndirect (nindirect + 1) 0 (slot d ip) sb d d₂ e in
    let (ip₁, e₁, c₁) =
      free_direct_lem ndirect 0 (slot d ip) sb ip d d₁ (omega (arith, file.array))
        (λ j ge lt. sym (slot_addr d ip j lt)) a in
    let ind = c₁.others ndirect (inr (omega arith)) in
    let (ip₂, e₂, c₂) =
      free_indirect_lem (slot d ip) sb ip₁ d₁ d₂ (omega (arith, c₁.array, file.array))
        (slot_indirect d ip ∙ sym ind)
        (entries_left d d₁ ip ip₁ (free_run_words ndirect 0 (slot d ip) sb d d₁ a) ind) b in
    (
      record ip₂ { size = 0 },
      iupdate sb (record ip₂ { size = 0 }) d₂,
      rw (itrunc, e₁, e₂) refl,
      all_cut file rel c₁ c₂,
    )
