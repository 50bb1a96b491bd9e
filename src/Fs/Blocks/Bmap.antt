-- ===== src/Fs/Blocks/Bmap.antt =====
-- kernel/fs.c: `bmap` on both of its branches.
use os_final_project.Prelude.{
  ℕ, ◌-◌, ◌≤◌, ◌<◌, ◌≡◌, refl, ap, sym, ◌∙◌, subst, inl, inr, true, Bool-cases, some, if◌then◌else◌,
  ltb, ltb→lt, arith, update_self, update_ne, ==_iff, ==_ne, ℕ_discrete, get_or,
}
use os_final_project.Fs.{Super, Disk, Inode, ndirect, nindirect, maxfile}
use os_final_project.Fs.Blocks.{load_addr, load_entry, bmap}
use os_final_project.Fs.Blocks.Table.{slot, IsFile, slot_indirect, slot_entry}
use os_final_project.Fs.Blocks.Grown.{unused_before, IsLoaded, trans-Grown}
use os_final_project.Fs.Blocks.Map.{
  IsMapped, load_direct, load_indirect, load_entry_lem, loaded-IsMapped,
}

-- The indirect block is loaded first.
indirect_failed :
    {sb : Super} {d d' : Disk} {ip ip' : Inode} {bn : ℕ}
    → bn < maxfile
    → ndirect ≤ bn
    → IsLoaded sb d ip maxfile 0 ip' d'
    → IsMapped sb d ip bn 0 ip' d'
indirect_failed {sb} {d} {d'} {ip} {ip'} {bn} lt le l = record {
  grown = l.grown;
  there = none_there d' ip' (l.slots maxfile ∙ update_self (slot d ip) maxfile 0);
  others = λ j lt ne. l.slots j ∙ update_ne (slot d ip) maxfile j 0 (omega arith);
  same = λ nz. absurd (nz (none_there d ip (empty_before (ℕ_discrete (slot d ip maxfile) 0))));
  fresh = λ _ nz. absurd (nz refl);
  new = λ _ nz. absurd (nz refl);
  full = l.full;
}
  where
    none_there : (d : Disk) (ip : Inode) → slot d ip maxfile ≡ 0 → slot d ip bn ≡ 0
    none_there d ip z =
        slot_entry d ip bn le (omega arith)
        ∙ ap (λ t. if t then 0 else d.words (get_or ip.addrs ndirect 0) (bn - ndirect))
            ((==_iff (get_or ip.addrs ndirect 0) 0).1 (sym (slot_indirect d ip) ∙ z))

    empty_before : Dec (slot d ip maxfile ≡ 0) → slot d ip maxfile ≡ 0
    empty_before (yes z) = z
    empty_before (no nz) = sym (l.same nz)

then_entry :
    {sb : Super} {d d' d'' : Disk} {ip ip' : Inode} {bn ind r : ℕ}
    → bn < maxfile
    → ndirect ≤ bn
    → IsLoaded sb d ip maxfile ind ip' d'
    → IsLoaded sb d' ip' bn r ip' d''
    → IsMapped sb d ip bn r ip' d''
then_entry {sb} {d} {d'} {d''} {ip} {ip'} {bn} {ind} {r} lt le l m = record {
  grown = trans-Grown l.grown m.grown;
  there = m.slots bn ∙ update_self (slot d' ip') bn r;
  others = λ j lt' ne. m.slots j ∙ update_ne (slot d' ip') bn j r ne ∙ first j lt';
  same = λ nz. m.same (λ z. nz (sym (first bn lt) ∙ z)) ∙ first bn lt;
  fresh = λ z. m.fresh (first bn lt ∙ z);
  new = λ z nz. unused_before _ _ (l.grown.used r) (m.new (first bn lt ∙ z) nz);
  full = m.full;
}
  where
    first : (j : ℕ) → j < maxfile → slot d' ip' j ≡ slot d ip j
    first j lt = l.slots j ∙ update_ne (slot d ip) maxfile j ind (omega arith)

-- For a position in range and an inode whose blocks are a table: `bmap` does not panic. It returns the block
-- that the position has, or has given it a free block, filled with zeros, if it had none; it returns 0 only if
-- the disk is full. The other positions keep their blocks, each marked block keeps its mark and its
-- bytes, and the blocks of the inode are a table again.
pub bmap_lem :
    {sb : Super} {d : Disk} {ip : Inode} (bn : ℕ)
    → IsFile sb d ip
    → bn < maxfile
    → (r : ℕ) × (ip' : Inode) × (d' : Disk) × (bmap sb ip bn d ≡ some (r, ip', d'))
      × IsMapped sb d ip bn r ip' d'
unfolding bmap
bmap_lem {sb} {d} {ip} bn file lt = elim (Bool-cases (ltb bn ndirect)) [
  | inl t ↦
      let r = load_addr sb ip bn d in
      (r.0, r.1, r.2, rw (t) refl, loaded-IsMapped (load_direct bn file (ltb→lt bn ndirect t)))
  | inr f ↦
      let r = load_addr sb ip ndirect d in
      let l = load_indirect file in
      let le : ndirect ≤ bn = ground arith in
      let in_range : ltb (bn - ndirect) nindirect ≡ true = ground arith in
      elim (ℕ_discrete r.0 0) [
        | yes z ↦ (
          0,
          r.1,
          r.2,
          rw (f, in_range, (==_iff r.0 0).1 z) refl,
          indirect_failed lt le (subst (λ x. IsLoaded sb d ip maxfile x r.1 r.2) z l),
        )
        | no nz ↦
            let q = load_entry sb r.0 (bn - ndirect) r.2 in
            (
              q.0,
              r.1,
              q.1,
              rw (f, in_range, ==_ne r.0 0 nz) refl,
              then_entry lt le l (
                  load_entry_lem bn r.0 l.grown.file le lt
                    (sym (l.slots maxfile ∙ update_self (slot d ip) maxfile r.0)
                      ∙ slot_indirect r.2 r.1)
                    nz),
            )
      ]
]
