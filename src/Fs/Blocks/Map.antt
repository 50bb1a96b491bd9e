-- ===== src/Fs/Blocks/Map.antt =====
-- kernel/fs.c: `bmap` finds the block of a position of the content, or puts a free one there.
use os_final_project.Prelude.{
  ℕ, ◌-◌, ◌≤◌, ◌<◌, ◌≡◌, ◌≢◌, refl, ap, sym, ◌∙◌, subst, inl, inr, false, if◌then◌else◌, arith,
  update, update_self, update_ne, ==_iff, ==_ne, ℕ_discrete, get_or, set, length-set,
}
use os_final_project.Fs.{Super, Disk, Inode, ndirect, maxfile}
use os_final_project.Fs.Bitmap.{balloc}
use os_final_project.Fs.Bitmap.Laws.{is_used}
use os_final_project.Fs.Bitmap.Free.{IsTaken, IsFull, balloc_lem}
use os_final_project.Fs.Blocks.{load_addr, load_entry}
use os_final_project.Fs.Blocks.Table.{slot, IsFile, slot_addr, slot_indirect, slot_entry}
use os_final_project.Fs.Blocks.Put.{put_direct, put_indirect, put_entry}
use os_final_project.Fs.Blocks.Grown.{Grown, IsLoaded, IsLoaded-there, IsLoaded-full, IsLoaded-new}

-- A result of a load.
abbrev pub Loads : Super → Disk → Inode → ℕ → ℕ × Inode × Disk → Type 0
Loads sb d ip k r = IsLoaded sb d ip k r.0 r.1 r.2

-- `load_addr` for the slot `k` that `addrs[i]` is.
load_addr_slot :
    {sb : Super} {d : Disk} {ip : Inode} (i k : ℕ)
    → IsFile sb d ip
    → slot d ip k ≡ get_or ip.addrs i 0
    → ((b : ℕ) (d' : Disk)
        → is_used sb d b ≡ false
        → IsTaken sb d b d'
        → slot d ip k ≡ 0
        → (j : ℕ) → slot d' (record ip { addrs = set ip.addrs i b }) j ≡ update (slot d ip) k b j)
    → Loads sb d ip k (load_addr sb ip i d)
unfolding load_addr
load_addr_slot {sb} {d} {ip} i k file e put = elim (ℕ_discrete (get_or ip.addrs i 0) 0) [
  | no nz ↦ rw (==_ne (get_or ip.addrs i 0) 0 nz) (IsLoaded-there sb d ip file k _ e nz)
  | yes z ↦ rw ((==_iff (get_or ip.addrs i 0) 0).1 z) (elim (balloc_lem sb d file.boot) [
    | inl (q, full) ↦ rw (q) (IsLoaded-full sb d ip file k (e ∙ z) full)
    | inr (nz, first, taken) ↦ rw (==_ne (balloc sb d).0 0 nz) (
        IsLoaded-new sb d ip file k (balloc sb d).0 (set ip.addrs i (balloc sb d).0) (balloc sb d).1
          (balloc sb d).1 (e ∙ z) nz first.1 taken
          (length-set ip.addrs i (balloc sb d).0 ∙ file.array) (λ c. refl) refl refl (λ c ne. refl)
          (put (balloc sb d).0 (balloc sb d).1 first.1 taken (e ∙ z)))
  ])
]

pub load_direct :
    {sb : Super} {d : Disk} {ip : Inode} (i : ℕ)
    → IsFile sb d ip
    → i < ndirect
    → Loads sb d ip i (load_addr sb ip i d)
load_direct {sb} {d} {ip} i file lt =
    load_addr_slot i i file (slot_addr d ip i lt)
      (λ b d' free taken z. put_direct sb d d' ip b file free taken i lt)

pub load_indirect :
    {sb : Super} {d : Disk} {ip : Inode}
    → IsFile sb d ip
    → Loads sb d ip maxfile (load_addr sb ip ndirect d)
load_indirect {sb} {d} {ip} file =
    load_addr_slot ndirect maxfile file (slot_indirect d ip)
      (λ b d' free taken z. put_indirect sb d d' ip b file free taken z)

pub load_entry_lem :
    {sb : Super} {d : Disk} {ip : Inode} (i ind : ℕ)
    → IsFile sb d ip
    → ndirect ≤ i
    → i < maxfile
    → ind ≡ get_or ip.addrs ndirect 0
    → ind ≢ 0
    → IsLoaded sb d ip i
        (load_entry sb ind (i - ndirect) d).0
        ip
        (load_entry sb ind (i - ndirect) d).1
unfolding load_entry
load_entry_lem {sb} {d} {ip} i ind file le lt s nz =
    subst
      (λ ind.
        IsLoaded sb d ip i (load_entry sb ind (i - ndirect) d).0 ip
          (load_entry sb ind (i - ndirect) d).1)
      (sym s)
      (elim (ℕ_discrete (d.words (get_or ip.addrs ndirect 0) (i - ndirect)) 0) [
        | no nz ↦
            rw (==_ne (d.words (get_or ip.addrs ndirect 0) (i - ndirect)) 0 nz)
              (IsLoaded-there sb d ip file i _ e nz)
        | yes z ↦
            rw ((==_iff (d.words (get_or ip.addrs ndirect 0) (i - ndirect)) 0).1 z)
              (elim (balloc_lem sb d file.boot) [
                | inl (q, full) ↦ rw (q) (IsLoaded-full sb d ip file i (e ∙ z) full)
                | inr (new, first, taken) ↦ rw (==_ne (balloc sb d).0 0 new) (
                    IsLoaded-new sb d ip file i (balloc sb d).0 ip.addrs (balloc sb d).1 _ (e ∙ z)
                      new first.1 taken file.array (λ c. refl) refl refl
                      (λ c ne.
                        update_ne (balloc sb d).1.words (get_or ip.addrs ndirect 0) c _
                          (λ q. ne (q ∙ sym (slot_indirect d ip))))
                      (put_entry sb d (balloc sb d).1 ip (balloc sb d).0 file first.1 taken i le lt
                        (λ q. nz (s ∙ sym (slot_indirect d ip) ∙ q))))
              ])
      ])
  where
    e : slot d ip i ≡ d.words (get_or ip.addrs ndirect 0) (i - ndirect)
    e =
        slot_entry d ip i le (omega arith)
        ∙ ap (λ t. if t then 0 else d.words (get_or ip.addrs ndirect 0) (i - ndirect))
            (==_ne (get_or ip.addrs ndirect 0) 0 (λ q. nz (s ∙ q)))

-- The outcome of `bmap` at the position `bn` of the content.
pub record IsMapped (sb : Super) (d : Disk) (ip : Inode) (bn r : ℕ) (ip' : Inode) (d' : Disk)
    : Type 0 where
  pub grown : Grown sb d ip ip' d'
  pub there : slot d' ip' bn ≡ r
  pub others : (j : ℕ) → j < maxfile → j ≢ bn → slot d' ip' j ≡ slot d ip j
  pub same : slot d ip bn ≢ 0 → r ≡ slot d ip bn
  pub fresh : slot d ip bn ≡ 0 → r ≢ 0 → d'.bytes r ≡ λ p. 0
  pub new : slot d ip bn ≡ 0 → r ≢ 0 → is_used sb d r ≡ false
  pub full : r ≡ 0 → IsFull sb d'

pub loaded-IsMapped :
    {sb : Super} {d d' : Disk} {ip ip' : Inode} {bn r : ℕ}
    → IsLoaded sb d ip bn r ip' d'
    → IsMapped sb d ip bn r ip' d'
loaded-IsMapped {sb} {d} {d'} {ip} {ip'} {bn} {r} l = record {
  grown = l.grown;
  there = l.slots bn ∙ update_self (slot d ip) bn r;
  others = λ j lt ne. l.slots j ∙ update_ne (slot d ip) bn j r ne;
  same = l.same;
  fresh = l.fresh;
  new = l.new;
  full = l.full;
}
