-- ===== src/Fs/Blocks/Put.antt =====
-- kernel/fs.c: a block that `bmap` stores in `addrs` or in the indirect block fills one slot.
use os_final_project.Prelude.{
  ℕ, ◌-◌, ◌≤◌, ◌<◌, ◌≡◌, ◌≢◌, refl, ap, sym, ◌∙◌, subst, inl, inr, Bool, true, false, ◌==◌,
  if◌then◌else◌, arith, update, update_self, update_ne, ==_iff, ==_ne, ℕ_discrete, get_or,
  get_or-set_self, get_or-set_ne, set,
}
use os_final_project.Fs.{Super, Disk, Inode, ndirect, maxfile}
use os_final_project.Fs.Bitmap.Laws.{is_used}
use os_final_project.Fs.Bitmap.Free.{IsTaken}
use os_final_project.Fs.Blocks.Table.{
  slot, slot_addr, slot_indirect, slot_entry, slot_kinds, IsFile,
}

-- The zeros of a new block do not change an entry of the indirect block.
entry_same :
    (w w' : ℕ → ℕ → ℕ) (ind b k : ℕ)
    → w' ≡ update w b (λ i. 0)
    → (ind ≢ 0 → ind ≢ b)
    → (if ind == 0 then 0 else w' ind k) ≡ (if ind == 0 then 0 else w ind k)
entry_same w w' ind b k e ne = elim (ℕ_discrete ind 0) [
  | yes z ↦ rw ((==_iff ind 0).1 z) refl
  | no nz ↦ rw (==_ne ind 0 nz) (ap (λ f. f ind k) e ∙ ap (λ f. f k) (update_ne w b ind _ (ne nz)))
]

update_at : (f : ℕ → ℕ) (i j b : ℕ) → j ≡ i → update f i b j ≡ b
update_at f i j b e = subst (λ x. update f i b x ≡ b) (sym e) (update_self f i b)

zero_either : (t : Bool) {n : ℕ} → n ≡ 0 → (if t then 0 else n) ≡ 0
zero_either true e = refl
zero_either false e = e

module _ (sb : Super) (d d' : Disk) (ip : Inode) (b : ℕ) (file : IsFile sb d ip)
    (free : is_used sb d b ≡ false) (taken : IsTaken sb d b d') where
  abbrev ind : ℕ
  ind = get_or ip.addrs ndirect 0

  other : ind ≢ 0 → ind ≢ b
  other nz e =
      let s = slot_indirect d ip in
      let t = file.table.marked maxfile (omega arith) (λ z. nz (sym s ∙ z)) in
      let q : true ≡ false = sym t ∙ ap (is_used sb d) (s ∙ e) ∙ free in cc

  pub put_direct :
      (i : ℕ)
      → i < ndirect
      → (j : ℕ) → slot d' (record ip { addrs = set ip.addrs i b }) j ≡ update (slot d ip) i b j
  put_direct i lt j =
      let ip' : Inode = record ip { addrs = set ip.addrs i b } in
      let same : get_or ip'.addrs ndirect 0 ≡ ind =
        get_or-set_ne ip.addrs i ndirect b 0 (omega arith) in
      elim (slot_kinds j) [
        | inl d12 ↦ slot_addr d' ip' j d12 ∙ (elim (ℕ_discrete j i) [
          | yes e ↦
              ap (λ x. get_or (set ip.addrs i b) x 0) e
              ∙ get_or-set_self ip.addrs i b 0 (omega (arith, file.array))
              ∙ sym (update_at (slot d ip) i j b e)
          | no ne ↦
              get_or-set_ne ip.addrs i j b 0 (λ e. ne (sym e))
              ∙ sym (slot_addr d ip j d12)
              ∙ sym (update_ne (slot d ip) i j b ne)
        ])
        | inr (inl e) ↦
            subst (λ x. slot d' ip' x ≡ update (slot d ip) i b x) (sym e)
              (slot_indirect d' ip'
                ∙ same
                ∙ sym (slot_indirect d ip)
                ∙ sym (update_ne (slot d ip) i maxfile b (omega arith)))
        | inr (inr (le, ne)) ↦
            slot_entry d' ip' j le ne
            ∙ ap (λ x. if x == 0 then 0 else d'.words x (j - ndirect)) same
            ∙ entry_same d.words d'.words ind b (j - ndirect) taken.words other
            ∙ sym (slot_entry d ip j le ne)
            ∙ sym (update_ne (slot d ip) i j b (omega arith))
      ]

  pub put_indirect :
      slot d ip maxfile ≡ 0
      → (j : ℕ)
      → slot d' (record ip { addrs = set ip.addrs ndirect b }) j ≡ update (slot d ip) maxfile b j
  put_indirect z j =
      let ip' : Inode = record ip { addrs = set ip.addrs ndirect b } in
      let new : get_or ip'.addrs ndirect 0 ≡ b =
        get_or-set_self ip.addrs ndirect b 0 (omega (arith, file.array)) in
      elim (slot_kinds j) [
        | inl d12 ↦
            slot_addr d' ip' j d12
            ∙ get_or-set_ne ip.addrs ndirect j b 0 (omega arith)
            ∙ sym (slot_addr d ip j d12)
            ∙ sym (update_ne (slot d ip) maxfile j b (omega arith))
        | inr (inl e) ↦
            subst (λ x. slot d' ip' x ≡ update (slot d ip) maxfile b x) (sym e)
              (slot_indirect d' ip' ∙ new ∙ sym (update_self (slot d ip) maxfile b))
        | inr (inr (le, ne)) ↦
            slot_entry d' ip' j le ne
            ∙ ap (λ x. if x == 0 then 0 else d'.words x (j - ndirect)) new
            ∙ zero_either (b == 0) (
                ap (λ f. f b (j - ndirect)) taken.words
                ∙ ap (λ f. f (j - ndirect)) (update_self d.words b (λ i. 0)))
            ∙ sym (
                ap (λ x. if x == 0 then 0 else d.words x (j - ndirect))
                  (sym (slot_indirect d ip) ∙ z))
            ∙ sym (slot_entry d ip j le ne)
            ∙ sym (update_ne (slot d ip) maxfile j b ne)
      ]

  pub put_entry :
      (i : ℕ)
      → ndirect ≤ i
      → i < maxfile
      → slot d ip maxfile ≢ 0
      → (j : ℕ)
      → slot
          (record d' {
            words =
                update d'.words
                  (get_or ip.addrs ndirect 0)
                  (update (d'.words (get_or ip.addrs ndirect 0)) (i - ndirect) b);
          })
          ip
          j
        ≡ update (slot d ip) i b j
  put_entry i le lt nz j =
      let d'' : Disk = record d' {
        words = update d'.words ind (update (d'.words ind) (i - ndirect) b);
      } in
      let new = update_self d'.words ind (update (d'.words ind) (i - ndirect) b) in
      let s = slot_indirect d ip in
      let cond =
        ap (λ t. if t then 0 else d''.words ind (j - ndirect)) (==_ne ind 0 (λ z. nz (s ∙ z))) in
      elim (slot_kinds j) [
        | inl d12 ↦
            slot_addr d'' ip j d12
            ∙ sym (slot_addr d ip j d12)
            ∙ sym (update_ne (slot d ip) i j b (omega arith))
        | inr (inl e) ↦
            subst (λ x. slot d'' ip x ≡ update (slot d ip) i b x) (sym e)
              (slot_indirect d'' ip ∙ sym s ∙ sym (update_ne (slot d ip) i maxfile b (omega arith)))
        | inr (inr (le', ne)) ↦ elim (ℕ_discrete j i) [
          | yes e ↦
              slot_entry d'' ip j le' ne
              ∙ cond
              ∙ ap (λ f. f (j - ndirect)) new
              ∙ update_at (d'.words ind) (i - ndirect) (j - ndirect) b (ap (λ x. x - ndirect) e)
              ∙ sym (update_at (slot d ip) i j b e)
          | no differ ↦
              slot_entry d'' ip j le' ne
              ∙ cond
              ∙ ap (λ f. f (j - ndirect)) new
              ∙ update_ne (d'.words ind) (i - ndirect) (j - ndirect) b (omega arith)
              ∙ sym (
                  ap (λ t. if t then 0 else d'.words ind (j - ndirect))
                    (==_ne ind 0 (λ z. nz (s ∙ z))))
              ∙ entry_same d.words d'.words ind b (j - ndirect) taken.words other
              ∙ sym (slot_entry d ip j le' ne)
              ∙ sym (update_ne (slot d ip) i j b differ)
        ]
      ]
