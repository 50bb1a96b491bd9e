-- ===== src/Fs/Blocks/Grown.antt =====
-- kernel/fs.c: what `bmap` leaves of the disk and of the inode as it was.
use os_final_project.Prelude.{
  ℕ, ◌≡◌, ◌≢◌, refl, ap, sym, ◌∙◌, subst, fun_ext, ◌⊎◌, inl, inr, Bool, true, false, List,
  if◌then◌else◌, update, update_self, update_ne, ==_ne, ℕ_discrete, length,
}
use os_final_project.Fs.{Super, Disk, Inode, maxfile}
use os_final_project.Fs.Bitmap.Laws.{is_used}
use os_final_project.Fs.Bitmap.Free.{IsTaken, IsFull}
use os_final_project.Fs.Blocks.Table.{slot, IsTable, IsFile, update-IsTable}

-- The inode may have new blocks; no block that was marked has lost its mark or changed its bytes, and of the
-- marked blocks only the indirect block of the inode may have changed as an indirect block.
pub record Grown (sb : Super) (d : Disk) (ip : Inode) (ip' : Inode) (d' : Disk) : Type 0 where
  pub file : IsFile sb d' ip'
  pub fields : ip' ≡ record ip { addrs = ip'.addrs }
  pub used : (c : ℕ) → is_used sb d c ≡ true → is_used sb d' c ≡ true
  pub bytes : (c : ℕ) → is_used sb d c ≡ true → d'.bytes c ≡ d.bytes c
  pub words : (c : ℕ) → is_used sb d c ≡ true → c ≢ slot d ip maxfile → d'.words c ≡ d.words c
  pub indirect :
      (slot d' ip' maxfile ≡ slot d ip maxfile) ⊎ (is_used sb d (slot d' ip' maxfile) ≡ false)
  pub dinodes : d'.dinodes ≡ d.dinodes

pub refl-Grown : {sb : Super} {d : Disk} {ip : Inode} → IsFile sb d ip → Grown sb d ip ip d
refl-Grown f = record {
  file = f;
  fields = refl;
  used = λ c u. u;
  bytes = λ c u. refl;
  words = λ c u ne. refl;
  indirect = inl refl;
  dinodes = refl;
}

pub unused_before : (u v : Bool) → (u ≡ true → v ≡ true) → v ≡ false → u ≡ false
unused_before true v h e = let q : true ≡ false = sym (h refl) ∙ e in cc
unused_before false v h e = refl

pub trans-Grown :
    {sb : Super} {d d' d'' : Disk} {ip ip' ip'' : Inode}
    → Grown sb d ip ip' d'
    → Grown sb d' ip' ip'' d''
    → Grown sb d ip ip'' d''
trans-Grown {sb} {d} {d'} {d''} {ip} {ip'} {ip''} g h = record {
  file = h.file;
  fields = h.fields ∙ ap (λ (x : Inode). record x { addrs = ip''.addrs }) g.fields;
  used = λ c u. h.used c (g.used c u);
  bytes = λ c u. h.bytes c (g.used c u) ∙ g.bytes c u;
  words = λ c u ne.
      h.words c (g.used c u) (λ e. elim g.indirect [
        | inl q ↦ ne (e ∙ q)
        | inr q ↦ let r : true ≡ false = sym u ∙ ap (is_used sb d) e ∙ q in cc
      ])
      ∙ g.words c u ne;
  indirect = elim h.indirect [
    | inl q ↦ elim g.indirect [ inl r ↦ inl (q ∙ r) | inr r ↦ inr (ap (is_used sb d) q ∙ r) ]
    | inr q ↦ inr (unused_before _ _ (g.used (slot d'' ip'' maxfile)) q)
  ];
  dinodes = h.dinodes ∙ g.dinodes;
}

-- The outcome `r` of looking for the block of slot `k`, 0 for a full disk.
pub record IsLoaded (sb : Super) (d : Disk) (ip : Inode) (k r : ℕ) (ip' : Inode) (d' : Disk)
    : Type 0 where
  pub grown : Grown sb d ip ip' d'
  pub slots : (j : ℕ) → slot d' ip' j ≡ update (slot d ip) k r j
  pub same : slot d ip k ≢ 0 → r ≡ slot d ip k
  pub fresh : slot d ip k ≡ 0 → r ≢ 0 → d'.bytes r ≡ λ p. 0
  pub new : slot d ip k ≡ 0 → r ≢ 0 → is_used sb d r ≡ false
  pub full : r ≡ 0 → IsFull sb d'

update_id : (f : ℕ → ℕ) (k r j : ℕ) → f k ≡ r → f j ≡ update f k r j
update_id f k r j e = elim (ℕ_discrete j k) [
  | yes p ↦ ap f p ∙ e ∙ sym (subst (λ x. update f k r x ≡ r) (sym p) (update_self f k r))
  | no ne ↦ sym (update_ne f k j r ne)
]

module _ (sb : Super) (d : Disk) (ip : Inode) (file : IsFile sb d ip) (k : ℕ) where
  pub IsLoaded-there : (r : ℕ) → slot d ip k ≡ r → r ≢ 0 → IsLoaded sb d ip k r ip d
  IsLoaded-there r e nz = record {
    grown = refl-Grown file;
    slots = λ j. update_id (slot d ip) k r j e;
    same = λ _. sym e;
    fresh = λ z _. absurd (nz (sym e ∙ z));
    new = λ z _. absurd (nz (sym e ∙ z));
    full = λ z. absurd (nz z);
  }

  pub IsLoaded-full : slot d ip k ≡ 0 → IsFull sb d → IsLoaded sb d ip k 0 ip d
  IsLoaded-full z full = record {
    grown = refl-Grown file;
    slots = λ j. update_id (slot d ip) k 0 j z;
    same = λ nz. absurd (nz z);
    fresh = λ _ nz. absurd (nz refl);
    new = λ _ nz. absurd (nz refl);
    full = λ _. full;
  }

  -- A block that was free has been stored in the slot.
  pub IsLoaded-new :
      (b : ℕ) (addrs : List ℕ) (d' d'' : Disk)
      → slot d ip k ≡ 0
      → b ≢ 0
      → is_used sb d b ≡ false
      → IsTaken sb d b d'
      → length addrs ≡ 13
      → ((c : ℕ) → is_used sb d'' c ≡ is_used sb d' c)
      → d''.bytes ≡ d'.bytes
      → d''.dinodes ≡ d'.dinodes
      → ((c : ℕ) → c ≢ slot d ip maxfile → d''.words c ≡ d'.words c)
      → ((j : ℕ) → slot d'' (record ip { addrs = addrs }) j ≡ update (slot d ip) k b j)
      → IsLoaded sb d ip k b (record ip { addrs = addrs }) d''
  IsLoaded-new b addrs d' d'' z nz free taken len bits bytes dinodes words slots = record {
    grown = record {
      file = record {
        array = len;
        boot = keep 0 file.boot;
        table =
            subst (λ f. IsTable (is_used sb d'') f) (sym (fun_ext slots))
              (update-IsTable k b file.table free (λ c. bits c ∙ taken.marked c));
      };
      fields = refl;
      used = keep;
      bytes = λ c u. ap (λ f. f c) (bytes ∙ taken.bytes) ∙ update_ne d.bytes b c _ (old c u);
      words = λ c u ne. words c ne ∙ ap (λ f. f c) taken.words ∙ update_ne d.words b c _ (old c u);
      indirect = elim (ℕ_discrete maxfile k) [
        | yes e ↦ inr (
            ap (is_used sb d)
              (slots maxfile ∙ ap (update (slot d ip) k b) e ∙ update_self (slot d ip) k b)
            ∙ free)
        | no ne ↦ inl (slots maxfile ∙ update_ne (slot d ip) k maxfile b ne)
      ];
      dinodes = dinodes ∙ taken.dinodes;
    };
    slots = slots;
    same = λ n. absurd (n z);
    fresh = λ _ _. ap (λ f. f b) (bytes ∙ taken.bytes) ∙ update_self d.bytes b _;
    new = λ _ _. free;
    full = λ e. absurd (nz e);
  }
    where
      old : (c : ℕ) → is_used sb d c ≡ true → c ≢ b
      old c u e = let q : true ≡ false = sym u ∙ ap (is_used sb d) e ∙ free in cc

      keep : (c : ℕ) → is_used sb d c ≡ true → is_used sb d'' c ≡ true
      keep c u =
          bits c
          ∙ taken.marked c
          ∙ ap (λ t. if t then true else is_used sb d c) (==_ne c b (old c u))
          ∙ u
