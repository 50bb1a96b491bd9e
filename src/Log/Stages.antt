-- ===== src/Log/Stages.antt =====
-- kernel/log.c: what the disk holds between any two writes of a commit.
use os_final_project.Prelude.{
  ℕ, zero, suc, ◌+◌, ◌≤◌, ◌<◌, ◌≡◌, refl, ap, ◌∙◌, subst, ◌⊎◌, inl, inr, true, false, List, [], ◌∷◌,
  ◌++◌, arith, if◌then◌else◌, Bool-cases, length, take, update_self, update_ne,
}
use os_final_project.Log.{Header, Disk, Write, apply, logged, logblocks}
use os_final_project.Log.Writes.{
  IsHome, Homes, logged-head, logged-tail, home-ne, replay, log_writes, home_writes, LogHolds,
  LogHolds-update,
}
use os_final_project.Log.Order.{commit_writes}

-- `P` holds before, between and behind the writes; it is told how many are made, `k` so far.
pub Throughout : {D : Type 0} → (ℕ → Disk D → Type 0) → ℕ → List (Write D) → Disk D → Type 0
Throughout P k [] d = P k d
Throughout P k (w ∷ ws) d = P k d × Throughout P (k + 1) ws (apply w d)

pub Throughout-take :
    {D : Type 0} (P : ℕ → Disk D → Type 0) (k : ℕ) (ws : List (Write D)) (d : Disk D) (n : ℕ)
    → n ≤ length ws
    → Throughout P k ws d
    → P (k + n) (replay (take n ws) d)
unfolding Throughout replay
Throughout-take P k [] d zero le t = subst (λ m. P m d) (omega arith) t
Throughout-take P k [] d (suc n) le t = absurd (omega arith)
Throughout-take P k (w ∷ ws) d zero le t = subst (λ m. P m d) (omega arith) t.0
Throughout-take P k (w ∷ ws) d (suc n) le t =
    subst (λ m. P m (replay (take n ws) (apply w d))) (omega arith)
      (Throughout-take P (k + 1) ws (apply w d) n (omega arith) t.1)

-- A commit of the blocks `lh` with the new contents `f`, on a disk that held `old`.
module _ {D : Type 0} (start : ℕ) (lh : Header) (f old : ℕ → D) where
  pub record Before (d : Disk D) : Type 0 where
    pub header : d.header ≡ []
    pub home : (b : ℕ) → IsHome start b → d.block b ≡ old b

  -- The header is written: the log holds the new contents.
  pub record During (d : Disk D) : Type 0 where
    pub header : d.header ≡ lh
    pub log : LogHolds start 0 lh f d.block
    pub home : (b : ℕ) → IsHome start b → logged b lh ≡ false → d.block b ≡ old b

  pub record After (d : Disk D) : Type 0 where
    pub header : d.header ≡ []
    pub home : (b : ℕ) → IsHome start b → d.block b ≡ (if logged b lh then f b else old b)

  -- The log blocks are written first, then the header.
  pub data Stage (k : ℕ) (d : Disk D) : Type 0 where
    before : k ≤ length lh → Before d → Stage k d
    during : length lh < k → During d → Stage k d
    after : length lh < k → After d → Stage k d

  -- All logged blocks but those of `rest` are written home.
  pub Installed : Header → Disk D → Type 0
  Installed rest d = (b : ℕ) → logged b lh ≡ true → (d.block b ≡ f b) ⊎ (logged b rest ≡ true)

  module _ (homes : Homes start lh) (fits : length lh ≤ logblocks) where
    install_one :
        (b : ℕ) (bs : Header) (d : Disk D)
        → logged b lh ≡ true
        → During d
        → Installed (b ∷ bs) d
        → During (apply (Write.block b (f b)) d) × Installed bs (apply (Write.block b (f b)) d)
    unfolding Installed logged apply
    install_one b bs d e s i = (
      record {
        header = s.header;
        log = LogHolds-update start 0 lh f d.block b (f b) (homes b e) (omega arith) s.log;
        home =
            λ x h n. update_ne d.block b x (f b) (λ q. cc (ap (λ y. logged y lh) q)) ∙ s.home x h n;
      },
      λ x l. ground (arith, i x l),
    )

    -- The writes home, from any point of them on, with what follows them.
    installing :
        (k : ℕ) (rest : Header) (ws : List (Write D)) (d : Disk D)
        → length lh < k
        → ((b : ℕ) → logged b rest ≡ true → logged b lh ≡ true)
        → During d
        → Installed rest d
        → ((k' : ℕ) (d' : Disk D)
            → length lh < k'
            → During d'
            → Installed [] d'
            → Throughout Stage k' ws d')
        → Throughout Stage k (home_writes rest f ++ ws) d
    unfolding Throughout home_writes
    installing k [] ws d lt sub s i c = c k d lt s i
    installing k (b ∷ bs) ws d lt sub s i c =
        let (s', i') = install_one b bs d (sub b (logged-head b bs)) s i in
        (
          during lt s,
          installing (k + 1) bs ws (apply (Write.block b (f b)) d) (omega arith)
              (λ x e. sub x (logged-tail x b bs e)) s' i' c,
        )

    clear_header : (d : Disk D) → During d → Installed [] d → After (apply (Write.header []) d)
    unfolding apply Installed logged
    clear_header d s i = record {
      header = refl;
      home = λ b h. elim (Bool-cases (logged b lh)) [
        | inl e ↦ rw e (elim (i b e) [ inl q ↦ q | inr q ↦ absurd (cc q) ])
        | inr e ↦ rw e (s.home b h e)
      ];
    }

    -- The same writes, to their end.
    pub install_all :
        (rest : Header) (d : Disk D)
        → ((b : ℕ) → logged b rest ≡ true → logged b lh ≡ true)
        → During d
        → Installed rest d
        → After (replay (home_writes rest f ++ (Write.header [] ∷ [])) d)
    unfolding home_writes replay
    install_all [] d sub s i = clear_header d s i
    install_all (b ∷ bs) d sub s i =
        let (s', i') = install_one b bs d (sub b (logged-head b bs)) s i in
        install_all bs (apply (Write.block b (f b)) d) (λ x e. sub x (logged-tail x b bs e)) s' i'

    logging :
        (tail : ℕ) (rest : Header) (ws : List (Write D)) (d : Disk D)
        → tail + length rest ≡ length lh
        → Before d
        → ((d' : Disk D)
            → Before d'
            → LogHolds start tail rest f d'.block
            → ((x : ℕ) → x ≤ start + tail → d'.block x ≡ d.block x)
            → Throughout Stage (length lh) ws d')
        → Throughout Stage tail (log_writes start tail rest f ++ ws) d
    unfolding Throughout log_writes apply
    logging tail [] ws d n s c =
        subst (λ k. Throughout Stage k ws d) (omega arith) (c d s tt (λ x h. refl))
    logging tail (b ∷ bs) ws d n s c = (
      before (omega arith) s,
      logging (tail + 1) bs ws (apply (Write.block (start + tail + 1) (f b)) d) (omega arith)
          (record {
            header = s.header;
            home = λ x h.
                update_ne d.block (start + tail + 1) x (f b)
                  (home-ne start tail (length bs) x h (omega arith))
                ∙ s.home x h;
          })
          (λ d' s' l below.
            c d' s'
              (
                below (start + tail + 1) (omega arith)
                    ∙ update_self d.block (start + tail + 1) (f b),
                l,
              )
              (λ x h.
                below x (omega arith)
                ∙ update_ne d.block (start + tail + 1) x (f b) (λ e. omega arith))),
    )

    header_written :
        (d : Disk D) → Before d → LogHolds start 0 lh f d.block → During (apply (Write.header lh) d)
    unfolding apply
    header_written d s l = record { header = refl; log = l; home = λ b h e. s.home b h }

    pub all_left : (d : Disk D) → Installed lh d
    unfolding Installed
    all_left d b e = inr e

    pub committing : (d : Disk D) → Before d → Throughout Stage 0 (commit_writes start lh f) d
    unfolding commit_writes Throughout
    committing d s =
        logging 0 lh (Write.header lh ∷ home_writes lh f ++ (Write.header [] ∷ [])) d (omega arith)
          s
          (λ d' s' l below. (
            before (omega arith) s',
            installing (length lh + 1) lh (Write.header [] ∷ []) (apply (Write.header lh) d')
                (omega arith) (λ b e. e) (header_written d' s' l) (all_left _)
                (λ k d₃ lt u i. (during lt u, after (omega arith) (clear_header d₃ u i))),
          ))
