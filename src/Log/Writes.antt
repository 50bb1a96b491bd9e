-- ===== src/Log/Writes.antt =====
-- kernel/log.c: the writes of a commit as lists, and what the log's blocks hold.
use os_final_project.Prelude.{
  ℕ, suc, ◌+◌, ◌≤◌, ◌<◌, ◌≡◌, ◌≢◌, refl, ap₂, ◌∙◌, ◌⊎◌, true, List, [], ◌∷◌, arith, length, update,
  update_ne,
}
use os_final_project.Log.{Header, Disk, Write, apply, logged, logblocks}

-- A block outside the log's own blocks, of which `start` is the header.
abbrev pub IsHome : ℕ → ℕ → Type 0
IsHome start b = (b < start) ⊎ (start + logblocks < b)

-- Every logged block is a home block.
abbrev pub Homes : ℕ → Header → Type 0
Homes start lh = (b : ℕ) → logged b lh ≡ true → IsHome start b

pub logged-head : (b : ℕ) (bs : Header) → logged b (b ∷ bs) ≡ true
unfolding logged
logged-head b bs = ground arith

pub logged-tail : (x b : ℕ) (bs : Header) → logged x bs ≡ true → logged x (b ∷ bs) ≡ true
unfolding logged
logged-tail x b bs h = ground arith

pub Homes-tail : (start b : ℕ) (bs : Header) → Homes start (b ∷ bs) → Homes start bs
Homes-tail start b bs h x e = h x (logged-tail x b bs e)

pub home-ne :
    (start tail n x : ℕ) → IsHome start x → tail + suc n ≤ logblocks → x ≢ start + tail + 1
home-ne start tail n x h fits e = omega arith

module _ {D : Type 0} where
  unfoldable pub replay : List (Write D) → Disk D → Disk D
  replay [] d = d
  replay (w ∷ ws) d = replay ws (apply w d)

  -- The writes of `write_log`, with the contents `f` of the logged blocks.
  unfoldable pub log_writes : ℕ → ℕ → Header → (ℕ → D) → List (Write D)
  log_writes start tail [] f = []
  log_writes start tail (b ∷ bs) f =
      Write.block (start + tail + 1) (f b) ∷ log_writes start (tail + 1) bs f

  -- The writes of `install_trans`.
  unfoldable pub home_writes : Header → (ℕ → D) → List (Write D)
  home_writes [] f = []
  home_writes (b ∷ bs) f = Write.block b (f b) ∷ home_writes bs f

  -- From the entry `tail` on, the log blocks of `g` hold what `f` gives for the logged blocks.
  abbrev pub LogHolds : ℕ → ℕ → Header → (ℕ → D) → (ℕ → D) → Type 0
  LogHolds start tail [] f g = Unit
  LogHolds start tail (b ∷ bs) f g = (g (start + tail + 1) ≡ f b) × LogHolds start (tail + 1) bs f g

  pub log_writes-agree :
      (start tail : ℕ) (lh : Header) (f g : ℕ → D)
      → ((b : ℕ) → logged b lh ≡ true → g b ≡ f b)
      → log_writes start tail lh g ≡ log_writes start tail lh f
  unfolding log_writes
  log_writes-agree start tail [] f g h = refl
  log_writes-agree start tail (b ∷ bs) f g h =
      ap₂ (λ v ws. Write.block (start + tail + 1) v ∷ ws) (h b (logged-head b bs))
        (log_writes-agree start (tail + 1) bs f g (λ x e. h x (logged-tail x b bs e)))

  pub LogHolds-agree :
      (start tail : ℕ) (lh : Header) (f f' g : ℕ → D)
      → ((b : ℕ) → logged b lh ≡ true → f b ≡ f' b)
      → LogHolds start tail lh f g
      → LogHolds start tail lh f' g
  LogHolds-agree start tail [] f f' g h l = l
  LogHolds-agree start tail (b ∷ bs) f f' g h l = (
    l.0 ∙ h b (logged-head b bs),
    LogHolds-agree start (tail + 1) bs f f' g (λ x e. h x (logged-tail x b bs e)) l.1,
  )

  -- Writing a block that is home leaves the log alone.
  pub LogHolds-update :
      (start tail : ℕ) (lh : Header) (f g : ℕ → D) (b : ℕ) (v : D)
      → IsHome start b
      → tail + length lh ≤ logblocks
      → LogHolds start tail lh f g
      → LogHolds start tail lh f (update g b v)
  LogHolds-update start tail [] f g b v home fits l = l
  LogHolds-update start tail (x ∷ xs) f g b v home fits l = (
    update_ne g b (start + tail + 1) v (λ e. omega arith) ∙ l.0,
    LogHolds-update start (tail + 1) xs f g b v home (omega arith) l.1,
  )
