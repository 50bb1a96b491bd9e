-- ===== src/Log/Order.antt =====
-- kernel/log.c: the order in which `commit` and the recovery write to the disk.
use os_final_project.Prelude.{
  ℕ, ◌+◌, ◌≤◌, ◌<◌, ◌≡◌, ◌≢◌, refl, ap, sym, ◌∙◌, ◌⊎◌, inl, inr, Bool, true, false, List, [], ◌∷◌,
  ◌++◌, append_assoc, append-nil, arith, ◌==◌, ==_iff, Bool-cases, length, update_self, update_ne,
}
use os_final_project.Log.{
  Header, Disk, Write, Io, Log, apply, bwrite, write_head, bunpin, write_log, install_trans, commit,
  recover_from_log, logblocks,
}
use os_final_project.Log.Writes.{
  Homes, logged-head, logged-tail, Homes-tail, home-ne, replay, log_writes, home_writes, LogHolds,
  log_writes-agree, LogHolds-agree, LogHolds-update,
}

length-eq-zero : (bs : Header) → length bs ≡ 0 → bs ≡ []
length-eq-zero [] e = refl
length-eq-zero (b ∷ bs) e = absurd (omega arith)

module _ {D : Type 0} where
  -- `write_log` touches only the log blocks from `tail` on.
  write_log-cache_ne :
      (start tail : ℕ) (lh : Header) (io : Io D) (x : ℕ)
      → (x ≤ start + tail) ⊎ (start + tail + length lh < x)
      → (write_log start tail lh io).cache x ≡ io.cache x
  unfolding write_log bwrite
  write_log-cache_ne start tail [] io x h = refl
  write_log-cache_ne start tail (b ∷ bs) io x h =
      write_log-cache_ne start (tail + 1) bs (bwrite (start + tail + 1) (io.cache b) io) x
        (omega arith)
      ∙ update_ne io.cache (start + tail + 1) x (io.cache b) (λ e. omega arith)

  -- `write_log` writes the contents of the logged blocks in order, and nothing else.
  pub write_log-trace :
      (start tail : ℕ) (lh : Header) (io : Io D)
      → Homes start lh
      → tail + length lh ≤ logblocks
      → (write_log start tail lh io).trace ≡ io.trace ++ log_writes start tail lh io.cache
  unfolding write_log bwrite log_writes
  write_log-trace start tail [] io h fits = sym (append-nil io.trace)
  write_log-trace start tail (b ∷ bs) io h fits =
      write_log-trace start (tail + 1) bs (bwrite (start + tail + 1) (io.cache b) io)
        (Homes-tail start b bs h) (omega arith)
      ∙ append_assoc io.trace _ _
      ∙ ap (λ ws. io.trace ++ (Write.block (start + tail + 1) (io.cache b) ∷ ws))
          (log_writes-agree start (tail + 1) bs io.cache _ (λ x e.
            update_ne io.cache (start + tail + 1) x (io.cache b)
              (home-ne start tail (length bs) x (h x (logged-tail x b bs e)) (omega arith))))

  -- Behind `write_log` the log blocks hold the contents of the logged blocks.
  pub write_log-LogHolds :
      (start tail : ℕ) (lh : Header) (io : Io D)
      → Homes start lh
      → tail + length lh ≤ logblocks
      → LogHolds start tail lh io.cache (write_log start tail lh io).cache
  unfolding write_log bwrite
  write_log-LogHolds start tail [] io h fits = tt
  write_log-LogHolds start tail (b ∷ bs) io h fits =
      let io' = bwrite (start + tail + 1) (io.cache b) io in
      (
        write_log-cache_ne start (tail + 1) bs io' (start + tail + 1) (inl (omega arith))
            ∙ update_self io.cache (start + tail + 1) (io.cache b),
        LogHolds-agree start (tail + 1) bs io'.cache io.cache _
            (λ x e.
              update_ne io.cache (start + tail + 1) x (io.cache b)
                (home-ne start tail (length bs) x (h x (logged-tail x b bs e)) (omega arith)))
            (write_log-LogHolds start (tail + 1) bs io' (Homes-tail start b bs h) (omega arith)),
      )

  -- `install_trans` writes to each logged block in turn what the log holds for it.
  pub install_trans-trace :
      (r : Bool) (start tail : ℕ) (lh : Header) (f : ℕ → D) (io : Io D)
      → Homes start lh
      → tail + length lh ≤ logblocks
      → LogHolds start tail lh f io.cache
      → (install_trans r start tail lh io).trace ≡ io.trace ++ home_writes lh f
  unfolding install_trans bwrite bunpin home_writes
  install_trans-trace r start tail [] f io h fits l = sym (append-nil io.trace)
  install_trans-trace true start tail (b ∷ bs) f io h fits l =
      install_trans-trace true start (tail + 1) bs f (bwrite b (io.cache (start + tail + 1)) io)
        (Homes-tail start b bs h) (omega arith)
        (LogHolds-update start (tail + 1) bs f io.cache b (io.cache (start + tail + 1))
          (h b (logged-head b bs)) (omega arith) l.1)
      ∙ append_assoc io.trace _ _
      ∙ ap (λ v. io.trace ++ (Write.block b v ∷ home_writes bs f)) l.0
  install_trans-trace false start tail (b ∷ bs) f io h fits l =
      install_trans-trace false start (tail + 1) bs f
        (bunpin b (bwrite b (io.cache (start + tail + 1)) io)) (Homes-tail start b bs h)
        (omega arith)
        (LogHolds-update start (tail + 1) bs f io.cache b (io.cache (start + tail + 1))
          (h b (logged-head b bs)) (omega arith) l.1)
      ∙ append_assoc io.trace _ _
      ∙ ap (λ v. io.trace ++ (Write.block b v ∷ home_writes bs f)) l.0

  reassociate :
      (ts xs : List (Write D)) (w : Write D) (ys : List (Write D)) (v : Write D)
      → (((ts ++ xs) ++ (w ∷ [])) ++ ys) ++ (v ∷ []) ≡ ts ++ (xs ++ (w ∷ ys ++ (v ∷ [])))
  reassociate ts xs w ys v =
      append_assoc ((ts ++ xs) ++ (w ∷ [])) ys (v ∷ [])
      ∙ append_assoc (ts ++ xs) (w ∷ []) (ys ++ (v ∷ []))
      ∙ append_assoc ts xs (w ∷ ys ++ (v ∷ []))

  -- The whole of a commit that has something to write.
  unfoldable pub commit_writes : ℕ → Header → (ℕ → D) → List (Write D)
  unfolding log_writes home_writes
  commit_writes start lh f =
      log_writes start 0 lh f ++ (Write.header lh ∷ home_writes lh f ++ (Write.header [] ∷ []))

  pub commit-trace :
      (lg : Log) (io : Io D)
      → lg.lh ≢ []
      → Homes lg.start lg.lh
      → length lg.lh ≤ logblocks
      → (commit lg io).1.trace ≡ io.trace ++ commit_writes lg.start lg.lh io.cache
  unfolding commit write_head commit_writes
  commit-trace lg io some_block h fits = elim (Bool-cases (length lg.lh == 0)) [
    | inl e ↦ absurd (some_block (length-eq-zero lg.lh ((==_iff (length lg.lh) 0).0 e)))
    | inr e ↦
        let io₁ = write_log lg.start 0 lg.lh io in
        let l = write_log-LogHolds lg.start 0 lg.lh io h (omega arith) in
        rw (e, commit)
          (ap (λ ts. ts ++ (Write.header [] ∷ []))
              (install_trans-trace false lg.start 0 lg.lh io.cache (write_head lg.lh io₁) h
                  (omega arith) l
                ∙ ap (λ ts. (ts ++ (Write.header lg.lh ∷ [])) ++ home_writes lg.lh io.cache)
                    (write_log-trace lg.start 0 lg.lh io h (omega arith)))
            ∙ reassociate io.trace (log_writes lg.start 0 lg.lh io.cache) (Write.header lg.lh)
                (home_writes lg.lh io.cache) (Write.header []))
  ]

  -- The disk is what the writes made so far leave of `d`.
  abbrev pub Follows : Disk D → Io D → Type 0
  Follows d io = io.disk ≡ replay io.trace d

  replay-append :
      (ws : List (Write D)) (w : Write D) (d : Disk D)
      → replay (ws ++ (w ∷ [])) d ≡ apply w (replay ws d)
  unfolding replay
  replay-append [] w d = refl
  replay-append (v ∷ ws) w d = replay-append ws w (apply v d)

  bwrite-Follows :
      (d : Disk D) (b : ℕ) (v : D) (io : Io D) → Follows d io → Follows d (bwrite b v io)
  unfolding bwrite
  bwrite-Follows d b v io f =
      ap (apply (Write.block b v)) f ∙ sym (replay-append io.trace (Write.block b v) d)

  write_head-Follows :
      (d : Disk D) (h : Header) (io : Io D) → Follows d io → Follows d (write_head h io)
  unfolding write_head
  write_head-Follows d h io f =
      ap (apply (Write.header h)) f ∙ sym (replay-append io.trace (Write.header h) d)

  write_log-Follows :
      (d : Disk D) (start tail : ℕ) (lh : Header) (io : Io D)
      → Follows d io
      → Follows d (write_log start tail lh io)
  unfolding write_log
  write_log-Follows d start tail [] io f = f
  write_log-Follows d start tail (b ∷ bs) io f =
      write_log-Follows d start (tail + 1) bs (bwrite (start + tail + 1) (io.cache b) io)
        (bwrite-Follows d (start + tail + 1) (io.cache b) io f)

  install_trans-Follows :
      (d : Disk D) (r : Bool) (start tail : ℕ) (lh : Header) (io : Io D)
      → Follows d io
      → Follows d (install_trans r start tail lh io)
  unfolding install_trans bunpin
  install_trans-Follows d r start tail [] io f = f
  install_trans-Follows d true start tail (b ∷ bs) io f =
      install_trans-Follows d true start (tail + 1) bs (bwrite b (io.cache (start + tail + 1)) io)
        (bwrite-Follows d b (io.cache (start + tail + 1)) io f)
  install_trans-Follows d false start tail (b ∷ bs) io f =
      install_trans-Follows d false start (tail + 1) bs
        (bunpin b (bwrite b (io.cache (start + tail + 1)) io))
        (bwrite-Follows d b (io.cache (start + tail + 1)) io f)

  pub commit-Follows :
      (d : Disk D) (lg : Log) (io : Io D) → Follows d io → Follows d (commit lg io).1
  unfolding commit
  commit-Follows d lg io f = elim (Bool-cases (length lg.lh == 0)) [
    | inl e ↦ rw (e, commit) f
    | inr e ↦
        rw (e, commit)
          (write_head-Follows d [] _ (
            install_trans-Follows d false lg.start 0 lg.lh _
              (write_head-Follows d lg.lh _ (write_log-Follows d lg.start 0 lg.lh io f))))
  ]

  -- The recovery writes home what the log holds, and empties the log.
  pub recover_from_log-replay :
      (start : ℕ) (f : ℕ → D) (d : Disk D)
      → Homes start d.header
      → length d.header ≤ logblocks
      → LogHolds start 0 d.header f d.block
      → recover_from_log start d ≡ replay (home_writes d.header f ++ (Write.header [] ∷ [])) d
  unfolding recover_from_log write_head replay
  recover_from_log-replay start f d h fits l =
      let io : Io D = record { cache = d.block; disk = d; pins = λ b. 0; trace = [] } in
      write_head-Follows d [] (install_trans true start 0 d.header io)
        (install_trans-Follows d true start 0 d.header io refl)
      ∙ ap (λ ts. replay (ts ++ (Write.header [] ∷ [])) d)
          (install_trans-trace true start 0 d.header f io h (omega arith) l)
