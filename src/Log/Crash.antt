-- ===== src/Log/Crash.antt =====
-- kernel/log.c: a crash at any point of a commit, followed by the recovery.
use os_final_project.Prelude.{
  ℕ, ◌+◌, ◌≤◌, ◌<◌, ◌≡◌, ◌≢◌, refl, ap, sym, ◌∙◌, subst, inl, inr, [], ◌∷◌, ◌++◌, arith,
  if◌then◌else◌, Bool-cases, length, take, ltb, ltb→lt, ◌&&◌,
}
use os_final_project.Log.{
  Header, Disk, Write, Io, Log, apply, commit, recover_from_log, logged, logblocks,
}
use os_final_project.Log.Writes.{IsHome, Homes, replay, home_writes, LogHolds}
use os_final_project.Log.Order.{commit_writes, commit-trace, recover_from_log-replay}
use os_final_project.Log.Stages.{
  Throughout-take, Before, Stage, before, during, after, install_all, committing, all_left,
}

module _ {D : Type 0} (start : ℕ) (lh : Header) (f old : ℕ → D) where
  recover_as :
      (h : Header) (d : Disk D)
      → d.header ≡ h
      → Homes start h
      → length h ≤ logblocks
      → LogHolds start 0 h f d.block
      → recover_from_log start d ≡ replay (home_writes h f ++ (Write.header [] ∷ [])) d
  recover_as h d e =
      subst
        (λ h'.
          Homes start h'
          → length h' ≤ logblocks
          → LogHolds start 0 h' f d.block
          → recover_from_log start d ≡ replay (home_writes h' f ++ (Write.header [] ∷ [])) d)
        e (recover_from_log-replay start f d)

  -- What a disk is after the recovery when `k` writes were made.
  abbrev Recovered : ℕ → Disk D → Type 0
  Recovered k d =
      (d.header ≡ [])
      × (k ≤ length lh → (b : ℕ) → IsHome start b → d.block b ≡ old b)
      × (length lh < k
          → (b : ℕ) → IsHome start b
          → d.block b ≡ (if logged b lh then f b else old b))

  recovered :
      (k : ℕ) (d : Disk D)
      → Homes start lh
      → length lh ≤ logblocks
      → Stage start lh f old k d
      → Recovered k (recover_from_log start d)
  unfolding home_writes replay apply logged
  recovered k d homes fits (before le s) =
      rw (recover_as [] d s.header (λ b e. absurd (cc e)) (omega arith) tt)
        (refl, (λ _. s.home), λ lt. absurd (omega arith))
  recovered k d homes fits (during lt s) =
      let a =
        install_all start lh f old homes fits lh d (λ b e. e) s
          (all_left start lh f old homes fits d) in
      rw (recover_as lh d s.header homes fits s.log)
        (a.header, (λ le. absurd (omega arith)), λ _. a.home)
  recovered k d homes fits (after lt s) =
      rw (recover_as [] d s.header (λ b e. absurd (cc e)) (omega arith) tt)
        (refl, (λ le. absurd (omega arith)), λ _. s.home)

commit-trace_new :
    {D : Type 0} (lg : Log) (io : Io D)
    → lg.lh ≢ []
    → io.trace ≡ []
    → Homes lg.start lg.lh
    → length lg.lh ≤ logblocks
    → (commit lg io).1.trace ≡ commit_writes lg.start lg.lh io.cache
commit-trace_new lg io some_block new homes fits =
    commit-trace lg io some_block homes fits
    ∙ ap (λ ts. ts ++ commit_writes lg.start lg.lh io.cache) new

-- Let the log on the disk be empty, and let the blocks of a commit, at most LOGBLOCKS, lie outside
-- the blocks of the log. The kernel crashes when a commit of at least one block has made `n` of its
-- writes, and recovers: the log is then empty, and the blocks outside it hold what they held before
-- the commit, all of them, if the header was not yet written, and what the committed operations
-- wrote, all of it, if it was.
pub crash_atomic :
    {D : Type 0} (lg : Log) (io : Io D) (n b : ℕ)
    → lg.lh ≢ []
    → io.trace ≡ []
    → io.disk.header ≡ []
    → Homes lg.start lg.lh
    → length lg.lh ≤ logblocks
    → n ≤ length (commit lg io).1.trace
    → IsHome lg.start b
    → ((recover_from_log lg.start (replay (take n (commit lg io).1.trace) io.disk)).header ≡ [])
      × ((recover_from_log lg.start (replay (take n (commit lg io).1.trace) io.disk)).block b
          ≡ (if ltb (length lg.lh) n && logged b lg.lh then io.cache b else io.disk.block b))
crash_atomic lg io n b some_block new empty homes fits le home = (
  r.0,
  elim (Bool-cases (ltb (length lg.lh) n)) [
    | inl h ↦ rw h (r.2 (ltb→lt (length lg.lh) n h) b home)
    | inr h ↦ rw h (r.1 (ground arith) b home)
  ],
)
  where
    e : (commit lg io).1.trace ≡ commit_writes lg.start lg.lh io.cache
    e = commit-trace_new lg io some_block new homes fits

    start_stage : Before lg.start lg.lh io.cache io.disk.block io.disk
    start_stage = record { header = empty; home = λ x h. refl }

    stage :
        Stage lg.start lg.lh io.cache io.disk.block
          (0 + n)
          (replay (take n (commit_writes lg.start lg.lh io.cache)) io.disk)
    stage =
        Throughout-take (Stage lg.start lg.lh io.cache io.disk.block) 0 _ io.disk n
          (subst (λ ws. n ≤ length ws) e le)
          (committing lg.start lg.lh io.cache io.disk.block homes fits io.disk start_stage)

    r :
        Recovered lg.start lg.lh io.cache io.disk.block n
          (recover_from_log lg.start (replay (take n (commit lg io).1.trace) io.disk))
    r =
        recovered lg.start lg.lh io.cache io.disk.block n
          (replay (take n (commit lg io).1.trace) io.disk) homes fits
          (subst (λ ws. Stage lg.start lg.lh io.cache io.disk.block n (replay (take n ws) io.disk))
            (sym e)
            (subst
              (λ k.
                Stage lg.start lg.lh io.cache io.disk.block k
                  (replay (take n (commit_writes lg.start lg.lh io.cache)) io.disk))
              (omega arith) stage))
