-- ===== src/Log/Reserve.antt =====
-- kernel/log.c: the blocks that `begin_op` reserves, and those that the running operations may still write.
use os_final_project.Prelude.{
  ℕ, suc, ◌+◌, ◌*◌, ◌≤◌, ◌<◌, ◌≡◌, ap, sym, ◌∙◌, Bool, true, false, Bool-cases, inl, inr,
  if◌then◌else◌, some, ◌∷◌, arith, length, length-set, length-remove, remove, All-remove, set,
  get_elem?, All, All-set, All-get_elem?, get_elem?-lt, update, add32,
}
use os_final_project.Log.{
  Io, Log, maxopblocks, logblocks, begin_op, log_write, end_op, commit, commit_done,
}
use os_final_project.Log.Counters.{
  total, total-le, total-set, total-remove, log_write-adds, end_op-ends, commit-lh,
  commit-outstanding, commit-committing,
}
use os_final_project.Log.Running.{Running}

-- While an `end_op` commits, no operation runs.
pub record Inv {D : Type 0} (s : Running D) : Type 0 where
  pub quiet : s.log.committing ≡ false → s.todo + s.done ≡ 0
  pub busy : s.log.committing ≡ true → (length s.budgets ≡ 0) × (s.todo + s.done ≡ 1)
  pub counted : s.log.outstanding ≡ length s.budgets
  pub room : length s.log.lh + total s.budgets ≤ logblocks
  pub limited : All (λ x. x ≤ maxopblocks) s.budgets
  pub few : length s.budgets ≤ 3

module _ {D : Type 0} {s : Running D} (inv : Inv s) where
  -- An operation runs only while nobody commits, an `end_op` is under way only while somebody does.
  pub running_quiet : 0 < length s.budgets → s.log.committing ≡ false
  running_quiet pos = elim (Bool-cases s.log.committing) [
    | inl e ↦ absurd (omega (arith, (inv.busy e).0))
    | inr e ↦ e
  ]

  pub ending_busy : 0 < s.todo + s.done → s.log.committing ≡ true
  ending_busy pos = elim (Bool-cases s.log.committing) [
    | inl e ↦ e
    | inr e ↦ absurd (omega (arith, inv.quiet e))
  ]

  begins_quiet : (lg : Log) → begin_op s.log ≡ some lg → s.log.committing ≡ false
  unfolding begin_op
  begins_quiet lg e = ground arith

  accepted :
      (lg : Log)
      → begin_op s.log ≡ some lg
      → s.log.committing ≡ false
      → (length s.log.lh + (s.log.outstanding + 1) * maxopblocks ≤ logblocks)
        × (record (s.log) { outstanding = add32 s.log.outstanding 1 } ≡ lg)
  unfolding begin_op
  accepted lg e calm = (
    ground (arith, inv.few, inv.counted, inv.room),
    ground (arith, inv.few, inv.counted, inv.room),
  )

  pub begins-Inv :
      (lg : Log)
      → begin_op s.log ≡ some lg
      → Inv (record s { log = lg; budgets = maxopblocks ∷ s.budgets })
  unfolding total
  begins-Inv lg e =
      let calm = begins_quiet lg e in
      let (fits, same) = accepted lg e calm in
      record {
        quiet = λ q. inv.quiet calm;
        busy = λ q. cc;
        counted = omega (arith, ap (λ (l : Log). l.outstanding) same, inv.counted, inv.few);
        room = omega (
          arith,
          ap (λ (l : Log). length l.lh) same,
          inv.counted,
          total-le s.budgets inv.limited,
        );
        limited = (omega arith, inv.limited);
        few = omega (arith, inv.counted);
      }

  -- The write of an operation that has budget left is accepted and keeps the invariant.
  pub writes-Inv :
      (i left b : ℕ) (v : D)
      → get_elem? s.budgets i ≡ some (suc left)
      → (lg : Log) × (io : Io D) × (log_write b s.log
            (record (s.io) { cache = update s.io.cache b v })
          ≡ some (lg, io))
        × Inv (record s { log = lg; io = io; budgets = set s.budgets i left })
  writes-Inv i left b v e =
      let t = total-set s.budgets i left e in
      let n = get_elem?-lt s.budgets i e in
      let calm = running_quiet (omega arith) in
      let (lg, io, w, more, same, quiet) =
        log_write-adds b s.log (record (s.io) { cache = update s.io.cache b v })
          (omega (arith, inv.room)) (omega (arith, inv.counted))
          (omega (arith, inv.counted, inv.few)) in
      (
        lg,
        io,
        w,
        record {
          quiet = λ q. inv.quiet calm;
          busy = λ q. cc;
          counted = omega (arith, inv.counted, length-set s.budgets i left);
          room = omega (arith, inv.room);
          limited =
              All-set (λ x. x ≤ maxopblocks) s.budgets i left inv.limited
                (omega (arith, All-get_elem? (λ x. x ≤ maxopblocks) s.budgets i inv.limited e));
          few = omega (arith, inv.few, length-set s.budgets i left);
        },
      )

  -- The `end_op` of a running operation does not panic.
  pub ends-Inv :
      (i left : ℕ)
      → get_elem? s.budgets i ≡ some left
      → (last : Bool) × (lg : Log) × (end_op s.log ≡ some (last, lg))
        × Inv (record s {
          log = lg;
          budgets = remove s.budgets i;
          todo = if last then suc s.todo else s.todo;
        })
  ends-Inv i left e =
      let n = get_elem?-lt s.budgets i e in
      let calm = running_quiet (omega arith) in
      let l = length-remove s.budgets i left e in
      let (last, lg, w, same, one, flag, nobody) =
        end_op-ends s.log calm (omega (arith, inv.counted)) (omega (arith, inv.counted, inv.few)) in
      (
        last,
        lg,
        w,
        record {
          quiet = λ q. rw (sym flag ∙ q) (inv.quiet calm);
          busy = λ q.
              let t = sym flag ∙ q in
              (omega (arith, nobody t, inv.counted), rw (t) (omega (arith, inv.quiet calm)));
          counted = omega (arith, inv.counted);
          room = omega (arith, ap (λ xs. length xs) same, inv.room, total-remove s.budgets i);
          limited = All-remove (λ x. x ≤ maxopblocks) s.budgets i inv.limited;
          few = omega (arith, inv.few);
        },
      )

  pub commits-Inv :
      (todo : ℕ)
      → s.todo ≡ suc todo
      → Inv (record s {
        log = (commit s.log s.io).0;
        io = (commit s.log s.io).1;
        todo = todo;
        done = suc s.done;
      })
  commits-Inv todo e =
      let b = ending_busy (omega arith) in
      let same = commit-committing s.log s.io in
      record {
        quiet = λ q. cc;
        busy = λ q. ((inv.busy b).0, omega (arith, (inv.busy b).1));
        counted = commit-outstanding s.log s.io ∙ inv.counted;
        room = omega (arith, commit-lh s.log s.io, inv.room);
        limited = inv.limited;
        few = inv.few;
      }

  pub clears-Inv :
      (done : ℕ) → s.done ≡ suc done → Inv (record s { log = commit_done s.log; done = done })
  unfolding commit_done
  clears-Inv done e =
      let b = inv.busy (ending_busy (omega arith)) in
      record {
        quiet = λ q. omega (arith, b.1);
        busy = λ q. cc;
        counted = inv.counted;
        room = inv.room;
        limited = inv.limited;
        few = inv.few;
      }
