-- ===== src/Log/Running.antt =====
-- kernel/log.c: operations of the file system that run side by side, as steps on the log.
use os_final_project.Prelude.{
  ℕ, suc, ◌+◌, ◌≡◌, Bool, false, if◌then◌else◌, some, List, [], ◌∷◌, remove, set, get_elem?, update,
}
use os_final_project.Log.{Io, Log, maxopblocks, begin_op, log_write, end_op, commit, commit_done}

-- For each operation between its `begin_op` and its `end_op`, how many calls of `log_write` it may
-- still make. The calls of `end_op` that have let the lock go and are to commit are `todo`; those that
-- have committed and have not yet cleared `committing` are `done`. A commit is a step of its own, without the
-- lock: any other step may come before it and behind it, with `committing` set.
pub record Running (D : Type 0) : Type 0 where
  pub log : Log
  pub io : Io D
  pub budgets : List ℕ
  pub todo : ℕ
  pub done : ℕ

pub data Step {D : Type 0} (s t : Running D) : Type 0 where
  begins :
      (lg : Log)
      → begin_op s.log ≡ some lg
      → t ≡ record s { log = lg; budgets = maxopblocks ∷ s.budgets }
      → Step s t
  writes :
      (i left b : ℕ) (v : D) (lg : Log) (io : Io D)
      → get_elem? s.budgets i ≡ some (suc left)
      → log_write b s.log (record (s.io) { cache = update s.io.cache b v }) ≡ some (lg, io)
      → t ≡ record s { log = lg; io = io; budgets = set s.budgets i left }
      → Step s t
  ends :
      (i left : ℕ) (last : Bool) (lg : Log)
      → get_elem? s.budgets i ≡ some left
      → end_op s.log ≡ some (last, lg)
      → t ≡ record s {
        log = lg;
        budgets = remove s.budgets i;
        todo = if last then suc s.todo else s.todo;
      }
      → Step s t
  commits :
      (todo : ℕ)
      → s.todo ≡ suc todo
      → t ≡ record s {
        log = (commit s.log s.io).0;
        io = (commit s.log s.io).1;
        todo = todo;
        done = suc s.done;
      }
      → Step s t
  clears :
      (done : ℕ)
      → s.done ≡ suc done
      → t ≡ record s { log = commit_done s.log; done = done }
      → Step s t

pub data Reach {D : Type 0} (s : Running D) : Running D → Type 0 where
  start : Reach s s
  later : {t u : Running D} → Reach s t → Step t u → Reach s u

-- No operation runs, none is ending, and the log is empty.
pub record IsIdle {D : Type 0} (s : Running D) : Type 0 where
  pub quiet : s.log.committing ≡ false
  pub nobody : s.log.outstanding ≡ 0
  pub empty : s.log.lh ≡ []
  pub budgets : s.budgets ≡ []
  pub ended : s.todo + s.done ≡ 0
