-- ===== src/Log/Budget.antt =====
-- kernel/log.c: operations of the file system that run side by side, each of which makes at most
-- MAXOPBLOCKS calls of `log_write`, in any order.
use os_final_project.Prelude.{
  ℕ, suc, ◌+◌, ◌≤◌, ◌<◌, ◌≡◌, ◌≢◌, refl, ap, sym, subst, some, none, arith, length, get_elem?,
  get_elem?-lt, update,
}
use os_final_project.Log.{logblocks, begin_op, log_write, end_op}
use os_final_project.Log.Counters.{total}
use os_final_project.Log.Running.{
  Running, Step, Reach, start, later, begins, writes, ends, commits, clears, IsIdle,
}
use os_final_project.Log.Reserve.{
  Inv, running_quiet, ending_busy, begins-Inv, writes-Inv, ends-Inv, commits-Inv, clears-Inv,
}

Step-Inv : {D : Type 0} {s t : Running D} → Inv s → Step s t → Inv t
Step-Inv inv (begins lg e f) = subst Inv (sym f) (begins-Inv inv lg e)
Step-Inv {t = t} inv (writes i left b v lg io e w f) =
    let (lg', io', w', inv') = writes-Inv inv i left b v e in subst Inv (cc) inv'
Step-Inv {t = t} inv (ends i left last lg e w f) =
    let (last', lg', w', inv') = ends-Inv inv i left e in subst Inv (cc) inv'
Step-Inv inv (commits todo e f) = subst Inv (sym f) (commits-Inv inv todo e)
Step-Inv inv (clears done e f) = subst Inv (sym f) (clears-Inv inv done e)

Reach-Inv : {D : Type 0} {s t : Running D} → Inv s → Reach s t → Inv t
Reach-Inv inv start = inv
Reach-Inv inv (later r st) = Step-Inv (Reach-Inv inv r) st

IsIdle-Inv : {D : Type 0} {s : Running D} → IsIdle s → Inv s
unfolding total
IsIdle-Inv {s = s} idle =
    let calm = idle.quiet in
    subst (λ xs. Inv (record s { budgets = xs })) (sym idle.budgets)
      (record {
        quiet = λ q. idle.ended;
        busy = λ q. cc;
        counted = idle.nobody;
        room = omega (arith, ap (λ bs. length bs) idle.empty);
        limited = tt;
        few = omega arith;
      })

-- From an idle log, in any interleaving of operations that each make at most MAXOPBLOCKS calls of
-- `log_write`: a further call within the operation's limit never panics, neither for a full log nor
-- for a call outside an operation.
pub log_write_accepted :
    {D : Type 0} {s t : Running D}
    → IsIdle s
    → Reach s t
    → (i left b : ℕ) (v : D) → get_elem? t.budgets i ≡ some (suc left)
    → log_write b t.log (record (t.io) { cache = update t.io.cache b v }) ≢ none
log_write_accepted idle r i left b v e =
    let (_, _, w, _) = writes-Inv (Reach-Inv (IsIdle-Inv idle) r) i left b v e in λ n. cc

-- From an idle log, in any interleaving of operations that each make at most MAXOPBLOCKS calls of
-- `log_write`, where a commit runs without the lock: as long as an operation runs, no `end_op` is between
-- setting `committing` and clearing it, at most three operations run together, `outstanding` is their
-- number, the log fits its blocks with room for all that they may still write, and the `end_op` of each
-- does not panic.
pub end_op_accepted :
    {D : Type 0} {s t : Running D}
    → IsIdle s
    → Reach s t
    → (i left : ℕ) → get_elem? t.budgets i ≡ some left
    → (end_op t.log ≢ none)
      × (t.todo + t.done ≡ 0)
      × (t.log.outstanding ≡ length t.budgets)
      × (length t.budgets ≤ 3)
      × (length t.log.lh + total t.budgets ≤ logblocks)
end_op_accepted {t = t} idle r i left e =
    let inv = Reach-Inv (IsIdle-Inv idle) r in
    let n = get_elem?-lt t.budgets i e in
    let (_, _, w, _) = ends-Inv inv i left e in
    ((λ n. cc), inv.quiet (running_quiet inv (omega arith)), inv.counted, inv.few, inv.room)

-- While an `end_op` commits, it is the only one, no operation runs, and `begin_op` waits.
commit_alone :
    {D : Type 0} {s t : Running D}
    → IsIdle s
    → Reach s t
    → 0 < t.todo + t.done
    → (t.todo + t.done ≡ 1) × (length t.budgets ≡ 0) × (begin_op t.log ≡ none)
unfolding begin_op
commit_alone idle r pos =
    let inv = Reach-Inv (IsIdle-Inv idle) r in
    let on = ending_busy inv pos in let b = inv.busy on in (b.1, b.0, rw (begin_op, on) refl)
