-- ===== src/Log/Tests.antt =====
-- kernel/log.c: a commit of two blocks cut off behind the header, and one operation that writes.
use os_final_project.Prelude.{
  ℕ, ◌+◌, ◌≤◌, ◌≡◌, ◌≢◌, refl, inr, true, false, none, [], ◌∷◌, arith, length, take, update,
}
use os_final_project.Log.{
  Disk, Io, Log, bwrite, write_head, bunpin, bpin, write_log, install_trans, commit,
  recover_from_log, logged, logblocks, begin_op, log_write, end_op,
}
use os_final_project.Log.Writes.{Homes, replay}
use os_final_project.Log.Crash.{crash_atomic}
use os_final_project.Log.Counters.{total}
use os_final_project.Log.Running.{Running, Reach, start, later, begins, writes, IsIdle}
use os_final_project.Log.Budget.{log_write_accepted, end_op_accepted}

abbrev disk : Disk ℕ
disk = record { header = []; block = λ b. 0 }

-- The blocks 50 and 60 have been changed in the cache.
abbrev changed : Io ℕ
changed = record {
  cache = update (update (λ b. 0) 50 5) 60 6;
  disk = disk;
  pins = λ b. 1;
  trace = [];
}

abbrev two_blocks : Log
two_blocks = record { start = 2; outstanding = 0; committing = true; lh = 50 ∷ 60 ∷ [] }

two_blocks-Homes : Homes 2 (50 ∷ 60 ∷ [])
unfolding logged
two_blocks-Homes b h = ground arith

commit-two_blocks : 3 ≤ length (commit two_blocks changed).1.trace
unfolding commit write_log install_trans bwrite write_head bunpin
commit-two_blocks = omega arith

crash_atomic_example :
    ((recover_from_log 2 (replay (take 3 (commit two_blocks changed).1.trace) disk)).header ≡ [])
    × ((recover_from_log 2 (replay (take 3 (commit two_blocks changed).1.trace) disk)).block 50 ≡ 5)
unfolding logged
crash_atomic_example =
    crash_atomic two_blocks changed 3 50 (λ e. cc e) refl refl two_blocks-Homes (omega arith)
      commit-two_blocks (inr (omega arith))

abbrev idle_log : Log
idle_log = record { start = 2; outstanding = 0; committing = false; lh = [] }

abbrev idle_system : Running ℕ
idle_system = record { log = idle_log; io = changed; budgets = []; todo = 0; done = 0 }

idle_system-IsIdle : IsIdle idle_system
idle_system-IsIdle = record {
  quiet = refl;
  nobody = refl;
  empty = refl;
  budgets = refl;
  ended = refl;
}

-- One operation has begun, and written the block 50.
abbrev begun : Running ℕ
begun = record idle_system { log = record idle_log { outstanding = 1 }; budgets = 10 ∷ [] }

abbrev written : Running ℕ
written = record {
  log = record idle_log { outstanding = 1; lh = 50 ∷ [] };
  io = bpin 50 (record changed { cache = update changed.cache 50 7 });
  budgets = 9 ∷ [];
  todo = 0;
  done = 0;
}

written-Reach : Reach idle_system written
unfolding begin_op log_write logged
written-Reach = later (later start (begins (record idle_log { outstanding = 1 }) refl refl)) (
    writes 0 9 50 7 (record idle_log { outstanding = 1; lh = 50 ∷ [] })
      (bpin 50 (record changed { cache = update changed.cache 50 7 })) refl refl refl)

log_write_accepted_example :
    log_write 60 written.log (record (written.io) { cache = update written.io.cache 60 8 }) ≢ none
log_write_accepted_example = log_write_accepted idle_system-IsIdle written-Reach 0 8 60 8 refl

end_op_accepted_example :
    (end_op written.log ≢ none)
    × (◌≡◌ {A = ℕ} 0 0)
    × (◌≡◌ {A = ℕ} 1 1)
    × (1 ≤ 3)
    × (1 + total (9 ∷ []) ≤ logblocks)
end_op_accepted_example = end_op_accepted idle_system-IsIdle written-Reach 0 9 refl
