-- ===== src/Sleeplock.antt =====
-- kernel/sleeplock.c: the lock on which a process sleeps. Each function runs under the spin lock
-- inside it, so it is one step; that lock and the name are left out.
use os_final_project.Prelude.{ℕ, Bool, true, false, ◌&&◌, Option, none, some, ◌==◌, if◌then◌else◌}

-- `struct sleeplock`
pub record Sleeplock : Type 0 where
  pub locked : Bool
  pub pid : ℕ

unfoldable pub initsleeplock : Sleeplock
initsleeplock = record { locked = false; pid = 0 }

-- `none` where the caller sleeps and tries again when it is woken.
unfoldable pub acquiresleep : ℕ → Sleeplock → Option Sleeplock
acquiresleep me lk = if lk.locked then none else some (record { locked = true; pid = me })

unfoldable pub releasesleep : Sleeplock → Sleeplock
releasesleep lk = record { locked = false; pid = 0 }

unfoldable pub holdingsleep : ℕ → Sleeplock → Bool
holdingsleep me lk = lk.locked && (lk.pid == me)
