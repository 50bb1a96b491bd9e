-- ===== src/Proc/Preserved.antt =====
-- kernel/proc.c: the account of the times and the rule for free entries, assignment by assignment.
use os_final_project.Prelude.{ℕ, ◌^◌, ◌<◌, refl, arith}
use os_final_project.Proc.Alloc.{
  is_unused, init_proc, clear_proc, inherit, start_child, start_first,
}
use os_final_project.Proc.Wake.{
  is_sleeping, fall_asleep, wake, wake_on, requeue, dispatch, mark_killed, kill, tidy_up,
}
use os_final_project.Proc.Exit.{adopt, become_zombie, closed}
use os_final_project.Proc.Account.{
  IsAccounted, wake_on-IsAccounted, kill-IsAccounted, fall_asleep-IsAccounted, requeue-IsAccounted,
  dispatch-IsAccounted, zombie-IsAccounted, adopt-IsAccounted, child-IsAccounted, first-IsAccounted,
}
use os_final_project.Proc.Fresh.{IsZeroFree}
use os_final_project.Proc.Keep.{Kept}

pub Accounted-Kept : (now : ℕ) → now < 2 ^ 32 → Kept now (IsAccounted now)
unfolding init_proc clear_proc tidy_up mark_killed closed
Accounted-Kept now small = record {
  init = λ pid p pos. ground arith;
  clear = λ p. tt;
  trapframe = λ p a h. h;
  pagetable = λ p a h. h;
  context = λ p a b h. h;
  child = λ me parent p e h. child-IsAccounted now small p me parent e h;
  first = λ root p e h. first-IsAccounted now small p root e h;
  fall = λ chan p e h. fall_asleep-IsAccounted now small p chan e h;
  tidy = λ p h. h;
  woken = λ chan p h. wake_on-IsAccounted now small p chan h;
  queued = λ p e h. requeue-IsAccounted now small p e h;
  chosen = λ p e h. dispatch-IsAccounted now small p e h;
  marked = λ p h. h;
  killed = λ p h. kill-IsAccounted now small p h;
  adopted = λ me i p h. adopt-IsAccounted now small p me i h;
  files = λ p h. h;
  dead = λ status p e h. zombie-IsAccounted now small p status e h;
}

pub ZeroFree-Kept : (now : ℕ) → Kept now IsZeroFree
unfolding init_proc clear_proc tidy_up mark_killed closed is_unused start_first start_child inherit
    fall_asleep wake_on wake is_sleeping requeue dispatch kill adopt become_zombie
ZeroFree-Kept now = record {
  init = λ pid p pos. ground arith;
  clear = λ p. refl;
  trapframe = λ p a h. h;
  pagetable = λ p a h. h;
  context = λ p a b h. h;
  child = λ me parent p e h. ground arith;
  first = λ root p e h. ground arith;
  fall = λ chan p e h. ground arith;
  tidy = λ p h. h;
  woken = λ chan p h. ground arith;
  queued = λ p e h. ground arith;
  chosen = λ p e h. ground arith;
  marked = λ p h. h;
  killed = λ p h. ground arith;
  adopted = λ me i p h. ground arith;
  files = λ p h. h;
  dead = λ status p e h. ground arith;
}
