-- ===== src/Proc/Account.antt =====
-- kernel/proc.c: the times that a process has slept and waited, kept by every operation.
use os_final_project.Prelude.{ℕ, ◌+◌, ◌^◌, ◌≤◌, ◌<◌, ◌≡◌, Option, arith}
use os_final_project.Proc.{Proc, Procstate, unused, used, sleeping, runnable, running}
use os_final_project.Proc.Alloc.{inherit, start_child, start_first}
use os_final_project.Proc.Wake.{
  is_sleeping, fall_asleep, wake, wake_on, requeue, dispatch, mark_killed, kill,
}
use os_final_project.Proc.Exit.{become_zombie, adopt}

-- At the time `now`: the ticks slept and waited, and the period that is not yet counted, lie
-- between the start of the process and now.
abbrev pub InState : Procstate → ℕ → ℕ → ℕ → ℕ → Type 0
InState unused now counted wait_start sleep_start = Unit
InState runnable now counted wait_start sleep_start = (counted ≤ wait_start) × (wait_start ≤ now)
InState sleeping now counted wait_start sleep_start = (counted ≤ sleep_start) × (sleep_start ≤ now)
InState _ now counted wait_start sleep_start = counted ≤ now

abbrev pub IsAccounted : ℕ → Proc → Type 0
IsAccounted now p =
    InState p.state now (p.wait_ticks + p.sleep_ticks + p.start_time) p.wait_start p.sleep_start

-- Each assignment of the operations keeps the account of the process that it changes.
module _ (now : ℕ) (small : now < 2 ^ 32) (p : Proc) where
  pub wake-IsAccounted : p.state ≡ sleeping → IsAccounted now p → IsAccounted now (wake now p)
  unfolding wake
  wake-IsAccounted e a = ground arith

  pub wake_on-IsAccounted : (chan : ℕ) → IsAccounted now p → IsAccounted now (wake_on chan now p)
  unfolding wake_on wake is_sleeping
  wake_on-IsAccounted chan a = ground arith

  pub kill-IsAccounted : IsAccounted now p → IsAccounted now (kill now p)
  unfolding kill wake is_sleeping mark_killed
  kill-IsAccounted a = ground arith

  pub fall_asleep-IsAccounted :
      (chan : ℕ) → p.state ≡ running → IsAccounted now p → IsAccounted now (fall_asleep chan now p)
  unfolding fall_asleep
  fall_asleep-IsAccounted chan e a = ground arith

  pub requeue-IsAccounted : p.state ≡ running → IsAccounted now p → IsAccounted now (requeue now p)
  unfolding requeue
  requeue-IsAccounted e a = ground arith

  pub dispatch-IsAccounted :
      p.state ≡ runnable → IsAccounted now p → IsAccounted now (dispatch now p)
  unfolding dispatch
  dispatch-IsAccounted e a = ground arith

  pub zombie-IsAccounted :
      (status : ℕ)
      → p.state ≡ running
      → IsAccounted now p
      → IsAccounted now (become_zombie status p)
  unfolding become_zombie
  zombie-IsAccounted status e a = ground arith

  pub adopt-IsAccounted :
      (me : ℕ) (init : Option ℕ) → IsAccounted now p → IsAccounted now (adopt me init p)
  unfolding adopt
  adopt-IsAccounted me init a = ground arith

  pub child-IsAccounted :
      (me : ℕ) (parent : Proc)
      → p.state ≡ used
      → IsAccounted now p
      → IsAccounted now (start_child me now (inherit parent p))
  unfolding start_child inherit
  child-IsAccounted me parent e a = ground arith

  pub first-IsAccounted :
      (root : Option ℕ)
      → p.state ≡ used
      → IsAccounted now p
      → IsAccounted now (start_first root now p)
  unfolding start_first
  first-IsAccounted root e a = ground arith
