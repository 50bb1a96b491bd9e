-- ===== src/Spinlock/Tests.antt =====
-- kernel/spinlock.c: runs of the lock with two CPUs, and a call of `push_off` that is undone.
use os_final_project.Prelude.{ℕ, ◌≡◌, ◌≢◌, refl, inl, inr, true, false, none, some, arith, update}
use os_final_project.Spinlock.{
  Cpu, initlock, Sys, push_off, pop_off, outside, spinning, won, cpu_step, acquire_enter,
  acquire_spin, holding, test_and_set,
}
use os_final_project.Spinlock.Nesting.{SameMask, pop-push}
use os_final_project.Spinlock.Exclusion.{Reach, start, later, IsStart, mutual_exclusion, no_panic}

abbrev cpu : Cpu
cpu = record { noff = 0; intena = false; intr = true }

pop-push_example : (e : Cpu) × (pop_off (push_off cpu) ≡ some e) × SameMask cpu e
pop-push_example =
    pop-push cpu (push_off cpu) (inl refl) (omega arith)
      (record { noff = refl; intr = refl; intena = inr refl })

abbrev start_state : Sys
start_state = record { lock = initlock; cpu = λ i. cpu; pc = λ i. outside }

start_state-IsStart : IsStart start_state
start_state-IsStart = record { free = refl; idle = λ i. refl; shallow = λ i. omega arith }

-- CPU 0 enters `acquire` and wins the lock.
abbrev entered : Sys
entered = record {
  lock = initlock;
  cpu = update (λ i. cpu) 0 (push_off cpu);
  pc = update (λ i. outside) 0 spinning;
}

abbrev won_state : Sys
won_state = record {
  lock = record { locked = true; cpu = none };
  cpu = update (λ i. cpu) 0 (push_off cpu);
  pc = update (update (λ i. outside) 0 spinning) 0 won;
}

won_state-Reach : Reach start_state won_state
unfolding cpu_step acquire_enter acquire_spin holding test_and_set initlock
won_state-Reach = later {s = entered} 0 (later {s = start_state} 0 start refl) refl

mutual_exclusion_example : (◌≡◌ {A = ℕ} 0 0) × ((won_state.cpu 0).intr ≡ false)
mutual_exclusion_example = mutual_exclusion start_state-IsStart won_state-Reach 0 0 refl refl

no_panic_example : cpu_step (won_state.pc 1) 1 won_state ≢ none
no_panic_example = no_panic start_state-IsStart won_state-Reach 1
