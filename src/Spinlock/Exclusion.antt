-- ===== src/Spinlock/Exclusion.antt =====
-- kernel/spinlock.c: CPUs that contend for one lock, interleaved in any order.
use os_final_project.Prelude.{
  ℕ, ◌+◌, ◌<◌, ◌≡◌, refl, ◌≢◌, Bool, true, false, none, some, arith, ◌==◌, ◌&&◌, if◌then◌else◌,
  update, subst,
}
use os_final_project.Spinlock.{
  Cpu, push_off, pop_off, holding, is_cpu, test_and_set, Pc, outside, spinning, won, inside,
  cleared, Sys, cpu_step, acquire_enter, acquire_spin, acquire_record, release_clear,
  release_unlock, initlock,
}

-- From the successful swap to the store that frees the lock.
abbrev pub has_lock : Pc → Bool
has_lock outside = false
has_lock spinning = false
has_lock _ = true

-- Between the record of the owner and its removal.
abbrev pub is_inside : Pc → Bool
is_inside inside = true
is_inside _ = false

-- Outside a CPU has the depth that it came with; elsewhere it is one deeper, with interrupts off.
abbrev pub IsMasked : ℕ → Pc → Cpu → Type 0
IsMasked b outside c = c.noff ≡ b
IsMasked b _ c = (c.noff ≡ b + 1) × (c.intr ≡ false)

-- `base` gives the depth with which each CPU comes to `acquire`.
pub record Inv (base : ℕ → ℕ) (s : Sys) : Type 0 where
  pub shallow : (i : ℕ) → base i < 0x4000_0000
  pub owned : (i : ℕ) → has_lock (s.pc i) ≡ true → s.lock.locked ≡ true
  pub unique : (i j : ℕ) → has_lock (s.pc i) ≡ true → has_lock (s.pc j) ≡ true → i ≡ j
  pub recorded : (i : ℕ) → s.pc i ≡ inside → s.lock.cpu ≡ some i
  pub owner : (i : ℕ) → s.lock.cpu ≡ some i → s.pc i ≡ inside
  pub masked : (i : ℕ) → IsMasked (base i) (s.pc i) (s.cpu i)

pub data Reach (init : Sys) : Sys → Type 0 where
  start : Reach init init
  later : {s t : Sys} (i : ℕ) → Reach init s → cpu_step (s.pc i) i s ≡ some t → Reach init t

-- A step at `i` only has to be checked at `i` and, for a pair, at `i` and another CPU.
module _ {base : ℕ → ℕ} {s : Sys} (inv : Inv base s) (i : ℕ) where
  acquire_enter-Inv : s.pc i ≡ outside → (t : Sys) × (acquire_enter i s ≡ some t) × Inv base t
  unfolding acquire_enter holding push_off
  acquire_enter-Inv e = (
    record s { cpu = update s.cpu i (push_off (s.cpu i)); pc = update s.pc i spinning },
    ground (arith, inv.owner i),
    record {
      shallow = inv.shallow;
      owned = λ j. ground (arith, inv.owned j);
      unique = λ j k. ground (arith, inv.unique j k);
      recorded = λ j. ground (arith, inv.recorded j);
      owner = λ j. ground (arith, inv.owner j);
      masked = λ j. ground (arith, inv.masked j, inv.shallow j);
    },
  )

  acquire_spin-Inv : s.pc i ≡ spinning → (t : Sys) × (acquire_spin i s ≡ some t) × Inv base t
  unfolding acquire_spin test_and_set
  acquire_spin-Inv e = (
    record s {
      lock = record (s.lock) { locked = true };
      pc = update s.pc i (if s.lock.locked then spinning else won);
    },
    refl,
    record {
      shallow = inv.shallow;
      owned = λ j. ground arith;
      unique = λ j k. ground (arith, inv.unique j k, inv.owned j, inv.owned k);
      recorded = λ j. ground (arith, inv.recorded j);
      owner = λ j. ground (arith, inv.owner j);
      masked = λ j. ground (arith, inv.masked j);
    },
  )

  acquire_record-Inv : s.pc i ≡ won → (t : Sys) × (acquire_record i s ≡ some t) × Inv base t
  unfolding acquire_record
  acquire_record-Inv e = (
    record s { lock = record (s.lock) { cpu = some i }; pc = update s.pc i inside },
    refl,
    record {
      shallow = inv.shallow;
      owned = λ j. ground (arith, inv.owned j, inv.owned i);
      unique = λ j k. ground (arith, inv.unique j k);
      recorded = λ j. ground (arith, inv.unique j i);
      owner = λ j. ground arith;
      masked = λ j. ground (arith, inv.masked j);
    },
  )

  release_clear-Inv : s.pc i ≡ inside → (t : Sys) × (release_clear i s ≡ some t) × Inv base t
  unfolding release_clear holding is_cpu
  release_clear-Inv e = (
    record s { lock = record (s.lock) { cpu = none }; pc = update s.pc i cleared },
    ground (arith, inv.owned i, inv.recorded i),
    record {
      shallow = inv.shallow;
      owned = λ j. ground (arith, inv.owned j, inv.owned i);
      unique = λ j k. ground (arith, inv.unique j k);
      recorded = λ j. ground (arith, inv.unique j i);
      owner = λ j. ground arith;
      masked = λ j. ground (arith, inv.masked j);
    },
  )

  release_unlock-Inv : s.pc i ≡ cleared → (t : Sys) × (release_unlock i s ≡ some t) × Inv base t
  unfolding release_unlock pop_off
  release_unlock-Inv e =
      let c : Cpu = record (s.cpu i) {
        noff = base i;
        intr = if (base i == 0) && (s.cpu i).intena then true else false;
      } in
      (
        record {
          lock = record (s.lock) { locked = false };
          cpu = update s.cpu i c;
          pc = update s.pc i outside;
        },
        ground (arith, inv.masked i, inv.shallow i),
        record {
          shallow = inv.shallow;
          owned = λ j. ground (arith, inv.unique j i);
          unique = λ j k. ground (arith, inv.unique j k);
          recorded = λ j. ground (arith, inv.recorded j);
          owner = λ j. ground (arith, inv.owner j);
          masked = λ j. ground (arith, inv.masked j);
        },
      )

  -- In every state that the invariant describes, the next access of each CPU is made without a
  -- panic and keeps the invariant.
  pub cpu_step-Inv : (t : Sys) × (cpu_step (s.pc i) i s ≡ some t) × Inv base t
  unfolding cpu_step
  cpu_step-Inv = at (s.pc i) refl
    where
      at : (p : Pc) → s.pc i ≡ p → (t : Sys) × (cpu_step p i s ≡ some t) × Inv base t
      at outside e = acquire_enter-Inv e
      at spinning e = acquire_spin-Inv e
      at won e = acquire_record-Inv e
      at inside e = release_clear-Inv e
      at cleared e = release_unlock-Inv e

pub Reach-Inv : {base : ℕ → ℕ} {init s : Sys} → Inv base init → Reach init s → Inv base s
Reach-Inv inv start = inv
Reach-Inv {base} {init} inv (later {s} {t} i r e) =
    let (t', e', inv') = cpu_step-Inv (Reach-Inv inv r) i in subst (Inv base) (cc) inv'

-- The lock is free, and every CPU is outside, at most 2^30 - 1 deep.
pub record IsStart (s : Sys) : Type 0 where
  pub free : s.lock ≡ initlock
  pub idle : (i : ℕ) → s.pc i ≡ outside
  pub shallow : (i : ℕ) → (s.cpu i).noff < 0x4000_0000

IsStart-Inv : {s : Sys} → IsStart s → Inv (λ i. (s.cpu i).noff) s
unfolding initlock
IsStart-Inv h = record {
  shallow = h.shallow;
  owned = λ i. ground (arith, h.idle i);
  unique = λ i j. ground (arith, h.idle i);
  recorded = λ i. ground (arith, h.idle i);
  owner = λ i. ground (arith, h.free);
  masked = λ i. ground (arith, h.idle i);
}

-- From a start with the lock free and no CPU nested deeper than 2^30 - 1, in any interleaving: two
-- CPUs are never past the swap of `acquire` together, and a CPU that is past it runs with
-- interrupts off.
pub mutual_exclusion :
    {init s : Sys}
    → IsStart init
    → Reach init s
    → (i j : ℕ) → has_lock (s.pc i) ≡ true
    → has_lock (s.pc j) ≡ true
    → (i ≡ j) × ((s.cpu i).intr ≡ false)
mutual_exclusion h r i j p q =
    let inv = Reach-Inv (IsStart-Inv h) r in (inv.unique i j p q, ground (arith, inv.masked i))

-- From a start with the lock free, every CPU outside of it, and none nested deeper than 2^30 - 1, no
-- interleaving reaches a panic of `acquire`, `release` or `pop_off`: in every state reached, the next
-- access of every CPU succeeds.
pub no_panic : {init s : Sys} → IsStart init → Reach init s → (i : ℕ) → cpu_step (s.pc i) i s ≢ none
no_panic h r i = let (t, e, _) = cpu_step-Inv (Reach-Inv (IsStart-Inv h) r) i in λ n. cc
