-- ===== src/Rlimit/Cpu.antt =====
-- kernel/sysproc.c, kernel/trap.c: the limit on processor time, how it is set and enforced.
use os_final_project.Prelude.{
  ℕ, ◌+◌, ◌-◌, ◌^◌, ◌≤◌, ◌<◌, ◌≡◌, refl, ◌&&◌, some, List, [], ◌∷◌, ◌++◌, ◌∙◌, arith, ltb, leb,
  if◌then◌else◌, sext, minus_one64, length,
}
use os_final_project.Proc.{Proc, running}
use os_final_project.Rlimit.{
  rlimit_cpu, max_cpu_ticks, getrlimit, set_cpu_limit, setrlimit, is_running, user_tick,
  kernel_tick,
}

-- For a positive `int`, `setrlimit` accepts exactly the limits above the ticks used and up to
-- MAX_CPU_TICKS; it then stores the limit and changes nothing else, and otherwise it returns -1 and
-- changes nothing.
pub setrlimit_cpu :
    (n : ℕ) (p : Proc)
    → 0 < n
    → n < 0x8000_0000
    → setrlimit rlimit_cpu n p ≡ (
        if ltb p.cpu_ticks n && leb n max_cpu_ticks
        then (0, record p { cpu_ticks_max = n })
        else (minus_one64, p))
unfolding setrlimit set_cpu_limit
setrlimit_cpu n p pos small = ground arith

-- For a process with less than 2^63 ticks, a negative limit passes all three tests: the value that
-- is stored is the argument converted to `uint64`, above every limit that the call is meant to
-- allow.
pub setrlimit_cpu_negative :
    (n : ℕ) (p : Proc)
    → 0x8000_0000 ≤ n
    → n < 2 ^ 32
    → p.cpu_ticks < 2 ^ 63
    → (setrlimit rlimit_cpu n p ≡ (0, record p { cpu_ticks_max = sext n }))
      × (max_cpu_ticks < sext n)
unfolding setrlimit set_cpu_limit
setrlimit_cpu_negative n p neg word used = (ground arith, ground arith)

-- What `getrlimit` reports after a limit above the ticks used and up to MAX_CPU_TICKS is set: the
-- new limit, and what is left of it.
pub getrlimit-setrlimit_cpu :
    (n : ℕ) (p : Proc)
    → p.cpu_ticks < n
    → n ≤ max_cpu_ticks
    → getrlimit rlimit_cpu (setrlimit rlimit_cpu n p).1
      ≡ some (record { rlim_cur = n - p.cpu_ticks; rlim_max = n })
unfolding getrlimit setrlimit set_cpu_limit
getrlimit-setrlimit_cpu n p used allowed = ground arith

-- A timer interrupt, from user space or from the kernel.
pub data Tick : Type 0 where
  user kernel : Tick

pub tick : Tick → Proc → Proc
tick user p = user_tick p
tick kernel p = kernel_tick p

pub run_ticks : List Tick → Proc → Proc
run_ticks [] p = p
run_ticks (t ∷ ts) p = run_ticks ts (tick t p)

-- The fields on which a tick depends.
record Ticked (p q : Proc) (n : ℕ) : Type 0 where
  state : q.state ≡ p.state
  limit : q.cpu_ticks_max ≡ p.cpu_ticks_max
  used : q.cpu_ticks ≡ p.cpu_ticks + n

tick-Ticked :
    (t : Tick) (p : Proc) → p.state ≡ running → p.cpu_ticks + 1 < 2 ^ 64 → Ticked p (tick t p) 1
unfolding tick user_tick kernel_tick is_running
tick-Ticked user p h s = ground arith
tick-Ticked kernel p h s = ground arith

run_ticks-Ticked :
    (ts : List Tick) (p : Proc)
    → p.state ≡ running
    → p.cpu_ticks + length ts < 2 ^ 64
    → Ticked p (run_ticks ts p) (length ts)
unfolding run_ticks
run_ticks-Ticked [] p h s = record { state = refl; limit = refl; used = omega arith }
run_ticks-Ticked (t ∷ ts) p h s =
    let a = tick-Ticked t p h (omega arith) in
    let b = run_ticks-Ticked ts (tick t p) (a.state ∙ h) (omega (arith, a.used)) in
    record {
      state = b.state ∙ a.state;
      limit = b.limit ∙ a.limit;
      used = omega (arith, a.used, b.used);
    }

run_ticks-append :
    (ts us : List Tick) (p : Proc) → run_ticks (ts ++ us) p ≡ run_ticks us (run_ticks ts p)
unfolding run_ticks
run_ticks-append [] us p = refl
run_ticks-append (t ∷ ts) us p = run_ticks-append ts us (tick t p)

user_tick_killed :
    (p : Proc)
    → p.state ≡ running
    → 0 < p.cpu_ticks_max
    → p.cpu_ticks + 1 < 2 ^ 64
    → p.cpu_ticks_max ≤ p.cpu_ticks + 1
    → (tick user p).killed ≡ 1
unfolding tick user_tick is_running
user_tick_killed p h pos s over = ground arith

-- While its count of ticks does not wrap: a running process with a limit is marked as killed by the
-- first timer interrupt from user space at which its ticks, those counted in the kernel included,
-- reach the limit, or by any later one.
pub limit_enforced :
    (ts : List Tick) (p : Proc)
    → p.state ≡ running
    → 0 < p.cpu_ticks_max
    → p.cpu_ticks + length ts + 1 < 2 ^ 64
    → p.cpu_ticks_max ≤ p.cpu_ticks + length ts + 1
    → (run_ticks (ts ++ user ∷ []) p).killed ≡ 1
unfolding run_ticks
limit_enforced ts p h pos s over =
    let a = run_ticks-Ticked ts p h (omega arith) in
    rw (run_ticks-append ts (user ∷ []) p) (
      user_tick_killed (run_ticks ts p) (a.state ∙ h) (omega (arith, a.limit))
        (omega (arith, a.used)) (omega (arith, a.used, a.limit)))

tick_spared :
    (t : Tick) (p : Proc)
    → p.cpu_ticks + 1 < 2 ^ 64
    → p.cpu_ticks + 1 < p.cpu_ticks_max
    → (tick t p).killed ≡ p.killed
unfolding tick user_tick kernel_tick is_running
tick_spared user p s h = ground arith
tick_spared kernel p s h = refl

-- For a limit that is a `uint64`, no timer interrupt marks a running process as killed while its
-- ticks stay below the limit.
pub limit_spares :
    (ts : List Tick) (p : Proc)
    → p.state ≡ running
    → p.cpu_ticks_max < 2 ^ 64
    → p.cpu_ticks + length ts < p.cpu_ticks_max
    → (run_ticks ts p).killed ≡ p.killed
unfolding run_ticks
limit_spares [] p h s below = refl
limit_spares (t ∷ ts) p h s below =
    let a = tick-Ticked t p h (omega arith) in
    limit_spares ts (tick t p) (a.state ∙ h) (omega (arith, a.limit))
      (omega (arith, a.used, a.limit))
    ∙ tick_spared t p (omega arith) (omega arith)
