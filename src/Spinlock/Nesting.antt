-- ===== src/Spinlock/Nesting.antt =====
-- kernel/spinlock.c: `push_off` and `pop_off` are matched.
use os_final_project.Prelude.{
  ℕ, ◌+◌, ◌≤◌, ◌<◌, ◌≡◌, refl, ◌⊎◌, inr, false, Option, none, some, arith, leb, if◌then◌else◌,
}
use os_final_project.Spinlock.{Cpu, push_off, pop_off}

-- Interrupts are off while the depth is positive.
abbrev pub IsMasked : Cpu → Type 0
IsMasked c = (c.noff ≡ 0) ⊎ (c.intr ≡ false)

-- A well-bracketed sequence of calls: `nest inner rest` is a `push_off`, what `inner` does, the
-- matching `pop_off`, and then `rest`.
pub data Calls : Type 0 where
  idle : Calls
  nest : Calls → Calls → Calls

unfoldable pub depth : Calls → ℕ
depth idle = 0
depth (nest inner rest) = if leb (depth rest) (depth inner + 1) then depth inner + 1 else depth rest

bind : Option Cpu → (Cpu → Option Cpu) → Option Cpu
bind none f = none
bind (some c) f = f c

pub run : Calls → Cpu → Option Cpu
unfolding bind
run idle c = some c
run (nest inner rest) c = bind (bind (run inner (push_off c)) pop_off) (run rest)

-- The two states differ at most in what `intena` holds outside every bracket.
pub record SameMask (c d : Cpu) : Type 0 where
  pub noff : d.noff ≡ c.noff
  pub intr : d.intr ≡ c.intr
  pub intena : (c.noff ≡ 0) ⊎ (d.intena ≡ c.intena)

-- `pop_off` undoes `push_off` also after calls in between that leave the mask as they found it.
pub pop-push :
    (c d : Cpu)
    → IsMasked c
    → c.noff < 0x7fff_ffff
    → SameMask (push_off c) d
    → (e : Cpu) × (pop_off d ≡ some e) × SameMask c e
unfolding push_off pop_off
pop-push c d v h s = (
  record d { noff = c.noff; intr = c.intr },
  ground arith,
  record { noff = refl; intr = refl; intena = ground arith },
)

SameMask-trans : {c d e : Cpu} → SameMask c d → SameMask d e → SameMask c e
SameMask-trans s t = record { noff = omega arith; intr = cc; intena = ground arith }

SameMask-IsMasked : {c d : Cpu} → IsMasked c → SameMask c d → IsMasked d
SameMask-IsMasked v s = ground arith

depth-nest_le :
    (inner rest : Calls)
    → (depth inner + 1 ≤ depth (nest inner rest)) × (depth rest ≤ depth (nest inner rest))
unfolding depth
depth-nest_le inner rest = ground arith

push_off-IsMasked : (c : Cpu) → IsMasked (push_off c)
unfolding push_off
push_off-IsMasked c = inr refl

push_off-noff : (c : Cpu) → c.noff < 0x7fff_ffff → (push_off c).noff ≡ c.noff + 1
unfolding push_off
push_off-noff c h = omega arith

-- Any well-bracketed sequence of `push_off` and `pop_off` runs without a panic, if the depth stays
-- below the largest `int`, and restores the depth and the interrupt-enable bit; `intena` is
-- restored as well, unless the sequence stands outside every bracket.
pub run-SameMask :
    (calls : Calls) (c : Cpu)
    → IsMasked c
    → c.noff + depth calls < 0x8000_0000
    → (e : Cpu) × (run calls c ≡ some e) × SameMask c e
unfolding run
run-SameMask idle c v h = (c, refl, record { noff = refl; intr = refl; intena = inr refl })
run-SameMask (nest inner rest) c v h =
    let (d, e₁, s) =
      run-SameMask inner (push_off c) (push_off-IsMasked c)
        (omega (arith, push_off-noff c, depth-nest_le inner rest)) in
    let (c', e₂, t) = pop-push c d v (omega (arith, depth-nest_le inner rest)) s in
    let (e, e₃, u) =
      run-SameMask rest c' (SameMask-IsMasked v t)
        (omega (arith, t.noff, depth-nest_le inner rest)) in
    (e, rw (e₁, e₂, e₃), SameMask-trans t u)
