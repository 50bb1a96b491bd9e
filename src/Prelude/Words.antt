-- ===== src/Prelude/Words.antt =====
-- Machine integers. An `int` and a `uint` are 32-bit patterns, a `uint64` is a 64-bit pattern;
-- a pattern is a natural number below the modulus, and an `int` is read as two's complement.
use Prim.Native.Nat.{ℕ, ◌+◌, ◌-◌, ◌%◌, ◌^◌}
use mathlib.Core.Bool.{Bool}
use os_final_project.Prelude.Tests.{ltb, leb, if◌then◌else◌}

abbrev pub m32 : ℕ
m32 = 2 ^ 32

abbrev pub m64 : ℕ
m64 = 2 ^ 64

-- `(uint)-1` or `(int)-1`, and `(uint64)-1`.
abbrev pub minus_one32 : ℕ
minus_one32 = 0xffff_ffff

abbrev pub minus_one64 : ℕ
minus_one64 = 0xffff_ffff_ffff_ffff

abbrev pub add32 : ℕ → ℕ → ℕ
add32 a b = (a + b) % m32

abbrev pub sub32 : ℕ → ℕ → ℕ
sub32 a b = (a + m32 - b) % m32

abbrev pub add64 : ℕ → ℕ → ℕ
add64 a b = (a + b) % m64

abbrev pub sub64 : ℕ → ℕ → ℕ
sub64 a b = (a + m64 - b) % m64

-- The sign bit of an `int`.
abbrev pub is_neg : ℕ → Bool
is_neg x = leb 0x8000_0000 x

-- The conversion of an `int` to `uint64`: sign extension.
abbrev pub sext : ℕ → ℕ
sext x = if is_neg x then x + (m64 - m32) else x

-- `a < b` and `a <= b` between two `int`s: the order of the patterns with the sign bit flipped.
abbrev pub slt : ℕ → ℕ → Bool
slt a b = ltb ((a + 0x8000_0000) % m32) ((b + 0x8000_0000) % m32)

abbrev pub sle : ℕ → ℕ → Bool
sle a b = leb ((a + 0x8000_0000) % m32) ((b + 0x8000_0000) % m32)
