-- ===== src/Cstring/Move.antt =====
-- kernel/string.c: `memset` and `memmove` as functions of the address, overlapping ranges included.
use os_final_project.Prelude.{
  ℕ, zero, suc, ◌+◌, ◌-◌, ◌%◌, ◌≤◌, ◌<◌, ◌≡◌, ◌⊎◌, ◌&&◌, arith, ltb, leb, if◌then◌else◌, update,
}
use os_final_project.Cstring.{Memory, memset, copy_up, copy_down, memmove}

-- `memset` fills exactly the `n` bytes from `dst` on, with `c` cut to a byte.
pub memset_lem :
    (dst c n : ℕ) (m : Memory) (a : ℕ)
    → memset dst c n m a ≡ (if leb dst a && ltb a (dst + n) then c % 256 else m a)
unfolding memset
memset_lem dst c zero m a = ground arith
memset_lem dst c (suc n) m a = ground (arith, memset_lem (dst + 1) c n (update m dst (c % 256)) a)

-- The byte at `a` once the `n` bytes from `s` on are moved to `d`.
abbrev moved : ℕ → ℕ → ℕ → Memory → Memory
moved n s d m a = if leb d a && ltb a (d + n) then m (s + (a - d)) else m a

copy_up_lem :
    (n s d : ℕ) (m : Memory) (a : ℕ) → (d ≤ s) ⊎ (s + n ≤ d) → copy_up n s d m a ≡ moved n s d m a
unfolding copy_up
copy_up_lem zero s d m a h = ground arith
copy_up_lem (suc n) s d m a h =
    ground (arith, copy_up_lem n (s + 1) (d + 1) (update m d (m s)) a, shifted)
  where
    shifted : (d + 1 ≤ a) → s + 1 + (a - (d + 1)) ≡ s + (a - d)
    shifted k = omega arith

copy_down_lem :
    (n s d : ℕ) (m : Memory) (a : ℕ) → s < d → copy_down n (s + n) (d + n) m a ≡ moved n s d m a
unfolding copy_down
copy_down_lem zero s d m a h = ground arith
copy_down_lem (suc n) s d m a h =
    let e : s + suc n - 1 ≡ s + n = omega arith in
    let e' : d + suc n - 1 ≡ d + n = omega arith in
    rw (e, e') (ground (arith, copy_down_lem n s d (update m (d + n) (m (s + n))) a h))

-- `memmove` leaves at `dst` the bytes that stood at `src` before the call, also where the two
-- ranges overlap, and changes no other byte.
pub memmove_lem :
    (dst src n : ℕ) (m : Memory) (a : ℕ)
    → memmove dst src n m a ≡ (if leb dst a && ltb a (dst + n) then m (src + (a - dst)) else m a)
unfolding memmove
memmove_lem dst src n m a = ground (arith, copy_down_lem n src dst m a, copy_up_lem n src dst m a)
