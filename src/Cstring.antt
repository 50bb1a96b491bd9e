-- ===== src/Cstring.antt =====
-- kernel/string.c: the byte and string functions, over a memory that gives the byte at each
-- address. A counter of rounds is a natural number; an `int` argument is a 32-bit pattern.
pub mod Move
pub mod Compare
pub mod Copy
mod Tests
use os_final_project.Prelude.{
  ℕ, zero, suc, ◌+◌, ◌-◌, ◌%◌, Bool, true, false, ◌&&◌, ◌||◌, not, Option, none, some, ltb, leb,
  ◌==◌, if◌then◌else◌, sub32, is_neg, update,
}

abbrev pub Memory : Type 0
Memory = ℕ → ℕ

pub memset : ℕ → ℕ → ℕ → Memory → Memory
memset dst c zero m = m
memset dst c (suc n) m = memset (dst + 1) c n (update m dst (c % 256))

-- `*s1 - *s2`, as an `int`, at the first difference.
pub memcmp : ℕ → ℕ → ℕ → Memory → ℕ
memcmp s1 s2 zero m = 0
memcmp s1 s2 (suc n) m =
    if not (m s1 == m s2) then sub32 (m s1) (m s2) else memcmp (s1 + 1) (s2 + 1) n m

-- `while(n-- > 0) *d++ = *s++`
pub copy_up : ℕ → ℕ → ℕ → Memory → Memory
copy_up zero s d m = m
copy_up (suc n) s d m = copy_up n (s + 1) (d + 1) (update m d (m s))

-- `while(n-- > 0) *--d = *--s`
pub copy_down : ℕ → ℕ → ℕ → Memory → Memory
copy_down zero s d m = m
copy_down (suc n) s d m = copy_down n (s - 1) (d - 1) (update m (d - 1) (m (s - 1)))

pub memmove : ℕ → ℕ → ℕ → Memory → Memory
memmove dst src n m =
    if n == 0
    then m
    else if ltb src dst && ltb dst (src + n)
    then copy_down n (src + n) (dst + n) m
    else copy_up n src dst m

pub memcpy : ℕ → ℕ → ℕ → Memory → Memory
memcpy dst src n m = memmove dst src n m

pub strncmp : ℕ → ℕ → ℕ → Memory → ℕ
strncmp p q zero m = 0
strncmp p q (suc n) m =
    if not (m p == 0) && (m p == m q) then strncmp (p + 1) (q + 1) n m else sub32 (m p) (m q)

-- The second loop of `strncpy`.
pub pad : ℕ → ℕ → Memory → Memory
pad s zero m = m
pad s (suc n) m = pad (s + 1) n (update m s 0)

-- Its first loop, which leaves the rest of the count to the second when it has copied the NUL.
pub strncpy_loop : ℕ → ℕ → ℕ → Memory → Memory
strncpy_loop s t zero m = m
strncpy_loop s t (suc n) m =
    let m' = update m s (m t) in
    elim (m t == 0) [ true ↦ pad (s + 1) n m' | false ↦ strncpy_loop (s + 1) (t + 1) n m' ]

pub strncpy : ℕ → ℕ → ℕ → Memory → Memory
strncpy s t n m = if is_neg n then m else strncpy_loop s t n m

-- The loop of `safestrcpy`, `left` being the rounds that `--n > 0` still allows.
pub safestrcpy_loop : ℕ → ℕ → ℕ → Memory → Memory
safestrcpy_loop s t zero m = update m s 0
safestrcpy_loop s t (suc left) m =
    let m' = update m s (m t) in
    elim (m t == 0) [ true ↦ update m' (s + 1) 0 | false ↦ safestrcpy_loop (s + 1) (t + 1) left m' ]

pub safestrcpy : ℕ → ℕ → ℕ → Memory → Memory
safestrcpy s t n m = if is_neg n || (n == 0) then m else safestrcpy_loop s t (n - 1) m

-- `none` is a walk that outlasts its fuel.
pub strlen : ℕ → ℕ → Memory → Option ℕ
strlen zero s m = none
strlen (suc fuel) s m =
    let rest : Option ℕ = elim (strlen fuel (s + 1) m) [ none ↦ none | some n ↦ some (n + 1) ] in
    if m s == 0 then some 0 else rest
