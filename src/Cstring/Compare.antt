-- ===== src/Cstring/Compare.antt =====
-- kernel/string.c: `memcmp` and `strncmp` decide equality and the lexicographic order.
use os_final_project.Prelude.{
  ℕ, zero, suc, ◌+◌, ◌<◌, ◌≡◌, ◌↔◌, Bool, true, false, List, [], ◌∷◌, arith, ltb, ◌==◌,
  if◌then◌else◌, is_neg,
}
use os_final_project.Cstring.{Memory, memcmp, strncmp}

-- Every address holds a byte.
abbrev pub IsBytes : Memory → Type 0
IsBytes m = (a : ℕ) → m a < 256

-- The `n` bytes from `s` on.
pub bytes : ℕ → ℕ → Memory → List ℕ
bytes zero s m = []
bytes (suc n) s m = m s ∷ bytes n (s + 1) m

-- The bytes from `s` on up to a NUL, `n` at most.
pub cut : ℕ → ℕ → Memory → List ℕ
cut zero s m = []
cut (suc n) s m = if m s == 0 then [] else m s ∷ cut n (s + 1) m

pub lex_lt : List ℕ → List ℕ → Bool
lex_lt xs [] = false
lex_lt [] (y ∷ ys) = true
lex_lt (x ∷ xs) (y ∷ ys) = if x == y then lex_lt xs ys else ltb x y

-- On bytes, `memcmp` returns 0 exactly for two equal ranges, and a negative number exactly when the
-- first range comes before the second in the lexicographic order.
pub memcmp_lem :
    (s1 s2 n : ℕ) (m : Memory)
    → IsBytes m
    → ((memcmp s1 s2 n m ≡ 0) ↔ (bytes n s1 m ≡ bytes n s2 m))
      × (is_neg (memcmp s1 s2 n m) ≡ lex_lt (bytes n s1 m) (bytes n s2 m))
unfolding memcmp bytes lex_lt
memcmp_lem s1 s2 zero m b = ground arith
memcmp_lem s1 s2 (suc n) m b = ground (arith, b s1, b s2, memcmp_lem (s1 + 1) (s2 + 1) n m b)

-- On bytes, `strncmp` returns 0 exactly when the two texts, cut at `n` bytes, are equal, and a
-- negative number exactly when the first comes before the second in the lexicographic order.
pub strncmp_lem :
    (p q n : ℕ) (m : Memory)
    → IsBytes m
    → ((strncmp p q n m ≡ 0) ↔ (cut n p m ≡ cut n q m))
      × (is_neg (strncmp p q n m) ≡ lex_lt (cut n p m) (cut n q m))
unfolding strncmp cut lex_lt
strncmp_lem p q zero m b = ground arith
strncmp_lem p q (suc n) m b = ground (arith, b p, b q, strncmp_lem (p + 1) (q + 1) n m b)
