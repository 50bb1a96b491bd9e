-- ===== src/Cstring/Copy.antt =====
-- kernel/string.c: `strncpy`, `safestrcpy` and `strlen` on a text that ends in a NUL.
use os_final_project.Prelude.{
  ℕ, zero, suc, ◌+◌, ◌-◌, ◌≤◌, ◌<◌, ◌≡◌, ◌≢◌, ◌⊎◌, false, ◌&&◌, List, [], ◌∷◌, arith, ltb, leb,
  ◌==◌, if◌then◌else◌, is_neg, length, get_or, some, update, update_self, ◌||◌, sym, subst, ◌∙◌,
  ==_ne, take,
}
use os_final_project.Cstring.{
  Memory, pad, strncpy_loop, strncpy, safestrcpy_loop, safestrcpy, strlen,
}

-- The text at `s` is `xs`, none of them NUL, and a NUL follows.
abbrev pub IsText : Memory → ℕ → List ℕ → Type 0
IsText m s [] = m s ≡ 0
IsText m s (x ∷ xs) = (m s ≡ x) × (x ≢ 0) × IsText m (s + 1) xs

-- A write elsewhere leaves a text alone.
IsText-update :
    (m : Memory) (s : ℕ) (xs : List ℕ) (p v : ℕ)
    → (p < s) ⊎ (s + length xs < p)
    → IsText m s xs
    → IsText (update m p v) s xs
IsText-update m s [] p v h t = ground arith
IsText-update m s (x ∷ xs) p v h t =
    (ground arith, t.1, IsText-update m (s + 1) xs p v (omega arith) t.2)

-- `strlen` ends on a text, and returns its length.
pub strlen_lem :
    (fuel s : ℕ) (m : Memory) (xs : List ℕ)
    → length xs < fuel
    → IsText m s xs
    → strlen fuel s m ≡ some (length xs)
unfolding strlen
strlen_lem zero s m xs h t = absurd (omega arith)
strlen_lem (suc fuel) s m [] h t = ground arith
strlen_lem (suc fuel) s m (x ∷ xs) h t =
    ground (arith, strlen_lem fuel (s + 1) m xs (omega arith) t.2)

pad_lem :
    (s n : ℕ) (m : Memory) (a : ℕ) → pad s n m a ≡ (if leb s a && ltb a (s + n) then 0 else m a)
unfolding pad
pad_lem s zero m a = ground arith
pad_lem s (suc n) m a = ground (arith, pad_lem (s + 1) n (update m s 0) a)

-- Indexing from the next address.
get_or-next :
    (x : ℕ) (xs : List ℕ) (s a : ℕ)
    → s + 1 ≤ a
    → get_or (x ∷ xs) (a - s) 0 ≡ get_or xs (a - (s + 1)) 0
get_or-next x xs s a h = let e : a - s ≡ suc (a - (s + 1)) = omega arith in rw e

get_or-here : (x : ℕ) (xs : List ℕ) (s a : ℕ) → s ≡ a → get_or (x ∷ xs) (a - s) 0 ≡ x
get_or-here x xs s a h = let e : a - s ≡ 0 = omega arith in rw e

strncpy_loop_lem :
    (s t n : ℕ) (m : Memory) (xs : List ℕ) (a : ℕ)
    → (s + n ≤ t) ⊎ (t + length xs < s)
    → IsText m t xs
    → strncpy_loop s t n m a ≡ (if leb s a && ltb a (s + n) then get_or xs (a - s) 0 else m a)
unfolding strncpy_loop
strncpy_loop_lem s t zero m xs a h text = ground arith
strncpy_loop_lem s t (suc n) m [] a h text = ground (arith, pad_lem (s + 1) n (update m s (m t)) a)
strncpy_loop_lem s t (suc n) m (x ∷ xs) a h text = ground (
  arith,
  get_or-next x xs s a,
  get_or-here x xs s a,
  strncpy_loop_lem (s + 1) (t + 1) n (update m s (m t)) xs a (omega arith)
      (IsText-update m (t + 1) xs s (m t) (omega arith) text.2),
)

-- For a text apart from the target, and `n` an `int` that is not negative: `strncpy` writes exactly
-- `n` bytes: the text cut at `n`, or the text filled up with NULs.
pub strncpy_lem :
    (s t n : ℕ) (m : Memory) (xs : List ℕ) (a : ℕ)
    → n < 0x8000_0000
    → (s + n ≤ t) ⊎ (t + length xs < s)
    → IsText m t xs
    → strncpy s t n m a ≡ (if leb s a && ltb a (s + n) then get_or xs (a - s) 0 else m a)
unfolding strncpy
strncpy_lem s t n m xs a small h text = ground (arith, strncpy_loop_lem s t n m xs a h text)

safestrcpy_loop_frame :
    (s t left : ℕ) (m : Memory) (a : ℕ)
    → (a < s) ⊎ (s + left < a)
    → safestrcpy_loop s t left m a ≡ m a
unfolding safestrcpy_loop
safestrcpy_loop_frame s t zero m a h = ground arith
safestrcpy_loop_frame s t (suc left) m a h =
    ground (arith, safestrcpy_loop_frame (s + 1) (t + 1) left (update m s (m t)) a)

safestrcpy_loop_step :
    (s t left : ℕ) (m : Memory)
    → m t ≢ 0
    → safestrcpy_loop s t (suc left) m ≡ safestrcpy_loop (s + 1) (t + 1) left (update m s (m t))
unfolding safestrcpy_loop
safestrcpy_loop_step s t left m h = rw (==_ne (m t) 0 h, safestrcpy_loop)

safestrcpy_loop_lem :
    (s t left : ℕ) (m : Memory) (xs : List ℕ)
    → (s + left < t) ⊎ (t + length xs < s)
    → IsText m t xs
    → IsText (safestrcpy_loop s t left m) s (take left xs)
unfolding safestrcpy_loop
safestrcpy_loop_lem s t zero m xs h text = update_self m s 0
safestrcpy_loop_lem s t (suc left) m [] h text = ground arith
safestrcpy_loop_lem s t (suc left) m (x ∷ xs) h text =
    subst (λ r. IsText r s (x ∷ take left xs))
      (sym (safestrcpy_loop_step s t left m (λ e. text.1 (sym text.0 ∙ e))))
      (
        safestrcpy_loop_frame (s + 1) (t + 1) left (update m s (m t)) s (omega arith)
            ∙ update_self m s (m t)
            ∙ text.0,
        text.1,
        safestrcpy_loop_lem (s + 1) (t + 1) left (update m s (m t)) xs (omega arith)
            (IsText-update m (t + 1) xs s (m t) (omega arith) text.2),
      )

-- For a text apart from the target, and a positive `int`: `safestrcpy` always ends its copy in a
-- NUL, cuts the text at `n - 1` bytes, and writes nothing outside the `n` bytes from `s` on.
pub safestrcpy_lem :
    (s t n : ℕ) (m : Memory) (xs : List ℕ)
    → 0 < n
    → n < 0x8000_0000
    → (s + n ≤ t) ⊎ (t + length xs < s)
    → IsText m t xs
    → IsText (safestrcpy s t n m) s (take (n - 1) xs)
      × ((a : ℕ) → (a < s) ⊎ (s + n ≤ a) → safestrcpy s t n m a ≡ m a)
unfolding safestrcpy
safestrcpy_lem s t n m xs pos small h text =
    let e : (is_neg n || (n == 0)) ≡ false = ground arith in
    rw e (
      safestrcpy_loop_lem s t (n - 1) m xs (omega arith) text,
      λ a out. safestrcpy_loop_frame s t (n - 1) m a (omega arith),
    )
