-- ===== src/Pipe/Ring.antt =====
-- kernel/pipe.c: the ring holds a queue of bytes, through any wrap-around of the two counters.
use os_final_project.Prelude.{
  ℕ, zero, suc, ◌+◌, ◌-◌, ◌%◌, ◌^◌, ◌≤◌, ◌<◌, ◌≡◌, refl, ap, ap₂, ◌∙◌, List, [], ◌∷◌, ◌++◌, arith,
  ◌==◌, add32, sub32, get_or, get_or-set_self, get_or-set_ne, set, length, length-set,
}
use os_final_project.Pipe.{Pipe, pipesize, pipealloc, is_full, is_empty, put, peek, advance}

-- The `n` bytes of the ring from the counter `r` on.
pub window : List ℕ → ℕ → ℕ → List ℕ
window buf r zero = []
window buf r (suc n) = get_or buf (r % pipesize) 0 ∷ window buf (add32 r 1) n

-- How many bytes wait to be read.
abbrev pub count : Pipe → ℕ
count p = sub32 p.nwrite p.nread

-- The bytes that wait, the oldest first.
pub contents : Pipe → List ℕ
contents p = window p.buf p.nread (count p)

pub record IsPipe (p : Pipe) : Type 0 where
  pub size : length p.buf ≡ pipesize
  pub read_word : p.nread < 2 ^ 32
  pub write_word : p.nwrite < 2 ^ 32
  pub bounded : count p ≤ pipesize

-- A write outside a window leaves the window alone.
window-set_other :
    (buf : List ℕ) (r n m i v : ℕ)
    → r < 2 ^ 32
    → n ≤ m
    → m < pipesize
    → i ≡ (r + m) % pipesize
    → window (set buf i v) r n ≡ window buf r n
unfolding window
window-set_other buf r zero m i v w le lt e = refl
window-set_other buf r (suc n) m i v w le lt e =
    ap₂ ◌∷◌ (get_or-set_ne buf i (r % pipesize) v 0 (omega arith)) (
      window-set_other buf (add32 r 1) n (m - 1) i v (omega arith) (omega arith) (omega arith)
        (omega arith))

window-snoc :
    (buf : List ℕ) (r n : ℕ)
    → r < 2 ^ 32
    → window buf r (suc n) ≡ window buf r n ++ (get_or buf (add32 r n % pipesize) 0 ∷ [])
unfolding window
window-snoc buf r zero w = ap (λ k. get_or buf k 0 ∷ []) (omega arith)
window-snoc buf r (suc n) w =
    ap (λ l. get_or buf (r % pipesize) 0 ∷ l)
      (window-snoc buf (add32 r 1) n (omega arith)
        ∙ ap (λ k. window buf (add32 r 1) n ++ (get_or buf k 0 ∷ [])) (omega arith))

-- A window takes one byte more at its end when the slot behind it is written.
window-set :
    (buf : List ℕ) (r n v : ℕ)
    → r < 2 ^ 32
    → n < pipesize
    → length buf ≡ pipesize
    → window (set buf (add32 r n % pipesize) v) r (suc n) ≡ window buf r n ++ (v ∷ [])
window-set buf r n v w lt len =
    window-snoc (set buf (add32 r n % pipesize) v) r n w
    ∙ ap₂ (λ xs y. xs ++ (y ∷ []))
        (window-set_other buf r n n (add32 r n % pipesize) v w (omega arith) lt (omega arith))
        (get_or-set_self buf (add32 r n % pipesize) v 0 (omega arith))

-- The tests of the code, read on the number of bytes.
pub is_full_lem : {p : Pipe} → IsPipe p → is_full p ≡ (count p == pipesize)
unfolding is_full
is_full_lem v = ground arith

pub is_empty_lem : {p : Pipe} → IsPipe p → is_empty p ≡ (count p == 0)
unfolding is_empty
is_empty_lem v = ground arith

pub put-IsPipe : {p : Pipe} (ch : ℕ) → IsPipe p → count p < pipesize → IsPipe (put ch p)
unfolding put
put-IsPipe {p} ch v lt = record {
  size = length-set p.buf (p.nwrite % pipesize) ch ∙ v.size;
  read_word = v.read_word;
  write_word = omega arith;
  bounded = omega arith;
}

-- `put` on a pipe that is not full adds the byte behind those that wait.
pub contents-put :
    {p : Pipe} (ch : ℕ)
    → IsPipe p
    → count p < pipesize
    → contents (put ch p) ≡ contents p ++ (ch ∷ [])
unfolding contents put
contents-put {p} ch v lt =
    ap₂ (λ i n. window (set p.buf i ch) p.nread n) slot more
    ∙ window-set p.buf p.nread (count p) ch v.read_word lt v.size
  where
    slot : p.nwrite % pipesize ≡ add32 p.nread (count p) % pipesize
    slot = omega arith

    more : sub32 (add32 p.nwrite 1) p.nread ≡ suc (count p)
    more = omega arith

pub advance-IsPipe : {p : Pipe} → IsPipe p → 0 < count p → IsPipe (advance p)
unfolding advance
advance-IsPipe {p} v h = record {
  size = v.size;
  read_word = omega arith;
  write_word = v.write_word;
  bounded = omega arith;
}

-- On a pipe that is not empty, `peek` is the oldest byte, and `advance` drops it.
pub contents-advance :
    {p : Pipe} → IsPipe p → 0 < count p → contents p ≡ peek p ∷ contents (advance p)
unfolding contents peek advance window
contents-advance {p} v h =
    let e : count p ≡ suc (sub32 p.nwrite (add32 p.nread 1)) = omega arith in
    ap (window p.buf p.nread) e

pub contents-empty : (p : Pipe) → count p ≡ 0 → contents p ≡ []
unfolding contents window
contents-empty p e = ap (window p.buf p.nread) e

pub pipealloc-IsPipe : (page : List ℕ) → length page ≡ pipesize → IsPipe (pipealloc page)
unfolding pipealloc
pipealloc-IsPipe page len = record {
  size = len;
  read_word = omega arith;
  write_word = omega arith;
  bounded = omega arith;
}
