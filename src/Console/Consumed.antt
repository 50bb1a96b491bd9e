-- ===== src/Console/Consumed.antt =====
-- kernel/console.c: what a run of `consoleread` hands over, what it consumes, and why it ends.
use os_final_project.Prelude.{
  ℕ, zero, suc, ◌+◌, ◌≤◌, ◌<◌, ◌≡◌, ◌≢◌, refl, ap, sym, ◌∙◌, subst, Bool, true, false, List, [],
  ◌∷◌, arith, add32, sub32, length, drop, get_or, ◌%◌, get_elem?, m32, some, minus_one32,
}
use os_final_project.Console.{
  Cons, newline, ctrl_d, char_at, take_char, Run, returned, asleep, cons_run, input_buf_size,
}
use os_final_project.Console.Editing.{IsCons}

-- The `n` characters of the ring from the index `i` on.
unfoldable pub chars : ℕ → ℕ → Cons → List ℕ
chars i zero c = []
chars i (suc n) c = char_at i c ∷ chars (add32 i 1) n c

-- No ^D, and a newline at most at the end.
abbrev pub IsLine : List ℕ → Type 0
IsLine [] = Unit
IsLine (x ∷ []) = x ≢ ctrl_d
IsLine (x ∷ y ∷ xs) = (x ≢ ctrl_d) × (x ≢ newline) × IsLine (y ∷ xs)

unfoldable pub bytes : Run → List ℕ
bytes (returned n out) = out
bytes (asleep out dst) = out

-- Why a run ends that has handed over `n` bytes, the index of the reader after it, and the value it
-- returns. Each byte that was handed over is consumed, and no other but a ^D that is the whole of the
-- call's input, or a byte whose copy has failed.
pub data Stop (killed : Bool) (dst : List Bool) (taken : ℕ) (c : Cons) (n r : ℕ)
    : Run → Type 0 where
  full :
      (v : ℕ) (out : List ℕ)
      → v ≡ taken + n
      → n ≡ length dst
      → r ≡ add32 c.r n
      → Stop killed dst taken c n r (returned v out)
  end_of_file :
      (v : ℕ) (out : List ℕ)
      → v ≡ 0
      → taken + n ≡ 0
      → char_at c.r c ≡ ctrl_d
      → r ≡ add32 c.r 1
      → Stop killed dst taken c n r (returned v out)
  end_of_file_kept :
      (v : ℕ) (out : List ℕ)
      → v ≡ taken + n
      → 0 < taken + n
      → char_at (add32 c.r n) c ≡ ctrl_d
      → r ≡ add32 c.r n
      → Stop killed dst taken c n r (returned v out)
  whole_line :
      (v : ℕ) (out : List ℕ) (m : ℕ)
      → v ≡ taken + n
      → n ≡ suc m
      → char_at (add32 c.r m) c ≡ newline
      → r ≡ add32 c.r n
      → Stop killed dst taken c n r (returned v out)
  copy_failed :
      (v : ℕ) (out : List ℕ)
      → v ≡ taken + n
      → get_elem? dst n ≡ some false
      → r ≡ add32 c.r (n + 1)
      → Stop killed dst taken c n r (returned v out)
  was_killed :
      (out : List ℕ)
      → killed ≡ true
      → r ≡ add32 c.r n
      → r ≡ c.w
      → Stop killed dst taken c n r (returned minus_one32 out)
  waits :
      (out : List ℕ)
      → killed ≡ false
      → r ≡ add32 c.r n
      → r ≡ c.w
      → Stop killed dst taken c n r (asleep out (drop n dst))

-- What a run of `consoleread` does.
pub record Reads (killed : Bool) (dst : List Bool) (taken : ℕ) (c : Cons) (run : Run) (d : Cons)
    : Type 0 where
  pub valid : IsCons d
  pub buf : d.buf ≡ c.buf
  pub write : d.w ≡ c.w
  pub edit : d.e ≡ c.e
  pub front : bytes run ≡ chars c.r (length (bytes run)) c
  pub waited : length (bytes run) ≤ sub32 c.w c.r
  pub line : IsLine (bytes run)
  pub stop : Stop killed dst taken c (length (bytes run)) d.r run

pub take_char-IsCons : (c : Cons) → IsCons c → c.r ≢ c.w → IsCons (take_char c)
unfolding take_char
take_char-IsCons c v h = record {
  size = v.size;
  r_word = omega arith;
  w_word = v.w_word;
  e_word = v.e_word;
  ordered = omega (arith, v.ordered, v.r_word, v.w_word, v.e_word);
  bounded = omega (arith, v.ordered, v.bounded, v.r_word, v.w_word, v.e_word);
}

chars-take_char : (i n : ℕ) (c : Cons) → chars i n (take_char c) ≡ chars i n c
unfolding chars take_char char_at
chars-take_char i zero c = refl
chars-take_char i (suc n) c = ap (λ xs. char_at i c ∷ xs) (chars-take_char (add32 i 1) n c)

IsLine-cons : (x : ℕ) (xs : List ℕ) → x ≢ ctrl_d → x ≢ newline → IsLine xs → IsLine (x ∷ xs)
IsLine-cons x [] a b l = a
IsLine-cons x (y ∷ xs) a b l = (a, b, l)

bytes-cons_run : (ch : ℕ) (run : Run) → bytes (cons_run ch run) ≡ ch ∷ bytes run
unfolding bytes cons_run
bytes-cons_run ch (returned n out) = refl
bytes-cons_run ch (asleep out dst) = refl

next_index : (c : Cons) (n : ℕ) → c.r < m32 → add32 c.r (suc n) ≡ add32 (add32 c.r 1) n
next_index c n w = omega arith

-- The same end, seen from one byte earlier.
Stop-cons_run :
    {killed : Bool} {dst : List Bool} {taken : ℕ} {c : Cons} {n r : ℕ} {run : Run} (ok : Bool)
    → c.r < m32
    → Stop killed dst (taken + 1) (take_char c) n r run
    → Stop killed (ok ∷ dst) taken c (suc n) r (cons_run (char_at c.r c) run)
unfolding cons_run take_char char_at
Stop-cons_run ok w (full v out q e h) = full v _ (omega arith) (omega arith) (omega arith)
Stop-cons_run ok w (end_of_file v out q e f h) = absurd (omega arith)
Stop-cons_run {c = c} {n = n} ok w (end_of_file_kept v out q e f h) =
    end_of_file_kept v _ (omega arith) (omega arith)
      (ap (λ i. get_or c.buf (i % input_buf_size) 0) (next_index c n w) ∙ f) (omega arith)
Stop-cons_run {c = c} ok w (whole_line v out m q e f h) =
    whole_line v _ (suc m) (omega arith) (omega arith)
      (ap (λ i. get_or c.buf (i % input_buf_size) 0) (next_index c m w) ∙ f) (omega arith)
Stop-cons_run ok w (copy_failed v out q e h) = copy_failed v _ (omega arith) e (omega arith)
Stop-cons_run ok w (was_killed out k h e) = was_killed _ k (omega arith) e
Stop-cons_run ok w (waits out k h e) = waits _ k (omega arith) e

-- A character in front of a run.
pub Reads-cons :
    (killed ok : Bool) (dst : List Bool) (taken : ℕ) (c : Cons) (run : Run) (d : Cons)
    → IsCons c
    → c.r ≢ c.w
    → char_at c.r c ≢ ctrl_d
    → char_at c.r c ≢ newline
    → Reads killed dst (taken + 1) (take_char c) run d
    → Reads killed (ok ∷ dst) taken c (cons_run (char_at c.r c) run) d
unfolding take_char chars
Reads-cons killed ok dst taken c run d v h no_eof no_newline s =
    let e = bytes-cons_run (char_at c.r c) run in
    record {
      valid = s.valid;
      buf = s.buf;
      write = s.write;
      edit = s.edit;
      front =
          subst (λ xs. xs ≡ chars c.r (length xs) c) (sym e)
            (ap (λ xs. char_at c.r c ∷ xs)
              (s.front ∙ chars-take_char (add32 c.r 1) (length (bytes run)) c));
      waited =
          subst (λ xs. length xs ≤ sub32 c.w c.r) (sym e)
            (omega (arith, s.waited, v.r_word, v.w_word));
      line =
          subst IsLine (sym e) (IsLine-cons (char_at c.r c) (bytes run) no_eof no_newline s.line);
      stop =
          subst
            (λ xs. Stop killed (ok ∷ dst) taken c (length xs) d.r (cons_run (char_at c.r c) run))
            (sym e) (Stop-cons_run ok v.r_word s.stop);
    }

-- Nothing is copied.
pub Reads-none :
    (killed : Bool) (dst : List Bool) (taken : ℕ) (c d : Cons) (run : Run)
    → IsCons d
    → (d.buf ≡ c.buf) × (d.w ≡ c.w) × (d.e ≡ c.e)
    → bytes run ≡ []
    → Stop killed dst taken c 0 d.r run
    → Reads killed dst taken c run d
unfolding chars
Reads-none killed dst taken c d run v same none r = record {
  valid = v;
  buf = same.0;
  write = same.1;
  edit = same.2;
  front = subst (λ xs. xs ≡ chars c.r (length xs) c) (sym none) refl;
  waited = subst (λ xs. length xs ≤ sub32 c.w c.r) (sym none) (omega arith);
  line = subst IsLine (sym none) tt;
  stop = subst (λ xs. Stop killed dst taken c (length xs) d.r run) (sym none) r;
}
