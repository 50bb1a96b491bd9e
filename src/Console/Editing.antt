-- ===== src/Console/Editing.antt =====
-- kernel/console.c: typing and erasing touch only the line that is not yet complete.
use os_final_project.Prelude.{
  ℕ, zero, suc, ◌%◌, ◌^◌, ◌≤◌, ◌<◌, ◌≡◌, ◌≢◌, refl, ap, sym, ◌∙◌, subst, inl, inr, Bool, false, not,
  ◌&&◌, ◌||◌, some, Bool-cases, arith, ◌==◌, if◌then◌else◌, ltb, add32, sub32, get_or-set_ne,
  length, length-set,
}
use os_final_project.Console.{
  Cons, input_buf_size, newline, carriage_return, ctrl_d, ctrl_h, ctrl_p, ctrl_u, delete, char_at,
  erase, kill_line, publish, append, type_char, consoleintr,
}

-- The reading index is at most `w`, which is at most `e`, all within one turn of the ring.
pub record IsCons (c : Cons) : Type 0 where
  pub size : length c.buf ≡ input_buf_size
  pub r_word : c.r < 2 ^ 32
  pub w_word : c.w < 2 ^ 32
  pub e_word : c.e < 2 ^ 32
  pub ordered : sub32 c.w c.r ≤ sub32 c.e c.r
  pub bounded : sub32 c.e c.r ≤ input_buf_size

-- What a step may do: it keeps the characters between `r` and `w`, and moves `w` only forward.
pub record Edits (c d : Cons) : Type 0 where
  pub valid : IsCons d
  pub reader : d.r ≡ c.r
  pub forward : sub32 c.w c.r ≤ sub32 d.w c.r
  pub kept : (k : ℕ) → k < sub32 c.w c.r → char_at (add32 c.r k) d ≡ char_at (add32 c.r k) c

erase-Edits : (c : Cons) → IsCons c → c.e ≢ c.w → Edits c (erase c)
unfolding erase char_at
erase-Edits c v h = record {
  valid = record {
    size = v.size;
    r_word = v.r_word;
    w_word = v.w_word;
    e_word = omega arith;
    ordered = omega (arith, v.ordered, v.r_word, v.w_word, v.e_word);
    bounded = omega (arith, v.ordered, v.bounded, v.r_word, v.w_word, v.e_word);
  };
  reader = refl;
  forward = omega arith;
  kept = λ k lt. refl;
}

refl-Edits : (c : Cons) → IsCons c → Edits c c
refl-Edits c v = record { valid = v; reader = refl; forward = omega arith; kept = λ k lt. refl }

append-Edits :
    (ch : ℕ) (c : Cons) → IsCons c → sub32 c.e c.r < input_buf_size → Edits c (append ch c)
unfolding append char_at
append-Edits ch c v room = record {
  valid = record {
    size = length-set c.buf (c.e % input_buf_size) ch ∙ v.size;
    r_word = v.r_word;
    w_word = v.w_word;
    e_word = omega arith;
    ordered = omega (arith, v.ordered, v.r_word, v.w_word, v.e_word);
    bounded = omega (arith, v.r_word, v.e_word);
  };
  reader = refl;
  forward = omega arith;
  kept = λ k lt.
      get_or-set_ne c.buf (c.e % input_buf_size) (add32 c.r k % input_buf_size) ch 0
        (λ q. omega (arith, q, lt, room, v.ordered, v.r_word, v.w_word, v.e_word));
}

publish-Edits : (c d : Cons) → IsCons c → Edits c d → Edits c (publish d)
unfolding publish char_at
publish-Edits c d v s = record {
  valid = record {
    size = s.valid.size;
    r_word = s.valid.r_word;
    w_word = s.valid.e_word;
    e_word = s.valid.e_word;
    ordered = omega arith;
    bounded = s.valid.bounded;
  };
  reader = s.reader;
  forward = omega (
    arith,
    s.forward,
    s.valid.ordered,
    s.reader,
    ap (λ x. sub32 d.w x) s.reader,
    ap (λ x. sub32 d.e x) s.reader,
  );
  kept = s.kept;
}

Edits-trans : (c d f : Cons) → Edits c d → Edits d f → Edits c f
Edits-trans c d f s t = record {
  valid = t.valid;
  reader = t.reader ∙ s.reader;
  forward = omega (arith, s.forward, subst (λ x. sub32 d.w x ≤ sub32 f.w x) s.reader t.forward);
  kept = λ k lt.
      subst (λ x. char_at (add32 x k) f ≡ char_at (add32 x k) d) s.reader
        (t.kept k (subst (λ x. k < sub32 d.w x) (sym s.reader) (omega (arith, s.forward, lt))))
      ∙ s.kept k lt;
}

erase-less :
    (c : Cons)
    → IsCons c
    → c.e ≢ c.w
    → (fuel : ℕ) → sub32 c.e c.w < suc fuel
    → sub32 (erase c).e (erase c).w < fuel
unfolding erase
erase-less c v ne fuel h = omega (arith, v.w_word, v.e_word)

-- ^U ends within the fuel.
kill_line-Edits :
    (fuel : ℕ) (c : Cons)
    → IsCons c
    → sub32 c.e c.w < fuel
    → (d : Cons) × (kill_line fuel c ≡ some d) × Edits c d
unfolding kill_line
kill_line-Edits zero c v h = absurd (omega arith)
kill_line-Edits (suc fuel) c v h =
    elim (Bool-cases (not (c.e == c.w) && not (char_at (sub32 c.e 1) c == newline))) [
      | inl g ↦
          let ne : c.e ≢ c.w = ground arith in
          let s = erase-Edits c v ne in
          let (d, q, t) = kill_line-Edits fuel (erase c) s.valid (erase-less c v ne fuel h) in
          (d, rw (g, kill_line) q, Edits-trans c (erase c) d s t)
      | inr g ↦ (c, rw (g, kill_line) refl, refl-Edits c v)
    ]

type_char-Edits : (ch : ℕ) (c : Cons) → IsCons c → Edits c (type_char ch c).1
unfolding type_char
type_char-Edits ch c v = elim (Bool-cases (not (ch == 0) && ltb (sub32 c.e c.r) input_buf_size)) [
  | inl g ↦
      let room : sub32 c.e c.r < input_buf_size = ground arith in
      let s = append-Edits (if ch == carriage_return then newline else ch) c v room in
      elim (Bool-cases (line_ends ch c)) [
        | inl f ↦ rw (g, f) (publish-Edits c _ v s)
        | inr f ↦ rw (g, f) s
      ]
  | inr g ↦ rw g (refl-Edits c v)
]
  where
    line_ends : ℕ → Cons → Bool
    line_ends ch c =
        (if ch == carriage_return then newline else ch) == newline
        || (if ch == carriage_return then newline else ch) == ctrl_d
        || (sub32 (append (if ch == carriage_return then newline else ch) c).e
              (append (if ch == carriage_return then newline else ch) c).r
            == input_buf_size)

-- On a well-formed ring, whatever character arrives, `consoleintr` ends; the ring stays
-- well-formed, the complete lines that wait to be read keep their characters, and none of them is
-- taken back.
pub consoleintr_lem :
    (ch : ℕ) (c : Cons)
    → IsCons c
    → (woken : Bool) × (d : Cons) × (consoleintr ch c ≡ some (woken, d)) × Edits c d
unfolding consoleintr
consoleintr_lem ch c v = elim (Bool-cases (ch == ctrl_p)) [
  | inl p ↦ (false, c, rw p refl, refl-Edits c v)
  | inr p ↦ elim (Bool-cases (ch == ctrl_u)) [
    | inl u ↦
        let (d, q, s) =
          kill_line-Edits (suc input_buf_size) c v
            (omega (arith, v.ordered, v.bounded, v.r_word, v.w_word, v.e_word)) in
        (false, d, rw (p, u, q) refl, s)
    | inr u ↦ elim (Bool-cases (ch == ctrl_h || ch == delete)) [
      | inl b ↦ elim (Bool-cases (c.e == c.w)) [
        | inl same ↦ (false, c, rw (p, u, b, same) refl, refl-Edits c v)
        | inr differ ↦ (false, erase c, rw (p, u, b, differ) refl, erase-Edits c v (ground arith))
      ]
      | inr b ↦ ((type_char ch c).0, (type_char ch c).1, rw (p, u, b) refl, type_char-Edits ch c v)
    ]
  ]
]
