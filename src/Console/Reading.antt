-- ===== src/Console/Reading.antt =====
-- kernel/console.c: what a reader gets is the front of the complete lines, one line at most.
use os_final_project.Prelude.{
  ℕ, ◌+◌, ◌≡◌, ◌≢◌, refl, ap, sym, ◌∙◌, inl, inr, Bool, true, false, Bool-cases, List, [], ◌∷◌,
  arith, ◌==◌, ==_iff, ltb, add32,
}
use os_final_project.Console.{Cons, newline, ctrl_d, char_at, take_char, consoleread}
use os_final_project.Console.Editing.{IsCons}
use os_final_project.Console.Consumed.{
  chars, bytes, full, end_of_file, end_of_file_kept, whole_line, copy_failed, was_killed, waits,
  Reads, take_char-IsCons, Reads-cons, Reads-none,
}

index : (c : Cons) → IsCons c → c.r ≡ add32 c.r 0
index c v = omega (arith, v.r_word)

-- On a well-formed ring: a run of `consoleread`, up to its return or its next sleep, copies the
-- front of the complete lines, in order and one line at most; it keeps the ring well-formed, and leaves
-- what is written and edited as it is. It consumes the bytes that it hands over, and besides only a ^D
-- at which the call has handed over nothing, for which it returns 0, or a byte whose copy fails; a ^D
-- behind other bytes is left for the next call. It returns the number of bytes of the whole call when
-- all are there, at a ^D, behind a newline, or when a copy fails, and -1 if no complete line waits and
-- the caller is killed; it sleeps only when no complete line waits, with the rest still wanted.
pub consoleread_lem :
    (killed : Bool) (dst : List Bool) (taken : ℕ) (c : Cons)
    → IsCons c
    → Reads killed dst taken c (consoleread killed dst taken c).0 (consoleread killed dst taken c).1
unfolding consoleread bytes take_char chars
consoleread_lem killed [] taken c v =
    Reads-none killed [] taken c c _ v (refl, refl, refl) refl
      (full _ _ (omega arith) refl (index c v))
consoleread_lem killed (ok ∷ dst) taken c v = elim (Bool-cases (c.r == c.w)) [
  | inl same ↦ elim (Bool-cases killed) [
    | inl k ↦
        rw (same, k, consoleread)
          (Reads-none true (ok ∷ dst) taken c c _ v (refl, refl, refl) refl
            (was_killed _ refl (index c v) ((==_iff c.r c.w).0 same)))
    | inr k ↦
        rw (same, k, consoleread)
          (Reads-none false (ok ∷ dst) taken c c _ v (refl, refl, refl) refl
            (waits _ refl (index c v) ((==_iff c.r c.w).0 same)))
  ]
  | inr differ ↦
      let ne : c.r ≢ c.w = ground arith in
      let v' = take_char-IsCons c v ne in
      elim (Bool-cases (char_at c.r c == ctrl_d)) [
        | inl eof ↦ elim (Bool-cases (ltb 0 taken)) [
          | inl some_taken ↦
              rw (differ, eof, some_taken, consoleread)
                (Reads-none killed (ok ∷ dst) taken c c _ v (refl, refl, refl) refl
                  (end_of_file_kept _ _ (omega arith) (ground arith)
                    (ap (λ i. char_at i c) (sym (index c v)) ∙ (==_iff _ _).0 eof) (index c v)))
          | inr none_taken ↦
              rw (differ, eof, none_taken, consoleread)
                (Reads-none killed (ok ∷ dst) taken c (take_char c) _ v' (refl, refl, refl) refl
                  (end_of_file _ _ (ground arith) (ground arith) ((==_iff _ _).0 eof) refl))
        ]
        | inr other ↦ elim (Bool-cases ok) [
          | inl k ↦ elim (Bool-cases (char_at c.r c == newline)) [
            | inl nl ↦
                rw (differ, other, k, nl, consoleread)
                  (record {
                    valid = v';
                    buf = refl;
                    write = refl;
                    edit = refl;
                    front = refl;
                    waited = omega (arith, v.r_word, v.w_word);
                    line = ground arith;
                    stop =
                        whole_line _ _ 0 refl refl
                          (ap (λ i. char_at i c) (sym (index c v)) ∙ (==_iff _ _).0 nl) refl;
                  })
            | inr nn ↦
                rw (differ, other, k, nn, consoleread)
                  (Reads-cons killed true dst taken c _ _ v ne (ground arith) (ground arith)
                    (consoleread_lem killed dst (taken + 1) (take_char c) v'))
          ]
          | inr k ↦
              rw (differ, other, k, consoleread)
                (Reads-none killed (false ∷ dst) taken c (take_char c) _ v' (refl, refl, refl) refl
                  (copy_failed _ _ (omega arith) refl refl))
        ]
      ]
]
