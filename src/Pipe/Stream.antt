-- ===== src/Pipe/Stream.antt =====
-- kernel/pipe.c: no byte is lost, added or reordered between `pipewrite` and `piperead`.
use os_final_project.Prelude.{
  ℕ, ◌+◌, ◌≤◌, ◌<◌, ◌≡◌, ◌⊎◌, inl, inr, refl, ap, sym, ◌∙◌, Bool, true, false, not, ◌&&◌, ◌||◌,
  Bool-cases, Option, some, none, List, [], ◌∷◌, ◌++◌, append_assoc, append-nil, map, arith, length,
  minus_one32,
}
use os_final_project.Pipe.{
  Pipe, pipesize, is_full, is_empty, put, peek, advance, Written, Reading, pipewrite, copy_loop,
  piperead,
}
use os_final_project.Pipe.Ring.{
  count, contents, IsPipe, is_full_lem, is_empty_lem, put-IsPipe, contents-put, advance-IsPipe,
  contents-advance,
}

-- What a run of `pipewrite` that began at the byte `i` of `src` has done when it stores the bytes
-- `sent`: it sleeps only with a full pipe, and a value that it returns is the number of bytes of
-- the call stored so far, or -1 if nobody can read or the caller is killed.
abbrev pub Ending : Bool → List (Option ℕ) → ℕ → Pipe → List ℕ → Written → Type 0
Ending killed src i p sent (Written.asleep j rest) =
    (src ≡ map some sent ++ rest) × (j ≡ i + length sent) × (count p ≡ pipesize)
Ending killed src i p sent (Written.returned r) =
    (rest : List (Option ℕ)) × (src ≡ map some sent ++ rest)
    × ((r ≡ i + length sent) ⊎ ((r ≡ minus_one32) × ((p.readopen ≡ false) ⊎ (killed ≡ true))))

-- What a run of `pipewrite` does, with the bytes that it stores.
record Wrote (killed : Bool) (src : List (Option ℕ)) (i : ℕ) (p : Pipe) (r : Written) (q : Pipe)
    : Type 0 where
  sent : List ℕ
  valid : IsPipe q
  stored : contents q ≡ contents p ++ sent
  ending : Ending killed src i q sent r

stopped :
    (killed : Bool) (b : Option ℕ) (src : List (Option ℕ)) (i : ℕ) (p : Pipe)
    → IsPipe p
    → (not p.readopen || killed) ≡ true
    → Wrote killed (b ∷ src) i p (Written.returned minus_one32) p
stopped killed b src i p v e = record {
  sent = [];
  valid = v;
  stored = sym (append-nil (contents p));
  ending = (b ∷ src, refl, inr (refl, ground arith));
}

full :
    (killed : Bool) (b : Option ℕ) (src : List (Option ℕ)) (i : ℕ) (p : Pipe)
    → IsPipe p
    → is_full p ≡ true
    → Wrote killed (b ∷ src) i p (Written.asleep i (b ∷ src)) p
full killed b src i p v e = record {
  sent = [];
  valid = v;
  stored = sym (append-nil (contents p));
  ending = (refl, omega arith, ground (arith, is_full_lem v));
}

unread :
    (killed : Bool) (src : List (Option ℕ)) (i : ℕ) (p : Pipe)
    → IsPipe p
    → Wrote killed src i p (Written.returned i) p
unread killed src i p v = record {
  sent = [];
  valid = v;
  stored = sym (append-nil (contents p));
  ending = (src, refl, inl (omega arith));
}

-- The ending of the rest of a run is one of the whole run.
Ending-cons :
    (killed : Bool) (ch i : ℕ) (src : List (Option ℕ)) (q : Pipe) (sent : List ℕ) (r : Written)
    → Ending killed src (i + 1) q sent r
    → Ending killed (some ch ∷ src) i q (ch ∷ sent) r
Ending-cons killed ch i src q sent (Written.asleep j rest) e =
    (ap (λ l. some ch ∷ l) e.0, omega (arith, e.1), e.2)
Ending-cons killed ch i src q sent (Written.returned r) e =
    (e.0, ap (λ l. some ch ∷ l) e.1, ground arith)

Wrote-cons :
    (killed : Bool) (ch i : ℕ) (src : List (Option ℕ)) (p q : Pipe) (r : Written)
    → IsPipe p
    → count p < pipesize
    → Wrote killed src (i + 1) (put ch p) r q
    → Wrote killed (some ch ∷ src) i p r q
Wrote-cons killed ch i src p q r v lt w = record {
  sent = ch ∷ w.sent;
  valid = w.valid;
  stored =
      w.stored
      ∙ ap (λ l. l ++ w.sent) (contents-put ch v lt)
      ∙ append_assoc (contents p) (ch ∷ []) w.sent;
  ending = Ending-cons killed ch i src q w.sent r w.ending;
}

room : {p : Pipe} → IsPipe p → is_full p ≡ false → count p < pipesize
room v f = ground (arith, is_full_lem v)

some_byte : {p : Pipe} → IsPipe p → is_empty p ≡ false → 0 < count p
some_byte v f = ground (arith, is_empty_lem v)

pipewrite_run :
    (killed : Bool) (src : List (Option ℕ)) (i : ℕ) (p : Pipe)
    → IsPipe p
    → Wrote killed src i p (pipewrite killed src i p).0 (pipewrite killed src i p).1
unfolding pipewrite
pipewrite_run killed [] i p v = unread killed [] i p v
pipewrite_run killed (none ∷ src) i p v = elim (Bool-cases (not p.readopen || killed)) [
  | inl e ↦ rw e (stopped killed none src i p v e)
  | inr e ↦ elim (Bool-cases (is_full p)) [
    | inl f ↦ rw (e, f) (full killed none src i p v f)
    | inr f ↦ rw (e, f) (unread killed (none ∷ src) i p v)
  ]
]
pipewrite_run killed (some ch ∷ src) i p v = elim (Bool-cases (not p.readopen || killed)) [
  | inl e ↦ rw e (stopped killed (some ch) src i p v e)
  | inr e ↦ elim (Bool-cases (is_full p)) [
    | inl f ↦ rw (e, f) (full killed (some ch) src i p v f)
    | inr f ↦
        rw (e, f)
          (Wrote-cons killed ch i src p (pipewrite killed src (i + 1) (put ch p)).1
            (pipewrite killed src (i + 1) (put ch p)).0 v (room v f)
            (pipewrite_run killed src (i + 1) (put ch p) (put-IsPipe ch v (room v f))))
  ]
]

-- On a well-formed ring: a run of `pipewrite`, up to its return or its next sleep, appends the
-- bytes that it takes from the front of the user's data to those that wait, and nothing else. It
-- sleeps only when the pipe is full, with the data that is left; a value that it returns is the
-- number of bytes of the whole call that have been stored, or -1, and this only where the read end
-- is closed or the caller is killed.
pub pipewrite_lem :
    (killed : Bool) (src : List (Option ℕ)) (i : ℕ) (p : Pipe)
    → IsPipe p
    → (sent : List ℕ) × IsPipe (pipewrite killed src i p).1
      × (contents (pipewrite killed src i p).1 ≡ contents p ++ sent)
      × Ending killed src i (pipewrite killed src i p).1 sent (pipewrite killed src i p).0
pipewrite_lem killed src i p v =
    let w = pipewrite_run killed src i p v in (w.sent, w.valid, w.stored, w.ending)

-- What the copying loop of `piperead` takes: the bytes `out` from the front of those that wait.
copy_loop_run :
    (dst : List Bool) (i : ℕ) (p : Pipe)
    → IsPipe p
    → IsPipe (copy_loop dst i p).2
      × (contents p ≡ (copy_loop dst i p).1 ++ contents (copy_loop dst i p).2)
      × (((copy_loop dst i p).0 ≡ i + length (copy_loop dst i p).1)
          ⊎ (((copy_loop dst i p).0 ≡ minus_one32) × ((copy_loop dst i p).1 ≡ []) × (i ≡ 0)))
      × (length (copy_loop dst i p).1 ≤ length dst)
unfolding copy_loop
copy_loop_run [] i p v = (v, refl, inl (omega arith), omega arith)
copy_loop_run (true ∷ dst) i p v = elim (Bool-cases (is_empty p)) [
  | inl e ↦ rw e (v, refl, inl (omega arith), omega arith)
  | inr e ↦
      let (v', c, r, n) =
        copy_loop_run dst (i + 1) (advance p) (advance-IsPipe v (some_byte v e)) in
      rw e (
        v',
        contents-advance v (some_byte v e) ∙ ap (λ l. peek p ∷ l) c,
        inl (omega (arith, r)),
        omega arith,
      )
]
copy_loop_run (false ∷ dst) i p v = elim (Bool-cases (is_empty p)) [
  | inl e ↦ rw e (v, refl, inl (omega arith), omega arith)
  | inr e ↦ rw e (v, refl, ground arith, omega arith)
]

-- What a run of `piperead` hands over when it has taken the bytes `out`.
abbrev pub Taken : Bool → List Bool → Pipe → List ℕ → Reading → Type 0
Taken killed dst p out Reading.asleep = (count p ≡ 0) × (p.writeopen ≡ true) × (out ≡ [])
Taken killed dst p out (Reading.returned r l) =
    (l ≡ out) × (length out ≤ length dst) × ((r ≡ length out) ⊎ ((r ≡ minus_one32) × (out ≡ [])))

-- On a well-formed ring: a run of `piperead` takes bytes from the front of those that wait, hands
-- over just these in their order, and leaves the others. It sleeps only when no byte waits and the
-- write end is open; a value that it returns is the number of bytes, at most as many as asked for,
-- or -1 with no byte taken.
pub piperead_lem :
    (killed : Bool) (dst : List Bool) (p : Pipe)
    → IsPipe p
    → (out : List ℕ) × IsPipe (piperead killed dst p).1
      × (contents p ≡ out ++ contents (piperead killed dst p).1)
      × Taken killed dst p out (piperead killed dst p).0
unfolding piperead
piperead_lem killed dst p v = elim (Bool-cases (is_empty p && p.writeopen)) [
  | inl e ↦ elim (Bool-cases killed) [
    | inl k ↦ rw (e, k) ([], v, refl, (refl, omega arith, inr (refl, refl)))
    | inr k ↦ rw (e, k) ([], v, refl, (ground (arith, is_empty_lem v), ground arith, refl))
  ]
  | inr e ↦
      let (v', c, r, n) = copy_loop_run dst 0 p v in
      rw e ((copy_loop dst 0 p).1, v', c, (refl, n, ground arith))
]
