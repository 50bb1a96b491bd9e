-- ===== src/File/Counted.antt =====
-- kernel/file.c: each operation on the table of open files keeps the counts right.
use os_final_project.Prelude.{
  ℕ, zero, suc, ◌+◌, ◌-◌, ◌<◌, ◌≡◌, ◌≢◌, refl, ap, sym, ◌∙◌, subst, inl, inr, Option-cases, some,
  List, [], ◌∷◌, arith, ◌==◌, if◌then◌else◌, modify, get_elem?, get_elem?-modify_inv,
  get_elem?-modify_ne, ℕ_discrete, length, length-remove, remove,
}
use os_final_project.File.{
  File, set_ref, filealloc, filedup, Closing, kept, last_close, clear_file, fileclose,
}
use os_final_project.File.Counts.{
  count, count-le, count-remove, filealloc_lem, filedup_lem, fileclose_kept, fileclose_last,
}

-- The table, and one entry for each reference that some holder, such as a descriptor, has to a
-- file.
pub record Open : Type 0 where
  pub files : List File
  pub refs : List ℕ

-- The count of each file, and no reference to what is no file.
pub record IsCounted (s : Open) : Type 0 where
  pub exact : (i : ℕ) (f : File) → get_elem? s.files i ≡ some f → f.ref ≡ count i s.refs
  pub inside : (i : ℕ) → 0 < count i s.refs → (f : File) × (get_elem? s.files i ≡ some f)
  pub few : length s.refs + 1 < 0x8000_0000

get_elem?-modify-some :
    (fs : List File) (i j : ℕ) (g : File → File) (f : File)
    → get_elem? fs j ≡ some f
    → (h : File) × (get_elem? (modify fs i g) j ≡ some h)
get_elem?-modify-some [] i j g f e = cc
get_elem?-modify-some (x ∷ fs) zero zero g f e = (g x, refl)
get_elem?-modify-some (x ∷ fs) zero (suc j) g f e = (f, e)
get_elem?-modify-some (x ∷ fs) (suc i) zero g f e = (x, refl)
get_elem?-modify-some (x ∷ fs) (suc i) (suc j) g f e = get_elem?-modify-some fs i j g f e

-- The references after a change of the file `i`, whose count becomes that of the new references.
changed :
    {s : Open}
    → IsCounted s
    → (i : ℕ) (f : File) (g : File → File) (refs : List ℕ) → get_elem? s.files i ≡ some f
    → (g f).ref ≡ count i refs
    → ((j : ℕ) → i ≢ j → count j refs ≡ count j s.refs)
    → length refs + 1 < 0x8000_0000
    → IsCounted (record { files = modify s.files i g; refs = refs })
changed {s} inv i f g refs at now others few = record {
  exact = λ j h e. elim (ℕ_discrete i j) [
    | yes same ↦
        let (f', e', q) =
          get_elem?-modify_inv s.files i g
            (subst (λ k. get_elem? (modify s.files i g) k ≡ some h) (sym same) e) in
        let ff : f' ≡ f = cc in
        ap (λ (x : File). x.ref) (q ∙ ap g ff) ∙ now ∙ ap (λ k. count k refs) same
    | no differ ↦
        inv.exact j h (sym (get_elem?-modify_ne s.files i j g differ) ∙ e) ∙ sym (others j differ)
  ];
  inside = λ j pos. elim (ℕ_discrete i j) [
    | yes same ↦
        get_elem?-modify-some s.files i j g f (subst (λ k. get_elem? s.files k ≡ some f) same at)
    | no differ ↦
        let (h, e) = inv.inside j (omega (arith, others j differ)) in
        get_elem?-modify-some s.files i j g h e
  ];
  few = few;
}

count-cons_ne : (i j : ℕ) (refs : List ℕ) → i ≢ j → count j (i ∷ refs) ≡ count j refs
count-cons_ne i j refs h = ground arith

count-cons_self : (i : ℕ) (refs : List ℕ) → count i (i ∷ refs) ≡ count i refs + 1
count-cons_self i refs = ground arith

count-held : (refs : List ℕ) (k i : ℕ) → get_elem? refs k ≡ some i → 0 < count i refs
count-held refs k i e = ground (arith, count-remove i refs k i e)

count-remove_ne :
    (refs : List ℕ) (k i j : ℕ)
    → get_elem? refs k ≡ some i
    → i ≢ j
    → count j (remove refs k) ≡ count j refs
count-remove_ne refs k i j e h = ground (arith, count-remove j refs k i e)

count-remove_self :
    (refs : List ℕ) (k i : ℕ)
    → get_elem? refs k ≡ some i
    → count i (remove refs k) + 1 ≡ count i refs
count-remove_self refs k i e = ground (arith, count-remove i refs k i e)

module _ {s : Open} (inv : IsCounted s) where
  pub allocates-IsCounted :
      (i : ℕ) (fs : List File)
      → filealloc s.files ≡ some (i, fs)
      → length s.refs + 2 < 0x8000_0000
      → IsCounted (record { files = fs; refs = i ∷ s.refs })
  unfolding set_ref
  allocates-IsCounted i fs e few =
      let (f, at, free, q) = filealloc_lem s.files e in
      subst (λ xs. IsCounted (record { files = xs; refs = i ∷ s.refs })) (sym q)
        (changed inv i f (set_ref 1) (i ∷ s.refs) at
          (omega (arith, inv.exact i f at, count-cons_self i s.refs))
          (λ j h. count-cons_ne i j s.refs h) (omega arith))

  -- A reference that is held is to a file with a positive count.
  pub held :
      (k i : ℕ)
      → get_elem? s.refs k ≡ some i
      → (f : File) × (get_elem? s.files i ≡ some f)
        × (f.ref ≡ count i s.refs)
        × (0 < f.ref)
        × (f.ref + 1 < 0x8000_0000)
  held k i e =
      let pos = count-held s.refs k i e in
      let (f, at) = inv.inside i pos in
      let same = inv.exact i f at in
      (f, at, same, omega arith, omega (arith, count-le i s.refs, inv.few))

  pub copies-IsCounted :
      (k i : ℕ)
      → get_elem? s.refs k ≡ some i
      → length s.refs + 2 < 0x8000_0000
      → (fs : List File) × (filedup i s.files ≡ some fs)
        × IsCounted (record { files = fs; refs = i ∷ s.refs })
  unfolding set_ref
  copies-IsCounted k i e few =
      let (f, at, same, pos, small) = held k i e in
      (
        modify s.files i (set_ref (f.ref + 1)),
        filedup_lem i s.files f at pos small,
        changed inv i f (set_ref (f.ref + 1)) (i ∷ s.refs) at
            (omega (arith, count-cons_self i s.refs)) (λ j h. count-cons_ne i j s.refs h)
            (omega arith),
      )

  -- Dropping a reference succeeds, and closes the file exactly if it is the last one.
  pub drops-IsCounted :
      (k i : ℕ)
      → get_elem? s.refs k ≡ some i
      → (f : File) × (c : Closing) × (fs : List File) × (get_elem? s.files i ≡ some f)
        × (fileclose i s.files ≡ some (c, fs))
        × (c ≡ (if count i s.refs == 1 then last_close f else kept))
        × IsCounted (record { files = fs; refs = remove s.refs k })
  unfolding set_ref clear_file
  drops-IsCounted k i e =
      let (f, at, same, pos, small) = held k i e in
      let less = count-remove_self s.refs k i e in
      let others : (j : ℕ) → i ≢ j → count j (remove s.refs k) ≡ count j s.refs =
        λ j h. count-remove_ne s.refs k i j e h in
      let few : length (remove s.refs k) + 1 < 0x8000_0000 =
        omega (arith, length-remove s.refs k i e, inv.few) in
      elim (ℕ_discrete f.ref 1) [
        | yes one ↦ (
          f,
          last_close f,
          modify s.files i clear_file,
          at,
          fileclose_last i s.files f at pos small one,
          ground arith,
          changed inv i f clear_file (remove s.refs k) at (omega arith) others few,
        )
        | no more ↦ (
          f,
          kept,
          modify s.files i (set_ref (f.ref - 1)),
          at,
          fileclose_kept i s.files f at pos small (omega arith),
          ground arith,
          changed inv i f (set_ref (f.ref - 1)) (remove s.refs k) at (omega arith) others few,
        )
      ]

  pub fills-IsCounted :
      (i : ℕ) (g : File → File)
      → ((f : File) → (g f).ref ≡ f.ref)
      → IsCounted (record s { files = modify s.files i g })
  fills-IsCounted i g keeps = elim (Option-cases (get_elem? s.files i)) [
    | inl n ↦ record {
      exact = λ j h e. elim (ℕ_discrete i j) [
        | yes same ↦
            let (f', e', q) =
              get_elem?-modify_inv s.files i g
                (subst (λ k. get_elem? (modify s.files i g) k ≡ some h) (sym same) e) in
            absurd (cc e')
        | no differ ↦ inv.exact j h (sym (get_elem?-modify_ne s.files i j g differ) ∙ e)
      ];
      inside = λ j pos. let (h, e) = inv.inside j pos in get_elem?-modify-some s.files i j g h e;
      few = inv.few;
    }
    | inr (f, at) ↦ changed inv i f g s.refs at (keeps f ∙ inv.exact i f at) (λ j h. refl) inv.few
  ]
