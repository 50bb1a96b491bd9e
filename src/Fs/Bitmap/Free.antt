-- ===== src/Fs/Bitmap/Free.antt =====
-- kernel/fs.c: what `balloc` and `bfree` do to the free map.
use os_final_project.Prelude.{
  ℕ, zero, suc, ◌+◌, ◌*◌, ◌/◌, ◌%◌, ◌≤◌, ◌<◌, ◌≡◌, ◌≢◌, refl, ap, sym, ◌∙◌, subst, ◌⊎◌, inl, inr,
  Bool, true, false, Bool-cases, none, some, some-injective, ◌==◌, if◌then◌else◌, ltb, arith,
  update, update_self, update_ne, ==_iff, ==_ne, ℕ_discrete,
}
use os_final_project.Fs.{Super, Disk, bpb, bblock}
use os_final_project.Fs.Bitmap.{bzero, set_bit, balloc, bfree}
use os_final_project.Fs.Bitmap.Laws.{is_used, one_search, find_free_lem}

-- No block below the size is free.
abbrev pub IsFull : Super → Disk → Type 0
IsFull sb d = (c : ℕ) → c < sb.size → is_used sb d c ≡ true

abbrev pub IsFirstFree : Super → Disk → ℕ → Type 0
IsFirstFree sb d b =
    (b < sb.size) × (is_used sb d b ≡ false) × ((c : ℕ) → c < b → is_used sb d c ≡ true)

-- The blocks below `b` stay used over one more step.
used_next :
    (sb : Super) (d : Disk) (b : ℕ)
    → ((c : ℕ) → c < b → is_used sb d c ≡ true)
    → is_used sb d b ≡ true
    → (c : ℕ) → c < b + 1
    → is_used sb d c ≡ true
used_next sb d b h u c lt = elim (ℕ_discrete c b) [
  | yes e ↦ subst (λ x. is_used sb d x ≡ true) (sym e) u
  | no e ↦ h c (omega arith)
]

one_search_cases :
    (n b : ℕ) (sb : Super) (d : Disk)
    → sb.size ≤ b + n
    → ((c : ℕ) → c < b → is_used sb d c ≡ true)
    → ((one_search n b sb d ≡ none) × IsFull sb d)
      ⊎ ((k : ℕ) × (one_search n b sb d ≡ some k) × IsFirstFree sb d k)
unfolding one_search
one_search_cases zero b sb d h u = inl (refl, λ c lt. u c (omega arith))
one_search_cases (suc n) b sb d h u = elim (Bool-cases (ltb b sb.size)) [
  | inl t ↦ elim (Bool-cases (is_used sb d b)) [
    | inl v ↦ rw (t, v) (one_search_cases n (b + 1) sb d (omega arith) (used_next sb d b u v))
    | inr f ↦ rw (t, f) (inr (b, refl, (ground arith, f, u)))
  ]
  | inr f ↦ rw (f) (inl (refl, λ c lt. u c (ground arith)))
]

-- The fuel of `balloc` is enough.
pub balloc_cases :
    (sb : Super) (d : Disk)
    → ((balloc sb d ≡ (0, d)) × IsFull sb d)
      ⊎ ((b : ℕ) × (balloc sb d ≡ (b, bzero b (set_bit (bblock sb b) (b % bpb) true d)))
          × IsFirstFree sb d b)
unfolding balloc
balloc_cases sb d =
    let n = suc (sb.size / bpb) in
    let q = find_free_lem n 0 sb d (omega arith) in
    elim (one_search_cases (n * bpb) 0 sb d (omega arith) (λ c lt. absurd (omega arith))) [
      | inl (e, full) ↦ inl (rw (q ∙ e, balloc) refl, full)
      | inr (k, e, first) ↦ inr (k, rw (q ∙ e, balloc) refl, first)
    ]

same_bit_iff : (b c m : ℕ) → (b / bpb + m ≡ c / bpb + m) → b % bpb ≡ c % bpb → b ≡ c
same_bit_iff b c m e e' = omega arith

-- Marking a block changes the mark of this block only.
pub is_used-set_bit :
    (sb : Super) (d : Disk) (b c : ℕ) (v : Bool)
    → is_used sb (set_bit (bblock sb b) (b % bpb) v d) c ≡ (if c == b then v else is_used sb d c)
unfolding set_bit
is_used-set_bit sb d b c v = elim (ℕ_discrete c b) [
  | yes e ↦
      rw ((==_iff c b).1 e, e)
        (ap (λ f. f (b % bpb)) (update_self d.bits (bblock sb b) _)
          ∙ update_self (d.bits (bblock sb b)) (b % bpb) v)
  | no differ ↦ rw (==_ne c b differ) (elim (ℕ_discrete (bblock sb c) (bblock sb b)) [
    | yes e ↦
        let bits = d.bits (bblock sb b) in
        let new = update bits (b % bpb) v in
        ap (λ f. f (c % bpb))
          (subst (λ x. update d.bits (bblock sb b) new x ≡ new) (sym e)
            (update_self d.bits (bblock sb b) new))
        ∙ update_ne bits (b % bpb) (c % bpb) v (λ e'. differ (same_bit_iff c b sb.bmapstart e e'))
        ∙ ap (λ x. d.bits x (c % bpb)) (sym e)
    | no ne ↦ ap (λ f. f (c % bpb)) (update_ne d.bits (bblock sb b) (bblock sb c) _ ne)
  ])
]

is_used-taken :
    (sb : Super) (d : Disk) (b c : ℕ)
    → is_used sb (bzero b (set_bit (bblock sb b) (b % bpb) true d)) c
      ≡ (if c == b then true else is_used sb d c)
unfolding bzero
is_used-taken sb d b c = is_used-set_bit sb d b c true

-- The state after the allocation of `b`.
pub record IsTaken (sb : Super) (d : Disk) (b : ℕ) (d' : Disk) : Type 0 where
  pub marked : (c : ℕ) → is_used sb d' c ≡ (if c == b then true else is_used sb d c)
  pub bytes : d'.bytes ≡ update d.bytes b (λ i. 0)
  pub words : d'.words ≡ update d.words b (λ i. 0)
  pub dinodes : d'.dinodes ≡ d.dinodes

-- Where block 0 is used: `balloc` returns 0 and changes nothing if no block below the size is free;
-- otherwise it returns the first free block, which it marks as the only one and fills with zeros.
pub balloc_lem :
    (sb : Super) (d : Disk)
    → is_used sb d 0 ≡ true
    → ((balloc sb d ≡ (0, d)) × IsFull sb d)
      ⊎ (((balloc sb d).0 ≢ 0)
          × IsFirstFree sb d (balloc sb d).0
          × IsTaken sb d (balloc sb d).0 (balloc sb d).1)
unfolding bzero set_bit
balloc_lem sb d h = elim (balloc_cases sb d) [
  | inl full ↦ inl full
  | inr (b, e, first) ↦ inr (
      subst (λ r. (r.0 ≢ 0) × IsFirstFree sb d r.0 × IsTaken sb d r.0 r.1) (sym e)
        (
          (λ z. let q : true ≡ false = sym h ∙ ap (is_used sb d) (sym z) ∙ first.1 in cc),
          first,
          record { marked = is_used-taken sb d b; bytes = refl; words = refl; dinodes = refl },
        ))
]

-- The state after `b` has been freed.
pub record IsFreed (sb : Super) (d : Disk) (b : ℕ) (d' : Disk) : Type 0 where
  pub marked : (c : ℕ) → is_used sb d' c ≡ (if c == b then false else is_used sb d c)
  pub bytes : d'.bytes ≡ d.bytes
  pub words : d'.words ≡ d.words
  pub dinodes : d'.dinodes ≡ d.dinodes

-- `bfree` unmarks a used block and no other.
pub bfree_used :
    (sb : Super) (d : Disk) (b : ℕ)
    → is_used sb d b ≡ true
    → (d' : Disk) × (bfree sb b d ≡ some d') × IsFreed sb d b d'
unfolding bfree set_bit
bfree_used sb d b t = (
  set_bit (bblock sb b) (b % bpb) false d,
  rw (t) refl,
  record {
    marked = λ c. is_used-set_bit sb d b c false;
    bytes = refl;
    words = refl;
    dinodes = refl;
  },
)

-- It panics on a free one.
pub bfree_free : (sb : Super) (d : Disk) (b : ℕ) → is_used sb d b ≡ false → bfree sb b d ≡ none
unfolding bfree
bfree_free sb d b f = rw (f) refl

-- So where it succeeds, the block was used.
pub bfree-some : {sb : Super} {d d' : Disk} (b : ℕ) → bfree sb b d ≡ some d' → IsFreed sb d b d'
bfree-some {sb} {d} {d'} b e = elim (Bool-cases (is_used sb d b)) [
  | inl t ↦
      let (d'', e'', freed) = bfree_used sb d b t in
      subst (λ x. IsFreed sb d b x) (some-injective _ _ (sym e'' ∙ e)) freed
  | inr f ↦ let q : none ≡ some d' = sym (bfree_free sb d b f) ∙ e in cc
]

-- Where block 0 is used and some block is free: freeing what `balloc` returned succeeds, and gives
-- back the marks of before.
pub bfree-balloc :
    (sb : Super) (d : Disk)
    → is_used sb d 0 ≡ true
    → (balloc sb d).0 ≢ 0
    → (d' : Disk) × (bfree sb (balloc sb d).0 (balloc sb d).1 ≡ some d')
      × ((c : ℕ) → is_used sb d' c ≡ is_used sb d c)
bfree-balloc sb d h pos = elim (balloc_lem sb d h) [
  | inl full ↦ absurd (pos (ap (λ r. r.0) full.0))
  | inr (_, first, taken) ↦
      let b = (balloc sb d).0 in
      let (d', e, freed) =
        bfree_used sb (balloc sb d).1 b
          (taken.marked b ∙ ap (λ t. if t then true else is_used sb d b) ((==_iff b b).1 refl)) in
      (
        d',
        e,
        λ c. elim (ℕ_discrete c b) [
          | yes same ↦
              freed.marked c
              ∙ ap (λ x. if x == b then false else is_used sb (balloc sb d).1 x) same
              ∙ ap (λ t. if t then false else is_used sb (balloc sb d).1 b) ((==_iff b b).1 refl)
              ∙ sym first.1
              ∙ ap (is_used sb d) (sym same)
          | no differ ↦
              freed.marked c
              ∙ ap (λ t. if t then false else is_used sb (balloc sb d).1 c) (==_ne c b differ)
              ∙ taken.marked c
              ∙ ap (λ t. if t then true else is_used sb d c) (==_ne c b differ)
        ],
      )
]
