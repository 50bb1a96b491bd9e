-- ===== src/Fs/Bitmap/Laws.antt =====
-- kernel/fs.c: `balloc` takes the first free block, as one search through all of them would.
use os_final_project.Prelude.{
  ℕ, zero, suc, ◌+◌, ◌*◌, ◌/◌, ◌%◌, ◌≤◌, ◌<◌, ◌≡◌, refl, ap, ap₂, sym, ◌∙◌, subst, inl, inr, Bool,
  Bool-cases, Option, Option-cases, none, some, if◌then◌else◌, ltb, arith,
}
use os_final_project.Fs.{Super, Disk, bpb, bblock}
use os_final_project.Fs.Bitmap.{find_bit, find_free}

-- Whether the block is marked in the free map.
abbrev pub is_used : Super → Disk → ℕ → Bool
is_used sb d b = d.bits (bblock sb b) (b % bpb)

-- One search: the first free block among `n` from `b` on that is below the size.
unfoldable pub one_search : ℕ → ℕ → Super → Disk → Option ℕ
one_search zero b sb d = none
one_search (suc n) b sb d =
    let rest = one_search n (b + 1) sb d in
    if ltb b sb.size then (if is_used sb d b then rest else some b) else none

or_else : Option ℕ → Option ℕ → Option ℕ
or_else (some a) o = some a
or_else none o = o

add_base : ℕ → Option ℕ → Option ℕ
add_base b none = none
add_base b (some i) = some (b + i)

one_search_over : (n b : ℕ) (sb : Super) (d : Disk) → sb.size ≤ b → one_search n b sb d ≡ none
unfolding one_search
one_search_over zero b sb d h = refl
one_search_over (suc n) b sb d h = ground arith

one_search_zero : (n b : ℕ) (sb : Super) (d : Disk) → n ≡ 0 → one_search n b sb d ≡ none
unfolding one_search
one_search_zero zero b sb d h = refl
one_search_zero (suc n) b sb d h = ground arith

one_search-add :
    (m n b : ℕ) (sb : Super) (d : Disk)
    → one_search (m + n) b sb d ≡ or_else (one_search m b sb d) (one_search n (b + m) sb d)
unfolding one_search or_else
one_search-add zero n b sb d =
    let e : 0 + n ≡ n = omega arith in let e' : b + 0 ≡ b = omega arith in rw (e, e') refl
one_search-add (suc m) n b sb d =
    let e : suc m + n ≡ suc (m + n) = omega arith in
    let e' : b + suc m ≡ b + 1 + m = omega arith in
    rw (e, e')
      (elim (Bool-cases (ltb b sb.size)) [
        | inl t ↦ elim (Bool-cases (is_used sb d b)) [
          | inl u ↦ rw (t, u) (one_search-add m n (b + 1) sb d)
          | inr f ↦ rw (t, f) refl
        ]
        | inr f ↦ rw (f) (sym (one_search_over n (b + 1 + m) sb d (ground arith)))
      ])

same_bit :
    (bi b : ℕ) (sb : Super) (d : Disk)
    → b % bpb ≡ 0
    → bi < bpb
    → is_used sb d (b + bi) ≡ d.bits (bblock sb b) bi
same_bit bi b sb d al h =
    let e : (b + bi) / bpb ≡ b / bpb = omega arith in
    let e' : (b + bi) % bpb ≡ bi = omega arith in ap₂ (λ x y. d.bits (x + sb.bmapstart) y) e e'

find_bit_lem :
    (left bi b : ℕ) (sb : Super) (d : Disk)
    → b % bpb ≡ 0
    → bi + left ≤ bpb
    → add_base b (find_bit left bi b sb.size (d.bits (bblock sb b))) ≡ one_search left (b + bi) sb d
unfolding find_bit one_search add_base
find_bit_lem zero bi b sb d al e = refl
find_bit_lem (suc left) bi b sb d al e =
    let e' : b + (bi + 1) ≡ b + bi + 1 = omega arith in
    rw (same_bit bi b sb d al (omega arith)) (elim (Bool-cases (ltb (b + bi) sb.size)) [
      | inl t ↦ elim (Bool-cases (d.bits (bblock sb b) bi)) [
        | inl u ↦ rw (t, u, sym e') (find_bit_lem left (bi + 1) b sb d al (omega arith))
        | inr f ↦ rw (t, f) refl
      ]
      | inr f ↦ rw (f) refl
    ])

pub find_free_lem :
    (fuel b : ℕ) (sb : Super) (d : Disk)
    → b % bpb ≡ 0
    → find_free fuel b sb d ≡ one_search (fuel * bpb) b sb d
unfolding find_free or_else add_base
find_free_lem zero b sb d al = sym (one_search_zero (0 * bpb) b sb d (omega arith))
find_free_lem (suc fuel) b sb d al =
    let e : suc fuel * bpb ≡ bpb + fuel * bpb = omega arith in
    let e' : b + 0 ≡ b = omega arith in
    let o = find_bit bpb 0 b sb.size (d.bits (bblock sb b)) in
    let bit : add_base b o ≡ one_search bpb b sb d =
      subst (λ x. add_base b o ≡ one_search bpb x sb d) e'
        (find_bit_lem bpb 0 b sb d al (omega arith)) in
    rw (e, one_search-add bpb (fuel * bpb) b sb d)
      (elim (Bool-cases (ltb b sb.size)) [
        | inl t ↦ elim (Option-cases (find_bit bpb 0 b sb.size (d.bits (bblock sb b)))) [
          | inl n ↦
              let q : one_search bpb b sb d ≡ none = sym bit ∙ ap (add_base b) n in
              rw (t, n, q) (find_free_lem fuel (b + bpb) sb d (omega arith))
          | inr (i, q) ↦
              let q' : one_search bpb b sb d ≡ some (b + i) = sym bit ∙ ap (add_base b) q in
              rw (t, q, q') refl
        ]
        | inr f ↦
            rw (f, one_search_over bpb b sb d (ground arith))
              (sym (one_search_over (fuel * bpb) (b + bpb) sb d (ground arith)))
      ])
