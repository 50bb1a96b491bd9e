-- ===== src/Vm/Copied.antt =====
-- kernel/vm.c: the loop of `copyin`.
use os_final_project.Prelude.{
  ℕ, zero, suc, ◌+◌, ◌-◌, ◌*◌, ◌/◌, ◌%◌, ◌≤◌, ◌≡◌, refl, ap, ◌∙◌, ◌⊎◌, inl, inr, Option, some,
  if◌then◌else◌, ltb, arith, ==_iff, ==_ne, ℕ_discrete, minus_one64, add64,
}
use os_final_project.Vm.{Vm, pgsize, maxva}
use os_final_project.Vm.Space.{IsSpace}
use os_final_project.Vm.{copyin_loop, copyin}
use os_final_project.Vm.User.{user_byte}
use os_final_project.Vm.Copyin.{
  IsSame, refl-IsSame, trans-IsSame, resolve_lem, CopyEnd, all_copied, unreadable, Copying, chunk,
  turn,
}

-- What is claimed of the end of the loop.
abbrev Ends : Vm → ℕ → ℕ → ℕ → ℕ → (ℕ → ℕ) → Option (ℕ × (ℕ → ℕ) × Vm) → Type 0
Ends v root sz src len out o =
    (r : ℕ) × (out' : ℕ → ℕ) × (v' : Vm) × (o ≡ some (r, out', v'))
    × IsSame v root sz v'
    × CopyEnd v root src len out v' r out'

finished :
    {v v₁ : Vm} {root sz src len srcva left tot : ℕ} {out out₁ : ℕ → ℕ}
    → Copying v root sz src len out srcva left tot out₁ v₁
    → left ≡ 0
    → Ends v root sz src len out (some (0, out₁, v₁))
finished {v} {v₁} {root} {sz} {src} {len} {srcva} {left} {tot} {out} {out₁} c z = (
  0,
  out₁,
  v₁,
  refl,
  c.same,
  all_copied out₁ (λ q.
      let e : tot ≡ len = omega (arith, c.sum) in
      c.bytes q ∙ ap (λ n. if ltb q n then user_byte v root (src + q) else out q) e),
)

next_fuel :
    (srcva left fuel : ℕ)
    → srcva % 4096 + left ≤ suc fuel * 4096
    → add64 (srcva / pgsize * pgsize) pgsize % 4096 + (left - chunk srcva left) ≤ fuel * 4096
next_fuel srcva left fuel h =
    let aligned : add64 (srcva / pgsize * pgsize) pgsize % 4096 ≡ 0 = omega arith in
    omega (arith, chunk_left srcva left)
  where
    chunk_left :
        (srcva left : ℕ) → (left - chunk srcva left ≡ 0) ⊎ (chunk srcva left + srcva % 4096 ≡ 4096)
    chunk_left srcva left = ground arith

copyin_loop_lem :
    (fuel : ℕ) (root sz srcva left tot : ℕ) (out₁ : ℕ → ℕ) (v₁ v : Vm) (src len : ℕ) (out : ℕ → ℕ)
    → sz ≤ maxva
    → Copying v root sz src len out srcva left tot out₁ v₁
    → srcva % 4096 + left ≤ fuel * 4096
    → Ends v root sz src len out (copyin_loop fuel root root sz srcva left tot out₁ v₁)
unfolding copyin_loop
copyin_loop_lem zero root sz srcva left tot out₁ v₁ v src len out small c enough =
    let z : left ≡ 0 = omega arith in rw ((==_iff left 0).1 z) (finished c z)
copyin_loop_lem (suc fuel) root sz srcva left tot out₁ v₁ v src len out small c enough =
    elim (ℕ_discrete left 0) [
      | yes z ↦ rw ((==_iff left 0).1 z) (finished c z)
      | no nz ↦
          let (pa, v₂, e, (same, found)) =
            resolve_lem v₁ root sz (srcva / pgsize * pgsize) c.same.space small in
          elim found [
            | inl (pnz, lt, at) ↦
                rw (==_ne left 0 nz, e, ==_ne pa 0 pnz)
                  (copyin_loop_lem fuel root sz _ _ _ _ v₂ v src len out small
                    (turn c nz same pnz lt at) (next_fuel srcva left fuel enough))
            | inr (pz, at) ↦
                rw (==_ne left 0 nz, e, (==_iff pa 0).1 pz)
                  (
                    minus_one64,
                    out₁,
                    v₂,
                    refl,
                    trans-IsSame c.same same,
                    unreadable out₁ srcva (omega (arith, c.here nz))
                        (omega (arith, c.here nz, c.sum)) at,
                  )
          ]
    ]

-- For an address space in which no physical page is mapped twice, free, or a page table, of a process whose
-- memory ends below MAXVA, with its own page table: `copyin` does not panic and ends, and keeps the address
-- space so. If it returns 0, the destination has the bytes of the process at the range of addresses, where a
-- page that was never touched counts as zeros, and nothing else at the destination has changed; if it returns
-- -1, the range has an address whose page `walkaddr` does not find. No byte of the process changes, and a
-- page that was not mapped is mapped only if it starts below the size of the process.
pub copyin_lem :
    (root sz srcva len : ℕ) (out : ℕ → ℕ) (v : Vm)
    → IsSpace v root
    → sz ≤ maxva
    → (r : ℕ) × (out' : ℕ → ℕ) × (v' : Vm) × (copyin root root sz srcva len out v
        ≡ some (r, out', v'))
      × IsSame v root sz v'
      × CopyEnd v root srcva len out v' r out'
unfolding copyin
copyin_lem root sz srcva len out v s small =
    copyin_loop_lem (len / pgsize + 2) root sz srcva len 0 out v v srcva len out small begin
      (omega arith)
  where
    begin : Copying v root sz srcva len out srcva len 0 out v
    begin = record {
      same = refl-IsSame s;
      sum = omega arith;
      here = λ _. omega arith;
      bytes = λ q. ground arith;
    }
