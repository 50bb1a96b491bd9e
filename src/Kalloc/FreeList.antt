-- ===== src/Kalloc/FreeList.antt =====
-- kernel/kalloc.c: the free list as a list of distinct pages, kept by `kfree` and `kalloc`.
use os_final_project.Prelude.{
  ℕ, ◌%◌, ◌≤◌, ◌<◌, ◌≡◌, refl, sym, subst, ◌≢◌, ◌↔◌, none, some, List, [], ◌∷◌, arith, All, update,
  update_self, ==_iff, ◌==◌, false, update_ne, NotIn, Distinct, get_or, drop,
}
use os_final_project.Kalloc.{Kmem, kfree, kalloc, pgsize, phystop}

-- The linked list that starts at `r`, read through the first words, is `ps`.
abbrev pub IsRun : (ℕ → ℕ) → ℕ → List ℕ → Type 0
IsRun word r [] = r ≡ 0
IsRun word r (p ∷ ps) = (r ≡ p) × (p ≢ 0) × IsRun word (word p) ps

-- What `kfree` accepts.
abbrev pub IsPage : ℕ → ℕ → Type 0
IsPage kend pa = (pa % pgsize ≡ 0) × (kend ≤ pa) × (pa < phystop)

-- The free pages of `k` are `ps`: linked in this order, distinct, and inside the memory.
pub record FreeList (kend : ℕ) (k : Kmem) (ps : List ℕ) : Type 0 where
  pub linked : IsRun k.word k.freelist ps
  pub distinct : Distinct ps
  pub inside : All (IsPage kend) ps

-- A write to a page that is not on the list leaves the list alone.
IsRun-update :
    (word : ℕ → ℕ) (r p v : ℕ) (ps : List ℕ)
    → NotIn p ps
    → IsRun word r ps
    → IsRun (update word p v) r ps
IsRun-update word r p v [] h run = run
IsRun-update word r p v (q ∷ qs) h run = (
  run.0,
  run.1,
  subst (λ w. IsRun (update word p v) w qs) (sym (update_ne word p q v h.0))
      (IsRun-update word (word q) p v qs h.1 run.2),
)

-- For a kernel that does not end at 0, and known free pages: `kfree` puts a page that is not free
-- in front of the free ones, fills it, and never panics on it.
pub kfree_lem :
    {kend : ℕ} {k : Kmem} {ps : List ℕ} (pa : ℕ)
    → 0 < kend
    → FreeList kend k ps
    → IsPage kend pa
    → NotIn pa ps
    → (k' : Kmem) × (kfree kend pa k ≡ some k') × FreeList kend k' (pa ∷ ps) × (k'.fill pa ≡ 1)
unfolding kfree
kfree_lem {kend} {k} {ps} pa h f page new = (
  record k { word = update k.word pa k.freelist; fill = update k.fill pa 1; freelist = pa },
  ground arith,
  record {
    linked = (
      refl,
      omega arith,
      subst (λ w. IsRun (update k.word pa k.freelist) w ps) (sym (update_self k.word pa k.freelist))
          (IsRun-update k.word k.freelist pa k.freelist ps new f.linked),
    );
    distinct = (new, f.distinct);
    inside = (page, f.inside);
  },
  ground arith,
)

-- For known free pages: `kalloc` takes the first free page off the list, and returns 0 with the
-- list unchanged if there is none.
pub kalloc_lem :
    {kend : ℕ} {k : Kmem} (ps : List ℕ)
    → FreeList kend k ps
    → ((kalloc k).0 ≡ get_or ps 0 0) × FreeList kend (kalloc k).1 (drop 1 ps)
unfolding kalloc
kalloc_lem {kend} {k} [] f = (ground arith, rw ((==_iff k.freelist 0).1 f.linked, kalloc) f)
kalloc_lem {kend} {k} (p ∷ ps) f = (ground arith, rest)
  where
    e : p ≡ k.freelist
    e = sym f.linked.0

    some_page : (k.freelist == 0) ≡ false
    some_page = ground arith

    rest : FreeList kend (kalloc k).1 ps
    rest =
        rw (some_page, kalloc)
          (record {
            linked =
                IsRun-update k.word (k.word k.freelist) k.freelist _ ps
                  (subst (λ q. NotIn q ps) e f.distinct.0)
                  (subst (λ q. IsRun k.word (k.word q) ps) e f.linked.2);
            distinct = f.distinct.1;
            inside = f.inside.1;
          })

-- `kfree` panics exactly on what is no page of the allocator.
pub kfree_panics : (kend pa : ℕ) (k : Kmem) → (kfree kend pa k ≡ none) ↔ (¬ IsPage kend pa)
unfolding kfree
kfree_panics kend pa k = ground arith
