-- ===== src/Rlimit/Files.antt =====
-- kernel/sysproc.c, kernel/sysfile.c: the limit on open files, and where it is looked at.
use os_final_project.Prelude.{
  ℕ, suc, ◌+◌, ◌-◌, ◌^◌, ◌≤◌, ◌<◌, ◌≡◌, refl, true, false, ◌&&◌, Option, some, none, List, [], ◌∷◌,
  ◌∙◌, arith, ltb, leb, if◌then◌else◌, minus_one64, length, set, get_elem?, subst, ap,
}
use os_final_project.Proc.{Proc}
use os_final_project.Rlimit.{
  rlimit_nofile, nofile, count_open, get_proc_open_files, getrlimit, set_file_limit, setrlimit,
  open_allowed, fd_from, fdalloc,
}

pub count_open-le : (fs : List (Option ℕ)) → count_open fs ≤ length fs
unfolding count_open
count_open-le [] = omega arith
count_open-le (none ∷ fs) = omega (arith, count_open-le fs)
count_open-le (some f ∷ fs) = omega (arith, count_open-le fs)

-- For at most NOFILE descriptors: `setrlimit` accepts exactly the limits above the number of open
-- files and up to NOFILE, negative numbers excluded; a refused call changes nothing.
pub setrlimit-nofile :
    (n : ℕ) (p : Proc)
    → n < 2 ^ 32
    → length p.ofile ≤ nofile
    → setrlimit rlimit_nofile n p ≡ (
        if ltb (get_proc_open_files p) n && leb n nofile
        then (0, record p { nofile_max = n })
        else (minus_one64, p))
unfolding setrlimit set_file_limit get_proc_open_files
setrlimit-nofile n p word len = ground (arith, count_open-le p.ofile)

-- What `getrlimit` reports: the limit, and how many files may still be opened, 0 if there are more
-- open files than the limit allows.
pub getrlimit-nofile :
    (p : Proc)
    → length p.ofile ≤ nofile
    → p.nofile_max ≤ nofile
    → getrlimit rlimit_nofile p
      ≡ some (record { rlim_cur = p.nofile_max - get_proc_open_files p; rlim_max = p.nofile_max })
unfolding getrlimit get_proc_open_files
getrlimit-nofile p len max = ground (arith, count_open-le p.ofile)

-- A free slot that `fdalloc`'s loop returns, counted from `fd`.
fd_from_lem :
    (fd limit : ℕ) (fs : List (Option ℕ)) {k : ℕ}
    → fd + length fs < 0x8000_0000
    → limit < 0x8000_0000
    → fd_from fd limit fs ≡ some k
    → (i : ℕ) × (k ≡ fd + i)
      × (k < limit)
      × (get_elem? fs i ≡ some none)
      × ((f : ℕ) → count_open (set fs i (some f)) ≡ count_open fs + 1)
unfolding fd_from count_open
fd_from_lem fd limit [] a b e = cc
fd_from_lem fd limit (none ∷ fs) a b e = (0, ground arith, ground arith, refl, λ f. refl)
fd_from_lem fd limit (some f ∷ fs) a b e =
    let (i, e₁, l, free, n) = fd_from_lem (fd + 1) limit fs (omega arith) b (ground arith) in
    (suc i, omega arith, l, free, λ g. omega (arith, n g))

fd_from-some :
    (fd limit : ℕ) (fs : List (Option ℕ))
    → fd + length fs ≤ limit
    → limit < 0x8000_0000
    → count_open fs < length fs
    → (k : ℕ) × (fd_from fd limit fs ≡ some k)
unfolding fd_from count_open
fd_from-some fd limit [] a b h = absurd (omega arith)
fd_from-some fd limit (none ∷ fs) a b h = (fd, ground arith)
fd_from-some fd limit (some f ∷ fs) a b h =
    let (k, e) = fd_from-some (fd + 1) limit fs (omega arith) b (omega arith) in (k, ground arith)

-- What a successful `fdalloc` says of its loop.
fdalloc-eq-some :
    (f : ℕ) (p : Proc) {fd : ℕ} {q : Proc}
    → fdalloc f p ≡ some (fd, q)
    → (fd_from 0 p.nofile_cur p.ofile ≡ some fd)
      × (q ≡ record p { ofile = set p.ofile fd (some f) })
unfolding fdalloc
fdalloc-eq-some f p e = ground arith

fdalloc_of_slot :
    (f : ℕ) (p : Proc) {fd : ℕ}
    → fd_from 0 p.nofile_cur p.ofile ≡ some fd
    → fdalloc f p ≡ some (fd, record p { ofile = set p.ofile fd (some f) })
unfolding fdalloc
fdalloc_of_slot f p e = ground arith

open_files : (p : Proc) → get_proc_open_files p ≡ count_open p.ofile
unfolding get_proc_open_files
open_files p = refl

-- The loop's slot, counted from 0.
fd_from_zero :
    (limit : ℕ) (fs : List (Option ℕ)) {k : ℕ}
    → length fs < 0x8000_0000
    → limit < 0x8000_0000
    → fd_from 0 limit fs ≡ some k
    → (k < limit)
      × (get_elem? fs k ≡ some none)
      × ((f : ℕ) → count_open (set fs k (some f)) ≡ count_open fs + 1)
fd_from_zero limit fs {k} a b e =
    let (i, e₁, l, free, n) = fd_from_lem 0 limit fs (omega arith) b e in
    let e₂ : i ≡ k = omega arith in
    (
      l,
      subst (λ j. get_elem? fs j ≡ some none) e₂ free,
      subst (λ j. (f : ℕ) → count_open (set fs j (some f)) ≡ count_open fs + 1) e₂ n,
    )

-- For at most NOFILE descriptors, where `fdalloc` succeeds, it fills a free slot below
-- `nofile_cur`: one more file is open, and only that slot and no other field of the process
-- changes.
pub fdalloc_lem :
    (f : ℕ) (p : Proc) {fd : ℕ} {q : Proc}
    → length p.ofile ≤ nofile
    → p.nofile_cur ≤ nofile
    → fdalloc f p ≡ some (fd, q)
    → (fd < p.nofile_cur)
      × (get_elem? p.ofile fd ≡ some none)
      × (q ≡ record p { ofile = set p.ofile fd (some f) })
      × (get_proc_open_files q ≡ get_proc_open_files p + 1)
unfolding get_proc_open_files
fdalloc_lem f p len cur e =
    let (h, e₁) = fdalloc-eq-some f p e in
    let (l, free, n) = fd_from_zero p.nofile_cur p.ofile (omega arith) (omega arith) h in
    (l, free, e₁, ap (λ (r : Proc). count_open r.ofile) e₁ ∙ n f)

open_allowed-lt :
    (p : Proc)
    → length p.ofile ≤ nofile
    → p.nofile_max ≤ nofile
    → open_allowed p ≡ true
    → get_proc_open_files p < p.nofile_max
unfolding open_allowed get_proc_open_files
open_allowed-lt p len max ok = ground (arith, count_open-le p.ofile)

-- For at most NOFILE descriptors: `sys_open` keeps the number of open files within the limit: where
-- its test lets the call go on and `fdalloc` finds a slot, at most `nofile_max` files are open
-- afterwards.
pub open_within_limit :
    (f : ℕ) (p : Proc) {fd : ℕ} {q : Proc}
    → length p.ofile ≤ nofile
    → p.nofile_cur ≤ nofile
    → p.nofile_max ≤ nofile
    → open_allowed p ≡ true
    → fdalloc f p ≡ some (fd, q)
    → get_proc_open_files q ≤ q.nofile_max
open_within_limit f p {q = q} len cur max ok e =
    let (_, _, e₁, n) = fdalloc_lem f p len cur e in
    let m : q.nofile_max ≡ p.nofile_max = ap (λ (r : Proc). r.nofile_max) e₁ in
    omega (arith, open_allowed-lt p len max ok)

-- `fdalloc` looks at `nofile_cur` alone: a process at its limit, below NOFILE, for which the test of
-- `sys_open` fails, still gets a descriptor from it, and is then over its limit.
pub fdalloc_over_limit :
    (f : ℕ) (p : Proc)
    → length p.ofile ≡ nofile
    → p.nofile_cur ≡ nofile
    → p.nofile_max ≡ get_proc_open_files p
    → p.nofile_max < nofile
    → (fd : ℕ) × (q : Proc) × (open_allowed p ≡ false)
      × (fdalloc f p ≡ some (fd, q))
      × (q.nofile_max < get_proc_open_files q)
unfolding open_allowed
fdalloc_over_limit f p len cur full below =
    let (fd, e) =
      fd_from-some 0 p.nofile_cur p.ofile (omega arith) (omega arith)
        (ground (arith, open_files p)) in
    let q : Proc = record p { ofile = set p.ofile fd (some f) } in
    let e₁ : fdalloc f p ≡ some (fd, q) = fdalloc_of_slot f p e in
    (fd, q, ground arith, e₁, omega (arith, (fdalloc_lem f p (omega arith) (omega arith) e₁).3))
