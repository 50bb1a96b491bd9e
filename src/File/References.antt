-- ===== src/File/References.antt =====
-- kernel/file.c: the reference count of a file is the number of its references, whatever the order
-- of the calls.
use os_final_project.Prelude.{
  ℕ, ◌+◌, ◌<◌, ◌≡◌, ◌≢◌, sym, ◌∙◌, subst, none, some, List, ◌∷◌, arith, ◌==◌, if◌then◌else◌, modify,
  get_elem?, length, remove,
}
use os_final_project.File.{File, filealloc, filedup, Closing, kept, last_close, fileclose}
use os_final_project.File.Counts.{count, filealloc_lem, filedup_lem}
use os_final_project.File.Counted.{
  Open, IsCounted, held, allocates-IsCounted, copies-IsCounted, drops-IsCounted, fills-IsCounted,
}

pub data Step (s t : Open) : Type 0 where
  allocates :
      (i : ℕ) (fs : List File)
      → filealloc s.files ≡ some (i, fs)
      → t ≡ record { files = fs; refs = i ∷ s.refs }
      → Step s t
  copies :
      (k i : ℕ) (fs : List File)
      → get_elem? s.refs k ≡ some i
      → filedup i s.files ≡ some fs
      → t ≡ record { files = fs; refs = i ∷ s.refs }
      → Step s t
  drops :
      (k i : ℕ) (c : Closing) (fs : List File)
      → get_elem? s.refs k ≡ some i
      → fileclose i s.files ≡ some (c, fs)
      → t ≡ record { files = fs; refs = remove s.refs k }
      → Step s t
  -- A holder writes the other fields of its file, as `sys_open` and `pipealloc` do.
  fills :
      (i : ℕ) (g : File → File)
      → ((f : File) → (g f).ref ≡ f.ref)
      → t ≡ record s { files = modify s.files i g }
      → Step s t

-- Reachable with fewer references than the largest `int`.
pub data Reach (s : Open) : Open → Type 0 where
  start : Reach s s
  later : {t u : Open} → Reach s t → Step t u → length u.refs + 1 < 0x8000_0000 → Reach s u

Step-IsCounted :
    {s t : Open} → IsCounted s → Step s t → length t.refs + 1 < 0x8000_0000 → IsCounted t
Step-IsCounted inv (allocates i fs e q) few = subst IsCounted (sym q) (
    allocates-IsCounted inv i fs e
      (omega (arith, subst (λ (x : Open). length x.refs + 1 < 0x8000_0000) q few)))
Step-IsCounted {s} inv (copies k i fs e d q) few =
    let (fs', d', inv') =
      copies-IsCounted inv k i e
        (omega (arith, subst (λ (x : Open). length x.refs + 1 < 0x8000_0000) q few)) in
    subst IsCounted (cc) inv'
Step-IsCounted {s} inv (drops k i c fs e d q) few =
    let (f, c', fs', at, d', _, inv') = drops-IsCounted inv k i e in subst IsCounted (cc) inv'
Step-IsCounted inv (fills i g keeps q) few = subst IsCounted (sym q) (fills-IsCounted inv i g keeps)

Reach-IsCounted : {s t : Open} → IsCounted s → Reach s t → IsCounted t
Reach-IsCounted inv start = inv
Reach-IsCounted inv (later r st few) = Step-IsCounted (Reach-IsCounted inv r) st few

-- In any order of calls, from a table whose counts are right: a holder's `filedup` never panics;
-- nor does its `fileclose`, which lets the pipe or the inode go exactly if the reference is the
-- last one.
pub close_last :
    {s t : Open}
    → IsCounted s
    → Reach s t
    → (k i : ℕ) → get_elem? t.refs k ≡ some i
    → (filedup i t.files ≢ none)
      × (f : File) × (c : Closing) × (fs : List File) × (get_elem? t.files i ≡ some f)
      × (fileclose i t.files ≡ some (c, fs))
      × (c ≡ (if count i t.refs == 1 then last_close f else kept))
close_last {t = t} inv r k i e =
    let now = Reach-IsCounted inv r in
    let (f, at, same, pos, small) = held now k i e in
    let (g, c, fs, a, b, d, _) = drops-IsCounted now k i e in
    ((λ n. cc (filedup_lem i t.files f at pos small)), g, c, fs, a, b, d)

-- In any order of calls, from a table whose counts are right: `filealloc` hands out a file that
-- nobody has a reference to.
pub filealloc_unused :
    {s t : Open}
    → IsCounted s
    → Reach s t
    → (i : ℕ) (fs : List File) → filealloc t.files ≡ some (i, fs)
    → count i t.refs ≡ 0
filealloc_unused {t = t} inv r i fs e =
    let (f, at, free, _) = filealloc_lem t.files e in
    sym ((Reach-IsCounted inv r).exact i f at) ∙ free
