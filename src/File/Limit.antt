-- ===== src/File/Limit.antt =====
-- kernel/sysfile.c: `sys_dup` and the limit on open files.
use os_final_project.Prelude.{
  ℕ, ◌<◌, ◌≡◌, refl, false, some, List, arith, length, get_elem?, add32, modify,
}
use os_final_project.Proc.{Proc, nofile}
use os_final_project.Rlimit.{get_proc_open_files, open_allowed}
use os_final_project.Rlimit.Files.{fdalloc_over_limit}
use os_final_project.File.{File, set_ref, filedup, argfd, returned, sys_dup}

filedup-eq-some :
    (f : ℕ) (fs : List File) {file : File}
    → get_elem? fs f ≡ some file
    → 0 < file.ref
    → file.ref < 0x8000_0000
    → filedup f fs ≡ some (modify fs f (set_ref (add32 file.ref 1)))
unfolding filedup
filedup-eq-some f fs e pos word = ground arith

-- For a process with NOFILE descriptors and `nofile_cur` at NOFILE, whose limit is below NOFILE and equal to
-- the number of its open files, and a descriptor of an open file whose count of references is a positive
-- `int`: the test of `sys_open` refuses the process, `sys_dup` returns a further descriptor, and more files
-- are then open than the limit allows.
pub sys_dup_over_limit :
    (old f : ℕ) (p : Proc) (fs : List File) {file : File}
    → argfd old p ≡ some f
    → get_elem? fs f ≡ some file
    → 0 < file.ref
    → file.ref < 0x8000_0000
    → length p.ofile ≡ nofile
    → p.nofile_cur ≡ nofile
    → p.nofile_max ≡ get_proc_open_files p
    → p.nofile_max < nofile
    → (fd : ℕ) × (q : Proc) × (fs' : List File) × (open_allowed p ≡ false)
      × (sys_dup old p fs ≡ returned (fd, q, fs'))
      × (q.nofile_max < get_proc_open_files q)
unfolding sys_dup
sys_dup_over_limit old f p fs {file} desc e pos word len cur full below =
    let (fd, q, refused, taken, over) = fdalloc_over_limit f p len cur full below in
    let copied = filedup-eq-some f fs e pos word in
    (
      fd,
      q,
      modify fs f (set_ref (add32 file.ref 1)),
      refused,
      rw (desc, sys_dup, taken, copied) refl,
      over,
    )
