-- ===== src/Pipe/Tests.antt =====
-- kernel/pipe.c: one run of a writer and one of a reader, across the wrap-around of the counters.
use os_final_project.Prelude.{
  ℕ, ◌≡◌, refl, true, false, some, List, [], ◌∷◌, ◌++◌, arith, replicate,
}
use os_final_project.Pipe.{Pipe, pipewrite, piperead}
use os_final_project.Pipe.Ring.{contents, IsPipe}
use os_final_project.Pipe.Stream.{Ending, Taken, pipewrite_lem, piperead_lem}

-- One byte waits, and the next increment of `nwrite` wraps.
abbrev wrapping : Pipe
wrapping = record {
  buf = replicate 512 65;
  nread = 0xffff_fffe;
  nwrite = 0xffff_ffff;
  readopen = true;
  writeopen = true;
}

wrapping-IsPipe : IsPipe wrapping
wrapping-IsPipe = record {
  size = refl;
  read_word = omega arith;
  write_word = omega arith;
  bounded = omega arith;
}

pipewrite_example :
    (sent : List ℕ) × IsPipe (pipewrite false (some 66 ∷ some 67 ∷ []) 0 wrapping).1
    × (contents (pipewrite false (some 66 ∷ some 67 ∷ []) 0 wrapping).1 ≡ contents wrapping ++ sent)
    × Ending false
        (some 66 ∷ some 67 ∷ [])
        0
        (pipewrite false (some 66 ∷ some 67 ∷ []) 0 wrapping).1
        sent
        (pipewrite false (some 66 ∷ some 67 ∷ []) 0 wrapping).0
pipewrite_example = pipewrite_lem false (some 66 ∷ some 67 ∷ []) 0 wrapping wrapping-IsPipe

piperead_example :
    (out : List ℕ) × IsPipe (piperead false (true ∷ true ∷ []) wrapping).1
    × (contents wrapping ≡ out ++ contents (piperead false (true ∷ true ∷ []) wrapping).1)
    × Taken false (true ∷ true ∷ []) wrapping out (piperead false (true ∷ true ∷ []) wrapping).0
piperead_example = piperead_lem false (true ∷ true ∷ []) wrapping wrapping-IsPipe
