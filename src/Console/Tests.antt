-- ===== src/Console/Tests.antt =====
-- kernel/console.c: ^U behind one complete line, and a read of that line.
use os_final_project.Prelude.{◌≡◌, refl, Bool, true, false, some, [], ◌∷◌, arith, replicate}
use os_final_project.Console.{Cons, ctrl_u, consoleintr, consoleread}
use os_final_project.Console.Editing.{IsCons, Edits, consoleintr_lem}
use os_final_project.Console.Consumed.{Reads}
use os_final_project.Console.Reading.{consoleread_lem}

-- The line "a" is complete, and "bc" is being typed.
abbrev typed : Cons
typed = record { buf = 97 ∷ 10 ∷ 98 ∷ 99 ∷ replicate 124 0; r = 0; w = 2; e = 4 }

typed-IsCons : IsCons typed
typed-IsCons = record {
  size = refl;
  r_word = omega arith;
  w_word = omega arith;
  e_word = omega arith;
  ordered = omega arith;
  bounded = omega arith;
}

consoleintr_example :
    (woken : Bool) × (d : Cons) × (consoleintr ctrl_u typed ≡ some (woken, d)) × Edits typed d
consoleintr_example = consoleintr_lem ctrl_u typed typed-IsCons

consoleread_example :
    Reads false
      (true ∷ true ∷ true ∷ [])
      0
      typed
      (consoleread false (true ∷ true ∷ true ∷ []) 0 typed).0
      (consoleread false (true ∷ true ∷ true ∷ []) 0 typed).1
consoleread_example = consoleread_lem false (true ∷ true ∷ true ∷ []) 0 typed typed-IsCons
