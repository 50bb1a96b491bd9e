-- ===== src/Console.antt =====
-- kernel/console.c: the ring of typed characters, with the editing of the last line. The echo on
-- the screen and the process listing of ^P are output, and left out; a call of `consoleread` is cut
-- at its sleeps.
pub mod Editing
pub mod Consumed
pub mod Reading
mod Tests
use os_final_project.Prelude.{
  ℕ, zero, suc, ◌+◌, ◌%◌, Bool, true, false, ◌&&◌, ◌||◌, not, Option, none, some, List, [], ◌∷◌,
  ◌==◌, if◌then◌else◌, ltb, add32, sub32, get_or, set, minus_one32,
}

-- INPUT_BUF_SIZE, and the characters that are treated apart.
abbrev pub input_buf_size : ℕ
input_buf_size = 128

abbrev pub newline : ℕ
newline = 10

abbrev pub carriage_return : ℕ
carriage_return = 13

-- ^D, ^H, ^P, ^U and the delete key.
abbrev pub ctrl_d : ℕ
ctrl_d = 4

abbrev pub ctrl_h : ℕ
ctrl_h = 8

abbrev pub ctrl_p : ℕ
ctrl_p = 16

abbrev pub ctrl_u : ℕ
ctrl_u = 21

abbrev pub delete : ℕ
delete = 127

-- `cons`, less its lock: the three indices are `uint`s.
pub record Cons : Type 0 where
  pub buf : List ℕ
  pub r : ℕ
  pub w : ℕ
  pub e : ℕ

-- `cons.buf[i % INPUT_BUF_SIZE]`
unfoldable pub char_at : ℕ → Cons → ℕ
char_at i c = get_or c.buf (i % input_buf_size) 0

unfoldable pub erase : Cons → Cons
erase c = record c { e = sub32 c.e 1 }

-- The loop of ^U on fuel; `none` is a loop that outlasts its fuel.
unfoldable pub kill_line : ℕ → Cons → Option Cons
kill_line zero c = none
kill_line (suc fuel) c =
    let rest = kill_line fuel (erase c) in
    if not (c.e == c.w) && not (char_at (sub32 c.e 1) c == newline) then rest else some c

-- The line is complete: `consoleread` may have it.
unfoldable pub publish : Cons → Cons
publish c = record c { w = c.e }

unfoldable pub append : ℕ → Cons → Cons
append ch c = record c { buf = set c.buf (c.e % input_buf_size) ch; e = add32 c.e 1 }

-- The default case of `consoleintr`, with whether it wakes the readers.
unfoldable pub type_char : ℕ → Cons → Bool × Cons
type_char ch c =
    let ch' = if ch == carriage_return then newline else ch in
    let c' = append ch' c in
    if not (ch == 0) && ltb (sub32 c.e c.r) input_buf_size
    then if ch' == newline || ch' == ctrl_d || (sub32 c'.e c'.r == input_buf_size)
      then (true, publish c')
      else (false, c')
    else (false, c)

-- The fuel for ^U is one more than the ring holds.
unfoldable pub consoleintr : ℕ → Cons → Option (Bool × Cons)
consoleintr ch c =
    if ch == ctrl_p
    then some (false, c)
    else if ch == ctrl_u
    then elim (kill_line (suc input_buf_size) c) [ none ↦ none | some c' ↦ some (false, c') ]
    else if ch == ctrl_h || ch == delete
    then some (false, if c.e == c.w then c else erase c)
    else some (type_char ch c)

-- A run of `consoleread` returns a value, with the bytes that it copied out, or sleeps with those
-- bytes copied and the rest still wanted.
pub data Run : Type 0 where
  returned : ℕ → List ℕ → Run
  asleep : List ℕ → List Bool → Run

unfoldable pub take_char : Cons → Cons
take_char c = record c { r = add32 c.r 1 }

unfoldable pub cons_run : ℕ → Run → Run
cons_run ch (returned n out) = returned n (ch ∷ out)
cons_run ch (asleep out dst) = asleep (ch ∷ out) dst

-- `dst` tells for each byte that is still wanted whether `either_copyout` can write it; `taken` is
-- `target - n`.
unfoldable pub consoleread : Bool → List Bool → ℕ → Cons → Run × Cons
unfolding cons_run
consoleread killed [] taken c = (returned taken [], c)
consoleread killed (ok ∷ dst) taken c =
    let ch = char_at c.r c in
    let (run, c') = consoleread killed dst (taken + 1) (take_char c) in
    if c.r == c.w
    then (if killed then returned minus_one32 [] else asleep [] (ok ∷ dst), c)
    else if ch == ctrl_d
    then (returned taken [], if ltb 0 taken then c else take_char c)
    else if not ok
    then (returned taken [], take_char c)
    else if ch == newline
    then (returned (taken + 1) (ch ∷ []), take_char c)
    else (cons_run ch run, c')
