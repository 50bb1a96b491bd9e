-- ===== src/Cstring/Tests.antt =====
-- kernel/string.c: runs on a small memory.
use os_final_project.Prelude.{◌≡◌, if◌then◌else◌, ◌==◌}
use os_final_project.Cstring.{Memory, memmove}
use os_final_project.Cstring.Move.{memmove_lem}

-- "abc" at the address 100, "ab" at 200, NULs elsewhere.
abbrev memory : Memory
memory a =
    if a == 100
    then 97
    else if a == 101
    then 98
    else if a == 102
    then 99
    else if a == 200
    then 97
    else if a == 201
    then 98
    else 0

-- The ranges overlap, with the target behind the source.
memmove_example : memmove 101 100 3 memory 102 ≡ 98
memmove_example = memmove_lem 101 100 3 memory 102
