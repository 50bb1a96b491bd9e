-- ===== src/Bio/Tests.antt =====
-- kernel/bio.c: the first read of a block, and a small cache with a held buffer.
use os_final_project.Prelude.{
  ℕ, ◌<◌, ◌≤◌, ◌≡◌, refl, true, false, some, List, [], ◌∷◌, arith, get_elem?, modify,
}
use os_final_project.Bio.{
  Buf, link, binit, is_for, find_cached, last_unused, recycle, bget, validate, bread,
}
use os_final_project.Bio.Reuse.{Reach, start, later, reads, one_buffer_per_block}
use os_final_project.Bio.Get.{bget_lem}

abbrev held_buf : Buf
held_buf = record { slot = 0; valid = true; dev = 1; blockno = 7; refcnt = 1 }

abbrev unused_buf : Buf
unused_buf = record { slot = 1; valid = true; dev = 1; blockno = 8; refcnt = 0 }

abbrev after_bget : List Buf
after_bget = held_buf ∷ record { slot = 1; valid = false; dev = 1; blockno = 9; refcnt = 1 } ∷ []

bget-two : bget 1 9 (held_buf ∷ unused_buf ∷ []) ≡ some (1, after_bget)
unfolding bget find_cached last_unused is_for recycle
bget-two = refl

bget_example :
    (b : Buf) × (d : Buf) × (get_elem? after_bget 1 ≡ some b)
    × (is_for 1 9 b ≡ true)
    × (0 < b.refcnt)
    × (get_elem? after_bget 0 ≡ some d)
    × (d.dev ≡ 1)
    × (d.blockno ≡ 7)
    × (1 ≤ d.refcnt)
bget_example =
    bget_lem 1 9 (held_buf ∷ unused_buf ∷ []) 1 0 after_bget held_buf
      (omega arith, (omega arith, tt)) bget-two refl (omega arith)

abbrev first_buf : Buf
first_buf = record { slot = 0; valid = true; dev = 1; blockno = 7; refcnt = 1 }

abbrev one_read : List Buf
one_read = modify (modify binit 29 (recycle 1 7)) 29 validate

one_read-Reach : Reach binit one_read
unfolding binit link bread bget find_cached last_unused is_for recycle validate
one_read-Reach = later start (reads 1 7 29 true (omega arith) refl)

first_buf-one_read : get_elem? one_read 29 ≡ some first_buf
unfolding binit link recycle validate
first_buf-one_read = refl

one_buffer_per_block_example : ◌≡◌ {A = ℕ} 29 29
one_buffer_per_block_example =
    one_buffer_per_block one_read-Reach 29 29 first_buf first_buf first_buf-one_read
      first_buf-one_read (omega arith) refl refl
