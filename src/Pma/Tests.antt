-- ===== src/Pma/Tests.antt =====
-- The allocator on a window of seven frames, from 0xfe to 0x104: one reserved, one allocated.
use emos.Base.{◌≡◌, ◌⊎◌, refl, none, some, [], ◌∷◌, arith, tally, if◌then◌else◌}
use emos.Status.{Status}
use emos.Run.{ok, panic}
use emos.Pma.{
  Pma, mark_reserved, unmark_reserved, allocate_frame, free_frame, search_loop, search_round,
  take_loop,
}
use emos.Pma.Packed.{Bitmap, cell, lane_get, lane_set, pbm_get, pbm_set, pbm_reserved}
use emos.Pma.Valid.{IsValid, Becomes}
use emos.Pma.Range.{in_range}
use emos.Pma.Mark.{mark_reserved-Becomes}
use emos.Pma.Unmark.{unmark_reserved-Becomes, freed}
use emos.Pma.Allocate.{Grants, Refuses, allocate_frame-first-fit}
use emos.Pma.Free.{
  InUse, Given, Restored, loose, free_frame-Given, free_frame-panic, free_frame-allocate_frame,
}

abbrev small_map : Bitmap
small_map = 66 ∷ 0 ∷ []

abbrev window : Pma
window = record {
  bitmap = small_map;
  frame_desc_count = 7;
  available_frames = 6;
  free_frames = 5;
  base_pfn = 0xfe;
  limit_pfn = 0x104;
}

-- The lowest two free frames above the first megabyte are 0x102 and 0x103: 0x101 is allocated.
abbrev two_taken : Pma
two_taken = record window { bitmap = 66 ∷ 5 ∷ []; free_frames = 3 }

allocate_two : allocate_frame 2 window ≡ ok (Status.success, some 0x102, two_taken)
unfolding allocate_frame search_loop search_round take_loop pbm_get pbm_set cell lane_get lane_set
allocate_two = refl

allocate_four : allocate_frame 4 window ≡ ok (Status.insufficient_memory, none, window)
unfolding allocate_frame search_loop search_round take_loop pbm_get pbm_set cell lane_get lane_set
allocate_four = refl

window-IsValid : IsValid window
unfolding tally cell lane_get
window-IsValid = record {
  room = omega arith;
  bytes = omega arith;
  window = omega arith;
  nonempty = omega arith;
  small = omega arith;
  free = refl;
  available = refl;
}

mark_reserved-Becomes_example :
    (st' : Pma) × (mark_reserved 0x100 0x200 window ≡ ok st')
    × Becomes window st'
        (λ j. if in_range window 0x100 0x200 j then pbm_reserved else cell small_map j)
mark_reserved-Becomes_example = mark_reserved-Becomes 0x100 0x200 window-IsValid (omega arith)

unmark_reserved-Becomes_example :
    (st' : Pma) × (unmark_reserved 0xfe 0xfe window ≡ ok st')
    × Becomes window st' (λ j. freed (in_range window 0xfe 0xfe j) (cell small_map j))
unmark_reserved-Becomes_example = unmark_reserved-Becomes 0xfe 0xfe window-IsValid (omega arith)

allocate_frame-first-fit_example : Grants window 2 ⊎ Refuses window 2
allocate_frame-first-fit_example = allocate_frame-first-fit window 2 window-IsValid (omega arith)

in_use : InUse window 0x101 1
unfolding cell lane_get
in_use = record {
  above = omega arith;
  below = omega arith;
  all = λ j p q. let e : j ≡ 3 = omega arith in rw e;
}

free_frame-Given_example : (st' : Pma) × (free_frame 0x101 1 window ≡ ok st') × Given window 3 1 st'
free_frame-Given_example = free_frame-Given 0x101 1 window-IsValid in_use

free_frame-panic_example : free_frame 0x101 2 window ≡ panic Status.conflicting_state
unfolding cell lane_get
free_frame-panic_example =
    free_frame-panic 0x101 2 window-IsValid (omega arith)
      (loose 4 (omega arith) (omega arith) (omega arith))

free_frame-allocate_frame_example :
    (st' : Pma) × (free_frame 0x102 2 two_taken ≡ ok st') × Restored window st'
free_frame-allocate_frame_example =
    free_frame-allocate_frame 2 0x102 window-IsValid (omega arith) allocate_two
