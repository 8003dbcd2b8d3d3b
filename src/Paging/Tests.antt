-- ===== src/Paging/Tests.antt =====
-- The page tables with one table and one page, over an allocator of the frames 0xfe to 0x104.
use emos.Base.{ℕ, ◌≡◌, ◌⊎◌, refl, true, [], ◌∷◌, arith, tally, ◌==◌, if◌then◌else◌, some}
use emos.Status.{Status, check_success}
use emos.Run.{ok}
use emos.Pma.{Pma}
use emos.Pma.Packed.{cell, lane_get}
use emos.Pma.Valid.{IsValid, within}
use emos.Vma.{Vma}
use emos.Paging.{
  Mm, map, mm_unmap, allocate_pages_to, vpn_to_pfn, vaddr_to_paddr, base, present, pde,
}
use emos.Paging.Frames.{has_cell}
use emos.Paging.Table.{lookup, IsPaged}
use emos.Paging.Map.{Mapped, HasNoTable, map-Mapped}
use emos.Paging.Extend.{AllKept}
use emos.Paging.Pages.{Ends, allocate_pages_to-Ends}
use emos.Paging.Unmap.{Drops, mm_unmap-Drops}

abbrev frames_left : Pma
frames_left = record {
  bitmap = 66 ∷ 0 ∷ [];
  frame_desc_count = 7;
  available_frames = 6;
  free_frames = 5;
  base_pfn = 0xfe;
  limit_pfn = 0x104;
}

frames_left-IsValid : IsValid frames_left
unfolding tally cell lane_get
frames_left-IsValid = record {
  room = omega arith;
  bytes = omega arith;
  window = omega arith;
  nonempty = omega arith;
  small = omega arith;
  free = refl;
  available = refl;
}

abbrev areas : Vma
areas = record {
  user_base_vpn = 0x400;
  user_limit_vpn = 0x410;
  user_alloc_vpn = 0x404;
  kernel_base_vpn = 0x800;
  kernel_limit_vpn = 0x820;
  kernel_alloc_vpn = 0x800;
}

-- The directory is the frame 0x50, its table for the first pages 0x51, and page 5 has 0x60.
abbrev words : ℕ → ℕ → ℕ
words g j =
    if g == 0x50
    then (if j == 0 then 0x51003 else 0)
    else if g == 0x51
    then (if j == 5 then 0x60003 else 0)
    else 0

abbrev one_page : Mm
one_page = record { pma = frames_left; vma = areas; page_dir = 0x50; frames = words }

vpn_to_pfn_test : vpn_to_pfn 5 one_page ≡ (Status.success, some 0x60)
unfolding vpn_to_pfn
vpn_to_pfn_test = refl

vaddr_to_paddr_test : vaddr_to_paddr 0x5123 one_page ≡ (Status.success, some 0x60123)
unfolding vaddr_to_paddr check_success
vaddr_to_paddr_test = refl

only_table : (i : ℕ) → present (pde one_page i) ≡ true → (i ≡ 0) × (base (pde one_page i) ≡ 0x51)
only_table i q = ground arith

one_page-IsPaged : IsPaged one_page
unfolding has_cell
one_page-IsPaged = record {
  valid = frames_left-IsValid;
  dir_kept = refl;
  kept = λ i l q. ground (arith, only_table i q);
  not_dir = λ i l q. ground (arith, only_table i q);
  apart = λ i j l m q r e. ground (arith, only_table i q, only_table j r);
}

one_page-AllKept : AllKept one_page
unfolding has_cell
one_page-AllKept v f l e = ground arith

map-Mapped_example :
    ((st' : Mm) × (map 0x70 0x801 0 one_page ≡ ok (Status.success, st'))
      × Mapped 0x70 0x801 one_page st')
    ⊎ (((map 0x70 0x801 0 one_page ≡ ok (Status.conflicting_state, one_page))
          × ((f : ℕ) × (lookup one_page 0x801 ≡ some f)))
        ⊎ ((map 0x70 0x801 0 one_page ≡ ok (Status.insufficient_memory, one_page))
            × HasNoTable 0x801 one_page))
map-Mapped_example = map-Mapped 0x70 0x801 0 one_page one_page-IsPaged (omega arith) (omega arith)

allocate_pages_to-Ends_example :
    Ends (λ s st'. allocate_pages_to 4 3 one_page ≡ ok (s, st')) 4 7 one_page
allocate_pages_to-Ends_example =
    allocate_pages_to-Ends 4 3 one_page one_page-IsPaged one_page-AllKept (omega arith)

mm_unmap-Drops_example : Drops (within 3 4) one_page ((mm_unmap 3 4 one_page).1)
mm_unmap-Drops_example = mm_unmap-Drops 3 4 one_page one_page-IsPaged (omega arith)
