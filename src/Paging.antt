-- ===== src/Paging.antt =====
-- kernel/mm/mm.c: the page tables, over the two allocators. Memory is a function from a frame and
-- the index of a word in it to the word. The directory is the frame `page_dir`, whose last entry
-- is itself, so the window at 0xffc00000 shows the tables and 0xfffff000 the directory. Masks and
-- shifts of page numbers are written as `/` and `%`; the processor's cache of entries
-- (`invalidate_page`) is left out.
pub mod Frames
pub mod Entry
pub mod Table
pub mod Map
pub mod Extend
pub mod Unmap
pub mod Pages
mod Tests
use emos.Base.{
  ℕ, zero, suc, ◌+◌, ◌*◌, ◌/◌, ◌%◌, ◌^◌, ◌==◌, ltb, ◌&&◌, ◌||◌, not, if◌then◌else◌, Bool, true,
  false, Option, none, some, bit_and,
}
use emos.Status.{Status, check_success}
use emos.Run.{Run, ok, panic, fault, ◌>>=◌}
use emos.Pma.{Pma, allocate_frame, free_frame}
use emos.Vma.{Vma, allocate_page}

pub record Mm : Type 0 where
  pub pma : Pma
  pub vma : Vma
  pub page_dir : ℕ
  pub frames : ℕ → ℕ → ℕ

-- The fields `p` and `base` of an entry.
abbrev pub present : ℕ → Bool
present raw = raw % 2 == 1

abbrev pub base : ℕ → ℕ
base raw = raw / 2 ^ 12

-- `(vpn & 0x000FFC00) >> 10` and `vpn & 0x000003FF`
abbrev pub dir_index : ℕ → ℕ
dir_index vpn = vpn / 2 ^ 10 % 2 ^ 10

abbrev pub table_index : ℕ → ℕ
table_index vpn = vpn % 2 ^ 10

-- `_pc_page_dir->pde[i]` and `pt[vpn & 0x000003FF]`
abbrev pub pde : Mm → ℕ → ℕ
pde st i = st.frames st.page_dir i

abbrev pub pte : Mm → ℕ → ℕ
pte st vpn = st.frames (base (pde st (dir_index vpn))) (table_index vpn)

abbrev pub put_word : (frames : ℕ → ℕ → ℕ) (frame i value : ℕ) → ℕ → ℕ → ℕ
put_word frames frame i value g j = if g == frame && j == i then value else frames g j

-- The status, and what `*pfn` is set to.
unfoldable pub vpn_to_pfn : (vpn : ℕ) → Mm → Status × Option ℕ
vpn_to_pfn vpn st =
    if not (present (pde st (dir_index vpn)))
    then (Status.page_not_present, none)
    else if not (present (pte st vpn))
    then (Status.page_not_present, none)
    else (Status.success, some (base (pte st vpn)))

abbrev pub page_size : ℕ
page_size = 4096

-- What a pointer argument was set to; a caller reads it only where it was set.
abbrev pub given : Option ℕ → ℕ
given none = 0
given (some n) = n

unfoldable pub vaddr_to_paddr : (vaddr : ℕ) → Mm → Status × Option ℕ
unfolding vpn_to_pfn
vaddr_to_paddr vaddr st =
    let (status, pfn) = vpn_to_pfn (vaddr / 2 ^ 12) st in
    if check_success status
    then (Status.success, some ((given pfn * page_size + vaddr % page_size) % 2 ^ 32))
    else (status, none)

-- `for (int i = 0; i < 1024; i++) pt[i].raw = 0;` from `i` on
unfoldable pub clear_loop : (rounds i frame : ℕ) → (ℕ → ℕ → ℕ) → ℕ → ℕ → ℕ
clear_loop zero i frame frames = frames
clear_loop (suc n) i frame frames = clear_loop n (i + 1) frame (put_word frames frame i 0)

-- `0x00000003 | (new_pt_pfn << 12)`, whose two parts have no bit in common
abbrev pub table_entry : ℕ → ℕ
table_entry pfn = pfn * 2 ^ 12 % 2 ^ 32 + 3

-- The table of the entry `i` of the directory is the frame `pfn`, and cleared.
unfoldable pub new_table : (i pfn : ℕ) → Mm → Mm
unfolding clear_loop
new_table i pfn st =
    let frames1 : ℕ → ℕ → ℕ = put_word st.frames st.page_dir i (table_entry pfn) in
    record st { frames = clear_loop 1024 0 (base (frames1 st.page_dir i)) frames1 }

-- The first part of `map`: the table is there, or a new one is made.
unfoldable pub ensure_table : (vpn : ℕ) → Mm → Run (Status × Mm)
ensure_table vpn st =
    if present (pde st (dir_index vpn))
    then ok (Status.success, st)
    else allocate_frame 1 st.pma >>= λ (status, new_pt_pfn, pma).
        (let st1 : Mm = record st { pma = pma } in
          ok (
            if check_success status
            then (status, new_table (dir_index vpn) (given new_pt_pfn) st1)
            else (status, st1)))

-- A field of one bit set to 1, named by its weight.
unfoldable pub set_bit : (weight raw : ℕ) → ℕ
set_bit weight raw = if raw / weight % 2 == 1 then raw else raw + weight

-- `flags & mask`
unfoldable pub has : (flags mask : ℕ) → Bool
has flags mask = not (bit_and flags mask == 0)

-- The entry that `map` builds, in the end with `p`; 1, 2, 4, 8, 16 and 128 are the weights of `p`, `r_w`, `u_s`, `pwt`,
-- `pcd` and `pat`, and PMF_READONLY, PMF_USER, PMF_NOCACHE and PMF_WTCACHE are 1, 2, 4 and 8.
unfoldable pub flagged : (pfn flags : ℕ) → ℕ
unfolding set_bit
flagged pfn flags =
    let raw0 : ℕ = pfn * 2 ^ 12 % 2 ^ 32 in
    let raw1 : ℕ = if has flags 1 then raw0 else set_bit 2 raw0 in
    let raw2 : ℕ = if has flags 2 then set_bit 4 raw1 else raw1 in
    let raw3 : ℕ = if has flags 4 || has flags 8 then set_bit 128 raw2 else raw2 in
    let raw4 : ℕ = if has flags 4 then set_bit 16 raw3 else raw3 in
    if has flags 8 then set_bit 8 raw4 else raw4

unfoldable pub entry_of : (pfn flags : ℕ) → ℕ
unfolding flagged
entry_of pfn flags = set_bit 1 (flagged pfn flags)

-- The second part of `map`, with the table there.
unfoldable pub fill_entry : (pfn vpn flags : ℕ) → Mm → Status × Mm
fill_entry pfn vpn flags st = if present (pte st vpn) then (Status.conflicting_state, st) else (
  Status.success,
  record st {
    frames =
        put_word st.frames (base (pde st (dir_index vpn))) (table_index vpn) (entry_of pfn flags);
  },
)

unfoldable pub map : (pfn vpn flags : ℕ) → Mm → Run (Status × Mm)
unfolding ensure_table fill_entry
map pfn vpn flags st = ensure_table vpn st >>= λ (status, st1).
    ok (if check_success status then fill_entry pfn vpn flags st1 else (status, st1))

abbrev pub add32 : ℕ → ℕ → ℕ
add32 a b = (a + b) % 2 ^ 32

-- The loop of `mm_map` from round `i` on.
unfoldable pub map_loop : (rounds i pfn vpn flags : ℕ) → Mm → Run (Status × Mm)
map_loop zero i pfn vpn flags st = ok (Status.success, st)
map_loop (suc n) i pfn vpn flags st = map (add32 pfn i) (add32 vpn i) flags st >>= λ (status, st1).
    (let rest = map_loop n (i + 1) pfn vpn flags st1 in
      if check_success status then rest else ok (status, st1))

unfoldable pub mm_map : (pfn vpn page_count flags : ℕ) → Mm → Run (Status × Mm)
mm_map pfn vpn page_count flags st = map_loop page_count 0 pfn vpn flags st

unfoldable pub unmap : (vpn : ℕ) → Mm → Mm
unmap vpn st =
    if not (present (pde st (dir_index vpn)))
    then st
    else if not (present (pte st vpn))
    then st
    else record st {
      frames = put_word st.frames (base (pde st (dir_index vpn))) (table_index vpn) 0;
    }

unfoldable pub unmap_loop : (rounds i vpn : ℕ) → Mm → Mm
unmap_loop zero i vpn st = st
unmap_loop (suc n) i vpn st = unmap_loop n (i + 1) vpn (unmap (add32 vpn i) st)

unfoldable pub mm_unmap : (vpn page_count : ℕ) → Mm → Status × Mm
mm_unmap vpn page_count st = (Status.success, unmap_loop page_count 0 vpn st)

-- A round of the loop of `mm_allocate_pages` and `mm_allocate_pages_to`: the page gets a frame if it
-- has none.
unfoldable pub back_page : (vpn : ℕ) → Mm → Run (Status × Mm)
unfolding mm_map map_loop
back_page vpn st =
    if check_success ((vpn_to_pfn vpn st).0)
    then ok (Status.success, st)
    else allocate_frame 1 st.pma >>= λ (status, pfn, pma).
        (let st1 : Mm = record st { pma = pma } in
          if check_success status then mm_map (given pfn) vpn 1 0 st1 else ok (status, st1))

unfoldable pub back_loop : (rounds i vpn : ℕ) → Mm → Run (Status × Mm)
back_loop zero i vpn st = ok (Status.success, st)
back_loop (suc n) i vpn st = back_page (add32 vpn i) st >>= λ (status, st1).
    (let rest = back_loop n (i + 1) vpn st1 in
      if check_success status then rest else ok (status, st1))

unfoldable pub allocate_pages_to : (vpn page_count : ℕ) → Mm → Run (Status × Mm)
allocate_pages_to vpn page_count st = back_loop page_count 0 vpn st

-- The status, what `*vpn` is set to, and the new state. The status of `mm_vma_allocate_page` is not
-- looked at; where it grants nothing, `allocated_vpn` is `garbage`, what the stack held before.
unfoldable pub allocate_pages : (garbage page_count : ℕ) → Mm → Run (Status × Option ℕ × Mm)
allocate_pages garbage page_count st =
    let (_, page, vma) = allocate_page page_count 0 st.vma in
    let allocated_vpn : ℕ = elim page [ none ↦ garbage | some vpn ↦ vpn ] in
    back_loop page_count 0 allocated_vpn (record st { vma = vma }) >>= λ (status, st1).
    ok (if check_success status then (status, some allocated_vpn, st1) else (status, none, st1))

-- A round of the loop of `mm_free_pages`.
unfoldable pub release_page : (vpn : ℕ) → Mm → Run Mm
unfolding mm_unmap unmap_loop
release_page vpn st =
    let (status, pfn) = vpn_to_pfn vpn st in
    let (_, st1) = mm_unmap vpn 1 st in
    if check_success status
    then (free_frame (given pfn) 1 st1.pma >>= λ pma. ok (record st1 { pma = pma }))
    else ok st

unfoldable pub release_loop : (rounds i vpn : ℕ) → Mm → Run Mm
release_loop zero i vpn st = ok st
release_loop (suc n) i vpn st = release_page (add32 vpn i) st >>= release_loop n (i + 1) vpn

unfoldable pub free_pages : (vpn page_count : ℕ) → Mm → Run Mm
free_pages vpn page_count st = release_loop page_count 0 vpn st
