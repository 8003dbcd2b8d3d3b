-- ===== src/Pma.antt =====
-- kernel/mm/pma.c: the physical memory allocator, over a bitmap of two bits for each frame.
-- The file-level variables are the fields of `Pma`; a function returns the new state. `size_t` and
-- `pfn_t` are 32 bits wide, as on i686. A bitmap access outside the bitmap is `fault`, so an index
-- never comes near the end of its type.
pub mod Packed
pub mod Valid
pub mod Range
pub mod Mark
pub mod Unmark
pub mod Search
pub mod SearchLoop
pub mod Allocate
pub mod Free
pub mod Below
mod Tests
use emos.Base.{
  ℕ, zero, suc, ◌+◌, ◌-◌, ◌*◌, ◌/◌, ◌%◌, ◌^◌, ◌≤◌, ◌<◌, ◌≡◌, Bool, Option, none, some, ltb, leb,
  ◌==◌, if◌then◌else◌, ◌||◌,
}
use emos.Status.{Status}
use emos.Run.{Run, ok, panic, fault, ◌>>=◌}
use Packed.{Bitmap, pbm_get, pbm_set, pbm_free, pbm_allocated, pbm_reserved}

-- pma_bitmap, pma_frame_desc_count, pma_available_frames, pma_free_frames, pma_base_pfn and
-- pma_limit_pfn
pub record Pma : Type 0 where
  pub bitmap : Bitmap
  pub frame_desc_count : ℕ
  pub available_frames : ℕ
  pub free_frames : ℕ
  pub base_pfn : ℕ
  pub limit_pfn : ℕ

-- `size_t` sums and differences
abbrev pub add32 : ℕ → ℕ → ℕ
add32 a b = (a + b) % 2 ^ 32

abbrev pub sub32 : ℕ → ℕ → ℕ
sub32 a b = (a + 2 ^ 32 - b) % 2 ^ 32

-- The body of the loop of `mm_pma_mark_reserved`, at the descriptor `d` of index `i`.
pub mark_at : ℕ → ℕ → Pma → Run Pma
mark_at i d st = if d == pbm_reserved then ok st else do
  bm ← pbm_set st.bitmap i pbm_reserved
  ok (record st {
    bitmap = bm;
    free_frames = if d == pbm_free then sub32 st.free_frames 1 else st.free_frames;
    available_frames = sub32 st.available_frames 1;
  })

pub mark_step : ℕ → Pma → Run Pma
unfolding mark_at
mark_step i st = do d ← pbm_get st.bitmap i; mark_at i d st

-- `rounds` rounds from index `i` on
pub mark_loop : (rounds i : ℕ) → Pma → Run Pma
mark_loop zero i st = ok st
mark_loop (suc n) i st = mark_step i st >>= mark_loop n (i + 1)

-- The clamps of the two ends, which `mm_pma_unmark_reserved` has too.
abbrev pub clamp_base : Pma → ℕ → ℕ
clamp_base st base_pfn = if ltb base_pfn st.base_pfn then st.base_pfn else base_pfn

abbrev pub clamp_limit : Pma → ℕ → ℕ
clamp_limit st limit_pfn = if ltb st.limit_pfn limit_pfn then st.limit_pfn else limit_pfn

abbrev pub first_index : Pma → ℕ → ℕ
first_index st base_pfn = sub32 (clamp_base st base_pfn) st.base_pfn

abbrev pub last_index : Pma → ℕ → ℕ
last_index st limit_pfn = sub32 (clamp_limit st limit_pfn) st.base_pfn

pub mark_reserved : (base_pfn limit_pfn : ℕ) → Pma → Run Pma
mark_reserved base_pfn limit_pfn st =
    mark_loop (last_index st limit_pfn + 1 - first_index st base_pfn) (first_index st base_pfn) st

-- The body of the loop of `mm_pma_unmark_reserved`.
pub unmark_at : ℕ → ℕ → Pma → Run Pma
unmark_at i d st =
    if d == pbm_reserved
    then (do
      bm ← pbm_set st.bitmap i pbm_free
      ok (record st {
        bitmap = bm;
        free_frames = add32 st.free_frames 1;
        available_frames = add32 st.available_frames 1;
      }))
    else ok st

pub unmark_step : ℕ → Pma → Run Pma
unfolding unmark_at
unmark_step i st = do d ← pbm_get st.bitmap i; unmark_at i d st

pub unmark_loop : (rounds i : ℕ) → Pma → Run Pma
unmark_loop zero i st = ok st
unmark_loop (suc n) i st = unmark_step i st >>= unmark_loop n (i + 1)

pub unmark_reserved : (base_pfn limit_pfn : ℕ) → Pma → Run Pma
unmark_reserved base_pfn limit_pfn st =
    unmark_loop (last_index st limit_pfn + 1 - first_index st base_pfn) (first_index st base_pfn) st

-- `mm_pma_get_available_frame_count` and `mm_pma_get_free_frame_count`
pub get_available_frame_count : Pma → Status × ℕ
get_available_frame_count st = (Status.success, st.available_frames)

pub get_free_frame_count : Pma → Status × ℕ
get_free_frame_count st = (Status.success, st.free_frames)

-- `free_count` and `alloc_start_idx` of `mm_pma_allocate_frame`
pub record Found : Type 0 where
  pub free_count : ℕ
  pub start : ℕ

-- How a round of the search ends: `continue`, or `break`.
pub data Round : Type 0 where
  next : Found → Round
  stop : Found → Round

abbrev pub lengthen : ℕ → Found → Found
lengthen i s = record {
  free_count = s.free_count + 1;
  start = if s.free_count == 0 then i else s.start;
}

-- The round at index `i` with descriptor `d`.
pub search_at : (count i d : ℕ) → Found → Round
search_at count i d s =
    if d == pbm_free
    then (let s' = lengthen i s in if leb count s'.free_count then stop s' else next s')
    else next (record s { free_count = 0 })

pub search_round : (count i : ℕ) → Pma → Found → Run Round
unfolding search_at
search_round count i st s =
    if ltb (add32 st.base_pfn i) 0x100
    then ok (next s)
    else (do d ← pbm_get st.bitmap i; ok (search_at count i d s))

-- The search loop, with the rounds left.
pub search_loop : (rounds count i : ℕ) → Pma → Found → Run Found
search_loop zero count i st s = ok s
search_loop (suc n) count i st s =
    search_round count i st s
    >>= elim [ next s' ↦ search_loop n count (i + 1) st s' | stop s' ↦ ok s' ]

-- `PBM_SET(i, PBM_ALLOCATED); pma_free_frames--;` for `rounds` frames from `i` on
pub take_loop : (rounds i : ℕ) → Pma → Run Pma
take_loop zero i st = ok st
take_loop (suc n) i st = do
  bm ← pbm_set st.bitmap i pbm_allocated
  take_loop n (i + 1) (record st { bitmap = bm; free_frames = sub32 st.free_frames 1 })

abbrev pub no_run : Found
no_run = record { free_count = 0; start = 0 }

-- `mm_pma_allocate_frame`: the status, what `*pfn` is set to, and the new state. The loop that
-- marks the frames ends at `alloc_start_idx + count`.
pub allocate_frame : (count : ℕ) → Pma → Run (Status × Option ℕ × Pma)
allocate_frame count st = do
  s ← search_loop st.frame_desc_count count 0 st no_run
  if ltb s.free_count count then ok (Status.insufficient_memory, none, st) else (do
    st' ← take_loop (add32 s.start count - s.start) s.start st
    ok (Status.success, some (add32 st.base_pfn s.start), st'))

-- `if (PBM_GET(i) != PBM_ALLOCATED) goto has_error; PBM_SET(i, PBM_FREE); pma_free_frames++;`
pub give_at : ℕ → ℕ → Pma → Run Pma
give_at i d st =
    if d == pbm_allocated
    then (do
      bm ← pbm_set st.bitmap i pbm_free
      ok (record st { bitmap = bm; free_frames = add32 st.free_frames 1 }))
    else panic Status.conflicting_state

pub give_step : ℕ → Pma → Run Pma
unfolding give_at
give_step i st = do d ← pbm_get st.bitmap i; give_at i d st

pub give_loop : (rounds i : ℕ) → Pma → Run Pma
give_loop zero i st = ok st
give_loop (suc n) i st = give_step i st >>= give_loop n (i + 1)

-- The guard of `mm_pma_free_frame`; the sums wrap.
abbrev pub outside_window : (pfn frame_count : ℕ) → Pma → Bool
outside_window pfn frame_count st =
    ltb pfn st.base_pfn || ltb (add32 st.limit_pfn 1) (add32 pfn frame_count)

pub free_frame : (pfn frame_count : ℕ) → Pma → Run Pma
free_frame pfn frame_count st =
    if outside_window pfn frame_count st
    then panic Status.conflicting_state
    else (let start = sub32 pfn st.base_pfn in give_loop (add32 start frame_count - start) start st)
