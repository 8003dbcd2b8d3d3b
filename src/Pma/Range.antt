-- ===== src/Pma/Range.antt =====
-- The indices that a range of frame numbers covers, after the clamps of mm_pma_mark_reserved.
use emos.Base.{ℕ, ◌+◌, ◌-◌, ◌≤◌, ◌≡◌, Bool, arith, ltb, leb, ◌&&◌}
use emos.Pma.Valid.{IsValid, within}
use emos.Pma.{Pma, first_index, last_index}

-- `j` is the index of a frame of the window from `base_pfn` to `limit_pfn`.
abbrev pub in_range : Pma → (base_pfn limit_pfn j : ℕ) → Bool
in_range st base_pfn limit_pfn j =
    ltb j st.frame_desc_count && (leb base_pfn (st.base_pfn + j) && leb (st.base_pfn + j) limit_pfn)

-- The range meets the window.
pub record Meets (st : Pma) (base_pfn limit_pfn : ℕ) : Type 0 where
  pub ordered : base_pfn ≤ limit_pfn
  pub above : st.base_pfn ≤ limit_pfn
  pub below : base_pfn ≤ st.limit_pfn

module _ {st : Pma} (base_pfn limit_pfn : ℕ) (v : IsValid st)
    (m : Meets st base_pfn limit_pfn) where
  abbrev pub rounds : ℕ
  rounds = last_index st limit_pfn + 1 - first_index st base_pfn

  pub in_window : first_index st base_pfn + rounds ≤ st.frame_desc_count
  in_window = ground (arith, v.window, v.small, v.nonempty, m.ordered, m.above, m.below)

  pub range_lem :
      (j : ℕ) → within (first_index st base_pfn) rounds j ≡ in_range st base_pfn limit_pfn j
  range_lem j = ground (arith, v.window, v.small, v.nonempty, m.ordered, m.above, m.below)
