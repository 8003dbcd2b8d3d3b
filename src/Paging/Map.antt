-- ===== src/Paging/Map.antt =====
-- `map` and `unmap` of kernel/mm/mm.c on one page.
use emos.Base.{
  ℕ, ◌^◌, ◌<◌, ◌≡◌, ◌⊎◌, inl, inr, refl, true, false, arith, ◌==◌, if◌then◌else◌, none, some, sym,
  ◌∙◌, Bool-cases,
}
use emos.Status.{Status, check_success}
use emos.Run.{ok}
use emos.Pma.{Pma}
use emos.Paging.{
  Mm, present, base, dir_index, table_index, pde, pte, put_word, new_table, ensure_table,
  fill_entry, map, entry_of, vpn_to_pfn,
}
use emos.Paging.Entry.{entry_of_lem, table_entry_lem}
use emos.Paging.Frames.{is_free, Takes, IsExhausted, allocate_frame-one}
use emos.Paging.Table.{
  lookup, entry_frame, window_vpn, IsPaged, HasTable, new_table-HasTable, HasTable-pde,
  HasTable-lookup, HasTable-IsPaged, written-lookup, written-IsPaged,
}

-- `mm_vpn_to_pfn` tells the frame of a page, and STATUS_PAGE_NOT_PRESENT where there is none.
pub vpn_to_pfn-lookup :
    (vpn : ℕ) (st : Mm)
    → vpn_to_pfn vpn st ≡ elim (lookup st vpn) [
      | none ↦ (Status.page_not_present, none)
      | some pfn ↦ (Status.success, some pfn)
    ]
unfolding vpn_to_pfn
vpn_to_pfn-lookup vpn st = ground arith

-- No frame has become free, and no address range has been taken.
pub record Grows (st st' : Mm) : Type 0 where
  pub paged : IsPaged st'
  pub same_vma : st'.vma ≡ st.vma
  pub kept : (g : ℕ) → is_free st.pma g ≡ false → is_free st'.pma g ≡ false

-- The table of the page is there, and no page has changed.
record Ensured (vpn : ℕ) (st st' : Mm) : Type 0 where
  runs : ensure_table vpn st ≡ ok (Status.success, st')
  grows : Grows st st'
  there : present (pde st' (dir_index vpn)) ≡ true
  same : (v : ℕ) → v < window_vpn → lookup st' v ≡ lookup st v
  cause : (st' ≡ st) ⊎ (lookup st vpn ≡ none)

pub Takes-kept :
    {p p' : Pma} (f : ℕ) → Takes p f p' → (g : ℕ) → is_free p g ≡ false → is_free p' g ≡ false
Takes-kept f t g e = ground (arith, t.free g)

-- There is neither a table for the page nor a frame for one.
abbrev pub HasNoTable : (vpn : ℕ) → Mm → Type 0
HasNoTable vpn st =
    (present (pde st (dir_index vpn)) ≡ false) × IsExhausted st.pma × (lookup st vpn ≡ none)

ensure_table-Ensured :
    (vpn : ℕ) (st : Mm)
    → IsPaged st
    → vpn < window_vpn
    → ((st' : Mm) × Ensured vpn st st')
      ⊎ ((ensure_table vpn st ≡ ok (Status.insufficient_memory, st)) × HasNoTable vpn st)
unfolding ensure_table check_success
ensure_table-Ensured vpn st h l = elim (Bool-cases (present (pde st (dir_index vpn)))) [
  | inl q ↦ inl (
    st,
    record {
      runs = rw (q, ensure_table) refl;
      grows = record { paged = h; same_vma = refl; kept = λ g e. e };
      there = q;
      same = λ v k. refl;
      cause = inl refl;
    },
  )
  | inr q ↦ elim (allocate_frame-one st.pma h.valid) [
    | inl (f, p, t) ↦
        let st1 : Mm = record st { pma = p } in
        let st' = new_table (dir_index vpn) f st1 in
        let n : HasTable (dir_index vpn) f st1 st' =
          new_table-HasTable (dir_index vpn) f st1 t.small in
        inl (
          st',
          record {
            runs = rw (q, ensure_table, t.runs) refl;
            grows = record {
              paged = HasTable-IsPaged (dir_index vpn) h t n q;
              same_vma = n.same_vma;
              kept = λ g e. rw n.same_pma (Takes-kept f t g e);
            };
            there = ground (
              arith,
              HasTable-pde (dir_index vpn) h t n q (dir_index vpn),
              table_entry_lem f t.small,
            );
            same = λ v k. HasTable-lookup (dir_index vpn) h t n q v k;
            cause = inr (rw q refl);
          },
        )
    | inr (none_free, full) ↦ inr (rw (q, ensure_table, none_free) refl, (q, full, rw q refl))
  ]
]

-- The page has the frame `pfn` now, no other page has changed, and the invariant holds.
pub record Mapped (pfn vpn : ℕ) (st st' : Mm) : Type 0 where
  pub was_free : lookup st vpn ≡ none
  pub grows : Grows st st'
  pub pages : (v : ℕ) → v < window_vpn → lookup st' v ≡ (if v == vpn then some pfn else lookup st v)

has_frame :
    (pfn flags d : ℕ)
    → present d ≡ true
    → pfn < 2 ^ 20
    → entry_frame d (entry_of pfn flags) ≡ some pfn
has_frame pfn flags d q s = let (p, b) = entry_of_lem pfn flags s in rw (q, p, b) refl

fill_entry-Mapped :
    (pfn vpn flags : ℕ) (st : Mm)
    → IsPaged st
    → vpn < window_vpn
    → pfn < 2 ^ 20
    → present (pde st (dir_index vpn)) ≡ true
    → ((st' : Mm) × (fill_entry pfn vpn flags st ≡ (Status.success, st')) × Mapped pfn vpn st st')
      ⊎ ((fill_entry pfn vpn flags st ≡ (Status.conflicting_state, st))
          × ((f : ℕ) × (lookup st vpn ≡ some f)))
unfolding fill_entry
fill_entry-Mapped pfn vpn flags st h l s q = elim (Bool-cases (present (pte st vpn))) [
  | inl busy ↦ inr (rw busy refl, (base (pte st vpn), rw (q, busy) refl))
  | inr free ↦
      let entry : ℕ = entry_of pfn flags in
      let st' : Mm = record st {
        frames = put_word st.frames (base (pde st (dir_index vpn))) (table_index vpn) entry;
      } in
      let e : st' ≡ st' = refl in
      inl (
        st',
        rw free refl,
        record {
          was_free = rw (q, free) refl;
          grows = record {
            paged = written-IsPaged vpn entry h l q e;
            same_vma = refl;
            kept = λ g f. f;
          };
          pages = λ v k.
              written-lookup vpn entry h l q e v k
              ∙ rw (has_frame pfn flags (pde st (dir_index vpn)) q s) refl;
        },
      )
]

Ensured-Mapped :
    {st st1 st' : Mm} (pfn vpn : ℕ)
    → vpn < window_vpn
    → Ensured vpn st st1
    → Mapped pfn vpn st1 st'
    → Mapped pfn vpn st st'
Ensured-Mapped pfn vpn l t m = record {
  was_free = sym (t.same vpn l) ∙ m.was_free;
  grows = record {
    paged = m.grows.paged;
    same_vma = m.grows.same_vma ∙ t.grows.same_vma;
    kept = λ g e. m.grows.kept g (t.grows.kept g e);
  };
  pages = λ v k. m.pages v k ∙ rw (t.same v k) refl;
}

-- With a page below the window and the number of a frame, `map` does one of three things. It gives
-- the page the frame, and no other page changes; or the page has a frame already, the status is
-- STATUS_CONFLICTING_STATE and nothing changes; or there is no table for the page, no frame of the
-- allocator above the first megabyte is free, the status is STATUS_INSUFFICIENT_MEMORY and nothing
-- changes. The page tables and the allocator are valid before the call.
pub map-Mapped :
    (pfn vpn flags : ℕ) (st : Mm)
    → IsPaged st
    → vpn < window_vpn
    → pfn < 2 ^ 20
    → ((st' : Mm) × (map pfn vpn flags st ≡ ok (Status.success, st')) × Mapped pfn vpn st st')
      ⊎ (((map pfn vpn flags st ≡ ok (Status.conflicting_state, st))
            × ((f : ℕ) × (lookup st vpn ≡ some f)))
          ⊎ ((map pfn vpn flags st ≡ ok (Status.insufficient_memory, st)) × HasNoTable vpn st))
unfolding map check_success
map-Mapped pfn vpn flags st h l s = elim (ensure_table-Ensured vpn st h l) [
  | inr (e, none_there) ↦ inr (inr (rw e refl, none_there))
  | inl (st1, t) ↦ elim (fill_entry-Mapped pfn vpn flags st1 t.grows.paged l s t.there) [
    | inl (st', e, m) ↦ inl (st', rw (t.runs, e) refl, Ensured-Mapped pfn vpn l t m)
    | inr (e, (f, busy)) ↦ elim t.cause [
      | inl old ↦ inr (inl (rw (t.runs, e, old) refl, (f, sym (t.same vpn l) ∙ busy)))
      | inr none_there ↦ absurd (ground (arith, busy, t.same vpn l))
    ]
  ]
]
