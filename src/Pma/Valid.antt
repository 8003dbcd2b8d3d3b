-- ===== src/Pma/Valid.antt =====
-- The representation invariant of the allocator, and what one step of a loop does to it.
use emos.Base.{
  ℕ, ◌+◌, ◌*◌, ◌^◌, ◌≤◌, ◌<◌, ◌≡◌, refl, Bool, arith, ltb, leb, ◌==◌, if◌then◌else◌, ◌&&◌, length,
  ◌∙◌, tally, tally-le, tally-pos, tally-write, tally-lt, ◌≢◌,
}
use emos.Pma.Packed.{AllBytes, cell, IsWrite, written, pbm_set-IsWrite, pbm_free, pbm_reserved}
use emos.Pma.{Pma}

-- The bitmap holds a descriptor for every frame of the window, and the two counters count them.
pub record IsValid (st : Pma) : Type 0 where
  pub room : st.frame_desc_count ≤ 4 * length st.bitmap
  pub bytes : AllBytes st.bitmap
  pub window : st.base_pfn + st.frame_desc_count ≡ st.limit_pfn + 1
  pub nonempty : 0 < st.frame_desc_count
  pub small : st.limit_pfn < 2 ^ 20
  pub free : st.free_frames ≡ tally (cell st.bitmap) pbm_free st.frame_desc_count
  pub available :
      st.available_frames + tally (cell st.bitmap) pbm_reserved st.frame_desc_count
      ≡ st.frame_desc_count

-- `st'` has the window of `st`, is valid, and its descriptors are those that `f` gives.
pub record Becomes (st st' : Pma) (f : ℕ → ℕ) : Type 0 where
  pub valid : IsValid st'
  pub same_base : st'.base_pfn ≡ st.base_pfn
  pub same_limit : st'.limit_pfn ≡ st.limit_pfn
  pub same_count : st'.frame_desc_count ≡ st.frame_desc_count
  pub cells : (j : ℕ) → cell st'.bitmap j ≡ f j

-- `j` is one of the `n` indices from `i` on.
abbrev pub within : (i n j : ℕ) → Bool
within i n j = leb i j && ltb j (i + n)

-- The counters stay within the window, far from the ends of their type.
pub counters-le :
    {st : Pma}
    → IsValid st
    → (st.free_frames ≤ st.frame_desc_count)
      × (st.available_frames ≤ st.frame_desc_count)
      × (st.frame_desc_count ≤ 2 ^ 20)
counters-le {st} v = (
  omega (arith, tally-le (cell st.bitmap) pbm_free st.frame_desc_count),
  omega arith,
  omega arith,
)

module _ {st : Pma} (v : IsValid st) (i val : ℕ) (l : i < st.frame_desc_count) (s : val < 3) where
  abbrev old : ℕ
  old = cell st.bitmap i

  pub write_lem : IsWrite st.bitmap i val (written st.bitmap i val)
  write_lem = pbm_set-IsWrite st.bitmap i val v.bytes (omega (arith, v.room)) (omega arith)

  -- A write of one descriptor, with counters that follow it.
  pub write-Becomes :
      (available free : ℕ)
      → free + (if old == pbm_free then 1 else 0)
        ≡ st.free_frames + (if val == pbm_free then 1 else 0)
      → available + (if val == pbm_reserved then 1 else 0)
        ≡ st.available_frames + (if old == pbm_reserved then 1 else 0)
      → Becomes st
          (record st {
            bitmap = written st.bitmap i val;
            free_frames = free;
            available_frames = available;
          })
          (λ j. if i == j then val else cell st.bitmap j)
  write-Becomes available free hf ha = record {
    valid = record {
      room = omega (arith, v.room, write_lem.size);
      bytes = write_lem.bytes;
      window = v.window;
      nonempty = v.nonempty;
      small = v.small;
      free = omega (
        arith,
        hf,
        v.free,
        tally-write (cell st.bitmap) (cell (written st.bitmap i val)) pbm_free val
            st.frame_desc_count i l write_lem.cells,
      );
      available = omega (
        arith,
        ha,
        v.available,
        tally-write (cell st.bitmap) (cell (written st.bitmap i val)) pbm_reserved val
            st.frame_desc_count i l write_lem.cells,
      );
    };
    same_base = refl;
    same_limit = refl;
    same_count = refl;
    cells = write_lem.cells;
  }

-- A descriptor with a value is counted, so its counter can go down.
pub free-pos :
    {st : Pma}
    → IsValid st
    → (i : ℕ) → i < st.frame_desc_count
    → cell st.bitmap i ≡ pbm_free
    → 0 < st.free_frames
free-pos {st} v i l h =
    omega (arith, v.free, tally-pos (cell st.bitmap) pbm_free st.frame_desc_count i l h)

pub available-pos :
    {st : Pma}
    → IsValid st
    → (i : ℕ) → i < st.frame_desc_count
    → cell st.bitmap i ≢ pbm_reserved
    → 0 < st.available_frames
available-pos {st} v i l h =
    omega (arith, v.available, tally-lt (cell st.bitmap) pbm_reserved st.frame_desc_count i l h)

pub Becomes-congr :
    {st st' : Pma} {f g : ℕ → ℕ} → Becomes st st' f → ((j : ℕ) → f j ≡ g j) → Becomes st st' g
Becomes-congr p e = record {
  valid = p.valid;
  same_base = p.same_base;
  same_limit = p.same_limit;
  same_count = p.same_count;
  cells = λ j. p.cells j ∙ e j;
}

-- Becomes composes.
pub Becomes-trans :
    {st st1 st2 : Pma} {f g h : ℕ → ℕ}
    → Becomes st st1 f
    → Becomes st1 st2 g
    → ((j : ℕ) → g j ≡ h j)
    → Becomes st st2 h
Becomes-trans p q e = record {
  valid = q.valid;
  same_base = q.same_base ∙ p.same_base;
  same_limit = q.same_limit ∙ p.same_limit;
  same_count = q.same_count ∙ p.same_count;
  cells = λ j. q.cells j ∙ e j;
}

pub Becomes-refl :
    {st : Pma} → IsValid st → (f : ℕ → ℕ) → ((j : ℕ) → cell st.bitmap j ≡ f j) → Becomes st st f
Becomes-refl v f e = record {
  valid = v;
  same_base = refl;
  same_limit = refl;
  same_count = refl;
  cells = e;
}
