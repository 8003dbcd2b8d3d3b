-- ===== src/Paging/Frames.antt =====
-- What the page tables need of the physical allocator: one frame at a time.
use emos.Base.{
  ℕ, ◌+◌, ◌-◌, ◌^◌, ◌≤◌, ◌<◌, ◌≡◌, Bool, true, false, arith, ltb, leb, ◌==◌, ◌&&◌, if◌then◌else◌,
  ◌⊎◌, inl, inr, none, some, Bool-cases,
}
use emos.Status.{Status}
use emos.Run.{ok}
use emos.Pma.Packed.{cell, pbm_free, pbm_allocated}
use emos.Pma.Valid.{IsValid}
use emos.Pma.{Pma, allocate_frame, free_frame}
use emos.Pma.Search.{NoRun}
use emos.Pma.Allocate.{Allocated, Grants, Refuses, allocate_frame-first-fit}
use emos.Pma.Free.{InUse, free_frame-Given}

-- The descriptor of a frame of the window holds this value.
unfoldable pub has_cell : (value : ℕ) → Pma → (pfn : ℕ) → Bool
has_cell value p pfn =
    leb p.base_pfn pfn
    && ltb pfn (p.base_pfn + p.frame_desc_count)
    && cell p.bitmap (pfn - p.base_pfn) == value

abbrev pub is_free : Pma → ℕ → Bool
is_free = has_cell pbm_free

abbrev pub is_allocated : Pma → ℕ → Bool
is_allocated = has_cell pbm_allocated

-- `p'` is `p` with the frame `pfn` allocated.
pub record Takes (p : Pma) (pfn : ℕ) (p' : Pma) : Type 0 where
  pub runs : allocate_frame 1 p ≡ ok (Status.success, some pfn, p')
  pub valid : IsValid p'
  pub was_free : is_free p pfn ≡ true
  pub small : pfn < 2 ^ 20
  pub free : (g : ℕ) → is_free p' g ≡ (if g == pfn then false else is_free p g)
  pub allocated : (g : ℕ) → is_allocated p' g ≡ (if g == pfn then true else is_allocated p g)

Allocated-Takes :
    {p : Pma} (pfn : ℕ) {p' : Pma}
    → IsValid p
    → allocate_frame 1 p ≡ ok (Status.success, some pfn, p')
    → Allocated p 1 pfn p'
    → Takes p pfn p'
unfolding has_cell
Allocated-Takes {p} pfn {p'} v e a =
    let b = a.becomes in
    let usable = a.usable (pfn - p.base_pfn) (omega arith) (omega arith) in
    record {
      runs = e;
      valid = b.valid;
      was_free = ground (arith, usable.is_free, a.above, a.below, v.window);
      small = omega (arith, a.below, v.small);
      free = λ g.
          ground (
            arith,
            b.cells (g - p.base_pfn),
            b.same_base,
            b.same_count,
            a.above,
            a.below,
            v.window,
          );
      allocated = λ g.
          ground (
            arith,
            b.cells (g - p.base_pfn),
            b.same_base,
            b.same_count,
            a.above,
            a.below,
            v.window,
          );
    }

-- No frame above the first megabyte is free.
abbrev pub IsExhausted : Pma → Type 0
IsExhausted p =
    (g : ℕ) → p.base_pfn ≤ g → g < p.base_pfn + p.frame_desc_count → 0x100 ≤ g → is_free p g ≡ false

not_usable :
    (p : Pma) (g : ℕ)
    → p.base_pfn ≤ g
    → g < p.base_pfn + p.frame_desc_count
    → 0x100 ≤ g
    → NoRun p 1 p.frame_desc_count
    → is_free p g ≡ false
unfolding has_cell
not_usable p g low high above none_free = elim (Bool-cases (is_free p g)) [
  | inr busy ↦ busy
  | inl free ↦ absurd (
      none_free (g - p.base_pfn) (omega arith) (λ j a b.
        let at : j ≡ g - p.base_pfn = omega arith in
        rw at (record { is_free = ground arith; high = omega arith })))
]

-- One frame is granted, or there is none and nothing changes.
pub allocate_frame-one :
    (p : Pma)
    → IsValid p
    → ((pfn : ℕ) × (p' : Pma) × Takes p pfn p')
      ⊎ ((allocate_frame 1 p ≡ ok (Status.insufficient_memory, none, p)) × IsExhausted p)
unfolding Grants Refuses
allocate_frame-one p v = elim (allocate_frame-first-fit p 1 v (omega arith)) [
  | inl (pfn, p', e, a) ↦ inl (pfn, p', Allocated-Takes pfn v e a)
  | inr (e, none_free) ↦ inr (e, λ g low high above. not_usable p g low high above none_free)
]

allocated_cell :
    (p : Pma) (pfn j : ℕ)
    → is_allocated p pfn ≡ true
    → pfn - p.base_pfn ≤ j
    → j < pfn - p.base_pfn + 1
    → cell p.bitmap j ≡ pbm_allocated
unfolding has_cell
allocated_cell p pfn j u a b =
    let at : j ≡ pfn - p.base_pfn = omega arith in rw at (ground (arith, u))

-- A frame that is allocated can be given back.
pub free_frame-one :
    (p : Pma) (pfn : ℕ)
    → IsValid p
    → is_allocated p pfn ≡ true
    → (p' : Pma) × (free_frame pfn 1 p ≡ ok p')
      × IsValid p'
      × ((g : ℕ) → is_free p' g ≡ (if g == pfn then true else is_free p g))
      × ((g : ℕ) → is_allocated p' g ≡ (if g == pfn then false else is_allocated p g))
unfolding has_cell
free_frame-one p pfn v u =
    let used : InUse p pfn 1 = record {
      above = ground arith;
      below = ground (arith, v.window);
      all = λ j a b. ground (arith, allocated_cell p pfn j u (omega arith) (omega arith));
    } in
    let (p', e, g) = free_frame-Given pfn 1 v used in
    let b = g.becomes in
    (
      p',
      e,
      b.valid,
      λ h. ground (
        arith,
        b.cells (h - p.base_pfn),
        b.same_base,
        b.same_count,
        used.above,
        used.below,
        v.window,
      ),
      λ h. ground (
        arith,
        b.cells (h - p.base_pfn),
        b.same_base,
        b.same_count,
        used.above,
        used.below,
        v.window,
      ),
    )
