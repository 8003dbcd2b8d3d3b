-- ===== src/Pma/Search.antt =====
-- The search of mm_pma_allocate_frame: it stops at the first run of enough free frames, and when it
-- does not stop there is none.
use emos.Base.{ℕ, ◌+◌, ◌≤◌, ◌<◌, ◌≡◌, refl, arith, ℕ_discrete, ◌≢◌, dec_le}
use emos.Pma.Packed.{cell, pbm_free}
use emos.Pma.{Pma, Found, Round, next, stop, lengthen}

-- A frame that the allocator may hand out: free, and not in the first megabyte.
pub record Usable (st : Pma) (j : ℕ) : Type 0 where
  pub is_free : cell st.bitmap j ≡ pbm_free
  pub high : 0x100 ≤ st.base_pfn + j

-- All of the `n` frames from `s` on can be handed out.
abbrev pub IsFreeRun : Pma → (s n : ℕ) → Type 0
IsFreeRun st s n = (j : ℕ) → s ≤ j → j < s + n → Usable st j

-- What the search knows before it looks at index `i`.
pub record Seen (st : Pma) (i : ℕ) (s : Found) : Type 0 where
  pub ends : s.free_count ≢ 0 → s.start + s.free_count ≡ i
  pub run : s.free_count ≢ 0 → IsFreeRun st s.start s.free_count
  -- no usable run that ends before `i` is longer
  pub tight : (t : ℕ) → t ≤ i → ((j : ℕ) → t ≤ j → j < i → Usable st j) → i ≤ t + s.free_count

-- No run of `count` usable frames ends at or before `i`.
abbrev pub NoRun : Pma → (count i : ℕ) → Type 0
NoRun st count i = (t : ℕ) → t + count ≤ i → ¬ IsFreeRun st t count

-- A usable frame lengthens the run.
pub Seen-lengthen :
    {st : Pma} {i : ℕ} {s : Found} → Seen st i s → Usable st i → Seen st (i + 1) (lengthen i s)
Seen-lengthen {st} {i} {s} h u = record {
  ends = λ p. ground (arith, h.ends);
  run = λ p j a b. elim (ℕ_discrete j i) [
    | yes e ↦ rw e u
    | no ne ↦ h.run (ground (arith, h.ends)) j (ground (arith, h.ends)) (ground (arith, h.ends))
  ];
  tight = λ t a f. elim (ℕ_discrete t (i + 1)) [
    | yes e ↦ omega arith
    | no ne ↦ omega (arith, h.tight t (omega arith) (λ j p q. f j p (omega arith)))
  ];
}

-- A frame that is not usable ends the run.
pub Seen-reset :
    {st : Pma} {i : ℕ} {s : Found}
    → Seen st i s
    → ¬ Usable st i
    → Seen st (i + 1) (record s { free_count = 0 })
Seen-reset {st} {i} {s} h nu = record {
  ends = λ p. absurd (p refl);
  run = λ p. absurd (p refl);
  tight = λ t a f. elim (ℕ_discrete t (i + 1)) [
    | yes e ↦ omega arith
    | no ne ↦ absurd (nu (f i (omega arith) (omega arith)))
  ];
}

-- In the first megabyte no run has begun.
pub Seen-low :
    {st : Pma} {i : ℕ} {s : Found} → Seen st i s → st.base_pfn + i < 0x100 → Seen st (i + 1) s
Seen-low {st} {i} {s} h low = record {
  ends = λ p. absurd (none_begun p);
  run = λ p. absurd (none_begun p);
  tight = λ t a f. elim (ℕ_discrete t (i + 1)) [
    | yes e ↦ omega arith
    | no ne ↦ absurd (omega (arith, (f i (omega arith) (omega arith)).high))
  ];
}
  where
    none_begun : s.free_count ≢ 0 → ⊥
    none_begun p = omega (arith, h.ends p, (h.run p s.start (omega arith) (omega arith)).high)

-- What a finished search has found: the lowest run of `count` usable frames, or that there is none.
pub record Hit (st : Pma) (count : ℕ) (s : Found) : Type 0 where
  pub exact : s.free_count ≡ count
  pub inside : s.start + count ≤ st.frame_desc_count
  pub usable : IsFreeRun st s.start count
  pub lowest : (t : ℕ) → t + count ≤ st.frame_desc_count → IsFreeRun st t count → s.start ≤ t

pub record Miss (st : Pma) (count : ℕ) (s : Found) : Type 0 where
  pub short : s.free_count < count
  pub none_usable : NoRun st count st.frame_desc_count

-- What a loop that has come to index `i` without stopping carries along.
pub record Going (st : Pma) (count i : ℕ) (s : Found) : Type 0 where
  pub seen : Seen st i s
  pub short : s.free_count < count
  pub no_run : NoRun st count i

-- A round ends in one of two ways.
unfoldable pub RoundEnd : Pma → (count i : ℕ) → Round → Type 0
RoundEnd st count i (next s) = Going st count (i + 1) s
RoundEnd st count i (stop s) = Hit st count s

module _ {st : Pma} (count i : ℕ) {s : Found} (g : Going st count i s) where
  pub next-Going :
      (s' : Found) → Seen st (i + 1) s' → s'.free_count < count → Going st count (i + 1) s'
  next-Going s' h c = record {
    seen = h;
    short = c;
    no_run = λ t l r. elim (dec_le (t + count) i) [
      | yes a ↦ g.no_run t a r
      | no a ↦ omega (arith, h.tight t (omega arith) (λ j p q. r j p (omega arith)))
    ];
  }

  pub stop-Hit :
      i < st.frame_desc_count → Usable st i → count ≤ s.free_count + 1 → Hit st count (lengthen i s)
  stop-Hit l u c =
      let h = Seen-lengthen g.seen u in
      record {
        exact = omega (arith, g.short);
        inside = ground (arith, h.ends, g.short);
        usable = λ j a b. h.run (omega arith) j a (omega (arith, g.short));
        lowest = λ t a r. elim (dec_le (t + count) i) [
          | yes p ↦ absurd (g.no_run t p r)
          | no p ↦ ground (arith, h.ends, g.short)
        ];
      }
