-- ===== src/Pma/SearchLoop.antt =====
-- The search loop as a whole: rounds from the first index to the last.
use emos.Base.{
  ℕ, zero, suc, ◌+◌, ◌≤◌, ◌<◌, ◌≡◌, refl, arith, ◌⊎◌, inl, inr, ℕ_discrete, dec_lt, dec_le,
  leb-true, leb-false, ==-false,
}
use emos.Run.{Run, ok, ◌>>=◌}
use emos.Pma.Packed.{cell, pbm_get-ok, pbm_free}
use emos.Pma.Valid.{IsValid}
use emos.Pma.{Pma, Found, Round, next, stop, search_at, search_round, search_loop, lengthen, no_run}
use emos.Pma.Search.{
  Usable, Seen-lengthen, Seen-reset, Seen-low, Going, Hit, Miss, RoundEnd, next-Going, stop-Hit,
}

module _ {st : Pma} (v : IsValid st) (count : ℕ) where
  search_at-RoundEnd :
      (i : ℕ) (s : Found)
      → i < st.frame_desc_count
      → 0x100 ≤ st.base_pfn + i
      → Going st count i s
      → RoundEnd st count i (search_at count i (cell st.bitmap i) s)
  unfolding search_at RoundEnd
  search_at-RoundEnd i s l high g = elim (ℕ_discrete (cell st.bitmap i) pbm_free) [
    | yes e ↦
        let u : Usable st i = record { is_free = e; high = high } in
        elim (dec_le count (s.free_count + 1)) [
          | yes p ↦ rw e (rw (leb-true count (s.free_count + 1) p) (stop-Hit count i g l u p))
          | no p ↦ rw e (
              rw (leb-false count (s.free_count + 1) p)
                (next-Going count i g (lengthen i s) (Seen-lengthen g.seen u) (omega arith)))
        ]
    | no ne ↦
        rw (==-false (cell st.bitmap i) pbm_free ne)
          (next-Going count i g _ (Seen-reset g.seen (λ u. ne u.is_free)) (omega (arith, g.short)))
  ]

  -- A round either goes on with what it has seen, or stops at the lowest run.
  search_round-RoundEnd :
      (i : ℕ) (s : Found)
      → i < st.frame_desc_count
      → Going st count i s
      → (r : Round) × (search_round count i st s ≡ ok r) × RoundEnd st count i r
  unfolding search_round RoundEnd
  search_round-RoundEnd i s l g = elim (dec_lt (st.base_pfn + i) 0x100) [
    | yes low ↦ (
      next s,
      ground (arith, v.window, v.small),
      next-Going count i g s (Seen-low g.seen low) g.short,
    )
    | no high ↦ (
      search_at count i (cell st.bitmap i) s,
      rw (pbm_get-ok st.bitmap i (omega (arith, v.room))) (ground (arith, v.window, v.small)),
      search_at-RoundEnd i s l (omega arith) g,
    )
  ]

  abbrev Ends : Run Found → Type 0
  Ends m = (s' : Found) × (m ≡ ok s') × (Hit st count s' ⊎ Miss st count s')

  -- What a round leaves is finished by the rounds that follow it.
  resume :
      (i : ℕ) (rest : Found → Run Found) (r : Round)
      → RoundEnd st count i r
      → ((s : Found) → Going st count (i + 1) s → Ends (rest s))
      → Ends (ok r >>= elim [ next s' ↦ rest s' | stop s' ↦ ok s' ])
  unfolding RoundEnd
  resume i rest (next s) g more = more s g
  resume i rest (stop s) h more = (s, refl, inl h)

  search_loop-from :
      (n i : ℕ) (s : Found)
      → i + n ≡ st.frame_desc_count
      → Going st count i s
      → Ends (search_loop n count i st s)
  unfolding search_loop
  search_loop-from zero i s e g = (
    s,
    refl,
    inr (record { short = g.short; none_usable = λ t l. g.no_run t (omega (arith, e)) }),
  )
  search_loop-from (suc n) i s e g =
      let (r, er, p) = search_round-RoundEnd i s (omega arith) g in
      rw er (
        resume i (search_loop n count (i + 1) st) r p
          (λ s' h. search_loop-from n (i + 1) s' (omega arith) h))

  -- The whole search.
  pub search_loop-Hit-Miss :
      0 < count
      → (s : Found) × (search_loop st.frame_desc_count count 0 st no_run ≡ ok s)
        × (Hit st count s ⊎ Miss st count s)
  search_loop-Hit-Miss pos = search_loop-from st.frame_desc_count 0 no_run (omega arith) (record {
    seen = record {
      ends = λ p. absurd (p refl);
      run = λ p. absurd (p refl);
      tight = λ t a f. omega arith;
    };
    short = pos;
    no_run = λ t l r. omega arith;
  })
