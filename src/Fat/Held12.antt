-- ===== src/Fat/Held12.antt =====
-- read_fat_entry12 and write_fat_entry12 give back every sector that they fetch, on every path.
use emos.Base.{
  ℕ, ◌+◌, ◌-◌, ◌/◌, ◌%◌, ◌≡◌, refl, Bool, true, false, arith, ltb, ◌==◌, Bool-cases, ◌⊎◌, inl, inr,
}
use emos.Base.Int.{ℤ}
use emos.Status.{Status}
use emos.Fat.Block.{Block, Sector, Reply, got, failed}
use emos.Fat.Volume.{
  Volume, fat_sector, bad_fat, fat12_max_cluster, fat12_end_cluster, read_tail12, read_fat_entry12,
  write_bytes12, write_fat_entry12,
}

module _ (B : Block) (v : Volume) (fat : ℤ) where
  open B use {Dev, reply, fetched, release, held, held-fetched, held-release, reply-fetched}

  -- A sector that is fetched and released is pinned as often as before.
  pinned_once :
      (d : Dev) (l : ℕ) (b b0 : Sector) (dirty : Bool) (m : ℕ)
      → reply d l ≡ got b0
      → held (release (fetched d l) l b dirty) m ≡ held d m
  pinned_once d l b b0 dirty m e = rw (held-release, held-fetched, e) (ground arith)

  not_pinned :
      (d : Dev) (l m : ℕ) (s : Status) → reply d l ≡ failed s → held (fetched d l) m ≡ held d m
  not_pinned d l m s e = rw (held-fetched, e) (ground arith)

  -- Two sectors, fetched one after the other and released in the other order.
  pinned_twice :
      (d : Dev) (l l' : ℕ) (b b' b0 b1 : Sector) (dirty dirty' : Bool) (m : ℕ)
      → reply d l ≡ got b0
      → reply d l' ≡ got b1
      → held (release (release (fetched (fetched d l) l') l' b' dirty') l b dirty) m ≡ held d m
  pinned_twice d l l' b b' b0 b1 dirty dirty' m e e' =
      rw (held-release, held-release, held-fetched, held-fetched, reply-fetched, e, e')
        (ground arith)

  half_pinned :
      (d : Dev) (l l' : ℕ) (b b0 : Sector) (s : Status) (dirty : Bool) (m : ℕ)
      → reply d l ≡ got b0
      → reply d l' ≡ failed s
      → held (release (fetched (fetched d l) l') l b dirty) m ≡ held d m
  half_pinned d l l' b b0 s dirty m e e' =
      rw (held-release, held-fetched, held-fetched, reply-fetched, e, e') (ground arith)

  -- The reply of a device, with its equation.
  Reply-cases : (r : Reply) → ((b : Sector) × (r ≡ got b)) ⊎ ((s : Status) × (r ≡ failed s))
  Reply-cases (got b) = inl (b, refl)
  Reply-cases (failed s) = inr (s, refl)

  tail_held :
      (s : ℕ) (odd : Bool) (b : Sector) (lo : ℕ) (d : Dev) (m : ℕ)
      → reply d (fat_sector v fat s) ≡ got b
      → held (read_tail12 B v fat s odd b lo (fetched d (fat_sector v fat s))).1 m ≡ held d m
  unfolding read_tail12
  tail_held s odd b lo d m e = elim (Reply-cases (reply d (fat_sector v fat (s + 1)))) [
    | inl (b', e') ↦ rw (reply-fetched, e', read_tail12) (pinned_twice d _ _ _ _ b b' _ _ m e e')
    | inr (st, e') ↦ rw (reply-fetched, e', read_tail12) (half_pinned d _ _ _ b st _ m e e')
  ]

  -- For every volume, table, entry and device, `read_fat_entry12` leaves each sector pinned as often
  -- as it was: on success, on a bad argument, and when either fetch fails.
  pub read_fat_entry12-held :
      (entry : ℕ) (d : Dev) (m : ℕ) → held (read_fat_entry12 B v fat entry d).1 m ≡ held d m
  unfolding read_fat_entry12
  read_fat_entry12-held entry d m = elim (Bool-cases (ltb fat12_max_cluster entry)) [
    | inl h ↦ rw h
    | inr h ↦ elim (Bool-cases (bad_fat v fat)) [
      | inl h' ↦ rw (h, h')
      | inr h' ↦
          elim (Reply-cases (reply d (fat_sector v fat ((entry + entry / 2) / v.sector_size)))) [
            | inr (s, e) ↦ rw (h, h', e) (not_pinned d _ m s e)
            | inl (b, e) ↦
                elim (Bool-cases (ltb ((entry + entry / 2) % v.sector_size) (v.sector_size - 1))) [
                  | inl k ↦ rw (h, h', e, k) (pinned_once d _ b b false m e)
                  | inr k ↦ rw (h, h', e, k) (tail_held _ _ b _ d m e)
                ]
          ]
    ]
  ]

  write_held :
      (entry x s i : ℕ) (b : Sector) (d : Dev) (m : ℕ)
      → reply d (fat_sector v fat s) ≡ got b
      → held (write_bytes12 B v fat entry x s i b (fetched d (fat_sector v fat s))).1 m ≡ held d m
  unfolding write_bytes12
  write_held entry x s i b d m e = elim (Bool-cases (i == v.sector_size - 1)) [
    | inr k ↦ rw k (pinned_once d _ _ b true m e)
    | inl k ↦ elim (Reply-cases (reply d (fat_sector v fat (s + 1)))) [
      | inl (b', e') ↦ rw (k, reply-fetched, e') (pinned_twice d _ _ _ _ b b' _ _ m e e')
      | inr (st, e') ↦ rw (k, reply-fetched, e') (half_pinned d _ _ _ b st _ m e e')
    ]
  ]

  -- For every volume, table, entry, value and device, `write_fat_entry12` leaves each sector pinned
  -- as often as it was: on success, on a bad argument, and when either fetch fails.
  pub write_fat_entry12-held :
      (entry x : ℕ) (d : Dev) (m : ℕ) → held (write_fat_entry12 B v fat entry x d).1 m ≡ held d m
  unfolding write_fat_entry12
  write_fat_entry12-held entry x d m = elim (Bool-cases (ltb fat12_end_cluster x)) [
    | inl h0 ↦ rw h0
    | inr h0 ↦ elim (Bool-cases (ltb fat12_max_cluster entry)) [
      | inl h ↦ rw (h0, h)
      | inr h ↦ elim (Bool-cases (bad_fat v fat)) [
        | inl h' ↦ rw (h0, h, h')
        | inr h' ↦
            elim (Reply-cases (reply d (fat_sector v fat ((entry + entry / 2) / v.sector_size)))) [
              | inr (s, e) ↦ rw (h0, h, h', e) (not_pinned d _ m s e)
              | inl (b, e) ↦ rw (h0, h, h', e) (write_held entry x _ _ b d m e)
            ]
      ]
    ]
  ]
