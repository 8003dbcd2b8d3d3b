-- ===== src/Fat/Read12.antt =====
-- read_fat_entry12: the two bytes that it reads, and what it refuses.
use emos.Base.{
  ℕ, ◌+◌, ◌-◌, ◌/◌, ◌%◌, ◌≤◌, ◌<◌, ◌≡◌, Bool, true, arith, ltb-true, ltb-false, leb-false, inl, inr,
}
use emos.Base.Int.{pos}
use emos.Fat.Block.{Block, Sector, is_got}
use emos.Fat.Volume.{
  Volume, value, fat_sector, decode12, is_odd, fat12_max_cluster, read_tail12, read_fat_entry12,
}
use emos.Fat.Bytes.{
  IsTable, IsReadable, byte_at, table_size, table_reply, sector_of, got-sector_of, sector_in,
  next_inside, next_across, last_or_not,
}

-- The first byte of an entry.
abbrev pub byte_of : ℕ → ℕ
byte_of entry = entry + entry / 2

module _ (B : Block) {v : Volume} {n : ℕ} (t : IsTable v n) (d : B.Dev) where
  open B use {Dev, reply, fetched, release, reply-fetched}

  read_inside :
      (entry : ℕ)
      → entry ≤ fat12_max_cluster
      → is_got (table_reply B v n d (byte_of entry / v.sector_size)) ≡ true
      → byte_of entry % v.sector_size < v.sector_size - 1
      → (read_fat_entry12 B v (pos n) entry d).0
        ≡ value (
            decode12
              (is_odd entry)
              (byte_at B v n d (byte_of entry))
              (byte_at B v n d (byte_of entry + 1)))
  unfolding read_fat_entry12
  read_inside entry small r h =
      let (e, e') = next_inside t (byte_of entry) h in
      rw (
        ltb-false fat12_max_cluster entry (omega arith),
        leb-false v.fat_count n (omega (arith, t.listed)),
        got-sector_of _ r,
        ltb-true _ _ h,
        e,
        e',
      )

  -- The second half of the read, whose sector can be fetched.
  read_tail :
      (s lo : ℕ) (odd : Bool) (first : Sector) (d' : Dev)
      → ((m : ℕ) → reply d' m ≡ reply d m)
      → is_got (table_reply B v n d (s + 1)) ≡ true
      → (read_tail12 B v (pos n) s odd first lo d').0
        ≡ value (decode12 odd lo (sector_of (table_reply B v n d (s + 1)) 0))
  unfolding read_tail12
  read_tail s lo odd first d' same r =
      rw (same (fat_sector v (pos n) (s + 1)), got-sector_of _ r, read_tail12)

  read_across :
      (entry : ℕ)
      → entry ≤ fat12_max_cluster
      → is_got (table_reply B v n d (byte_of entry / v.sector_size)) ≡ true
      → is_got (table_reply B v n d (byte_of entry / v.sector_size + 1)) ≡ true
      → byte_of entry % v.sector_size ≡ v.sector_size - 1
      → (read_fat_entry12 B v (pos n) entry d).0
        ≡ value (
            decode12
              (is_odd entry)
              (byte_at B v n d (byte_of entry))
              (byte_at B v n d (byte_of entry + 1)))
  unfolding read_fat_entry12
  read_across entry small r r' h =
      let (e, e') = next_across t (byte_of entry) h in
      rw
        (
          ltb-false fat12_max_cluster entry (omega arith),
          leb-false v.fat_count n (omega (arith, t.listed)),
          got-sector_of _ r,
          ltb-false (byte_of entry % v.sector_size) (v.sector_size - 1) (omega arith),
          e,
          e',
        )
        (read_tail _ _ _ _ _ (reply-fetched d _) r')

  -- For a table whose sectors can all be fetched and an entry that lies in it, `read_fat_entry12`
  -- returns the 12 bits of the two bytes of the table at the entry, also where they lie in
  -- different sectors.
  pub read_fat_entry12-decode12 :
      (entry : ℕ)
      → IsReadable B v n d
      → entry ≤ fat12_max_cluster
      → byte_of entry + 1 < table_size v
      → (read_fat_entry12 B v (pos n) entry d).0
        ≡ value (
            decode12
              (is_odd entry)
              (byte_at B v n d (byte_of entry))
              (byte_at B v n d (byte_of entry + 1)))
  read_fat_entry12-decode12 entry ok small inside =
      let here = ok (byte_of entry / v.sector_size) (sector_in t (byte_of entry) (omega arith)) in
      elim (last_or_not t (byte_of entry)) [
        | inl h ↦ read_inside entry small here h
        | inr h ↦
            let next = sector_in t (byte_of entry + 1) inside in
            read_across entry small here
              (ok (byte_of entry / v.sector_size + 1)
                (omega (arith, (next_across t (byte_of entry) h).0)))
              h
      ]
