-- ===== src/Fat/Write12.antt =====
-- write_fat_entry12: the two bytes that it changes.
use emos.Base.{
  ℕ, ◌+◌, ◌-◌, ◌/◌, ◌%◌, ◌≤◌, ◌<◌, ◌≡◌, refl, Bool, true, arith, ◌==◌, if◌then◌else◌, ltb-false,
  leb-false, ==-true, ==-false, inl, inr, ℕ_discrete,
}
use emos.Base.Int.{pos}
use emos.Status.{Status}
use emos.Fat.Block.{Block, Sector}
use emos.Fat.Volume.{
  Volume, fat_sector, low12, high12, is_odd, fat12_max_cluster, fat12_end_cluster, write_bytes12,
  write_fat_entry12, put,
}
use emos.Fat.Bytes.{
  IsTable, IsReadable, byte_at, table_size, table_reply, sector_of, got-sector_of, sector_in,
  next_inside, next_across, last_or_not, byte-injective, IsReadable-release, byte_at-release,
}
use emos.Fat.Read12.{byte_of}

module _ (B : Block) (v : Volume) (n : ℕ) (d : B.Dev) (k x : ℕ) (odd : Bool) where
  open B use {Dev}

  -- The byte `j` of the table after a write of `x` at the byte `k`.
  abbrev pub patched : ℕ → ℕ
  patched j =
      if k == j
      then low12 odd x (byte_at B v n d k)
      else if k + 1 == j
      then high12 odd x (byte_at B v n d (k + 1))
      else byte_at B v n d j

  -- A successful write at the byte `k`: exactly these two bytes of the table changed.
  pub record Patched (r : Status × Dev) : Type 0 where
    pub done : r.0 ≡ Status.success
    pub readable : IsReadable B v n r.1
    pub bytes : (j : ℕ) → j < table_size v → byte_at B v n r.1 j ≡ patched j

-- The same on rows of bytes: `rows s i` is the byte `i` of the sector `s`.
module _ {v : Volume} {n : ℕ} (t : IsTable v n) (rows : ℕ → Sector) (lo hi : ℕ → ℕ) (k j : ℕ) where
  abbrev row : ℕ → ℕ
  row i = i / v.sector_size

  abbrev place : ℕ → ℕ
  place i = i % v.sector_size

  abbrev wanted : ℕ
  wanted =
      if k == j
      then lo (rows (row k) (place k))
      else if k + 1 == j
      then hi (rows (row (k + 1)) (place (k + 1)))
      else rows (row j) (place j)

  patch_inside :
      place k < v.sector_size - 1
      → (if row k == row j
          then (let b1 : Sector =
                put (rows (row k)) (place k + 1) (hi (rows (row k) (place k + 1))) in
              put b1 (place k) (lo (b1 (place k))) (place j))
          else rows (row j) (place j))
        ≡ wanted
  patch_inside h =
      let (e, e') = next_inside t k h in
      elim (ℕ_discrete k j) [
        | yes q ↦ rw (← q) (ground arith)
        | no nq ↦ elim (ℕ_discrete (k + 1) j) [
          | yes q ↦ rw (← q) (rw (e, e') (ground arith))
          | no nq' ↦ ground (arith, byte-injective t k j, byte-injective t (k + 1) j, e, e')
        ]
      ]

  patch_across :
      place k ≡ v.sector_size - 1
      → (if row k == row j
          then put (rows (row k)) (place k) (lo (rows (row k) (place k))) (place j)
          else if row k + 1 == row j
          then put (rows (row k + 1)) 0 (hi (rows (row k + 1) 0)) (place j)
          else rows (row j) (place j))
        ≡ wanted
  patch_across h =
      let (e, e') = next_across t k h in
      elim (ℕ_discrete k j) [
        | yes q ↦ rw (← q) (ground arith)
        | no nq ↦ elim (ℕ_discrete (k + 1) j) [
          | yes q ↦ rw (← q) (rw (e, e') (ground arith))
          | no nq' ↦ ground (arith, byte-injective t k j, byte-injective t (k + 1) j, e, e')
        ]
      ]

module _ (B : Block) {v : Volume} {n : ℕ} (t : IsTable v n) (d : B.Dev)
    (ok : IsReadable B v n d) where
  open B use {Dev, reply, fetched, release, reply-fetched}

  abbrev fetched_at : ℕ → Dev
  fetched_at s = fetched d (fat_sector v (pos n) s)

  IsReadable-fetched : (s : ℕ) → IsReadable B v n (fetched_at s)
  IsReadable-fetched s m l = rw reply-fetched (ok m l)

  -- Both bytes in one sector.
  write_inside :
      (entry x : ℕ)
      → byte_of entry + 1 < table_size v
      → byte_of entry % v.sector_size < v.sector_size - 1
      → Patched B v n d (byte_of entry) x (is_odd entry) (
          write_bytes12 B v
            (pos n)
            entry
            x
            (byte_of entry / v.sector_size)
            (byte_of entry % v.sector_size)
            (sector_of (table_reply B v n d (byte_of entry / v.sector_size)))
            (fetched_at (byte_of entry / v.sector_size)))
  unfolding write_bytes12
  write_inside entry x inside h =
      let k : ℕ = byte_of entry in
      let s : ℕ = k / v.sector_size in
      let l = sector_in t k (omega arith) in
      rw (==-false (k % v.sector_size) (v.sector_size - 1) (λ e. omega arith)) (record {
        done = refl;
        readable = IsReadable-release B t (fetched_at s) s _ l (IsReadable-fetched s);
        bytes = λ j p.
            rw (byte_at-release B t (fetched_at s) s _ l (IsReadable-fetched s) j p, reply-fetched)
              (patch_inside t (λ i. sector_of (table_reply B v n d i)) (low12 (is_odd entry) x)
                (high12 (is_odd entry) x) k j h);
      })

  -- The two bytes in two sectors.
  write_across :
      (entry x : ℕ)
      → byte_of entry + 1 < table_size v
      → byte_of entry % v.sector_size ≡ v.sector_size - 1
      → Patched B v n d (byte_of entry) x (is_odd entry) (
          write_bytes12 B v
            (pos n)
            entry
            x
            (byte_of entry / v.sector_size)
            (byte_of entry % v.sector_size)
            (sector_of (table_reply B v n d (byte_of entry / v.sector_size)))
            (fetched_at (byte_of entry / v.sector_size)))
  unfolding write_bytes12
  write_across entry x inside h =
      let k : ℕ = byte_of entry in
      let s : ℕ = k / v.sector_size in
      let l = sector_in t k (omega arith) in
      let l' : s + 1 < v.fat_size =
        omega (arith, sector_in t (k + 1) inside, (next_across t k h).0) in
      let d'' = fetched (fetched_at s) (fat_sector v (pos n) (s + 1)) in
      let ok'' : IsReadable B v n d'' = λ m q. rw (reply-fetched, reply-fetched) (ok m q) in
      let b' : Sector = sector_of (table_reply B v n d (s + 1)) in
      let nb' : Sector = put b' 0 (high12 (is_odd entry) x (b' 0)) in
      let d1 = release d'' (fat_sector v (pos n) (s + 1)) nb' true in
      let ok1 = IsReadable-release B t d'' (s + 1) nb' l' ok'' in
      rw
        (
          ==-true (k % v.sector_size) (v.sector_size - 1) h,
          reply-fetched,
          got-sector_of _ (ok (s + 1) l'),
        )
        (record {
          done = refl;
          readable = IsReadable-release B t d1 s _ l ok1;
          bytes = λ j p.
              rw
                (
                  byte_at-release B t d1 s _ l ok1 j p,
                  byte_at-release B t d'' (s + 1) nb' l' ok'' j p,
                  reply-fetched,
                  reply-fetched,
                )
                (patch_across t (λ i. sector_of (table_reply B v n d i)) (low12 (is_odd entry) x)
                  (high12 (is_odd entry) x) k j h);
        })

  -- For a table whose sectors can all be fetched, an entry that lies in it and a value of 12 bits,
  -- `write_fat_entry12` succeeds, and of the bytes of the table exactly the two of the entry change,
  -- also where they lie in different sectors.
  pub write_fat_entry12-Patched :
      (entry x : ℕ)
      → entry ≤ fat12_max_cluster
      → x ≤ fat12_end_cluster
      → byte_of entry + 1 < table_size v
      → Patched B v n d (byte_of entry) x (is_odd entry) (write_fat_entry12 B v (pos n) entry x d)
  unfolding write_fat_entry12
  write_fat_entry12-Patched entry x small fits inside =
      let here = ok (byte_of entry / v.sector_size) (sector_in t (byte_of entry) (omega arith)) in
      rw
        (
          ltb-false fat12_end_cluster x (omega arith),
          ltb-false fat12_max_cluster entry (omega arith),
          leb-false v.fat_count n (omega (arith, t.listed)),
          got-sector_of _ here,
        )
        (elim (last_or_not t (byte_of entry)) [
          | inl h ↦ write_inside entry x inside h
          | inr h ↦ write_across entry x inside h
        ])
