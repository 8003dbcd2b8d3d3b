-- ===== src/BootFat/Chain.antt =====
-- Chains of clusters, on a disk of which every sector can be read.
use emos.Base.{
  ℕ, zero, suc, ◌+◌, ◌-◌, ◌*◌, ◌/◌, ◌%◌, ◌^◌, ◌≤◌, ◌<◌, ◌≡◌, refl, ap, false, Option, some, ◌==◌,
  ==-false, ==-true, ltb, ltb-true, ltb-false, if◌then◌else◌, arith, dec_lt, ℕ_discrete,
}
use emos.Status.{Status}
use emos.Ends.{done}
use emos.BootFat.{
  FatType, FatData, max_cluster, entry12, Arrival, read_fat, second_byte, next12, next16, next32,
  next_of, divisor, walk_loop, get_next_cluster,
}

-- The bytes from the sector `lba` on.
abbrev pub bytes_at : (byte : ℕ → ℕ) → (lba : ℕ) → ℕ → ℕ
bytes_at byte lba i = byte (lba * 512 + i)

-- Every read succeeds, and gives the bytes of the disk from the sector `lba` on; how many of them come
-- into a buffer is said by `fill_fat` and `fill_data`.
abbrev pub reads : (byte : ℕ → ℕ) → (lba count : ℕ) → Option (ℕ → ℕ)
reads byte lba count = some (bytes_at byte lba)

-- The file system with these buffers, the sector of the table being what the disk has there.
abbrev pub loaded : (byte : ℕ → ℕ) → FatData → (fat_lba data_lba : ℕ) → (ℕ → ℕ) → FatData
loaded byte fs fat_lba data_lba databuf = record fs {
  fatbuf_lba = fat_lba;
  fatbuf = bytes_at byte fat_lba;
  databuf_lba_start = data_lba;
  databuf = databuf;
}

-- A byte of the table.
abbrev pub table : (byte : ℕ → ℕ) → FatData → (k : ℕ) → ℕ
table byte fs k = byte (fs.reserved_sectors * 512 + k)

-- The entry of a cluster in the table: of two 12-bit entries, the 24 bits of three bytes are made.
abbrev pub link_entry : FatType → (ℕ → ℕ) → (cluster : ℕ) → ℕ
link_entry FatType.fat12 t c =
    (t (c / 2 * 3) + t (c / 2 * 3 + 1) * 2 ^ 8 + t (c / 2 * 3 + 2) * 2 ^ 16) / 4096 ^ (c % 2) % 4096
link_entry FatType.fat16 t c = t (c * 2) + t (c * 2 + 1) * 256
link_entry FatType.fat32 t c =
    t (c * 4) + t (c * 4 + 1) * 256 + t (c * 4 + 2) * 65536 + t (c * 4 + 3) % 16 * 16777216

abbrev pub link : (byte : ℕ → ℕ) → FatData → (cluster : ℕ) → ℕ
link byte fs c = link_entry fs.fat_type (table byte fs) c

-- The chain from a cluster on, with `count` links.
unfoldable pub chain : (next : ℕ → ℕ) → (max count cluster : ℕ) → Arrival
chain next max zero c = Arrival.at c
chain next max (suc n) c =
    if ltb max (next c) then Arrival.end_of_list (next c) else chain next max n (next c)

entry12-even :
    (c b0 b1 b2 : ℕ)
    → c % 2 ≡ 0
    → b0 < 256
    → b1 < 256
    → entry12 c b0 b1 ≡ (b0 + b1 * 2 ^ 8 + b2 * 2 ^ 16) / 4096 ^ (c % 2) % 4096
entry12-even c b0 b1 b2 even h0 h1 = rw even (omega arith)

entry12-odd :
    (c b0 b1 b2 : ℕ)
    → c % 2 ≡ 1
    → b0 < 256
    → b1 < 256
    → b2 < 256
    → entry12 c b1 b2 ≡ (b0 + b1 * 2 ^ 8 + b2 * 2 ^ 16) / 4096 ^ (c % 2) % 4096
entry12-odd c b0 b1 b2 odd h0 h1 h2 = rw odd (omega arith)

module _ (byte : ℕ → ℕ) (bytes : (k : ℕ) → byte k < 256) (broken : Status) (fs : FatData)
    (size : fs.sector_size ≡ 512) where
  entry12-table :
      (c : ℕ)
      → entry12 c (table byte fs (c + c / 2)) (table byte fs (c + c / 2 + 1))
        ≡ link_entry FatType.fat12 (table byte fs) c
  entry12-table c = elim (ℕ_discrete (c % 2) 0) [
    | yes even ↦
        let first : c + c / 2 ≡ c / 2 * 3 = omega arith in
        rw first (entry12-even c _ _ _ even (bytes _) (bytes _))
    | no n ↦
        let odd : c % 2 ≡ 1 = omega arith in
        let first : c + c / 2 ≡ c / 2 * 3 + 1 = omega arith in
        let second : c / 2 * 3 + 1 + 1 ≡ c / 2 * 3 + 2 = omega arith in
        rw (first, second) (entry12-odd c _ _ _ odd (bytes _) (bytes _) (bytes _))
  ]

  read_fat-loaded :
      (k l m : ℕ) (db : ℕ → ℕ)
      → read_fat (reads byte) broken k (loaded byte fs l m db)
        ≡ done tt (loaded byte fs (fs.reserved_sectors + k) m db)
  unfolding read_fat
  read_fat-loaded k l m db = elim (ℕ_discrete l (fs.reserved_sectors + k)) [
    | yes e ↦ rw (e, ==-true (fs.reserved_sectors + k) (fs.reserved_sectors + k) refl) refl
    | no n ↦ rw (==-false l (fs.reserved_sectors + k) n) refl
  ]

  -- A byte of the sector that was read, as one of the table.
  in_table :
      (k i j : ℕ) → k * 512 + i ≡ j → bytes_at byte (fs.reserved_sectors + k) i ≡ table byte fs j
  in_table k i j e = ap byte (omega arith)

  next16-link :
      (c l m : ℕ) (db : ℕ → ℕ)
      → next16 (reads byte) broken c (loaded byte fs l m db)
        ≡ done
            (link_entry FatType.fat16 (table byte fs) c)
            (loaded byte fs (fs.reserved_sectors + c / 256) m db)
  unfolding next16
  next16-link c l m db =
      let entries : fs.sector_size / 2 ≡ 256 = omega (arith, size) in
      rw
        (
          entries,
          read_fat-loaded (c / 256) l m db,
          ltb-true (c % 256 * 2) 512 (omega arith),
          ltb-true (c % 256 * 2 + 1) 512 (omega arith),
          in_table (c / 256) (c % 256 * 2) (c * 2) (omega arith),
          in_table (c / 256) (c % 256 * 2 + 1) (c * 2 + 1) (omega arith),
        )
        refl

  next32-link :
      (c l m : ℕ) (db : ℕ → ℕ)
      → next32 (reads byte) broken c (loaded byte fs l m db)
        ≡ done
            (link_entry FatType.fat32 (table byte fs) c)
            (loaded byte fs (fs.reserved_sectors + c / 128) m db)
  unfolding next32
  next32-link c l m db =
      let entries : fs.sector_size / 4 ≡ 128 = omega (arith, size) in
      rw
        (
          entries,
          read_fat-loaded (c / 128) l m db,
          ltb-true (c % 128 * 4) 512 (omega arith),
          ltb-true (c % 128 * 4 + 1) 512 (omega arith),
          ltb-true (c % 128 * 4 + 2) 512 (omega arith),
          ltb-true (c % 128 * 4 + 3) 512 (omega arith),
          in_table (c / 128) (c % 128 * 4) (c * 4) (omega arith),
          in_table (c / 128) (c % 128 * 4 + 1) (c * 4 + 1) (omega arith),
          in_table (c / 128) (c % 128 * 4 + 2) (c * 4 + 2) (omega arith),
          in_table (c / 128) (c % 128 * 4 + 3) (c * 4 + 3) (omega arith),
        )
        refl

  -- The second byte of a 12-bit entry, in the same sector or in the next one.
  second_byte-table :
      (k m : ℕ) (db : ℕ → ℕ)
      → (l : ℕ) × (second_byte
            (reads byte)
            broken
            (k / 512)
            (k % 512)
            (loaded byte fs (fs.reserved_sectors + k / 512) m db)
          ≡ done (table byte fs (k + 1)) (loaded byte fs l m db))
  unfolding second_byte
  second_byte-table k m db = elim (ℕ_discrete (k % 512) (fs.sector_size - 1)) [
    | yes e ↦ (
      fs.reserved_sectors + (k / 512 + 1),
      rw
          (
            ==-true (k % 512) (fs.sector_size - 1) e,
            read_fat-loaded (k / 512 + 1) (fs.reserved_sectors + k / 512) m db,
            in_table (k / 512 + 1) 0 (k + 1) (omega (arith, size)),
          )
          refl,
    )
    | no n ↦ (
      fs.reserved_sectors + k / 512,
      rw
          (
            ==-false (k % 512) (fs.sector_size - 1) n,
            ltb-true (k % 512 + 1) 512 (omega (arith, size)),
            in_table (k / 512) (k % 512 + 1) (k + 1) (omega arith),
          )
          refl,
    )
  ]

  next12-link :
      (c l m : ℕ) (db : ℕ → ℕ)
      → c ≤ 0xff4
      → (l' : ℕ) × (next12 (reads byte) broken c (loaded byte fs l m db)
          ≡ done (link_entry FatType.fat12 (table byte fs) c) (loaded byte fs l' m db))
  unfolding next12
  next12-link c l m db h =
      let small : (c + c / 2) % 2 ^ 16 ≡ c + c / 2 = omega arith in
      let second = second_byte-table (c + c / 2) m db in
      let sector = ap (λ (s : ℕ). (c + c / 2) / s) size in
      let place = ap (λ (s : ℕ). (c + c / 2) % s) size in
      (
        second.0,
        rw
            (
              small,
              sector,
              place,
              read_fat-loaded ((c + c / 2) / 512) l m db,
              ltb-true ((c + c / 2) % 512) 512 (omega arith),
              in_table ((c + c / 2) / 512) ((c + c / 2) % 512) (c + c / 2) (omega arith),
              second.1,
              entry12-table c,
            )
            refl,
      )

  next_of-link :
      (c l m : ℕ) (db : ℕ → ℕ)
      → c ≤ max_cluster fs.fat_type
      → (l' : ℕ) × (next_of (reads byte) broken fs.fat_type c (loaded byte fs l m db)
          ≡ done (link byte fs c) (loaded byte fs l' m db))
  next_of-link c l m db h = by_type fs.fat_type h
    where
      by_type :
          (ft : FatType)
          → c ≤ max_cluster ft
          → (l' : ℕ) × (next_of (reads byte) broken ft c (loaded byte fs l m db)
              ≡ done (link_entry ft (table byte fs) c) (loaded byte fs l' m db))
      by_type FatType.fat12 h' = next12-link c l m db h'
      by_type FatType.fat16 h' = (fs.reserved_sectors + c / 256, next16-link c l m db)
      by_type FatType.fat32 h' = (fs.reserved_sectors + c / 128, next32-link c l m db)

  divisor-pos : (divisor (reads byte) broken fs.fat_type fs.sector_size == 0) ≡ false
  divisor-pos = by_type fs.fat_type
    where
      by_type : (ft : FatType) → (divisor (reads byte) broken ft fs.sector_size == 0) ≡ false
      by_type FatType.fat12 = ==-false _ _ (omega (arith, size))
      by_type FatType.fat16 = ==-false _ _ (omega (arith, size))
      by_type FatType.fat32 = ==-false _ _ (omega (arith, size))

  walk_loop-chain :
      (n c l m : ℕ) (db : ℕ → ℕ)
      → c ≤ max_cluster fs.fat_type
      → (l' : ℕ) × (walk_loop (reads byte) broken n c (loaded byte fs l m db)
          ≡ done (chain (link byte fs) (max_cluster fs.fat_type) n c) (loaded byte fs l' m db))
  unfolding walk_loop chain
  walk_loop-chain zero c l m db h = (l, refl)
  walk_loop-chain (suc n) c l m db h =
      let step = next_of-link c l m db h in
      elim (dec_lt (max_cluster fs.fat_type) (link byte fs c)) [
        | yes over ↦ (
          step.0,
          rw (divisor-pos, step.1, ltb-true (max_cluster fs.fat_type) (link byte fs c) over) refl,
        )
        | no inside ↦
            let rest = walk_loop-chain n (link byte fs c) step.0 m db (omega arith) in
            (
              rest.0,
              rw (divisor-pos, step.1, ltb-false (max_cluster fs.fat_type) (link byte fs c) inside)
                  rest.1,
            )
      ]

  -- On a disk of bytes of which every sector can be read, with sectors of 512 bytes, and whatever sector of
  -- the table is in the buffer, get_next_cluster returns where the chain of the entries of the table
  -- comes to from a cluster that the type of the table has, at a cluster or at the end of the list,
  -- and changes only the buffer of the table.
  pub get_next_cluster-chain :
      (n c l m : ℕ) (db : ℕ → ℕ)
      → c ≤ max_cluster fs.fat_type
      → (l' : ℕ) × (get_next_cluster (reads byte) broken c n (loaded byte fs l m db)
          ≡ done (chain (link byte fs) (max_cluster fs.fat_type) n c) (loaded byte fs l' m db))
  unfolding get_next_cluster
  get_next_cluster-chain n c l m db h =
      let walked = walk_loop-chain n c l m db h in
      (walked.0, rw (ltb-false (max_cluster fs.fat_type) c (omega arith)) walked.1)
