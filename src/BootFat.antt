-- ===== src/BootFat.antt =====
-- boot/filesystem/fat/fat.c: the FAT driver of the boot loader. Its block device is a parameter: the
-- bytes of `count` sectors from `lba` on, or nothing where the read fails, which leaves the buffer;
-- `broken` is the status of such a failure. Here are the table and the
-- chains of clusters; BootFat/File has the files.
pub mod File
pub mod Blocks
pub mod Chain
pub mod Content
pub mod Seek
pub mod Names
pub mod Mount
pub mod Apart
mod Tests
use emos.Base.{
  ℕ, zero, suc, ◌+◌, ◌-◌, ◌*◌, ◌/◌, ◌%◌, ◌^◌, Bool, List, [], ◌∷◌, ◌++◌, Option, none, some, ◌==◌,
  ltb, leb, min, if◌then◌else◌,
}
use emos.Base.Int.{ℤ, pos, negsuc}
use emos.Status.{Status}
use emos.Words.{add, sub, mul}
use emos.Ends.{Ended, done, fails, outside, Act, follow, ◌>>=◌, ◌>>◌, pass}

pub data FatType : Type 0 where
  fat12 fat16 fat32 : FatType

-- `struct fat_data`, with the buffers as functions from an index; the functions that it points to are
-- those of its `fat_type`.
pub record FatData : Type 0 where
  pub reserved_sectors : ℕ
  pub sector_size : ℕ
  pub cluster_size : ℕ
  pub sectors_per_cluster : ℕ
  pub fat_type : FatType
  pub data_area_begin : ℕ
  pub root_cluster : ℕ
  pub root_sector_count : ℕ
  pub fatbuf_lba : ℕ
  pub fatbuf : ℕ → ℕ
  pub databuf_lba_start : ℕ
  pub databuf : ℕ → ℕ

abbrev pub max_cluster : FatType → ℕ
max_cluster FatType.fat12 = 0xff4
max_cluster FatType.fat16 = 0xfff4
max_cluster FatType.fat32 = 0x0fff_fff6

-- `fatcluster_to_sector12_16` and `fatcluster_to_sector32`.
abbrev pub behind_root : FatType → (root_sector_count lba : ℕ) → ℕ
behind_root FatType.fat12 count lba = add lba count
behind_root FatType.fat16 count lba = add lba count
behind_root FatType.fat32 count lba = lba

unfoldable pub fatcluster_to_sector : FatData → (cluster : ℕ) → ℕ
fatcluster_to_sector d cluster =
    behind_root d.fat_type d.root_sector_count
      (add (mul (sub cluster 2) d.sectors_per_cluster) d.data_area_begin)

-- `data->fatbuf[i]`
abbrev pub fat_byte : (i : ℕ) → Act FatData ℕ
fat_byte i d = if ltb i 512 then done (d.fatbuf i) d else outside

-- Where a walk along a chain ends: at a cluster, or at the end of the chain with what stands there.
pub data Arrival : Type 0 where
  at : (cluster : ℕ) → Arrival
  end_of_list : (cluster : ℕ) → Arrival

-- The two bytes of a 12-bit entry, which do not meet.
abbrev pub entry12 : (cluster b0 b1 : ℕ) → ℕ
entry12 cluster b0 b1 = if cluster % 2 == 1 then b0 / 16 + b1 * 16 else b0 + b1 % 16 * 256

-- A buffer whose first `count` sectors are read.
abbrev pub filled : (count : ℕ) → (bytes old : ℕ → ℕ) → ℕ → ℕ
filled count bytes old i = if ltb i (count * 512) then bytes i else old i

module _ (blocks : (lba count : ℕ) → Option (ℕ → ℕ)) (broken : Status) where
  abbrev pub fill_fat : (lba : ℕ) → Option (ℕ → ℕ) → Act FatData (Unit {0})
  fill_fat lba none d = fails broken d
  fill_fat lba (some bytes) d = done tt (record d { fatbuf = bytes; fatbuf_lba = lba })

  unfoldable pub read_fat : (fat_sector : ℕ) → Act FatData (Unit {0})
  read_fat fat_sector d =
      let lba = d.reserved_sectors + fat_sector in
      if d.fatbuf_lba == lba then done tt d else fill_fat lba (blocks lba 1) d

  -- A read of `count` sectors into `databuf`, which has `cluster_size` bytes and keeps those behind.
  abbrev pub fill_data : (lba count : ℕ) → Option (ℕ → ℕ) → Act FatData (Unit {0})
  fill_data lba count none d = fails broken d
  fill_data lba count (some bytes) d =
      if ltb d.cluster_size (count * 512)
      then outside
      else done tt (record d { databuf = filled count bytes d.databuf; databuf_lba_start = lba })

  unfoldable pub read_sector : (lba : ℕ) → Act FatData (Unit {0})
  read_sector lba d =
      if d.databuf_lba_start == lba then done tt d else fill_data lba 1 (blocks lba 1) d

  unfoldable pub read_cluster : (cluster : ℕ) → Act FatData (Unit {0})
  read_cluster cluster d =
      let lba = fatcluster_to_sector d cluster in
      let count = d.sectors_per_cluster in
      if d.databuf_lba_start == lba then done tt d else fill_data lba count (blocks lba count) d

  -- The second byte of a 12-bit entry, which may stand in the next sector of the table.
  unfoldable pub second_byte : (sector_idx byte_idx : ℕ) → Act FatData ℕ
  second_byte sector_idx byte_idx d =
      if byte_idx == d.sector_size - 1
      then (read_fat (sector_idx + 1) >> fat_byte 0) d
      else fat_byte (byte_idx + 1) d

  unfoldable pub next12 : (cluster : ℕ) → Act FatData ℕ
  next12 cluster d =
      let byte = (cluster + cluster / 2) % 2 ^ 16 in
      let size = d.sector_size in
      (read_fat (byte / size)
          >> (fat_byte (byte % size) >>= λ b0.
              second_byte (byte / size) (byte % size) >>= λ b1 d'. done (entry12 cluster b0 b1) d'))
        d

  -- `((uint16_t *)data->fatbuf)[i]`
  unfoldable pub next16 : (cluster : ℕ) → Act FatData ℕ
  next16 cluster d =
      let entries = d.sector_size / 2 in
      let i = cluster % entries * 2 in
      (read_fat (cluster / entries)
          >> (fat_byte i >>= λ b0. fat_byte (i + 1) >>= λ b1 d'. done (b0 + b1 * 256) d'))
        d

  -- `((uint32_t *)data->fatbuf)[i] & 0x0FFFFFFF`
  unfoldable pub next32 : (cluster : ℕ) → Act FatData ℕ
  next32 cluster d =
      let entries = d.sector_size / 4 in
      let i = cluster % entries * 4 in
      (read_fat (cluster / entries)
          >> (fat_byte i >>= λ b0. fat_byte (i + 1) >>= λ b1. fat_byte (i + 2) >>= λ b2.
              fat_byte (i + 3) >>= λ b3 d'.
              done (b0 + b1 * 256 + b2 * 65536 + b3 % 16 * 16777216) d'))
        d

  -- The rounds of one of the loops; a size of 0 is a division by 0.
  abbrev pub next_of : FatType → (cluster : ℕ) → Act FatData ℕ
  next_of FatType.fat12 cluster = next12 cluster
  next_of FatType.fat16 cluster = next16 cluster
  next_of FatType.fat32 cluster = next32 cluster

  abbrev pub divisor : FatType → (sector_size : ℕ) → ℕ
  divisor FatType.fat12 size = size
  divisor FatType.fat16 size = size / 2
  divisor FatType.fat32 size = size / 4

  -- A number above the greatest cluster ends the walk.
  abbrev pub arrived : (max next : ℕ) → Act FatData Arrival → Act FatData Arrival
  arrived max next more = if ltb max next then (λ d. done (Arrival.end_of_list next) d) else more

  unfoldable pub walk_loop : (count cluster : ℕ) → Act FatData Arrival
  walk_loop zero cluster d = done (Arrival.at cluster) d
  walk_loop (suc n) cluster d =
      if divisor d.fat_type d.sector_size == 0
      then outside
      else follow (next_of d.fat_type cluster d)
          (λ next. arrived (max_cluster d.fat_type) next (walk_loop n next))

  -- The three functions `get_next_cluster12`, `16` and `32`.
  unfoldable pub get_next_cluster : (cluster count : ℕ) → Act FatData Arrival
  get_next_cluster cluster count d =
      if ltb (max_cluster d.fat_type) cluster
      then fails Status.invalid_value d
      else walk_loop count cluster d
