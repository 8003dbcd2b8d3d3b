-- ===== src/BootFat/Mount.antt =====
-- boot/filesystem/fat/fat.c: mount, which computes the places of a volume from its first sector. The
-- size of the blocks of the device, the status of filesystem_create, where it fails, and whether malloc
-- gives `data` and the buffer for a cluster are parameters; the device has the interface for blocks.
use emos.Base.{
  ℕ, ◌+◌, ◌-◌, ◌*◌, ◌/◌, ◌%◌, ◌^◌, Bool, List, [], ◌∷◌, true, false, ◌&&◌, ◌||◌, Option, none, some,
  ◌==◌, leb, if◌then◌else◌,
}
use emos.Status.{Status}
use emos.Words.{add, sub, mul}
use emos.Ends.{done, fails, outside, Act}
use emos.BootFat.{FatType, FatData}
use emos.BootFat.File.{bytes_from}

-- `struct fat_bpb_sector`, as far as mount reads it.
pub record FatBpbSector : Type 0 where
  pub bytes_per_sector : ℕ
  pub sectors_per_cluster : ℕ
  pub reserved_sector_count : ℕ
  pub fat_count : ℕ
  pub root_entry_count : ℕ
  pub total_sector_count16 : ℕ
  pub fat_size16 : ℕ
  pub total_sector_count32 : ℕ
  pub fat_size32 : ℕ
  pub root_cluster : ℕ
  pub fsinfo_sector : ℕ
  pub fat_fs_type : List ℕ
  pub fat32_fs_type : List ℕ
  pub signature : ℕ

abbrev pub u16 : (ℕ → ℕ) → (i : ℕ) → ℕ
u16 bytes i = bytes i + bytes (i + 1) * 256

abbrev pub u32 : (ℕ → ℕ) → (i : ℕ) → ℕ
u32 bytes i = u16 bytes i + u16 bytes (i + 2) * 65536

-- The packed structure over the bytes of a sector.
abbrev pub bpb_of : (ℕ → ℕ) → FatBpbSector
bpb_of bytes = record {
  bytes_per_sector = u16 bytes 11;
  sectors_per_cluster = bytes 13;
  reserved_sector_count = u16 bytes 14;
  fat_count = bytes 16;
  root_entry_count = u16 bytes 17;
  total_sector_count16 = u16 bytes 19;
  fat_size16 = u16 bytes 22;
  total_sector_count32 = u32 bytes 32;
  fat_size32 = u32 bytes 36;
  root_cluster = u32 bytes 44;
  fsinfo_sector = u16 bytes 48;
  fat_fs_type = bytes_from bytes 54 8;
  fat32_fs_type = bytes_from bytes 82 8;
  signature = u16 bytes 510;
}

-- `strncmp(a, b, 8) == 0`, where `b` has eight characters.
abbrev pub is_same : List ℕ → List ℕ → Bool
is_same [] [] = true
is_same (x ∷ xs) (y ∷ ys) = x == y && is_same xs ys
is_same _ _ = false

abbrev pub fat_digits : (a b : ℕ) → List ℕ
fat_digits a b = b'F' ∷ b'A' ∷ b'T' ∷ a ∷ b ∷ b' ' ∷ b' ' ∷ b' ' ∷ []

-- One of the three names is there.
abbrev pub is_named : FatBpbSector → Bool
is_named bpb =
    is_same bpb.fat_fs_type (fat_digits b'1' b'2')
    || is_same bpb.fat_fs_type (fat_digits b'1' b'6')
    || is_same bpb.fat32_fs_type (fat_digits b'3' b'2')

abbrev pub size_of_table : FatBpbSector → ℕ
size_of_table bpb = if bpb.fat_size16 == 0 then bpb.fat_size32 else bpb.fat_size16

abbrev pub total_sectors : FatBpbSector → ℕ
total_sectors bpb =
    if bpb.total_sector_count16 == 0 then bpb.total_sector_count32 else bpb.total_sector_count16

abbrev pub root_sectors : FatBpbSector → ℕ
root_sectors bpb =
    (bpb.root_entry_count * 32 + (bpb.bytes_per_sector - 1)) / bpb.bytes_per_sector % 2 ^ 16

abbrev pub data_begin : FatBpbSector → ℕ
data_begin bpb = add bpb.reserved_sector_count (mul bpb.fat_count (size_of_table bpb))

abbrev pub cluster_count : FatBpbSector → ℕ
cluster_count bpb =
    sub (sub (total_sectors bpb) (data_begin bpb)) (root_sectors bpb) / bpb.sectors_per_cluster

abbrev pub type_of : (count : ℕ) → FatType
type_of count =
    if leb count 0xff4
    then FatType.fat12
    else if leb count 0xfff4
    then FatType.fat16
    else FatType.fat32

-- `databuf_lba_start` is -1, and `fatbuf_lba` what it was.
abbrev pub with_places : FatBpbSector → FatData → FatData
with_places bpb d = record d {
  sector_size = bpb.bytes_per_sector;
  sectors_per_cluster = bpb.sectors_per_cluster;
  cluster_size = bpb.bytes_per_sector * bpb.sectors_per_cluster;
  reserved_sectors = bpb.reserved_sector_count;
  root_sector_count = root_sectors bpb;
  data_area_begin = data_begin bpb;
  fat_type = type_of (cluster_count bpb);
  databuf_lba_start = 2 ^ 64 - 1;
}

module _ (blocks : (lba count : ℕ) → Option (ℕ → ℕ)) (broken : Status) where
  abbrev pub with_fsinfo : FatBpbSector → Option (ℕ → ℕ) → Act FatData (Unit {0})
  with_fsinfo bpb none d = fails broken (record d { root_cluster = bpb.root_cluster })
  with_fsinfo bpb (some fsinfo) d = done tt (record d { root_cluster = bpb.root_cluster })

  -- The sector with the numbers of free clusters is read on a volume of the third type only.
  abbrev pub read_fsinfo : FatBpbSector → FatType → Act FatData (Unit {0})
  read_fsinfo bpb FatType.fat12 d = done tt d
  read_fsinfo bpb FatType.fat16 d = done tt d
  read_fsinfo bpb FatType.fat32 d = with_fsinfo bpb (blocks bpb.fsinfo_sector 1) d

  -- What follows the test of the signatures.
  unfoldable pub place_volume : FatBpbSector → (granted : Bool) → Act FatData (Unit {0})
  place_volume bpb granted d =
      if bpb.bytes_per_sector == 0
      then outside
      else if bpb.sectors_per_cluster == 0
      then outside
      else if granted
      then read_fsinfo bpb (type_of (cluster_count bpb)) (with_places bpb d)
      else fails Status.unknown_error d

  abbrev pub with_bpb : (granted : Bool) → FatBpbSector → Act FatData (Unit {0})
  with_bpb granted bpb d =
      if bpb.signature == 0xaa55
      then (if is_named bpb then place_volume bpb granted d else fails Status.invalid_signature d)
      else fails Status.invalid_signature d

  abbrev pub with_sector : (granted : Bool) → Option (ℕ → ℕ) → Act FatData (Unit {0})
  with_sector granted none d = fails broken d
  with_sector granted (some bytes) d = with_bpb granted (bpb_of bytes) d

  abbrev pub when_created : Option Status → (data_granted granted : Bool) → Act FatData (Unit {0})
  when_created (some s) data_granted granted d = fails s d
  when_created none data_granted granted d =
      if data_granted then with_sector granted (blocks 0 1) d else fails Status.unknown_error d

  unfoldable pub mount :
      (block_size : ℕ)
      → (created : Option Status) → (data_granted granted : Bool) → Act FatData (Unit {0})
  unfolding place_volume
  mount block_size created data_granted granted d =
      if block_size == 512
      then when_created created data_granted granted d
      else fails Status.size_check_failure d
