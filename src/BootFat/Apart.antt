-- ===== src/BootFat/Apart.antt =====
-- The clusters of a mounted volume.
use emos.Base.{ℕ, ◌+◌, ◌*◌, ◌^◌, ◌≤◌, ◌<◌, ◌≡◌, [], ◌∷◌, ◌⊎◌}
use emos.Status.{Status}
use emos.BootFat.{FatType}
use emos.BootFat.Mount.{FatBpbSector, size_of_table, total_sectors}

-- What stands between the tables and the clusters: the root directory, on the first two types.
abbrev pub shift : FatType → (root : ℕ) → ℕ
shift FatType.fat12 n = n
shift FatType.fat16 n = n
shift FatType.fat32 n = 0

-- The sectors before the root directory.
abbrev pub tables_end : FatBpbSector → ℕ
tables_end bpb = bpb.reserved_sector_count + bpb.fat_count * size_of_table bpb

-- With `n` clusters behind the tables and a root directory of 32 bytes for an entry, the volume has
-- room for these clusters and for no other one; its sectors have 32 bytes or more.
abbrev pub IsLaidOut : FatBpbSector → (n : ℕ) → Type 0
IsLaidOut bpb n =
    (32 ≤ bpb.bytes_per_sector)
    × (0 < bpb.sectors_per_cluster)
    × (bpb.root_entry_count < 2 ^ 16)
    × (total_sectors bpb < 2 ^ 32)
    × ((tables_end bpb + n * bpb.sectors_per_cluster) * bpb.bytes_per_sector
          + bpb.root_entry_count * 32
        ≤ total_sectors bpb * bpb.bytes_per_sector)
    × (total_sectors bpb * bpb.bytes_per_sector
        < (tables_end bpb + (n + 1) * bpb.sectors_per_cluster) * bpb.bytes_per_sector
          + bpb.root_entry_count * 32)

-- The types of the number of clusters.
abbrev pub HasType : (n : ℕ) → FatType → Type 0
HasType n FatType.fat12 = n < 4085
HasType n FatType.fat16 = (4085 ≤ n) × (n < 65525)
HasType n FatType.fat32 = 65525 ≤ n

-- The name of one of the types stands in the sector.
abbrev pub IsNamed : FatBpbSector → Type 0
IsNamed bpb =
    (bpb.fat_fs_type ≡ b'F' ∷ b'A' ∷ b'T' ∷ b'1' ∷ b'2' ∷ b' ' ∷ b' ' ∷ b' ' ∷ [])
    ⊎ ((bpb.fat_fs_type ≡ b'F' ∷ b'A' ∷ b'T' ∷ b'1' ∷ b'6' ∷ b' ' ∷ b' ' ∷ b' ' ∷ [])
        ⊎ (bpb.fat32_fs_type ≡ b'F' ∷ b'A' ∷ b'T' ∷ b'3' ∷ b'2' ∷ b' ' ∷ b' ' ∷ b' ' ∷ []))
