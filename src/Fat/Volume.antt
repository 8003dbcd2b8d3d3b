-- ===== src/Fat/Volume.antt =====
-- `struct filesystem_data` of fat.h, as far as the table is concerned, and the functions of util.c.
use emos.Base.{
  ℕ, ◌+◌, ◌-◌, ◌*◌, ◌/◌, ◌%◌, ◌^◌, Bool, true, false, ltb, leb, ◌==◌, if◌then◌else◌, bit_and,
  bit_or,
}
use emos.Base.Int.{ℤ, pos, negsuc}
use emos.Status.{Status}
use emos.Fat.Block.{Block, Sector, got, failed}

pub record Volume : Type 0 where
  pub fat_count : ℕ
  pub reserved_sectors : ℕ
  pub sector_size : ℕ
  pub fat_size : ℕ

abbrev pub fat12_max_cluster : ℕ
fat12_max_cluster = 0xff4

abbrev pub fat16_max_cluster : ℕ
fat16_max_cluster = 0xfff4

abbrev pub fat32_max_cluster : ℕ
fat32_max_cluster = 0x0fff_fff6

abbrev pub fat12_end_cluster : ℕ
fat12_end_cluster = 0xfff

abbrev pub fat16_end_cluster : ℕ
fat16_end_cluster = 0xffff

abbrev pub fat32_end_cluster : ℕ
fat32_end_cluster = 0x0fff_ffff

-- `fat < 0 || fat >= data->fat_count`
abbrev pub bad_fat : Volume → ℤ → Bool
bad_fat v (pos n) = leb v.fat_count n
bad_fat v (negsuc n) = true

-- A table that is not negative, as the unsigned number that C multiplies.
abbrev pub fat_index : ℤ → ℕ
fat_index (pos n) = n
fat_index (negsuc n) = 2 ^ 32 - 1 - n

-- `data->reserved_sectors + fat * data->fat_size + sector_idx`, 32 bits wide
abbrev pub fat_sector : Volume → ℤ → ℕ → ℕ
fat_sector v fat sector_idx =
    (v.reserved_sectors + fat_index fat * v.fat_size + sector_idx) % 2 ^ 32

-- A sector with one byte replaced.
abbrev pub put : Sector → ℕ → ℕ → Sector
put b i x j = if i == j then x else b j

-- `entry & 1`
abbrev pub is_odd : ℕ → Bool
is_odd entry = bit_and entry 1 == 1

-- `(lo & 0xF0) >> 4 | hi << 4` of an odd entry, `lo | (hi & 0x0F) << 8` of an even one
unfoldable pub decode12 : (odd : Bool) (lo hi : ℕ) → ℕ
decode12 true lo hi = bit_or (bit_and lo 0xf0 / 2 ^ 4) (hi * 2 ^ 4)
decode12 false lo hi = bit_or lo (bit_and hi 0x0f * 2 ^ 8)

-- The byte at `byte_idx` and the one behind it, after a write of `value`.
unfoldable pub low12 : (odd : Bool) (value old : ℕ) → ℕ
low12 true value old = bit_or (bit_and old 0x0f) (bit_and value 0xf * 2 ^ 4) % 256
low12 false value old = bit_and value 0xff

unfoldable pub high12 : (odd : Bool) (value old : ℕ) → ℕ
high12 true value old = bit_and value 0xff0 / 2 ^ 4 % 256
high12 false value old = bit_or (bit_and old 0xf0) (bit_and value 0xf00 / 2 ^ 8) % 256

-- What a read returns: `*value`, or a status.
pub data Value : Type 0 where
  value : ℕ → Value
  error : Status → Value

module _ (B : Block) where
  open B use {Dev, reply, fetched, release}

  -- The second byte of an entry that crosses into the next sector.
  unfoldable pub read_tail12 :
      Volume → ℤ → (sector_idx : ℕ) (odd : Bool) → (first : Sector) (lo : ℕ) → Dev → Value × Dev
  read_tail12 v fat sector_idx odd first lo d =
      let l : ℕ = fat_sector v fat sector_idx in
      let l' : ℕ = fat_sector v fat (sector_idx + 1) in
      let d' = fetched d l' in
      elim (reply d l') [
        | failed s ↦ (error s, release d' l first false)
        | got b ↦ (value (decode12 odd lo (b 0)), release (release d' l' b false) l first false)
      ]

  unfoldable pub read_fat_entry12 : Volume → ℤ → ℕ → Dev → Value × Dev
  read_fat_entry12 v fat entry d =
      if ltb fat12_max_cluster entry
      then (error Status.invalid_value, d)
      else if bad_fat v fat
      then (error Status.invalid_value, d)
      else (let byte : ℕ = entry + entry / 2 in
          let sector_idx : ℕ = byte / v.sector_size in
          let byte_idx : ℕ = byte % v.sector_size in
          let l : ℕ = fat_sector v fat sector_idx in
          let d' = fetched d l in
          elim (reply d l) [
            | failed s ↦ (error s, d')
            | got b ↦
                if ltb byte_idx (v.sector_size - 1)
                then (
                  value (decode12 (is_odd entry) (b byte_idx) (b (byte_idx + 1))),
                  release d' l b false,
                )
                else read_tail12 v fat sector_idx (is_odd entry) b (b byte_idx) d'
          ])

  -- `write_fat_entry12` from the point where the first sector is there.
  unfoldable pub write_bytes12 :
      Volume → ℤ → (entry value sector_idx byte_idx : ℕ) → Sector → Dev → Status × Dev
  write_bytes12 v fat entry x sector_idx byte_idx b d =
      let l : ℕ = fat_sector v fat sector_idx in
      let l' : ℕ = fat_sector v fat (sector_idx + 1) in
      let odd : Bool = is_odd entry in
      if byte_idx == v.sector_size - 1
      then (let d' = fetched d l' in
          elim (reply d l') [
            | failed s ↦ (s, release d' l b false)
            | got b' ↦ (
              Status.success,
              release (release d' l' (put b' 0 (high12 odd x (b' 0))) true) l
                  (put b byte_idx (low12 odd x (b byte_idx))) true,
            )
          ])
      else (let b1 : Sector = put b (byte_idx + 1) (high12 odd x (b (byte_idx + 1))) in
          (Status.success, release d l (put b1 byte_idx (low12 odd x (b1 byte_idx))) true))

  unfoldable pub write_fat_entry12 : Volume → ℤ → (entry value : ℕ) → Dev → Status × Dev
  unfolding write_bytes12
  write_fat_entry12 v fat entry x d =
      if ltb fat12_end_cluster x
      then (Status.invalid_value, d)
      else if ltb fat12_max_cluster entry
      then (Status.invalid_value, d)
      else if bad_fat v fat
      then (Status.invalid_value, d)
      else (let byte : ℕ = entry + entry / 2 in
          let sector_idx : ℕ = byte / v.sector_size in
          let l : ℕ = fat_sector v fat sector_idx in
          let d' = fetched d l in
          elim (reply d l) [
            | failed s ↦ (s, d')
            | got b ↦ write_bytes12 v fat entry x sector_idx (byte % v.sector_size) b d'
          ])
