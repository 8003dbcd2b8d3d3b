-- ===== src/BootFat/Tests.antt =====
-- A table of 12-bit entries with a file of two clusters, and runs on it.
use emos.Base.{
  ℕ, ◌+◌, ◌-◌, ◌*◌, zero, suc, ◌-◌, ◌*◌, ◌%◌, ◌^◌, ◌≤◌, ◌<◌, ◌≡◌, refl, true, length, ◌/◌,
  replicate, get_or, ◌++◌, List, [], ◌∷◌, Option, none, some, if◌then◌else◌, ◌==◌, min, arith,
}
use emos.Base.Int.{pos}
use emos.Status.{Status}
use emos.Ends.{Ended, done, fails, follow}
use emos.BootFat.{FatType, FatData, get_next_cluster}
use emos.BootFat.File.{FatFile, Origin, read, seek}
use emos.BootFat.Chain.{bytes_at, reads, loaded, link, chain, get_next_cluster-chain}
use emos.BootFat.Content.{Gives, cluster_at, file_at}
use emos.BootFat.Mount.{FatBpbSector, bpb_of, cluster_count, type_of, mount}
use emos.Ansiterm.Write.Utf8.{encode}
use emos.BootFat.Names.{lfn_ucs2_to_utf8, lfn_ucs2_to_utf8-encode}
use emos.BootFat.Seek.{read-seek}

-- The table is in the sector 1: the cluster 2 is followed by 3, and 3 by the mark 0xfff.
abbrev disk : ℕ → ℕ
disk k = if k == 515 then 3 else if k == 516 then 0xf0 else if k == 517 then 0xff else k % 251

abbrev volume : FatData
volume = record {
  reserved_sectors = 1;
  sector_size = 512;
  cluster_size = 512;
  sectors_per_cluster = 1;
  fat_type = FatType.fat12;
  data_area_begin = 5;
  root_cluster = 0;
  root_sector_count = 4;
  fatbuf_lba = 7;
  fatbuf = bytes_at disk 7;
  databuf_lba_start = 2 ^ 32;
  databuf = λ _. 0;
}

disk-lt : (k : ℕ) → disk k < 256
disk-lt k = ground arith

-- Where a read that succeeds leaves the cursor.
abbrev cursor_behind : Ended FatFile (List ℕ) → Option ℕ
cursor_behind (done bytes f) = some f.cursor
cursor_behind r = none

abbrev fresh : FatFile
fresh = file_at disk volume 2 2 0 600 7 (2 ^ 32) (λ _. 0)

read-fresh : cursor_behind (read (reads disk) Status.unknown_error 700 fresh) ≡ some 600
unfolding read
read-fresh = refl

-- Where the table cannot be read, `read` succeeds with the bytes of the first cluster.
no_table : (lba count : ℕ) → Option (ℕ → ℕ)
no_table lba count = if lba == 1 then none else some (bytes_at disk lba)

read-no_table : cursor_behind (read no_table Status.unknown_error 700 fresh) ≡ some 512
unfolding read no_table
read-no_table = refl

-- With a length that takes the sum past 2 ^ 32 the length is not cut to the rest of the file, and
-- `read` goes on to the end of the last cluster.
abbrev far : FatFile
far = file_at disk volume 2 3 599 600 7 (2 ^ 32) (λ _. 0)

read-far : cursor_behind (read (reads disk) Status.unknown_error (2 ^ 32 - 599) far) ≡ some 1024
unfolding read
read-far = refl

-- The first sector of a disk of 1440 KiB, or of a volume of `total` sectors.
abbrev first_sector : (total k : ℕ) → ℕ
first_sector total k =
    get_or
      (replicate 11 0
        ++ (0 ∷ 2 ∷ 1 ∷ 1 ∷ 0 ∷ 2 ∷ 224 ∷ 0 ∷ total % 256 ∷ total / 256 ∷ 240 ∷ 9 ∷ [])
        ++ replicate 31 0
        ++ (b'F' ∷ b'A' ∷ b'T' ∷ b'1' ∷ b'2' ∷ b' ' ∷ b' ' ∷ b' ' ∷ [])
        ++ replicate 448 0
        ++ (0x55 ∷ 0xaa ∷ []))
      k 0

abbrev widest : FatBpbSector
widest = bpb_of (first_sector 4117)

-- The last of the 0xff4 clusters of this volume has the number 0xff5, which is refused.
abbrev status_of : {S A : Type 0} → Ended S A → Option Status
status_of (fails s d) = some s
status_of r = none

type_of-widest : type_of (cluster_count widest) ≡ FatType.fat12
type_of-widest = refl

widest_last :
    status_of (
      follow
        (mount (reads (first_sector 4117)) Status.unknown_error 512 none true true volume)
        (λ _.
          get_next_cluster
            (reads (first_sector 4117))
            Status.unknown_error
            (cluster_count widest + 1)
            1))
    ≡ some Status.invalid_value
unfolding mount get_next_cluster
widest_last = refl

volume-clusters : (j : ℕ) → j * 512 < 600 → cluster_at (link disk volume) 2 j ≤ 0xff4
unfolding cluster_at
volume-clusters zero h = omega arith
volume-clusters (suc zero) h = omega arith
volume-clusters (suc (suc k)) h = absurd (omega (arith, h))

get_next_cluster-chain_example :
    (l : ℕ) × (get_next_cluster
        (reads disk)
        Status.unknown_error
        2
        2
        (loaded disk volume 7 9 (λ _. 0))
      ≡ done (chain (link disk volume) 0xff4 2 2) (loaded disk volume l 9 (λ _. 0)))
get_next_cluster-chain_example =
    get_next_cluster-chain disk disk-lt Status.unknown_error volume refl 2 2 7 9 (λ _. 0)
      (omega arith)

read-seek_example :
    Gives disk volume 2
      (follow
        (seek
          (reads disk)
          Status.unknown_error
          (pos 500)
          Origin.seek_set
          (file_at disk volume 2 3 600 600 7 (2 ^ 32) (λ _. 0)))
        (λ _. read (reads disk) Status.unknown_error 20))
      500
      (min 20 (600 - 500))
read-seek_example =
    read-seek disk disk-lt Status.unknown_error volume refl (omega arith) refl 2 600 (omega arith)
      volume-clusters 500 20 600 3 7 (2 ^ 32) (λ _. 0) (omega arith) (omega arith)
      (λ h. absurd (omega (arith, h)))

-- DEL takes two bytes, which are not UTF-8.
lfn_del : lfn_ucs2_to_utf8 63 255 (0x7f ∷ 0 ∷ []) ≡ some (0xc1 ∷ 0xbf ∷ 0 ∷ [])
unfolding lfn_ucs2_to_utf8
lfn_del = refl

euro_room : length (encode (97 ∷ 0xe4 ∷ 0x20ac ∷ [])) < 255
unfolding encode
euro_room = omega arith

lfn_ucs2_to_utf8-encode_example :
    lfn_ucs2_to_utf8 63 255 (97 ∷ 0xe4 ∷ 0x20ac ∷ 0 ∷ [])
    ≡ some (encode (97 ∷ 0xe4 ∷ 0x20ac ∷ []) ++ 0 ∷ [])
lfn_ucs2_to_utf8-encode_example =
    lfn_ucs2_to_utf8-encode 63 255 (97 ∷ 0xe4 ∷ 0x20ac ∷ []) []
      (
        (omega arith, omega arith, omega arith, omega arith),
        (
          (omega arith, omega arith, omega arith, omega arith),
          ((omega arith, omega arith, omega arith, omega arith), tt),
        ),
      )
      euro_room
