-- ===== src/BootFat/File.antt =====
-- boot/filesystem/fat/fat.c: reading an open file, and moving its cursor.
use emos.Base.{
  ℕ, zero, suc, ◌+◌, ◌-◌, ◌/◌, ◌%◌, List, [], ◌∷◌, ◌++◌, Option, none, some, ◌==◌, ltb, leb, min,
  if◌then◌else◌,
}
use emos.Base.Int.{ℤ, pos, negsuc}
use emos.Status.{Status}
use emos.Words.{add}
use emos.Ends.{Ended, done, fails, outside, Act, follow}
use emos.BootFat.{
  FatData, Arrival, fatcluster_to_sector, read_fat, read_cluster, second_byte, next12, next16,
  next32, walk_loop, get_next_cluster,
}

-- `struct fat_file_data`, with the size of its entry, and the data of its file system.
pub record FatFile : Type 0 where
  pub head_cluster : ℕ
  pub current_cluster : ℕ
  pub cursor : ℕ
  pub size : ℕ
  pub fs : FatData

-- The bytes from `from` on.
abbrev pub bytes_from : (ℕ → ℕ) → (from count : ℕ) → List ℕ
bytes_from f from zero = []
bytes_from f from (suc n) = f from ∷ bytes_from f (from + 1) n

-- What a call on the file system leaves.
abbrev pub on_fs : {A : Type 0} → FatFile → Ended FatData A → Ended FatFile A
on_fs f (done a d) = done a (record f { fs = d })
on_fs f (fails s d) = fails s (record f { fs = d })
on_fs f outside = outside

-- The bytes of a round, before those of the others; a failure returns no count of bytes.
abbrev pub behind_bytes : List ℕ → Ended FatFile (List ℕ) → Ended FatFile (List ℕ)
behind_bytes bytes (done more f) = done (bytes ++ more) f
behind_bytes bytes (fails s f) = fails s f
behind_bytes bytes outside = outside

-- The end of a round that came to the end of a cluster: where the walk fails, with whatever status,
-- the loop breaks and the call succeeds.
abbrev pub after_walk :
    FatFile → Ended FatData Arrival → (FatFile → Ended FatFile (List ℕ)) → Ended FatFile (List ℕ)
after_walk f (done (Arrival.at c) d) more = more (record f { current_cluster = c; fs = d })
after_walk f (done (Arrival.end_of_list c) d) more =
    done [] (record f { current_cluster = c; fs = d })
after_walk f (fails s d) more = done [] (record f { fs = d })
after_walk f outside more = outside

module _ (blocks : (lba count : ℕ) → Option (ℕ → ℕ)) (broken : Status) where
  -- A round behind `read_cluster`.
  abbrev pub copied :
      (offset read_len : ℕ) → (FatFile → Ended FatFile (List ℕ)) → Act FatFile (List ℕ)
  copied offset read_len more f =
      let f' = record f { cursor = add f.cursor read_len } in
      behind_bytes (bytes_from f.fs.databuf offset read_len) (
        if ltb (offset + read_len) f.fs.cluster_size
        then more f'
        else after_walk f' (get_next_cluster blocks broken f.current_cluster 1 f.fs) more)

  -- The loop of `read`, with `len` bytes to come; a round reads a byte at least.
  unfoldable pub read_loop : (rounds len : ℕ) → Act FatFile (List ℕ)
  read_loop zero len f = done [] f
  read_loop (suc n) zero f = done [] f
  read_loop (suc n) (suc l) f =
      let offset = f.cursor % f.fs.cluster_size in
      let read_len = min (f.fs.cluster_size - offset) (suc l) in
      if f.fs.cluster_size == 0
      then outside
      else follow (on_fs f (read_cluster blocks broken f.current_cluster f.fs))
          (λ _. copied offset read_len (read_loop n (suc l - read_len)))

  -- The bytes that are put into the buffer.
  unfoldable pub read : (len : ℕ) → Act FatFile (List ℕ)
  unfolding read_loop read_cluster fatcluster_to_sector get_next_cluster walk_loop next12 next16
      next32 second_byte read_fat
  read len f =
      if leb f.size f.cursor
      then fails Status.end_of_file f
      else (let len' = if leb f.size (add f.cursor len) then f.size - f.cursor else len in
          read_loop len' len' f)

  pub data Origin : Type 0 where
    seek_set seek_cur seek_end another : Origin

  -- The sum of a position and an offset, which may be negative.
  abbrev pub moved_by : (base : ℕ) → ℤ → Option ℕ
  moved_by base (pos n) = some (base + n)
  moved_by base (negsuc n) = if ltb n base then some (base - n - 1) else none

  abbrev pub moved_from : Origin → FatFile → ℤ → Option ℕ
  moved_from Origin.seek_set f offset = moved_by 0 offset
  moved_from Origin.seek_cur f offset = moved_by f.cursor offset
  moved_from Origin.seek_end f offset = moved_by f.size offset
  moved_from Origin.another f offset = none

  -- Behind the walk of `seek`.
  abbrev pub landed : (cursor : ℕ) → FatFile → Ended FatData Arrival → Ended FatFile (Unit {0})
  landed cursor f (done (Arrival.at c) d) =
      done tt (record f { current_cluster = c; cursor = cursor; fs = d })
  landed cursor f (done (Arrival.end_of_list c) d) = fails Status.end_of_list (record f { fs = d })
  landed cursor f (fails s d) = fails s (record f { fs = d })
  landed cursor f outside = outside

  abbrev pub seek_to : Option ℕ → Act FatFile (Unit {0})
  seek_to none f = fails Status.invalid_value f
  seek_to (some new) f =
      let cursor = min new f.size in
      if f.fs.cluster_size == 0
      then outside
      else landed cursor f
          (get_next_cluster blocks broken f.head_cluster (cursor / f.fs.cluster_size) f.fs)

  unfoldable pub seek : ℤ → Origin → Act FatFile (Unit {0})
  unfolding read_cluster fatcluster_to_sector get_next_cluster walk_loop next12 next16 next32
      second_byte read_fat
  seek offset origin f = seek_to (moved_from origin f offset) f

unfoldable pub tell : FatFile → ℕ
tell f = f.cursor
