-- ===== src/BootFat/Seek.antt =====
-- What a file gives behind a call of `seek`.
use emos.Base.{
  ℕ, zero, suc, ◌+◌, ◌-◌, ◌*◌, ◌/◌, ◌%◌, ◌^◌, ◌≤◌, ◌<◌, ◌≡◌, refl, sym, subst, ap, ◌∙◌, ltb-false,
  leb-true, leb-false, ==-false, min, arith, dec_le,
}
use emos.Base.Int.{pos}
use emos.Status.{Status}
use emos.Ends.{follow}
use emos.BootFat.{FatData, max_cluster, Arrival}
use emos.BootFat.File.{Origin, read, seek}
use emos.BootFat.Chain.{reads, link, chain, get_next_cluster-chain}
use emos.BootFat.Content.{IsLoaded, Gives, cluster_at, file_at, read_loop-Gives}

module _ (next : ℕ → ℕ) where
  cluster_at-front : (c n : ℕ) → cluster_at next (next c) n ≡ next (cluster_at next c n)
  unfolding cluster_at
  cluster_at-front c zero = refl
  cluster_at-front c (suc n) = ap next (cluster_at-front c n)

  -- A chain that is long enough.
  chain-at :
      (max n c : ℕ)
      → ((j : ℕ) → j ≤ n → cluster_at next c j ≤ max)
      → chain next max n c ≡ Arrival.at (cluster_at next c n)
  unfolding chain cluster_at
  chain-at max zero c h = refl
  chain-at max (suc n) c h =
      rw (ltb-false max (next c) (λ over. omega (arith, h 1 (omega arith), over))) (
        chain-at max n (next c)
          (λ j l. subst (λ x. x ≤ max) (sym (cluster_at-front c j)) (h (suc j) (omega arith)))
        ∙ ap Arrival.at (cluster_at-front c n))

module _ (byte : ℕ → ℕ) (bytes : (k : ℕ) → byte k < 256) (broken : Status) (fs : FatData)
    (sector : fs.sector_size ≡ 512) (cluster : 0 < fs.cluster_size)
    (whole : fs.cluster_size ≡ fs.sectors_per_cluster * 512) (head size : ℕ) (small : size < 2 ^ 32)
    (clusters : (j : ℕ)
      → j * fs.cluster_size < size
      → cluster_at (link byte fs) head j ≤ max_cluster fs.fat_type) where
  -- From a place before the end of the file and with the cluster of this place as the current one,
  -- `read` gives the bytes of the file, as many as are asked for or as there are left.
  read-Gives :
      (len cursor cur l m : ℕ) (databuf : ℕ → ℕ)
      → cursor < size
      → cursor + len < 2 ^ 32
      → cur ≡ cluster_at (link byte fs) head (cursor / fs.cluster_size)
      → IsLoaded byte fs.cluster_size m databuf
      → Gives byte fs head
          (read (reads byte) broken len (file_at byte fs head cur cursor size l m databuf))
          cursor
          (min len (size - cursor))
  unfolding read
  read-Gives len cursor cur l m db inside fits here held =
      let sum : (cursor + len) % 2 ^ 32 ≡ cursor + len = omega arith in
      let gives = λ (count : ℕ) (le : cursor + count ≤ size).
        read_loop-Gives byte bytes broken fs sector cluster whole head size small clusters count
          count cursor cur l m db (omega arith) le (λ _. here) held in
      rw (leb-false size cursor (omega arith), sum)
        (elim (dec_le size (cursor + len)) [
          | yes end ↦
              let count : min len (size - cursor) ≡ size - cursor = omega arith in
              rw (leb-true size (cursor + len) end, count) (gives (size - cursor) (omega arith))
          | no before ↦
              let count : min len (size - cursor) ≡ len = omega arith in
              rw (leb-false size (cursor + len) before, count) (gives len (omega arith))
        ])

  -- On a disk of bytes of which every sector can be read, with sectors of 512 bytes and clusters of a
  -- positive number of them, for a file of less than 2 ^ 32 bytes each of whose bytes is in a cluster
  -- that the type of the table has, and whatever its cursor, its current cluster and the sector in the
  -- buffer of the table are, where the data in the buffer is what the disk has at its place: a call of
  -- seek to a place inside the file succeeds, and a call of read behind it succeeds, puts the bytes of
  -- the file from this place on into the buffer, as many as are asked for or as there are left, and
  -- moves the cursor behind them, where the place and the count do not pass 2 ^ 32.
  pub read-seek :
      (place len cursor cur l m : ℕ) (databuf : ℕ → ℕ)
      → place < size
      → place + len < 2 ^ 32
      → IsLoaded byte fs.cluster_size m databuf
      → Gives byte fs head
          (follow
            (seek
              (reads byte)
              broken
              (pos place)
              Origin.seek_set
              (file_at byte fs head cur cursor size l m databuf))
            (λ _. read (reads byte) broken len))
          place
          (min len (size - place))
  unfolding seek cluster_at
  read-seek place len cursor cur l m db inside fits held =
      let next = link byte fs in
      let at_first : head ≤ max_cluster fs.fat_type = clusters 0 (omega (arith, inside)) in
      let walked =
        get_next_cluster-chain byte bytes broken fs sector (place / fs.cluster_size) head l m db
          at_first in
      let here =
        chain-at next (max_cluster fs.fat_type) (place / fs.cluster_size) head
          (λ j le. clusters j (grind arith)) in
      let start : 0 + place ≡ place = omega arith in
      let stop : min place size ≡ place = omega arith in
      rw (start, stop, ==-false fs.cluster_size 0 (omega (arith, cluster)), walked.1, here)
        (read-Gives len place (cluster_at next head (place / fs.cluster_size)) walked.0 m db inside
          fits refl held)
