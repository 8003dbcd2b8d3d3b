-- ===== src/BootFat/Content.antt =====
-- What `read` gives of a file.
use emos.Base.{
  ℕ, zero, suc, ◌+◌, ◌-◌, ◌*◌, ◌/◌, ◌%◌, ◌^◌, ◌≤◌, ◌<◌, ◌≡◌, refl, sym, subst, ap, ◌∙◌, List,
  ==-true, ==-false, ltb-true, ltb-false, min, arith, dec_lt, ℕ_discrete,
}
use native.Mathlib.Nat.{add_assoc}
use emos.Status.{Status}
use emos.Words.{add, sub, mul}
use emos.Ends.{Ended, done}
use emos.BootFat.{
  FatType, FatData, behind_root, max_cluster, fatcluster_to_sector, read_cluster, get_next_cluster,
  filled,
}
use emos.BootFat.File.{FatFile, bytes_from, behind_bytes, after_walk, copied, read_loop}
use emos.BootFat.Blocks.{bytes_from-congr, bytes_from-append, div-within, mod-within, div-next}
use emos.BootFat.Chain.{bytes_at, reads, loaded, link, chain, get_next_cluster-chain}

-- The cluster that is `n` links behind another.
unfoldable pub cluster_at : (next : ℕ → ℕ) → (head n : ℕ) → ℕ
cluster_at next head zero = head
cluster_at next head (suc n) = next (cluster_at next head n)

cluster_at-next :
    (next : ℕ → ℕ) (head n : ℕ) → cluster_at next head (n + 1) ≡ next (cluster_at next head n)
unfolding cluster_at
cluster_at-next next head n =
    let e : suc n ≡ n + 1 = omega arith in
    subst (λ k. cluster_at next head k ≡ next (cluster_at next head n)) e refl

-- The byte `k` of the file that begins at the cluster `head`.
unfoldable pub content : (byte : ℕ → ℕ) → FatData → (head k : ℕ) → ℕ
content byte fs head k = byte (
    fatcluster_to_sector fs (cluster_at (link byte fs) head (k / fs.cluster_size)) * 512
    + k % fs.cluster_size)

-- The file at this place, with these buffers.
abbrev pub file_at :
    (byte : ℕ → ℕ) → FatData → (head current cursor size fat_lba data_lba : ℕ) → (ℕ → ℕ) → FatFile
file_at byte fs head current cursor size fat_lba data_lba databuf = record {
  head_cluster = head;
  current_cluster = current;
  cursor = cursor;
  size = size;
  fs = loaded byte fs fat_lba data_lba databuf;
}

-- The buffer for data, of `n` bytes, holds what the disk has there.
abbrev pub Holds : (byte : ℕ → ℕ) → (n data_lba : ℕ) → (ℕ → ℕ) → Type 0
Holds byte n data_lba databuf = (i : ℕ) → i < n → databuf i ≡ bytes_at byte data_lba i

-- The same where the buffer has been read into.
abbrev pub IsLoaded : (byte : ℕ → ℕ) → (n data_lba : ℕ) → (ℕ → ℕ) → Type 0
IsLoaded byte n data_lba databuf = data_lba < 2 ^ 32 → Holds byte n data_lba databuf

module _ (byte : ℕ → ℕ) (broken : Status) (fs : FatData) where
  sector-lt : (c : ℕ) → fatcluster_to_sector fs c < 2 ^ 32
  unfolding fatcluster_to_sector
  sector-lt c = by_type fs.fat_type
    where
      by_type :
          (ft : FatType)
          → behind_root ft fs.root_sector_count
              (add (mul (sub c 2) fs.sectors_per_cluster) fs.data_area_begin)
            < 2 ^ 32
      by_type FatType.fat12 = omega arith
      by_type FatType.fat16 = omega arith
      by_type FatType.fat32 = omega arith

  sector-loaded :
      (c l m : ℕ) (db : ℕ → ℕ)
      → fatcluster_to_sector (loaded byte fs l m db) c ≡ fatcluster_to_sector fs c
  unfolding fatcluster_to_sector
  sector-loaded c l m db = refl

  read_cluster-loaded :
      (c l m : ℕ) (db : ℕ → ℕ)
      → fs.cluster_size ≡ fs.sectors_per_cluster * 512
      → IsLoaded byte fs.cluster_size m db
      → (db' : ℕ → ℕ) × (read_cluster (reads byte) broken c (loaded byte fs l m db)
          ≡ done tt (loaded byte fs l (fatcluster_to_sector fs c) db'))
        × Holds byte fs.cluster_size (fatcluster_to_sector fs c) db'
  unfolding read_cluster
  read_cluster-loaded c l m db whole h = elim (ℕ_discrete m (fatcluster_to_sector fs c)) [
    | yes e ↦ (
      db,
      rw (sector-loaded c l m db, ==-true m (fatcluster_to_sector fs c) e)
          (ap (λ x. done tt (loaded byte fs l x db)) e),
      subst (λ x. Holds byte fs.cluster_size x db) e
          (h (subst (λ (x : ℕ). x < 2 ^ 32) (sym e) (sector-lt c))),
    )
    | no n ↦
        let fits =
          ltb-false fs.cluster_size (fs.sectors_per_cluster * 512) (omega (arith, whole)) in
        (
          filled fs.sectors_per_cluster (bytes_at byte (fatcluster_to_sector fs c)) db,
          rw (sector-loaded c l m db, ==-false m (fatcluster_to_sector fs c) n, fits) refl,
          λ i below.
              rw (ltb-true i (fs.sectors_per_cluster * 512) (omega (arith, whole, below))) refl,
        )
  ]

-- The call gave these bytes of the file, and the cursor is behind them.
abbrev pub Gives :
    (byte : ℕ → ℕ) → FatData → (head : ℕ) → Ended FatFile (List ℕ) → (at count : ℕ) → Type 0
Gives byte fs head r at count =
    (f' : FatFile) × (r ≡ done (bytes_from (content byte fs head) at count) f')
    × (f'.cursor ≡ at + count)

module _ (byte : ℕ → ℕ) (bytes : (k : ℕ) → byte k < 256) (broken : Status) (fs : FatData)
    (sector : fs.sector_size ≡ 512) (cluster : 0 < fs.cluster_size)
    (whole : fs.cluster_size ≡ fs.sectors_per_cluster * 512) (head size : ℕ) (small : size < 2 ^ 32)
    (clusters : (j : ℕ)
      → j * fs.cluster_size < size
      → cluster_at (link byte fs) head j ≤ max_cluster fs.fat_type) where
  behind_bytes-Gives :
      (xs : List ℕ) (r : Ended FatFile (List ℕ)) (at n m : ℕ)
      → xs ≡ bytes_from (content byte fs head) at n
      → Gives byte fs head r (at + n) m
      → Gives byte fs head (behind_bytes xs r) at (n + m)
  behind_bytes-Gives xs r at n m e given = (
    given.0,
    rw (given.1, e) (ap (λ ys. done ys given.0) (bytes_from-append (content byte fs head) at n m)),
    given.2 ∙ add_assoc at n m,
  )

  content-cluster :
      (cursor n cur : ℕ) (databuf : ℕ → ℕ)
      → cur ≡ cluster_at (link byte fs) head (cursor / fs.cluster_size)
      → Holds byte fs.cluster_size (fatcluster_to_sector fs cur) databuf
      → cursor % fs.cluster_size + n ≤ fs.cluster_size
      → bytes_from databuf (cursor % fs.cluster_size) n ≡ bytes_from (content byte fs head) cursor n
  unfolding content
  content-cluster cursor n cur db here held h =
      bytes_from-congr _ _ (cursor % fs.cluster_size) cursor n (λ i l.
        let inside : cursor % fs.cluster_size + i < fs.cluster_size = omega arith in
        rw (div-within cursor i fs.cluster_size inside, mod-within cursor i fs.cluster_size inside)
          (held (cursor % fs.cluster_size + i) inside
            ∙ ap (λ c. bytes_at byte (fatcluster_to_sector fs c) (cursor % fs.cluster_size + i))
                here))

  -- The end of a round at the end of a cluster, with `left` bytes to come behind it.
  after_walk-Gives :
      (at left cur l m : ℕ) (databuf : ℕ → ℕ) (more : FatFile → Ended FatFile (List ℕ))
      → cur ≤ max_cluster fs.fat_type
      → (0 < left → link byte fs cur ≤ max_cluster fs.fat_type)
      → ((l' : ℕ)
          → Gives byte fs head
              (more (file_at byte fs head (link byte fs cur) at size l' m databuf))
              at
              left)
      → Gives byte fs head
          (after_walk
            (file_at byte fs head cur at size l m databuf)
            (get_next_cluster (reads byte) broken cur 1 (loaded byte fs l m databuf))
            more)
          at
          left
  unfolding chain
  after_walk-Gives at left cur l m db more valid linked rest =
      let walked = get_next_cluster-chain byte bytes broken fs sector 1 cur l m db valid in
      rw walked.1 (elim (dec_lt (max_cluster fs.fat_type) (link byte fs cur)) [
        | yes end ↦
            let none_left : left ≡ 0 = ends end in
            rw (ltb-true (max_cluster fs.fat_type) (link byte fs cur) end, none_left)
              (_, refl, omega arith)
        | no on ↦ rw (ltb-false (max_cluster fs.fat_type) (link byte fs cur) on) (rest walked.0)
      ])
    where
      ends : max_cluster fs.fat_type < link byte fs cur → left ≡ 0
      ends end = elim (dec_lt 0 left) [
        | yes q ↦ absurd (omega (arith, linked q, end))
        | no q ↦ omega arith
      ]

  -- A round behind `read_cluster`, with `left` bytes to come behind it.
  copied-Gives :
      (cursor n left cur l : ℕ) (databuf : ℕ → ℕ) (more : FatFile → Ended FatFile (List ℕ))
      → 0 < n
      → cursor % fs.cluster_size + n ≤ fs.cluster_size
      → (cursor % fs.cluster_size + n < fs.cluster_size → left ≡ 0)
      → cursor + n + left ≤ size
      → cur ≡ cluster_at (link byte fs) head (cursor / fs.cluster_size)
      → Holds byte fs.cluster_size (fatcluster_to_sector fs cur) databuf
      → ((cur' l' : ℕ)
          → (0 < left → cur' ≡ cluster_at (link byte fs) head ((cursor + n) / fs.cluster_size))
          → Gives byte fs head
              (more (
                file_at byte fs head cur'
                  (cursor + n)
                  size
                  l'
                  (fatcluster_to_sector fs cur)
                  databuf))
              (cursor + n)
              left)
      → Gives byte fs head
          (copied
            (reads byte)
            broken
            (cursor % fs.cluster_size)
            n
            more
            (file_at byte fs head cur cursor size l (fatcluster_to_sector fs cur) databuf))
          cursor
          (n + left)
  copied-Gives cursor n left cur l databuf more p fits last inside here held rest =
      let next = link byte fs in
      let place = cursor / fs.cluster_size in
      let valid : cur ≤ max_cluster fs.fat_type =
        subst (λ x. x ≤ max_cluster fs.fat_type) (sym here) (clusters place (grind arith)) in
      let moved : (cursor + n) % 2 ^ 32 ≡ cursor + n = omega arith in
      let part = content-cluster cursor n cur databuf here held fits in
      rw moved (elim (dec_lt (cursor % fs.cluster_size + n) fs.cluster_size) [
        | yes within ↦ rw (ltb-true (cursor % fs.cluster_size + n) fs.cluster_size within) (
            behind_bytes-Gives _ _ cursor n left part
              (rest cur l (λ q. absurd (omega (arith, last within, q)))))
        | no over ↦
            let turn : (cursor + n) / fs.cluster_size ≡ place + 1 =
              div-next cursor n fs.cluster_size cluster (omega arith) in
            let linked : cluster_at next head (place + 1) ≡ next cur =
              cluster_at-next next head place ∙ ap next (sym here) in
            rw (ltb-false (cursor % fs.cluster_size + n) fs.cluster_size over) (
              behind_bytes-Gives _ _ cursor n left part (
                after_walk-Gives (cursor + n) left cur l (fatcluster_to_sector fs cur) databuf more
                  valid
                  (λ q.
                    subst (λ x. x ≤ max_cluster fs.fat_type) linked
                      (clusters (place + 1) (grind arith)))
                  (λ l'. rest (next cur) l' (λ _. rw turn (sym linked)))))
      ])

  -- The loop, with a round for each byte at least.
  pub read_loop-Gives :
      (rounds len cursor cur l m : ℕ) (databuf : ℕ → ℕ)
      → len ≤ rounds
      → cursor + len ≤ size
      → (0 < len → cur ≡ cluster_at (link byte fs) head (cursor / fs.cluster_size))
      → IsLoaded byte fs.cluster_size m databuf
      → Gives byte fs head
          (read_loop
            (reads byte)
            broken
            rounds
            len
            (file_at byte fs head cur cursor size l m databuf))
          cursor
          len
  unfolding read_loop
  read_loop-Gives zero zero cursor cur l m db h inside here held = (_, refl, omega arith)
  read_loop-Gives zero (suc k) cursor cur l m db h inside here held = absurd (omega (arith, h))
  read_loop-Gives (suc n) zero cursor cur l m db h inside here held = (_, refl, omega arith)
  read_loop-Gives (suc n) (suc k) cursor cur l m db h inside here held =
      let offset = cursor % fs.cluster_size in
      let count = min (fs.cluster_size - offset) (suc k) in
      let space : offset < fs.cluster_size = omega (arith, cluster) in
      let total_is : count + (suc k - count) ≡ suc k = grind arith in
      let filled_in = read_cluster-loaded byte broken fs cur l m db whole held in
      rw (==-false fs.cluster_size 0 (omega (arith, cluster)), filled_in.1)
        (subst
          (λ total.
            Gives byte fs head
              (copied (reads byte) broken offset count
                (read_loop (reads byte) broken n (suc k - count))
                (file_at byte fs head cur cursor size l (fatcluster_to_sector fs cur) filled_in.0))
              cursor total)
          total_is
          (copied-Gives cursor count (suc k - count) cur l filled_in.0
            (read_loop (reads byte) broken n (suc k - count)) (omega (arith, space))
            (omega (arith, space)) (λ w. omega (arith, w)) (omega arith) (here (omega arith))
            filled_in.2
            (λ cur' l' there.
              read_loop-Gives n (suc k - count) (cursor + count) cur' l'
                (fatcluster_to_sector fs cur) filled_in.0 (omega (arith, space)) (omega arith) there
                (λ _. filled_in.2))))
