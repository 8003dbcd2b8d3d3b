-- ===== src/Fat/Entry16.antt =====
-- read_fat_entry16 and write_fat_entry16 of util.c: entries of two bytes, the low byte first.
use emos.Base.{
  ℕ, ◌+◌, ◌*◌, ◌/◌, ◌%◌, ◌^◌, ◌≤◌, ◌<◌, ◌≡◌, refl, true, false, arith, ltb, ◌==◌, if◌then◌else◌,
  ltb-false, leb-false, ==-true, ==-false, ap, ◌∙◌, ℕ_discrete,
}
use native.Mathlib.Nat.{div-add-mod'}
use emos.Base.Int.{ℤ, pos}
use emos.Status.{Status}
use emos.Fat.Block.{Block, Sector, Reply, got, failed, is_got}
use emos.Fat.Volume.{
  Volume, Value, value, error, fat_sector, bad_fat, fat16_max_cluster, fat16_end_cluster, put,
}
use emos.Fat.Bytes.{
  IsTable, IsReadable, table_reply, sector_of, got-sector_of, table_reply-release,
  IsReadable-release,
}

-- `fatbuf[i]` for a `uint16_t *fatbuf` over the bytes of a sector
abbrev pub word16 : Sector → ℕ → ℕ
word16 b i = b (2 * i) + b (2 * i + 1) * 256

-- `fatbuf[i] = x`
abbrev pub put16 : Sector → ℕ → ℕ → Sector
put16 b i x = put (put b (2 * i) (x % 256)) (2 * i + 1) (x / 256 % 256)

module _ (B : Block) where
  open B use {Dev, reply, fetched, release}

  unfoldable pub read_fat_entry16 : Volume → ℤ → ℕ → Dev → Value × Dev
  read_fat_entry16 v fat entry d =
      if ltb fat16_max_cluster entry
      then (error Status.invalid_value, d)
      else if bad_fat v fat
      then (error Status.invalid_value, d)
      else (let l : ℕ = fat_sector v fat (entry / (v.sector_size / 2)) in
          let d' = fetched d l in
          elim (reply d l) [
            | failed s ↦ (error s, d')
            | got b ↦ (value (word16 b (entry % (v.sector_size / 2))), release d' l b false)
          ])

  unfoldable pub write_fat_entry16 : Volume → ℤ → (entry value : ℕ) → Dev → Status × Dev
  write_fat_entry16 v fat entry x d =
      if ltb fat16_end_cluster x
      then (Status.invalid_value, d)
      else if ltb fat16_max_cluster entry
      then (Status.invalid_value, d)
      else if bad_fat v fat
      then (Status.invalid_value, d)
      else (let l : ℕ = fat_sector v fat (entry / (v.sector_size / 2)) in
          let d' = fetched d l in
          elim (reply d l) [
            | failed s ↦ (s, d')
            | got b ↦ (Status.success, release d' l (put16 b (entry % (v.sector_size / 2)) x) true)
          ])

module _ (B : Block) {v : Volume} {n : ℕ} (t : IsTable v n) where
  open B use {Dev, reply, fetched, release, reply-fetched}

  -- The sector of an entry, and its index there.
  abbrev pub sector16 : ℕ → ℕ
  sector16 entry = entry / (v.sector_size / 2)

  abbrev pub index16 : ℕ → ℕ
  index16 entry = entry % (v.sector_size / 2)

  -- Reading an entry whose sector can be fetched.
  read_ok :
      (d : Dev) (entry : ℕ)
      → entry ≤ fat16_max_cluster
      → is_got (table_reply B v n d (sector16 entry)) ≡ true
      → (read_fat_entry16 B v (pos n) entry d).0
        ≡ value (word16 (sector_of (table_reply B v n d (sector16 entry))) (index16 entry))
  unfolding read_fat_entry16
  read_ok d entry small r = rw (
    ltb-false fat16_max_cluster entry (omega arith),
    leb-false v.fat_count n (omega (arith, t.listed)),
    got-sector_of _ r,
  )

  -- Two entries with the same sector and index are the same entry.
  entry-injective : (e e' : ℕ) → sector16 e ≡ sector16 e' → index16 e ≡ index16 e' → e ≡ e'
  entry-injective e e' p q = omega (
    arith,
    div-add-mod' e (v.sector_size / 2),
    div-add-mod' e' (v.sector_size / 2),
    ap (λ (c : ℕ). c * (v.sector_size / 2)) p,
  )

  word16-put16 :
      (b : Sector) (i j x : ℕ)
      → x < 2 ^ 16
      → word16 (put16 b i x) j ≡ (if i == j then x else word16 b j)
  word16-put16 b i j x h = elim (ℕ_discrete i j) [
    | yes e ↦ rw (← e) (ground arith)
    | no ne ↦ ground arith
  ]

  -- A read of `e` after the sector of `entry` was replaced.
  word16-patched :
      (replies : ℕ → Reply) (entry e x : ℕ)
      → x < 2 ^ 16
      → value (
          word16
            (sector_of (
              if sector16 entry == sector16 e
              then got (put16 (sector_of (replies (sector16 entry))) (index16 entry) x)
              else replies (sector16 e)))
            (index16 e))
        ≡ (if entry == e
            then value x
            else value (word16 (sector_of (replies (sector16 e))) (index16 e)))
  word16-patched replies entry e x h = elim (ℕ_discrete entry e) [
    | yes q ↦ rw (← q) (
        rw (==-true (sector16 entry) _ refl, ==-true entry _ refl)
          (ap value (
            word16-put16 (sector_of (replies (sector16 entry))) (index16 entry) (index16 entry) x h
            ∙ rw (==-true (index16 entry) _ refl))))
    | no nq ↦ elim (ℕ_discrete (sector16 entry) (sector16 e)) [
      | no ns ↦ rw (==-false (sector16 entry) _ ns, ==-false entry _ nq)
      | yes p ↦
          rw (==-true (sector16 entry) _ p, ==-false entry _ nq)
            (ap value (
              word16-put16 (sector_of (replies (sector16 entry))) (index16 entry) (index16 e) x h
              ∙ rw (==-false (index16 entry) _ (λ q. nq (entry-injective entry e p q)), p)))
    ]
  ]

  -- For a table whose sectors can all be fetched and an entry and a value in range,
  -- `write_fat_entry16` succeeds; `read_fat_entry16` then returns the value at the entry, and at
  -- every other entry what it returned before.
  pub read_fat_entry16-write_fat_entry16 :
      (d : Dev) (entry x e : ℕ)
      → IsReadable B v n d
      → entry ≤ fat16_max_cluster
      → e ≤ fat16_max_cluster
      → x ≤ fat16_end_cluster
      → sector16 entry < v.fat_size
      → sector16 e < v.fat_size
      → ((write_fat_entry16 B v (pos n) entry x d).0 ≡ Status.success)
        × ((read_fat_entry16 B v (pos n) e (write_fat_entry16 B v (pos n) entry x d).1).0
            ≡ (if entry == e then value x else (read_fat_entry16 B v (pos n) e d).0))
  unfolding write_fat_entry16
  read_fat_entry16-write_fat_entry16 d entry x e ok small small' fits l l' =
      let s : ℕ = sector16 entry in
      let d' = fetched d (fat_sector v (pos n) s) in
      let ok' : IsReadable B v n d' = λ m q. rw reply-fetched (ok m q) in
      let b : Sector = put16 (sector_of (table_reply B v n d s)) (index16 entry) x in
      let d2 = release d' (fat_sector v (pos n) s) b true in
      rw
        (
          ltb-false fat16_end_cluster x (omega arith),
          ltb-false fat16_max_cluster entry (omega arith),
          leb-false v.fat_count n (omega (arith, t.listed)),
          got-sector_of _ (ok s l),
          read_ok d2 e small' (IsReadable-release B t d' s b l ok' (sector16 e) l'),
          read_ok d e small' (ok (sector16 e) l'),
          table_reply-release B t d' s b l (ok' s l) (sector16 e) l',
          reply-fetched,
        )
        (refl, word16-patched (table_reply B v n d) entry e x (omega arith))
