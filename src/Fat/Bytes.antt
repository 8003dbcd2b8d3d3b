-- ===== src/Fat/Bytes.antt =====
-- A table as a row of bytes, through its sectors.
use emos.Base.{
  ℕ, ◌+◌, ◌-◌, ◌*◌, ◌/◌, ◌%◌, ◌^◌, ◌≤◌, ◌<◌, ◌≡◌, refl, true, arith, ◌==◌, if◌then◌else◌, dec_lt,
  ap, ◌⊎◌, inl, inr, Bool-cases,
}
use native.Mathlib.Nat.{div-lt_iff_lt-mul, div-eq_of_lt-le, div-add-mod', mod-lt}
use emos.Base.Int.{pos}
use emos.Fat.Block.{Block, Sector, Reply, got, failed, is_got}
use emos.Fat.Volume.{Volume, fat_sector}

abbrev pub sector_of : Reply → Sector
sector_of (got b) = b
sector_of (failed s) = λ i. 0

pub got-sector_of : (r : Reply) → is_got r ≡ true → r ≡ got (sector_of r)
got-sector_of (got b) h = refl
got-sector_of (failed s) h = cc

-- The table `n` of a volume: its sectors have at least two bytes, and their numbers do not wrap.
pub record IsTable (v : Volume) (n : ℕ) : Type 0 where
  pub listed : n < v.fat_count
  pub wide : 1 < v.sector_size
  pub span : v.reserved_sectors + n * v.fat_size + v.fat_size ≤ 2 ^ 32

-- The bytes of a table.
abbrev pub table_size : Volume → ℕ
table_size v = v.fat_size * v.sector_size

module _ (B : Block) (v : Volume) (n : ℕ) where
  open B use {Dev, reply, fetched, release}

  -- The reply for the `s`-th sector of the table.
  abbrev pub table_reply : Dev → ℕ → Reply
  table_reply d s = reply d (fat_sector v (pos n) s)

  -- Every sector of the table can be fetched.
  abbrev pub IsReadable : Dev → Type 0
  IsReadable d = (s : ℕ) → s < v.fat_size → is_got (table_reply d s) ≡ true

  abbrev pub byte_at : Dev → ℕ → ℕ
  byte_at d k = sector_of (table_reply d (k / v.sector_size)) (k % v.sector_size)

  -- What is stored in the table is bytes.
  abbrev pub HasBytes : Dev → Type 0
  HasBytes d = (k : ℕ) → byte_at d k < 256

module _ {v : Volume} {n : ℕ} (t : IsTable v n) where
  -- The sectors of a table are different sectors of the device.
  pub fat_sector-injective :
      (s s' : ℕ)
      → s < v.fat_size
      → s' < v.fat_size
      → fat_sector v (pos n) s ≡ fat_sector v (pos n) s'
      → s ≡ s'
  fat_sector-injective s s' l l' e = omega (arith, t.span)

  -- A byte of the table lies in one of its sectors.
  pub sector_in : (k : ℕ) → k < table_size v → k / v.sector_size < v.fat_size
  sector_in k h = (div-lt_iff_lt-mul (omega (arith, t.wide))).1 h

  -- A quotient and a remainder are known by the number that they make up.
  divide_at :
      (k q r : ℕ)
      → q * v.sector_size + r ≡ k
      → r < v.sector_size
      → (k / v.sector_size ≡ q) × (k % v.sector_size ≡ r)
  divide_at k q r e l =
      let quotient : k / v.sector_size ≡ q =
        div-eq_of_lt-le v.sector_size (omega (arith, e)) (omega (arith, e)) in
      (
        quotient,
        omega (arith, e, div-add-mod' k v.sector_size, ap (λ (c : ℕ). c * v.sector_size) quotient),
      )

  -- The byte behind one that does not end its sector, and behind one that does.
  pub next_inside :
      (k : ℕ)
      → k % v.sector_size < v.sector_size - 1
      → ((k + 1) / v.sector_size ≡ k / v.sector_size)
        × ((k + 1) % v.sector_size ≡ k % v.sector_size + 1)
  next_inside k h =
      divide_at (k + 1) (k / v.sector_size) (k % v.sector_size + 1)
        (omega (arith, div-add-mod' k v.sector_size)) (omega arith)

  pub next_across :
      (k : ℕ)
      → k % v.sector_size ≡ v.sector_size - 1
      → ((k + 1) / v.sector_size ≡ k / v.sector_size + 1) × ((k + 1) % v.sector_size ≡ 0)
  next_across k h =
      divide_at (k + 1) (k / v.sector_size + 1) 0
        (omega (arith, t.wide, div-add-mod' k v.sector_size)) (omega (arith, t.wide))

  -- A byte either ends its sector or does not.
  pub last_or_not :
      (k : ℕ) → (k % v.sector_size < v.sector_size - 1) ⊎ (k % v.sector_size ≡ v.sector_size - 1)
  last_or_not k = elim (dec_lt (k % v.sector_size) (v.sector_size - 1)) [
    | yes h ↦ inl h
    | no h ↦ inr (omega (arith, t.wide, mod-lt k {m = v.sector_size}))
  ]

  -- Two bytes at the same place are the same byte.
  pub byte-injective :
      (k j : ℕ)
      → k / v.sector_size ≡ j / v.sector_size
      → k % v.sector_size ≡ j % v.sector_size
      → k ≡ j
  byte-injective k j e e' = omega (
    arith,
    div-add-mod' k v.sector_size,
    div-add-mod' j v.sector_size,
    ap (λ (c : ℕ). c * v.sector_size) e,
  )

-- A sector of the table is released with new bytes.
module _ (B : Block) {v : Volume} {n : ℕ} (t : IsTable v n) (d : B.Dev) (s : ℕ) (b : Sector) where
  open B use {Dev, reply, release, reply-release}

  abbrev after : Dev
  after = release d (fat_sector v (pos n) s) b true

  pub table_reply-release :
      s < v.fat_size
      → is_got (table_reply B v n d s) ≡ true
      → (m : ℕ) → m < v.fat_size
      → table_reply B v n after m ≡ (if s == m then got b else table_reply B v n d m)
  table_reply-release l r m k = ground (
    arith,
    reply-release d (fat_sector v (pos n) s) (fat_sector v (pos n) m) b true,
    fat_sector-injective t s m l k,
  )

  -- Every sector that could be fetched can be fetched still.
  pub IsReadable-release : s < v.fat_size → IsReadable B v n d → IsReadable B v n after
  IsReadable-release l ok m k =
      rw (table_reply-release l (ok s l) m k)
        (elim (Bool-cases (s == m)) [ inl e ↦ rw e | inr e ↦ rw e (ok m k) ])

  pub byte_at-release :
      s < v.fat_size
      → IsReadable B v n d
      → (j : ℕ) → j < table_size v
      → byte_at B v n after j
        ≡ (if s == j / v.sector_size then b (j % v.sector_size) else byte_at B v n d j)
  byte_at-release l ok j k =
      rw (table_reply-release l (ok s l) (j / v.sector_size) (sector_in t j k))
        (elim (Bool-cases (s == j / v.sector_size)) [ inl e ↦ rw e | inr e ↦ rw e ])
