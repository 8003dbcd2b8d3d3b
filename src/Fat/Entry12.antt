-- ===== src/Fat/Entry12.antt =====
-- Entries of a 12-bit table: two entries share a byte, and a write of one leaves the other.
use emos.Base.{
  ℕ, ◌+◌, ◌%◌, ◌≤◌, ◌<◌, ◌≡◌, true, false, arith, ◌==◌, if◌then◌else◌, ◌⊎◌, inl, inr, ap, ap₂, ◌∙◌,
  sym, ◌≢◌, ℕ_discrete, ==-false,
}
use emos.Base.Int.{pos}
use emos.Status.{Status}
use emos.Fat.Block.{Block}
use emos.Fat.Volume.{
  Volume, value, decode12, low12, high12, is_odd, fat12_max_cluster, fat12_end_cluster,
  read_fat_entry12, write_fat_entry12,
}
use emos.Fat.Nibbles.{
  is_odd_lem, decode12-odd, decode12-even, low12-odd, low12-even, high12-odd, high12-even,
}
use emos.Fat.Bytes.{IsTable, IsReadable, HasBytes, byte_at, table_size}
use emos.Fat.Read12.{byte_of, read_fat_entry12-decode12}
use emos.Fat.Write12.{write_fat_entry12-Patched}

-- The entry `e` of a row of bytes.
abbrev entry_in : (ℕ → ℕ) → ℕ → ℕ
entry_in f e = decode12 (is_odd e) (f (byte_of e)) (f (byte_of e + 1))

-- The row after a write of `x` at the entry `e`.
abbrev patch : (ℕ → ℕ) → (e x : ℕ) → ℕ → ℕ
patch f e x j =
    if byte_of e == j
    then low12 (is_odd e) x (f (byte_of e))
    else if byte_of e + 1 == j
    then high12 (is_odd e) x (f (byte_of e + 1))
    else f j

-- The parity of an entry, as the code tests it.
parity : (e : ℕ) → e < 4096 → ((is_odd e ≡ true) × (e % 2 ≡ 1)) ⊎ ((is_odd e ≡ false) × (e % 2 ≡ 0))
parity e h = rw (is_odd_lem e h) (elim (ℕ_discrete (e % 2) 1) [
  | yes p ↦ inl (rw p, p)
  | no p ↦ inr (==-false _ _ p, omega arith)
])

module _ (f : ℕ → ℕ) (bytes : (j : ℕ) → f j < 256) (e x : ℕ) (small : e < 4096)
    (fits : x < 4096) where
  entry_in-patch_self : entry_in (patch f e x) e ≡ x
  entry_in-patch_self = elim (parity e small) [
    | inl (o, p) ↦ rw o (
        ground (
          arith,
          low12-odd x (f (byte_of e)) fits (bytes (byte_of e)),
          high12-odd x (f (byte_of e + 1)) fits (bytes (byte_of e + 1)),
          decode12-odd (low12 true x (f (byte_of e))) (high12 true x (f (byte_of e + 1))),
        ))
    | inr (o, p) ↦ rw o (
        ground (
          arith,
          low12-even x (f (byte_of e)) fits (bytes (byte_of e)),
          high12-even x (f (byte_of e + 1)) fits (bytes (byte_of e + 1)),
          decode12-even (low12 false x (f (byte_of e))) (high12 false x (f (byte_of e + 1))),
          bytes (byte_of e + 1),
        ))
  ]

  entry_in-patch_ne : (e' : ℕ) → e' < 4096 → e ≢ e' → entry_in (patch f e x) e' ≡ entry_in f e'
  entry_in-patch_ne e' small' ne = elim (parity e small) [
    | inl (o, p) ↦ elim (parity e' small') [
      | inl (o', p') ↦ rw (o, o') (ground arith)
      | inr (o', p') ↦
          rw (o, o')
            (ground (
              arith,
              low12-odd x (f (byte_of e)) fits (bytes (byte_of e)),
              bytes (byte_of e'),
              bytes (byte_of e' + 1),
              decode12-even (f (byte_of e')) (low12 true x (f (byte_of e))),
              decode12-even (f (byte_of e')) (f (byte_of e' + 1)),
            ))
    ]
    | inr (o, p) ↦ elim (parity e' small') [
      | inl (o', p') ↦
          rw (o, o')
            (ground (
              arith,
              high12-even x (f (byte_of e + 1)) fits (bytes (byte_of e + 1)),
              bytes (byte_of e'),
              bytes (byte_of e' + 1),
              decode12-odd (high12 false x (f (byte_of e + 1))) (f (byte_of e' + 1)),
              decode12-odd (f (byte_of e')) (f (byte_of e' + 1)),
            ))
      | inr (o', p') ↦ rw (o, o') (ground arith)
    ]
  ]

module _ (B : Block) {v : Volume} {n : ℕ} (t : IsTable v n) (d : B.Dev) (ok : IsReadable B v n d)
    (stored : HasBytes B v n d) (entry x : ℕ) (small : entry ≤ fat12_max_cluster)
    (fits : x ≤ fat12_end_cluster) (inside : byte_of entry + 1 < table_size v) where
  open B use {Dev}

  abbrev written : Dev
  written = (write_fat_entry12 B v (pos n) entry x d).1

  -- What a read sees after the write, at any entry of the table.
  read-written :
      (e : ℕ)
      → e ≤ fat12_max_cluster
      → byte_of e + 1 < table_size v
      → (read_fat_entry12 B v (pos n) e written).0
        ≡ value (entry_in (patch (byte_at B v n d) entry x) e)
  read-written e small' inside' =
      let w = write_fat_entry12-Patched B t d ok entry x small fits inside in
      read_fat_entry12-decode12 B t written e w.readable small' inside'
      ∙ ap value (
          ap₂ (decode12 (is_odd e)) (w.bytes (byte_of e) (omega arith))
            (w.bytes (byte_of e + 1) inside'))

  -- For a table of bytes whose sectors can all be fetched, an entry that lies in it and a value of
  -- 12 bits, `write_fat_entry12` succeeds, and `read_fat_entry12` then returns the value.
  pub read_fat_entry12-write_fat_entry12 :
      ((write_fat_entry12 B v (pos n) entry x d).0 ≡ Status.success)
      × ((read_fat_entry12 B v (pos n) entry written).0 ≡ value x)
  read_fat_entry12-write_fat_entry12 = (
    (write_fat_entry12-Patched B t d ok entry x small fits inside).done,
    read-written entry small inside
        ∙ ap value
            (entry_in-patch_self (byte_at B v n d) stored entry x (omega arith) (omega arith)),
  )

  -- Under the same conditions, every other entry of the table reads as it did before the write,
  -- also the neighbour that shares a byte with the entry.
  pub read_fat_entry12-write_fat_entry12_ne :
      (e : ℕ)
      → e ≤ fat12_max_cluster
      → byte_of e + 1 < table_size v
      → entry ≢ e
      → (read_fat_entry12 B v (pos n) e written).0 ≡ (read_fat_entry12 B v (pos n) e d).0
  read_fat_entry12-write_fat_entry12_ne e small' inside' ne =
      read-written e small' inside'
      ∙ ap value (
          entry_in-patch_ne (byte_at B v n d) stored entry x (omega arith) (omega arith) e
            (omega arith) ne)
      ∙ sym (read_fat_entry12-decode12 B t d e ok small' inside')
