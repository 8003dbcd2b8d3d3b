-- ===== src/Fat/Tests.antt =====
-- The table functions on a device in memory: three sectors of four bytes hold one table.
use emos.Base.{
  ℕ, zero, suc, ◌+◌, ◌-◌, ◌*◌, ◌≡◌, refl, Bool, true, false, List, [], ◌∷◌, arith, ◌==◌,
  if◌then◌else◌, ◌&&◌, get_or, leb, ◌/◌, ◌%◌, ◌^◌, ==-true, ==-false, ℕ_discrete, Bool-cases, inl,
  inr,
}
use emos.Base.Int.{pos, negsuc}
use emos.Status.{Status}
use emos.Pma.Packed.{get_or-lt}
use emos.Fat.Block.{Block, Sector, Reply, got, failed, is_got}
use emos.Fat.Volume.{
  Volume, value, error, decode12, read_fat_entry12, write_fat_entry12, read_tail12,
}
use emos.Fat.Bytes.{IsTable, IsReadable, HasBytes}
use emos.Fat.Held12.{write_fat_entry12-held}
use emos.Fat.Entry12.{read_fat_entry12-write_fat_entry12, read_fat_entry12-write_fat_entry12_ne}
use emos.Fat.Entry16.{read_fat_entry16, write_fat_entry16, read_fat_entry16-write_fat_entry16}

-- Sectors from `size` on cannot be fetched.
record Memory : Type 0 where
  size : ℕ
  at : ℕ → Sector
  pins : ℕ → ℕ

abbrev memory_reply : Memory → ℕ → Reply
memory_reply d l = if leb d.size l then failed Status.unknown_error else got (d.at l)

abbrev memory_fetched : Memory → ℕ → Memory
memory_fetched d l = record d {
  pins = λ m. d.pins m + (if (l == m) && is_got (memory_reply d l) then 1 else 0);
}

abbrev memory_release : Memory → ℕ → Sector → Bool → Memory
memory_release d l b dirty = record d {
  at = λ m. if dirty && (l == m) then b else d.at m;
  pins = λ m. d.pins m - (if l == m then 1 else 0);
}

memory_law :
    (d : Memory) (l m : ℕ) (b : Sector) (dirty : Bool)
    → is_got (memory_reply d l) ≡ true
    → memory_reply (memory_release d l b dirty) m
      ≡ (if dirty && (l == m) then got b else memory_reply d m)
memory_law d l m b true h = elim (ℕ_discrete l m) [
  | yes e ↦
      rw (==-true l m e, ← e) (elim (Bool-cases (leb d.size l)) [ inl k ↦ cc k | inr k ↦ rw k ])
  | no ne ↦ rw (==-false l m ne)
]
memory_law d l m b false h = refl

abbrev memory : Block
memory = record {
  Dev = Memory;
  reply = memory_reply;
  fetched = memory_fetched;
  release = memory_release;
  held = λ d. d.pins;
  reply-fetched = λ d l m. refl;
  reply-release = memory_law;
  held-fetched = λ d l m. refl;
  held-release = λ d l m b dirty. refl;
}

abbrev volume : Volume
volume = record { fat_count = 1; reserved_sectors = 0; sector_size = 4; fat_size = 3 }

-- The entries 0 to 7: 0xff8, 0xfff, 0x003, 0x004, 0xfff, 0, 0, 0.
abbrev bytes : List ℕ
bytes = 0xf8 ∷ 0xff ∷ 0xff ∷ 0x03 ∷ 0x40 ∷ 0x00 ∷ 0xff ∷ 0x0f ∷ 0 ∷ 0 ∷ 0 ∷ 0 ∷ []

abbrev device : Memory
device = record { size = 3; at = λ l i. get_or bytes (l * 4 + i) 0; pins = λ l. 0 }

-- The entry 2 has its first byte at the end of the first sector.
read_two : (read_fat_entry12 memory volume (pos 0) 2 device).0 ≡ value 0x003
unfolding read_fat_entry12 read_tail12 decode12
read_two = refl

read_three : (read_fat_entry12 memory volume (pos 0) 3 device).0 ≡ value 0x004
unfolding read_fat_entry12 read_tail12 decode12
read_three = refl

read_bad_table : (read_fat_entry12 memory volume (negsuc 0) 2 device).0 ≡ error Status.invalid_value
unfolding read_fat_entry12
read_bad_table = refl

table : IsTable volume 0
table = omega arith

readable : IsReadable memory volume 0 device
readable zero l = refl
readable (suc zero) l = refl
readable (suc (suc zero)) l = refl
readable (suc (suc (suc s))) l = absurd (omega arith)

stored : HasBytes memory volume 0 device
stored k = elim (Bool-cases (leb 3 ((0 + k / 4) % 2 ^ 32))) [
  | inl h ↦ rw h (omega arith)
  | inr h ↦ rw h (get_or-lt bytes _ (omega arith))
]

read_fat_entry12-write_fat_entry12_example :
    ((write_fat_entry12 memory volume (pos 0) 2 0xabc device).0 ≡ Status.success)
    × ((read_fat_entry12 memory volume
          (pos 0)
          2
          (write_fat_entry12 memory volume (pos 0) 2 0xabc device).1).0
        ≡ value 0xabc)
read_fat_entry12-write_fat_entry12_example =
    read_fat_entry12-write_fat_entry12 memory table device readable stored 2 0xabc (omega arith)
      (omega arith) (omega arith)

read_fat_entry12-write_fat_entry12_ne_example :
    (read_fat_entry12 memory volume
      (pos 0)
      3
      (write_fat_entry12 memory volume (pos 0) 2 0xabc device).1).0
    ≡ (read_fat_entry12 memory volume (pos 0) 3 device).0
read_fat_entry12-write_fat_entry12_ne_example =
    read_fat_entry12-write_fat_entry12_ne memory table device readable stored 2 0xabc (omega arith)
      (omega arith) (omega arith) 3 (omega arith) (omega arith) (omega arith)

-- The second fetch fails: the table ends in the middle of the entry 2.
abbrev short_device : Memory
short_device = record device { size = 1 }

read_short : (read_fat_entry12 memory volume (pos 0) 2 short_device).0 ≡ error Status.unknown_error
unfolding read_fat_entry12 read_tail12
read_short = refl

write_fat_entry12-held_example :
    (write_fat_entry12 memory volume (pos 0) 2 0xabc short_device).1.pins 0 ≡ short_device.pins 0
write_fat_entry12-held_example = write_fat_entry12-held memory volume (pos 0) 2 0xabc short_device 0

read_fat_entry16-write_fat_entry16_example :
    ((write_fat_entry16 memory volume (pos 0) 3 0xfff8 device).0 ≡ Status.success)
    × ((read_fat_entry16 memory volume
          (pos 0)
          4
          (write_fat_entry16 memory volume (pos 0) 3 0xfff8 device).1).0
        ≡ (read_fat_entry16 memory volume (pos 0) 4 device).0)
read_fat_entry16-write_fat_entry16_example =
    read_fat_entry16-write_fat_entry16 memory table device 3 0xfff8 4 readable (omega arith)
      (omega arith) (omega arith) (omega arith) (omega arith)
