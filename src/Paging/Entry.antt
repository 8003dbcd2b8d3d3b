-- ===== src/Paging/Entry.antt =====
-- The entries that the page tables hold.
use emos.Base.{ℕ, ◌^◌, ◌<◌, ◌≡◌, refl, Bool, true, false, arith, if◌then◌else◌, ◌||◌, ◌∙◌}
use emos.Paging.{present, base, table_entry, set_bit, has, flagged, entry_of}

-- Setting this field leaves the frame number.
abbrev Keeps : ℕ → Type 0
Keeps weight = (raw : ℕ) → base (set_bit weight raw) ≡ base raw

set_bit-present : (raw : ℕ) → present (set_bit 1 raw) ≡ true
unfolding set_bit
set_bit-present raw = ground arith

Keeps-flag1 : Keeps 1
unfolding set_bit
Keeps-flag1 raw = ground arith

Keeps-flag2 : Keeps 2
unfolding set_bit
Keeps-flag2 raw = ground arith

Keeps-flag4 : Keeps 4
unfolding set_bit
Keeps-flag4 raw = ground arith

Keeps-flag8 : Keeps 8
unfolding set_bit
Keeps-flag8 raw = ground arith

Keeps-flag16 : Keeps 16
unfolding set_bit
Keeps-flag16 raw = ground arith

Keeps-flag128 : Keeps 128
unfolding set_bit
Keeps-flag128 raw = ground arith

-- Under a test as well.
Keeps-if :
    (weight : ℕ) (b : Bool) (raw : ℕ)
    → Keeps weight
    → base (if b then set_bit weight raw else raw) ≡ base raw
Keeps-if weight true raw k = k raw
Keeps-if weight false raw k = refl

Keeps-unless :
    (weight : ℕ) (b : Bool) (raw : ℕ)
    → Keeps weight
    → base (if b then raw else set_bit weight raw) ≡ base raw
Keeps-unless weight true raw k = refl
Keeps-unless weight false raw k = k raw

base-flagged : (pfn flags : ℕ) → pfn < 2 ^ 20 → base (flagged pfn flags) ≡ pfn
unfolding flagged
base-flagged pfn flags l =
    Keeps-if 8 (has flags 8) _ Keeps-flag8
    ∙ Keeps-if 16 (has flags 4) _ Keeps-flag16
    ∙ Keeps-if 128 (has flags 4 || has flags 8) _ Keeps-flag128
    ∙ Keeps-if 4 (has flags 2) _ Keeps-flag4
    ∙ Keeps-unless 2 (has flags 1) _ Keeps-flag2
    ∙ omega arith

-- An entry that `map` writes is present, and has the frame number that it was given.
pub entry_of_lem :
    (pfn flags : ℕ)
    → pfn < 2 ^ 20
    → (present (entry_of pfn flags) ≡ true) × (base (entry_of pfn flags) ≡ pfn)
unfolding entry_of
entry_of_lem pfn flags l =
    let raw = flagged pfn flags in (set_bit-present raw, Keeps-flag1 raw ∙ base-flagged pfn flags l)

pub table_entry_lem :
    (pfn : ℕ) → pfn < 2 ^ 20 → (present (table_entry pfn) ≡ true) × (base (table_entry pfn) ≡ pfn)
table_entry_lem pfn l = (ground arith, omega arith)
