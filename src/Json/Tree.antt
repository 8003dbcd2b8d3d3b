-- ===== src/Json/Tree.antt =====
-- boot/include/eboot/json.h: the values that the reader builds.
use emos.Base.{ℕ, Bool, List}

-- A number is the 64-bit word of an `int64_t`. The lists of an object and of an array are those of
-- their elements through `next`.
mutual
  pub data Value : Type 0 where
    null : Value
    string : (str : List ℕ) → Value
    number : (num : ℕ) → Value
    boolean : Bool → Value
    object : Members → Value
    array : Items → Value

  pub data Members : Type 0 where
    no_member : Members
    member : (key : List ℕ) (value : Value) (next : Members) → Members

  pub data Items : Type 0 where
    no_item : Items
    item : (index : ℕ) (value : Value) (next : Items) → Items
