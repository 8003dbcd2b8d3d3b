-- ===== src/Json/Find.antt =====
-- The part of boot/json/json.c that looks a value up.
use emos.Base.{ℕ, ◌+◌, ◌%◌, ◌^◌, List, Option, none, some, ◌==◌, if◌then◌else◌, length}
use emos.Shell.Expand.{is_equal_in}
use emos.Json.Tree.{Value, Members, Items}

-- The value, where STATUS_SUCCESS is returned. `strcmp` is `strncmp` with a bound that no text meets.
unfoldable pub object_find_value : Members → (str : List ℕ) → Option Value
object_find_value Members.no_member str = none
object_find_value (Members.member key value next) str =
    if is_equal_in (length str) str key then some value else object_find_value next str

unfoldable pub array_find_value : Items → (idx : ℕ) → Option Value
array_find_value Items.no_item idx = none
array_find_value (Items.item index value next) idx =
    if index == idx then some value else array_find_value next idx

-- The loop over the elements, with `count` so far.
unfoldable pub count_loop : (count : ℕ) → Items → ℕ
count_loop count Items.no_item = count
count_loop count (Items.item index value next) = count_loop ((count + 1) % 2 ^ 32) next

unfoldable pub array_get_element_count : Items → ℕ
unfolding count_loop
array_get_element_count items = count_loop 0 items
