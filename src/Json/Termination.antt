-- ===== src/Json/Termination.antt =====
-- The reader of any value ends.
use emos.Base.{ℕ, suc, ◌<◌, List, length}
use emos.Status.{Status}
use emos.Json.{Result}
use emos.Json.Ends.{Below}

-- A reader that ends on every text shorter than this.
abbrev EndsBelow {ℓ} : {A : Type ℓ} (n : ℕ) → (List ℕ → Result A) → Type 0
EndsBelow n read = (text : List ℕ) → length text < n → Below (suc (length text)) (read text)
