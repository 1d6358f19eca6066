-- ===== src/Network/Ingestion.antt =====
-- internal/network/ingestion: the providers of the subscriber (Subscriber.go, type.go).
pub mod Alternate
pub mod Header
pub mod Watchdog
pub mod Pending
pub mod Tests
use eth_mon_svr.Base.{
  ℕ, zero, suc, ◌+◌, ◌%◌, ◌≡◌, Bool, true, false, ◌||◌, List, [], ◌∷◌, Option, none, some,
  if◌then◌else◌, length, get_elem?, String, same_text,
}

abbrev pub connect_retry_count : ℕ
connect_retry_count = 3

pub record Provider : Type 0 where
  pub name : String
  pub url : String

-- `provider`: the first of that name, if it has a URL.
unfoldable pub provider : String → List Provider → Option Provider
provider name [] = none
provider name (p ∷ rest) =
    if same_text p.name name
    then (if same_text p.url "" then none else some p)
    else provider name rest

-- The index of the first provider of that name; `none` is the -1 of the code.
unfoldable pub index_of : String → List Provider → Option ℕ
index_of name [] = none
index_of name (p ∷ rest) =
    if same_text p.name name
    then some 0
    else elim (index_of name rest) [ none ↦ none | some i ↦ some (suc i) ]

unfoldable pub cur_idx : String → List Provider → ℕ
cur_idx name providers = elim (index_of name providers) [ none ↦ 0 | some i ↦ i ]

unfoldable pub is_passed_over : String → Provider → Bool
is_passed_over name p = same_text p.name name || same_text p.url ""

-- The loop from offset `i` on, for so many offsets. The inner `none` is the false of the code, the
-- outer one an index out of range.
unfoldable pub scan : ℕ → ℕ → ℕ → String → List Provider → Option (Option Provider)
scan zero i cur name providers = some none
scan (suc more) i cur name providers =
    let later = scan more (i + 1) cur name providers in
    elim (get_elem? providers ((cur + i) % length providers)) [
      | none ↦ none
      | some p ↦ if is_passed_over name p then later else some (some p)
    ]

unfoldable pub alternate_provider : String → List Provider → Option (Option Provider)
alternate_provider name [] = some none
alternate_provider name (p ∷ rest) =
    let providers = p ∷ rest in scan (length providers) 1 (cur_idx name providers) name providers
