-- ===== src/Network/Ingestion/Alternate.antt =====
-- `alternateProvider` of internal/network/ingestion/Subscriber.go: which provider it finds.
use eth_mon_svr.Base.{
  ℕ, ◌+◌, ◌%◌, ◌≤◌, ◌<◌, ◌≡◌, ◌≢◌, true, false, List, Option, none, some, length, get_elem?, String,
}
use eth_mon_svr.Network.Ingestion.{Provider, is_passed_over}

-- The place of the first provider of the name; 0 where none has it.
pub data IsStart (name : String) (ps : List Provider) (start : ℕ) : Type 0 where
  at_name :
      (p : Provider)
      → get_elem? ps start ≡ some p
      → p.name ≡ name
      → ((k : ℕ) (q : Provider) → k < start → get_elem? ps k ≡ some q → q.name ≢ name)
      → IsStart name ps start
  no_name :
      start ≡ 0
      → ((k : ℕ) (q : Provider) → get_elem? ps k ≡ some q → q.name ≢ name)
      → IsStart name ps start

-- What `index_of` finds.
unfoldable Found : String → List Provider → Option ℕ → Type 0
Found name ps none = (k : ℕ) (q : Provider) → get_elem? ps k ≡ some q → q.name ≢ name
Found name ps (some i) =
    (p : Provider) × (get_elem? ps i ≡ some p)
    × (p.name ≡ name)
    × ((k : ℕ) (q : Provider) → k < i → get_elem? ps k ≡ some q → q.name ≢ name)

-- No provider of the list is of the name, or none before place `i`.
abbrev AreOther : String → List Provider → (ℕ → Type 0) → Type 0
AreOther name ps here = (k : ℕ) (q : Provider) → here k → get_elem? ps k ≡ some q → q.name ≢ name

-- The provider at offset `j` from place `cur`.
abbrev pub at_offset : List Provider → ℕ → ℕ → Option Provider
at_offset ps cur j = get_elem? ps ((cur + j) % length ps)

-- The providers at the offsets from `i` up to `j` have that name or no URL.
pub record ArePassed (name : String) (ps : List Provider) (cur i j : ℕ) : Type 0 where
  pub passed :
      (k : ℕ) (p : Provider)
      → i ≤ k
      → k < j
      → at_offset ps cur k ≡ some p
      → is_passed_over name p ≡ true

-- The first provider from offset `i` on that is not passed over is `q`.
pub record IsFirst (name : String) (ps : List Provider) (cur i : ℕ) (q : Provider) : Type 0 where
  pub offset : ℕ
  pub from : i ≤ offset
  pub found : at_offset ps cur offset ≡ some q
  pub usable : is_passed_over name q ≡ false
  pub before : ArePassed name ps cur i offset
