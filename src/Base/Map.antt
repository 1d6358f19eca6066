-- ===== src/Base/Map.antt =====
-- Go maps keyed by numbers (block numbers, nonces, hashes, addresses), as association lists. The
-- order of the list stands for the order in which a `range` happens to visit the entries.
use Prim.Native.Nat.{ℕ, suc, ◌≤◌, ◌<◌}
use mathlib.Core.Path.{◌≡◌, refl}
use mathlib.Core.Logic.{inl, inr}
use mathlib.Core.Bool.{Bool, true, false}
use mathlib.Core.Option.{Option, none, some}
use mathlib.Core.List.{List, [], ◌∷◌}
use native.Mathlib.Omega.{arith}
use eth_mon_svr.Base.Tests.{◌==◌, if◌then◌else◌, elem, Bool-cases}
use eth_mon_svr.Base.Lists.{length}

abbrev pub Map {ℓ} : Type ℓ → Type ℓ
Map V = List (ℕ × V)

module _ {ℓ} {V : Type ℓ} where
  -- `v, ok := m[k]`
  unfoldable pub get : ℕ → Map V → Option V
  get k [] = none
  get k ((j, v) ∷ m) = if j == k then some v else get k m

  -- `m[k] = v`: a new key is visited last.
  unfoldable pub put : ℕ → V → Map V → Map V
  put k v [] = (k, v) ∷ []
  put k v ((j, w) ∷ m) = if j == k then (k, v) ∷ m else (j, w) ∷ put k v m

  -- `delete(m, k)`
  unfoldable pub delete : ℕ → Map V → Map V
  delete k [] = []
  delete k ((j, v) ∷ m) = let rest = delete k m in if j == k then rest else (j, v) ∷ rest

  -- `len(m) == 0`
  unfoldable pub is_empty : Map V → Bool
  is_empty [] = true
  is_empty (e ∷ m) = false

  -- The keys in the order of a `range`.
  unfoldable pub keys : Map V → List ℕ
  keys [] = []
  keys ((j, v) ∷ m) = j ∷ keys m

  pub get-put :
      (k j : ℕ) (v : V) (m : Map V) → get j (put k v m) ≡ (if k == j then some v else get j m)
  unfolding get put
  get-put k j v [] = refl
  get-put k j v ((i, w) ∷ m) = ground (arith, get-put k j v m)

  pub get-delete : (k j : ℕ) (m : Map V) → get j (delete k m) ≡ (if k == j then none else get j m)
  unfolding get delete
  get-delete k j [] = ground arith
  get-delete k j ((i, w) ∷ m) = ground (arith, get-delete k j m)

  pub get-is_empty : (m : Map V) (k : ℕ) → is_empty m ≡ true → get k m ≡ none
  unfolding get is_empty
  get-is_empty [] k h = refl
  get-is_empty (e ∷ m) k h = absurd (cc)

  pub keys-get : (m : Map V) (k : ℕ) (v : V) → get k m ≡ some v → elem k (keys m) ≡ true
  unfolding get keys
  keys-get [] k v e = absurd (cc)
  keys-get ((j, w) ∷ m) k v e = elim (Bool-cases (j == k)) [
    | inl here ↦ rw here
    | inr later ↦ rw later (keys-get m k v (ground arith))
  ]

  pub get-keys : (m : Map V) (k : ℕ) → elem k (keys m) ≡ true → (v : V) × (get k m ≡ some v)
  unfolding get keys
  get-keys [] k e = absurd (cc)
  get-keys ((j, w) ∷ m) k e = elim (Bool-cases (j == k)) [
    | inl here ↦ (w, rw here)
    | inr later ↦ let (v, there) = get-keys m k (ground arith) in (v, rw later there)
  ]

  pub length-delete_le : (k : ℕ) (m : Map V) → length (delete k m) ≤ length m
  unfolding delete
  length-delete_le k [] = omega arith
  length-delete_le k ((j, w) ∷ m) = ground (arith, length-delete_le k m)

  pub length-delete_lt :
      (k : ℕ) (v : V) (m : Map V) → get k m ≡ some v → length (delete k m) < length m
  unfolding get delete
  length-delete_lt k v [] e = absurd (cc)
  length-delete_lt k v ((j, w) ∷ m) e = ground (arith, length-delete_le k m, length-delete_lt k v m)

  pub length-put_old :
      (k : ℕ) (v w : V) (m : Map V) → get k m ≡ some v → length (put k w m) ≡ length m
  unfolding get put
  length-put_old k v w [] e = absurd (cc)
  length-put_old k v w ((j, u) ∷ m) e = ground (arith, length-put_old k v w m)

  pub length-put_le : (k : ℕ) (w : V) (m : Map V) → length (put k w m) ≤ suc (length m)
  unfolding put
  length-put_le k w [] = omega arith
  length-put_le k w ((j, u) ∷ m) = ground (arith, length-put_le k w m)
