-- ===== src/Base/TextMap.antt =====
-- Go maps keyed by strings, as association lists.
use Prim.Native.String.{String}
use mathlib.Core.Path.{◌≡◌, refl, sym, ◌∙◌}
use mathlib.Core.Logic.{inl, inr}
use mathlib.Core.Bool.{true}
use mathlib.Core.Option.{Option, none, some}
use mathlib.Core.List.{List, [], ◌∷◌}
use native.Mathlib.Omega.{arith}
use eth_mon_svr.Base.Tests.{if◌then◌else◌, Bool-cases}
use eth_mon_svr.Base.Texts.{same_text, same_text_iff}

abbrev pub TextMap {ℓ} : Type ℓ → Type ℓ
TextMap V = List (String × V)

module _ {ℓ} {V : Type ℓ} where
  -- `v, ok := m[k]`
  unfoldable pub get : String → TextMap V → Option V
  get k [] = none
  get k ((j, v) ∷ m) = if same_text j k then some v else get k m

  -- `m[k] = v`: a new key is visited last.
  unfoldable pub put : String → V → TextMap V → TextMap V
  put k v [] = (k, v) ∷ []
  put k v ((j, w) ∷ m) = if same_text j k then (j, v) ∷ m else (j, w) ∷ put k v m

  pub get-put :
      (k j : String) (v : V) (m : TextMap V)
      → get j (put k v m) ≡ (if same_text k j then some v else get j m)
  unfolding get put
  get-put k j v [] = refl
  get-put k j v ((i, w) ∷ m) = elim (Bool-cases (same_text i k)) [
    | inl same ↦ let e : i ≡ k = (same_text_iff i k).0 same in rw same (ground (arith, e))
    | inr other ↦ elim (Bool-cases (same_text i j)) [
      | inr later ↦ rw (other, later) (get-put k j v m)
      | inl here ↦ elim (Bool-cases (same_text k j)) [
        | inr apart ↦ rw (other, here, apart) refl
        | inl also ↦
            let e : i ≡ j = (same_text_iff i j).0 here in
            let e' : k ≡ j = (same_text_iff k j).0 also in
            let clash : same_text i k ≡ true = (same_text_iff i k).1 (e ∙ sym e') in absurd (cc)
      ]
    ]
  ]
