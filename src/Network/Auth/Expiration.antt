-- ===== src/Network/Auth/Expiration.antt =====
-- `parseJWTExpiration` and what `authenticate` of internal/network/auth/tokenManager.go makes of an answer.
use eth_mon_svr.Base.{
  ℕ, ◌*◌, ◌≡◌, ◌≢◌, refl, subst, sym, true, false, String, same_text, same_text_iff, arith,
  Bool-cases, inl, inr, ◌⊎◌, ◌∙◌,
}
use eth_mon_svr.Network.Auth.{
  AuthService, Claims, exp, invalid_jwt, no_exp, other_type, AuthError, token_empty, bad_jwt,
  expiration_missing, bad_exp_type, bad_exp, Result, ok, error, with_expiration, expiration,
}

pub not_empty : (token : String) → same_text token "" ≡ false → token ≢ ""
not_empty token there e = let is_empty = (same_text_iff token "").1 e in absurd (cc)

pub differs : {token : String} → token ≢ "" → same_text token "" ≡ false
differs {token} there = elim (Bool-cases (same_text token "")) [
  | inl empty ↦ absurd (there ((same_text_iff token "").0 empty))
  | inr other ↦ other
]

expiration-cases :
    (c : Claims) → ((t : ℕ) × (expiration c ≡ ok t)) ⊎ ((e : AuthError) × (expiration c ≡ error e))
unfolding expiration
expiration-cases invalid_jwt = inr (bad_jwt, refl)
expiration-cases no_exp = inr (expiration_missing, refl)
expiration-cases other_type = inr (bad_exp_type, refl)
expiration-cases (exp false seconds) = inr (bad_exp, refl)
expiration-cases (exp true seconds) = inl (_, refl)

pub with_expiration-cases :
    {W : Type 0} (service : AuthService W) (answer : Result String)
    → ((token : String) × (t : ℕ) × (with_expiration service answer ≡ ok (token, t))
        × (same_text token "" ≡ false))
      ⊎ ((e : AuthError) × (with_expiration service answer ≡ error e))
unfolding with_expiration
with_expiration-cases service (error e) = inr (e, refl)
with_expiration-cases service (ok token) = elim (Bool-cases (same_text token "")) [
  | inl empty ↦ inr (token_empty, rw empty refl)
  | inr there ↦ elim (expiration-cases (service.parse_unverified token)) [
    | inl (t, at) ↦ inl (token, t, rw (there, at) refl, there)
    | inr (e, at) ↦ inr (e, rw (there, at) refl)
  ]
]

expiration-exp :
    (c : Claims) (t : ℕ)
    → expiration c ≡ ok t
    → (seconds : ℕ) × (c ≡ exp true seconds) × (t ≡ seconds * 1000000000)
unfolding expiration
expiration-exp invalid_jwt t e = absurd (cc)
expiration-exp no_exp t e = absurd (cc)
expiration-exp other_type t e = absurd (cc)
expiration-exp (exp false seconds) t e = absurd (cc)
expiration-exp (exp true seconds) t e = (seconds, refl, cc)

module _ {W : Type 0} (service : AuthService W) where
  pub with_expiration-ok :
      (answer : Result String) (token : String) (t : ℕ)
      → with_expiration service answer ≡ ok (token, t)
      → (token ≢ "")
        × ((seconds : ℕ) × (service.parse_unverified token ≡ exp true seconds)
            × (t ≡ seconds * 1000000000))
  unfolding with_expiration
  with_expiration-ok (error e) token t same = absurd (cc)
  with_expiration-ok (ok got) token t same = elim (Bool-cases (same_text got "")) [
    | inl blank ↦ absurd (ground (arith, blank, same))
    | inr there ↦ elim (expiration-cases (service.parse_unverified got)) [
      | inr (e, at) ↦ absurd (ground (arith, there, at, same))
      | inl (t', at) ↦
          let own : got ≡ token = ground (arith, there, at, same) in
          let own_t : t' ≡ t = ground (arith, there, at, same) in
          let (seconds, parsed, time) = expiration-exp (service.parse_unverified got) t' at in
          (
            subst (λ x. x ≢ "") own (not_empty got there),
            (
              seconds,
              subst (λ x. service.parse_unverified x ≡ exp true seconds) own parsed,
              sym own_t ∙ time,
            ),
          )
    ]
  ]
