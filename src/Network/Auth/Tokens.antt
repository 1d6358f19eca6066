-- ===== src/Network/Auth/Tokens.antt =====
-- `GetAccessToken` of internal/network/auth/tokenManager.go.
use eth_mon_svr.Base.{
  ℕ, ◌+◌, ◌*◌, ◌<◌, ◌≤◌, ◌≡◌, ◌≢◌, refl, ap, ltb, some, subst, sym, true, String, same_text, arith,
  Bool-cases, inl, inr, ◌⊎◌,
}
use eth_mon_svr.Network.Auth.Expiration.{
  not_empty, differs, with_expiration-cases, with_expiration-ok,
}
use eth_mon_svr.Network.Auth.{
  TokenManager, AuthService, exp, AuthError, ok, error, is_access_token_valid, request_token,
  authenticate, refreshed, get_access_token,
}

valid_not_empty :
    (now : ℕ) (m : TokenManager) → is_access_token_valid now m ≡ true → m.access_token ≢ ""
unfolding is_access_token_valid
valid_not_empty now m valid = elim (Bool-cases (same_text m.access_token "")) [
  | inl empty ↦ absurd (ground arith)
  | inr there ↦ not_empty m.access_token there
]

module _ {W : Type 0} (service : AuthService W) where
  -- Either `GetAccessToken` returns a token that is not empty, and the manager then holds it, or it
  -- returns an error and the manager is as it was.
  pub get_access_token-holds :
      (m : TokenManager) (w : W)
      → let (m', w', result) = get_access_token service m w in
        ((token : String) × (result ≡ ok token) × (m'.access_token ≡ token) × (token ≢ ""))
        ⊎ ((e : AuthError) × (result ≡ error e) × (m' ≡ m))
  unfolding get_access_token refreshed authenticate
  get_access_token-holds m w = elim (Bool-cases (is_access_token_valid (service.now w) m)) [
    | inl valid ↦
        rw valid (inl (m.access_token, refl, refl, valid_not_empty (service.now w) m valid))
    | inr stale ↦
        let answer = (request_token service m.client_id m.client_secret w).1 in
        rw stale (elim (with_expiration-cases service answer) [
          | inl (token, t, e, there) ↦ rw e (inl (token, refl, refl, not_empty token there))
          | inr (err, e) ↦ rw e (inr (err, refl, refl))
        ])
  ]

  -- A manager that holds no token, or one whose JWT has an expiry, in seconds, which it holds too, in
  -- nanoseconds.
  pub data IsDated (m : TokenManager) : Type 0 where
    no_token : m.access_token ≡ "" → IsDated m
    dated :
        (seconds : ℕ)
        → service.parse_unverified m.access_token ≡ exp true seconds
        → m.expires_at ≡ some (seconds * 1000000000)
        → IsDated m

  -- Whether the token that expires at `expires` is handed out at time `now`.
  abbrev pub Decided : TokenManager → W → String → ℕ → Type 0
  Decided m w token expires =
      ((service.now w + 30000000000 < expires) × (get_access_token service m w ≡ (m, w, ok token)))
      ⊎ ((expires ≤ service.now w + 30000000000)
          × ((get_access_token service m w).1 ≡ (service.request m.client_id m.client_secret w).0))

  get_access_token-Decided :
      (m : TokenManager) (w : W) (t : ℕ)
      → m.access_token ≢ ""
      → m.expires_at ≡ some t
      → m.client_id ≢ ""
      → m.client_secret ≢ ""
      → Decided m w m.access_token t
  unfolding get_access_token is_access_token_valid authenticate request_token
  get_access_token-Decided m w t token at id secret =
      let some_token = differs token in
      let some_id = differs id in
      let some_secret = differs secret in
      elim (Bool-cases (ltb (service.now w + 30000000000) t)) [
        | inl early ↦ inl (ground arith, ground arith)
        | inr late ↦ inr (ground arith, ground arith)
      ]

  -- What a call that returned a token leaves: the manager holds the token, with its expiry, and the
  -- same client.
  record Returned (m m' : TokenManager) (token : String) : Type 0 where
    holds : m'.access_token ≡ token
    not_blank : token ≢ ""
    seconds : ℕ
    parsed : service.parse_unverified token ≡ exp true seconds
    expires : m'.expires_at ≡ some (seconds * 1000000000)
    same_id : m'.client_id ≡ m.client_id
    same_secret : m'.client_secret ≡ m.client_secret

  kept-Returned : (m : TokenManager) → IsDated m → m.access_token ≢ "" → Returned m m m.access_token
  kept-Returned m (no_token blank) there = absurd (there blank)
  kept-Returned m (dated seconds parsed expires) there = record {
    holds = refl;
    not_blank = there;
    seconds = seconds;
    parsed = parsed;
    expires = expires;
    same_id = refl;
    same_secret = refl;
  }

  get_access_token-Returned :
      (m : TokenManager) (w : W) (token : String)
      → IsDated m
      → let (m', w', result) = get_access_token service m w in
        result ≡ ok token → Returned m m' token
  unfolding get_access_token refreshed authenticate
  get_access_token-Returned m w token d e =
      elim (Bool-cases (is_access_token_valid (service.now w) m)) [
        | inl valid ↦
            let kept = kept-Returned m d (valid_not_empty (service.now w) m valid) in
            let same : m.access_token ≡ token = ground (arith, valid, e) in
            rw valid (subst (Returned m m) same kept)
        | inr stale ↦
            let answer = (request_token service m.client_id m.client_secret w).1 in
            elim (with_expiration-cases service answer) [
              | inr (err, at) ↦ absurd (ground (arith, stale, at, e))
              | inl (got, t, at, _) ↦
                  let (there, (seconds, parsed, time)) =
                    with_expiration-ok service answer got t at in
                  let same : got ≡ token = ground (arith, stale, at, e) in
                  rw (stale, at, get_access_token, refreshed)
                    (subst (Returned m (record m { access_token = got; expires_at = some t })) same
                      (record {
                        holds = refl;
                        not_blank = there;
                        seconds = seconds;
                        parsed = parsed;
                        expires = ap some time;
                        same_id = refl;
                        same_secret = refl;
                      }))
            ]
      ]

  -- A manager with its client's id and secret, and with no token or one whose JWT has the expiry that it
  -- holds: a token that `GetAccessToken` returned has an expiry in its JWT, and at a later call this
  -- decides. More than 30 s before it, the same token is returned, nothing is asked of the service and
  -- nothing changes; from then on, the service is asked for a token.
  pub get_access_token-reused :
      (m : TokenManager) (w w'' : W) (token : String)
      → IsDated m
      → m.client_id ≢ ""
      → m.client_secret ≢ ""
      → let (m', w', result) = get_access_token service m w in
        result ≡ ok token
        → (seconds : ℕ) × (service.parse_unverified token ≡ exp true seconds)
          × Decided m' w'' token (seconds * 1000000000)
  get_access_token-reused m w w'' token d id secret e =
      let m' = (get_access_token service m w).0 in
      let r = get_access_token-Returned m w token d e in
      (
        r.seconds,
        r.parsed,
        subst (λ s. Decided m' w'' s (r.seconds * 1000000000)) r.holds
            (get_access_token-Decided m' w'' (r.seconds * 1000000000)
              (subst (λ s. s ≢ "") (sym r.holds) r.not_blank) r.expires
              (subst (λ s. s ≢ "") (sym r.same_id) id)
              (subst (λ s. s ≢ "") (sym r.same_secret) secret)),
      )
