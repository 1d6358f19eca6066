-- ===== src/Network/Auth/Tests.antt =====
-- Runs of the token manager in a world that is the time.
use eth_mon_svr.Base.{ℕ, ◌+◌, ◌*◌, ◌≡◌, ◌≢◌, ◌⊎◌, refl, ap, true, none, some, String}
use eth_mon_svr.Network.Auth.{
  TokenManager, AuthService, AuthError, exp, ok, error, is_access_token_valid, request_token,
  with_expiration, expiration, authenticate, refreshed, get_access_token,
}
use eth_mon_svr.Network.Auth.Tokens.{
  no_token, Decided, get_access_token-holds, get_access_token-reused,
}

-- The service answers with the same token, which expires at 100 s.
abbrev service : AuthService ℕ
service = record {
  now = λ w. w;
  request = λ id secret w. (w + 1, some "abc");
  parse_unverified = λ token. exp true 100;
}

abbrev manager : TokenManager
manager = record { access_token = ""; expires_at = none; client_id = "id"; client_secret = "s" }

run_token :
    get_access_token service manager 5
    ≡ (record manager { access_token = "abc"; expires_at = some 100000000000 }, 6, ok "abc")
unfolding get_access_token is_access_token_valid request_token with_expiration expiration
    authenticate refreshed
run_token = refl

-- 30 s before the expiry the service is asked again; 1 ns earlier it is not.
at_the_margin :
    (get_access_token service (get_access_token service manager 5).0 70000000000).1 ≡ 70000000001
unfolding get_access_token is_access_token_valid request_token with_expiration expiration
    authenticate refreshed
at_the_margin = refl

before_the_margin :
    (get_access_token service (get_access_token service manager 5).0 69999999999).1 ≡ 69999999999
unfolding get_access_token is_access_token_valid request_token with_expiration expiration
    authenticate refreshed
before_the_margin = refl

get_access_token-holds_example :
    let (m', w', result) = get_access_token service manager 5 in
    ((token : String) × (result ≡ ok token) × (m'.access_token ≡ token) × (token ≢ ""))
    ⊎ ((e : AuthError) × (result ≡ error e) × (m' ≡ manager))
get_access_token-holds_example = get_access_token-holds service manager 5

get_access_token-reused_example :
    let (m', w', result) = get_access_token service manager 5 in
    (seconds : ℕ) × (service.parse_unverified "abc" ≡ exp true seconds)
    × Decided service m' 7 "abc" (seconds * 1000000000)
get_access_token-reused_example =
    get_access_token-reused service manager 5 7 "abc" (no_token refl) (λ e. cc) (λ e. cc)
      (ap (λ r. r.2) run_token)
