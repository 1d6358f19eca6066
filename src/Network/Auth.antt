-- ===== src/Network/Auth.antt =====
-- internal/network/auth/tokenManager.go and the checks of client.go. The clock, the service and the JWT
-- parser are parameters. The group of `refresh.Do` runs its function for one caller at a time, so a call
-- of `GetAccessToken` is one step.
pub mod Expiration
pub mod Tokens
pub mod Tests
use eth_mon_svr.Base.{
  ℕ, ◌+◌, ◌*◌, ◌≡◌, Bool, true, false, not, ◌&&◌, ◌||◌, Option, none, some, ltb, if◌then◌else◌,
  String, same_text,
}

-- 30 s in nanoseconds, and a second.
abbrev pub token_refresh_margin : ℕ
token_refresh_margin = 30000000000

abbrev pub second : ℕ
second = 1000000000

-- `expires_at` is `none` for the zero time.
pub record TokenManager : Type 0 where
  pub access_token : String
  pub expires_at : Option ℕ
  pub client_id : String
  pub client_secret : String

-- What the parser finds: no JWT or other claims, no `exp`, one that is not a number, or a number: whether
-- it is above 0, and its whole seconds.
pub data Claims : Type 0 where
  invalid_jwt no_exp other_type : Claims
  exp : Bool → ℕ → Claims

-- `request` is the call of the service: `none` for an error, else the token of the answer.
pub record AuthService (W : Type 0) : Type 0 where
  pub now : W → ℕ
  pub request : String → String → W → W × Option String
  pub parse_unverified : String → Claims

pub data AuthError : Type 0 where
  client_id_empty client_secret_empty request_failed token_empty : AuthError
  bad_jwt expiration_missing bad_exp_type bad_exp : AuthError

pub data Result {ℓ} (A : Type ℓ) : Type ℓ where
  ok : A → Result A
  error : AuthError → Result A

-- `NewTokenManager` for a client that is not nil; `none` is an error.
unfoldable pub new_token_manager : String → String → Option TokenManager
new_token_manager client_id client_secret =
    if same_text client_id "" || same_text client_secret ""
    then none
    else some (record {
      access_token = "";
      expires_at = none;
      client_id = client_id;
      client_secret = client_secret;
    })

unfoldable pub is_access_token_valid : ℕ → TokenManager → Bool
is_access_token_valid now m = if same_text m.access_token "" then false else elim m.expires_at [
  | none ↦ false
  | some expires_at ↦ ltb (now + token_refresh_margin) expires_at
]

-- `parseJWTExpiration`, on the claims. The seconds stand for what `int64(expFloat)` gives; that they and
-- the nanoseconds keep to the range of an int64 is not modelled.
unfoldable pub expiration : Claims → Result ℕ
expiration invalid_jwt = error bad_jwt
expiration no_exp = error expiration_missing
expiration other_type = error bad_exp_type
expiration (exp false seconds) = error bad_exp
expiration (exp true seconds) = ok (seconds * second)

module _ {W : Type 0} (service : AuthService W) where
  -- `AuthGrpcClient.Authenticate`, for a client that is not nil.
  unfoldable pub request_token : String → String → W → W × Result String
  request_token client_id client_secret w =
      let (w', answer) = service.request client_id client_secret w in
      if same_text client_id ""
      then (w, error client_id_empty)
      else (if same_text client_secret "" then (w, error client_secret_empty) else elim answer [
        | none ↦ (w', error request_failed)
        | some token ↦ if same_text token "" then (w', error token_empty) else (w', ok token)
      ])

  -- `TokenManager.authenticate` after the answer of the client.
  unfoldable pub with_expiration : Result String → Result (String × ℕ)
  with_expiration (error e) = error e
  with_expiration (ok token) =
      if same_text token ""
      then error token_empty
      else elim (expiration (service.parse_unverified token)) [
        | error e ↦ error e
        | ok expires_at ↦ ok (token, expires_at)
      ]

  unfoldable pub authenticate : TokenManager → W → W × Result (String × ℕ)
  authenticate m w =
      let (w', answer) = request_token m.client_id m.client_secret w in (w', with_expiration answer)

  -- The new token is stored.
  unfoldable pub refreshed : TokenManager → Result (String × ℕ) → TokenManager × Result String
  refreshed m (error e) = (m, error e)
  refreshed m (ok (token, expires_at)) =
      (record m { access_token = token; expires_at = some expires_at }, ok token)

  unfoldable pub get_access_token : TokenManager → W → TokenManager × W × Result String
  get_access_token m w =
      let (w', answer) = authenticate m w in
      let (m', result) = refreshed m answer in
      if is_access_token_valid (service.now w) m
      then (m, w, ok m.access_token)
      else (m', w', result)
