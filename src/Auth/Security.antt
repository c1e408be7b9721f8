-- ===== src/Auth/Security.antt =====
-- backend/app/core/security.py: passwords, access and refresh tokens, and how long a session lasts.
-- Every reading of the clock is an argument, in whole seconds.
pub mod Tokens
pub mod Lifetime
use ai_knowledge_hub.Base.{
  ℕ, ◌+◌, ◌*◌, min, String, Bool, true, false, not, ◌&&◌, ◌||◌, Option, none, some, Result, err, ok,
  ◌>>=◌, ◌>>◌, raise_if, or_raise, leb, str_eq, if◌then◌else◌,
}
use ai_knowledge_hub.Auth.Runtime.{ℤ, Json, Payload, written, Runtime}
use ai_knowledge_hub.Auth.Settings.{ExpirationMode, Settings, is_sliding}
use ai_knowledge_hub.Ai.Gateway.Preparing.{utf8_length}

-- The exceptions that the authentication code raises; `key_error` is that of a key id without a secret,
-- and `value_error` that of a password that is too long.
pub data AuthError : Type 0 where
  email_already_registered inactive_user invalid_access_token invalid_credentials
        invalid_refresh_token login_rate_limit_exceeded user_session_not_found key_error
        value_error :
      AuthError

pub record SessionExpiration : Type 0 where
  pub expires_at : ℕ
  pub absolute_expires_at : ℕ

pub record AccessTokenClaims : Type 0 where
  pub user_id : ℕ
  pub session_id : Option String
  pub issued_at : ℤ
  pub expires_at : ℤ

pub record RefreshTokenClaims : Type 0 where
  pub user_id : ℕ
  pub session_id : String
  pub token_id : String
  pub issued_at : ℤ
  pub expires_at : ℤ

abbrev pub seconds_per_day : ℕ
seconds_per_day = 86400

abbrev pub is_empty : String → Bool
is_empty String.[] = true
is_empty (String.◌∷◌ c s) = false

-- `payload.get(key) == expected`
abbrev pub is_text : Option Json → String → Bool
is_text none expected = false
is_text (some (Json.text s)) expected = str_eq s expected
is_text (some (Json.number n)) expected = false
is_text (some (Json.other s)) expected = false

-- A claim that must be a text and not empty.
abbrev pub text_claim : Option Json → Option String
text_claim none = none
text_claim (some (Json.text s)) = if is_empty s then none else some s
text_claim (some (Json.number n)) = none
text_claim (some (Json.other s)) = none

-- The `sid` of an access token, which may be missing or `null`.
abbrev pub optional_text_claim : Option Json → Option (Option String)
optional_text_claim none = some none
optional_text_claim (some (Json.text s)) = if is_empty s then none else some (some s)
optional_text_claim (some (Json.number n)) = none
optional_text_claim (some (Json.other s)) = if str_eq s "null" then some none else none

-- A user id above 0.
abbrev pub positive : ℤ → Option ℕ
positive (ℤ.pos n) = if leb n 0 then none else some n
positive (ℤ.negsuc n) = none

unfoldable pub calculate_initial_session_expiration : Settings → ℕ → SessionExpiration
calculate_initial_session_expiration settings created_at =
    let expires_at = created_at + settings.session_ttl_days * seconds_per_day in
    (record {
      expires_at = expires_at;
      absolute_expires_at =
          if is_sliding settings.session_expiration_mode
          then created_at + settings.session_absolute_max_days * seconds_per_day
          else expires_at;
    })

-- `calculate_rotated_session_expiration(rotated_at, current_expires_at, absolute_expires_at)`
unfoldable pub calculate_rotated_session_expiration : Settings → ℕ → ℕ → ℕ → ℕ
calculate_rotated_session_expiration settings rotated_at current_expires_at absolute_expires_at =
    if is_sliding settings.session_expiration_mode
    then min (rotated_at + settings.session_ttl_days * seconds_per_day) absolute_expires_at
    else current_expires_at

module _ (runtime : Runtime) (settings : Settings) where
  open runtime use {Token, encode, unverified_kid, decode, int, str, hashpw, checkpw}

  unfoldable pub encode_password : String → Result AuthError String
  encode_password password = do
    raise_if (not (leb (utf8_length password) 72)) AuthError.value_error
    ok password

  unfoldable pub hash_password : String → String → Result AuthError String
  unfolding encode_password
  hash_password password salt = do
    password_bytes ← encode_password password
    ok (hashpw password_bytes salt)

  unfoldable pub verify_password : String → String → Bool
  unfolding encode_password
  verify_password password password_hash = elim (encode_password password) [
    | err e ↦ false
    | ok password_bytes ↦ checkpw password_bytes password_hash
  ]

  -- `_get_active_jwt_signing_key`
  unfoldable pub get_active_jwt_signing_key : Result AuthError (String × String)
  get_active_jwt_signing_key = do
    secret ← or_raise (settings.jwt_signing_keys settings.jwt_active_key_id) AuthError.key_error
    ok (settings.jwt_active_key_id, secret)

  abbrev pub secret_of_kid : Option (Option Json) → Option String
  secret_of_kid none = none
  secret_of_kid (some kid) = elim (text_claim kid) [
    | none ↦ none
    | some key_id ↦ settings.jwt_signing_keys key_id
  ]

  -- `_get_jwt_verification_secret`; nothing for a `JWTError`.
  unfoldable pub get_jwt_verification_secret : Token → Option String
  get_jwt_verification_secret token = secret_of_kid (unverified_kid token)

  abbrev pub cap : ℕ → Option ℕ → ℕ
  cap expires_at none = expires_at
  cap expires_at (some session_expires_at) = min expires_at session_expires_at

  -- `create_access_token` at a time.
  unfoldable pub create_access_token : ℕ → String → Option ℕ → ℕ → Result AuthError Token
  unfolding get_active_jwt_signing_key
  create_access_token user_id session_id session_expires_at issued_at = do
    (key_id, signing_secret) ← get_active_jwt_signing_key
    ok (
        encode
          (written (str user_id) "access" session_id none issued_at
            (cap (issued_at + settings.jwt_access_token_expire_minutes * 60) session_expires_at))
          signing_secret key_id)

  -- The payload that the library verifies at a time.
  unfoldable pub verified_payload : Token → ℕ → AuthError → Result AuthError Payload
  unfolding get_jwt_verification_secret
  verified_payload token now error = do
    verification_secret ← or_raise (get_jwt_verification_secret token) error
    or_raise (decode token verification_secret now) error

  -- `int(payload[key])`
  abbrev pub whole : Option Json → Option ℤ
  whole none = none
  whole (some claim) = int claim

  unfoldable pub decode_access_token : Token → ℕ → Result AuthError AccessTokenClaims
  unfolding verified_payload
  decode_access_token token now = do
    payload ← verified_payload token now AuthError.invalid_access_token
    raise_if (not (is_text payload.kind "access")) AuthError.invalid_access_token
    session_id ← or_raise (optional_text_claim payload.sid) AuthError.invalid_access_token
    sub ← or_raise (whole payload.sub) AuthError.invalid_access_token
    issued_at ← or_raise (whole payload.iat) AuthError.invalid_access_token
    expires_at ← or_raise (whole payload.exp) AuthError.invalid_access_token
    user_id ← or_raise (positive sub) AuthError.invalid_access_token
    ok (record {
      user_id = user_id;
      session_id = session_id;
      issued_at = issued_at;
      expires_at = expires_at;
    })

  -- `create_refresh_token` at a time, with the random text that becomes its `jti`.
  unfoldable pub create_refresh_token : ℕ → String → ℕ → ℕ → String → Result AuthError Token
  unfolding get_active_jwt_signing_key
  create_refresh_token user_id session_id expires_at issued_at token_id = do
    (key_id, signing_secret) ← get_active_jwt_signing_key
    ok (
        encode (written (str user_id) "refresh" session_id (some token_id) issued_at expires_at)
          signing_secret key_id)

  unfoldable pub decode_refresh_token : Token → ℕ → Result AuthError RefreshTokenClaims
  unfolding verified_payload
  decode_refresh_token token now = do
    payload ← verified_payload token now AuthError.invalid_refresh_token
    raise_if (not (is_text payload.kind "refresh")) AuthError.invalid_refresh_token
    session_id ← or_raise (text_claim payload.sid) AuthError.invalid_refresh_token
    token_id ← or_raise (text_claim payload.jti) AuthError.invalid_refresh_token
    sub ← or_raise (whole payload.sub) AuthError.invalid_refresh_token
    issued_at ← or_raise (whole payload.iat) AuthError.invalid_refresh_token
    expires_at ← or_raise (whole payload.exp) AuthError.invalid_refresh_token
    user_id ← or_raise (positive sub) AuthError.invalid_refresh_token
    ok (record {
      user_id = user_id;
      session_id = session_id;
      token_id = token_id;
      issued_at = issued_at;
      expires_at = expires_at;
    })
