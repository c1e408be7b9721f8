-- ===== src/Auth/Service.antt =====
-- backend/app/services/auth_service.py: registration, login and the sessions of a user. A method takes
-- the state of the users' table, of the counters and of the sessions, and gives that which it leaves
-- with what it returns or raises. What it reads of the clock and of the random generator are arguments.
pub mod Sessions
pub mod Refreshing
pub mod LoggedOut
pub mod Register
pub mod Bounded
pub mod Login
pub mod Requests
pub mod Tests
use ai_knowledge_hub.Base.{
  ℕ, ◌-◌, ◌*◌, min, String, Bool, true, false, not, ◌||◌, Option, none, some, List, map, Result,
  err, ok, ◌>>=◌, ◌>>◌, raise_if, or_raise, leb, str_eq, ◌==◌, if◌then◌else◌,
}
use ai_knowledge_hub.Knowledge.Text.{strip}
use ai_knowledge_hub.Auth.Redis.{Redis}
use ai_knowledge_hub.Auth.Runtime.{Runtime}
use ai_knowledge_hub.Auth.Session.{
  SessionRecord, SessionRotation, RotationResult, SessionDeletion, DeletionResult,
  SessionRevocation, RevocationResult, SessionBulkRevocation, BulkRevocationResult, create, get,
  rotate, delete_if_matches, revoke, revoke_all, list_for_user,
}
use ai_knowledge_hub.Auth.Settings.{Settings}
use ai_knowledge_hub.Auth.Security.{
  AuthError, SessionExpiration, AccessTokenClaims, RefreshTokenClaims, is_empty,
  calculate_initial_session_expiration, calculate_rotated_session_expiration, hash_password,
  verify_password, create_access_token, create_refresh_token, decode_access_token,
  decode_refresh_token,
}
use ai_knowledge_hub.Auth.Users.{User, Users, is_active, get_by_id, get_by_email, create_user}
use ai_knowledge_hub.Auth.RateLimiter.{Counters, reserve_attempt, reset}

-- What a method reads of the clock, at each of its readings, and of the random generator.
pub record Reading : Type 0 where
  pub decoded_at : ℕ
  pub time : ℕ
  pub refresh_issued_at : ℕ
  pub access_issued_at : ℕ
  pub session_id : String
  pub token_id : String

pub record RegisterRequest : Type 0 where
  pub email : String
  pub password : String
  pub nickname : Option String

pub record LoginRequest : Type 0 where
  pub email : String
  pub password : String

pub record UserResponse : Type 0 where
  pub id : ℕ
  pub email : String
  pub nickname : Option String
  pub avatar_url : Option String

pub record UserSessionResponse : Type 0 where
  pub id : String
  pub current : Bool
  pub ip_address : Option String
  pub user_agent : Option String
  pub created_at : ℕ
  pub last_used_at : ℕ
  pub expires_at : ℕ

abbrev pub response_of : User → UserResponse
response_of u = record {
  id = u.id;
  email = u.email;
  nickname = u.nickname;
  avatar_url = u.avatar_url;
}

-- `request.nickname.strip() if request.nickname else None`, and then `nickname or None`.
abbrev pub nickname_of : Option String → Option String
unfolding strip
nickname_of none = none
nickname_of (some nickname) = if is_empty (strip nickname) then none else some (strip nickname)

abbrev pub session_response : String → SessionRecord → UserSessionResponse
session_response current_session_id r = record {
  id = r.session_id;
  current = str_eq r.session_id current_session_id;
  ip_address = r.ip_address;
  user_agent = r.user_agent;
  created_at = r.created_at;
  last_used_at = r.last_used_at;
  expires_at = r.expires_at;
}

abbrev pub is_owner : SessionRecord → ℕ → Bool
is_owner session_record user_id = session_record.user_id == user_id

module _ (runtime : Runtime) (settings : Settings) where
  open runtime use {Token, lower, hash_token}

  pub record TokenPairResponse : Type 0 where
    pub access_token : Token
    pub refresh_token : Token
    pub expires_in : ℕ
    pub refresh_expires_in : ℕ

  -- `str(request.email).strip().lower()`
  abbrev pub normalized : String → String
  unfolding strip
  normalized email = lower (strip email)

  -- `register`, with the salt of the hash.
  unfoldable pub register :
      RegisterRequest → String → Users → Result AuthError (Users × UserResponse)
  unfolding hash_password get_by_email create_user
  register request salt users = do
    password_hash ← hash_password runtime settings request.password salt
    elim (get_by_email (normalized request.email) users) [
      | some existing ↦ err AuthError.email_already_registered
      | none ↦ do
        (after, user) ←
            or_raise
              (create_user (normalized request.email) password_hash (nickname_of request.nickname)
                users)
              AuthError.email_already_registered
        ok (after, response_of user)
    ]

  -- The checks of `login` after the rate limiter.
  unfoldable pub authenticate : String → String → Users → Result AuthError User
  unfolding get_by_email verify_password
  authenticate email password users = do
    user ← or_raise (get_by_email email users) AuthError.invalid_credentials
    raise_if (not (verify_password runtime settings password user.password_hash))
        AuthError.invalid_credentials
    raise_if (not (is_active user.status)) AuthError.inactive_user
    ok user

  abbrev pub token_pair : Token → Token → ℕ → TokenPairResponse
  token_pair access refresh ttl_seconds = record {
    access_token = access;
    refresh_token = refresh;
    expires_in = min (settings.jwt_access_token_expire_minutes * 60) ttl_seconds;
    refresh_expires_in = ttl_seconds;
  }

  -- The session that `login` creates, the seconds that it lasts, and the answer.
  unfoldable pub plan_login :
      User
      → Option String
      → Option String
      → Reading
      → Result AuthError (SessionRecord × ℕ × TokenPairResponse)
  unfolding create_refresh_token create_access_token calculate_initial_session_expiration
  plan_login user ip_address user_agent reading =
      let e = calculate_initial_session_expiration settings reading.time in
      let ttl_seconds = e.expires_at - reading.time in
      do
        refresh_token ←
            create_refresh_token runtime settings user.id reading.session_id e.expires_at
              reading.refresh_issued_at reading.token_id
        access_token ←
            create_access_token runtime settings user.id reading.session_id (some e.expires_at)
              reading.access_issued_at
        ok (
          (record {
            session_id = reading.session_id;
            user_id = user.id;
            refresh_token_hash = hash_token refresh_token;
            created_at = reading.time;
            last_used_at = reading.time;
            expires_at = e.expires_at;
            absolute_expires_at = e.absolute_expires_at;
            ip_address = ip_address;
            user_agent = user_agent;
          }),
          ttl_seconds,
          token_pair access_token refresh_token ttl_seconds,
        )

  unfoldable pub get_current_user : Token → ℕ → Users → Result AuthError UserResponse
  unfolding decode_access_token get_by_id
  get_current_user token now users = do
    claims ← decode_access_token runtime settings token now
    user ← or_raise (get_by_id claims.user_id users) AuthError.invalid_access_token
    raise_if (not (is_active user.status)) AuthError.inactive_user
    ok (response_of user)

  module _ (redis : Redis) where
    -- `refresh` up to the rotation: what it asks of the session repository, and its answer.
    unfoldable pub plan_refresh :
        Token
        → Reading
        → Users
        → redis.Store
        → Result AuthError (SessionRotation × TokenPairResponse)
    unfolding decode_refresh_token get get_by_id calculate_rotated_session_expiration
        create_refresh_token create_access_token
    plan_refresh token reading users store = do
      claims ← decode_refresh_token runtime settings token reading.decoded_at
      session_record ← or_raise (get redis claims.session_id store) AuthError.invalid_refresh_token
      raise_if (not (is_owner session_record claims.user_id)) AuthError.invalid_refresh_token
      user ← or_raise (get_by_id claims.user_id users) AuthError.invalid_refresh_token
      raise_if (not (is_active user.status)) AuthError.inactive_user
      let rotated_expires_at =
          calculate_rotated_session_expiration settings reading.time session_record.expires_at
            session_record.absolute_expires_at
      raise_if (leb rotated_expires_at reading.time) AuthError.invalid_refresh_token
      refresh_token ←
          create_refresh_token runtime settings user.id claims.session_id rotated_expires_at
            reading.refresh_issued_at reading.token_id
      access_token ←
          create_access_token runtime settings user.id claims.session_id (some rotated_expires_at)
            reading.access_issued_at
      ok (
        (record {
          session_id = claims.session_id;
          user_id = user.id;
          expected_refresh_token_hash = hash_token token;
          new_refresh_token_hash = hash_token refresh_token;
          rotated_at = reading.time;
          expires_at = rotated_expires_at;
          ttl_seconds = rotated_expires_at - reading.time;
        }),
        token_pair access_token refresh_token (rotated_expires_at - reading.time),
      )

    abbrev pub answer_rotation :
        TokenPairResponse → RotationResult → Result AuthError TokenPairResponse
    answer_rotation pair RotationResult.success = ok pair
    answer_rotation pair RotationResult.session_not_found = err AuthError.invalid_refresh_token
    answer_rotation pair RotationResult.token_mismatch = err AuthError.invalid_refresh_token

    unfoldable pub refresh :
        Token → Reading → Users → redis.Store → redis.Store × Result AuthError TokenPairResponse
    unfolding plan_refresh rotate
    refresh token reading users store = elim (plan_refresh token reading users store) [
      | err e ↦ (store, err e)
      | ok plan ↦
          let (after, result) = rotate redis plan.0 store in (after, answer_rotation plan.1 result)
    ]

    abbrev pub answer_deletion : DeletionResult → Result AuthError (Unit {0})
    answer_deletion DeletionResult.session_mismatch = err AuthError.invalid_refresh_token
    answer_deletion DeletionResult.success = ok tt
    answer_deletion DeletionResult.session_not_found = ok tt

    unfoldable pub logout : Token → ℕ → redis.Store → redis.Store × Result AuthError (Unit {0})
    unfolding decode_refresh_token delete_if_matches
    logout token now store = elim (decode_refresh_token runtime settings token now) [
      | err e ↦ (store, err e)
      | ok claims ↦
          let (after, result) =
            delete_if_matches redis
              (record {
                session_id = claims.session_id;
                user_id = claims.user_id;
                expected_refresh_token_hash = hash_token token;
              })
              store in
          (after, answer_deletion result)
    ]

    -- `_require_current_session`: the user and the session of an access token.
    unfoldable pub require_current_session :
        Token → ℕ → Users → redis.Store → Result AuthError (ℕ × String)
    unfolding decode_access_token get get_by_id
    require_current_session token now users store = do
      claims ← decode_access_token runtime settings token now
      session_id ← or_raise claims.session_id AuthError.invalid_access_token
      user ← or_raise (get_by_id claims.user_id users) AuthError.invalid_access_token
      raise_if (not (is_active user.status)) AuthError.inactive_user
      session_record ← or_raise (get redis session_id store) AuthError.invalid_access_token
      raise_if (not (is_owner session_record claims.user_id)) AuthError.invalid_access_token
      ok (claims.user_id, session_id)

    unfoldable pub list_sessions :
        Token → ℕ → Users → redis.Store → redis.Store × Result AuthError (List UserSessionResponse)
    unfolding require_current_session list_for_user
    list_sessions token now users store = elim (require_current_session token now users store) [
      | err e ↦ (store, err e)
      | ok claims ↦
          let (after, records) = list_for_user redis claims.0 store in
          (after, ok (map (session_response claims.1) records))
    ]

    abbrev pub answer_revocation : RevocationResult → Result AuthError (Unit {0})
    answer_revocation RevocationResult.success = ok tt
    answer_revocation RevocationResult.not_found = err AuthError.user_session_not_found

    unfoldable pub revoke_session :
        Token → ℕ → String → Users → redis.Store → redis.Store × Result AuthError (Unit {0})
    unfolding require_current_session revoke
    revoke_session token now target_session_id users store =
        elim (require_current_session token now users store) [
          | err e ↦ (store, err e)
          | ok claims ↦
              let (after, result) =
                revoke redis (record { session_id = target_session_id; user_id = claims.0 })
                  store in
              (after, answer_revocation result)
        ]

    abbrev pub answer_bulk_revocation : BulkRevocationResult → Result AuthError (Unit {0})
    answer_bulk_revocation (BulkRevocationResult.success n) = ok tt
    answer_bulk_revocation BulkRevocationResult.current_session_not_found =
        err AuthError.invalid_access_token
    answer_bulk_revocation BulkRevocationResult.unexpected = err AuthError.value_error

    unfoldable pub revoke_all_sessions :
        Token → ℕ → Users → redis.Store → redis.Store × Result AuthError (Unit {0})
    unfolding require_current_session revoke_all
    revoke_all_sessions token now users store =
        elim (require_current_session token now users store) [
          | err e ↦ (store, err e)
          | ok claims ↦
              let (after, result) =
                revoke_all redis (record { current_session_id = claims.1; user_id = claims.0 })
                  store in
              (after, answer_bulk_revocation result)
        ]

    module _ (counters : Counters) (window_seconds max_attempts : ℕ) where
      -- `login` with the stores of the counters and of the sessions.
      unfoldable pub login :
          LoginRequest
          → Option String
          → Option String
          → Reading
          → Users
          → counters.Store × redis.Store
          → (counters.Store × redis.Store) × Result AuthError TokenPairResponse
      unfolding authenticate plan_login reserve_attempt reset create
      login request ip_address user_agent reading users (counts, store) =
          let email = normalized request.email in
          let (counted, admitted) =
            reserve_attempt runtime counters window_seconds max_attempts email counts in
          if not admitted
          then ((counted, store), err AuthError.login_rate_limit_exceeded)
          else elim (authenticate email request.password users) [
            | err e ↦ ((counted, store), err e)
            | ok user ↦
                let cleared = reset runtime counters window_seconds max_attempts email counted in
                elim (plan_login user ip_address user_agent reading) [
                  | err e ↦ ((cleared, store), err e)
                  | ok plan ↦ ((cleared, create redis plan.0 plan.1 store), ok plan.2)
                ]
          ]
