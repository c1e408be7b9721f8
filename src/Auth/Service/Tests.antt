-- ===== src/Auth/Service/Tests.antt =====
-- The theorems of the authentication service at a runtime in memory, whose tokens are the records of what
-- they were made of.
use ai_knowledge_hub.Base.{
  ℕ, zero, suc, ◌<◌, ◌≡◌, ◌≢◌, refl, ap, inl, inr, String, Bool, true, ◌&&◌, Option, none, some, [],
  ◌∷◌, Result, err, ok, arith, leb, le→leb, eq_refl, eq_iff, str_eq, if◌then◌else◌, Bool-cases,
}
use ai_knowledge_hub.Knowledge.Text.{text_length}
use ai_knowledge_hub.Auth.Runtime.{ℤ, Json, Payload, written, Runtime}
use ai_knowledge_hub.Auth.Settings.{Settings, ExpirationMode, refuses_session_expiration}
use ai_knowledge_hub.Auth.RateLimiter.{Counters, reserve_attempts, reserve_attempts_lem, reset}
use ai_knowledge_hub.Auth.Security.{
  RefreshTokenClaims, AuthError, calculate_initial_session_expiration, create_access_token,
  create_refresh_token, decode_access_token, decode_refresh_token,
}
use ai_knowledge_hub.Auth.Security.Tokens.{decode_token-kind}
use ai_knowledge_hub.Ai.Gateway.Preparing.{utf8_length}
use ai_knowledge_hub.Auth.Service.Login.{login-session, login-refused}
use ai_knowledge_hub.Auth.Service.Refreshing.{refresh-replay}
use ai_knowledge_hub.Auth.Service.Requests.{
  Requests-IsBounded, none_yet, and_then, logs_in, refreshes,
}
use ai_knowledge_hub.Auth.Service.Bounded.{IsBounded}
use ai_knowledge_hub.Auth.Service.LoggedOut.{refresh-logout}
use ai_knowledge_hub.Auth.Service.Sessions.{revoke_session-owned}
use ai_knowledge_hub.Auth.Session.{SessionRecord, get, owned_by}
use ai_knowledge_hub.Auth.Tests.{Memory, memory, nothing}
use ai_knowledge_hub.Auth.Users.{User, Users, UserStatus, get_by_email}
use ai_knowledge_hub.Auth.Service.{
  SessionRecord, is_active, get_by_id, require_current_session, get, normalized, nickname_of,
  Reading, RegisterRequest, LoginRequest, TokenPairResponse, register, response_of, authenticate,
  login, refresh, logout, revoke_session,
}
use ai_knowledge_hub.Auth.Service.Register.{authenticate-register}

record Signed : Type 0 where
  payload : Payload
  secret : String
  key_id : String

abbrev in_time : ℕ → Option Json → Bool
in_time now none = true
in_time now (some (Json.number e)) = leb now e
in_time now (some (Json.text s)) = true
in_time now (some (Json.other s)) = true

abbrev read_token : Signed → String → ℕ → Option Payload
read_token t secret now =
    if str_eq t.secret secret && in_time now t.payload.exp then some t.payload else none

abbrev read_int : Json → Option ℤ
read_int (Json.text s) = some (ℤ.pos (text_length s))
read_int (Json.number n) = some (ℤ.pos n)
read_int (Json.other s) = none

abbrev unary : ℕ → String
unary zero = ""
unary (suc n) = String.◌∷◌ "x" (unary n)

abbrev jti_of : Option Json → String
jti_of none = "no id"
jti_of (some (Json.text s)) = s
jti_of (some (Json.number n)) = "a number"
jti_of (some (Json.other s)) = s

text_length-unary : (n : ℕ) → text_length (unary n) ≡ n
text_length-unary zero = refl
text_length-unary (suc n) = ap suc (text_length-unary n)

read_token-same :
    (t : Signed) (secret : String) (now later : ℕ) (p q : Payload)
    → read_token t secret now ≡ some p
    → read_token t secret later ≡ some q
    → p ≡ q
read_token-same t secret now later p q h k =
    elim (Bool-cases (str_eq t.secret secret && in_time now t.payload.exp)) [
      | inr e ↦ cc (rw (e) at h)
      | inl e ↦ elim (Bool-cases (str_eq t.secret secret && in_time later t.payload.exp)) [
        | inr f ↦ cc (rw (f) at k)
        | inl f ↦ cc (rw (e) at h, rw (f) at k)
      ]
    ]

late_token :
    (p : Payload) (exp : ℕ) (secret key_id : String) (now : ℕ)
    → p.exp ≡ some (Json.number exp)
    → exp < now
    → read_token (record { payload = p; secret = secret; key_id = key_id }) secret now ≡ none
late_token p exp secret key_id now e late = rw (e) (ground arith)

abbrev runtime : Runtime
runtime = record {
  Token = Signed;
  encode = λ p secret key_id. record { payload = p; secret = secret; key_id = key_id };
  unverified_kid = λ t. some (some (Json.text t.key_id));
  decode = read_token;
  int = read_int;
  str = unary;
  hash_token = λ t. jti_of t.payload.jti;
  hash_text = λ s. s;
  lower = λ s. s;
  hashpw = λ password salt. password;
  checkpw = str_eq;
  unverified_kid-encode = λ p secret key_id. refl;
  decode-encode =
      λ sub kind sid jti iat exp secret key_id now p. rw (eq_refl secret, le→leb now exp p) refl;
  decode-expired = λ p exp secret key_id now e late. late_token p exp secret key_id now e late;
  decode-same = read_token-same;
  int-str = λ n. ap (λ m. some (ℤ.pos m)) (text_length-unary n);
  int-number = λ n. refl;
  checkpw-hashpw = λ password salt. eq_refl password;
}

abbrev key_of : String → Option String
key_of k = if str_eq k "k1" then some "secret" else none

abbrev settings : Settings
settings = record {
  jwt_active_key_id = "k1";
  jwt_signing_keys = key_of;
  jwt_access_token_expire_minutes = 30;
  session_expiration_mode = ExpirationMode.sliding;
  session_ttl_days = 7;
  session_absolute_max_days = 30;
}

abbrev Counts : Type 0
Counts = String → ℕ

abbrev set_count : String → ℕ → Counts → Counts
set_count key n counts j = if str_eq key j then n else counts j

incremented :
    (key : String) (s : Counts) (j : String)
    → set_count key (suc (s key)) s j ≡ (if str_eq key j then suc (s j) else s j)
incremented key s j = elim (Bool-cases (str_eq key j)) [
  | inl e ↦ rw (e, (eq_iff key j).0 e) refl
  | inr e ↦ rw (e) refl
]

abbrev counters : Counters
counters = record {
  Store = Counts;
  count = λ s j. s j;
  incr = λ key s. set_count key (suc (s key)) s;
  expire_nx = λ key seconds s. s;
  delete = λ key s. set_count key 0 s;
  count-incr = incremented;
  count-expire_nx = λ key seconds s j p. refl;
  count-delete = λ key s j. refl;
}

abbrev uncounted : Counts
uncounted j = 0

-- An access token and a refresh token of one session.
abbrev access : Signed
access = record {
  payload = written (unary 3) "access" "s1" none 100 500;
  secret = "secret";
  key_id = "k1";
}

abbrev refresh_token_of : String → ℕ → ℕ → Signed
refresh_token_of jti iat exp = record {
  payload = written (unary 3) "refresh" "s1" (some jti) iat exp;
  secret = "secret";
  key_id = "k1";
}

reserve_attempts_example :
    (reserve_attempts runtime counters 60 5 8 "a@b.c"
      (reset runtime counters 60 5 "a@b.c" uncounted)).1
    ≡ 5
reserve_attempts_example =
    reserve_attempts_lem runtime counters 60 5 8 "a@b.c" uncounted (omega arith)

access_created : create_access_token runtime settings 3 "s1" (some 500) 100 ≡ ok access
unfolding create_access_token
access_created = refl

refresh_created :
    create_refresh_token runtime settings 3 "s1" 500 100 "t1" ≡ ok (refresh_token_of "t1" 100 500)
unfolding create_refresh_token
refresh_created = refl

decode_token_example :
    (decode_refresh_token runtime settings access 300 ≡ err AuthError.invalid_refresh_token)
    × (decode_access_token runtime settings (refresh_token_of "t1" 100 500) 300
        ≡ err AuthError.invalid_access_token)
decode_token_example =
    decode_token-kind runtime settings 3 "s1" (some 500) 500 100 "t1" 300 refl access_created
      refresh_created

abbrev request : RegisterRequest
request = record { email = " a@b.c "; password = "correct horse"; nickname = some " Ann " }

abbrev nobody : Users
nobody = record { rows = []; next_id = 3 }

abbrev ann : User
ann = record {
  id = 3;
  email = "a@b.c";
  password_hash = "correct horse";
  nickname = some "Ann";
  avatar_url = none;
  status = UserStatus.active;
}

abbrev users : Users
users = record { rows = ann ∷ []; next_id = 4 }

registered : register runtime settings request "salt" nobody ≡ ok (users, response_of ann)
unfolding register utf8_length normalized nickname_of
registered = refl

authenticate-register_example :
    (user : User) × (response_of user ≡ response_of ann)
    × (user.id ≡ 3)
    × (get_by_email "a@b.c" nobody ≡ none)
    × (authenticate runtime settings "a@b.c" "correct horse" users ≡ ok user)
unfolding normalized
authenticate-register_example =
    authenticate-register runtime settings request "salt" nobody registered

abbrev reading : String → String → ℕ → Reading
reading session_id token_id time = record {
  decoded_at = time;
  time = time;
  refresh_issued_at = time;
  access_issued_at = time;
  session_id = session_id;
  token_id = token_id;
}

abbrev login_request : LoginRequest
login_request = record { email = "a@b.c "; password = "correct horse" }

abbrev first_login : (Counts × Memory) × Result AuthError (TokenPairResponse runtime settings)
first_login =
    login runtime settings memory counters 60 5 login_request none (some "browser")
      (reading "s1" "t1" 100) users (uncounted, nothing)

abbrev first_pair : TokenPairResponse runtime settings
first_pair = record {
  access_token = (record {
    payload = written (unary 3) "access" "s1" none 100 1900;
    secret = "secret";
    key_id = "k1";
  });
  refresh_token = refresh_token_of "t1" 100 604900;
  expires_in = 1800;
  refresh_expires_in = 604800;
}

logged_in : first_login.1 ≡ ok first_pair
unfolding login utf8_length normalized
logged_in = refl

authenticated : authenticate runtime settings "a@b.c" "correct horse" users ≡ ok ann
unfolding authenticate utf8_length
authenticated = refl

login-session_example :
    (begun : SessionRecord) × (claims : RefreshTokenClaims) × (get memory "s1" first_login.0.1
      ≡ some begun)
    × (begun.user_id ≡ 3)
    × (begun.refresh_token_hash ≡ "t1")
    × (decode_refresh_token runtime settings (refresh_token_of "t1" 100 604900) 5000 ≡ ok claims)
    × (claims.user_id ≡ 3)
    × (claims.session_id ≡ "s1")
unfolding normalized refuses_session_expiration calculate_initial_session_expiration get
login-session_example =
    login-session runtime settings memory counters 60 5 login_request none (some "browser")
      (reading "s1" "t1" 100) users uncounted nothing 5000 ann refl (omega arith) refl refl refl
      refl (omega arith) authenticated (omega arith) logged_in

login-refused_example :
    let (after, result) =
      login runtime settings memory counters 60 5 login_request none none
        (reading "s1" "t1" 100)
        users
        ((λ j. 5), nothing) in
    (result ≡ err AuthError.login_rate_limit_exceeded) × (after.1 ≡ nothing)
login-refused_example =
    login-refused runtime settings memory counters 60 5 login_request none none
      (reading "s1" "t1" 100) users (λ j. 5) nothing (omega arith)

abbrev first_refresh : Memory × Result AuthError (TokenPairResponse runtime settings)
first_refresh =
    refresh runtime settings memory (refresh_token_of "t1" 100 604900) (reading "s2" "t2" 200) users
      first_login.0.1

abbrev second_pair : TokenPairResponse runtime settings
second_pair = record {
  access_token = (record {
    payload = written (unary 3) "access" "s1" none 200 2000;
    secret = "secret";
    key_id = "k1";
  });
  refresh_token = refresh_token_of "t2" 200 605000;
  expires_in = 1800;
  refresh_expires_in = 604800;
}

refreshed : first_refresh.1 ≡ ok second_pair
unfolding refresh login utf8_length normalized
refreshed = refl

refresh-replay_example :
    (refresh runtime settings memory
      (refresh_token_of "t1" 100 604900)
      (reading "s3" "t3" 300)
      users
      (memory.elapse 100 first_refresh.0)).1
    ≢ ok second_pair
refresh-replay_example =
    refresh-replay runtime settings memory (refresh_token_of "t1" 100 604900)
      (reading "s2" "t2" 200) (reading "s3" "t3" 300) users users first_login.0.1 100
      (λ e. cc ((eq_iff "t2" "t1").1 e)) refreshed second_pair

nothing-IsBounded : IsBounded memory nothing
unfolding IsBounded
nothing-IsBounded j = tt

Requests-IsBounded_example : IsBounded memory first_refresh.0
unfolding refuses_session_expiration
Requests-IsBounded_example =
    Requests-IsBounded runtime settings memory counters 60 5 refl (omega arith) nothing-IsBounded (
      and_then first_login.0.1 first_refresh.0
        (and_then nothing first_login.0.1 none_yet
          (logs_in login_request none (some "browser") (reading "s1" "t1" 100) users uncounted))
        (refreshes (refresh_token_of "t1" 100 604900) (reading "s2" "t2" 200) users))

revoked :
    (revoke_session runtime settings memory first_pair.access_token 300 "s1" users
      first_login.0.1).1
    ≡ ok tt
unfolding revoke_session login utf8_length normalized
revoked = refl

revoke_session-owned_example :
    (user_id : ℕ) × (current : String) × (require_current_session runtime settings memory
        first_pair.access_token 300 users first_login.0.1
      ≡ ok (user_id, current))
    × ((user : User) × (get_by_id user_id users ≡ some user) × (is_active user.status ≡ true))
    × ((h : SessionRecord) × (get memory current first_login.0.1 ≡ some h) × (h.user_id ≡ user_id))
    × (owned_by user_id (first_login.0.1.hashes "s1") ≡ true)
    × ((j : String)
        → (revoke_session runtime settings memory first_pair.access_token 300 "s1" users
              first_login.0.1).0.hashes
            j
          ≡ (if str_eq "s1" j then none else first_login.0.1.hashes j))
revoke_session-owned_example =
    revoke_session-owned runtime settings memory first_pair.access_token 300 "s1" users
      first_login.0.1 revoked

logged_out : (logout runtime settings memory first_pair.refresh_token 300 first_login.0.1).1 ≡ ok tt
unfolding logout login utf8_length normalized
logged_out = refl

refresh-logout_example :
    (refresh runtime settings memory first_pair.refresh_token (reading "s2" "t2" 400) users (
      memory.elapse 100
        (logout runtime settings memory first_pair.refresh_token 300 first_login.0.1).0)).1
    ≢ ok second_pair
refresh-logout_example =
    refresh-logout runtime settings memory first_pair.refresh_token 300 (reading "s2" "t2" 400)
      users first_login.0.1 100 logged_out second_pair
