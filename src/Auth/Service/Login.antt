-- ===== src/Auth/Service/Login.antt =====
-- Logging in: the session that it begins, and the tokens that it gives.
use ai_knowledge_hub.Base.{
  ℕ, ◌-◌, ◌<◌, ◌≤◌, ◌≡◌, refl, sym, ap, subst, ◌∙◌, inl, inr, String, false, Option, none, some,
  err, ok, >>=-eq-ok, ok-injective, Result-cases, Bool-cases, arith,
}
use ai_knowledge_hub.Auth.Redis.{Redis}
use ai_knowledge_hub.Auth.Runtime.{Runtime}
use ai_knowledge_hub.Auth.Settings.{Settings, refuses_session_expiration}
use ai_knowledge_hub.Auth.Session.{SessionRecord, get, create}
use ai_knowledge_hub.Auth.Session.Rotation.{get-create}
use ai_knowledge_hub.Auth.Security.{
  AuthError, RefreshTokenClaims, SessionExpiration, decode_refresh_token,
  calculate_initial_session_expiration, create_refresh_token, create_access_token, is_empty,
}
use ai_knowledge_hub.Auth.Security.Tokens.{decode_refresh_token-create}
use ai_knowledge_hub.Auth.Users.{User, Users}
use ai_knowledge_hub.Auth.RateLimiter.{Counters, reserve_attempt, admits, build_key}
use ai_knowledge_hub.Auth.Service.{
  Reading, LoginRequest, TokenPairResponse, normalized, token_pair, plan_login, login, authenticate,
}

initial_lem :
    (settings : Settings) (at : ℕ)
    → refuses_session_expiration settings ≡ false
    → 0 < settings.session_ttl_days
    → (0 < (calculate_initial_session_expiration settings at).expires_at - at)
      × ((calculate_initial_session_expiration settings at).expires_at
          ≤ (calculate_initial_session_expiration settings at).absolute_expires_at)
unfolding refuses_session_expiration calculate_initial_session_expiration
initial_lem settings at valid long = (ground arith, ground arith)

module _ (runtime : Runtime) (settings : Settings) where
  open runtime use {Token, hash_token}

  -- What is known of the session and the answer of a login.
  pub record IsLogin (user : User) (reading : Reading)
      (plan : SessionRecord × ℕ × TokenPairResponse runtime settings) : Type 0 where
    pub lasts : 0 < plan.1
    pub within : plan.0.expires_at ≤ plan.0.absolute_expires_at
    pub ends :
        plan.0.expires_at ≡ (calculate_initial_session_expiration settings reading.time).expires_at
    pub names_session : plan.0.session_id ≡ reading.session_id
    pub names_user : plan.0.user_id ≡ user.id
    pub hashed : plan.0.refresh_token_hash ≡ hash_token plan.2.refresh_token
    pub issued :
        create_refresh_token runtime settings user.id reading.session_id plan.0.expires_at
          reading.refresh_issued_at reading.token_id
        ≡ ok plan.2.refresh_token

  pub plan_login-IsLogin :
      (user : User) (ip_address user_agent : Option String) (reading : Reading)
      {plan : SessionRecord × ℕ × TokenPairResponse runtime settings}
      → refuses_session_expiration settings ≡ false
      → 0 < settings.session_ttl_days
      → plan_login runtime settings user ip_address user_agent reading ≡ ok plan
      → IsLogin user reading plan
  unfolding plan_login
  plan_login-IsLogin user ip_address user_agent reading {plan} valid long h =
      let e : SessionExpiration = calculate_initial_session_expiration settings reading.time in
      let (refresh, a, h₁) =
        >>=-eq-ok
          (create_refresh_token runtime settings user.id reading.session_id e.expires_at
            reading.refresh_issued_at reading.token_id)
          _ h in
      let (access, b, h₂) =
        >>=-eq-ok
          (create_access_token runtime settings user.id reading.session_id (some e.expires_at)
            reading.access_issued_at)
          _ h₁ in
      let (long_enough, in_order) = initial_lem settings reading.time valid long in
      let begun : SessionRecord = (record {
        session_id = reading.session_id;
        user_id = user.id;
        refresh_token_hash = hash_token refresh;
        created_at = reading.time;
        last_used_at = reading.time;
        expires_at = e.expires_at;
        absolute_expires_at = e.absolute_expires_at;
        ip_address = ip_address;
        user_agent = user_agent;
      }) in
      let made : (
        begun,
        e.expires_at - reading.time,
        token_pair runtime settings access refresh (e.expires_at - reading.time),
      )
          ≡ plan =
        ok-injective _ _ refl h₂ in
      subst (λ p. IsLogin user reading p) made
        (record {
          lasts = long_enough;
          within = in_order;
          ends = refl;
          names_session = refl;
          names_user = refl;
          hashed = refl;
          issued = a;
        })

  module _ (redis : Redis) (counters : Counters) (window_seconds max_attempts : ℕ) where
    open redis use {Store}

    login-plan :
        (request : LoginRequest) (ip_address user_agent : Option String) (reading : Reading)
        (users : Users) (counts : counters.Store) (store : Store)
        {pair : TokenPairResponse runtime settings}
        → (login runtime settings redis counters window_seconds max_attempts request ip_address
            user_agent reading users
            (counts, store)).1
          ≡ ok pair
        → (user : User) × (plan : SessionRecord × ℕ × TokenPairResponse runtime settings)
          × (authenticate runtime settings
                (normalized runtime settings request.email)
                request.password
                users
              ≡ ok user)
          × (plan_login runtime settings user ip_address user_agent reading ≡ ok plan)
          × ((login runtime settings redis counters window_seconds max_attempts request ip_address
                user_agent reading users
                (counts, store)).0.1
              ≡ create redis plan.0 plan.1 store)
          × (plan.2 ≡ pair)
    unfolding login
    login-plan request ip_address user_agent reading users counts store {pair} h =
        let email = normalized runtime settings request.email in
        elim (Bool-cases
          (reserve_attempt runtime counters window_seconds max_attempts email counts).1) [
            | inr q ↦ cc (rw (login, q) at h)
            | inl q ↦
                elim (Result-cases (authenticate runtime settings email request.password users)) [
                  | inr (e, a) ↦ cc (rw (login, q, a) at h)
                  | inl (user, a) ↦
                      elim (Result-cases
                        (plan_login runtime settings user ip_address user_agent reading)) [
                          | inr (e, b) ↦ cc (rw (login, q, a, b) at h)
                          | inl (plan, b) ↦ (
                            user,
                            plan,
                            a,
                            b,
                            rw (login, q, a, b) refl,
                            ok-injective _ _ refl (rw (login, q, a, b) at h),
                          )
                        ]
                ]
          ]

    -- When a login succeeds, with settings that the configuration accepts and a session id that no session
    -- has, for a user with a positive id, the session that it begins is in the store, is the authenticated user's and holds the hash of the
    -- refresh token of the answer; and until the session's end that token decodes to the user and the
    -- session.
    pub login-session :
        (request : LoginRequest) (ip_address user_agent : Option String) (reading : Reading)
        (users : Users) (counts : counters.Store) (store : Store) (now : ℕ) (user : User)
        {pair : TokenPairResponse runtime settings}
        → refuses_session_expiration settings ≡ false
        → 0 < settings.session_ttl_days
        → is_empty settings.jwt_active_key_id ≡ false
        → is_empty reading.session_id ≡ false
        → is_empty reading.token_id ≡ false
        → get redis reading.session_id store ≡ none
        → now ≤ (calculate_initial_session_expiration settings reading.time).expires_at
        → authenticate runtime settings
            (normalized runtime settings request.email)
            request.password
            users
          ≡ ok user
        → 0 < user.id
        → (login runtime settings redis counters window_seconds max_attempts request ip_address
            user_agent reading users
            (counts, store)).1
          ≡ ok pair
        → (begun : SessionRecord) × (claims : RefreshTokenClaims) × (get redis reading.session_id
              (login runtime settings redis counters window_seconds max_attempts request ip_address
                user_agent reading users
                (counts, store)).0.1
            ≡ some begun)
          × (begun.user_id ≡ user.id)
          × (begun.refresh_token_hash ≡ hash_token pair.refresh_token)
          × (decode_refresh_token runtime settings pair.refresh_token now ≡ ok claims)
          × (claims.user_id ≡ user.id)
          × (claims.session_id ≡ reading.session_id)
    login-session request ip_address user_agent reading users counts store now user {pair} valid
          long named drawn random fresh in_time a numbered h =
        let (found, plan, a₂, b, after, same) =
          login-plan request ip_address user_agent reading users counts store h in
        let known = plan_login-IsLogin user ip_address user_agent reading valid long (
          subst (λ u. plan_login runtime settings u ip_address user_agent reading ≡ ok plan)
            (ok-injective found user a₂ a) b) in
        let current : now ≤ plan.0.expires_at = rw (known.ends) in_time in
        let decodes =
          decode_refresh_token-create runtime settings user.id reading.session_id plan.0.expires_at
            reading.refresh_issued_at reading.token_id now named numbered drawn random current
            known.issued in
        let created : get redis plan.0.session_id (create redis plan.0 plan.1 store) ≡ some plan.0 =
          get-create redis plan.0 plan.1 store known.lasts
            (ap (λ i. get redis i store) known.names_session ∙ fresh) in
        (
          plan.0,
          _,
          ap (get redis reading.session_id) after
              ∙ ap (λ i. get redis i (create redis plan.0 plan.1 store)) (sym known.names_session)
              ∙ created,
          known.names_user,
          known.hashed ∙ ap (λ p. hash_token p.refresh_token) same,
          ap (λ p. decode_refresh_token runtime settings p.refresh_token now) (sym same) ∙ decodes,
          refl,
          refl,
        )

    -- An attempt beyond the limit is refused whatever its password, and leaves the sessions as they are.
    pub login-refused :
        (request : LoginRequest) (ip_address user_agent : Option String) (reading : Reading)
        (users : Users) (counts : counters.Store) (store : Store)
        → max_attempts
          ≤ counters.count counts (
              build_key runtime counters window_seconds max_attempts
                (normalized runtime settings request.email))
        → let (after, result) =
            login runtime settings redis counters window_seconds max_attempts request ip_address
              user_agent reading users
              (counts, store) in
          (result ≡ err AuthError.login_rate_limit_exceeded) × (after.1 ≡ store)
    unfolding login
    login-refused request ip_address user_agent reading users counts store full =
        let email = normalized runtime settings request.email in
        let q : (reserve_attempt runtime counters window_seconds max_attempts email counts).1
            ≡ false =
          admits runtime counters window_seconds max_attempts email counts ∙ ground arith in
        (rw (login, q) refl, rw (login, q) refl)
