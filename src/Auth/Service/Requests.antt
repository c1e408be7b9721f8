-- ===== src/Auth/Service/Requests.antt =====
-- The sequences of requests and of the passing of time, and what holds of every store that they reach.
use ai_knowledge_hub.Base.{
  ℕ, ◌<◌, ◌≤◌, ◌≡◌, sym, ap, subst, ◌∙◌, inl, inr, String, false, Option, some, Result-cases,
  Bool-cases, str_eq,
}
use ai_knowledge_hub.Auth.Redis.{Redis, SessionHash}
use ai_knowledge_hub.Auth.Runtime.{Runtime}
use ai_knowledge_hub.Auth.Settings.{Settings, refuses_session_expiration}
use ai_knowledge_hub.Auth.Session.{
  SessionRecord, SessionRotation, create, hash_over, session_record_from_hash,
}
use ai_knowledge_hub.Auth.Session.Rotation.{session-create, get-some}
use ai_knowledge_hub.Auth.Security.{decode_refresh_token}
use ai_knowledge_hub.Auth.Users.{User, Users}
use ai_knowledge_hub.Auth.RateLimiter.{Counters, reserve_attempt}
use ai_knowledge_hub.Auth.Service.{
  Reading, LoginRequest, TokenPairResponse, plan_refresh, refresh, logout, require_current_session,
  revoke_session, revoke_all_sessions, list_sessions, plan_login, login, normalized, authenticate,
}
use ai_knowledge_hub.Auth.Service.Refreshing.{IsRotationOf, plan_refresh-IsRotationOf}
use ai_knowledge_hub.Auth.Service.Login.{IsLogin, plan_login-IsLogin}
use ai_knowledge_hub.Auth.Service.Bounded.{
  Bounded, IsBounded, Kept-IsBounded, rotated_le, delete_if_matches-Kept, revoke-Kept,
  revoke_all-Kept, list_for_user-Kept, rotate-cases,
}

some-injective {ℓ} : {A : Type ℓ} {a b : A} → some a ≡ some b → a ≡ b
some-injective {a} e = cc

module _ (runtime : Runtime) (settings : Settings) (redis : Redis) where
  open runtime use {Token}
  open redis use {Store, session, elapse, session-elapse}

  same-IsBounded :
      (before after : Store) → after ≡ before → IsBounded redis before → IsBounded redis after
  same-IsBounded before after e p = subst (IsBounded redis) (sym e) p

  rotation-end :
      (token : Token) (reading : Reading) (store : Store)
      (plan : SessionRotation × TokenPairResponse runtime settings) (h : SessionHash)
      → IsRotationOf runtime settings redis token reading store plan
      → session store plan.0.session_id ≡ some h
      → IsBounded redis store
      → plan.0.expires_at ≤ h.absolute_expires_at
  unfolding IsBounded session_record_from_hash
  rotation-end token reading store plan h known f p =
      let id = known.claims.session_id in
      let held : session store id ≡ some h = ap (session store) (sym known.same_session) ∙ f in
      let read : some known.session_record ≡ some (session_record_from_hash id h) =
        sym known.found ∙ get-some redis id store h held in
      let same : known.session_record ≡ session_record_from_hash id h = some-injective read in
      rw (known.ends, same)
        (rotated_le settings reading.time h.expires_at h.absolute_expires_at
          (subst Bounded held (p id)))

  refresh-IsBounded :
      (token : Token) (reading : Reading) (users : Users) (store : Store)
      → IsBounded redis store
      → IsBounded redis (refresh runtime settings redis token reading users store).0
  unfolding refresh IsBounded
  refresh-IsBounded token reading users store p j =
      elim (Result-cases (plan_refresh runtime settings redis token reading users store)) [
        | inr (e, q) ↦ rw (refresh, q) (p j)
        | inl (plan, q) ↦
            let known =
              plan_refresh-IsRotationOf runtime settings redis token reading users store q in
            elim (rotate-cases redis plan.0 store known.lasts) [
              | inl kept ↦ rw (refresh, q) (Kept-IsBounded redis store _ kept p j)
              | inr (h, f, each) ↦ elim (Bool-cases (str_eq plan.0.session_id j)) [
                | inr m ↦ rw (refresh, q, each j, m) (p j)
                | inl m ↦
                    rw (refresh, q, each j, m) (rotation-end token reading store plan h known f p)
              ]
            ]
      ]

  logout-IsBounded :
      (token : Token) (now : ℕ) (store : Store)
      → IsBounded redis store
      → IsBounded redis (logout runtime settings redis token now store).0
  unfolding logout
  logout-IsBounded token now store p =
      elim (Result-cases (decode_refresh_token runtime settings token now)) [
        | inr (e, q) ↦ rw (logout, q) p
        | inl (claims, q) ↦
            rw (logout, q) (Kept-IsBounded redis store _ (delete_if_matches-Kept redis _ store) p)
      ]

  list_sessions-IsBounded :
      (token : Token) (now : ℕ) (users : Users) (store : Store)
      → IsBounded redis store
      → IsBounded redis (list_sessions runtime settings redis token now users store).0
  unfolding list_sessions
  list_sessions-IsBounded token now users store p =
      elim (Result-cases (require_current_session runtime settings redis token now users store)) [
        | inr (e, q) ↦ rw (list_sessions, q) p
        | inl (claims, q) ↦
            rw (list_sessions, q)
              (Kept-IsBounded redis store _ (list_for_user-Kept redis _ store) p)
      ]

  revoke_session-IsBounded :
      (token : Token) (now : ℕ) (target : String) (users : Users) (store : Store)
      → IsBounded redis store
      → IsBounded redis (revoke_session runtime settings redis token now target users store).0
  unfolding revoke_session
  revoke_session-IsBounded token now target users store p =
      elim (Result-cases (require_current_session runtime settings redis token now users store)) [
        | inr (e, q) ↦ rw (revoke_session, q) p
        | inl (claims, q) ↦
            rw (revoke_session, q) (Kept-IsBounded redis store _ (revoke-Kept redis _ store) p)
      ]

  revoke_all_sessions-IsBounded :
      (token : Token) (now : ℕ) (users : Users) (store : Store)
      → IsBounded redis store
      → IsBounded redis (revoke_all_sessions runtime settings redis token now users store).0
  unfolding revoke_all_sessions
  revoke_all_sessions-IsBounded token now users store p =
      elim (Result-cases (require_current_session runtime settings redis token now users store)) [
        | inr (e, q) ↦ rw (revoke_all_sessions, q) p
        | inl (claims, q) ↦
            rw (revoke_all_sessions, q)
              (Kept-IsBounded redis store _ (revoke_all-Kept redis _ store) p)
      ]

  created-IsBounded :
      (store : Store) (plan : SessionRecord × ℕ × TokenPairResponse runtime settings) {user : User}
      {reading : Reading}
      → IsLogin runtime settings user reading plan
      → IsBounded redis store
      → IsBounded redis (create redis plan.0 plan.1 store)
  unfolding IsBounded hash_over
  created-IsBounded store plan known p j = elim (Bool-cases (str_eq plan.0.session_id j)) [
    | inl m ↦ rw (session-create redis plan.0 plan.1 store j known.lasts, m) known.within
    | inr m ↦ rw (session-create redis plan.0 plan.1 store j known.lasts, m) (p j)
  ]

  module _ (counters : Counters) (window_seconds max_attempts : ℕ) where
    login-IsBounded :
        (request : LoginRequest) (ip_address user_agent : Option String) (reading : Reading)
        (users : Users) (counts : counters.Store) (store : Store)
        → refuses_session_expiration settings ≡ false
        → 0 < settings.session_ttl_days
        → IsBounded redis store
        → IsBounded redis
            (login runtime settings redis counters window_seconds max_attempts request ip_address
              user_agent reading users
              (counts, store)).0.1
    unfolding login
    login-IsBounded request ip_address user_agent reading users counts store valid long p =
        let email = normalized runtime settings request.email in
        elim (Bool-cases
          (reserve_attempt runtime counters window_seconds max_attempts email counts).1) [
            | inr q ↦ rw (login, q) p
            | inl q ↦
                elim (Result-cases (authenticate runtime settings email request.password users)) [
                  | inr (e, a) ↦ rw (login, q, a) p
                  | inl (user, a) ↦
                      elim (Result-cases
                        (plan_login runtime settings user ip_address user_agent reading)) [
                          | inr (e, b) ↦ rw (login, q, a, b) p
                          | inl (plan, b) ↦
                              rw (login, q, a, b)
                                (created-IsBounded store plan
                                  (plan_login-IsLogin runtime settings user ip_address user_agent
                                    reading valid long b)
                                  p)
                        ]
                ]
          ]

    -- A request to one of the methods of the service, or the passing of time, changes the store of sessions.
    pub data Request (before : Store) : Store → Type 0 where
      logs_in :
          (request : LoginRequest) (ip_address user_agent : Option String) (reading : Reading)
          (users : Users) (counts : counters.Store)
          → Request before
              (login runtime settings redis counters window_seconds max_attempts request ip_address
                user_agent reading users
                (counts, before)).0.1
      refreshes :
          (token : Token) (reading : Reading) (users : Users)
          → Request before (refresh runtime settings redis token reading users before).0
      logs_out :
          (token : Token) (now : ℕ)
          → Request before (logout runtime settings redis token now before).0
      lists :
          (token : Token) (now : ℕ) (users : Users)
          → Request before (list_sessions runtime settings redis token now users before).0
      revokes :
          (token : Token) (now : ℕ) (target : String) (users : Users)
          → Request before (revoke_session runtime settings redis token now target users before).0
      revokes_all :
          (token : Token) (now : ℕ) (users : Users)
          → Request before (revoke_all_sessions runtime settings redis token now users before).0
      waits : (seconds : ℕ) → Request before (elapse seconds before)

    pub data Requests (first : Store) : Store → Type 0 where
      none_yet : Requests first first
      and_then :
          (before after : Store)
          → Requests first before
          → Request before after
          → Requests first after

    Request-IsBounded :
        {before after : Store}
        → refuses_session_expiration settings ≡ false
        → 0 < settings.session_ttl_days
        → Request before after
        → IsBounded redis before
        → IsBounded redis after
    Request-IsBounded {before} valid long
          (logs_in request ip_address user_agent reading users counts) p =
        login-IsBounded request ip_address user_agent reading users counts before valid long p
    Request-IsBounded {before} valid long (refreshes token reading users) p =
        refresh-IsBounded token reading users before p
    Request-IsBounded {before} valid long (logs_out token now) p =
        logout-IsBounded token now before p
    Request-IsBounded {before} valid long (lists token now users) p =
        list_sessions-IsBounded token now users before p
    Request-IsBounded {before} valid long (revokes token now target users) p =
        revoke_session-IsBounded token now target users before p
    Request-IsBounded {before} valid long (revokes_all token now users) p =
        revoke_all_sessions-IsBounded token now users before p
    Request-IsBounded {before} valid long (waits seconds) p =
        Kept-IsBounded redis before (elapse seconds before) (session-elapse seconds before) p

    -- Whatever requests are made and however much time passes, with settings that the configuration accepts:
    -- from a store in which no session ends after its final end, only such stores are reached.
    pub Requests-IsBounded :
        {first after : Store}
        → refuses_session_expiration settings ≡ false
        → 0 < settings.session_ttl_days
        → IsBounded redis first
        → Requests first after
        → IsBounded redis after
    Requests-IsBounded valid long p none_yet = p
    Requests-IsBounded valid long p (and_then before after earlier last) =
        Request-IsBounded valid long last (Requests-IsBounded valid long p earlier)
