-- ===== src/Auth/Service/Refreshing.antt =====
-- Refreshing: a refresh token works once, and never past the final end of its session.
use ai_knowledge_hub.Base.{
  ok-injective, ℕ, ◌-◌, ◌<◌, ◌≡◌, ◌≢◌, refl, sym, ap, subst, ◌∙◌, inl, inr, not, some, ok,
  >>=-eq-ok, or_raise, or_raise-eq-ok, raise_if, raise_if-eq-ok, Result-cases, arith, leb,
}
use ai_knowledge_hub.Auth.Redis.{Redis}
use ai_knowledge_hub.Auth.Runtime.{Runtime}
use ai_knowledge_hub.Auth.Session.{SessionRecord, SessionRotation, RotationResult, get, rotate}
use ai_knowledge_hub.Auth.Session.Rotation.{rotate-replay}
use ai_knowledge_hub.Auth.Settings.{Settings}
use ai_knowledge_hub.Auth.Security.Tokens.{decode_refresh_token-same}
use ai_knowledge_hub.Auth.Security.{
  AuthError, RefreshTokenClaims, decode_refresh_token, create_refresh_token, create_access_token,
  calculate_rotated_session_expiration,
}
use ai_knowledge_hub.Auth.Users.{Users, is_active, get_by_id}
use ai_knowledge_hub.Auth.Service.{
  Reading, TokenPairResponse, plan_refresh, refresh, answer_rotation, is_owner, token_pair,
}

module _ (runtime : Runtime) (settings : Settings) (redis : Redis) where
  open runtime use {Token, hash_token}
  open redis use {Store, elapse}

  -- What is known of a rotation that `refresh` asks for.
  pub record IsRotationOf (token : Token) (reading : Reading) (store : Store)
      (plan : SessionRotation × TokenPairResponse runtime settings) : Type 0 where
    pub claims : RefreshTokenClaims
    pub session_record : SessionRecord
    pub decodes : decode_refresh_token runtime settings token reading.decoded_at ≡ ok claims
    pub found : get redis claims.session_id store ≡ some session_record
    pub same_session : plan.0.session_id ≡ claims.session_id
    pub same_token : plan.0.expected_refresh_token_hash ≡ hash_token token
    pub new_token : plan.0.new_refresh_token_hash ≡ hash_token plan.1.refresh_token
    pub lasts : 0 < plan.0.ttl_seconds
    pub ends :
        plan.0.expires_at
        ≡ calculate_rotated_session_expiration settings reading.time session_record.expires_at
            session_record.absolute_expires_at

  pub plan_refresh-IsRotationOf :
      (token : Token) (reading : Reading) (users : Users) (store : Store)
      {plan : SessionRotation × TokenPairResponse runtime settings}
      → plan_refresh runtime settings redis token reading users store ≡ ok plan
      → IsRotationOf token reading store plan
  unfolding plan_refresh
  plan_refresh-IsRotationOf token reading users store {plan} h =
      let (claims, a, h₁) =
        >>=-eq-ok (decode_refresh_token runtime settings token reading.decoded_at) _ h in
      let (session_record, b, h₂) =
        >>=-eq-ok (or_raise (get redis claims.session_id store) AuthError.invalid_refresh_token) _
          h₁ in
      let (_, c, h₃) =
        >>=-eq-ok
          (raise_if (not (is_owner session_record claims.user_id)) AuthError.invalid_refresh_token)
          _ h₂ in
      let (user, d, h₄) =
        >>=-eq-ok (or_raise (get_by_id claims.user_id users) AuthError.invalid_refresh_token) _
          h₃ in
      let (_, f, h₅) =
        >>=-eq-ok (raise_if (not (is_active user.status)) AuthError.inactive_user) _ h₄ in
      let end : ℕ =
        calculate_rotated_session_expiration settings reading.time session_record.expires_at
          session_record.absolute_expires_at in
      let (_, g, h₆) =
        >>=-eq-ok (raise_if (leb end reading.time) AuthError.invalid_refresh_token) _ h₅ in
      let (new, i, h₇) =
        >>=-eq-ok
          (create_refresh_token runtime settings user.id claims.session_id end
            reading.refresh_issued_at reading.token_id)
          _ h₆ in
      let (access, j, h₈) =
        >>=-eq-ok
          (create_access_token runtime settings user.id claims.session_id (some end)
            reading.access_issued_at)
          _ h₇ in
      let late = raise_if-eq-ok (leb end reading.time) AuthError.invalid_refresh_token g in
      let positive_ttl : 0 < end - reading.time = ground arith in
      let rotation : SessionRotation = (record {
        session_id = claims.session_id;
        user_id = user.id;
        expected_refresh_token_hash = hash_token token;
        new_refresh_token_hash = hash_token new;
        rotated_at = reading.time;
        expires_at = end;
        ttl_seconds = end - reading.time;
      }) in
      let made : (rotation, token_pair runtime settings access new (end - reading.time)) ≡ plan =
        ok-injective _ _ refl h₈ in
      subst (λ p. IsRotationOf token reading store p) made
        (record {
          claims = claims;
          session_record = session_record;
          decodes = a;
          found = or_raise-eq-ok _ _ b;
          same_session = refl;
          same_token = refl;
          new_token = refl;
          lasts = positive_ttl;
          ends = refl;
        })

  answered :
      (pair : TokenPairResponse runtime settings) (r : RotationResult)
      {given : TokenPairResponse runtime settings}
      → answer_rotation runtime settings redis pair r ≡ ok given
      → (r ≡ RotationResult.success) × (pair ≡ given)
  answered pair RotationResult.success h = (refl, ok-injective _ _ refl h)
  answered pair RotationResult.session_not_found h = cc
  answered pair RotationResult.token_mismatch h = cc

  pub refresh-success :
      (token : Token) (reading : Reading) (users : Users) (store : Store)
      {pair : TokenPairResponse runtime settings}
      → (refresh runtime settings redis token reading users store).1 ≡ ok pair
      → (plan : SessionRotation × TokenPairResponse runtime settings) × (plan_refresh runtime
            settings redis token reading users store
          ≡ ok plan)
        × ((rotate redis plan.0 store).1 ≡ RotationResult.success)
        × (plan.1 ≡ pair)
        × ((refresh runtime settings redis token reading users store).0
            ≡ (rotate redis plan.0 store).0)
  unfolding refresh
  refresh-success token reading users store {pair} h =
      elim (Result-cases (plan_refresh runtime settings redis token reading users store)) [
        | inr (e, q) ↦ cc (rw (q, refresh) at h)
        | inl (plan, q) ↦
            let (r, same) = answered plan.1 (rotate redis plan.0 store).1 (rw (q, refresh) at h) in
            (plan, q, r, same, rw (q, refresh) refl)
      ]

  -- A refresh token works once: when refreshing with it has succeeded and given a token of another hash,
  -- refreshing with it again, after any time and whatever the users' table and the clock are then, does
  -- not succeed.
  pub refresh-replay :
      (token : Token) (first second : Reading) (users later : Users) (store : Store) (seconds : ℕ)
      {pair : TokenPairResponse runtime settings}
      → hash_token pair.refresh_token ≢ hash_token token
      → (refresh runtime settings redis token first users store).1 ≡ ok pair
      → (again : TokenPairResponse runtime settings)
      → (refresh runtime settings redis token second later
          (elapse seconds (refresh runtime settings redis token first users store).0)).1
        ≢ ok again
  refresh-replay token first second users later store seconds {pair} new_hash h again k =
      let (plan, p, r, same, after) = refresh-success token first users store h in
      let (plan₂, p₂, r₂, same₂, after₂) = refresh-success token second later _ k in
      let known = plan_refresh-IsRotationOf token first users store p in
      let known₂ = plan_refresh-IsRotationOf token second later _ p₂ in
      let same_claims =
        decode_refresh_token-same runtime settings token first.decoded_at second.decoded_at
          known.claims known₂.claims known.decodes known₂.decodes in
      (rotate-replay redis plan.0 plan₂.0 store seconds known.lasts
          (known₂.same_session ∙ ap (λ c. c.session_id) (sym same_claims) ∙ sym known.same_session)
          (known₂.same_token ∙ sym known.same_token)
          (λ e. new_hash (
            ap (λ x. hash_token x.refresh_token) (sym same)
            ∙ sym known.new_token
            ∙ e
            ∙ known.same_token))
          r).0
        (ap (λ s. (rotate redis plan₂.0 (elapse seconds s)).1) (sym after) ∙ r₂)
