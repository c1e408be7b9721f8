-- ===== src/Auth/Service/LoggedOut.antt =====
-- After a logout the refresh token is of no more use.
use ai_knowledge_hub.Base.{
  ℕ, ◌≡◌, ◌≢◌, refl, sym, ap, ◌∙◌, inl, inr, String, none, Result, ok, eq_refl,
}
use ai_knowledge_hub.Auth.Redis.{Redis}
use ai_knowledge_hub.Auth.Runtime.{Runtime}
use ai_knowledge_hub.Auth.Settings.{Settings}
use ai_knowledge_hub.Auth.Session.{get}
use ai_knowledge_hub.Auth.Security.{AuthError, RefreshTokenClaims}
use ai_knowledge_hub.Auth.Security.Tokens.{decode_refresh_token-same}
use ai_knowledge_hub.Auth.Users.{Users}
use ai_knowledge_hub.Auth.Service.{Reading, TokenPairResponse, refresh, logout}
use ai_knowledge_hub.Auth.Service.Sessions.{EndsSession, logout-LogsOut}
use ai_knowledge_hub.Auth.Service.Refreshing.{refresh-success, plan_refresh-IsRotationOf}

module _ (runtime : Runtime) (settings : Settings) (redis : Redis) where
  open runtime use {Token}
  open redis use {Store, session, elapse, session-elapse}

  EndsSession-none :
      (token : Token) (claims : RefreshTokenClaims) (store : Store)
      (out : Store × Result AuthError (Unit {0})) {u : Unit {0}}
      → EndsSession runtime settings redis token claims store out
      → out.1 ≡ ok u
      → session out.0 claims.session_id ≡ none
  EndsSession-none token claims store out (inl (m, r, each)) h =
      each claims.session_id ∙ rw (eq_refl claims.session_id) refl
  EndsSession-none token claims store out (inr (inl (q, r, a))) h =
      ap (λ s. session s claims.session_id) a ∙ q
  EndsSession-none token claims store out (inr (inr (s, q, m, r, a))) h = cc (sym r ∙ h)

  elapse-none :
      (seconds : ℕ) (store : Store) (j : String)
      → session store j ≡ none
      → session (elapse seconds store) j ≡ none
  elapse-none seconds store j h = elim (session-elapse seconds store j) [
    | inl e ↦ e ∙ h
    | inr e ↦ e
  ]

  get-none : (j : String) (store : Store) → session store j ≡ none → get redis j store ≡ none
  unfolding get
  get-none j store h = rw (get, h) refl

  -- When a logout with a refresh token has succeeded, refreshing with that token, after any time and
  -- whatever the users' table and the clock are then, does not succeed.
  pub refresh-logout :
      (token : Token) (now : ℕ) (reading : Reading) (users : Users) (store : Store) (seconds : ℕ)
      {u : Unit {0}}
      → (logout runtime settings redis token now store).1 ≡ ok u
      → (pair : TokenPairResponse runtime settings)
      → (refresh runtime settings redis token reading users
          (elapse seconds (logout runtime settings redis token now store).0)).1
        ≢ ok pair
  refresh-logout token now reading users store seconds h pair k =
      let (plan, p, _, _, _) = refresh-success runtime settings redis token reading users _ k in
      let known = plan_refresh-IsRotationOf runtime settings redis token reading users _ p in
      elim (logout-LogsOut runtime settings redis token now store) [
        | inl (e, d, r, a) ↦ cc (sym r ∙ h)
        | inr (claims, d, ends) ↦
            let same =
              decode_refresh_token-same runtime settings token now reading.decoded_at claims
                known.claims d known.decodes in
            let gone =
              EndsSession-none token claims store (logout runtime settings redis token now store)
                ends h in
            let missing =
              get-none claims.session_id _ (elapse-none seconds _ claims.session_id gone) in
            cc (
              sym missing
              ∙ ap
                  (λ c.
                    get redis c.session_id
                      (elapse seconds (logout runtime settings redis token now store).0))
                  same
              ∙ known.found)
      ]
