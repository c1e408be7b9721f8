-- ===== src/Auth/Service/Sessions.antt =====
-- The methods that end sessions: whose they end, and when the answer is an error.
use ai_knowledge_hub.Base.{
  ℕ, ◌≡◌, refl, sym, ap, ◌∙◌, ◌⊎◌, inl, inr, String, Bool, true, false, not, ◌&&◌, Option, none,
  some, Result, err, ok, >>=-eq-ok, ok-injective, or_raise, or_raise-eq-ok, raise_if,
  raise_if-eq-ok, Result-cases, Option-cases, Bool-cases, arith, str_eq, ◌==◌, if◌then◌else◌,
}
use ai_knowledge_hub.Auth.Redis.{Redis, SessionHash}
use ai_knowledge_hub.Auth.Runtime.{Runtime}
use ai_knowledge_hub.Auth.Settings.{Settings}
use ai_knowledge_hub.Auth.Session.{
  SessionRecord, SessionDeletion, SessionRevocation, RevocationResult, get, delete_if_matches,
  revoke, owned_by,
}
use ai_knowledge_hub.Auth.Session.Revocation.{revoke_lem}
use ai_knowledge_hub.Auth.Security.{
  AuthError, RefreshTokenClaims, AccessTokenClaims, decode_refresh_token, decode_access_token,
}
use ai_knowledge_hub.Auth.Users.{User, Users, is_active, get_by_id}
use ai_knowledge_hub.Auth.Service.{
  logout, require_current_session, revoke_session, answer_revocation, is_owner,
}

module _ (runtime : Runtime) (settings : Settings) (redis : Redis) where
  open runtime use {Token, hash_token}
  open redis use {Store, session, delete_session, zrem, session-delete_session, session-zrem}

  -- The deletion that `logout` asks for.
  abbrev pub deletion_of : Token → RefreshTokenClaims → SessionDeletion
  deletion_of token claims = record {
    session_id = claims.session_id;
    user_id = claims.user_id;
    expected_refresh_token_hash = hash_token token;
  }

  session-removed :
      (user : ℕ) (id : String) (store : Store) (j : String)
      → session (zrem user id (delete_session id store)) j
        ≡ (if str_eq id j then none else session store j)
  session-removed user id store j = session-zrem user id _ j ∙ session-delete_session id store j

  abbrev pub holds : SessionDeletion → Option SessionHash → Bool
  holds d none = false
  holds d (some h) =
      h.user_id == d.user_id && str_eq h.refresh_token_hash d.expected_refresh_token_hash

  -- The outcomes of a logout with a token that decodes: the token's session is gone, and no other; there
  -- was none; or the session does not hold the token, and the answer is an error that changes nothing.
  abbrev pub EndsSession :
      Token → RefreshTokenClaims → Store → Store × Result AuthError (Unit {0}) → Type 0
  EndsSession token claims store (after, result) =
      ((holds (deletion_of token claims) (session store claims.session_id) ≡ true)
        × (result ≡ ok tt)
        × ((j : String)
            → session after j ≡ (if str_eq claims.session_id j then none else session store j)))
      ⊎ (((session store claims.session_id ≡ none) × (result ≡ ok tt) × (after ≡ store))
          ⊎ ((h : SessionHash) × (session store claims.session_id ≡ some h)
              × (holds (deletion_of token claims) (some h) ≡ false)
              × (result ≡ err AuthError.invalid_refresh_token)
              × (after ≡ store)))

  -- The outcomes of a logout: the token does not decode, and the error of the decoding is the answer and
  -- nothing changes; or it decodes.
  abbrev pub LogsOut : Token → ℕ → Store → Store × Result AuthError (Unit {0}) → Type 0
  LogsOut token now store out =
      ((e : AuthError) × (decode_refresh_token runtime settings token now ≡ err e)
        × (out.1 ≡ err e)
        × (out.0 ≡ store))
      ⊎ ((claims : RefreshTokenClaims) × (decode_refresh_token runtime settings token now
            ≡ ok claims)
          × EndsSession token claims store out)

  logout-EndsSession :
      (token : Token) (now : ℕ) (store : Store) {claims : RefreshTokenClaims}
      → decode_refresh_token runtime settings token now ≡ ok claims
      → EndsSession token claims store (logout runtime settings redis token now store)
  unfolding logout delete_if_matches
  logout-EndsSession token now store {claims} d =
      elim (Option-cases (session store claims.session_id)) [
        | inl q ↦ inr (
            inl (
              q,
              rw (logout, d, delete_if_matches, q) refl,
              rw (logout, d, delete_if_matches, q) refl,
            ))
        | inr (h, q) ↦ elim (Bool-cases (holds (deletion_of token claims) (some h))) [
          | inl m ↦ inl (
            rw (q) m,
            rw (logout, d, delete_if_matches, q, m) refl,
            λ j.
                rw (logout, d, delete_if_matches, q, m)
                  (session-removed claims.user_id claims.session_id store j),
          )
          | inr m ↦ inr (
              inr (
                h,
                q,
                m,
                rw (logout, d, delete_if_matches, q, m) refl,
                rw (logout, d, delete_if_matches, q, m) refl,
              ))
        ]
      ]

  -- A logout with a refresh token that does not decode fails with the error of the decoding, without a
  -- change of the sessions. With one that decodes it ends the session that the token names, and no other,
  -- if the session is the user's and holds the token; it succeeds without a change of the sessions if there
  -- is no such session; and otherwise it fails without a change of them.
  pub logout-LogsOut :
      (token : Token) (now : ℕ) (store : Store)
      → LogsOut token now store (logout runtime settings redis token now store)
  unfolding logout
  logout-LogsOut token now store =
      elim (Result-cases (decode_refresh_token runtime settings token now)) [
        | inr (e, q) ↦ inl (e, q, rw (logout, q) refl, rw (logout, q) refl)
        | inl (claims, q) ↦ inr (claims, q, logout-EndsSession token now store q)
      ]

  -- What `_require_current_session` has checked.
  current-session :
      (token : Token) (now : ℕ) (users : Users) (store : Store) {user_id : ℕ} {session_id : String}
      → require_current_session runtime settings redis token now users store
        ≡ ok (user_id, session_id)
      → (claims : AccessTokenClaims) × (decode_access_token runtime settings token now ≡ ok claims)
        × (claims.user_id ≡ user_id)
        × (claims.session_id ≡ some session_id)
        × ((user : User) × (get_by_id user_id users ≡ some user) × (is_active user.status ≡ true))
        × ((h : SessionRecord) × (get redis session_id store ≡ some h) × (h.user_id ≡ user_id))
  unfolding require_current_session
  current-session token now users store {user_id} {session_id} h =
      let (claims, a, h₁) = >>=-eq-ok (decode_access_token runtime settings token now) _ h in
      let (sid, b, h₂) =
        >>=-eq-ok (or_raise claims.session_id AuthError.invalid_access_token) _ h₁ in
      let (user, c, h₃) =
        >>=-eq-ok (or_raise (get_by_id claims.user_id users) AuthError.invalid_access_token) _ h₂ in
      let (_, d, h₄) =
        >>=-eq-ok (raise_if (not (is_active user.status)) AuthError.inactive_user) _ h₃ in
      let (found, e, h₅) =
        >>=-eq-ok (or_raise (get redis sid store) AuthError.invalid_access_token) _ h₄ in
      let (_, f, h₆) =
        >>=-eq-ok (raise_if (not (is_owner found claims.user_id)) AuthError.invalid_access_token) _
          h₅ in
      let made : (claims.user_id, sid) ≡ (user_id, session_id) =
        ok-injective (claims.user_id, sid) (user_id, session_id) refl h₆ in
      let same_user : claims.user_id ≡ user_id = ap (λ x. x.0) made in
      let same_session : sid ≡ session_id = ap (λ x. x.1) made in
      let working = raise_if-eq-ok (not (is_active user.status)) AuthError.inactive_user d in
      let owned =
        raise_if-eq-ok (not (is_owner found claims.user_id)) AuthError.invalid_access_token f in
      (
        claims,
        a,
        same_user,
        or_raise-eq-ok _ _ b ∙ ap some same_session,
        (user, ap (λ i. get_by_id i users) (sym same_user) ∙ or_raise-eq-ok _ _ c, ground arith),
        (
          found,
          ap (λ i. get redis i store) (sym same_session) ∙ or_raise-eq-ok _ _ e,
          ground (arith, same_user),
        ),
      )

  answered :
      (r : RevocationResult) {u : Unit {0}}
      → answer_revocation runtime settings redis r ≡ ok u
      → r ≡ RevocationResult.success
  answered RevocationResult.success h = refl
  answered RevocationResult.not_found h = cc

  -- When `revoke_session` succeeds, the token names an active user and a live session of that user, the
  -- target session was that user's, it has ended, and every other session is as it was.
  pub revoke_session-owned :
      (token : Token) (now : ℕ) (target : String) (users : Users) (store : Store) {u : Unit {0}}
      → (revoke_session runtime settings redis token now target users store).1 ≡ ok u
      → (user_id : ℕ) × (current : String) × (require_current_session runtime settings redis token
            now users store
          ≡ ok (user_id, current))
        × ((user : User) × (get_by_id user_id users ≡ some user) × (is_active user.status ≡ true))
        × ((h : SessionRecord) × (get redis current store ≡ some h) × (h.user_id ≡ user_id))
        × (owned_by user_id (session store target) ≡ true)
        × ((j : String)
            → session (revoke_session runtime settings redis token now target users store).0 j
              ≡ (if str_eq target j then none else session store j))
  unfolding revoke_session
  revoke_session-owned token now target users store {u} h =
      elim (Result-cases (require_current_session runtime settings redis token now users store)) [
        | inr (e, q) ↦ cc (rw (q, revoke_session) at h)
        | inl ((user_id, current), q) ↦
            let r : SessionRevocation = (record { session_id = target; user_id = user_id }) in
            let success = answered (revoke redis r store).1 (rw (q, revoke_session) at h) in
            let (claims, a, b, c, active, live) = current-session token now users store q in
            elim (revoke_lem redis r store) [
              | inl (owned, s, each) ↦
                  (user_id, current, q, active, live, owned, λ j. rw (revoke_session, q) (each j))
              | inr (owned, s) ↦ cc (sym success ∙ ap (λ x. x.1) s)
            ]
      ]
