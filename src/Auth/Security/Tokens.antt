-- ===== src/Auth/Security/Tokens.antt =====
-- The tokens that are issued: what comes back of them, and that one kind is never taken for the other.
use ai_knowledge_hub.Base.{
  ok-injective, >>=-same, subst, ℕ, ◌≤◌, ◌<◌, ◌+◌, ◌*◌, ◌≡◌, refl, inl, inr, String, false, Option,
  none, some, err, ok, >>=-eq-ok, or_raise-eq-ok, or_raise, arith, leb, Bool-cases, sym, ◌∙◌,
}
use ai_knowledge_hub.Auth.Runtime.{ℤ, Payload, written, Runtime}
use ai_knowledge_hub.Auth.Settings.{Settings}
use ai_knowledge_hub.Auth.Security.{
  AuthError, RefreshTokenClaims, get_active_jwt_signing_key, get_jwt_verification_secret,
  create_access_token, create_refresh_token, decode_access_token, decode_refresh_token,
  verified_payload, secret_of_kid, cap, is_empty,
}

leb-positive : (n : ℕ) → 0 < n → leb n 0 ≡ false
leb-positive n p = ground arith

module _ (runtime : Runtime) (settings : Settings) where
  open runtime use {
    Token, encode, unverified_kid, decode, str, int, unverified_kid-encode, decode-encode,
    decode-expired, decode-same, int-str, int-number,
  }

  -- The tokens are signed with the active key, whose id is not empty.
  verified-encode :
      (p : Payload) (secret : String) (now : ℕ) (e : AuthError)
      → settings.jwt_signing_keys settings.jwt_active_key_id ≡ some secret
      → is_empty settings.jwt_active_key_id ≡ false
      → verified_payload runtime settings (encode p secret settings.jwt_active_key_id) now e
        ≡ or_raise (decode (encode p secret settings.jwt_active_key_id) secret now) e
  unfolding verified_payload get_jwt_verification_secret
  verified-encode p secret now e key named =
      rw (unverified_kid-encode p secret settings.jwt_active_key_id, secret_of_kid, named, key) refl

  -- The claims of an access token's payload.
  decode_access_token-written :
      (token : Token) (user_id : ℕ) (session_id : String) (iat exp now : ℕ)
      → 0 < user_id
      → is_empty session_id ≡ false
      → verified_payload runtime settings token now AuthError.invalid_access_token
        ≡ ok (written (str user_id) "access" session_id none iat exp)
      → decode_access_token runtime settings token now
        ≡ ok (record {
          user_id = user_id;
          session_id = some session_id;
          issued_at = ℤ.pos iat;
          expires_at = ℤ.pos exp;
        })
  unfolding decode_access_token
  decode_access_token-written token user_id session_id iat exp now p named e =
      rw (e, named, int-str user_id, int-number iat, int-number exp, leb-positive user_id p) refl

  decode_refresh_token-written :
      (token : Token) (user_id : ℕ) (session_id token_id : String) (iat exp now : ℕ)
      → 0 < user_id
      → is_empty session_id ≡ false
      → is_empty token_id ≡ false
      → verified_payload runtime settings token now AuthError.invalid_refresh_token
        ≡ ok (written (str user_id) "refresh" session_id (some token_id) iat exp)
      → decode_refresh_token runtime settings token now
        ≡ ok (record {
          user_id = user_id;
          session_id = session_id;
          token_id = token_id;
          issued_at = ℤ.pos iat;
          expires_at = ℤ.pos exp;
        })
  unfolding decode_refresh_token
  decode_refresh_token-written token user_id session_id token_id iat exp now p named drawn e =
      rw (e, named, drawn, int-str user_id, int-number iat, int-number exp, leb-positive user_id p)
        refl

  create_access_token-encode :
      (user_id : ℕ) (session_id : String) (session_expires_at : Option ℕ) (issued_at : ℕ)
      {token : Token}
      → create_access_token runtime settings user_id session_id session_expires_at issued_at
        ≡ ok token
      → (secret : String) × (settings.jwt_signing_keys settings.jwt_active_key_id ≡ some secret)
        × (encode
              (written (str user_id) "access" session_id none issued_at (
                cap runtime settings
                  (issued_at + settings.jwt_access_token_expire_minutes * 60)
                  session_expires_at))
              secret
              settings.jwt_active_key_id
            ≡ token)
  unfolding create_access_token get_active_jwt_signing_key
  create_access_token-encode user_id session_id session_expires_at issued_at h =
      let ((key_id, signed), a, h₁) = >>=-eq-ok (get_active_jwt_signing_key runtime settings) _ h in
      let (secret, b, h₂) =
        >>=-eq-ok
          (or_raise (settings.jwt_signing_keys settings.jwt_active_key_id) AuthError.key_error) _
          a in
      (secret, or_raise-eq-ok _ _ b, cc)

  create_refresh_token-encode :
      (user_id : ℕ) (session_id : String) (expires_at issued_at : ℕ) (token_id : String)
      {token : Token}
      → create_refresh_token runtime settings user_id session_id expires_at issued_at token_id
        ≡ ok token
      → (secret : String) × (settings.jwt_signing_keys settings.jwt_active_key_id ≡ some secret)
        × (encode
              (written (str user_id) "refresh" session_id (some token_id) issued_at expires_at)
              secret
              settings.jwt_active_key_id
            ≡ token)
  unfolding create_refresh_token get_active_jwt_signing_key
  create_refresh_token-encode user_id session_id expires_at issued_at token_id h =
      let ((key_id, signed), a, h₁) = >>=-eq-ok (get_active_jwt_signing_key runtime settings) _ h in
      let (secret, b, h₂) =
        >>=-eq-ok
          (or_raise (settings.jwt_signing_keys settings.jwt_active_key_id) AuthError.key_error) _
          a in
      (secret, or_raise-eq-ok _ _ b, cc)

  verified-in_time :
      (sub kind sid : String) (jti : Option String) (iat exp : ℕ) (secret : String) (now : ℕ)
      (e : AuthError)
      → settings.jwt_signing_keys settings.jwt_active_key_id ≡ some secret
      → is_empty settings.jwt_active_key_id ≡ false
      → now ≤ exp
      → verified_payload runtime settings
          (encode (written sub kind sid jti iat exp) secret settings.jwt_active_key_id)
          now
          e
        ≡ ok (written sub kind sid jti iat exp)
  verified-in_time sub kind sid jti iat exp secret now e key named p =
      verified-encode (written sub kind sid jti iat exp) secret now e key named
      ∙ rw (decode-encode sub kind sid jti iat exp secret settings.jwt_active_key_id now p) refl

  verified-late :
      (sub kind sid : String) (jti : Option String) (iat exp : ℕ) (secret : String) (now : ℕ)
      (e : AuthError)
      → settings.jwt_signing_keys settings.jwt_active_key_id ≡ some secret
      → is_empty settings.jwt_active_key_id ≡ false
      → exp < now
      → verified_payload runtime settings
          (encode (written sub kind sid jti iat exp) secret settings.jwt_active_key_id)
          now
          e
        ≡ err e
  verified-late sub kind sid jti iat exp secret now e key named p =
      verified-encode (written sub kind sid jti iat exp) secret now e key named
      ∙ rw
          (decode-expired (written sub kind sid jti iat exp) exp secret settings.jwt_active_key_id
            now refl p)
          refl

  refresh_refuses-access :
      (user_id session_id : String) (iat exp : ℕ) (secret : String) (now : ℕ)
      → settings.jwt_signing_keys settings.jwt_active_key_id ≡ some secret
      → is_empty settings.jwt_active_key_id ≡ false
      → decode_refresh_token runtime settings
          (encode
            (written user_id "access" session_id none iat exp)
            secret
            settings.jwt_active_key_id)
          now
        ≡ err AuthError.invalid_refresh_token
  unfolding decode_refresh_token
  refresh_refuses-access user_id session_id iat exp secret now key named =
      elim (Bool-cases (leb now exp)) [
        | inl q ↦
            rw
              (verified-in_time user_id "access" session_id none iat exp secret now
                AuthError.invalid_refresh_token key named (ground arith))
              refl
        | inr q ↦
            rw
              (verified-late user_id "access" session_id none iat exp secret now
                AuthError.invalid_refresh_token key named (ground arith))
              refl
      ]

  access_refuses-refresh :
      (user_id session_id token_id : String) (iat exp : ℕ) (secret : String) (now : ℕ)
      → settings.jwt_signing_keys settings.jwt_active_key_id ≡ some secret
      → is_empty settings.jwt_active_key_id ≡ false
      → decode_access_token runtime settings
          (encode
            (written user_id "refresh" session_id (some token_id) iat exp)
            secret
            settings.jwt_active_key_id)
          now
        ≡ err AuthError.invalid_access_token
  unfolding decode_access_token
  access_refuses-refresh user_id session_id token_id iat exp secret now key named =
      elim (Bool-cases (leb now exp)) [
        | inl q ↦
            rw
              (verified-in_time user_id "refresh" session_id (some token_id) iat exp secret now
                AuthError.invalid_access_token key named (ground arith))
              refl
        | inr q ↦
            rw
              (verified-late user_id "refresh" session_id (some token_id) iat exp secret now
                AuthError.invalid_access_token key named (ground arith))
              refl
      ]

  -- An access token that is issued for a user with a positive id and a session with an id, under a key
  -- with an id, gives back that user and that session until its end, which is at most the session's.
  pub decode_access_token-create :
      (user_id : ℕ) (session_id : String) (session_expires_at : Option ℕ) (issued_at now : ℕ)
      {token : Token}
      → is_empty settings.jwt_active_key_id ≡ false
      → 0 < user_id
      → is_empty session_id ≡ false
      → now
        ≤ cap runtime settings
            (issued_at + settings.jwt_access_token_expire_minutes * 60)
            session_expires_at
      → create_access_token runtime settings user_id session_id session_expires_at issued_at
        ≡ ok token
      → decode_access_token runtime settings token now
        ≡ ok (record {
          user_id = user_id;
          session_id = some session_id;
          issued_at = ℤ.pos issued_at;
          expires_at = ℤ.pos (
              cap runtime settings
                (issued_at + settings.jwt_access_token_expire_minutes * 60)
                session_expires_at);
        })
  decode_access_token-create user_id session_id session_expires_at issued_at now {token} named p q
        in_time h =
      let (secret, key, made) =
        create_access_token-encode user_id session_id session_expires_at issued_at h in
      decode_access_token-written token user_id session_id issued_at _ now p q (
        rw (sym made) (
          verified-in_time (str user_id) "access" session_id none issued_at _ secret now
            AuthError.invalid_access_token key named in_time))

  -- A refresh token that is issued for a user with a positive id, a session with an id and a token id,
  -- under a key with an id, gives them back until the session's end.
  pub decode_refresh_token-create :
      (user_id : ℕ) (session_id : String) (expires_at issued_at : ℕ) (token_id : String) (now : ℕ)
      {token : Token}
      → is_empty settings.jwt_active_key_id ≡ false
      → 0 < user_id
      → is_empty session_id ≡ false
      → is_empty token_id ≡ false
      → now ≤ expires_at
      → create_refresh_token runtime settings user_id session_id expires_at issued_at token_id
        ≡ ok token
      → decode_refresh_token runtime settings token now
        ≡ ok (record {
          user_id = user_id;
          session_id = session_id;
          token_id = token_id;
          issued_at = ℤ.pos issued_at;
          expires_at = ℤ.pos expires_at;
        })
  decode_refresh_token-create user_id session_id expires_at issued_at token_id now {token} named p q
        r in_time h =
      let (secret, key, made) =
        create_refresh_token-encode user_id session_id expires_at issued_at token_id h in
      decode_refresh_token-written token user_id session_id token_id issued_at _ now p q r (
        rw (sym made) (
          verified-in_time (str user_id) "refresh" session_id (some token_id) issued_at _ secret now
            AuthError.invalid_refresh_token key named in_time))

  -- Of an access token and a refresh token that are issued under a key with an id, neither is taken for
  -- the other, at any time.
  pub decode_token-kind :
      (user_id : ℕ) (session_id : String) (session_expires_at : Option ℕ) (expires_at issued_at : ℕ)
      (token_id : String) (now : ℕ) {access refresh : Token}
      → is_empty settings.jwt_active_key_id ≡ false
      → create_access_token runtime settings user_id session_id session_expires_at issued_at
        ≡ ok access
      → create_refresh_token runtime settings user_id session_id expires_at issued_at token_id
        ≡ ok refresh
      → (decode_refresh_token runtime settings access now ≡ err AuthError.invalid_refresh_token)
        × (decode_access_token runtime settings refresh now ≡ err AuthError.invalid_access_token)
  decode_token-kind user_id session_id session_expires_at expires_at issued_at token_id now named h
        k =
      let (secret, key, made) =
        create_access_token-encode user_id session_id session_expires_at issued_at h in
      let (secret₂, key₂, made₂) =
        create_refresh_token-encode user_id session_id expires_at issued_at token_id k in
      (
        rw (sym made)
            (refresh_refuses-access (str user_id) session_id issued_at _ secret now key named),
        rw (sym made₂) (
            access_refuses-refresh (str user_id) session_id token_id issued_at expires_at secret₂
              now key₂ named),
      )

  verified_payload-same :
      (token : Token) (now later : ℕ) (e : AuthError) (p q : Payload)
      → verified_payload runtime settings token now e ≡ ok p
      → verified_payload runtime settings token later e ≡ ok q
      → p ≡ q
  unfolding verified_payload
  verified_payload-same token now later e p q h k =
      let (secret, a, h₁) =
        >>=-eq-ok (or_raise (get_jwt_verification_secret runtime settings token) e) _ h in
      let (secret₂, b, k₁) =
        >>=-eq-ok (or_raise (get_jwt_verification_secret runtime settings token) e) _ k in
      decode-same token secret now later p q (or_raise-eq-ok (decode token secret now) e h₁) (
        subst (λ s. decode token s later ≡ some q) (ok-injective secret₂ secret b a)
          (or_raise-eq-ok (decode token secret₂ later) e k₁))

  -- A refresh token that decodes at two times gives the same claims.
  pub decode_refresh_token-same :
      (token : Token) (now later : ℕ) (a b : RefreshTokenClaims)
      → decode_refresh_token runtime settings token now ≡ ok a
      → decode_refresh_token runtime settings token later ≡ ok b
      → a ≡ b
  unfolding decode_refresh_token
  decode_refresh_token-same token now later a b h k =
      >>=-same (verified_payload runtime settings token now AuthError.invalid_refresh_token)
        (verified_payload runtime settings token later AuthError.invalid_refresh_token) _
        (verified_payload-same token now later AuthError.invalid_refresh_token) h k
