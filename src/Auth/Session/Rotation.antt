-- ===== src/Auth/Session/Rotation.antt =====
-- Rotating refresh tokens: a token that has been used once is of no use again.
use ai_knowledge_hub.Base.{
  ap, ◌∙◌, sym, ℕ, ◌<◌, ◌≡◌, ◌≢◌, refl, inl, inr, String, false, Option, none, some, arith, str_eq,
  eq_iff, if◌then◌else◌, Option-cases, Bool-cases, eq_refl,
}
use ai_knowledge_hub.Auth.Redis.{Redis, SessionHash}
use ai_knowledge_hub.Auth.Session.{
  SessionRecord, SessionRotation, RotationResult, create, get, rotate, hash_over,
  session_record_from_hash, or_old,
}

module _ (redis : Redis) where
  open redis use {
    Store, session, elapse, write_session, delete_session, zadd, zrem, session-write_session,
    session-delete_session, session-zadd, session-zrem, session-elapse,
  }

  -- What `rotate` leaves in the hash of a session.
  abbrev pub rotated : SessionRotation → SessionHash → SessionHash
  rotated r h = record h {
    refresh_token_hash = r.new_refresh_token_hash;
    last_used_at = r.rotated_at;
    expires_at = r.expires_at;
  }

  abbrev token_or : String → Option SessionHash → String
  token_or other none = other
  token_or other (some h) = h.refresh_token_hash

  or_old-none : (o : Option String) → or_old o none ≡ o
  or_old-none none = refl
  or_old-none (some x) = refl

  str_eq-false : {a b : String} → a ≢ b → str_eq a b ≡ false
  str_eq-false {a} {b} d = ground (arith, eq_iff a b)

  pub session-create :
      (s : SessionRecord) (ttl : ℕ) (store : Store) (id : String)
      → 0 < ttl
      → session (create redis s ttl store) id ≡ (
          if str_eq s.session_id id
          then some (hash_over s (session store s.session_id))
          else session store id)
  unfolding create
  session-create s ttl store id h =
      session-zadd s.user_id s.session_id s.last_used_at _ id
      ∙ session-write_session s.session_id (hash_over s (session store s.session_id)) ttl store id h

  get-none : (id : String) (store : Store) → session store id ≡ none → get redis id store ≡ none
  unfolding get
  get-none id store e = rw (e, get) refl

  pub get-some :
      (id : String) (store : Store) (h : SessionHash)
      → session store id ≡ some h
      → get redis id store ≡ some (session_record_from_hash id h)
  unfolding get
  get-some id store h e = rw (e, get) refl

  none-get : (id : String) (store : Store) → get redis id store ≡ none → session store id ≡ none
  unfolding get
  none-get id store e = elim (Option-cases (session store id)) [
    | inl n ↦ n
    | inr (h, q) ↦ cc (sym (get-some id store h q) ∙ e)
  ]

  -- After a session is created for a positive number of seconds under an id that no session has, `get`
  -- gives the record of that id.
  pub get-create :
      (s : SessionRecord) (ttl : ℕ) (store : Store)
      → 0 < ttl
      → get redis s.session_id store ≡ none
      → get redis s.session_id (create redis s ttl store) ≡ some s
  unfolding hash_over session_record_from_hash
  get-create s ttl store h fresh =
      get-some s.session_id (create redis s ttl store) (hash_over s none) (
        session-create s ttl store s.session_id h
        ∙ rw (eq_refl s.session_id, none-get s.session_id store fresh) refl)
      ∙ rw (or_old-none s.ip_address, or_old-none s.user_agent) refl

  rotate-absent :
      (r : SessionRotation) (store : Store)
      → session store r.session_id ≡ none
      → rotate redis r store ≡ (store, RotationResult.session_not_found)
  unfolding rotate
  rotate-absent r store e = rw (e, rotate) refl

  rotate-matching :
      (r : SessionRotation) (store : Store) (h : SessionHash)
      → session store r.session_id ≡ some h
      → h.refresh_token_hash ≡ r.expected_refresh_token_hash
      → rotate redis r store ≡ (
        zadd r.user_id r.session_id r.rotated_at
            (write_session r.session_id (rotated r h) r.ttl_seconds store),
        RotationResult.success,
      )
  unfolding rotate
  rotate-matching r store h e q =
      rw (e, rotate, (eq_iff h.refresh_token_hash r.expected_refresh_token_hash).1 q) refl

  rotate-mismatch :
      (r : SessionRotation) (store : Store) (h : SessionHash)
      → session store r.session_id ≡ some h
      → h.refresh_token_hash ≢ r.expected_refresh_token_hash
      → rotate redis r store ≡ (
        zrem r.user_id r.session_id (delete_session r.session_id store),
        RotationResult.token_mismatch,
      )
  unfolding rotate
  rotate-mismatch r store h e q = rw (e, rotate, str_eq-false q) refl

  success-matching :
      (r : SessionRotation) (store : Store)
      → (rotate redis r store).1 ≡ RotationResult.success
      → (h : SessionHash) × (session store r.session_id ≡ some h)
        × (h.refresh_token_hash ≡ r.expected_refresh_token_hash)
  success-matching r store e = elim (Option-cases (session store r.session_id)) [
    | inl n ↦ cc (sym e ∙ ap (λ x. x.1) (rotate-absent r store n))
    | inr (h, q) ↦ elim (Bool-cases (str_eq h.refresh_token_hash r.expected_refresh_token_hash)) [
      | inl m ↦ (h, q, (eq_iff h.refresh_token_hash r.expected_refresh_token_hash).0 m)
      | inr m ↦ cc (
          sym e
          ∙ ap (λ x. x.1)
              (rotate-mismatch r store h q
                (λ k. ground (arith, eq_iff h.refresh_token_hash r.expected_refresh_token_hash))))
    ]
  ]

  rotate-session :
      (r : SessionRotation) (store : Store) (h : SessionHash)
      → 0 < r.ttl_seconds
      → session store r.session_id ≡ some h
      → h.refresh_token_hash ≡ r.expected_refresh_token_hash
      → session (rotate redis r store).0 r.session_id ≡ some (rotated r h)
  rotate-session r store h p e q =
      ap (λ x. session x.0 r.session_id) (rotate-matching r store h e q)
      ∙ session-zadd r.user_id r.session_id r.rotated_at _ r.session_id
      ∙ session-write_session r.session_id (rotated r h) r.ttl_seconds store r.session_id p
      ∙ rw (eq_refl r.session_id) refl

  mismatch-session :
      (r : SessionRotation) (store : Store) (h : SessionHash)
      → session store r.session_id ≡ some h
      → h.refresh_token_hash ≢ r.expected_refresh_token_hash
      → session (rotate redis r store).0 r.session_id ≡ none
  mismatch-session r store h e q =
      ap (λ x. session x.0 r.session_id) (rotate-mismatch r store h e q)
      ∙ session-zrem r.user_id r.session_id _ r.session_id
      ∙ session-delete_session r.session_id store r.session_id
      ∙ rw (eq_refl r.session_id) refl

  same_token_hash :
      {a b : SessionHash} → some a ≡ some b → a.refresh_token_hash ≡ b.refresh_token_hash
  same_token_hash {a} {b} e = ap (token_or a.refresh_token_hash) e

  -- The outcome of a rotation with a token that the session, if any, does not hold.
  refused :
      (r : SessionRotation) (store : Store)
      → ((h : SessionHash)
          → session store r.session_id ≡ some h
          → h.refresh_token_hash ≢ r.expected_refresh_token_hash)
      → ((rotate redis r store).1 ≢ RotationResult.success)
        × (get redis r.session_id (rotate redis r store).0 ≡ none)
  refused r store d = elim (Option-cases (session store r.session_id)) [
    | inl n ↦ (
      λ e. cc (sym e ∙ ap (λ x. x.1) (rotate-absent r store n)),
      get-none r.session_id _ (ap (λ x. session x.0 r.session_id) (rotate-absent r store n) ∙ n),
    )
    | inr (h, q) ↦ (
      λ e. cc (sym e ∙ ap (λ x. x.1) (rotate-mismatch r store h q (d h q))),
      get-none r.session_id _ (mismatch-session r store h q (d h q)),
    )
  ]

  -- A refresh token is used once: after a rotation that replaces it by another token has succeeded and
  -- any time has passed, presenting it again for the same session does not succeed, and the session is
  -- gone afterwards.
  pub rotate-replay :
      (first second : SessionRotation) (store : Store) (seconds : ℕ)
      → 0 < first.ttl_seconds
      → second.session_id ≡ first.session_id
      → second.expected_refresh_token_hash ≡ first.expected_refresh_token_hash
      → first.new_refresh_token_hash ≢ first.expected_refresh_token_hash
      → (rotate redis first store).1 ≡ RotationResult.success
      → ((rotate redis second (elapse seconds (rotate redis first store).0)).1
          ≢ RotationResult.success)
        × (get redis second.session_id
              (rotate redis second (elapse seconds (rotate redis first store).0)).0
            ≡ none)
  rotate-replay first second store seconds p same_id same_token new_token e =
      let (h, q, m) = success-matching first store e in
      refused second (elapse seconds (rotate redis first store).0) (λ late k same.
        new_token (elim (session-elapse seconds (rotate redis first store).0 second.session_id) [
          | inl kept ↦
              same_token_hash (
                sym (rotate-session first store h p q m)
                ∙ ap (session (rotate redis first store).0) (sym same_id)
                ∙ sym kept
                ∙ k)
              ∙ same
              ∙ same_token
          | inr gone ↦ cc (sym k ∙ gone)
        ]))
