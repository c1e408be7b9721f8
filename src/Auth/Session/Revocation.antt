-- ===== src/Auth/Session/Revocation.antt =====
-- Revoking sessions: which sessions of the store end, and whose.
use ai_knowledge_hub.Base.{
  ==_iff, le→leb, ◌⊎◌, ℕ, ◌+◌, ◌≤◌, ◌≡◌, refl, ap, ◌∙◌, inl, inr, String, Bool, true, false, ◌&&◌,
  ◌||◌, Option, none, some, List, [], ◌∷◌, arith, str_eq, eq_iff, if◌then◌else◌, Bool-cases, any,
  is_some,
}
use ai_knowledge_hub.Auth.Redis.{Redis, SessionHash}
use ai_knowledge_hub.Auth.Session.{
  SessionRevocation, RevocationResult, SessionBulkRevocation, BulkRevocationResult, revoke,
  revoke_each, revoke_all, owned_by, del, bulk_result,
}

str_eq_sym : (a b : String) → str_eq a b ≡ str_eq b a
str_eq_sym a b = ground (arith, eq_iff a b, eq_iff b a)

owned-is_some :
    (user_id : ℕ) (o : Option SessionHash) → owned_by user_id o ≡ true → is_some o ≡ true
owned-is_some user_id none e = e
owned-is_some user_id (some h) e = refl

-- What is left of a session after a sweep of a user's sessions, if it covers the session.
abbrev pub swept : ℕ → Bool → Option SessionHash → Option SessionHash
swept user_id covered o = if covered && owned_by user_id o then none else o

swept-swept :
    (user_id : ℕ) (a b : Bool) (o : Option SessionHash)
    → swept user_id a (swept user_id b o) ≡ swept user_id (b || a) o
swept-swept user_id a b none = ground arith
swept-swept user_id a b (some h) = ground arith

module _ (redis : Redis) where
  open redis use {
    Store, session, members, delete_session, delete_index, zrem, session-delete_session,
    session-delete_index, members-delete_index, session-zrem,
  }

  -- The store after one turn of the loop of `_REVOKE_ALL_SESSIONS_SCRIPT`.
  abbrev turn : ℕ → String → Store → Store
  turn user_id id store =
      if owned_by user_id (session store id) then delete_session id store else store

  abbrev counted_turn : ℕ → String → Store → ℕ → ℕ
  counted_turn user_id id store n =
      if owned_by user_id (session store id) then n + (del redis id store).1 else n

  session-turn :
      (user_id : ℕ) (id : String) (store : Store) (j : String)
      → session (turn user_id id store) j ≡ swept user_id (str_eq id j) (session store j)
  session-turn user_id id store j = ground (arith, session-delete_session id store j, eq_iff id j)

  session-revoke_each :
      (user_id : ℕ) (ids : List String) (store : Store) (n : ℕ) (j : String)
      → session (revoke_each redis user_id ids store n).0 j ≡ (
          if any (str_eq j) ids && owned_by user_id (session store j)
          then none
          else session store j)
  unfolding revoke_each
  session-revoke_each user_id [] store n j = refl
  session-revoke_each user_id (id ∷ ids) store n j =
      session-revoke_each user_id ids (turn user_id id store) (counted_turn user_id id store n) j
      ∙ ap (swept user_id (any (str_eq j) ids)) (session-turn user_id id store j)
      ∙ swept-swept user_id (any (str_eq j) ids) (str_eq id j) (session store j)
      ∙ ap (λ b. swept user_id (b || any (str_eq j) ids) (session store j)) (str_eq_sym id j)

  -- The number of sessions that the loop reports is at least one more, if it covers a session of the user.
  count-revoke_each :
      (user_id : ℕ) (ids : List String) (store : Store) (n : ℕ) (j : String)
      → n + (if any (str_eq j) ids && owned_by user_id (session store j) then 1 else 0)
        ≤ (revoke_each redis user_id ids store n).1
  unfolding revoke_each
  count-revoke_each user_id [] store n j = ground arith
  count-revoke_each user_id (id ∷ ids) store n j =
      let below =
        count-revoke_each user_id ids (turn user_id id store) (counted_turn user_id id store n) j in
      ground (
        arith,
        below,
        session-turn user_id id store j,
        eq_iff j id,
        eq_iff id j,
        owned-is_some user_id (session store id),
      )

  revoke-owned :
      (r : SessionRevocation) (store : Store)
      → owned_by r.user_id (session store r.session_id) ≡ true
      → revoke redis r store ≡ (
        zrem r.user_id r.session_id (delete_session r.session_id store),
        RevocationResult.success,
      )
  unfolding revoke
  revoke-owned r store e = rw (e) refl

  -- Only its owner ends a session: `revoke` removes exactly the session that it names, if it is of the
  -- user that it names, and tells so; else it reports that there is none and changes nothing.
  pub revoke_lem :
      (r : SessionRevocation) (store : Store)
      → ((owned_by r.user_id (session store r.session_id) ≡ true)
          × ((revoke redis r store).1 ≡ RevocationResult.success)
          × ((j : String)
              → session (revoke redis r store).0 j
                ≡ (if str_eq r.session_id j then none else session store j)))
        ⊎ ((owned_by r.user_id (session store r.session_id) ≡ false)
            × (revoke redis r store ≡ (store, RevocationResult.not_found)))
  unfolding revoke
  revoke_lem r store = elim (Bool-cases (owned_by r.user_id (session store r.session_id))) [
    | inl e ↦ inl (
      e,
      rw (e) refl,
      λ j.
          ap (λ x. session x.0 j) (revoke-owned r store e)
          ∙ session-zrem r.user_id r.session_id _ j
          ∙ session-delete_session r.session_id store j,
    )
    | inr e ↦ inr (e, rw (e) refl)
  ]

  -- The loop of `revoke_all`.
  abbrev sweep : SessionBulkRevocation → Store → Store × ℕ
  sweep r store = revoke_each redis r.user_id (members store r.user_id) store 0

  revoke_all-owned :
      (r : SessionBulkRevocation) (store : Store)
      → owned_by r.user_id (session store r.current_session_id) ≡ true
      → revoke_all redis r store ≡ (
        delete_index r.user_id (delete_session r.current_session_id (sweep r store).0),
        bulk_result ((sweep r store).1 + (del redis r.current_session_id (sweep r store).0).1),
      )
  unfolding revoke_all
  revoke_all-owned r store e = rw (e) refl

  session-revoke_all :
      (r : SessionBulkRevocation) (store : Store) (j : String)
      → owned_by r.user_id (session store r.current_session_id) ≡ true
      → session (revoke_all redis r store).0 j
        ≡ swept r.user_id
            (str_eq r.current_session_id j || any (str_eq j) (members store r.user_id))
            (session store j)
  session-revoke_all r store j e =
      ap (λ x. session x.0 j) (revoke_all-owned r store e)
      ∙ session-delete_index r.user_id _ j
      ∙ session-delete_session r.current_session_id (sweep r store).0 j
      ∙ ground (
        arith,
        session-revoke_each r.user_id (members store r.user_id) store 0 j,
        eq_iff r.current_session_id j,
      )

  some_revoked :
      (r : SessionBulkRevocation) (store : Store)
      → owned_by r.user_id (session store r.current_session_id) ≡ true
      → 1 ≤ (sweep r store).1 + (del redis r.current_session_id (sweep r store).0).1
  some_revoked r store e = ground (
    arith,
    count-revoke_each r.user_id (members store r.user_id) store 0 r.current_session_id,
    session-revoke_each r.user_id (members store r.user_id) store 0 r.current_session_id,
    owned-is_some r.user_id (session store r.current_session_id),
  )

  bulk_result-success : (n : ℕ) → 1 ≤ n → bulk_result n ≡ BulkRevocationResult.success n
  bulk_result-success n h = rw (le→leb 1 n h) refl

  -- What `revoke_all` does: without a current session of the user it changes nothing. With one it
  -- ends the current session and every session of the user that the index names, and no other session,
  -- it empties the index, and it reports at least one session, so never the unexpected result.
  pub revoke_all_lem :
      (r : SessionBulkRevocation) (store : Store)
      → ((owned_by r.user_id (session store r.current_session_id) ≡ true)
          × ((j : String)
              → session (revoke_all redis r store).0 j
                ≡ swept r.user_id
                    (str_eq r.current_session_id j || any (str_eq j) (members store r.user_id))
                    (session store j))
          × (members (revoke_all redis r store).0 r.user_id ≡ [])
          × ((n : ℕ) × (1 ≤ n) × ((revoke_all redis r store).1 ≡ BulkRevocationResult.success n)))
        ⊎ ((owned_by r.user_id (session store r.current_session_id) ≡ false)
            × (revoke_all redis r store ≡ (store, BulkRevocationResult.current_session_not_found)))
  unfolding revoke_all
  revoke_all_lem r store =
      elim (Bool-cases (owned_by r.user_id (session store r.current_session_id))) [
        | inl e ↦ inl (
          e,
          λ j. session-revoke_all r store j e,
          ap (λ x. members x.0 r.user_id) (revoke_all-owned r store e)
              ∙ members-delete_index r.user_id _ r.user_id
              ∙ rw ((==_iff r.user_id r.user_id).1 refl) refl,
          (
            _,
            some_revoked r store e,
            ap (λ x. x.1) (revoke_all-owned r store e)
                ∙ bulk_result-success _ (some_revoked r store e),
          ),
        )
        | inr e ↦ inr (e, rw (e) refl)
      ]
