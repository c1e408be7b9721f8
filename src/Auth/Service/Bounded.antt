-- ===== src/Auth/Service/Bounded.antt =====
-- The final end of a session: no sequence of requests moves the current end of a session past it.
use ai_knowledge_hub.Base.{
  ℕ, ◌<◌, ◌≤◌, ◌≡◌, refl, sym, subst, ◌∙◌, ◌⊎◌, inl, inr, String, Bool, true, false, ◌&&◌, Option,
  none, some, Option-cases, Bool-cases, arith, str_eq, ◌==◌, if◌then◌else◌,
}
use ai_knowledge_hub.Auth.Redis.{Redis, SessionHash}
use ai_knowledge_hub.Auth.Settings.{Settings}
use ai_knowledge_hub.Auth.Session.{
  SessionRotation, SessionDeletion, SessionRevocation, SessionBulkRevocation, rotate,
  delete_if_matches, revoke, revoke_all, list_for_user, owned_by,
}
use ai_knowledge_hub.Auth.Session.Revocation.{revoke_lem, revoke_all_lem, swept}
use ai_knowledge_hub.Auth.Session.Rotation.{rotated}
use ai_knowledge_hub.Auth.Session.Listing.{list_for_user_lem}
use ai_knowledge_hub.Auth.Security.{calculate_rotated_session_expiration}

-- The end of a session is not after its final end.
abbrev pub Bounded : Option SessionHash → Type 0
Bounded none = Unit
Bounded (some h) = h.expires_at ≤ h.absolute_expires_at

pub rotated_le :
    (settings : Settings) (at current final : ℕ)
    → current ≤ final
    → calculate_rotated_session_expiration settings at current final ≤ final
unfolding calculate_rotated_session_expiration
rotated_le settings at current final p = ground arith

swept-cases :
    (user : ℕ) (covered : Bool) (o : Option SessionHash)
    → (swept user covered o ≡ o) ⊎ (swept user covered o ≡ none)
swept-cases user covered o = elim (Bool-cases (covered && owned_by user o)) [
  | inl e ↦ inr (rw (e) refl)
  | inr e ↦ inl (rw (e) refl)
]

removed-cases :
    (b : Bool) (o : Option SessionHash)
    → ((if b then none else o) ≡ o) ⊎ ((if b then none else o) ≡ none)
removed-cases true o = inr refl
removed-cases false o = inl refl

module _ (redis : Redis) where
  open redis use {
    Store, session, elapse, session-elapse, session-write_session, session-zadd, session-zrem,
    session-delete_session, write_session, delete_session, zadd, zrem,
  }

  unfoldable pub IsBounded : Store → Type 0
  IsBounded store = (j : String) → Bounded (session store j)

  -- Every session of a store is as in another, or gone.
  abbrev pub Kept : Store → Store → Type 0
  Kept before after = (j : String) → (session after j ≡ session before j) ⊎ (session after j ≡ none)

  pub Kept-IsBounded :
      (before after : Store) → Kept before after → IsBounded before → IsBounded after
  unfolding IsBounded
  Kept-IsBounded before after kept p j = elim (kept j) [
    | inl e ↦ subst Bounded (sym e) (p j)
    | inr e ↦ subst Bounded (sym e) tt
  ]

  removed-Kept :
      (user : ℕ) (id : String) (store : Store) → Kept store (zrem user id (delete_session id store))
  removed-Kept user id store j = elim (removed-cases (str_eq id j) (session store j)) [
    | inl e ↦ inl (session-zrem user id _ j ∙ session-delete_session id store j ∙ e)
    | inr e ↦ inr (session-zrem user id _ j ∙ session-delete_session id store j ∙ e)
  ]

  pub delete_if_matches-Kept :
      (d : SessionDeletion) (store : Store) → Kept store (delete_if_matches redis d store).0
  unfolding delete_if_matches
  delete_if_matches-Kept d store j = elim (Option-cases (session store d.session_id)) [
    | inl q ↦ inl (rw (delete_if_matches, q) refl)
    | inr (h, q) ↦
        elim (Bool-cases
          (h.user_id == d.user_id && str_eq h.refresh_token_hash d.expected_refresh_token_hash)) [
            | inl m ↦ rw (delete_if_matches, q, m) (removed-Kept d.user_id d.session_id store j)
            | inr m ↦ inl (rw (delete_if_matches, q, m) refl)
          ]
  ]

  pub revoke-Kept : (r : SessionRevocation) (store : Store) → Kept store (revoke redis r store).0
  revoke-Kept r store j = elim (revoke_lem redis r store) [
    | inl (o, s, each) ↦ rw (each j) (removed-cases (str_eq r.session_id j) (session store j))
    | inr (o, s) ↦ rw (s) (inl refl)
  ]

  pub revoke_all-Kept :
      (r : SessionBulkRevocation) (store : Store) → Kept store (revoke_all redis r store).0
  revoke_all-Kept r store j = elim (revoke_all_lem redis r store) [
    | inl (o, each, rest₁, rest₂) ↦ rw (each j) (swept-cases r.user_id _ (session store j))
    | inr (o, s) ↦ rw (s) (inl refl)
  ]

  pub list_for_user-Kept :
      (user : ℕ) (store : Store) → Kept store (list_for_user redis user store).0
  list_for_user-Kept user store j = inl ((list_for_user_lem redis user store).2 j)

  -- A rotation keeps or ends every session, but the one that it rotates.
  pub rotate-cases :
      (r : SessionRotation) (store : Store)
      → 0 < r.ttl_seconds
      → Kept store (rotate redis r store).0
        ⊎ ((h : SessionHash) × (session store r.session_id ≡ some h)
            × ((j : String)
                → session (rotate redis r store).0 j
                  ≡ (if str_eq r.session_id j then some (rotated redis r h) else session store j)))
  unfolding rotate
  rotate-cases r store p = elim (Option-cases (session store r.session_id)) [
    | inl q ↦ inl (λ j. inl (rw (rotate, q) refl))
    | inr (h, q) ↦ elim (Bool-cases (str_eq h.refresh_token_hash r.expected_refresh_token_hash)) [
      | inl m ↦ inr (
        h,
        q,
        λ j.
            rw (rotate, q, m)
              (session-zadd r.user_id r.session_id r.rotated_at _ j
                ∙ session-write_session r.session_id (rotated redis r h) r.ttl_seconds store j p),
      )
      | inr m ↦ inl (λ j. rw (rotate, q, m) (removed-Kept r.user_id r.session_id store j))
    ]
  ]
