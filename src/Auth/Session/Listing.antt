-- ===== src/Auth/Session/Listing.antt =====
-- Listing the sessions of a user, which clears the index of the sessions that have expired.
use ai_knowledge_hub.Base.{
  ℕ, ◌≡◌, refl, ap, ◌∙◌, String, Bool, ◌&&◌, ◌||◌, not, List, [], ◌∷◌, arith, str_eq, eq_iff, any,
  is_some, filter_map, reverse, ◌++◌, ==_iff,
}
use mathlib.Core.List.{reverse-cons}
use ai_knowledge_hub.Auth.Redis.{Redis}
use ai_knowledge_hub.Auth.Session.{get, split_ids, remove_stale, list_for_user}

any-append : (f : String → Bool) (xs ys : List String) → any f (xs ++ ys) ≡ (any f xs || any f ys)
any-append f [] ys = refl
any-append f (x ∷ xs) ys = ground (arith, any-append f xs ys)

any-reverse : (f : String → Bool) (xs : List String) → any f (reverse xs) ≡ any f xs
any-reverse f [] = refl
any-reverse f (x ∷ xs) =
    ap (any f) (reverse-cons x xs)
    ∙ any-append f (reverse xs) (x ∷ [])
    ∙ ground (arith, any-reverse f xs)

module _ (redis : Redis) where
  open redis use {Store, session, members, zrem, members-zrem, session-zrem}

  sessions-split_ids :
      (ids : List String) (store : Store)
      → (split_ids redis ids store).0 ≡ filter_map (λ id. get redis id store) ids
  unfolding split_ids get filter_map
  sessions-split_ids [] store = refl
  sessions-split_ids (id ∷ ids) store = ground (arith, sessions-split_ids ids store)

  stale-split_ids :
      (ids : List String) (store : Store) (j : String)
      → any (str_eq j) (split_ids redis ids store).1
        ≡ (any (str_eq j) ids && not (is_some (session store j)))
  unfolding split_ids
  stale-split_ids [] store j = refl
  stale-split_ids (id ∷ ids) store j = ground (arith, stale-split_ids ids store j, eq_iff j id)

  members-remove_stale :
      (user_id : ℕ) (stale : List String) (store : Store) (j : String)
      → any (str_eq j) (members (remove_stale redis user_id stale store) user_id)
        ≡ (any (str_eq j) (members store user_id) && not (any (str_eq j) stale))
  unfolding remove_stale
  members-remove_stale user_id [] store j = ground arith
  members-remove_stale user_id (id ∷ stale) store j = ground (
    arith,
    members-remove_stale user_id stale (zrem user_id id store) j,
    members-zrem user_id id store user_id j,
    ==_iff user_id user_id,
  )

  session-remove_stale :
      (user_id : ℕ) (stale : List String) (store : Store) (j : String)
      → session (remove_stale redis user_id stale store) j ≡ session store j
  unfolding remove_stale
  session-remove_stale user_id [] store j = refl
  session-remove_stale user_id (id ∷ stale) store j =
      session-remove_stale user_id stale (zrem user_id id store) j ∙ session-zrem user_id id store j

  abbrev stale_ids : ℕ → Store → List String
  unfolding split_ids
  stale_ids user_id store = (split_ids redis (reverse (members store user_id)) store).1

  -- `list_for_user` gives the sessions of the index that have not expired, in the reverse of the index's
  -- order; it removes from the index exactly the ids of the expired ones, and it changes no session.
  pub list_for_user_lem :
      (user_id : ℕ) (store : Store)
      → ((list_for_user redis user_id store).1
          ≡ filter_map (λ id. get redis id store) (reverse (members store user_id)))
        × ((j : String)
            → any (str_eq j) (members (list_for_user redis user_id store).0 user_id)
              ≡ (any (str_eq j) (members store user_id) && is_some (session store j)))
        × ((j : String) → session (list_for_user redis user_id store).0 j ≡ session store j)
  unfolding list_for_user
  list_for_user_lem user_id store = (
    sessions-split_ids (reverse (members store user_id)) store,
    λ j. ground (
      arith,
      members-remove_stale user_id (stale_ids user_id store) store j,
      stale-split_ids (reverse (members store user_id)) store j,
      any-reverse (str_eq j) (members store user_id),
    ),
    λ j. session-remove_stale user_id (stale_ids user_id store) store j,
  )
