-- ===== src/Auth/Session.antt =====
-- backend/app/db/repositories/session_repository.py: login sessions in Redis. A Lua script runs alone
-- in the server, so each is one change of the store. The numbers that the source writes as texts and
-- reads back with `int` are numbers.
pub mod Rotation
pub mod Revocation
pub mod Listing
use ai_knowledge_hub.Base.{
  ℕ, ◌+◌, String, Bool, true, false, not, ◌&&◌, ◌||◌, Option, none, some, List, [], ◌∷◌, is_some,
  leb, str_eq, ◌==◌, if◌then◌else◌, reverse,
}
use ai_knowledge_hub.Auth.Redis.{Redis, SessionHash}

pub record SessionRecord : Type 0 where
  pub session_id : String
  pub user_id : ℕ
  pub refresh_token_hash : String
  pub created_at : ℕ
  pub last_used_at : ℕ
  pub expires_at : ℕ
  pub absolute_expires_at : ℕ
  pub ip_address : Option String
  pub user_agent : Option String

pub record SessionRotation : Type 0 where
  pub session_id : String
  pub user_id : ℕ
  pub expected_refresh_token_hash : String
  pub new_refresh_token_hash : String
  pub rotated_at : ℕ
  pub expires_at : ℕ
  pub ttl_seconds : ℕ

pub data RotationResult : Type 0 where
  success session_not_found token_mismatch : RotationResult

pub record SessionDeletion : Type 0 where
  pub session_id : String
  pub user_id : ℕ
  pub expected_refresh_token_hash : String

pub data DeletionResult : Type 0 where
  success session_not_found session_mismatch : DeletionResult

pub record SessionRevocation : Type 0 where
  pub session_id : String
  pub user_id : ℕ

pub data RevocationResult : Type 0 where
  success not_found : RevocationResult

pub record SessionBulkRevocation : Type 0 where
  pub current_session_id : String
  pub user_id : ℕ

-- `unexpected` is the `ValueError` of a result below 1 that is not -1.
pub data BulkRevocationResult : Type 0 where
  success : ℕ → BulkRevocationResult
  current_session_not_found unexpected : BulkRevocationResult

abbrev pub or_old {ℓ} : {A : Type ℓ} → Option A → Option A → Option A
or_old (some x) _ = some x
or_old none old = old

abbrev pub field_of : (SessionHash → Option String) → Option SessionHash → Option String
field_of f none = none
field_of f (some h) = f h

-- The hash after `HSET` with the mapping of `create`, which leaves out the two fields that may be
-- `None`: of a hash that was there before, they stay.
unfoldable pub hash_over : SessionRecord → Option SessionHash → SessionHash
hash_over s before = record {
  user_id = s.user_id;
  refresh_token_hash = s.refresh_token_hash;
  created_at = s.created_at;
  last_used_at = s.last_used_at;
  expires_at = s.expires_at;
  absolute_expires_at = s.absolute_expires_at;
  ip_address = or_old s.ip_address (field_of (λ h. h.ip_address) before);
  user_agent = or_old s.user_agent (field_of (λ h. h.user_agent) before);
}

unfoldable pub session_record_from_hash : String → SessionHash → SessionRecord
session_record_from_hash session_id h = record {
  session_id = session_id;
  user_id = h.user_id;
  refresh_token_hash = h.refresh_token_hash;
  created_at = h.created_at;
  last_used_at = h.last_used_at;
  expires_at = h.expires_at;
  absolute_expires_at = h.absolute_expires_at;
  ip_address = h.ip_address;
  user_agent = h.user_agent;
}

abbrev pub owned_by : ℕ → Option SessionHash → Bool
owned_by user_id none = false
owned_by user_id (some h) = h.user_id == user_id

abbrev pub bulk_result : ℕ → BulkRevocationResult
bulk_result n = if leb 1 n then BulkRevocationResult.success n else BulkRevocationResult.unexpected

module _ (redis : Redis) where
  open redis use {Store, session, members, write_session, delete_session, zadd, zrem, delete_index}

  unfoldable pub create : SessionRecord → ℕ → Store → Store
  unfolding hash_over
  create s ttl_seconds store =
      zadd s.user_id s.session_id s.last_used_at
        (write_session s.session_id (hash_over s (session store s.session_id)) ttl_seconds store)

  unfoldable pub get : String → Store → Option SessionRecord
  unfolding session_record_from_hash
  get session_id store = elim (session store session_id) [
    | none ↦ none
    | some h ↦ some (session_record_from_hash session_id h)
  ]

  -- `_ROTATE_SESSION_SCRIPT`
  unfoldable pub rotate : SessionRotation → Store → Store × RotationResult
  rotate r store = elim (session store r.session_id) [
    | none ↦ (store, RotationResult.session_not_found)
    | some h ↦
        if str_eq h.refresh_token_hash r.expected_refresh_token_hash
        then (
          zadd r.user_id r.session_id r.rotated_at (
              write_session r.session_id
                (record h {
                  refresh_token_hash = r.new_refresh_token_hash;
                  last_used_at = r.rotated_at;
                  expires_at = r.expires_at;
                })
                r.ttl_seconds store),
          RotationResult.success,
        )
        else (
          zrem r.user_id r.session_id (delete_session r.session_id store),
          RotationResult.token_mismatch,
        )
  ]

  -- `_DELETE_SESSION_IF_MATCHES_SCRIPT`
  unfoldable pub delete_if_matches : SessionDeletion → Store → Store × DeletionResult
  delete_if_matches d store = elim (session store d.session_id) [
    | none ↦ (store, DeletionResult.session_not_found)
    | some h ↦
        if h.user_id == d.user_id && str_eq h.refresh_token_hash d.expected_refresh_token_hash
        then (
          zrem d.user_id d.session_id (delete_session d.session_id store),
          DeletionResult.success,
        )
        else (store, DeletionResult.session_mismatch)
  ]

  -- `_REVOKE_SESSION_SCRIPT`
  unfoldable pub revoke : SessionRevocation → Store → Store × RevocationResult
  revoke r store =
      if owned_by r.user_id (session store r.session_id)
      then (
        zrem r.user_id r.session_id (delete_session r.session_id store),
        RevocationResult.success,
      )
      else (store, RevocationResult.not_found)

  -- `DEL` of a session's key, and how many keys it deleted.
  abbrev pub del : String → Store → Store × ℕ
  del id store = (delete_session id store, if is_some (session store id) then 1 else 0)

  -- The loop of `_REVOKE_ALL_SESSIONS_SCRIPT` over the ids of the index.
  unfoldable pub revoke_each : ℕ → List String → Store → ℕ → Store × ℕ
  revoke_each user_id [] store revoked_count = (store, revoked_count)
  revoke_each user_id (id ∷ ids) store revoked_count =
      let owned = owned_by user_id (session store id) in
      revoke_each user_id ids (if owned then (del id store).0 else store)
        (if owned then revoked_count + (del id store).1 else revoked_count)

  unfoldable pub revoke_all : SessionBulkRevocation → Store → Store × BulkRevocationResult
  unfolding revoke_each
  revoke_all r store =
      if owned_by r.user_id (session store r.current_session_id)
      then (let (swept, counted) = revoke_each r.user_id (members store r.user_id) store 0 in
          let (cleared, last) = del r.current_session_id swept in
          (delete_index r.user_id cleared, bulk_result (counted + last)))
      else (store, BulkRevocationResult.current_session_not_found)

  unfoldable pub delete : ℕ → String → Store → Store
  delete user_id session_id store = zrem user_id session_id (delete_session session_id store)

  -- The loop of `list_for_user` over the ids: the sessions found, and the stale ids.
  unfoldable pub split_ids : List String → Store → List SessionRecord × List String
  unfolding session_record_from_hash
  split_ids [] store = ([], [])
  split_ids (id ∷ ids) store =
      let (sessions, stale) = split_ids ids store in
      elim (session store id) [
        | none ↦ (sessions, id ∷ stale)
        | some h ↦ (session_record_from_hash id h ∷ sessions, stale)
      ]

  unfoldable pub remove_stale : ℕ → List String → Store → Store
  remove_stale user_id [] store = store
  remove_stale user_id (id ∷ stale) store = remove_stale user_id stale (zrem user_id id store)

  -- ZREVRANGE, the reads and ZREM as one step, with the ids in the reverse order of the index.
  unfoldable pub list_for_user : ℕ → Store → Store × List SessionRecord
  unfolding split_ids remove_stale
  list_for_user user_id store =
      let (sessions, stale) = split_ids (reverse (members store user_id)) store in
      (remove_stale user_id stale store, sessions)
