-- ===== src/Auth/Redis.antt =====
-- What the session repository uses of the Redis server: the commands on the keys
-- `auth:session:{session_id}` and `auth:user:{user_id}:sessions`, with their documented effects. The
-- two families of keys are disjoint, since the texts differ after `auth:`.
use ai_knowledge_hub.Base.{
  ℕ, ◌<◌, ◌≡◌, ◌⊎◌, String, not, ◌&&◌, ◌||◌, Option, none, some, List, [], any, str_eq, ◌==◌,
  if◌then◌else◌,
}

-- The fields of a session's hash.
pub record SessionHash : Type 0 where
  pub user_id : ℕ
  pub refresh_token_hash : String
  pub created_at : ℕ
  pub last_used_at : ℕ
  pub expires_at : ℕ
  pub absolute_expires_at : ℕ
  pub ip_address : Option String
  pub user_agent : Option String

pub record Redis : Type 1 where
  pub Store : Type 0
  -- `HGETALL` of a session's key: nothing if the key is absent or has expired.
  pub session : Store → String → Option SessionHash
  -- `ZRANGE` of a user's index, in the order of the scores.
  pub members : Store → ℕ → List String
  -- `HSET` and `EXPIRE` with a number of seconds.
  pub write_session : String → SessionHash → ℕ → Store → Store
  -- `DEL` of a session's key.
  pub delete_session : String → Store → Store
  pub zadd : ℕ → String → ℕ → Store → Store
  pub zrem : ℕ → String → Store → Store
  -- `DEL` of a user's index.
  pub delete_index : ℕ → Store → Store
  -- Time that passes between two calls.
  pub elapse : ℕ → Store → Store
  pub session-write_session :
      (id : String) (h : SessionHash) (ttl : ℕ) (s : Store) (j : String)
      → 0 < ttl
      → session (write_session id h ttl s) j ≡ (if str_eq id j then some h else session s j)
  pub session-delete_session :
      (id : String) (s : Store) (j : String)
      → session (delete_session id s) j ≡ (if str_eq id j then none else session s j)
  pub session-zadd :
      (user : ℕ) (id : String) (score : ℕ) (s : Store) (j : String)
      → session (zadd user id score s) j ≡ session s j
  pub session-zrem :
      (user : ℕ) (id : String) (s : Store) (j : String) → session (zrem user id s) j ≡ session s j
  pub session-delete_index :
      (user : ℕ) (s : Store) (j : String) → session (delete_index user s) j ≡ session s j
  pub members-write_session :
      (id : String) (h : SessionHash) (ttl : ℕ) (s : Store) (user : ℕ)
      → members (write_session id h ttl s) user ≡ members s user
  pub members-delete_session :
      (id : String) (s : Store) (user : ℕ) → members (delete_session id s) user ≡ members s user
  pub members-zadd :
      (user : ℕ) (id : String) (score : ℕ) (s : Store) (other : ℕ) (j : String)
      → any (str_eq j) (members (zadd user id score s) other)
        ≡ ((user == other && str_eq j id) || any (str_eq j) (members s other))
  pub members-zrem :
      (user : ℕ) (id : String) (s : Store) (other : ℕ) (j : String)
      → any (str_eq j) (members (zrem user id s) other)
        ≡ (not (user == other && str_eq j id) && any (str_eq j) (members s other))
  pub members-delete_index :
      (user : ℕ) (s : Store) (other : ℕ)
      → members (delete_index user s) other ≡ (if user == other then [] else members s other)
  -- A session only ever disappears by the passing of time.
  pub session-elapse :
      (t : ℕ) (s : Store) (j : String)
      → (session (elapse t s) j ≡ session s j) ⊎ (session (elapse t s) j ≡ none)
