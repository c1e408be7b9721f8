-- ===== src/Auth/Tests.antt =====
-- A store in memory with the laws that the session repository relies on, and the theorems about the
-- repository at it.
use ai_knowledge_hub.Base.{
  ℕ, ◌≤◌, ◌≡◌, ◌≢◌, refl, ◌⊎◌, inl, inr, String, true, false, not, ◌&&◌, ◌||◌, Option, none, some,
  List, [], ◌∷◌, any, keep, str_eq, ◌==◌, leb, if◌then◌else◌, arith, eq_iff, Bool-cases, ==_iff,
}
use ai_knowledge_hub.Auth.Redis.{Redis, SessionHash}
use ai_knowledge_hub.Auth.Session.{
  SessionRecord, SessionRotation, RotationResult, RevocationResult, SessionBulkRevocation,
  BulkRevocationResult, create, get, rotate, revoke, revoke_all, owned_by,
}
use ai_knowledge_hub.Auth.Session.Rotation.{rotate-replay}
use ai_knowledge_hub.Auth.Session.Revocation.{swept, revoke_lem, revoke_all_lem}

pub record Memory : Type 0 where
  pub hashes : String → Option SessionHash
  pub index : ℕ → List String

abbrev set_hash : String → Option SessionHash → Memory → Memory
set_hash id h m = record m { hashes = λ j. if str_eq id j then h else m.hashes j }

abbrev set_index : ℕ → List String → Memory → Memory
set_index user ids m = record m { index = λ u. if user == u then ids else m.index u }

abbrev without : String → List String → List String
without id = keep (λ j. not (str_eq j id))

any-keep :
    (id : String) (ids : List String) (j : String)
    → any (str_eq j) (without id ids) ≡ (not (str_eq j id) && any (str_eq j) ids)
any-keep id [] j = ground arith
any-keep id (i ∷ ids) j = ground (arith, any-keep id ids j, eq_iff i id, eq_iff j id, eq_iff j i)

abbrev pass : ℕ → Memory → Memory
pass t m = if leb 1000 t then record m { hashes = λ j. none } else m

pub kept_or_gone :
    (t : ℕ) (s : Memory) (j : String)
    → ((pass t s).hashes j ≡ s.hashes j) ⊎ ((pass t s).hashes j ≡ none)
kept_or_gone t s j = elim (Bool-cases (leb 1000 t)) [
  | inl e ↦ inr (rw (e) refl)
  | inr e ↦ inl (rw (e) refl)
]

pub zadd-any :
    (user : ℕ) (id : String) (s : Memory) (other : ℕ) (j : String)
    → any (str_eq j) ((set_index user (id ∷ without id (s.index user)) s).index other)
      ≡ ((user == other && str_eq j id) || any (str_eq j) (s.index other))
zadd-any user id s other j =
    ground (arith, any-keep id (s.index user) j, eq_iff j id, ==_iff user other)

pub zrem-any :
    (user : ℕ) (id : String) (s : Memory) (other : ℕ) (j : String)
    → any (str_eq j) ((set_index user (without id (s.index user)) s).index other)
      ≡ (not (user == other && str_eq j id) && any (str_eq j) (s.index other))
zrem-any user id s other j =
    ground (arith, any-keep id (s.index user) j, eq_iff j id, ==_iff user other)

abbrev pub memory : Redis
memory = record {
  Store = Memory;
  session = λ m j. m.hashes j;
  members = λ m u. m.index u;
  write_session = λ id h ttl m. set_hash id (some h) m;
  delete_session = λ id m. set_hash id none m;
  zadd = λ user id score m. set_index user (id ∷ without id (m.index user)) m;
  zrem = λ user id m. set_index user (without id (m.index user)) m;
  delete_index = λ user m. set_index user [] m;
  elapse = pass;
  session-write_session = λ id h ttl s j p. refl;
  session-delete_session = λ id s j. refl;
  session-zadd = λ user id score s j. refl;
  session-zrem = λ user id s j. refl;
  session-delete_index = λ user s j. refl;
  members-write_session = λ id h ttl s user. refl;
  members-delete_session = λ id s user. refl;
  members-zadd = λ user id score s other j. zadd-any user id s other j;
  members-zrem = zrem-any;
  members-delete_index = λ user s other. refl;
  session-elapse = λ t s j. kept_or_gone t s j;
}

abbrev record_of : String → ℕ → String → SessionRecord
record_of id user token = record {
  session_id = id;
  user_id = user;
  refresh_token_hash = token;
  created_at = 1;
  last_used_at = 1;
  expires_at = 500;
  absolute_expires_at = 900;
  ip_address = none;
  user_agent = some "browser";
}

abbrev pub nothing : Memory
nothing = record { hashes = λ j. none; index = λ u. [] }

-- Two sessions of one user, and one of another.
abbrev logged_in : Memory
logged_in =
    create memory (record_of "c" 8 "t3") 60
      (create memory (record_of "b" 7 "t2") 60 (create memory (record_of "a" 7 "t1") 60 nothing))

abbrev rotation : String → String → SessionRotation
rotation expected new = record {
  session_id = "a";
  user_id = 7;
  expected_refresh_token_hash = expected;
  new_refresh_token_hash = new;
  rotated_at = 20;
  expires_at = 600;
  ttl_seconds = 60;
}

rotate-replay_example :
    ((rotate memory
        (rotation "t1" "t5")
        (memory.elapse 30 (rotate memory (rotation "t1" "t4") logged_in).0)).1
      ≢ RotationResult.success)
    × (get memory "a"
          (rotate memory
            (rotation "t1" "t5")
            (memory.elapse 30 (rotate memory (rotation "t1" "t4") logged_in).0)).0
        ≡ none)
unfolding rotate create
rotate-replay_example =
    rotate-replay memory (rotation "t1" "t4") (rotation "t1" "t5") logged_in 30 (omega arith) refl
      refl (λ e. cc ((eq_iff "t4" "t1").1 e)) refl

revoke_example :
    ((owned_by 7 (logged_in.hashes "a") ≡ true)
      × ((revoke memory (record { session_id = "a"; user_id = 7 }) logged_in).1
          ≡ RevocationResult.success)
      × ((j : String)
          → (revoke memory (record { session_id = "a"; user_id = 7 }) logged_in).0.hashes j
            ≡ (if str_eq "a" j then none else logged_in.hashes j)))
    ⊎ ((owned_by 7 (logged_in.hashes "a") ≡ false)
        × (revoke memory (record { session_id = "a"; user_id = 7 }) logged_in
            ≡ (logged_in, RevocationResult.not_found)))
revoke_example = revoke_lem memory (record { session_id = "a"; user_id = 7 }) logged_in

abbrev all_of_a : SessionBulkRevocation
all_of_a = record { current_session_id = "a"; user_id = 7 }

revoke_all_example :
    ((owned_by 7 (logged_in.hashes "a") ≡ true)
      × ((j : String)
          → (revoke_all memory all_of_a logged_in).0.hashes j
            ≡ swept 7 (str_eq "a" j || any (str_eq j) (logged_in.index 7)) (logged_in.hashes j))
      × ((revoke_all memory all_of_a logged_in).0.index 7 ≡ [])
      × ((n : ℕ) × (1 ≤ n)
          × ((revoke_all memory all_of_a logged_in).1 ≡ BulkRevocationResult.success n)))
    ⊎ ((owned_by 7 (logged_in.hashes "a") ≡ false)
        × (revoke_all memory all_of_a logged_in
            ≡ (logged_in, BulkRevocationResult.current_session_not_found)))
revoke_all_example = revoke_all_lem memory all_of_a logged_in
