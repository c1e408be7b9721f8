-- ===== src/Auth/Users.antt =====
-- backend/app/models/user.py and backend/app/db/repositories/user_repository.py: the table of users,
-- whose key is `id` and whose `email` is unique.
use ai_knowledge_hub.Base.{
  ℕ, suc, String, Bool, true, false, Option, none, some, List, ◌∷◌, any, find_first, str_eq, ◌==◌,
  if◌then◌else◌,
}

pub data UserStatus : Type 0 where
  active disabled : UserStatus

-- The times `created_at` and `updated_at`, which only the database writes and no one of these
-- components reads, are left out.
pub record User : Type 0 where
  pub id : ℕ
  pub email : String
  pub password_hash : String
  pub nickname : Option String
  pub avatar_url : Option String
  pub status : UserStatus

pub record Users : Type 0 where
  pub rows : List User
  -- The id that the database gives to the next row.
  pub next_id : ℕ

abbrev pub is_active : UserStatus → Bool
is_active UserStatus.active = true
is_active UserStatus.disabled = false

unfoldable pub get_by_id : ℕ → Users → Option User
get_by_id user_id users = find_first (λ u. u.id == user_id) users.rows

unfoldable pub get_by_email : String → Users → Option User
get_by_email email users = find_first (λ u. str_eq u.email email) users.rows

-- The row that `create` adds, with the defaults of the table.
abbrev pub new_user : String → String → Option String → Users → User
new_user email password_hash nickname users = record {
  id = users.next_id;
  email = email;
  password_hash = password_hash;
  nickname = nickname;
  avatar_url = none;
  status = UserStatus.active;
}

abbrev pub with_user : User → Users → Users
with_user user users = record { rows = user ∷ users.rows; next_id = suc users.next_id }

-- `create`; nothing for an `IntegrityError`.
unfoldable pub create_user : String → String → Option String → Users → Option (Users × User)
create_user email password_hash nickname users =
    let user = new_user email password_hash nickname users in
    if any (λ u. str_eq u.email email) users.rows then none else some (with_user user users, user)
