-- ===== src/Auth/Service/Register.antt =====
-- A user who has registered can log in with the password, if the rate limiter lets the attempt in.
use ai_knowledge_hub.Base.{
  ℕ, ◌≡◌, refl, sym, ap, subst, inl, inr, String, true, Option, none, some, ok, >>=-eq-ok,
  ok-injective, or_raise, or_raise-eq-ok, Option-cases, Bool-cases, eq_refl, str_eq, any,
}
use ai_knowledge_hub.Auth.Runtime.{Runtime}
use ai_knowledge_hub.Auth.Settings.{Settings}
use ai_knowledge_hub.Auth.Security.{AuthError, hash_password, verify_password, encode_password}
use ai_knowledge_hub.Auth.Users.{
  User, Users, UserStatus, new_user, with_user, get_by_email, create_user,
}
use ai_knowledge_hub.Auth.Service.{
  RegisterRequest, UserResponse, response_of, register, normalized, nickname_of, authenticate,
}

module _ (runtime : Runtime) (settings : Settings) where
  open runtime use {hashpw, checkpw-hashpw}

  verify-hash :
      (password salt : String) {hash : String}
      → hash_password runtime settings password salt ≡ ok hash
      → verify_password runtime settings password hash ≡ true
  unfolding hash_password verify_password encode_password
  verify-hash password salt {hash} h =
      let (bytes, a, h₁) = >>=-eq-ok (encode_password runtime settings password) _ h in
      let made : hashpw bytes salt ≡ hash = ok-injective _ _ refl h₁ in
      rw (verify_password, a) (rw (sym made) (checkpw-hashpw bytes salt))

  -- What is known of a user that has just been created.
  abbrev IsCreated : String → String → ℕ → Users × User → Type 0
  IsCreated email hash id (after, user) =
      (get_by_email email after ≡ some user)
      × (user.password_hash ≡ hash)
      × (user.status ≡ UserStatus.active)
      × (user.id ≡ id)

  create_user-IsCreated :
      (email hash : String) (nickname : Option String) (users : Users) {created : Users × User}
      → create_user email hash nickname users ≡ some created
      → IsCreated email hash users.next_id created
  unfolding create_user get_by_email
  create_user-IsCreated email hash nickname users {created} h =
      elim (Bool-cases (any (λ u. str_eq u.email email) users.rows)) [
        | inl e ↦ cc (rw (e, create_user) at h)
        | inr e ↦
            let user = new_user email hash nickname users in
            let same : (with_user user users, user) ≡ created = cc (rw (e, create_user) at h) in
            subst (λ x. IsCreated email hash users.next_id x) same
              (rw (eq_refl email) refl, refl, refl, refl)
      ]

  authenticate-IsCreated :
      (email hash password : String) (id : ℕ) (after : Users) (user : User)
      → IsCreated email hash id (after, user)
      → verify_password runtime settings password hash ≡ true
      → authenticate runtime settings email password after ≡ ok user
  unfolding authenticate
  authenticate-IsCreated email hash password id after user (found, hashed, active, numbered) v =
      rw (found, hashed, v, active) refl

  -- When a registration succeeds, the response is that of a new user with the normalised email, whom a
  -- login with the same email and password then authenticates.
  pub authenticate-register :
      (request : RegisterRequest) (salt : String) (users : Users) {after : Users}
      {response : UserResponse}
      → register runtime settings request salt users ≡ ok (after, response)
      → (user : User) × (response_of user ≡ response)
        × (user.id ≡ users.next_id)
        × (get_by_email (normalized runtime settings request.email) users ≡ none)
        × (authenticate runtime settings
              (normalized runtime settings request.email)
              request.password
              after
            ≡ ok user)
  unfolding register
  authenticate-register request salt users {after} {response} h =
      let email = normalized runtime settings request.email in
      let (hash, a, h₁) = >>=-eq-ok (hash_password runtime settings request.password salt) _ h in
      elim (Option-cases (get_by_email email users)) [
        | inr (existing, q) ↦ cc (rw (q) at h₁)
        | inl q ↦
            let ((after₂, user), c, h₂) =
              >>=-eq-ok
                (or_raise (create_user email hash (nickname_of request.nickname) users)
                  AuthError.email_already_registered)
                _ (rw (q) at h₁) in
            let created =
              create_user-IsCreated email hash (nickname_of request.nickname) users
                (or_raise-eq-ok _ _ c) in
            let made : (after₂, response_of user) ≡ (after, response) = ok-injective _ _ refl h₂ in
            (
              user,
              ap (λ x. x.1) made,
              created.3,
              q,
              subst (λ t. authenticate runtime settings email request.password t ≡ ok user)
                  (ap (λ x. x.0) made)
                  (authenticate-IsCreated email hash request.password users.next_id after₂ user
                    created (verify-hash request.password salt a)),
            )
      ]
