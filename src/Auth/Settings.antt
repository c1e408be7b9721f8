-- ===== src/Auth/Settings.antt =====
-- backend/app/core/config.py: the settings of tokens and sessions, with the checks of the model
-- validators that concern them.
use ai_knowledge_hub.Base.{ℕ, String, Bool, true, false, ◌&&◌, Option, ltb, is_some}

pub data ExpirationMode : Type 0 where
  absolute sliding : ExpirationMode

pub record Settings : Type 0 where
  pub jwt_active_key_id : String
  -- The secret of a key id.
  pub jwt_signing_keys : String → Option String
  pub jwt_access_token_expire_minutes : ℕ
  pub session_expiration_mode : ExpirationMode
  pub session_ttl_days : ℕ
  pub session_absolute_max_days : ℕ

abbrev pub is_sliding : ExpirationMode → Bool
is_sliding ExpirationMode.absolute = false
is_sliding ExpirationMode.sliding = true

-- Whether `validate_session_expiration` raises.
unfoldable pub refuses_session_expiration : Settings → Bool
refuses_session_expiration s =
    is_sliding s.session_expiration_mode && ltb s.session_absolute_max_days s.session_ttl_days

-- Whether `validate_jwt_key_ring` passes.
unfoldable pub accepts_jwt_key_ring : Settings → Bool
accepts_jwt_key_ring s = is_some (s.jwt_signing_keys s.jwt_active_key_id)
