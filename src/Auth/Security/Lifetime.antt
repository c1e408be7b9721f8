-- ===== src/Auth/Security/Lifetime.antt =====
-- How long a session lasts: its current and its final end.
use ai_knowledge_hub.Base.{ℕ, ◌≤◌, ◌<◌, ◌≡◌, false, arith}
use ai_knowledge_hub.Auth.Settings.{Settings, refuses_session_expiration}
use ai_knowledge_hub.Auth.Security.{
  calculate_initial_session_expiration, calculate_rotated_session_expiration,
}

-- With settings that the configuration accepts and a lifetime of at least a day, a session that begins
-- ends later than it begins and not after its final end, and when it is rotated, at any time, an end
-- that is within the final one stays within it.
pub calculate_session_expiration_lem :
    (settings : Settings) (created_at rotated_at current : ℕ)
    → refuses_session_expiration settings ≡ false
    → 0 < settings.session_ttl_days
    → current ≤ (calculate_initial_session_expiration settings created_at).absolute_expires_at
    → let e = calculate_initial_session_expiration settings created_at in
      (created_at < e.expires_at)
      × (e.expires_at ≤ e.absolute_expires_at)
      × (calculate_rotated_session_expiration settings rotated_at current e.absolute_expires_at
          ≤ e.absolute_expires_at)
unfolding refuses_session_expiration calculate_initial_session_expiration
    calculate_rotated_session_expiration
calculate_session_expiration_lem settings created_at rotated_at current h p q =
    (ground arith, ground arith, ground arith)
