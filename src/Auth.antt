-- ===== src/Auth.antt =====
-- The authentication state of the backend.
pub mod Redis
pub mod Runtime
pub mod Session
pub mod Settings
pub mod Security
pub mod Users
pub mod RateLimiter
pub mod Service
pub mod Tests
