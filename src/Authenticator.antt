-- ===== src/Authenticator.antt =====
-- The authenticator service (services/authenticator-service/internal).
pub mod Model
pub mod Lockout
pub mod Backoff
pub mod Store
pub mod Select
pub mod Challenges
mod Tests
