-- ===== src/Risk.antt =====
-- The risk service (services/risk-service/internal).
pub mod Model
pub mod Policy
pub mod Store
pub mod Isolation
pub mod Listing
mod Tests
