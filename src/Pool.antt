-- ===== src/Pool.antt =====
-- The pool service (services/pool-service/internal): pools of identities that installs claim,
-- release and lose. The Postgres store is not modelled.
pub mod Store
pub mod Server
pub mod Lifecycle
pub mod Capacity
pub mod Claims
pub mod Compensation
pub mod Pages
pub mod Exclusion
mod Tests
