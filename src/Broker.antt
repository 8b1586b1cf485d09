-- ===== src/Broker.antt =====
-- The broker service (services/broker-service/internal): installs of agents, authorization codes and
-- tokens. It calls the persona, pool and grant services, which are the interface `Clients` here.
pub mod Store
pub mod Clients
pub mod Calls
pub mod Code
pub mod Refresh
pub mod Endpoints
pub mod Effects
pub mod Runs
pub mod Families
pub mod Replay
pub mod OverPool
mod Tests
pub mod Renewal
pub mod Sweep
pub mod Revoked
pub mod SingleUse
