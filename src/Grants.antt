-- ===== src/Grants.antt =====
-- The grant service (services/grant-service/internal): OAuth grants, their revocation and the audit
-- log. The decoding of JSON, the writing of answers and the Postgres stores are not modelled.
pub mod Store
pub mod Revocation
pub mod Forward
pub mod Cascade
pub mod Counts
pub mod Single
pub mod Audit
pub mod Tokens
pub mod Introspection
pub mod Revoked
pub mod Issuing
pub mod Requests
pub mod Issued
pub mod Auditing
pub mod Queries
mod Tests
mod EndpointTests
