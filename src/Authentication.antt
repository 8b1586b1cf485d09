-- ===== src/Authentication.antt =====
-- The authentication service (services/authentication-service/internal): the flow executor, the sessions
-- and the assurance ledger of /authorize. The consoles, the social and phone logins, the OIDC
-- endpoints and the Postgres storage are not modelled.
pub mod Flow
pub mod Sessions
pub mod Protection
pub mod StepUp
mod Tests
