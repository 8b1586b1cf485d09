-- ===== src/Broker/Clients.antt =====
-- The services that the broker calls (clients.go): an interface with a state of its own. An answer of
-- `refused` is the status that the caller tells apart (404 of the persona service, 409 of the pool
-- service); `unavailable` is every other error.
use x_auth_site.Base.{ℕ, String, Bool, List}

pub record Persona : Type 0 where
  pub id : String
  pub scopes : List String
  pub token_ttl : ℕ

pub record Identity : Type 0 where
  pub id : String
  pub pool_id : String
  pub subject_id : String

pub record GrantCreateRequest : Type 0 where
  pub install_id : String
  pub identity_id : String
  pub persona_id : String
  pub access_token_hash : String
  pub refresh_token_hash : String
  pub ttl_seconds : ℕ

pub data Answer (A : Type 0) : Type 0 where
  given : A → Answer A
  refused unavailable : Answer A

-- A call that gives nothing back answers whether it had no error.
pub record Clients : Type 1 where
  pub State : Type 0
  pub get_persona : State → String → String → Answer Persona
  pub claim_identity : State → String → String → String → String → State × Answer Identity
  pub release_identity : State → String → String → State × Bool
  pub create_grant : State → String → GrantCreateRequest → State × Bool
  pub revoke_grants_for_install : State → String → String → State × Bool
  pub revoke_token : State → String → String → State × Bool
