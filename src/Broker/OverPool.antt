-- ===== src/Broker/OverPool.antt =====
-- The broker over the pool service: the clients of clients.go whose pool side calls the handlers of the
-- pool service over its storage, and what a failed code grant leaves there.
pub mod Failure
mod Tests
use x_auth_site.Base.{ℕ, suc, String, Bool, true, false, Option, none, some, if◌then◌else◌, str_eq}
use x_auth_site.Pool.Store.{MemStorage}
use x_auth_site.Pool.Server.{
  Reply, conflict, identity_answer, no_content, ClaimRequest, handle_claim, handle_release,
}
use x_auth_site.Broker.Clients.{
  Clients, Persona, Identity, GrantCreateRequest, Answer, given, refused, unavailable,
}

-- The persona and grant services.
pub record Others : Type 1 where
  pub State : Type 0
  pub get_persona : State → String → String → Answer Persona
  pub create_grant : State → String → GrantCreateRequest → State × Bool
  pub revoke_grants_for_install : State → String → String → State × Bool
  pub revoke_token : State → String → String → State × Bool

-- `served` counts the requests that were made to the pool service, which its clock and the network are read by.
pub record Services (S : Type 0) : Type 0 where
  pub pool : MemStorage
  pub served : ℕ
  pub rest : S

-- The tenant header is sent only if there is a tenant.
abbrev pub tenant_header : String → Option String
tenant_header tenant = if str_eq tenant "" then none else some tenant

-- What becomes of a request on the network: it is answered; it does not arrive; or it is served and its
-- answer is lost, by a timeout or a body that breaks off.
pub data Delivery : Type 0 where
  answered not_sent answer_lost : Delivery

-- The request as `do` sees it: the pool after it, and the reply, if one arrives.
abbrev pub exchange :
    {S : Type 0} → Delivery → Services S → MemStorage × Reply → Services S × Option Reply
exchange answered s (pool, reply) = (record s { pool = pool; served = suc s.served }, some reply)
exchange not_sent s (pool, reply) = (record s { served = suc s.served }, none)
exchange answer_lost s (pool, reply) = (record s { pool = pool; served = suc s.served }, none)

-- `ClaimIdentity`: a reply of 200 is decoded, 409 is told apart, any other error is one of the service.
abbrev pub claim_answer : Option Reply → Answer Identity
claim_answer (some (identity_answer i)) =
    given (record { id = i.id; pool_id = i.pool_id; subject_id = i.subject_id })
claim_answer (some conflict) = refused
claim_answer _ = unavailable

abbrev pub is_done : Option Reply → Bool
is_done (some (identity_answer _)) = true
is_done (some no_content) = true
is_done _ = false

-- `network n` is what becomes of the request after `n` others.
abbrev pub over_pool : (String → String) → (ℕ → ℕ) → (ℕ → Delivery) → Others → Clients
over_pool trim clock network R = record {
  State = Services R.State;
  get_persona = λ s tenant id. R.get_persona s.rest tenant id;
  claim_identity = λ s tenant pool persona install.
      let (s', reply) = exchange (network s.served) s (
        handle_claim trim s.pool (tenant_header tenant) pool
          (some (record { persona_id = persona; install_id = install })) (clock s.served)) in
      (s', claim_answer reply);
  release_identity = λ s tenant id.
      let (s', reply) =
        exchange (network s.served) s
          (handle_release s.pool (tenant_header tenant) id (clock s.served)) in
      (s', is_done reply);
  create_grant = λ s tenant g.
      let (rest', done) = R.create_grant s.rest tenant g in (record s { rest = rest' }, done);
  revoke_grants_for_install = λ s tenant id.
      let (rest', done) = R.revoke_grants_for_install s.rest tenant id in
      (record s { rest = rest' }, done);
  revoke_token = λ s tenant t.
      let (rest', done) = R.revoke_token s.rest tenant t in (record s { rest = rest' }, done);
}
