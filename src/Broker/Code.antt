-- ===== src/Broker/Code.antt =====
-- The grant of tokens for an authorization code (`handleCodeGrant` of oidc.go), stage by stage.
use x_auth_site.Base.{
  String, Bool, true, false, not, ◌&&◌, ◌||◌, Option, none, some, if◌then◌else◌, str_eq,
}
use x_auth_site.Broker.Store.{
  active, AuthCode, code_expired, create_install, update_install, consume_auth_code, put_token,
}
use x_auth_site.Broker.Clients.{Clients, Persona, Identity, Answer, given, refused, unavailable}
use x_auth_site.Broker.Calls.{
  Settings, code_check, finalization, install, refresh, Call, Reply, invalid_request, invalid_grant,
  invalid_client, internal_error, downstream_error, tokens, Broker, ttl_of, new_install,
  code_claims, code_record, grant_request, scope_string, mark_install_revoked,
}

module _ {M : Type 0} (C : Clients) (o : Settings) where
  -- A failure after the claim: the identity is released and the install marked revoked.
  abbrev pub compensate : Broker M C.State → AuthCode → Identity → Call → Broker M C.State
  compensate b ac i q =
      mark_install_revoked
        (record b { services = (C.release_identity b.services ac.tenant_id i.id).0 })
        (new_install ac q) q

  abbrev pub finalize :
      Broker M C.State → AuthCode → Identity → Persona → Call → String → Broker M C.State × Reply
  finalize b ac i p q access = (
    record b {
      store =
          put_token
            (update_install b.store
              (record (new_install ac q) { identity_id = i.id; status = active })
              (q.clock finalization))
            (code_record ac i p q (ttl_of o p) access);
    },
    tokens access (q.fresh refresh) (scope_string p.scopes ac.scope) (ttl_of o p),
  )

  abbrev pub code_granted :
      Broker M C.State
      → AuthCode
      → Identity
      → Persona
      → Call
      → String
      → C.State × Bool
      → Broker M C.State × Reply
  code_granted b ac i p q access (services, true) =
      finalize (record b { services = services }) ac i p q access
  code_granted b ac i p q access (services, false) =
      (compensate (record b { services = services }) ac i q, downstream_error)

  abbrev pub code_signed :
      Broker M C.State
      → AuthCode
      → Identity
      → Persona
      → Call
      → Option String
      → Broker M C.State × Reply
  code_signed b ac i p q none = (compensate b ac i q, internal_error)
  code_signed b ac i p q (some access) = code_granted b ac i p q access (
      C.create_grant b.services ac.tenant_id
        (grant_request o (code_record ac i p q (ttl_of o p) access) (ttl_of o p)))

  abbrev pub code_claimed :
      Broker M C.State
      → AuthCode
      → Persona
      → Call
      → C.State × Answer Identity
      → Broker M C.State × Reply
  code_claimed b ac p q (services, refused) = (
    mark_install_revoked (record b { services = services }) (new_install ac q) q,
    invalid_request,
  )
  code_claimed b ac p q (services, unavailable) = (
    mark_install_revoked (record b { services = services }) (new_install ac q) q,
    downstream_error,
  )
  code_claimed b ac p q (services, given i) =
      code_signed (record b { services = services }) ac i p q
        (o.sign (code_claims ac i p q (ttl_of o p)))

  abbrev pub code_persona :
      Broker M C.State → AuthCode → Call → Answer Persona → Broker M C.State × Reply
  code_persona b ac q refused = (mark_install_revoked b (new_install ac q) q, invalid_request)
  code_persona b ac q unavailable = (mark_install_revoked b (new_install ac q) q, downstream_error)
  code_persona b ac q (given p) =
      code_claimed b ac p q
        (C.claim_identity b.services ac.tenant_id ac.pool_id ac.persona_id (q.fresh install))

  abbrev pub code_installed : Broker M C.State → AuthCode → Call → Broker M C.State × Reply
  code_installed b ac q =
      code_persona (record b { store = create_install b.store (new_install ac q) }) ac q
        (C.get_persona b.services ac.tenant_id ac.persona_id)

  -- `client` is the client id of the request, empty if there is none.
  abbrev pub code_redeemed :
      Broker M C.State → String → String → Call → Option AuthCode → Broker M C.State × Reply
  code_redeemed b client verifier q none = (b, invalid_grant)
  code_redeemed b client verifier q (some ac) =
      if not (str_eq client "") && not (str_eq client ac.client_id)
      then (b, invalid_client)
      else (if code_expired (q.clock code_check) ac
          then (b, invalid_grant)
          else (if str_eq ac.code_challenge ""
                || not (str_eq (o.pkce_challenge verifier) ac.code_challenge)
              then (b, invalid_grant)
              else code_installed b ac q))

  -- `handleCodeGrant`
  unfoldable pub handle_code_grant :
      Broker M C.State → String → String → String → Call → Broker M C.State × Reply
  handle_code_grant b code client verifier q =
      if str_eq code ""
      then (b, invalid_request)
      else (if str_eq verifier ""
          then (b, invalid_request)
          else (let (store, ac) = consume_auth_code b.store code in
              code_redeemed (record b { store = store }) client verifier q ac))
