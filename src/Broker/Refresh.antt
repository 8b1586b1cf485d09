-- ===== src/Broker/Refresh.antt =====
-- The refresh grant (`handleRefreshGrant` of oidc.go): rotation, and the revocation of an install whose
-- rotated token is presented again.
use x_auth_site.Base.{
  String, Bool, true, false, not, ◌&&◌, Option, none, some, if◌then◌else◌, str_eq, is_some,
}
use x_auth_site.Broker.Store.{
  Install, TokenRecord, get_install, put_token, get_token_by_refresh, delete_tokens_for_install,
}
use x_auth_site.Broker.Clients.{Clients, Persona, Answer, given, refused, unavailable}
use x_auth_site.Broker.Calls.{
  Settings, rotation, refresh, Call, Reply, invalid_request, invalid_grant, invalid_client,
  internal_error, downstream_error, tokens, Broker, ttl_of, is_active, is_revoked, refresh_claims,
  refresh_record, grant_request, scope_string, mark_install_revoked,
}

abbrev pub identity_of : TokenRecord → Option Install → String
identity_of rec none = rec.identity_id
identity_of rec (some i) = if str_eq i.identity_id "" then rec.identity_id else i.identity_id

abbrev pub release_if_bound : (C : Clients) → C.State → String → String → C.State
release_if_bound C s tenant identity =
    if str_eq identity "" then s else (C.release_identity s tenant identity).0

module _ {M : Type 0} (C : Clients) (o : Settings) where
  abbrev pub replay_install : Broker M C.State → Call → Option Install → Broker M C.State
  replay_install b q none = b
  replay_install b q (some i) = if is_revoked i.status then b else mark_install_revoked b i q

  -- `revokeInstallForReplay`
  unfoldable pub revoke_install_for_replay :
      Broker M C.State → TokenRecord → Call → Broker M C.State
  revoke_install_for_replay b rec q =
      let install = get_install b.store rec.tenant_id rec.install_id in
      let b' = replay_install b q install in
      let services = (C.revoke_grants_for_install b'.services rec.tenant_id rec.install_id).0 in
      record {
        store = (delete_tokens_for_install b'.store rec.install_id).0;
        services = release_if_bound C services rec.tenant_id (identity_of rec install);
      }

  abbrev pub rotate :
      Broker M C.State → TokenRecord → Persona → Call → String → Broker M C.State × Reply
  rotate b rec p q access = (
    record b {
      store =
          put_token (put_token b.store (record rec { rotated_at = some (q.clock rotation) }))
            (refresh_record rec p q (ttl_of o p) access);
    },
    tokens access (q.fresh refresh) (scope_string p.scopes rec.scope) (ttl_of o p),
  )

  abbrev pub refresh_granted :
      Broker M C.State
      → TokenRecord
      → Persona
      → Call
      → String
      → C.State × Bool
      → Broker M C.State × Reply
  refresh_granted b rec p q access (services, true) =
      rotate (record b { services = services }) rec p q access
  refresh_granted b rec p q access (services, false) =
      (record b { services = services }, downstream_error)

  abbrev pub refresh_signed :
      Broker M C.State → TokenRecord → Persona → Call → Option String → Broker M C.State × Reply
  refresh_signed b rec p q none = (b, internal_error)
  refresh_signed b rec p q (some access) = refresh_granted b rec p q access (
      C.create_grant b.services rec.tenant_id
        (grant_request o (refresh_record rec p q (ttl_of o p) access) (ttl_of o p)))

  abbrev pub refresh_persona :
      Broker M C.State → TokenRecord → Install → Call → Answer Persona → Broker M C.State × Reply
  refresh_persona b rec i q refused = (b, invalid_grant)
  refresh_persona b rec i q unavailable = (b, downstream_error)
  refresh_persona b rec i q (given p) =
      refresh_signed b rec p q (o.sign (refresh_claims rec i p q (ttl_of o p)))

  abbrev pub refresh_install :
      Broker M C.State → TokenRecord → String → Call → Option Install → Broker M C.State × Reply
  refresh_install b rec client q none = (b, invalid_grant)
  refresh_install b rec client q (some i) =
      if not (is_active i.status)
      then (b, invalid_grant)
      else (if not (str_eq client "") && not (str_eq client i.client_id)
          then (b, invalid_client)
          else refresh_persona b rec i q (C.get_persona b.services rec.tenant_id rec.persona_id))

  abbrev pub refresh_found :
      Broker M C.State → String → Call → Option TokenRecord → Broker M C.State × Reply
  refresh_found b client q none = (b, invalid_grant)
  refresh_found b client q (some rec) =
      if is_some rec.rotated_at
      then (revoke_install_for_replay b rec q, invalid_grant)
      else refresh_install b rec client q (get_install b.store rec.tenant_id rec.install_id)

  -- `handleRefreshGrant`
  unfoldable pub handle_refresh_grant :
      Broker M C.State → String → String → Call → Broker M C.State × Reply
  handle_refresh_grant b presented client q =
      if str_eq presented ""
      then (b, invalid_request)
      else refresh_found b client q (get_token_by_refresh b.store presented)
