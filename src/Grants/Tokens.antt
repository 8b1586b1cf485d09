-- ===== src/Grants/Tokens.antt =====
-- The handlers that take a token (`RevokeByToken`, `Introspect` of handlers.go, `HashToken` of
-- grants.go). `digest` is the hex SHA-256, `trim` is `strings.TrimSpace`; a body that does not decode
-- is `none`. The clock of the store and of the handler are one instant.
use x_auth_site.Base.{
  ℕ, String, Bool, true, false, Option, none, some, [], ◌∷◌, if◌then◌else◌, str_eq,
}
use x_auth_site.Grants.Store.{
  Grant, GrantStatus, active, MemGrantStore, derive_status, Handlers, audited,
  find_by_access_token_hash, revoke_grant,
}

pub data TokenReply : Type 0 where
  missing_tenant bad_body invalid_request ok200 : TokenReply

pub data IntrospectReply : Type 0 where
  no_tenant bad_json inactive : IntrospectReply
  introspected : Grant → IntrospectReply

abbrev pub is_active : GrantStatus → Bool
is_active active = true
is_active _ = false

module _ (trim digest : String → String) where
  unfoldable pub hash_token : String → String
  hash_token token = if str_eq token "" then "" else digest token

  -- The revocation of the grant that was found.
  abbrev pub revoke_resolved : Handlers → String → String → ℕ → Option Grant → Handlers × TokenReply
  revoke_resolved h uuid tenant now none = (h, ok200)
  revoke_resolved h uuid tenant now (some g) =
      if str_eq g.tenant_id tenant
      then (let (grants, out) = revoke_grant h.grants tenant g.id now in
          (
            record {
              grants = grants;
              audit = audited h.audit uuid tenant (("cause", "token_revocation") ∷ []) now out;
            },
            ok200,
          ))
      else (h, ok200)

  unfoldable pub revoke_by_token :
      Handlers → String → Option String → Option String → ℕ → Handlers × TokenReply
  revoke_by_token h uuid none body now = (h, missing_tenant)
  revoke_by_token h uuid (some tenant) none now = (h, bad_body)
  revoke_by_token h uuid (some tenant) (some token) now =
      if str_eq (trim token) ""
      then (h, invalid_request)
      else revoke_resolved h uuid tenant now
          (find_by_access_token_hash h.grants (hash_token (trim token)) now)

  abbrev pub introspect_resolved : String → ℕ → Option Grant → IntrospectReply
  introspect_resolved tenant now none = inactive
  introspect_resolved tenant now (some g) =
      if str_eq g.tenant_id tenant
      then (if is_active (derive_status g now) then introspected g else inactive)
      else inactive

  unfoldable pub introspect : MemGrantStore → Option String → Option String → ℕ → IntrospectReply
  introspect s none body now = no_tenant
  introspect s (some tenant) none now = bad_json
  introspect s (some tenant) (some token) now =
      if str_eq (trim token) ""
      then inactive
      else introspect_resolved tenant now
          (find_by_access_token_hash s (hash_token (trim token)) now)
