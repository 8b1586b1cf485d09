-- ===== src/Broker/Effects.antt =====
-- What the grants of oidc.go do, every branch: a relation for each, and the theorem that the handler
-- stays in it.
use x_auth_site.Base.{
  ℕ, ◌≡◌, refl, sym, ap, ◌∙◌, ◌≢◌, ◌⊎◌, inl, inr, String, Bool, true, false, not, ◌&&◌, ◌||◌,
  Option, none, some, arith, if◌then◌else◌, str_eq, str_eq_iff, Bool-cases, Option-cases, is_some,
}
use x_auth_site.Base.Dict.{lookup, delete}
use x_auth_site.Broker.Store.{
  Install, InstallStatus, pending, active, revoked, AuthCode, TokenRecord, MemStorage, code_expired,
  create_install, get_install, update_install, consumed, consume_auth_code, put_token,
  get_token_by_refresh,
}
use x_auth_site.Broker.Clients.{Clients, Persona, Identity, Answer, given, refused, unavailable}
use x_auth_site.Broker.Calls.{
  Settings, Call, install, refresh, rotation, revocation, finalization, code_check, Reply,
  invalid_request, invalid_grant, invalid_client, internal_error, downstream_error, tokens, Broker,
  ttl_of, is_active, new_install, code_claims, code_record, refresh_claims, refresh_record,
  scope_string, mark_install_revoked,
}
use x_auth_site.Broker.Code.{
  code_installed, code_persona, code_claimed, code_signed, code_granted, code_redeemed,
  handle_code_grant,
}
use x_auth_site.Broker.Refresh.{
  revoke_install_for_replay, refresh_granted, refresh_signed, refresh_persona, refresh_install,
  refresh_found, handle_refresh_grant,
}
pub mod Codes
pub mod Refreshes

-- A reply without tokens.
abbrev pub IsError : Reply → Type 0
IsError (tokens _ _ _ _) = ⊥
IsError _ = Unit

pub named_client :
    (client id : String)
    → (not (str_eq client "") && not (str_eq client id)) ≡ false
    → client ≢ ""
    → client ≡ id
named_client client id e some_client = ground (arith, str_eq_iff client "", str_eq_iff client id)
