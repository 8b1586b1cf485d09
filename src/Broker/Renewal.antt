-- ===== src/Broker/Renewal.antt =====
-- The refresh grant when the services answer (`handleRefreshGrant` of oidc.go).
use x_auth_site.Base.{
  ℕ, ◌≡◌, refl, sym, ap, ◌∙◌, ◌≢◌, ◌⊎◌, inl, inr, String, Bool, true, false, not, ◌&&◌, Option,
  none, some, some_inj, is_some, arith, str_eq, str_eq_iff, str_eq_ne, str_eq_refl, Bool-cases,
  Option-cases, List, [], ◌∷◌, if◌then◌else◌,
}
use x_auth_site.Base.Dict.{Dict, lookup, insert, values_where}
use x_auth_site.Base.Dict.Laws.{lookup-Among, lookup-insert}
use x_auth_site.Broker.Store.{
  Install, InstallStatus, active, TokenRecord, MemStorage, first_of, get_install,
  get_token_by_refresh, put_token, create_install,
}
use x_auth_site.Broker.Clients.{Clients, Persona, Answer, given}
use x_auth_site.Broker.Calls.{
  Broker, Call, Reply, invalid_grant, tokens, Settings, rotation, refresh, ttl_of, scope_string,
  is_active, refresh_claims, refresh_record, grant_request,
}
use x_auth_site.Broker.Refresh.{
  handle_refresh_grant, refresh_granted, revoke_install_for_replay, rotate,
}
pub mod Replayed
pub mod Exchanged
use x_auth_site.Broker.Replay.{refreshed_nonblank}

module _ {M : Type 0} (C : Clients) (o : Settings) (b : Broker M C.State) (q : Call) where
  -- The token may be exchanged by the client now, and the services answer what the exchange asks them.
  pub record IsRenewable (presented client : String) (rec : TokenRecord) (i : Install) (p : Persona)
      (access : String) : Type 0 where
    pub found : get_token_by_refresh b.store presented ≡ some rec
    pub unrotated : is_some rec.rotated_at ≡ false
    pub bound : get_install b.store rec.tenant_id rec.install_id ≡ some i
    pub running : i.status ≡ active
    pub same_client : client ≢ "" → client ≡ i.client_id
    pub persona : C.get_persona b.services rec.tenant_id rec.persona_id ≡ given p
    pub signed : o.sign (refresh_claims rec i p q (ttl_of o p)) ≡ some access
    pub recorded :
        (C.create_grant b.services rec.tenant_id
          (grant_request o (refresh_record rec p q (ttl_of o p) access) (ttl_of o p))).1
        ≡ true

passes :
    (client id : String)
    → (client ≢ "" → client ≡ id)
    → (not (str_eq client "") && not (str_eq client id)) ≡ false
passes client id h = elim (Bool-cases (str_eq client "")) [
  | inl blank ↦ rw blank refl
  | inr named ↦ rw (named, (str_eq_iff client id).1 (h (ground (arith, str_eq_iff client "")))) refl
]

module _ {M : Type 0} (C : Clients) (o : Settings) where
  granted_branch :
      (b : Broker M C.State) (rec : TokenRecord) (p : Persona) (q : Call) (access : String)
      (out : C.State × Bool)
      → out.1 ≡ true
      → refresh_granted C o b rec p q access out
        ≡ rotate C o (record b { services = out.0 }) rec p q access
  granted_branch b rec p q access (s, true) e = refl
  granted_branch b rec p q access (s, false) e = ground arith

  -- The branch of the handler that such a token takes.
  pub refresh_succeeds :
      (b : Broker M C.State) (q : Call) (presented client : String) (rec : TokenRecord)
      (i : Install) (p : Persona) (access : String)
      → IsRenewable C o b q presented client rec i p access
      → handle_refresh_grant C o b presented client q
        ≡ rotate C o
            (record b {
              services =
                  (C.create_grant b.services rec.tenant_id
                    (grant_request o (refresh_record rec p q (ttl_of o p) access) (ttl_of o p))).0;
            })
            rec
            p
            q
            access
  unfolding handle_refresh_grant
  refresh_succeeds b q presented client rec i p access h =
      rw
        (
          refreshed_nonblank b.store presented rec h.found,
          h.found,
          h.unrotated,
          h.bound,
          ap is_active h.running,
          passes client i.client_id h.same_client,
          h.persona,
          h.signed,
        )
        (granted_branch b rec p q access _ h.recorded)
