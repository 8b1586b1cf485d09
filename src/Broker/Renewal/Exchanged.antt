-- ===== src/Broker/Renewal/Exchanged.antt =====
-- What an exchange of a refresh token leaves, when the services answer (`handleRefreshGrant` of oidc.go).
use x_auth_site.Base.{
  ◌+◌, ◌*◌, ◌≡◌, refl, sym, ap, ◌∙◌, ◌≢◌, inl, inr, String, some, none, str_eq, str_eq_iff,
  str_eq_ne,
}
use mathlib.Core.Path.{subst}
use x_auth_site.Base.Dict.{lookup, insert}
use x_auth_site.Base.Dict.Laws.{lookup-Among, lookup-insert, lookup-insert_self}
use x_auth_site.Broker.Store.{
  second, Install, TokenRecord, MemStorage, get_token_by_refresh, put_token,
}
use x_auth_site.Broker.Clients.{Clients, Persona}
use x_auth_site.Broker.Calls.{
  Broker, Call, Reply, tokens, Settings, rotation, refresh, issue, ttl_of, scope_string,
}
use x_auth_site.Broker.Refresh.{handle_refresh_grant}
use x_auth_site.Broker.Families.{TokensFit, first_of-lookup, lookup-insert_cases}
use x_auth_site.Broker.Families.Rotation.{insert-TokensFit}
use x_auth_site.Broker.Renewal.{IsRenewable, refresh_succeeds}
use x_auth_site.Broker.Renewal.Replayed.{Among-first_of}
use x_auth_site.Broker.Replay.{refreshed_nonblank}

-- The token that an exchange issues: of the same family, with a fresh refresh token, and not rotated.
abbrev pub issued_for : TokenRecord → Persona → Call → Settings → String → TokenRecord
issued_for rec p q o access = record {
  access_token = access;
  refresh_token = q.fresh refresh;
  install_id = rec.install_id;
  persona_id = rec.persona_id;
  identity_id = rec.identity_id;
  subject = rec.subject;
  scope = scope_string p.scopes rec.scope;
  tenant_id = rec.tenant_id;
  expires_at = q.clock issue + ttl_of o p * second;
  rotated_at = none;
}

-- A token that is put last is found by its refresh text, if no token before it had that text.
put-found :
    {M : Type 0} (s : MemStorage M) (presented : String) (rec old u : TokenRecord)
    → TokensFit s.tokens
    → get_token_by_refresh s presented ≡ some rec
    → ((k : String) (t : TokenRecord)
        → lookup k s.tokens ≡ some t
        → t.refresh_token ≢ u.refresh_token)
    → old.refresh_token ≡ rec.refresh_token
    → u.refresh_token ≢ ""
    → get_token_by_refresh (put_token (put_token s old) u) u.refresh_token ≡ some u
unfolding get_token_by_refresh put_token
put-found s presented rec old u fit found fresh same_text given =
    let m = insert old.access_token old s.tokens in
    let wanted = λ (t : TokenRecord). str_eq t.refresh_token u.refresh_token in
    let (x, first) = Among-first_of u _ (
      lookup-Among wanted u.access_token u (insert u.access_token u m)
        (lookup-insert_self u.access_token u m)
        ((str_eq_iff u.refresh_token u.refresh_token).1 refl)) in
    let (k, stored, fits) =
      first_of-lookup wanted (insert u.access_token u m) x
        (insert-TokensFit none s u m (insert-TokensFit none s old s.tokens fit)).distinct first in
    let text = (str_eq_iff x.refresh_token u.refresh_token).0 fits in
    let is_new : x ≡ u = elim (lookup-insert_cases u.access_token k u x m stored) [
      | inl (_, is_new) ↦ is_new
      | inr (_, kept) ↦ elim (lookup-insert_cases old.access_token k old x s.tokens kept) [
        | inl (_, is_old) ↦
            let (j, there, _) =
              first_of-lookup (λ t. str_eq t.refresh_token presented) s.tokens rec fit.distinct
                ((rw (refreshed_nonblank s presented rec found) refl) ∙ found) in
            absurd
              (fresh j rec there (sym same_text ∙ ap (λ t. t.refresh_token) (sym is_old) ∙ text))
        | inr (_, older) ↦ absurd (fresh k x older text)
      ]
    ] in
    rw (str_eq_ne u.refresh_token "" given) (first ∙ ap some is_new)

module _ {M : Type 0} (C : Clients) (o : Settings) (b : Broker M C.State) (q : Call) where
  -- The reply and the state of an exchange.
  pub record IsExchanged (rec : TokenRecord) (p : Persona) (access : String)
      (out : Broker M C.State × Reply) : Type 0 where
    pub reply :
        out.1 ≡ tokens access (q.fresh refresh) (scope_string p.scopes rec.scope) (ttl_of o p)
    pub rotated :
        lookup rec.access_token out.0.store.tokens
        ≡ some (record rec { rotated_at = some (q.clock rotation) })
    pub issued : lookup access out.0.store.tokens ≡ some (issued_for rec p q o access)
    pub others :
        (k : String)
        → k ≢ access
        → k ≢ rec.access_token
        → lookup k out.0.store.tokens ≡ lookup k b.store.tokens
    pub installs : out.0.store.installs ≡ b.store.installs
    pub exchangeable :
        get_token_by_refresh out.0.store (q.fresh refresh) ≡ some (issued_for rec p q o access)

  -- An unrotated refresh token of an active install, presented by a request that names its client or no
  -- client while the persona service, the signer and the grant service answer, is exchanged, if the access and
  -- the refresh token that are made are new: the presented token is stored as rotated at the time of
  -- the rotation, the answered pair is stored as an unrotated token of the same install and identity, no
  -- other token and no install changes, and the new refresh token finds the new record, ready to be
  -- exchanged in turn.
  pub refresh-IsExchanged :
      (presented client : String) (rec : TokenRecord) (i : Install) (p : Persona) (access : String)
      → TokensFit b.store.tokens
      → IsRenewable C o b q presented client rec i p access
      → ((k : String) (t : TokenRecord)
          → lookup k b.store.tokens ≡ some t
          → t.refresh_token ≢ q.fresh refresh)
      → access ≢ rec.access_token
      → q.fresh refresh ≢ ""
      → IsExchanged rec p access (handle_refresh_grant C o b presented client q)
  unfolding put_token
  refresh-IsExchanged presented client rec i p access fit h fresh new_access given =
      let old : TokenRecord = record rec { rotated_at = some (q.clock rotation) } in
      let u = issued_for rec p q o access in
      let m = insert rec.access_token old b.store.tokens in
      subst (IsExchanged rec p access)
        (sym (refresh_succeeds C o b q presented client rec i p access h))
        (record {
          reply = refl;
          rotated =
              lookup-insert access rec.access_token u m
              ∙ rw (str_eq_ne access rec.access_token new_access)
                  (lookup-insert_self rec.access_token old b.store.tokens);
          issued = lookup-insert_self access u m;
          others = λ k other older.
              lookup-insert access k u m
              ∙ rw (str_eq_ne access k (λ e. other (sym e))) (
                  lookup-insert rec.access_token k old b.store.tokens
                  ∙ rw (str_eq_ne rec.access_token k (λ e. older (sym e))) refl);
          installs = refl;
          exchangeable = put-found b.store presented rec old u fit h.found fresh refl given;
        })
