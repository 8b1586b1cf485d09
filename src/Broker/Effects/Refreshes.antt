-- ===== src/Broker/Effects/Refreshes.antt =====
-- What the refresh grant does (`handleRefreshGrant` of oidc.go).
use x_auth_site.Base.{
  ℕ, if◌then◌else◌, ◌≡◌, refl, ap, ◌≢◌, ◌⊎◌, inl, inr, String, Bool, true, false, not, ◌&&◌, Option,
  none, some, str_eq, Bool-cases, is_some,
}
use x_auth_site.Broker.Store.{
  MemStorage, update_install, delete_tokens_for_install, Install, InstallStatus, pending, active,
  revoked, TokenRecord, get_install, put_token, get_token_by_refresh,
}
use x_auth_site.Broker.Clients.{Clients, Persona, Answer, given, refused, unavailable}
use x_auth_site.Broker.Calls.{
  Settings, Call, refresh, rotation, revocation, Reply, invalid_grant, tokens, Broker, ttl_of,
  is_active, refresh_claims, refresh_record, scope_string,
}
use x_auth_site.Broker.Refresh.{
  replay_install, identity_of, revoke_install_for_replay, refresh_granted, refresh_signed,
  refresh_persona, refresh_install, refresh_found, handle_refresh_grant,
}
use x_auth_site.Broker.Effects.{IsError, named_client}

-- The first for a revoked install, the second for any other.
abbrev pub unless_revoked : {A : Type 0} → InstallStatus → A → A → A
unless_revoked revoked kept cut = kept
unless_revoked _ kept cut = cut

-- The storage after an install was marked revoked, if it is stored and was not revoked before.
abbrev pub cut_install : {M : Type 0} → MemStorage M → ℕ → Option Install → MemStorage M
cut_install s now none = s
cut_install s now (some i) =
    unless_revoked i.status s (update_install s (record i { status = revoked }) now)

-- The identity that an install holds: its own, or that of the token if it has none.
abbrev pub held_identity : String → Option Install → String
held_identity issued none = issued
held_identity issued (some i) = if str_eq i.identity_id "" then issued else i.identity_id

module _ {M : Type 0} (C : Clients) (o : Settings) (b : Broker M C.State) where
  -- What a replay leaves: the install marked revoked and all its token records gone; its grants revoked at the
  -- grant service and then its identity, if it has one, released at the pool service.
  pub record IsCutOff (rec : TokenRecord) (q : Call) (out : Broker M C.State) : Type 0 where
    pub store :
        out.store
        ≡ (delete_tokens_for_install
            (cut_install b.store
              (q.clock revocation)
              (get_install b.store rec.tenant_id rec.install_id))
            rec.install_id).0
    pub services : out.services ≡ (
        let revoked_grants =
          (C.revoke_grants_for_install b.services rec.tenant_id rec.install_id).0 in
        let identity =
          held_identity rec.identity_id (get_install b.store rec.tenant_id rec.install_id) in
        if str_eq identity ""
        then revoked_grants
        else (C.release_identity revoked_grants rec.tenant_id identity).0)

  -- The refresh grant: refused; a replay, which revokes the install; or a rotation.
  pub data RefreshEffect (presented client : String) (q : Call)
      : Broker M C.State × Reply → Type 0 where
    kept :
        {r : Reply} {services : C.State}
        → IsError r
        → RefreshEffect presented client q (record b { services = services }, r)
    replayed :
        (rec : TokenRecord)
        → get_token_by_refresh b.store presented ≡ some rec
        → is_some rec.rotated_at ≡ true
        → IsCutOff rec q (revoke_install_for_replay C o b rec q)
        → RefreshEffect presented client q (revoke_install_for_replay C o b rec q, invalid_grant)
    rotated :
        {services : C.State} (rec : TokenRecord) (i : Install) (p : Persona) (access : String)
        → get_token_by_refresh b.store presented ≡ some rec
        → is_some rec.rotated_at ≡ false
        → get_install b.store rec.tenant_id rec.install_id ≡ some i
        → i.status ≡ active
        → (client ≢ "" → client ≡ i.client_id)
        → o.sign (refresh_claims rec i p q (ttl_of o p)) ≡ some access
        → RefreshEffect presented client q (
          record {
            store =
                put_token
                  (put_token b.store (record rec { rotated_at = some (q.clock rotation) }))
                  (refresh_record rec p q (ttl_of o p) access);
            services = services;
          },
          tokens access (q.fresh refresh) (scope_string p.scopes rec.scope) (ttl_of o p),
        )

status_cases : (s : InstallStatus) → (is_active s ≡ false) ⊎ (s ≡ active)
status_cases pending = inl refl
status_cases active = inr refl
status_cases revoked = inl refl

module _ {M : Type 0} (C : Clients) (o : Settings) (b : Broker M C.State) where
  module _ (presented client : String) (q : Call) (rec : TokenRecord)
      (found : get_token_by_refresh b.store presented ≡ some rec)
      (live : is_some rec.rotated_at ≡ false) where
    module _ (i : Install) (bound : get_install b.store rec.tenant_id rec.install_id ≡ some i)
        (running : i.status ≡ active) (same : client ≢ "" → client ≡ i.client_id) where
      refresh_granted-RefreshEffect :
          (p : Persona) (access : String) (out : C.State × Bool)
          → o.sign (refresh_claims rec i p q (ttl_of o p)) ≡ some access
          → RefreshEffect C o b presented client q (refresh_granted C o b rec p q access out)
      refresh_granted-RefreshEffect p access (services, true) e =
          rotated rec i p access found live bound running same e
      refresh_granted-RefreshEffect p access (services, false) e = kept tt

      refresh_signed-RefreshEffect :
          (p : Persona) (access : Option String)
          → o.sign (refresh_claims rec i p q (ttl_of o p)) ≡ access
          → RefreshEffect C o b presented client q (refresh_signed C o b rec p q access)
      refresh_signed-RefreshEffect p none e = kept tt
      refresh_signed-RefreshEffect p (some access) e = refresh_granted-RefreshEffect p access _ e

      refresh_persona-RefreshEffect :
          (p : Answer Persona)
          → RefreshEffect C o b presented client q (refresh_persona C o b rec i q p)
      refresh_persona-RefreshEffect refused = kept tt
      refresh_persona-RefreshEffect unavailable = kept tt
      refresh_persona-RefreshEffect (given p) = refresh_signed-RefreshEffect p _ refl

    refresh_install-RefreshEffect :
        (i : Option Install)
        → get_install b.store rec.tenant_id rec.install_id ≡ i
        → RefreshEffect C o b presented client q (refresh_install C o b rec client q i)
    refresh_install-RefreshEffect none e = kept tt
    refresh_install-RefreshEffect (some i) e = elim (status_cases i.status) [
      | inl other ↦ rw other (kept tt)
      | inr running ↦
          elim (Bool-cases (not (str_eq client "") && not (str_eq client i.client_id))) [
            | inl other ↦ rw (ap is_active running, other) (kept tt)
            | inr same ↦
                rw (ap is_active running, same)
                  (refresh_persona-RefreshEffect i e running (named_client client i.client_id same)
                    _)
          ]
    ]

  replay_install-cut :
      (q : Call) (i : Option Install)
      → replay_install C o b q i ≡ record b { store = cut_install b.store (q.clock revocation) i }
  replay_install-cut q none = refl
  replay_install-cut q (some i) = go i.status refl
    where
      go :
          (st : InstallStatus)
          → i.status ≡ st
          → replay_install C o b q (some i)
            ≡ record b { store = cut_install b.store (q.clock revocation) (some i) }
      go pending e = rw e refl
      go active e = rw e refl
      go revoked e = rw e refl

  identity_of-held :
      (rec : TokenRecord) (i : Option Install) → identity_of rec i ≡ held_identity rec.identity_id i
  identity_of-held rec none = refl
  identity_of-held rec (some i) = refl

  replay-IsCutOff :
      (rec : TokenRecord) (q : Call) → IsCutOff C o b rec q (revoke_install_for_replay C o b rec q)
  unfolding revoke_install_for_replay
  replay-IsCutOff rec q =
      let found = get_install b.store rec.tenant_id rec.install_id in
      rw (replay_install-cut q found, identity_of-held rec found)
        (record { store = refl; services = refl })

  refresh_found-RefreshEffect :
      (presented client : String) (q : Call) (found : Option TokenRecord)
      → get_token_by_refresh b.store presented ≡ found
      → RefreshEffect C o b presented client q (refresh_found C o b client q found)
  refresh_found-RefreshEffect presented client q none e = kept tt
  refresh_found-RefreshEffect presented client q (some rec) e =
      elim (Bool-cases (is_some rec.rotated_at)) [
        | inl again ↦ rw again (replayed rec e again (replay-IsCutOff rec q))
        | inr live ↦ rw live (refresh_install-RefreshEffect presented client q rec e live _ refl)
      ]

  pub handle_refresh_grant-RefreshEffect :
      (presented client : String) (q : Call)
      → RefreshEffect C o b presented client q (handle_refresh_grant C o b presented client q)
  unfolding handle_refresh_grant
  handle_refresh_grant-RefreshEffect presented client q = elim (Bool-cases (str_eq presented "")) [
    | inl blank ↦ rw blank (kept tt)
    | inr some_token ↦ rw some_token (refresh_found-RefreshEffect presented client q _ refl)
  ]
