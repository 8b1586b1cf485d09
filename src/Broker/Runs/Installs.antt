-- ===== src/Broker/Runs/Installs.antt =====
-- What a step of the broker does to the stored installs.
use x_auth_site.Base.{
  ◌⊎◌, inl, inr, ℕ, Option-cases, ◌≡◌, refl, String, not, Bool-cases, Option, none, some, str_eq,
}
use x_auth_site.Base.Dict.{Dict, lookup, insert}
use x_auth_site.Broker.Store.{
  revoked, get_install, Install, valid_runtime, TokenRecord, put_token, delete_token,
  delete_tokens_for_install, purge_expired, create_install, update_install, owned_install,
  put_auth_code, put_client, MemStorage,
}
use x_auth_site.Broker.Clients.{Clients}
use x_auth_site.Broker.Calls.{revocation, install, Broker, Reply, Call, is_revoked}
use x_auth_site.Broker.Endpoints.{
  AuthorizeQuery, authorization_code, refresh_token, other_grant, authorize_checked, authorize,
  token, revoke, revoke_found, register, handle_create_install, install_checked,
  handle_revoke_install, revoke_install_found, CreateInstallRequest, AuthorizeReply,
}
use x_auth_site.Broker.Refresh.{revoke_install_for_replay}
use x_auth_site.Broker.Effects.Codes.{
  CodeEffect, malformed, unknown, burnt, abandoned, issued, handle_code_grant-CodeEffect,
}
use x_auth_site.Broker.Effects.Refreshes.{
  RefreshEffect, kept, replayed, rotated, handle_refresh_grant-RefreshEffect,
}
use x_auth_site.Broker.Runs.{
  Request, authorizing, granting, revoking, registering, creating, revoking_install, sweeping,
  Surroundings, new_install_id, step,
}

-- A step stores installs under their ids, each one new or revoked.
pub data InstallChange (fresh : Option String) (m : Dict Install) : Dict Install → Type 0 where
  same_installs : InstallChange fresh m m
  stored :
      {m' : Dict Install} (i : Install)
      → (fresh ≡ some i.id) ⊎ (i.status ≡ revoked)
      → InstallChange fresh m m'
      → InstallChange fresh m (insert i.id i m')

update_install-InstallChange :
    {M : Type 0} (fresh : Option String) (m : Dict Install) (s : MemStorage M) (i : Install)
    (now : ℕ)
    → (fresh ≡ some i.id) ⊎ (i.status ≡ revoked)
    → InstallChange fresh m s.installs
    → InstallChange fresh m (update_install s i now).installs
unfolding update_install
update_install-InstallChange fresh m s i now h change =
    elim (Option-cases (owned_install i.tenant_id (lookup i.id s.installs))) [
      | inl e ↦ rw e change
      | inr (j, e) ↦
          rw e (stored (record i { created_at = j.created_at; updated_at = now }) h change)
    ]

module _ {M : Type 0} (C : Clients) (o : Surroundings) (b : Broker M C.State) where
  code-InstallChange :
      (fresh : Option String) (code client verifier : String) (q : Call)
      (out : Broker M C.State × Reply)
      → fresh ≡ some (q.fresh install)
      → CodeEffect C o.settings b code client verifier q out
      → InstallChange fresh b.store.installs out.0.store.installs
  unfolding put_token create_install
  code-InstallChange fresh code client verifier q _ e (malformed x) = same_installs
  code-InstallChange fresh code client verifier q _ e (unknown x) = same_installs
  code-InstallChange fresh code client verifier q _ e (burnt ac x y z) = same_installs
  code-InstallChange fresh code client verifier q _ e (abandoned ac x y z) =
      update_install-InstallChange fresh b.store.installs _ _ _ (inl e)
        (stored _ (inl e) same_installs)
  code-InstallChange fresh code client verifier q _ e (issued ac i p access x y z) =
      update_install-InstallChange fresh b.store.installs _ _ _ (inl e)
        (stored _ (inl e) same_installs)

  replay-InstallChange :
      (fresh : Option String) (rec : TokenRecord) (q : Call)
      → InstallChange fresh b.store.installs
          (revoke_install_for_replay C o.settings b rec q).store.installs
  unfolding revoke_install_for_replay delete_tokens_for_install
  replay-InstallChange fresh rec q =
      elim (Option-cases (get_install b.store rec.tenant_id rec.install_id)) [
        | inl e ↦ rw e same_installs
        | inr (i, e) ↦ elim (Bool-cases (is_revoked i.status)) [
          | inl r ↦ rw (e, r) same_installs
          | inr r ↦
              rw (e, r)
                (update_install-InstallChange fresh b.store.installs _ _ _ (inr refl) same_installs)
        ]
      ]

  refresh-InstallChange :
      (fresh : Option String) (presented client : String) (q : Call)
      (out : Broker M C.State × Reply)
      → RefreshEffect C o.settings b presented client q out
      → InstallChange fresh b.store.installs out.0.store.installs
  unfolding put_token
  refresh-InstallChange fresh presented client q _ (kept x) = same_installs
  refresh-InstallChange fresh presented client q _ (replayed rec x y _) =
      replay-InstallChange fresh rec q
  refresh-InstallChange fresh presented client q _ (rotated rec i p access x y z w v u) =
      same_installs

  checked-InstallChange :
      (fresh : Option String) (tenant : String) (r : CreateInstallRequest) (id : String) (now : ℕ)
      → fresh ≡ some id
      → InstallChange fresh b.store.installs
          (install_checked C o.trim b tenant r id now).0.store.installs
  unfolding create_install
  checked-InstallChange fresh tenant r id now e =
      elim (Bool-cases (not (valid_runtime (o.trim r.runtime)))) [
        | inl bad ↦ rw bad same_installs
        | inr good ↦ elim (Bool-cases (str_eq (o.trim r.persona_id) "")) [
          | inl bad ↦ rw (good, bad) same_installs
          | inr persona ↦ elim (Bool-cases (str_eq (o.trim r.client_id) "")) [
            | inl bad ↦ rw (good, persona, bad) same_installs
            | inr client ↦ rw (good, persona, client) (stored _ (inl e) same_installs)
          ]
        ]
      ]

  created-InstallChange :
      (fresh tenant : Option String) (body : Option CreateInstallRequest) (id : String) (now : ℕ)
      → fresh ≡ some id
      → InstallChange fresh b.store.installs
          (handle_create_install C o.trim b tenant body id now).0.store.installs
  unfolding handle_create_install
  created-InstallChange fresh none body id now e = same_installs
  created-InstallChange fresh (some tenant) none id now e = same_installs
  created-InstallChange fresh (some tenant) (some r) id now e =
      checked-InstallChange fresh tenant r id now e

  revoked-InstallChange :
      (fresh : Option String) (tenant id : String) (q : Call) (i : Option Install)
      → InstallChange fresh b.store.installs
          (revoke_install_found C b tenant id q i).0.store.installs
  revoked-InstallChange fresh tenant id q none = same_installs
  revoked-InstallChange fresh tenant id q (some i) = elim (Bool-cases (is_revoked i.status)) [
    | inl r ↦ rw r same_installs
    | inr r ↦ rw r (
        update_install-InstallChange fresh b.store.installs b.store (record i { status = revoked })
          (q.clock revocation) (inr refl) same_installs)
  ]

  authorized-InstallChange :
      (fresh : Option String) (a : AuthorizeQuery) (code : String) (now : ℕ)
      (e : Option AuthorizeReply)
      → InstallChange fresh b.store.installs (authorize_checked C b a code now e).0.store.installs
  unfolding put_auth_code
  authorized-InstallChange fresh a code now none = same_installs
  authorized-InstallChange fresh a code now (some e) = same_installs

  token_revoked-InstallChange :
      (fresh : Option String) (t : String) (found : Option TokenRecord)
      → InstallChange fresh b.store.installs (revoke_found C b t found).store.installs
  unfolding delete_token
  token_revoked-InstallChange fresh t none = same_installs
  token_revoked-InstallChange fresh t (some rec) = same_installs

  pub step-InstallChange :
      (r : Request M)
      → InstallChange (new_install_id r) b.store.installs (step C o b r).store.installs
  unfolding authorize token revoke register handle_create_install handle_revoke_install
      put_auth_code put_client create_install delete_token purge_expired
  step-InstallChange (authorizing a code now) = authorized-InstallChange _ a code now _
  step-InstallChange (granting none q) = same_installs
  step-InstallChange (granting (some (authorization_code code client verifier)) q) =
      code-InstallChange _ code client verifier q _ refl
        (handle_code_grant-CodeEffect C o.settings b code client verifier q)
  step-InstallChange (granting (some (refresh_token presented client)) q) =
      refresh-InstallChange none presented client q _
        (handle_refresh_grant-RefreshEffect C o.settings b presented client q)
  step-InstallChange (granting (some other_grant) q) = same_installs
  step-InstallChange (revoking none) = same_installs
  step-InstallChange (revoking (some t)) = elim (Bool-cases (str_eq t "")) [
    | inl blank ↦ rw (step, blank) same_installs
    | inr some_token ↦ rw (step, some_token) (token_revoked-InstallChange _ t _)
  ]
  step-InstallChange (registering m id secret now) = same_installs
  step-InstallChange (creating tenant body id now) = created-InstallChange _ tenant body id now refl
  step-InstallChange (revoking_install none id q) = same_installs
  step-InstallChange (revoking_install (some tenant) id q) = elim (Bool-cases (str_eq id "")) [
    | inl blank ↦ rw (step, blank) same_installs
    | inr some_id ↦ rw (step, some_id) (revoked-InstallChange _ tenant id q _)
  ]
  step-InstallChange (sweeping now) = same_installs
