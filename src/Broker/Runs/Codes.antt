-- ===== src/Broker/Runs/Codes.antt =====
-- What a step of the broker does to the stored authorization codes.
use x_auth_site.Base.{
  inl, inr, ℕ, Option-cases, ◌≡◌, refl, String, Bool, not, Bool-cases, Option, none, some, str_eq,
}
use x_auth_site.Base.Dict.{Dict, lookup, insert, delete, keep_if}
use x_auth_site.Broker.Store.{
  AuthCode, get_install, Install, valid_runtime, TokenRecord, put_token, delete_token,
  delete_tokens_for_install, purge_expired, create_install, update_install, owned_install,
  put_auth_code, put_client, MemStorage,
}
use x_auth_site.Broker.Clients.{Clients}
use x_auth_site.Broker.Calls.{Broker, Reply, Call, is_revoked}
use x_auth_site.Broker.Endpoints.{
  AuthorizeQuery, authorization_code, refresh_token, other_grant, authorize_checked, authorize,
  token, revoke, revoke_found, register, handle_create_install, install_checked,
  handle_revoke_install, revoke_install_found, CreateInstallRequest, AuthorizeReply,
}
use x_auth_site.Broker.Refresh.{revoke_install_for_replay}
use x_auth_site.Broker.Effects.Codes.{
  CodeEffect, malformed, unknown, burnt, abandoned, issued, handle_code_grant-CodeEffect,
}
use x_auth_site.Broker.Effects.Refreshes.{
  RefreshEffect, kept, replayed, rotated, handle_refresh_grant-RefreshEffect,
}
use x_auth_site.Broker.Runs.{
  Request, authorizing, granting, revoking, registering, creating, revoking_install, sweeping,
  Surroundings, new_code, step,
}

-- A step keeps the codes, spends one, drops some, or stores a new one.
pub data CodeChange (new : Option String) (m : Dict AuthCode) : Dict AuthCode → Type 0 where
  same_codes : CodeChange new m m
  spent : (k : String) → CodeChange new m (delete k m)
  swept : (p : AuthCode → Bool) → CodeChange new m (keep_if p m)
  minted : (ac : AuthCode) → new ≡ some ac.code → CodeChange new m (insert ac.code ac m)

pub update_install-codes :
    {M : Type 0} (s : MemStorage M) (i : Install) (now : ℕ)
    → (update_install s i now).codes ≡ s.codes
unfolding update_install
update_install-codes s i now =
    elim (Option-cases (owned_install i.tenant_id (lookup i.id s.installs))) [
      | inl e ↦ rw e refl
      | inr (j, e) ↦ rw e refl
    ]

module _ {M : Type 0} (C : Clients) (o : Surroundings) (b : Broker M C.State) where
  code-CodeChange :
      (new : Option String) (code client verifier : String) (q : Call)
      (out : Broker M C.State × Reply)
      → CodeEffect C o.settings b code client verifier q out
      → CodeChange new b.store.codes out.0.store.codes
  unfolding put_token create_install
  code-CodeChange new code client verifier q _ (malformed x) = same_codes
  code-CodeChange new code client verifier q _ (unknown x) = same_codes
  code-CodeChange new code client verifier q _ (burnt ac x y z) = spent code
  code-CodeChange new code client verifier q _ (abandoned ac x y z) =
      rw update_install-codes (spent code)
  code-CodeChange new code client verifier q _ (issued ac i p access x y z) =
      rw update_install-codes (spent code)

  revoke_install_for_replay-codes :
      (rec : TokenRecord) (q : Call)
      → (revoke_install_for_replay C o.settings b rec q).store.codes ≡ b.store.codes
  unfolding revoke_install_for_replay delete_tokens_for_install
  revoke_install_for_replay-codes rec q =
      elim (Option-cases (get_install b.store rec.tenant_id rec.install_id)) [
        | inl e ↦ rw e refl
        | inr (i, e) ↦ elim (Bool-cases (is_revoked i.status)) [
          | inl r ↦ rw (e, r) refl
          | inr r ↦ rw (e, r, update_install-codes) refl
        ]
      ]

  refresh-CodeChange :
      (new : Option String) (presented client : String) (q : Call) (out : Broker M C.State × Reply)
      → RefreshEffect C o.settings b presented client q out
      → CodeChange new b.store.codes out.0.store.codes
  unfolding put_token
  refresh-CodeChange new presented client q _ (kept x) = same_codes
  refresh-CodeChange new presented client q _ (replayed rec x y _) =
      rw revoke_install_for_replay-codes same_codes
  refresh-CodeChange new presented client q _ (rotated rec i p access x y z w v u) = same_codes

  checked-CodeChange :
      (new : Option String) (tenant : String) (r : CreateInstallRequest) (id : String) (now : ℕ)
      → CodeChange new b.store.codes (install_checked C o.trim b tenant r id now).0.store.codes
  unfolding create_install
  checked-CodeChange new tenant r id now =
      elim (Bool-cases (not (valid_runtime (o.trim r.runtime)))) [
        | inl bad ↦ rw bad same_codes
        | inr good ↦ elim (Bool-cases (str_eq (o.trim r.persona_id) "")) [
          | inl bad ↦ rw (good, bad) same_codes
          | inr persona ↦ elim (Bool-cases (str_eq (o.trim r.client_id) "")) [
            | inl bad ↦ rw (good, persona, bad) same_codes
            | inr client ↦ rw (good, persona, client) same_codes
          ]
        ]
      ]

  created-CodeChange :
      (new tenant : Option String) (body : Option CreateInstallRequest) (id : String) (now : ℕ)
      → CodeChange new b.store.codes
          (handle_create_install C o.trim b tenant body id now).0.store.codes
  unfolding handle_create_install
  created-CodeChange new none body id now = same_codes
  created-CodeChange new (some tenant) none id now = same_codes
  created-CodeChange new (some tenant) (some r) id now = checked-CodeChange new tenant r id now

  revoked-CodeChange :
      (new : Option String) (tenant id : String) (q : Call) (i : Option Install)
      → CodeChange new b.store.codes (revoke_install_found C b tenant id q i).0.store.codes
  revoked-CodeChange new tenant id q none = same_codes
  revoked-CodeChange new tenant id q (some i) = elim (Bool-cases (is_revoked i.status)) [
    | inl r ↦ rw r same_codes
    | inr r ↦ rw (r, update_install-codes) same_codes
  ]

  authorized-CodeChange :
      (a : AuthorizeQuery) (code : String) (now : ℕ) (e : Option AuthorizeReply)
      → CodeChange (some code) b.store.codes (authorize_checked C b a code now e).0.store.codes
  unfolding put_auth_code
  authorized-CodeChange a code now none = minted _ refl
  authorized-CodeChange a code now (some e) = same_codes

  token_revoked-CodeChange :
      (new : Option String) (t : String) (found : Option TokenRecord)
      → CodeChange new b.store.codes (revoke_found C b t found).store.codes
  unfolding delete_token
  token_revoked-CodeChange new t none = same_codes
  token_revoked-CodeChange new t (some rec) = same_codes

  pub step-CodeChange :
      (r : Request M) → CodeChange (new_code r) b.store.codes (step C o b r).store.codes
  unfolding authorize token revoke register handle_create_install handle_revoke_install
      put_auth_code put_client create_install delete_token purge_expired
  step-CodeChange (authorizing a code now) = authorized-CodeChange a code now _
  step-CodeChange (granting none q) = same_codes
  step-CodeChange (granting (some (authorization_code code client verifier)) q) =
      code-CodeChange _ code client verifier q _
        (handle_code_grant-CodeEffect C o.settings b code client verifier q)
  step-CodeChange (granting (some (refresh_token presented client)) q) =
      refresh-CodeChange none presented client q _
        (handle_refresh_grant-RefreshEffect C o.settings b presented client q)
  step-CodeChange (granting (some other_grant) q) = same_codes
  step-CodeChange (revoking none) = same_codes
  step-CodeChange (revoking (some t)) = elim (Bool-cases (str_eq t "")) [
    | inl blank ↦ rw (step, blank) same_codes
    | inr some_token ↦ rw (step, some_token) (token_revoked-CodeChange _ t _)
  ]
  step-CodeChange (registering m id secret now) = same_codes
  step-CodeChange (creating tenant body id now) = created-CodeChange _ tenant body id now
  step-CodeChange (revoking_install none id q) = same_codes
  step-CodeChange (revoking_install (some tenant) id q) = elim (Bool-cases (str_eq id "")) [
    | inl blank ↦ rw (step, blank) same_codes
    | inr some_id ↦ rw (step, some_id) (revoked-CodeChange _ tenant id q _)
  ]
  step-CodeChange (sweeping now) = swept _
