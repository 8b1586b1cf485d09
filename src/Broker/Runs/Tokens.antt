-- ===== src/Broker/Runs/Tokens.antt =====
-- What a step of the broker does to the stored tokens.
use x_auth_site.Base.{
  inl, inr, ℕ, Option-cases, ◌≡◌, refl, String, Bool, false, not, Bool-cases, Option, none, some,
  is_some, str_eq,
}
use x_auth_site.Base.Dict.{Dict, lookup, insert, delete, keep_if}
use x_auth_site.Broker.Store.{
  of_install, get_install, Install, valid_runtime, TokenRecord, get_token_by_refresh, put_token,
  delete_token, delete_tokens_for_install, purge_expired, create_install, update_install,
  owned_install, put_auth_code, put_client, MemStorage,
}
use x_auth_site.Broker.Clients.{Clients}
use x_auth_site.Broker.Calls.{install, Broker, Reply, Call, is_revoked}
use x_auth_site.Broker.Endpoints.{
  AuthorizeQuery, authorization_code, refresh_token, other_grant, authorize_checked, authorize,
  token, revoke, revoke_found, register, handle_create_install, install_checked,
  handle_revoke_install, revoke_install_found, CreateInstallRequest, AuthorizeReply,
}
use x_auth_site.Broker.Refresh.{revoke_install_for_replay}
use x_auth_site.Broker.Effects.Codes.{
  CodeEffect, malformed, unknown, burnt, abandoned, issued, handle_code_grant-CodeEffect,
}
use x_auth_site.Broker.Effects.Refreshes.{
  RefreshEffect, kept, replayed, rotated, handle_refresh_grant-RefreshEffect,
}
use x_auth_site.Broker.Runs.{
  Request, authorizing, granting, revoking, registering, creating, revoking_install, sweeping,
  Surroundings, new_install_id, step,
}

-- A step keeps the tokens, drops some, adds the first token of a new install, or rotates a live one.
pub data TokenChange {M : Type 0} (fresh : Option String) (s : MemStorage M)
    : Dict TokenRecord → Type 0 where
  unchanged : TokenChange fresh s s.tokens
  dropped : (p : TokenRecord → Bool) → TokenChange fresh s (keep_if p s.tokens)
  deleted : (k : String) → TokenChange fresh s (delete k s.tokens)
  first_issued :
      (t : TokenRecord)
      → fresh ≡ some t.install_id
      → TokenChange fresh s (insert t.access_token t s.tokens)
  renewed :
      (presented : String) (old t : TokenRecord) (now : ℕ)
      → get_token_by_refresh s presented ≡ some old
      → is_some old.rotated_at ≡ false
      → t.install_id ≡ old.install_id
      → TokenChange fresh s (
          insert t.access_token t
            (insert old.access_token (record old { rotated_at = some now }) s.tokens))

pub update_install-tokens :
    {M : Type 0} (s : MemStorage M) (i : Install) (now : ℕ)
    → (update_install s i now).tokens ≡ s.tokens
unfolding update_install
update_install-tokens s i now =
    elim (Option-cases (owned_install i.tenant_id (lookup i.id s.installs))) [
      | inl e ↦ rw e refl
      | inr (j, e) ↦ rw e refl
    ]

module _ {M : Type 0} (C : Clients) (b : Broker M C.State) where
  revoke_install_found-tokens :
      (tenant id : String) (q : Call) (i : Option Install)
      → (revoke_install_found C b tenant id q i).0.store.tokens ≡ b.store.tokens
  revoke_install_found-tokens tenant id q none = refl
  revoke_install_found-tokens tenant id q (some i) = elim (Bool-cases (is_revoked i.status)) [
    | inl r ↦ rw r refl
    | inr r ↦ rw (r, update_install-tokens) refl
  ]

  pub revoke_install-tokens :
      (tenant : Option String) (id : String) (q : Call)
      → (handle_revoke_install C b tenant id q).0.store.tokens ≡ b.store.tokens
  unfolding handle_revoke_install
  revoke_install-tokens none id q = refl
  revoke_install-tokens (some tenant) id q = elim (Bool-cases (str_eq id "")) [
    | inl blank ↦ rw blank refl
    | inr some_id ↦ rw some_id (revoke_install_found-tokens tenant id q _)
  ]

module _ {M : Type 0} (C : Clients) (o : Surroundings) (b : Broker M C.State) where
  code-TokenChange :
      (fresh : Option String) (code client verifier : String) (q : Call)
      (out : Broker M C.State × Reply)
      → fresh ≡ some (q.fresh install)
      → CodeEffect C o.settings b code client verifier q out
      → TokenChange fresh b.store out.0.store.tokens
  unfolding put_token create_install
  code-TokenChange fresh code client verifier q _ e (malformed x) = unchanged
  code-TokenChange fresh code client verifier q _ e (unknown x) = unchanged
  code-TokenChange fresh code client verifier q _ e (burnt ac x y z) = unchanged
  code-TokenChange fresh code client verifier q _ e (abandoned ac x y z) =
      rw update_install-tokens unchanged
  code-TokenChange fresh code client verifier q _ e (issued ac i p access x y z) =
      rw update_install-tokens (first_issued _ e)

  pub revoke_install_for_replay-tokens :
      (rec : TokenRecord) (q : Call)
      → (revoke_install_for_replay C o.settings b rec q).store.tokens
        ≡ keep_if (λ t. not (of_install rec.install_id t)) b.store.tokens
  unfolding revoke_install_for_replay delete_tokens_for_install
  revoke_install_for_replay-tokens rec q =
      elim (Option-cases (get_install b.store rec.tenant_id rec.install_id)) [
        | inl e ↦ rw e refl
        | inr (i, e) ↦ elim (Bool-cases (is_revoked i.status)) [
          | inl r ↦ rw (e, r) refl
          | inr r ↦ rw (e, r, update_install-tokens) refl
        ]
      ]

  refresh-TokenChange :
      (fresh : Option String) (presented client : String) (q : Call)
      (out : Broker M C.State × Reply)
      → RefreshEffect C o.settings b presented client q out
      → TokenChange fresh b.store out.0.store.tokens
  unfolding put_token
  refresh-TokenChange fresh presented client q _ (kept x) = unchanged
  refresh-TokenChange fresh presented client q _ (replayed rec x y _) =
      rw revoke_install_for_replay-tokens (dropped _)
  refresh-TokenChange fresh presented client q _ (rotated rec i p access x y z w v u) =
      renewed presented rec _ _ x y refl

  checked-TokenChange :
      (fresh : Option String) (tenant : String) (r : CreateInstallRequest) (id : String) (now : ℕ)
      → TokenChange fresh b.store (install_checked C o.trim b tenant r id now).0.store.tokens
  unfolding create_install
  checked-TokenChange fresh tenant r id now =
      elim (Bool-cases (not (valid_runtime (o.trim r.runtime)))) [
        | inl bad ↦ rw bad unchanged
        | inr good ↦ elim (Bool-cases (str_eq (o.trim r.persona_id) "")) [
          | inl bad ↦ rw (good, bad) unchanged
          | inr persona ↦ elim (Bool-cases (str_eq (o.trim r.client_id) "")) [
            | inl bad ↦ rw (good, persona, bad) unchanged
            | inr client ↦ rw (good, persona, client) unchanged
          ]
        ]
      ]

  created-TokenChange :
      (fresh tenant : Option String) (body : Option CreateInstallRequest) (id : String) (now : ℕ)
      → TokenChange fresh b.store
          (handle_create_install C o.trim b tenant body id now).0.store.tokens
  unfolding handle_create_install
  created-TokenChange fresh none body id now = unchanged
  created-TokenChange fresh (some tenant) none id now = unchanged
  created-TokenChange fresh (some tenant) (some r) id now =
      checked-TokenChange fresh tenant r id now

  authorized-TokenChange :
      (fresh : Option String) (a : AuthorizeQuery) (code : String) (now : ℕ)
      (e : Option AuthorizeReply)
      → TokenChange fresh b.store (authorize_checked C b a code now e).0.store.tokens
  unfolding put_auth_code
  authorized-TokenChange fresh a code now none = unchanged
  authorized-TokenChange fresh a code now (some e) = unchanged

  token_revoked-TokenChange :
      (fresh : Option String) (t : String) (found : Option TokenRecord)
      → TokenChange fresh b.store (revoke_found C b t found).store.tokens
  unfolding delete_token
  token_revoked-TokenChange fresh t none = unchanged
  token_revoked-TokenChange fresh t (some rec) = deleted t

  pub step-TokenChange :
      (r : Request M) → TokenChange (new_install_id r) b.store (step C o b r).store.tokens
  unfolding authorize token revoke register handle_create_install handle_revoke_install
      put_auth_code put_client create_install delete_token purge_expired
  step-TokenChange (authorizing a code now) = authorized-TokenChange _ a code now _
  step-TokenChange (granting none q) = unchanged
  step-TokenChange (granting (some (authorization_code code client verifier)) q) =
      code-TokenChange _ code client verifier q _ refl
        (handle_code_grant-CodeEffect C o.settings b code client verifier q)
  step-TokenChange (granting (some (refresh_token presented client)) q) =
      refresh-TokenChange none presented client q _
        (handle_refresh_grant-RefreshEffect C o.settings b presented client q)
  step-TokenChange (granting (some other_grant) q) = unchanged
  step-TokenChange (revoking none) = unchanged
  step-TokenChange (revoking (some t)) = elim (Bool-cases (str_eq t "")) [
    | inl blank ↦ rw (step, blank) unchanged
    | inr some_token ↦ rw (step, some_token) (token_revoked-TokenChange _ t _)
  ]
  step-TokenChange (registering m id secret now) = unchanged
  step-TokenChange (creating tenant body id now) = created-TokenChange _ tenant body id now
  step-TokenChange (revoking_install tenant id q) =
      rw (step, revoke_install-tokens C b tenant id q) unchanged
  step-TokenChange (sweeping now) = dropped _
