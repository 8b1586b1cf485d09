-- ===== src/Grants/Issued.antt =====
-- What `CreateGrant` (handlers.go) leaves behind, if it refuses or issues.
pub mod Shown
use mathlib.Core.Path.{subst}
use x_auth_site.Base.{
  ℕ, ◌+◌, ◌*◌, ◌≤◌, ◌<◌, ◌==◌, ◌≡◌, refl, sym, ap, ◌∙◌, ◌≢◌, ◌⊎◌, inl, inr, String, Bool, true,
  false, not, Option, none, some, [], ◌∷◌, ◌++◌, arith, ltb, str_eq, str_eq_iff, str_eq_ne,
  Bool-cases, Option-cases, some_inj,
}
use x_auth_site.Base.Dict.{lookup, insert}
use x_auth_site.Base.Dict.Laws.{lookup-insert, lookup-insert_self}
use x_auth_site.Base.Int.{ℤ, pos, negsuc}
use x_auth_site.Grants.Store.{
  Grant, active, unset, MemGrantStore, Handlers, create, append, derive_status, is_past,
  with_status, find_by_access_token_hash,
}
use x_auth_site.Grants.Revocation.{IsValid, create-IsValid}
use x_auth_site.Grants.Tokens.{hash_token, introspect, introspect_resolved, introspected}
use x_auth_site.Grants.Introspection.{Found, find-Found, found_if_stored}
use x_auth_site.Grants.Requests.{
  IsTtl, ttl_of-IsTtl, IsDigest, IsChecked, request_error-IsChecked, IsGrantable,
  error-not_IsGrantable, ttl_none-not_IsGrantable,
}
use x_auth_site.Grants.Issuing.{
  max_ttl_seconds, second, CreateGrantRequest, Body, decoded, CreateError, CreateReply, refused,
  created, invalid_ttl_seconds, refuse_if, ttl_of, is_token_hash, request_error, new_grant,
  issued_event, create_checked, create_decoded, create_grant,
}

module _ (trim : String → String) (len : String → ℕ) (hex_decodes : String → Bool)
    (show_time : ℕ → String) where
  abbrev pub create_with :
      Handlers
      → String
      → String
      → Option String
      → Body CreateGrantRequest
      → ℕ
      → Handlers × CreateReply
  create_with = create_grant trim len hex_decodes show_time

  -- The grant that was answered, and what was stored and logged for it.
  pub record IsIssued (h : Handlers) (id uuid tenant : String) (req : CreateGrantRequest) (now : ℕ)
      (h' : Handlers) (g : Grant) : Type 0 where
    pub stored : h'.grants ≡ insert id (record g { status = unset }) h.grants
    pub named : g.id ≡ id
    pub of_tenant : g.tenant_id ≡ tenant
    pub for_install : (g.install_id ≡ trim req.install_id) × (g.install_id ≢ "")
    pub for_identity : (g.identity_id ≡ trim req.identity_id) × (g.identity_id ≢ "")
    pub for_persona : (g.persona_id ≡ trim req.persona_id) × (g.persona_id ≢ "")
    pub same_hash : g.access_token_hash ≡ trim req.access_token_hash
    pub hashed : IsDigest trim len hex_decodes show_time g.access_token_hash
    pub same_refresh : g.refresh_token_hash ≡ trim req.refresh_token_hash
    pub refresh_hashed :
        (g.refresh_token_hash ≡ "") ⊎ IsDigest trim len hex_decodes show_time g.refresh_token_hash
    pub issued : g.issued_at ≡ now
    pub ttl : ℕ
    pub within : IsTtl req.ttl_seconds ttl
    pub expires : g.expires_at ≡ some (now + ttl * second)
    pub logged :
        h'.audit
        ≡ h.audit
          ++ record {
            id = uuid;
            tenant_id = tenant;
            event_type = "grant_issued";
            actor = "system";
            install_id = trim req.install_id;
            grant_id = id;
            payload =
                ("persona_id", trim req.persona_id)
                ∷ ("identity_id", trim req.identity_id)
                ∷ ("expires_at", show_time (now + ttl * second))
                ∷ [];
            created_at = now;
          }
            ∷ []
    pub unrevoked : g.revoked_at ≡ none
    pub active_now : g.status ≡ active

  -- A request that may not be granted is refused, and then nothing has changed, or its grant is issued.
  abbrev pub CreateEffect :
      Handlers → String → String → String → CreateGrantRequest → ℕ → Handlers × CreateReply → Type 0
  CreateEffect h id uuid tenant req now out =
      ((e : CreateError) × (out ≡ (h, refused e))
        × (¬ IsGrantable trim len hex_decodes show_time req))
      ⊎ ((g : Grant) × (out.1 ≡ created g) × IsIssued h id uuid tenant req now out.0 g)

  new_active :
      (x : Grant) (now ttl : ℕ)
      → 0 < ttl
      → x.revoked_at ≡ none
      → x.expires_at ≡ some (now + ttl * second)
      → derive_status x now ≡ active
  unfolding derive_status
  new_active x now ttl p live e =
      let early : ltb now (now + ttl * second) ≡ true = ground (arith, p) in
      rw (live, e) (rw early refl)

  create_checked-CreateEffect :
      (h : Handlers) (id uuid tenant : String) (req : CreateGrantRequest) (now : ℕ) (o : Option ℕ)
      → ttl_of req.ttl_seconds ≡ o
      → IsChecked trim len hex_decodes show_time req
      → CreateEffect h id uuid tenant req now
          (create_checked trim len hex_decodes show_time h id uuid tenant req now o)
  unfolding create append
  create_checked-CreateEffect h id uuid tenant req now none e c =
      inl (invalid_ttl_seconds, refl, ttl_none-not_IsGrantable trim len hex_decodes show_time req e)
  create_checked-CreateEffect h id uuid tenant req now (some ttl) e c =
      let within = ttl_of-IsTtl req.ttl_seconds ttl e in
      let x = new_grant trim len hex_decodes show_time id tenant req ttl now in
      inr (
        with_status now x,
        refl,
        record {
          stored = refl;
          logged = refl;
          named = refl;
          of_tenant = refl;
          for_install = (refl, c.install);
          for_identity = (refl, c.identity);
          for_persona = (refl, c.persona);
          same_hash = refl;
          hashed = c.access;
          same_refresh = refl;
          refresh_hashed = c.refresh;
          issued = refl;
          ttl = ttl;
          within = within;
          expires = refl;
          unrevoked = refl;
          active_now = new_active x now ttl within.positive refl refl;
        },
      )

  -- A request to create a grant, of a tenant and with a body that decodes, is refused or granted. It is
  -- refused only if an id is blank, the access token's hash is not 64 hex digits, the refresh token's
  -- hash is neither empty nor so, or the lifetime is negative or over a day; the grants and the audit log then
  -- stay as they are. Otherwise the grant is stored under its id with the ids and hashes of the
  -- request, trimmed, and its expiry after the seconds asked for, or 900 if 0 were; the answer is
  -- that grant, active, and one audit event that describes it is appended.
  pub create_grant-CreateEffect :
      (h : Handlers) (id uuid tenant : String) (req : CreateGrantRequest) (now : ℕ)
      → CreateEffect h id uuid tenant req now
          (create_with h id uuid (some tenant) (decoded req) now)
  unfolding create_grant
  create_grant-CreateEffect h id uuid tenant req now =
      go (request_error trim len hex_decodes show_time req) refl
    where
      go :
          (o : Option CreateError)
          → request_error trim len hex_decodes show_time req ≡ o
          → CreateEffect h id uuid tenant req now
              (create_decoded trim len hex_decodes show_time h id uuid tenant req now o)
      go (some e) q = inl (e, refl, error-not_IsGrantable trim len hex_decodes show_time req e q)
      go none q =
          create_checked-CreateEffect h id uuid tenant req now (ttl_of req.ttl_seconds) refl
            (request_error-IsChecked trim len hex_decodes show_time req q)

  created_inj : {a b : Grant} → created a ≡ created b → a ≡ b
  created_inj e = cc e

  refused_created :
      (h : Handlers) (e : CreateError) (out : Handlers × CreateReply) (g : Grant)
      → out ≡ (h, refused e)
      → out.1 ≡ created g
      → ⊥
  refused_created h e out g same made = (let k = sym (ap (λ o. o.1) same) ∙ made in cc k)

  pub created-IsIssued :
      (h : Handlers) (id uuid tenant : String) (req : CreateGrantRequest) (now : ℕ) (g : Grant)
      → (create_with h id uuid (some tenant) (decoded req) now).1 ≡ created g
      → IsIssued h id uuid tenant req now
          (create_with h id uuid (some tenant) (decoded req) now).0
          g
  created-IsIssued h id uuid tenant req now g made =
      elim (create_grant-CreateEffect h id uuid tenant req now) [
        | inl (e, same, _) ↦ absurd (refused_created h e _ g same made)
        | inr (x, shown, issued) ↦
            subst
              (IsIssued h id uuid tenant req now
                (create_with h id uuid (some tenant) (decoded req) now).0)
              (created_inj (sym shown ∙ made)) issued
      ]
