-- ===== src/Grants/Issued/Shown.antt =====
-- A grant that `CreateGrant` issued is what `Introspect` (handlers.go) shows for its token.
use mathlib.Core.Path.{subst}
use x_auth_site.Base.{
  ℕ, arith, ◌≡◌, refl, sym, ap, ◌∙◌, ◌≢◌, inl, inr, String, Bool, false, none, some, str_eq,
  str_eq_iff, str_eq_ne, Bool-cases, Option-cases, some_inj,
}
use x_auth_site.Base.Dict.{lookup, insert}
use x_auth_site.Base.Dict.Laws.{lookup-insert, lookup-insert_self}
use x_auth_site.Grants.Store.{
  Grant, active, unset, MemGrantStore, Handlers, create, derive_status, is_past, with_status,
  find_by_access_token_hash,
}
use x_auth_site.Grants.Revocation.{IsValid, create-IsValid}
use x_auth_site.Grants.Tokens.{hash_token, introspect, introspect_resolved, introspected}
use x_auth_site.Grants.Introspection.{Found, find-Found, found_if_stored}
use x_auth_site.Grants.Issuing.{CreateGrantRequest, decoded, created}
use x_auth_site.Grants.Requests.{IsDigest}
use x_auth_site.Grants.Issued.{create_with, IsIssued, created-IsIssued}

module _ (trim : String → String) (len : String → ℕ) (hex_decodes : String → Bool)
    (show_time : ℕ → String) (digest : String → String) (h : Handlers)
    (id uuid tenant token : String) (req : CreateGrantRequest) (now later : ℕ) (g : Grant) where
  abbrev private_hash : String
  private_hash = hash_token trim digest (trim token)

  -- The grant in the form it is stored in.
  abbrev kept : Grant
  kept = record g { status = unset }

  kept_active :
      g.revoked_at ≡ none
      → is_past later g.expires_at ≡ false
      → g.status ≡ active
      → with_status later kept ≡ g
  unfolding derive_status
  kept_active live due shown =
      let status : derive_status kept later ≡ active = rw (live, due) refl in
      ap (λ t. record g { status = t }) (status ∙ sym shown)

  resolved_shown :
      g.tenant_id ≡ tenant
      → g.revoked_at ≡ none
      → is_past later g.expires_at ≡ false
      → introspect_resolved trim digest tenant later (some g) ≡ introspected g
  unfolding derive_status
  resolved_shown mine live due =
      let t = (str_eq_iff g.tenant_id tenant).1 mine in rw (t, live, due) refl

  found_kept :
      (s : MemGrantStore)
      → ((k : String) (f : Grant)
          → lookup k h.grants ≡ some f
          → f.access_token_hash ≢ g.access_token_hash)
      → s ≡ insert id kept h.grants
      → (f : Grant) → lookup f.id s ≡ some f
      → f.access_token_hash ≡ g.access_token_hash
      → f ≡ kept
  found_kept s alone stored f there same =
      let at = sym (lookup-insert id f.id kept h.grants) ∙ sym (ap (lookup f.id) stored) ∙ there in
      elim (Bool-cases (str_eq id f.id)) [
        | inl here ↦ sym (some_inj (rw here at at))
        | inr other ↦ absurd (alone f.id f (rw other at at) same)
      ]

  given_hash :
      len "" ≡ 0
      → IsDigest trim len hex_decodes show_time g.access_token_hash
      → g.access_token_hash ≢ ""
  given_hash none_long (long, _) blank =
      let same : len g.access_token_hash ≡ len "" = ap len blank in
      omega (arith, none_long, long, same)

  -- A grant that is created for the hash of a token is what introspection of that token by the tenant
  -- shows, as long as it has not expired; this needs a well-formed store with no other grant
  -- under that hash, a token that is not blank, and that the empty text has length 0.
  pub create_grant-introspect :
      len "" ≡ 0
      → IsValid h.grants
      → ((k : String) (f : Grant)
          → lookup k h.grants ≡ some f
          → f.access_token_hash ≢ g.access_token_hash)
      → trim req.access_token_hash ≡ hash_token trim digest (trim token)
      → trim token ≢ ""
      → (create_with trim len hex_decodes show_time h id uuid (some tenant) (decoded req) now).1
        ≡ created g
      → is_past later g.expires_at ≡ false
      → introspect trim digest
          (create_with trim len hex_decodes show_time h id uuid
            (some tenant)
            (decoded req)
            now).0.grants
          (some tenant)
          (some token)
          later
        ≡ introspected g
  unfolding introspect create
  create_grant-introspect none_long valid alone of_token given made due =
      rw (str_eq_ne (trim token) "" given)
        (elim (Option-cases (find_by_access_token_hash s private_hash later)) [
          | inl missing ↦
              absurd (found_if_stored s private_hash later g.id kept there same_hash hashed missing)
          | inr (r, found) ↦ rw found (
              subst (λ x. introspect_resolved trim digest tenant later (some x) ≡ introspected g)
                (sym (shown r (find-Found s private_hash later r s-IsValid found)))
                (resolved_shown issued.of_tenant issued.unrevoked due))
        ])
    where
      s : MemGrantStore
      s =
          (create_with trim len hex_decodes show_time h id uuid (some tenant) (decoded req)
            now).0.grants

      issued :
          IsIssued trim len hex_decodes show_time h id uuid tenant req now
            (create_with trim len hex_decodes show_time h id uuid (some tenant) (decoded req) now).0
            g
      issued = created-IsIssued trim len hex_decodes show_time h id uuid tenant req now g made

      s-IsValid : IsValid s
      s-IsValid =
          subst IsValid (ap (λ i. insert i kept h.grants) issued.named ∙ sym issued.stored)
            (create-IsValid h.grants kept valid)

      there : lookup g.id s ≡ some kept
      there =
          ap (lookup g.id) issued.stored
          ∙ ap (λ i. lookup i (insert id kept h.grants)) issued.named
          ∙ lookup-insert_self id kept h.grants

      same_hash : g.access_token_hash ≡ private_hash
      same_hash = issued.same_hash ∙ of_token

      hashed : private_hash ≢ ""
      hashed blank = given_hash none_long issued.hashed (same_hash ∙ blank)

      shown : (r : Grant) → Found s private_hash later r → r ≡ g
      shown r f =
          f.answer
          ∙ ap (with_status later)
              (found_kept s alone issued.stored f.grant f.stored (f.same_hash ∙ sym same_hash))
          ∙ kept_active issued.unrevoked due issued.active_now
