-- ===== src/Grants/Revoked.antt =====
-- A token that was revoked (`RevokeByToken` of handlers.go) is inactive for introspection.
use mathlib.Core.Path.{subst}
use x_auth_site.Base.{
  ℕ, ◌≡◌, refl, sym, ap, ◌∙◌, ◌≢◌, ◌⊎◌, inl, inr, String, true, false, Option, none, some, str_eq,
  str_eq_iff, Bool-cases, is_some, some_inj,
}
use x_auth_site.Base.Dict.{lookup}
use x_auth_site.Grants.Store.{
  Grant, MemGrantStore, Handlers, find_by_access_token_hash, revoke_grant, derive_status,
}
use x_auth_site.Grants.Revocation.{
  IsValid, stamp, stamped, lookup-revoke_grant, revoke_grant-IsValid,
}
use x_auth_site.Grants.Tokens.{
  is_active, hash_token, revoke_resolved, revoke_by_token, introspect_resolved, introspect,
  inactive, introspected,
}
use x_auth_site.Grants.Introspection.{Found, find-Found, found_if_stored, IsLive, introspect-IsLive}

-- No two grants have the same access token.
abbrev pub IsUnique : MemGrantStore → Type 0
IsUnique s =
    (j k : String) (g f : Grant)
    → lookup j s ≡ some g
    → lookup k s ≡ some f
    → g.access_token_hash ≡ f.access_token_hash
    → g.access_token_hash ≢ ""
    → j ≡ k

stamp_revoked : (now : ℕ) (g : Grant) → is_some (stamp now g).revoked_at ≡ true
stamp_revoked now g = elim (Bool-cases (is_some g.revoked_at)) [
  | inl done ↦ rw done done
  | inr live ↦ rw live refl
]

module _ (s : MemGrantStore) (tenant hash : String) (now later : ℕ) (r : Grant)
    (unique : IsUnique s) where
  live_unrevoked :
      (o : Option Grant)
      → ((x : Grant) → o ≡ some x → Found s hash now x)
      → (o ≡ none → (g : Grant) → lookup g.id s ≡ some g → g.access_token_hash ≡ hash → ⊥)
      → (trim digest : String → String) (h : Handlers) (uuid : String) → h.grants ≡ s
      → IsLive (revoke_resolved trim digest h uuid tenant now o).0.grants tenant hash later r
      → ⊥
  live_unrevoked none f nothing trim digest h uuid same live =
      let l = subst (λ t. IsLive t tenant hash later r) same live in
      nothing refl l.grant l.stored l.same_hash
  live_unrevoked (some x) f nothing trim digest h uuid same live =
      elim (Bool-cases (str_eq x.tenant_id tenant)) [
        | inl mine ↦ revoked_one (
            subst (λ t. IsLive t tenant hash later r)
              (ap (λ g. (revoke_grant g tenant x.id now).0) same) (rw mine at live))
        | inr theirs ↦
            other_tenant theirs (subst (λ t. IsLive t tenant hash later r) same (rw theirs at live))
      ]
    where
      found : Found s hash now x
      found = f x refl

      same_id : x.id ≡ found.grant.id
      same_id = ap (λ y. y.id) found.answer

      same_grant :
          (l : Grant) → lookup l.id s ≡ some l → l.access_token_hash ≡ hash → found.grant ≡ l
      same_grant l there hl =
          let k =
            unique found.grant.id l.id found.grant l found.stored there (found.same_hash ∙ sym hl)
              (λ blank. found.hashed (sym found.same_hash ∙ blank)) in
          some_inj (sym found.stored ∙ ap (λ i. lookup i s) k ∙ there)

      other_tenant : str_eq x.tenant_id tenant ≡ false → IsLive s tenant hash later r → ⊥
      other_tenant theirs l =
          let eq = same_grant l.grant l.stored l.same_hash in
          let t : str_eq x.tenant_id tenant ≡ true =
            (str_eq_iff x.tenant_id tenant).1
              (ap (λ y. y.tenant_id) found.answer ∙ ap (λ y. y.tenant_id) eq ∙ l.of_tenant) in
          cc (theirs, t)

      stamped_live :
          (o : Option Grant) (g : Grant)
          → stamped tenant now o ≡ some g
          → g.tenant_id ≡ tenant
          → is_some g.revoked_at ≡ true
      stamped_live none g e t = absurd (cc e)
      stamped_live (some y) g e t = elim (Bool-cases (str_eq y.tenant_id tenant)) [
        | inl mine ↦
            ap (λ z. is_some z.revoked_at) (sym (some_inj (rw mine at e))) ∙ stamp_revoked now y
        | inr theirs ↦
            let eq : y ≡ g = some_inj (rw theirs at e) in
            let t' = (str_eq_iff y.tenant_id tenant).1 (ap (λ z. z.tenant_id) eq ∙ t) in
            absurd (cc (theirs, t'))
      ]

      revoked_one : IsLive (revoke_grant s tenant x.id now).0 tenant hash later r → ⊥
      revoked_one l =
          let at = sym (lookup-revoke_grant s tenant x.id now l.grant.id) ∙ l.stored in
          elim (Bool-cases (str_eq x.id l.grant.id)) [
            | inl here ↦
                let gone = stamped_live (lookup l.grant.id s) l.grant (rw here at at) l.of_tenant in
                let live = l.not_revoked in cc (gone, live)
            | inr other ↦
                let eq = same_grant l.grant (rw other at at) l.same_hash in
                let t = (str_eq_iff x.id l.grant.id).1 (same_id ∙ ap (λ y. y.id) eq) in
                cc (other, t)
          ]

module _ (trim digest : String → String) where
  resolved-IsValid :
      (h : Handlers) (uuid tenant : String) (now : ℕ) (o : Option Grant)
      → IsValid h.grants
      → IsValid (revoke_resolved trim digest h uuid tenant now o).0.grants
  resolved-IsValid h uuid tenant now none v = v
  resolved-IsValid h uuid tenant now (some g) v = elim (Bool-cases (str_eq g.tenant_id tenant)) [
    | inl mine ↦ rw mine (revoke_grant-IsValid h.grants tenant g.id now v)
    | inr theirs ↦ rw theirs v
  ]

  introspect-cases :
      (s : MemGrantStore) (tenant token : String) (now : ℕ)
      → (introspect trim digest s (some tenant) (some token) now ≡ inactive)
        ⊎ ((r : Grant) × (introspect trim digest s (some tenant) (some token) now ≡ introspected r))
  unfolding introspect
  introspect-cases s tenant token now = elim (Bool-cases (str_eq (trim token) "")) [
    | inl blank ↦ inl (rw blank refl)
    | inr given ↦
        rw given (go (find_by_access_token_hash s (hash_token trim digest (trim token)) now))
  ]
    where
      go :
          (o : Option Grant)
          → (introspect_resolved trim digest tenant now o ≡ inactive)
            ⊎ ((r : Grant) × (introspect_resolved trim digest tenant now o ≡ introspected r))
      go none = inl refl
      go (some g) = elim (Bool-cases (str_eq g.tenant_id tenant)) [
        | inl mine ↦ elim (Bool-cases (is_active (derive_status g now))) [
          | inl live ↦ inr (g, rw (mine, live) refl)
          | inr gone ↦ inl (rw (mine, gone) refl)
        ]
        | inr theirs ↦ inl (rw theirs refl)
      ]

  blank_lem :
      (s : MemGrantStore) (tenant token : String) (now : ℕ)
      → str_eq (trim token) "" ≡ true
      → introspect trim digest s (some tenant) (some token) now ≡ inactive
  unfolding introspect
  blank_lem s tenant token now blank = rw blank refl

  -- On a well-formed store in which no two grants have the same access token: after a tenant has
  -- revoked a token, introspection of it by that tenant says inactive, at any time.
  pub revoked_inactive :
      (h : Handlers) (uuid tenant token : String) (now later : ℕ)
      → IsValid h.grants
      → IsUnique h.grants
      → introspect trim digest
          (revoke_by_token trim digest h uuid (some tenant) (some token) now).0.grants
          (some tenant)
          (some token)
          later
        ≡ inactive
  unfolding revoke_by_token
  revoked_inactive h uuid tenant token now later v unique =
      elim (Bool-cases (str_eq (trim token) "")) [
        | inl blank ↦ blank_inactive blank _
        | inr given ↦ rw given (go (find_by_access_token_hash h.grants hash now) refl)
      ]
    where
      hash : String
      hash = hash_token trim digest (trim token)

      blank_inactive :
          str_eq (trim token) "" ≡ true
          → (s : MemGrantStore)
          → introspect trim digest s (some tenant) (some token) later ≡ inactive
      blank_inactive blank s = blank_lem s tenant token later blank

      go :
          (o : Option Grant)
          → find_by_access_token_hash h.grants hash now ≡ o
          → introspect trim digest
              (revoke_resolved trim digest h uuid tenant now o).0.grants
              (some tenant)
              (some token)
              later
            ≡ inactive
      go o e =
          elim (introspect-cases (revoke_resolved trim digest h uuid tenant now o).0.grants tenant
            token later) [
              | inl off ↦ off
              | inr (r, shown) ↦
                  let live =
                    introspect-IsLive trim digest _ tenant token later r
                      (resolved-IsValid h uuid tenant now o v) shown in
                  absurd (
                    live_unrevoked h.grants tenant hash now later r unique o
                      (λ x eq. find-Found h.grants hash now x v (e ∙ eq))
                      (λ eq g there same.
                        found_if_stored h.grants hash now g.id g there same live.hashed (e ∙ eq))
                      trim digest h uuid refl live)
            ]
