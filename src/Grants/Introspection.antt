-- ===== src/Grants/Introspection.antt =====
-- What introspection (`Introspect` of handlers.go) tells, also after a revocation by token.
use mathlib.Core.Path.{subst}
use x_auth_site.Base.{
  ℕ, ◌≡◌, refl, sym, ap, ◌∙◌, ◌≢◌, inl, inr, String, false, Option, none, some, List, [], ◌∷◌, All,
  Among, str_eq, str_eq_iff, str_eq_ne, Bool-cases, is_some, some_inj,
}
use x_auth_site.Base.Dict.{lookup, values_where}
use x_auth_site.Base.Dict.Laws.{values_where-All, lookup-Among}
use x_auth_site.Grants.Store.{
  Grant, MemGrantStore, derive_status, is_past, with_status, first_of, find_by_access_token_hash,
}
use x_auth_site.Grants.Revocation.{IsValid}
use x_auth_site.Grants.Tokens.{hash_token, introspect_resolved, introspect, introspected}

-- The stored grant that a search has found.
pub record Found (s : MemGrantStore) (hash : String) (now : ℕ) (r : Grant) : Type 0 where
  pub grant : Grant
  pub stored : lookup grant.id s ≡ some grant
  pub same_hash : grant.access_token_hash ≡ hash
  pub hashed : hash ≢ ""
  pub answer : r ≡ with_status now grant

pub find-Found :
    (s : MemGrantStore) (hash : String) (now : ℕ) (r : Grant)
    → IsValid s
    → find_by_access_token_hash s hash now ≡ some r
    → Found s hash now r
unfolding find_by_access_token_hash
find-Found s hash now r v e = elim (Bool-cases (str_eq hash "")) [
  | inl blank ↦ absurd (cc (rw blank at e))
  | inr given ↦ go given _ matching (rw given at e)
]
  where
    matching :
        All
          (λ g. (lookup g.id s ≡ some g) × (g.access_token_hash ≡ hash))
          (values_where (λ g. str_eq g.access_token_hash hash) s)
    matching = values_where-All _ _ s v.distinct (λ k g e t. (
      subst (λ i. lookup i s ≡ some g) (sym (v.named k g e)) e,
      (str_eq_iff g.access_token_hash hash).0 t,
    ))

    go :
        str_eq hash "" ≡ false
        → (l : List Grant) → All (λ g. (lookup g.id s ≡ some g) × (g.access_token_hash ≡ hash)) l
        → first_of now l ≡ some r
        → Found s hash now r
    go given [] h e = absurd (cc e)
    go given (g ∷ l) ((there, same), _) e = record {
      grant = g;
      stored = there;
      same_hash = same;
      hashed = λ blank. (let t = (str_eq_iff hash "").1 blank in cc (given, t));
      answer = sym (some_inj e);
    }

pub found_if_stored :
    (s : MemGrantStore) (hash : String) (now : ℕ) (k : String) (g : Grant)
    → lookup k s ≡ some g
    → g.access_token_hash ≡ hash
    → hash ≢ ""
    → ¬ (find_by_access_token_hash s hash now ≡ none)
unfolding find_by_access_token_hash
found_if_stored s hash now k g there same given e =
    go _
      (lookup-Among (λ x. str_eq x.access_token_hash hash) k g s there ((str_eq_iff _ hash).1 same))
      (rw (str_eq_ne hash "" given) at e)
  where
    go : (l : List Grant) → Among g l → first_of now l ≡ none → ⊥
    go [] m e = m
    go (x ∷ l) m e = cc e

-- A grant that introspection may show: stored under the token's hash, of the tenant, and live.
pub record IsLive (s : MemGrantStore) (tenant hash : String) (now : ℕ) (r : Grant) : Type 0 where
  pub grant : Grant
  pub stored : lookup grant.id s ≡ some grant
  pub same_hash : grant.access_token_hash ≡ hash
  pub hashed : hash ≢ ""
  pub of_tenant : grant.tenant_id ≡ tenant
  pub not_revoked : is_some grant.revoked_at ≡ false
  pub not_expired : is_past now grant.expires_at ≡ false
  pub answer : r ≡ with_status now grant

introspected_inj : {a b : Grant} → introspected a ≡ introspected b → a ≡ b
introspected_inj e = cc e

module _ (trim digest : String → String) where
  IsLive-of_Found :
      (s : MemGrantStore) (tenant hash : String) (now : ℕ) (o : Option Grant) (r : Grant)
      → ((x : Grant) → o ≡ some x → Found s hash now x)
      → introspect_resolved trim digest tenant now o ≡ introspected r
      → IsLive s tenant hash now r
  unfolding derive_status
  IsLive-of_Found s tenant hash now none r f e = absurd (cc e)
  IsLive-of_Found s tenant hash now (some x) r f e =
      let found = f x refl in
      let revoked_same = ap (λ y. y.revoked_at) found.answer in
      let expires_same = ap (λ y. y.expires_at) found.answer in
      let tenant_same = ap (λ y. y.tenant_id) found.answer in
      elim (Bool-cases (str_eq x.tenant_id tenant)) [
        | inr theirs ↦ absurd (cc (rw theirs at e))
        | inl mine ↦ elim (Bool-cases (is_some x.revoked_at)) [
          | inl gone ↦ absurd (cc (rw (mine, gone) at e))
          | inr live ↦ elim (Bool-cases (is_past now x.expires_at)) [
            | inl late ↦ absurd (cc (rw (mine, live, late) at e))
            | inr due ↦ record {
              grant = found.grant;
              stored = found.stored;
              same_hash = found.same_hash;
              hashed = found.hashed;
              of_tenant = sym tenant_same ∙ (str_eq_iff x.tenant_id tenant).0 mine;
              not_revoked = sym (ap is_some revoked_same) ∙ live;
              not_expired = sym (ap (is_past now) expires_same) ∙ due;
              answer = sym (introspected_inj (rw (mine, live, due) at e)) ∙ found.answer;
            }
          ]
        ]
      ]

  -- On a well-formed store, introspection shows a grant only if one is stored under the hash of the token, belongs to the
  -- calling tenant, is not revoked and has not expired; it then shows that grant.
  pub introspect-IsLive :
      (s : MemGrantStore) (tenant token : String) (now : ℕ) (r : Grant)
      → IsValid s
      → introspect trim digest s (some tenant) (some token) now ≡ introspected r
      → IsLive s tenant (hash_token trim digest (trim token)) now r
  unfolding introspect
  introspect-IsLive s tenant token now r v e = elim (Bool-cases (str_eq (trim token) "")) [
    | inl blank ↦ absurd (cc (rw blank at e))
    | inr given ↦ IsLive-of_Found s tenant _ now _ r (λ x. find-Found s _ now x v) (rw given at e)
  ]
