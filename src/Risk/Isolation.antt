-- ===== src/Risk/Isolation.antt =====
-- The tenants' policies in the risk service's storage (storage.go) do not disturb each other.
use x_auth_site.Base.{
  ◌≡◌, refl, sym, ap, ◌∙◌, ◌≢◌, inl, inr, String, Option, none, some, List, [], ◌∷◌, All, arith,
  str_eq, str_eq_iff, str_eq_ne, Bool-cases, ℕ,
}
use x_auth_site.Base.Dict.{lookup, insert, delete}
use x_auth_site.Base.Dict.Laws.{lookup-insert, lookup-delete}
use x_auth_site.Risk.Model.{Policy}
use x_auth_site.Risk.Store.{
  MemStorage, owned_policy, get_policy, create_policy, update_found, update_policy, delete_found,
  delete_policy,
}

-- A call that changes policies.
pub data Request (F : Type 0) : Type 0 where
  creation : Policy F → Request F
  update : Policy F → ℕ → Request F
  deletion : (tenant id : String) → Request F

module _ {F : Type 0} where
  unfoldable pub serve : MemStorage F → Request F → MemStorage F
  serve s (creation p) = (create_policy s p).0
  serve s (update p now) = (update_policy s p now).0
  serve s (deletion tenant id) = (delete_policy s tenant id).0

  abbrev pub run : MemStorage F → List (Request F) → MemStorage F
  run s [] = s
  run s (q ∷ qs) = run (serve s q) qs

  -- A request by another tenant, or the creation of a policy under another id.
  abbrev pub IsForeign : String → String → Request F → Type 0
  IsForeign tenant id (creation p) = p.id ≢ id
  IsForeign tenant id (update p _) = p.tenant_id ≢ tenant
  IsForeign tenant id (deletion t _) = t ≢ tenant

  not_owned :
      (tenant other : String) (o : Option (Policy F)) (p : Policy F)
      → other ≢ tenant
      → owned_policy other o ≡ some p
      → owned_policy tenant o ≡ none
  not_owned tenant other none p ne e = refl
  not_owned tenant other (some x) p ne e =
      ground (arith, str_eq_iff x.tenant_id other, str_eq_iff x.tenant_id tenant)

  update_isolated :
      (s : MemStorage F) (tenant id : String) (p : Policy F) (now : ℕ) (o : Option (Policy F))
      → p.tenant_id ≢ tenant
      → owned_policy p.tenant_id (lookup p.id s.policies) ≡ o
      → owned_policy tenant (lookup id (update_found s p now o).0.policies)
        ≡ owned_policy tenant (lookup id s.policies)
  update_isolated s tenant id p now none ne e = refl
  update_isolated s tenant id p now (some x) ne e =
      let p' : Policy F = record p { created_at = x.created_at; updated_at = now } in
      let at = lookup-insert p.id id p' s.policies in
      elim (Bool-cases (str_eq p.id id)) [
        | inl here ↦
            let same = (str_eq_iff p.id id).0 here in
            let mine : lookup id (insert p.id p' s.policies) ≡ some p' = at ∙ rw here refl in
            ap (owned_policy tenant) mine
            ∙ rw (str_eq_ne p.tenant_id tenant ne) refl
            ∙ sym (
                ap (λ i. owned_policy tenant (lookup i s.policies)) (sym same)
                ∙ not_owned tenant p.tenant_id _ x ne e)
        | inr other ↦
            let theirs : lookup id (insert p.id p' s.policies) ≡ lookup id s.policies =
              at ∙ rw other refl in
            ap (owned_policy tenant) theirs
      ]

  delete_isolated :
      (s : MemStorage F) (tenant id t k : String) (o : Option (Policy F))
      → t ≢ tenant
      → owned_policy t (lookup k s.policies) ≡ o
      → owned_policy tenant (lookup id (delete_found s k o).0.policies)
        ≡ owned_policy tenant (lookup id s.policies)
  delete_isolated s tenant id t k none ne e = refl
  delete_isolated s tenant id t k (some x) ne e =
      let at = lookup-delete k id s.policies in
      elim (Bool-cases (str_eq k id)) [
        | inl here ↦
            let same = (str_eq_iff k id).0 here in
            let gone : lookup id (delete k s.policies) ≡ none = at ∙ rw here refl in
            ap (owned_policy tenant) gone
            ∙ sym (
                ap (λ i. owned_policy tenant (lookup i s.policies)) (sym same)
                ∙ not_owned tenant t _ x ne e)
        | inr other ↦
            let theirs : lookup id (delete k s.policies) ≡ lookup id s.policies =
              at ∙ rw other refl in
            ap (owned_policy tenant) theirs
      ]

  serve_isolated :
      (s : MemStorage F) (tenant id : String) (q : Request F)
      → IsForeign tenant id q
      → get_policy (serve s q) tenant id ≡ get_policy s tenant id
  unfolding serve get_policy create_policy update_policy delete_policy
  serve_isolated s tenant id (creation p) ne =
      ap (owned_policy tenant) (lookup-insert p.id id p s.policies ∙ rw (str_eq_ne p.id id ne) refl)
  serve_isolated s tenant id (update p now) ne = update_isolated s tenant id p now _ ne refl
  serve_isolated s tenant id (deletion t k) ne = delete_isolated s tenant id t k _ ne refl

  -- What a tenant reads under an id of a policy does not change through any run of updates and
  -- deletions by other tenants and creations under other ids, whatever ids they name.
  pub policies_isolated :
      (s : MemStorage F) (tenant id : String) (qs : List (Request F))
      → All (IsForeign tenant id) qs
      → get_policy (run s qs) tenant id ≡ get_policy s tenant id
  policies_isolated s tenant id [] h = refl
  policies_isolated s tenant id (q ∷ qs) h =
      policies_isolated (serve s q) tenant id qs h.1 ∙ serve_isolated s tenant id q h.0
