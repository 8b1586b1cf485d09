-- ===== src/Broker/Families/Origin.antt =====
-- Where the tokens of a broker come from: the effect of a step on the installs that have tokens.
use x_auth_site.Base.{
  ◌≡◌, refl, sym, ap, ◌∙◌, ◌⊎◌, inl, inr, String, Option, some, arith, str_eq, Bool-cases,
}
use x_auth_site.Base.Dict.{Dict, lookup, values_where}
use x_auth_site.Base.Dict.Laws.{lookup-keep_if, guarded-some}
use x_auth_site.Broker.Store.{TokenRecord, MemStorage, first_of, get_token_by_refresh}
use x_auth_site.Broker.Runs.Tokens.{TokenChange, unchanged, dropped, deleted, first_issued, renewed}
use x_auth_site.Broker.Families.{TokensFit, first_of-lookup, lookup-insert_cases, lookup-deleted}

module _ {M : Type 0} (fresh : Option String) (s : MemStorage M) where
  pub refreshed-stored :
      (presented : String) (t : TokenRecord)
      → TokensFit s.tokens
      → get_token_by_refresh s presented ≡ some t
      → lookup t.access_token s.tokens ≡ some t
  unfolding get_token_by_refresh
  refreshed-stored presented t fit e = elim (Bool-cases (str_eq presented "")) [
    | inl blank ↦ ground arith
    | inr some_token ↦
        let found : first_of (values_where (λ t. str_eq t.refresh_token presented) s.tokens)
            ≡ some t =
          (rw some_token refl) ∙ e in
        let (k, stored, _) = first_of-lookup _ s.tokens t fit.distinct found in
        ap (λ x. lookup x s.tokens) (fit.keyed k t stored) ∙ stored
  ]

  -- A token stored after a step has a new install or the install of a token stored before.
  pub change-origin :
      (m : Dict TokenRecord) (a : String) (t : TokenRecord)
      → TokensFit s.tokens
      → TokenChange fresh s m
      → lookup a m ≡ some t
      → (fresh ≡ some t.install_id)
        ⊎ ((k : String) × (old : TokenRecord) × (lookup k s.tokens ≡ some old)
            × (t.install_id ≡ old.install_id))
  change-origin _ a t fit unchanged e = inr (a, t, e, refl)
  change-origin _ a t fit (dropped p) e = inr (
    a,
    t,
    guarded-some p (lookup a s.tokens) t (sym (lookup-keep_if p a s.tokens fit.distinct) ∙ e),
    refl,
  )
  change-origin _ a t fit (deleted k) e = inr (a, t, lookup-deleted k a t s.tokens e, refl)
  change-origin _ a t fit (first_issued u new) e =
      elim (lookup-insert_cases u.access_token a u t s.tokens e) [
        | inl (_, same) ↦ inl (new ∙ ap some (sym (ap (λ x. x.install_id) same)))
        | inr (_, kept) ↦ inr (a, t, kept, refl)
      ]
  change-origin _ a t fit (renewed presented old u now found live family) e =
      let stored = refreshed-stored presented old fit found in
      elim (lookup-insert_cases u.access_token a u t _ e) [
        | inl (_, same) ↦ inr (old.access_token, old, stored, ap (λ x. x.install_id) same ∙ family)
        | inr (_, kept) ↦ elim (lookup-insert_cases old.access_token a _ t s.tokens kept) [
          | inl (_, same) ↦ inr (old.access_token, old, stored, ap (λ x. x.install_id) same)
          | inr (_, older) ↦ inr (a, t, older, refl)
        ]
      ]
