-- ===== src/Grants/Cascade.antt =====
-- The cascade of an install's revocation over its grants (`RevokeGrantsForInstall` of handlers.go).
use mathlib.Core.Path.{subst}
use x_auth_site.Base.{
  ℕ, suc, ◌≡◌, refl, sym, ap, ◌∙◌, inl, inr, String, Bool, true, false, Option, none, some, List,
  [], ◌∷◌, All, Among, any, arith, ltb, if◌then◌else◌, str_eq, str_eq_iff, str_eq_ne, Bool-cases,
  Option-cases, some_inj,
}
use x_auth_site.Base.Dict.{lookup}
use x_auth_site.Base.Dict.Laws.{values_where-All, lookup-Among}
use x_auth_site.Base.Sort.{sort_by-All, Among-sort_by, All_map}
use x_auth_site.Grants.Store.{
  Grant, MemGrantStore, with_status, with_statuses, of_install, Handlers, revoke_grant,
  cascade_round, revoke_each, list_by_install, revoke_grants_for_install,
}
use x_auth_site.Grants.Revocation.{IsValid, stamp, stamped, lookup-revoke_grant}

abbrev touches : String → List Grant → Bool
touches j gs = any (λ g. str_eq g.id j) gs

stamp_idem : (now : ℕ) (g : Grant) → stamp now (stamp now g) ≡ stamp now g
stamp_idem now g = elim (Option-cases g.revoked_at) [
  | inl live ↦ rw live refl
  | inr (t, done) ↦ rw done refl
]

stamped_idem :
    (tenant : String) (now : ℕ) (o : Option Grant)
    → stamped tenant now (stamped tenant now o) ≡ stamped tenant now o
stamped_idem tenant now none = refl
stamped_idem tenant now (some g) = elim (Bool-cases (str_eq g.tenant_id tenant)) [
  | inl mine ↦ elim (Option-cases g.revoked_at) [
    | inl live ↦ rw mine (rw live (rw mine refl))
    | inr (t, done) ↦ rw mine (rw done (rw mine refl))
  ]
  | inr theirs ↦ rw theirs (rw theirs refl)
]

-- What the loop leaves under each id.
lookup-revoke_each :
    (h : Handlers) (uuid : ℕ → String) (k : ℕ) (tenant : String) (now : ℕ) (gs : List Grant)
    (fresh already : ℕ) (j : String)
    → lookup j (revoke_each h uuid k tenant now gs fresh already).0.grants
      ≡ (if touches j gs then stamped tenant now (lookup j h.grants) else lookup j h.grants)
unfolding revoke_each
lookup-revoke_each h uuid k tenant now [] fresh already j = refl
lookup-revoke_each h uuid k tenant now (g ∷ gs) fresh already j =
    let rest =
      lookup-revoke_each (cascade_round h (uuid k) tenant now g) uuid (suc k) tenant now gs _ _ j in
    let one = lookup-revoke_grant h.grants tenant g.id now j in
    elim (Bool-cases (str_eq g.id j)) [
      | inl here ↦
          let at : lookup j (revoke_grant h.grants tenant g.id now).0
              ≡ stamped tenant now (lookup j h.grants) =
            one ∙ rw here refl in
          elim (Bool-cases (touches j gs)) [
            | inl again ↦
                rest
                ∙ rw (here, again)
                    (ap (stamped tenant now) at ∙ stamped_idem tenant now (lookup j h.grants))
            | inr last ↦ rest ∙ rw (here, last) at
          ]
      | inr other ↦
          let at : lookup j (revoke_grant h.grants tenant g.id now).0 ≡ lookup j h.grants =
            one ∙ rw other refl in
          elim (Bool-cases (touches j gs)) [
            | inl later ↦ rest ∙ rw (other, later) (ap (stamped tenant now) at)
            | inr never ↦ rest ∙ rw (other, never) at
          ]
    ]

module _ (tenant install : String) (now : ℕ) where
  with_statuses-All :
      (P Q : Grant → Type 0) (gs : List Grant)
      → ((g : Grant) → P g → Q (with_status now g))
      → All P gs
      → All Q (with_statuses now gs)
  with_statuses-All P Q [] f h = tt
  with_statuses-All P Q (g ∷ gs) f h = (f g h.0, with_statuses-All P Q gs f h.1)

  Among-with_statuses :
      (g : Grant) (gs : List Grant) → Among g gs → Among (with_status now g) (with_statuses now gs)
  Among-with_statuses g [] m = absurd m
  Among-with_statuses g (x ∷ gs) (inl e) = inl (ap (with_status now) e)
  Among-with_statuses g (x ∷ gs) (inr m) = inr (Among-with_statuses g gs m)

  touches-Among : (g : Grant) (gs : List Grant) → Among g gs → touches g.id gs ≡ true
  touches-Among g [] m = absurd m
  touches-Among g (x ∷ gs) (inl e) =
      let here = (str_eq_iff x.id g.id).1 (ap (λ y. y.id) (sym e)) in ground arith
  touches-Among g (x ∷ gs) (inr m) = let later = touches-Among g gs m in ground arith

  touches_none :
      (j : String) (gs : List Grant) → All (λ g. str_eq g.id j ≡ false) gs → touches j gs ≡ false
  touches_none j [] h = refl
  touches_none j (x ∷ gs) h = let rest = touches_none j gs h.1 in let here = h.0 in ground arith

  -- The listed grants are those stored of the install, each under its id.
  pub listed_stored :
      (s : MemGrantStore)
      → IsValid s
      → All
          (λ g. (x : Grant) × (lookup g.id s ≡ some x) × (of_install tenant install x ≡ true))
          (list_by_install s tenant install now)
  unfolding list_by_install
  listed_stored s v = sort_by-All _ _ _ (
      with_statuses-All (λ g. (lookup g.id s ≡ some g) × (of_install tenant install g ≡ true))
        (λ g. (x : Grant) × (lookup g.id s ≡ some x) × (of_install tenant install x ≡ true)) _
        (λ g h. (g, h.0, h.1))
        (values_where-All _ _ s v.distinct
          (λ k g e t. (subst (λ i. lookup i s ≡ some g) (sym (v.named k g e)) e, t))))

  touches_listed :
      (s : MemGrantStore) (j : String) (g : Grant)
      → IsValid s
      → lookup j s ≡ some g
      → of_install tenant install g ≡ true
      → touches j (list_by_install s tenant install now) ≡ true
  unfolding list_by_install
  touches_listed s j g v e mine =
      subst (λ i. touches i (list_by_install s tenant install now) ≡ true) (v.named j g e)
        (touches-Among (with_status now g) _ (
          Among-sort_by (λ a b. ltb a.issued_at b.issued_at) (with_status now g) _
            (Among-with_statuses g _ (lookup-Among (of_install tenant install) j g s e mine))))

  untouched :
      (s : MemGrantStore) (j : String)
      → IsValid s
      → ((g : Grant) → lookup j s ≡ some g → of_install tenant install g ≡ false)
      → touches j (list_by_install s tenant install now) ≡ false
  untouched s j v h = touches_none j _ (All_map other _ (listed_stored s v))
    where
      other :
          (g : Grant)
          → ((x : Grant) × (lookup g.id s ≡ some x) × (of_install tenant install x ≡ true))
          → str_eq g.id j ≡ false
      other g (x, e, mine) =
          str_eq_ne g.id j (λ same.
            let theirs = h x (subst (λ i. lookup i s ≡ some x) same e) in cc (mine, theirs))

abbrev pub cascaded : String → String → ℕ → Option Grant → Option Grant
cascaded tenant install now none = none
cascaded tenant install now (some g) =
    if of_install tenant install g then some (stamp now g) else some g

-- On a well-formed store, the revocation of an install leaves each of its grants revoked, those that were revoked before
-- with their own time, and every other grant as it was.
pub revoke_grants_for_install-grants :
    (h : Handlers) (uuid : ℕ → String) (tenant install : String) (now : ℕ) (j : String)
    → IsValid h.grants
    → lookup j (revoke_grants_for_install h uuid tenant install now).0.grants
      ≡ cascaded tenant install now (lookup j h.grants)
unfolding revoke_grants_for_install
revoke_grants_for_install-grants h uuid tenant install now j v =
    lookup-revoke_each h uuid 0 tenant now (list_by_install h.grants tenant install now) 0 0 j
    ∙ by_case (lookup j h.grants) refl
  where
    by_case :
        (o : Option Grant)
        → lookup j h.grants ≡ o
        → (if touches j (list_by_install h.grants tenant install now)
            then stamped tenant now o
            else o)
          ≡ cascaded tenant install now o
    by_case none e = elim (Bool-cases (touches j (list_by_install h.grants tenant install now))) [
      | inl t ↦ rw t refl
      | inr f ↦ rw f refl
    ]
    by_case (some g) e = elim (Bool-cases (of_install tenant install g)) [
      | inl mine ↦
          let t = touches_listed tenant install now h.grants j g v e mine in
          let same : str_eq g.tenant_id tenant ≡ true = ground arith in rw (t, mine) (rw same refl)
      | inr theirs ↦
          let f = untouched tenant install now h.grants j v (λ x ex.
            let eq = some_inj (sym ex ∙ e) in ap (of_install tenant install) eq ∙ theirs) in
          rw (f, theirs) refl
    ]
