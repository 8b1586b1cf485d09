-- ===== src/Grants/Revocation.antt =====
-- The revocation of one grant (`Revoke` and `DeriveStatus` of storage.go): idempotent and for good.
use x_auth_site.Base.{
  ℕ, ◌≡◌, refl, sym, ap, ◌∙◌, inl, inr, String, false, Option, none, some, [], arith, if◌then◌else◌,
  str_eq, str_eq_iff, Bool-cases, is_some, some_inj,
}
use x_auth_site.Base.Dict.{lookup, IsDistinct}
use x_auth_site.Base.Dict.Laws.{lookup-insert, insert-IsDistinct}
use x_auth_site.Grants.Store.{Grant, MemGrantStore, owned, create, revoke_found, revoke_grant}

-- Each id once, and each grant under its own.
pub record IsValid (s : MemGrantStore) : Type 0 where
  pub distinct : IsDistinct s
  pub named : (id : String) (g : Grant) → lookup id s ≡ some g → g.id ≡ id

-- A grant after a revocation at `now`: the first one counts.
abbrev pub stamp : ℕ → Grant → Grant
stamp now g = if is_some g.revoked_at then g else record g { revoked_at = some now }

abbrev pub stamped : String → ℕ → Option Grant → Option Grant
stamped tenant now none = none
stamped tenant now (some g) = if str_eq g.tenant_id tenant then some (stamp now g) else some g

-- What a revocation leaves under each id.
pub lookup-revoke_grant :
    (s : MemGrantStore) (tenant id : String) (now : ℕ) (j : String)
    → lookup j (revoke_grant s tenant id now).0
      ≡ (if str_eq id j then stamped tenant now (lookup j s) else lookup j s)
unfolding revoke_grant
lookup-revoke_grant s tenant id now j = elim (Bool-cases (str_eq id j)) [
  | inl here ↦ rw here (rw ((str_eq_iff id j).0 here) (at (lookup j s) refl))
  | inr other ↦ rw other (elsewhere other (owned tenant (lookup id s)))
]
  where
    at :
        (o : Option Grant)
        → lookup j s ≡ o
        → lookup j (revoke_found s j now (owned tenant o)).0 ≡ stamped tenant now o
    at none e = e
    at (some g) e = elim (Bool-cases (str_eq g.tenant_id tenant)) [
      | inl mine ↦ elim (Bool-cases (is_some g.revoked_at)) [
        | inl done ↦ rw (mine, done) e
        | inr live ↦
            rw (mine, live)
              (lookup-insert j j (record g { revoked_at = some now }) s
                ∙ rw ((str_eq_iff j j).1 refl) refl)
      ]
      | inr theirs ↦ rw theirs e
    ]

    elsewhere :
        str_eq id j ≡ false → (o : Option Grant) → lookup j (revoke_found s id now o).0 ≡ lookup j s
    elsewhere other none = refl
    elsewhere other (some g) = elim (Bool-cases (is_some g.revoked_at)) [
      | inl done ↦ rw done refl
      | inr live ↦
          rw live (lookup-insert id j (record g { revoked_at = some now }) s ∙ rw other refl)
    ]

revoke_grant-IsDistinct :
    (s : MemGrantStore) (tenant id : String) (now : ℕ)
    → IsDistinct s
    → IsDistinct (revoke_grant s tenant id now).0
unfolding revoke_grant
revoke_grant-IsDistinct s tenant id now d = go (owned tenant (lookup id s))
  where
    go : (o : Option Grant) → IsDistinct (revoke_found s id now o).0
    go none = d
    go (some g) = elim (Bool-cases (is_some g.revoked_at)) [
      | inl done ↦ rw done d
      | inr live ↦ rw live (insert-IsDistinct id (record g { revoked_at = some now }) s d)
    ]

stamped_inv :
    (tenant : String) (now : ℕ) (o : Option Grant) (g : Grant)
    → stamped tenant now o ≡ some g
    → (f : Grant) × (o ≡ some f) × (g.id ≡ f.id)
stamped_inv tenant now none g e = absurd (cc e)
stamped_inv tenant now (some f) g e = (f, refl, ground arith)

-- A revocation keeps a store well formed.
pub revoke_grant-IsValid :
    (s : MemGrantStore) (tenant id : String) (now : ℕ)
    → IsValid s
    → IsValid (revoke_grant s tenant id now).0
revoke_grant-IsValid s tenant id now v = record {
  distinct = revoke_grant-IsDistinct s tenant id now v.distinct;
  named = λ j g e.
      let at = lookup-revoke_grant s tenant id now j in
      elim (Bool-cases (str_eq id j)) [
        | inl here ↦
            let (f, there, same) =
              stamped_inv tenant now (lookup j s) g (sym (at ∙ rw here refl) ∙ e) in
            same ∙ v.named j f there
        | inr other ↦ v.named j g (sym (at ∙ rw other refl) ∙ e)
      ];
}

pub none-IsValid : IsValid []
unfolding lookup
none-IsValid = record { distinct = tt; named = λ id g e. absurd (cc e) }

-- So does a creation.
pub create-IsValid : (s : MemGrantStore) (g : Grant) → IsValid s → IsValid (create s g).0
unfolding create
create-IsValid s g v = record {
  distinct = insert-IsDistinct g.id g s v.distinct;
  named = λ id f e.
      let at = lookup-insert g.id id g s in
      elim (Bool-cases (str_eq g.id id)) [
        | inl here ↦
            let eq : g ≡ f = some_inj (rw here at (sym at ∙ e)) in
            sym (ap (λ x. x.id) eq) ∙ (str_eq_iff g.id id).0 here
        | inr other ↦ v.named id f (rw other at (sym at ∙ e))
      ];
}
