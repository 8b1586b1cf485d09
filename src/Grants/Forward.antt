-- ===== src/Grants/Forward.antt =====
-- Grants over sequences of calls of storage.go: the status of a grant goes forward only.
use x_auth_site.Base.{
  ℕ, ◌≤◌, ◌≡◌, refl, ap, ◌∙◌, ◌≢◌, ◌⊎◌, inl, inr, String, true, Option, none, some, List, [], ◌∷◌,
  All, arith, str_eq, str_eq_iff, str_eq_ne, Bool-cases, Option-cases, is_some,
}
use x_auth_site.Base.Dict.{lookup}
use x_auth_site.Base.Dict.Laws.{lookup-insert}
use x_auth_site.Grants.Store.{
  Grant, GrantStatus, unset, active, expired, revoked, MemGrantStore, derive_status, is_past,
  with_status, owned, create, revoke_found, revoke_grant,
}
use x_auth_site.Grants.Revocation.{lookup-revoke_grant, stamp}

-- A call that changes grants.
pub data Request : Type 0 where
  creation : Grant → Request
  revocation : (tenant id : String) → ℕ → Request

unfoldable pub serve : MemGrantStore → Request → MemGrantStore
serve s (creation g) = (create s g).0
serve s (revocation tenant id now) = (revoke_grant s tenant id now).0

abbrev pub run : MemGrantStore → List Request → MemGrantStore
run s [] = s
run s (q ∷ qs) = run (serve s q) qs

-- The request does not create a grant under the id, which stands for one already.
abbrev pub Keeps : String → Request → Type 0
Keeps id (creation g) = g.id ≢ id
Keeps id (revocation _ _ _) = Unit

serve_at :
    (s : MemGrantStore) (id : String) (g : Grant) (q : Request)
    → lookup id s ≡ some g
    → Keeps id q
    → (g' : Grant) × (lookup id (serve s q) ≡ some g')
      × ((g' ≡ g) ⊎ ((g.revoked_at ≡ none) × ((t : ℕ) × (g' ≡ record g { revoked_at = some t }))))
unfolding serve create
serve_at s id g (creation n) e h =
    (g, lookup-insert n.id id n s ∙ rw (str_eq_ne n.id id h) e, inl refl)
serve_at s id g (revocation tenant k now) e h =
    let at = lookup-revoke_grant s tenant k now id in
    elim (Bool-cases (str_eq k id)) [
      | inl here ↦ elim (Bool-cases (str_eq g.tenant_id tenant)) [
        | inl mine ↦ elim (Option-cases g.revoked_at) [
          | inl live ↦ (
            record g { revoked_at = some now },
            at ∙ rw here (rw e (rw mine (rw live refl))),
            inr (live, (now, refl)),
          )
          | inr (t, done) ↦ (g, at ∙ rw here (rw e (rw mine (rw done refl))), inl refl)
        ]
        | inr theirs ↦ (g, at ∙ rw here (rw e (rw theirs refl)), inl refl)
      ]
      | inr other ↦ (g, at ∙ rw other e, inl refl)
    ]

-- How far a grant has gone.
abbrev pub rank : GrantStatus → ℕ
rank unset = 0
rank active = 0
rank expired = 1
rank revoked = 2

-- A later state of a grant: the same, unless it was not revoked; it keeps its end.
record Follows (g g' : Grant) : Type 0 where
  once_revoked : is_some g.revoked_at ≡ true → g' ≡ g
  same_end : g'.expires_at ≡ g.expires_at

serve-Follows :
    (s : MemGrantStore) (id : String) (g : Grant) (q : Request)
    → lookup id s ≡ some g
    → Keeps id q
    → (g' : Grant) × (lookup id (serve s q) ≡ some g') × Follows g g'
serve-Follows s id g q e h =
    let (g', at, how) = serve_at s id g q e h in
    (
      g',
      at,
      elim how [
        | inl same ↦ record { once_revoked = λ r. same; same_end = ap (λ x. x.expires_at) same }
        | inr (live, (t, eq)) ↦ record {
          once_revoked = λ r. (let l = ap is_some live in absurd (cc (r, l)));
          same_end = ap (λ x. x.expires_at) eq;
        }
      ],
    )

run-Follows :
    (s : MemGrantStore) (id : String) (g : Grant) (qs : List Request)
    → lookup id s ≡ some g
    → All (Keeps id) qs
    → (g' : Grant) × (lookup id (run s qs) ≡ some g') × Follows g g'
run-Follows s id g [] e h = (g, e, record { once_revoked = λ r. refl; same_end = refl })
run-Follows s id g (q ∷ qs) e h =
    let (g₁, at, f) = serve-Follows s id g q e h.0 in
    let (g₂, at', f') = run-Follows (serve s q) id g₁ qs at h.1 in
    (
      g₂,
      at',
      record {
        once_revoked = λ r.
            f'.once_revoked (ap (λ x. is_some x.revoked_at) (f.once_revoked r) ∙ r)
            ∙ f.once_revoked r;
        same_end = f'.same_end ∙ f.same_end;
      },
    )

is_past-le : (t t' : ℕ) (o : Option ℕ) → t ≤ t' → is_past t o ≡ true → is_past t' o ≡ true
is_past-le t t' none le e = e
is_past-le t t' (some x) le e = ground arith

Follows-rank :
    (g g' : Grant) (t t' : ℕ)
    → Follows g g'
    → t ≤ t'
    → rank (derive_status g t) ≤ rank (derive_status g' t')
unfolding derive_status
Follows-rank g g' t t' f le =
    let once : (is_some g.revoked_at ≡ true → is_some g'.revoked_at ≡ is_some g.revoked_at) =
      λ r. ap (λ x. is_some x.revoked_at) (f.once_revoked r) in
    let past = is_past-le t t' g.expires_at le in
    let same : is_past t' g'.expires_at ≡ is_past t' g.expires_at = ap (is_past t') f.same_end in
    ground arith

-- Through any run of calls that creates no grant under its id, a grant stays stored, its status only
-- goes forward (active, expired, revoked) as time passes, and once revoked it does not change at all.
pub run_forward :
    (s : MemGrantStore) (id : String) (g : Grant) (qs : List Request) (t t' : ℕ)
    → lookup id s ≡ some g
    → All (Keeps id) qs
    → t ≤ t'
    → (g' : Grant) × (lookup id (run s qs) ≡ some g')
      × (rank (derive_status g t) ≤ rank (derive_status g' t'))
      × (is_some g.revoked_at ≡ true → g' ≡ g)
run_forward s id g qs t t' e h le =
    let (g', at, f) = run-Follows s id g qs e h in
    (g', at, Follows-rank g g' t t' f le, f.once_revoked)

owned-lookup :
    (s : MemGrantStore) (tenant id : String) (g : Grant)
    → lookup id s ≡ some g
    → g.tenant_id ≡ tenant
    → owned tenant (lookup id s) ≡ some g
owned-lookup s tenant id g e t = rw e (rw ((str_eq_iff g.tenant_id tenant).1 t) refl)

-- If a grant of the tenant is stored under the id, a second revocation of it changes nothing and says
-- that it was revoked, answering the grant with the time of the first.
pub revoke_idempotent :
    (s : MemGrantStore) (tenant id : String) (g : Grant) (t t' : ℕ)
    → lookup id s ≡ some g
    → g.tenant_id ≡ tenant
    → revoke_grant (revoke_grant s tenant id t).0 tenant id t'
      ≡ ((revoke_grant s tenant id t).0, some (with_status t' (stamp t g), true))
unfolding revoke_grant
revoke_idempotent s tenant id g t t' e mine = go first
  where
    first : lookup id (revoke_grant s tenant id t).0 ≡ some (stamp t g)
    first =
        lookup-revoke_grant s tenant id t id
        ∙ rw ((str_eq_iff id id).1 refl) (rw e (rw ((str_eq_iff g.tenant_id tenant).1 mine) refl))

    go :
        lookup id (revoke_grant s tenant id t).0 ≡ some (stamp t g)
        → revoke_found
            (revoke_grant s tenant id t).0
            id
            t'
            (owned tenant (lookup id (revoke_grant s tenant id t).0))
          ≡ ((revoke_grant s tenant id t).0, some (with_status t' (stamp t g), true))
    go at = elim (Bool-cases (is_some g.revoked_at)) [
      | inl done ↦
          let at' : lookup id (revoke_grant s tenant id t).0 ≡ some g = at ∙ rw done refl in
          rw (owned-lookup _ tenant id g at' mine) (rw done refl)
      | inr live ↦
          let at' : lookup id (revoke_grant s tenant id t).0
              ≡ some (record g { revoked_at = some t }) =
            at ∙ rw live refl in
          rw (owned-lookup _ tenant id (record g { revoked_at = some t }) at' mine) (rw live refl)
    ]
