-- ===== src/Grants/Counts.antt =====
-- The summary that `RevokeGrantsForInstall` (handlers.go) answers, and its audit entries.
use mathlib.Core.Path.{subst}
use x_auth_site.Base.{
  ℕ, suc, ◌+◌, ◌≡◌, refl, sym, ap, ◌∙◌, inl, inr, String, Bool, true, false, Option, some, List, [],
  ◌∷◌, All, length, arith, if◌then◌else◌, str_eq, str_eq_iff, Bool-cases, is_some,
}
use x_auth_site.Base.Dict.{insert, lookup}
use x_auth_site.Base.Sort.{All_map}
use x_auth_site.Grants.Store.{
  Grant, MemGrantStore, with_status, owned, of_install, Handlers, fresh_one, already_one,
  revoke_grant, revoke_found, cascade_round, revoke_each, list_by_install,
  revoke_grants_for_install,
}
use x_auth_site.Grants.Revocation.{IsValid, stamped, lookup-revoke_grant}
use x_auth_site.Grants.Single.{length-audited}
use x_auth_site.Grants.Cascade.{listed_stored}

-- A grant of the tenant stands under the id.
abbrev Present : MemGrantStore → String → String → Type 0
Present s tenant id = (x : Grant) × (lookup id s ≡ some x) × (x.tenant_id ≡ tenant)

stamped_tenant :
    (tenant : String) (now : ℕ) (x : Grant)
    → x.tenant_id ≡ tenant
    → (y : Grant) × (stamped tenant now (some x) ≡ some y) × (y.tenant_id ≡ tenant)
stamped_tenant tenant now x e = elim (Bool-cases (is_some x.revoked_at)) [
  | inl done ↦ (x, rw ((str_eq_iff x.tenant_id tenant).1 e) (rw done refl), e)
  | inr live ↦ (
    record x { revoked_at = some now },
    rw ((str_eq_iff x.tenant_id tenant).1 e) (rw live refl),
    e,
  )
]

Present-revoke_grant :
    (s : MemGrantStore) (tenant id : String) (now : ℕ) (j : String)
    → Present s tenant j
    → Present (revoke_grant s tenant id now).0 tenant j
Present-revoke_grant s tenant id now j (x, e, mine) =
    let at = lookup-revoke_grant s tenant id now j in
    elim (Bool-cases (str_eq id j)) [
      | inl here ↦
          let (y, same, t) = stamped_tenant tenant now x mine in
          (y, at ∙ rw here (ap (stamped tenant now) e ∙ same), t)
      | inr other ↦ (x, at ∙ rw other e, mine)
    ]

module _ (h : Handlers) (uuid tenant : String) (now : ℕ) (g : Grant) where
  abbrev outcome : Option (Grant × Bool)
  outcome = (revoke_grant h.grants tenant g.id now).1

  audit_one : length (cascade_round h uuid tenant now g).audit ≡ length h.audit + fresh_one outcome
  audit_one = length-audited h.audit uuid tenant (("cause", "install_revoked") ∷ []) now outcome

  counted_one : Present h.grants tenant g.id → fresh_one outcome + already_one outcome ≡ 1
  unfolding revoke_grant
  counted_one (x, e, mine) =
      let there : owned tenant (lookup g.id h.grants) ≡ some x =
        rw e (rw ((str_eq_iff x.tenant_id tenant).1 mine) refl) in
      subst
        (λ o.
          fresh_one (revoke_found h.grants g.id now o).1
            + already_one (revoke_found h.grants g.id now o).1
          ≡ 1)
        (sym there) (go (is_some x.revoked_at))
    where
      go :
          (b : Bool)
          → fresh_one
                (if◌then◌else◌ {A = MemGrantStore × Option (Grant × Bool)} b
                  (h.grants, some (with_status now x, true))
                  (
                    insert g.id (record x { revoked_at = some now }) h.grants,
                    some (with_status now (record x { revoked_at = some now }), false),
                  )).1
              + already_one
                  (if◌then◌else◌ {A = MemGrantStore × Option (Grant × Bool)} b
                    (h.grants, some (with_status now x, true))
                    (
                      insert g.id (record x { revoked_at = some now }) h.grants,
                      some (with_status now (record x { revoked_at = some now }), false),
                    )).1
            ≡ 1
      go true = omega arith
      go false = omega arith

-- The counts of the loop: each grant is counted once, and each fresh one is audited.
record Counted (h : Handlers) (gs : List Grant) (fresh already : ℕ) (out : Handlers × (ℕ × ℕ))
    : Type 0 where
  every : out.1.0 + out.1.1 ≡ fresh + already + length gs
  entries : length out.0.audit + fresh ≡ length h.audit + out.1.0

revoke_each-Counted :
    (gs : List Grant) (h : Handlers) (uuid : ℕ → String) (k : ℕ) (tenant : String)
    (now fresh already : ℕ)
    → All (λ g. Present h.grants tenant g.id) gs
    → Counted h gs fresh already (revoke_each h uuid k tenant now gs fresh already)
unfolding revoke_each
revoke_each-Counted [] h uuid k tenant now fresh already p = record {
  every = omega arith;
  entries = omega arith;
}
revoke_each-Counted (g ∷ gs) h uuid k tenant now fresh already p =
    let one = counted_one h (uuid k) tenant now g p.0 in
    let log = audit_one h (uuid k) tenant now g in
    let rest =
      revoke_each-Counted gs (cascade_round h (uuid k) tenant now g) uuid (suc k) tenant now
        (fresh + fresh_one (outcome h (uuid k) tenant now g))
        (already + already_one (outcome h (uuid k) tenant now g))
        (All_map (λ x. Present-revoke_grant h.grants tenant g.id now x.id) gs p.1) in
    let every' = rest.every in
    let entries' = rest.entries in record { every = omega arith; entries = omega arith }

-- On a well-formed store, the summary of the revocation of an install adds up: each of its grants is counted as newly or
-- as already revoked, and the audit log has one more entry for each newly revoked one.
pub revoke_grants_for_install-counts :
    (h : Handlers) (uuid : ℕ → String) (tenant install : String) (now : ℕ)
    → IsValid h.grants
    → ((revoke_grants_for_install h uuid tenant install now).1.revoked_count
          + (revoke_grants_for_install h uuid tenant install now).1.already_revoked
        ≡ (revoke_grants_for_install h uuid tenant install now).1.total)
      × (length (revoke_grants_for_install h uuid tenant install now).0.audit
          ≡ length h.audit + (revoke_grants_for_install h uuid tenant install now).1.revoked_count)
unfolding revoke_grants_for_install
revoke_grants_for_install-counts h uuid tenant install now v =
    let c =
      revoke_each-Counted (list_by_install h.grants tenant install now) h uuid 0 tenant now 0 0
        (All_map present _ (listed_stored tenant install now h.grants v)) in
    let every = c.every in let entries = c.entries in (omega arith, omega arith)
  where
    present :
        (g : Grant)
        → ((x : Grant) × (lookup g.id h.grants ≡ some x) × (of_install tenant install x ≡ true))
        → Present h.grants tenant g.id
    present g (x, e, mine) = (x, e, ground (arith, str_eq_iff x.tenant_id tenant))
