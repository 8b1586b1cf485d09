-- ===== src/Grants/Single.antt =====
-- The audit entries of `RevokeGrant` (handlers.go): one for the first revocation of a grant.
use mathlib.Core.Path.{subst}
use x_auth_site.Base.{
  ℕ, ◌+◌, ◌≡◌, refl, sym, ap, ◌∙◌, ◌≢◌, String, Bool, true, false, Option, none, some, List, [],
  length, length-append, arith, if◌then◌else◌, str_eq_iff, str_eq_ne, is_some,
}
use x_auth_site.Base.Dict.{lookup, insert}
use x_auth_site.Grants.Store.{
  Grant, MemGrantStore, MemAuditStore, with_status, owned, append, audited, fresh_one, Handlers,
  revoke_found, revoke_grant, handle_revoke,
}
use x_auth_site.Grants.Forward.{revoke_idempotent}

pub length-audited :
    (log : MemAuditStore) (uuid tenant : String) (payload : List (String × String)) (now : ℕ)
    (o : Option (Grant × Bool))
    → length (audited log uuid tenant payload now o) ≡ length log + fresh_one o
unfolding append
length-audited log uuid tenant payload now none = omega arith
length-audited log uuid tenant payload now (some (_, true)) = omega arith
length-audited log uuid tenant payload now (some (x, false)) = length-append log _

fresh_first :
    (s : MemGrantStore) (tenant id : String) (g : Grant) (now : ℕ)
    → lookup id s ≡ some g
    → g.tenant_id ≡ tenant
    → fresh_one (revoke_grant s tenant id now).1 ≡ (if is_some g.revoked_at then 0 else 1)
unfolding revoke_grant
fresh_first s tenant id g now e mine =
    let there : owned tenant (lookup id s) ≡ some g =
      rw e (rw ((str_eq_iff g.tenant_id tenant).1 mine) refl) in
    subst (λ o. fresh_one (revoke_found s id now o).1 ≡ (if is_some g.revoked_at then 0 else 1))
      (sym there) (go (is_some g.revoked_at))
  where
    go :
        (b : Bool)
        → fresh_one
            (if◌then◌else◌ {A = MemGrantStore × Option (Grant × Bool)} b
              (s, some (with_status now g, true))
              (
                insert id (record g { revoked_at = some now }) s,
                some (with_status now (record g { revoked_at = some now }), false),
              )).1
          ≡ (if b then 0 else 1)
    go true = refl
    go false = refl

-- Two requests to revoke a grant of the tenant leave one audit entry, or none if the grant had been
-- revoked before.
pub handle_revoke_twice :
    (h : Handlers) (uuid uuid' tenant id : String) (g : Grant) (t t' : ℕ)
    → lookup id h.grants ≡ some g
    → g.tenant_id ≡ tenant
    → id ≢ ""
    → length
        (handle_revoke
          (handle_revoke h uuid (some tenant) id t).0
          uuid'
          (some tenant)
          id
          t').0.audit
      ≡ length h.audit + (if is_some g.revoked_at then 0 else 1)
unfolding handle_revoke
handle_revoke_twice h uuid uuid' tenant id g t t' e mine given = rw (str_eq_ne id "" given) (
    length-audited _ uuid' tenant [] t' _
    ∙ ap
        (λ o.
          length (audited h.audit uuid tenant [] t (revoke_grant h.grants tenant id t).1)
          + fresh_one o)
        (ap (λ p. p.1) (revoke_idempotent h.grants tenant id g t t' e mine))
    ∙ counted)
  where
    counted :
        length (audited h.audit uuid tenant [] t (revoke_grant h.grants tenant id t).1) + 0
        ≡ length h.audit + (if is_some g.revoked_at then 0 else 1)
    counted =
        let one = length-audited h.audit uuid tenant [] t (revoke_grant h.grants tenant id t).1 in
        let first = fresh_first h.grants tenant id g t e mine in omega arith
