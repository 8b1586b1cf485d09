-- ===== src/Authenticator/Challenges/Accepted.antt =====
-- What a positive answer of `Verify` means, and what `Create` leaves behind (challenges.go).
use x_auth_site.Base.{ℕ, ◌≡◌, String, true, Option, some, List, arith, str_eq_refl}
use x_auth_site.Base.Dict.{lookup}
use x_auth_site.Ratex.{Allower}
use x_auth_site.Authenticator.Model.{Challenge, completed}
use x_auth_site.Authenticator.Store.{Store}
use x_auth_site.Authenticator.Store.Laws.{IsValid, lookup-write, owned}
use x_auth_site.Authenticator.Challenges.{
  Adapter, Service, Reading, outcome, Reply, verified, verify,
}
use x_auth_site.Authenticator.Challenges.Lifecycle.{
  Admitted, VerifySpec, refused, lapsed, accepted, rejected, verify-VerifySpec,
}

module _ {J : Type 0} (A : Allower) (registry : String → Option (Adapter J)) where
  -- The meaning of the reply `verified authenticator amr`.
  abbrev pub IsAcceptance :
      Service J A.State
      → (Reading → ℕ)
      → String
      → String
      → J
      → Store J
      → String
      → List String
      → Type 0
  IsAcceptance s clock tenant id response t authenticator amr =
      (c : Challenge) × (lookup id s.store.challenges ≡ some c)
      × (c.tenant_id ≡ tenant)
      × (a : Admitted A registry s clock tenant response c true) × (authenticator
          ≡ c.authenticator_id)
      × (amr ≡ a.amr)
      × (lookup id t.challenges
          ≡ some (record c { status = completed; completed_at = some (clock outcome) }))

  accepted_of_spec :
      (s : Service J A.State) (clock : Reading → ℕ) (tenant id : String) (response : J)
      (t : Store J) (r : Reply) (authenticator : String) (amr : List String)
      → VerifySpec A registry s clock tenant id response t r
      → r ≡ verified authenticator amr
      → IsAcceptance s clock tenant id response t authenticator amr
  accepted_of_spec s clock tenant id response t r x amr (refused _ e) h = absurd (ground arith)
  accepted_of_spec s clock tenant id response t r x amr (lapsed c _ _ _ _ e) h =
      absurd (ground arith)
  accepted_of_spec s clock tenant id response t r x amr (rejected c _ _ _ e) h =
      absurd (ground arith)
  accepted_of_spec s clock tenant id response t r x amr (accepted c there a e answer) h =
      let stored = owned s.store tenant id c there in
      (
        c,
        stored.0,
        stored.1,
        a,
        ground arith,
        ground arith,
        rw e (rw (lookup-write s.store id id _, str_eq_refl id)),
      )

  -- A caller that is told `verified` named a challenge of its own tenant, which was pending, not past
  -- its expiry and outside the backoff, on an account that was not locked; the adapter registered for
  -- the challenge's method accepted the response; and the challenge is now completed, with the time of the
  -- outcome, and otherwise as it was.
  pub verified_means :
      (s : Service J A.State) (clock : Reading → ℕ) (tenant id : String) (response : J)
      (authenticator : String) (amr : List String)
      → IsValid s.store
      → (verify A registry s clock (some tenant) id (some response)).1 ≡ verified authenticator amr
      → IsAcceptance s clock tenant id response
          (verify A registry s clock (some tenant) id (some response)).0.store
          authenticator
          amr
  verified_means s clock tenant id response authenticator amr v e =
      accepted_of_spec s clock tenant id response _ _ authenticator amr
        (verify-VerifySpec A registry s clock tenant id response v) e
