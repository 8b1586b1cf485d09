-- ===== src/Pool/Compensation.antt =====
-- A claim and the release that undoes it, at the handlers of the pool service.
use x_auth_site.Base.{
  ℕ, ◌≡◌, refl, sym, ap, ◌∙◌, ◌≢◌, inl, inr, String, some, some_inj, str_eq, str_eq_ne, Bool-cases,
}
use mathlib.Core.Path.{subst}
use x_auth_site.Base.Dict.{lookup}
use x_auth_site.Base.Dict.Laws.{lookup-insert, lookup-insert_self}
use x_auth_site.Pool.Store.{Pool, Identity, MemStorage, Result, owned_pool, release_identity}
use x_auth_site.Pool.Store.Steps.{IsValid, claimed_by, freed, put}
use x_auth_site.Pool.Claims.{
  ClaimSpec, no_pool, not_eligible, exhausted, taken, claim_identity-ClaimSpec,
}
use x_auth_site.Pool.Server.{
  Reply, identity_answer, ClaimRequest, handle_claim, handle_release, identity_reply,
}

-- No identity is claimed by the install.
abbrev pub IsUnheld : String → MemStorage → Type 0
IsUnheld install s =
    (id : String) (i : Identity)
    → lookup id s.identities ≡ some i
    → i.claimed_by_install_id ≢ some install

-- What the claim has done, if it has answered with an identity.
pub data ClaimOutcome (s : MemStorage) (tenant install : String) : MemStorage × Reply → Type 0 where
  claim_refused :
      {r : Reply} → ((i : Identity) → r ≢ identity_answer i) → ClaimOutcome s tenant install (s, r)
  claim_taken :
      (p : Pool) (i : Identity) (now : ℕ)
      → owned_pool tenant (lookup i.pool_id s.pools) ≡ some p
      → lookup i.id s.identities ≡ some i
      → ClaimOutcome s tenant install
          (put s i.id (claimed_by i install now), identity_answer (claimed_by i install now))

spec-ClaimOutcome :
    (s : MemStorage) (tenant pool persona install : String) (now : ℕ)
    (out : MemStorage × Result Identity)
    → ClaimSpec s tenant pool persona install now out
    → ClaimOutcome s tenant install (out.0, identity_reply out.1)
spec-ClaimOutcome s tenant pool persona install now _ (no_pool x) = claim_refused (λ i e. cc e)
spec-ClaimOutcome s tenant pool persona install now _ (not_eligible p x y) =
    claim_refused (λ i e. cc e)
spec-ClaimOutcome s tenant pool persona install now _ (exhausted p x y z) =
    claim_refused (λ i e. cc e)
spec-ClaimOutcome s tenant pool persona install now _ (taken p i found y free z) =
    claim_taken p i now (ap (λ k. owned_pool tenant (lookup k s.pools)) free.of_pool ∙ found)
      free.stored

pub handle_claim-ClaimOutcome :
    (trim : String → String) (s : MemStorage) (tenant pool : String) (r : ClaimRequest) (now : ℕ)
    → IsValid s
    → ClaimOutcome s tenant r.install_id (handle_claim trim s (some tenant) pool (some r) now)
unfolding handle_claim
handle_claim-ClaimOutcome trim s tenant pool r now valid = elim (Bool-cases (str_eq pool "")) [
  | inl blank ↦ rw blank (claim_refused (λ i e. cc e))
  | inr pool_named ↦ elim (Bool-cases (str_eq (trim r.persona_id) "")) [
    | inl blank ↦ rw (pool_named, blank) (claim_refused (λ i e. cc e))
    | inr persona_named ↦ elim (Bool-cases (str_eq (trim r.install_id) "")) [
      | inl blank ↦ rw (pool_named, persona_named, blank) (claim_refused (λ i e. cc e))
      | inr install_named ↦
          rw (pool_named, persona_named, install_named)
            (spec-ClaimOutcome s tenant pool r.persona_id r.install_id now _
              (claim_identity-ClaimSpec s tenant pool r.persona_id r.install_id now valid))
    ]
  ]
]

module _ (s : MemStorage) (tenant install : String) (p : Pool) (i : Identity) (now now' : ℕ)
    (owned : owned_pool tenant (lookup i.pool_id s.pools) ≡ some p) where
  abbrev after_claim : MemStorage
  after_claim = put s i.id (claimed_by i install now)

  -- The release that follows a claim frees the identity.
  release_claimed :
      i.id ≢ ""
      → (handle_release after_claim (some tenant) i.id now').0
        ≡ put after_claim i.id (freed (claimed_by i install now) now')
  unfolding handle_release release_identity
  release_claimed named =
      let at : lookup i.id after_claim.identities ≡ some (claimed_by i install now) =
        lookup-insert_self i.id (claimed_by i install now) s.identities in
      rw (str_eq_ne i.id "" named, at, owned) refl

  pub release-IsUnheld :
      i.id ≢ ""
      → IsUnheld install s
      → IsUnheld install (handle_release after_claim (some tenant) i.id now').0
  release-IsUnheld named unheld = subst (IsUnheld install) (sym (release_claimed named)) freed_again
    where
      freed_again : IsUnheld install (put after_claim i.id (freed (claimed_by i install now) now'))
      freed_again id j found = elim (Bool-cases (str_eq i.id id)) [
        | inl same ↦
            let here : some (freed (claimed_by i install now) now') ≡ some j =
              sym (
                lookup-insert i.id id (freed (claimed_by i install now) now') after_claim.identities
                ∙ rw same refl)
              ∙ found in
            λ held. cc (ap (λ x. x.claimed_by_install_id) (some_inj here) ∙ held)
        | inr other ↦ unheld id j (
            sym (lookup-insert i.id id (claimed_by i install now) s.identities ∙ rw other refl)
            ∙ sym (
                lookup-insert i.id id (freed (claimed_by i install now) now') after_claim.identities
                ∙ rw other refl)
            ∙ found)
      ]
