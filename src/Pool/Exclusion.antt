-- ===== src/Pool/Exclusion.antt =====
-- The claim of storage.go (`ClaimIdentity`) gives an identity to one install at a time.
use x_auth_site.Base.{
  ℕ, ◌≡◌, refl, sym, ap, ◌∙◌, ◌≢◌, String, Bool, true, false, Option, none, some, List, [], ◌∷◌,
  All, if◌then◌else◌, str_eq_iff, some_inj,
}
use x_auth_site.Base.Dict.{lookup}
use x_auth_site.Base.Dict.Laws.{lookup-insert}
use x_auth_site.Base.Sort.{sort_by}
use x_auth_site.Pool.Store.{
  Pool, Identity, available, MemStorage, ok, err, contains_string, claim_first, claim_found,
  candidates, claim_identity, identity_older, persona_not_eligible,
}
use x_auth_site.Pool.Store.Steps.{Request, claim, serve, IsValid, put, candidates_lem, claimed_by}
use x_auth_site.Pool.Lifecycle.{run, run-IsValid, Spares, claim_holds}

-- What a successful claim has done: it took an available identity that it found in the pool.
record Claimed (s : MemStorage) (pool install : String) (now : ℕ) (j : Identity) (t : MemStorage)
    : Type 0 where
  before : Identity
  there : lookup before.id s.identities ≡ some before
  free : before.status ≡ available
  of_pool : before.pool_id ≡ pool
  answer : j ≡ claimed_by before install now
  stored : t ≡ put s before.id (claimed_by before install now)

ok_inj : {A : Type 0} {a b : A} → ok a ≡ ok b → a ≡ b
ok_inj e = cc e

module _ (s : MemStorage) where
  claim_first-Claimed :
      (pool install : String) (now : ℕ) (l : List Identity) (j : Identity)
      → All
          (λ i. (lookup i.id s.identities ≡ some i) × (i.pool_id ≡ pool) × (i.status ≡ available))
          l
      → (claim_first s install now l).1 ≡ ok j
      → Claimed s pool install now j (claim_first s install now l).0
  claim_first-Claimed pool install now [] j h e = absurd (cc e)
  claim_first-Claimed pool install now (i ∷ l) j ((there, same_pool, free), _) e = record {
    before = i;
    there = there;
    free = free;
    of_pool = same_pool;
    answer = sym (ok_inj e);
    stored = refl;
  }

  claim_found-Claimed :
      (pool persona install : String) (now : ℕ) (o : Option Pool) (j : Identity)
      → IsValid s
      → (claim_found s pool persona install now o).1 ≡ ok j
      → Claimed s pool install now j (claim_found s pool persona install now o).0
  claim_found-Claimed pool persona install now none j v e = absurd (cc e)
  claim_found-Claimed pool persona install now (some p) j v e =
      go (contains_string p.persona_ids persona) e
    where
      go :
          (b : Bool)
          → (if b
              then claim_first s install now (sort_by identity_older (candidates s pool))
              else (s, err persona_not_eligible)).1
            ≡ ok j
          → Claimed s pool install now j
              (if b
                then claim_first s install now (sort_by identity_older (candidates s pool))
                else (s, err persona_not_eligible)).0
      go true e = claim_first-Claimed pool install now _ j (candidates_lem s pool v) e
      go false e = absurd (cc e)

  claim-Claimed :
      (tenant pool persona install : String) (now : ℕ) (j : Identity)
      → IsValid s
      → (claim_identity s tenant pool persona install now).1 ≡ ok j
      → Claimed s pool install now j (claim_identity s tenant pool persona install now).0
  unfolding claim_identity
  claim-Claimed tenant pool persona install now j v e =
      claim_found-Claimed pool persona install now _ j v e

claim-IsValid :
    (s : MemStorage) (tenant pool persona install : String) (now : ℕ)
    → IsValid s
    → IsValid (claim_identity s tenant pool persona install now).0
unfolding serve
claim-IsValid s tenant pool persona install now v =
    run-IsValid s (claim tenant pool persona install now ∷ []) v

-- Two claims never hold the same identity: from a well-formed storage, after a claim that answered `i` and a run of calls that
-- neither release or revoke it, delete its pool nor add another under its id, a claim answers with
-- another identity.
pub claims_exclusive :
    (s : MemStorage) (tenant pool persona install tenant' pool' persona' install' : String)
    (now now' : ℕ) (i j : Identity) (qs : List Request)
    → IsValid s
    → (claim_identity s tenant pool persona install now).1 ≡ ok i
    → All (Spares i.id i.pool_id) qs
    → (claim_identity
        (run (claim_identity s tenant pool persona install now).0 qs)
        tenant'
        pool'
        persona'
        install'
        now').1
      ≡ ok j
    → j.id ≢ i.id
claims_exclusive s tenant pool persona install tenant' pool' persona' install' now now' i j qs v e h
      e' same =
    let first = claim-Claimed s tenant pool persona install now i v e in
    let t = (claim_identity s tenant pool persona install now).0 in
    let vt = claim-IsValid s tenant pool persona install now v in
    let held : lookup i.id (run t qs).identities ≡ some i =
      claim_holds t i.id i qs vt (there first) (ap (λ x. x.status) first.answer) h in
    let second =
      claim-Claimed (run t qs) tenant' pool' persona' install' now' j (run-IsValid t qs vt) e' in
    let eq : second.before ≡ i = some_inj (
      sym second.there
      ∙ ap (λ k. lookup k (run t qs).identities) (sym (ap (λ x. x.id) second.answer) ∙ same)
      ∙ held) in
    cc (ap (λ x. x.status) eq, second.free, ap (λ x. x.status) first.answer)
  where
    there :
        Claimed s pool install now i (claim_identity s tenant pool persona install now).0
        → lookup i.id (claim_identity s tenant pool persona install now).0.identities ≡ some i
    there c =
        ap (λ x. lookup i.id x.identities) c.stored
        ∙ lookup-insert c.before.id i.id (claimed_by c.before install now) s.identities
        ∙ rw ((str_eq_iff c.before.id i.id).1 (sym (ap (λ x. x.id) c.answer)))
            (ap some (sym c.answer))
