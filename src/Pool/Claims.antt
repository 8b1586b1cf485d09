-- ===== src/Pool/Claims.antt =====
-- The contract of `ClaimIdentity` (storage.go), every branch.
use x_auth_site.Base.{
  ℕ, ◌≤◌, ◌≡◌, refl, sym, ap, inl, inr, String, true, ◌&&◌, Option, none, some, List, [], ◌∷◌, All,
  Among, arith, str_eq, str_eq_iff, Bool-cases,
}
use x_auth_site.Base.Dict.{lookup}
use x_auth_site.Base.Dict.Laws.{lookup-Among}
use x_auth_site.Base.Sort.{sort_by, IsSorted, sort_by-IsSorted, Among-sort_by}
use x_auth_site.Pool.Store.{
  Pool, Identity, available, MemStorage, Result, ok, err, pool_not_found, persona_not_eligible,
  no_available_identity, is_available, contains_string, owned_pool, identity_older, in_pool,
  candidates, claim_first, claim_found, claim_identity,
}
use x_auth_site.Pool.Store.Steps.{IsValid, candidates_lem, claimed_by, put}

contains_string-Among : (xs : List String) (t : String) → contains_string xs t ≡ true → Among t xs
unfolding contains_string
contains_string-Among [] t e = absurd (cc e)
contains_string-Among (x ∷ xs) t e = elim (Bool-cases (str_eq x t)) [
  | inl here ↦ inl (sym ((str_eq_iff x t).0 here))
  | inr other ↦ inr (contains_string-Among xs t (rw other at e))
]

Among-contains_string : (xs : List String) (t : String) → Among t xs → contains_string xs t ≡ true
unfolding contains_string
Among-contains_string [] t m = absurd m
Among-contains_string (x ∷ xs) t (inl e) = ground (arith, str_eq_iff x t)
Among-contains_string (x ∷ xs) t (inr m) = ground (arith, Among-contains_string xs t m)

-- An identity that a claim may take.
pub record IsFree (s : MemStorage) (pool : String) (i : Identity) : Type 0 where
  pub stored : lookup i.id s.identities ≡ some i
  pub of_pool : i.pool_id ≡ pool
  pub is_free : i.status ≡ available

module _ (s : MemStorage) (tenant pool persona install : String) (now : ℕ) where
  -- What `claim_identity` promises in each of its branches.
  pub data ClaimSpec : MemStorage × Result Identity → Type 0 where
    no_pool : owned_pool tenant (lookup pool s.pools) ≡ none → ClaimSpec (s, err pool_not_found)
    not_eligible :
        (p : Pool)
        → owned_pool tenant (lookup pool s.pools) ≡ some p
        → ¬ Among persona p.persona_ids
        → ClaimSpec (s, err persona_not_eligible)
    exhausted :
        (p : Pool)
        → owned_pool tenant (lookup pool s.pools) ≡ some p
        → Among persona p.persona_ids
        → ((i : Identity) → ¬ IsFree s pool i)
        → ClaimSpec (s, err no_available_identity)
    taken :
        (p : Pool) (i : Identity)
        → owned_pool tenant (lookup pool s.pools) ≡ some p
        → Among persona p.persona_ids
        → IsFree s pool i
        → ((k : Identity) → IsFree s pool k → i.created_at ≤ k.created_at)
        → ClaimSpec (put s i.id (claimed_by i install now), ok (claimed_by i install now))

module _ (s : MemStorage) (tenant pool persona install : String) (now : ℕ) where
  abbrev Free : Identity → Type 0
  Free i = IsFree s pool i

  abbrev sorted_candidates : List Identity
  sorted_candidates = sort_by identity_older (candidates s pool)

  Among-candidates : (k : Identity) → Free k → Among k sorted_candidates
  Among-candidates k f = Among-sort_by identity_older k (candidates s pool) (
      lookup-Among (λ i. in_pool pool i && is_available i.status) k.id k s.identities f.stored
        (passes k f))
    where
      passes : (k : Identity) → Free k → (in_pool pool k && is_available k.status) ≡ true
      passes k f =
          let a : str_eq k.pool_id pool ≡ true = (str_eq_iff k.pool_id pool).1 f.of_pool in
          rw a (rw f.is_free refl)

  oldest_first : IsSorted (λ a b. a.created_at ≤ b.created_at) sorted_candidates
  oldest_first =
      sort_by-IsSorted identity_older (λ a b c ab bc. omega arith) (λ a b e. ground arith)
        (λ a b e. ground arith) (candidates s pool)

  pick_spec :
      (p : Pool)
      → owned_pool tenant (lookup pool s.pools) ≡ some p
      → Among persona p.persona_ids
      → (l : List Identity) → ((k : Identity) → Free k → Among k l)
      → IsSorted (λ a b. a.created_at ≤ b.created_at) l
      → All
          (λ i. (lookup i.id s.identities ≡ some i) × (i.pool_id ≡ pool) × (i.status ≡ available))
          l
      → ClaimSpec s tenant pool persona install now (claim_first s install now l)
  pick_spec p found eligible [] all sorted h = exhausted p found eligible (λ i f. all i f)
  pick_spec p found eligible (i ∷ l) all sorted ((there, of_pool, is_free), _) =
      taken p i found eligible (record { stored = there; of_pool = of_pool; is_free = is_free })
        (λ k f. elim (all k f) [
          | inl same ↦ (let e = ap (λ x. x.created_at) same in omega arith)
          | inr later ↦ first_le l sorted.0 k later
        ])
    where
      first_le :
          (l : List Identity)
          → All (λ b. i.created_at ≤ b.created_at) l
          → (k : Identity) → Among k l
          → i.created_at ≤ k.created_at
      first_le [] h k m = absurd m
      first_le (x ∷ l) h k (inl same) =
          let e = ap (λ x. x.created_at) same in let le = h.0 in omega arith
      first_le (x ∷ l) h k (inr m) = first_le l h.1 k m

  found_spec :
      (o : Option Pool)
      → owned_pool tenant (lookup pool s.pools) ≡ o
      → IsValid s
      → ClaimSpec s tenant pool persona install now (claim_found s pool persona install now o)
  found_spec none e v = no_pool e
  found_spec (some p) e v = elim (Bool-cases (contains_string p.persona_ids persona)) [
    | inl listed ↦ rw listed (
        pick_spec p e (contains_string-Among p.persona_ids persona listed) sorted_candidates
          Among-candidates oldest_first (candidates_lem s pool v))
    | inr other ↦
        rw other (not_eligible p e (λ m. cc (other, Among-contains_string p.persona_ids persona m)))
  ]

  -- On a well-formed storage, a claim answers with the oldest available identity of the tenant's pool and marks it claimed by
  -- the install, exactly if the pool exists, lists the persona and has an available identity; in
  -- each other case it changes nothing and names the first of these that fails.
  pub claim_identity-ClaimSpec :
      IsValid s
      → ClaimSpec s tenant pool persona install now
          (claim_identity s tenant pool persona install now)
  unfolding claim_identity
  claim_identity-ClaimSpec v = found_spec _ refl v
