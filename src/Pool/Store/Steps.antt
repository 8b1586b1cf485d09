-- ===== src/Pool/Store/Steps.antt =====
-- The operations of storage.go as requests, and the one change that each can make.
use mathlib.Core.Path.{subst}
use x_auth_site.Base.{
  ℕ, ◌<◌, ◌≡◌, refl, sym, ap, ◌≢◌, inl, inr, String, true, false, not, ◌&&◌, Option, none, some,
  List, [], ◌∷◌, All, leb, arith, str_eq, str_eq_iff, Bool-cases, some_inj,
}
use x_auth_site.Base.Dict.{lookup, insert, delete, keep_if, IsDistinct}
use x_auth_site.Base.Dict.Laws.{values_where-All}
use x_auth_site.Base.Sort.{sort_by, sort_by-All}
use x_auth_site.Pool.Store.{
  Pool, Identity, IdentityStatus, available, claimed, revoked, MemStorage, is_available, is_revoked,
  unclaimed, contains_string, owned_pool, reach, reached, candidates, claim_first, claim_found,
  release_found, revoke_found, add_found, delete_found, identity_older, create_pool, delete_pool,
  add_identity, claim_identity, release_identity, revoke_identity, pool_count_locked,
}

-- A call that can change the storage.
pub data Request : Type 0 where
  create : Pool → Request
  remove : (tenant id : String) → Request
  add : (tenant pool : String) → Identity → Request
  claim : (tenant pool persona install : String) → ℕ → Request
  release : (tenant id : String) → ℕ → Request
  revoke : (tenant id : String) → ℕ → Request

unfoldable pub serve : MemStorage → Request → MemStorage
serve s (create p) = (create_pool s p).0
serve s (remove tenant id) = (delete_pool s tenant id).0
serve s (add tenant pool i) = (add_identity s tenant pool i).0
serve s (claim tenant pool persona install now) =
    (claim_identity s tenant pool persona install now).0
serve s (release tenant id now) = (release_identity s tenant id now).0
serve s (revoke tenant id now) = (revoke_identity s tenant id now).0

abbrev pub claimed_by : Identity → String → ℕ → Identity
claimed_by i install now = record i {
  status = claimed;
  claimed_by_install_id = some install;
  updated_at = now;
}

abbrev pub freed : Identity → ℕ → Identity
freed i now = record i { status = available; claimed_by_install_id = none; updated_at = now }

abbrev pub taken_away : Identity → ℕ → Identity
taken_away i now = record i { status = revoked; claimed_by_install_id = none; updated_at = now }

-- Each identity stands under its own id, and each id once.
pub record IsValid (s : MemStorage) : Type 0 where
  pub distinct_pools : IsDistinct s.pools
  pub distinct : IsDistinct s.identities
  pub named : (id : String) (i : Identity) → lookup id s.identities ≡ some i → i.id ≡ id

-- The moves of one identity in its life cycle, with the request that causes each.
pub data Move : Request → Identity → Identity → Type 0 where
  claiming :
      {tenant pool persona install : String} {now : ℕ} {i : Identity}
      → i.status ≡ available
      → i.pool_id ≡ pool
      → Move (claim tenant pool persona install now) i (claimed_by i install now)
  releasing :
      {tenant id : String} {now : ℕ} {i : Identity}
      → i.status ≢ revoked
      → i.id ≡ id
      → Move (release tenant id now) i (freed i now)
  revoking :
      {tenant id : String} {now : ℕ} {i : Identity}
      → i.id ≡ id
      → Move (revoke tenant id now) i (taken_away i now)

abbrev pub put : MemStorage → String → Identity → MemStorage
put s id i = record s { identities = insert id i s.identities }

-- All that a request can do: nothing, or one change of the storage.
pub data Effect (s : MemStorage) : Request → MemStorage → Type 0 where
  unchanged : {q : Request} → Effect s q s
  created : {p : Pool} → Effect s (create p) (record s { pools = insert p.id p s.pools })
  removed :
      {tenant id : String} {p : Pool}
      → lookup id s.pools ≡ some p
      → p.tenant_id ≡ tenant
      → Effect s (remove tenant id) (record {
        pools = delete id s.pools;
        identities = keep_if (λ i. not (str_eq i.pool_id id)) s.identities;
      })
  added :
      {tenant pool : String} {i : Identity} (p : Pool)
      → lookup pool s.pools ≡ some p
      → p.tenant_id ≡ tenant
      → pool_count_locked s pool < p.size
      → Effect s (add tenant pool i) (put s i.id i)
  moved :
      {q : Request} {i i' : Identity}
      → lookup i.id s.identities ≡ some i
      → Move q i i'
      → Effect s q (put s i.id i')

owned_pool-some :
    (tenant : String) (o : Option Pool) (p : Pool)
    → owned_pool tenant o ≡ some p
    → (o ≡ some p) × (p.tenant_id ≡ tenant)
owned_pool-some tenant none p e = absurd (cc e)
owned_pool-some tenant (some q) p e = ground (arith, str_eq_iff q.tenant_id tenant)

reach-some : (i j : Identity) (o : Option Pool) → reach j o ≡ some i → j ≡ i
reach-some i j none e = absurd (cc e)
reach-some i j (some p) e = some_inj e

reached-some :
    (s : MemStorage) (tenant : String) (o : Option Identity) (i : Identity)
    → reached s tenant o ≡ some i
    → o ≡ some i
reached-some s tenant none i e = absurd (cc e)
reached-some s tenant (some j) i e = ap some (reach-some i j _ e)

-- The identities that a claim chooses from are stored under their ids, available and of the pool.
pub candidates_lem :
    (s : MemStorage) (pool : String)
    → IsValid s
    → All
        (λ i. (lookup i.id s.identities ≡ some i) × (i.pool_id ≡ pool) × (i.status ≡ available))
        (sort_by identity_older (candidates s pool))
candidates_lem s pool v = sort_by-All identity_older _ (candidates s pool) (
    values_where-All _ _ s.identities v.distinct (λ k i e t. (
      subst (λ x. lookup x s.identities ≡ some i) (sym (v.named k i e)) e,
      ground (arith, str_eq_iff i.pool_id pool),
      status_available i.status (ground arith),
    )))
  where
    status_available : (st : IdentityStatus) → is_available st ≡ true → st ≡ available
    status_available available e = refl
    status_available claimed e = cc e
    status_available revoked e = cc e

module _ (s : MemStorage) where
  remove_found :
      (tenant id : String) (o : Option Pool)
      → ((p : Pool) → o ≡ some p → (lookup id s.pools ≡ some p) × (p.tenant_id ≡ tenant))
      → Effect s (remove tenant id) (delete_found s id o).0
  remove_found tenant id none h = unchanged
  remove_found tenant id (some p) h = removed (h p refl).0 (h p refl).1

  add-Effect :
      (tenant pool : String) (i : Identity) (o : Option Pool)
      → ((p : Pool) → o ≡ some p → (lookup pool s.pools ≡ some p) × (p.tenant_id ≡ tenant))
      → Effect s (add tenant pool i) (add_found s pool i o).0
  add-Effect tenant pool i none h = unchanged
  add-Effect tenant pool i (some p) h = elim (Bool-cases (leb p.size (pool_count_locked s pool))) [
    | inl full ↦ rw full unchanged
    | inr room ↦ rw room (added p (h p refl).0 (h p refl).1 (ground arith))
  ]

  claim-Effect :
      (tenant pool persona install : String) (now : ℕ) (l : List Identity)
      → All
          (λ i. (lookup i.id s.identities ≡ some i) × (i.pool_id ≡ pool) × (i.status ≡ available))
          l
      → Effect s (claim tenant pool persona install now) (claim_first s install now l).0
  claim-Effect tenant pool persona install now [] h = unchanged
  claim-Effect tenant pool persona install now (i ∷ l) ((there, same_pool, free), rest) =
      moved there (claiming free same_pool)

  claim_found-Effect :
      (tenant pool persona install : String) (now : ℕ) (o : Option Pool)
      → IsValid s
      → Effect s
          (claim tenant pool persona install now)
          (claim_found s pool persona install now o).0
  claim_found-Effect tenant pool persona install now none v = unchanged
  claim_found-Effect tenant pool persona install now (some p) v =
      elim (Bool-cases (contains_string p.persona_ids persona)) [
        | inl eligible ↦
            rw eligible (claim-Effect tenant pool persona install now _ (candidates_lem s pool v))
        | inr other ↦ rw other unchanged
      ]

  not_revoked : (st : IdentityStatus) → is_revoked st ≡ false → st ≢ revoked
  not_revoked st e r = let t : is_revoked st ≡ true = rw r refl in cc (e, t)

  moved_at :
      {q : Request} (id : String) (i i' : Identity)
      → IsValid s
      → lookup id s.identities ≡ some i
      → (i.id ≡ id → Move q i i')
      → Effect s q (put s id i')
  moved_at {q = q} id i i' v there f =
      let same = v.named id i there in
      subst (λ k. Effect s q (put s k i')) same
        (moved (subst (λ k. lookup k s.identities ≡ some i) (sym same) there) (f same))

  release-Effect :
      (tenant id : String) (now : ℕ) (o : Option Identity)
      → IsValid s
      → ((i : Identity) → o ≡ some i → lookup id s.identities ≡ some i)
      → Effect s (release tenant id now) (release_found s id now o).0
  release-Effect tenant id now none v h = unchanged
  release-Effect tenant id now (some i) v h = elim (Bool-cases (is_revoked i.status)) [
    | inl gone ↦ rw gone unchanged
    | inr alive ↦ elim (Bool-cases (is_available i.status && unclaimed i.claimed_by_install_id)) [
      | inl idle ↦ rw (alive, idle) unchanged
      | inr held ↦
          rw (alive, held)
            (moved_at id i (freed i now) v (h i refl) (releasing (not_revoked i.status alive)))
    ]
  ]

  revoke-Effect :
      (tenant id : String) (now : ℕ) (o : Option Identity)
      → IsValid s
      → ((i : Identity) → o ≡ some i → lookup id s.identities ≡ some i)
      → Effect s (revoke tenant id now) (revoke_found s id now o).0
  revoke-Effect tenant id now none v h = unchanged
  revoke-Effect tenant id now (some i) v h = moved_at id i (taken_away i now) v (h i refl) revoking

  -- Each request makes at most the one change that `Effect` gives for it.
  pub serve-Effect : (q : Request) → IsValid s → Effect s q (serve s q)
  unfolding serve create_pool delete_pool add_identity claim_identity release_identity
      revoke_identity
  serve-Effect (create p) v = created
  serve-Effect (remove tenant id) v = remove_found tenant id _ (owned_pool-some tenant _)
  serve-Effect (add tenant pool i) v = add-Effect tenant pool i _ (owned_pool-some tenant _)
  serve-Effect (claim tenant pool persona install now) v =
      claim_found-Effect tenant pool persona install now _ v
  serve-Effect (release tenant id now) v =
      release-Effect tenant id now _ v (reached-some s tenant _)
  serve-Effect (revoke tenant id now) v = revoke-Effect tenant id now _ v (reached-some s tenant _)
