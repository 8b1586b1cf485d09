-- ===== src/Pool/Lifecycle.antt =====
-- The life cycle of an identity over sequences of calls of storage.go: a claim lasts until a release
-- or revocation, and a revocation lasts.
use mathlib.Core.Path.{subst}
use x_auth_site.Base.{
  ◌≡◌, refl, sym, ap, ◌∙◌, ◌≢◌, ◌⊎◌, inl, inr, String, false, not, some, List, [], ◌∷◌, All, str_eq,
  str_eq_iff, str_eq_ne, Bool-cases, some_inj,
}
use x_auth_site.Base.Dict.{lookup}
use x_auth_site.Base.Dict.Laws.{
  insert-IsDistinct, delete-IsDistinct, keep_if-IsDistinct, lookup-insert, lookup-keep_if,
  guarded-some,
}
use x_auth_site.Pool.Store.{Identity, claimed, revoked, MemStorage}
use x_auth_site.Pool.Store.Steps.{
  Request, create, remove, add, claim, release, revoke, serve, IsValid, Move, claiming, releasing,
  revoking, Effect, unchanged, created, removed, added, moved, put, serve-Effect,
}

abbrev pub run : MemStorage → List Request → MemStorage
run s [] = s
run s (q ∷ qs) = run (serve s q) qs

-- A read after a write finds what was written, or what was there.
put_inv :
    (s : MemStorage) (k id : String) (i j : Identity)
    → lookup id (put s k i).identities ≡ some j
    → ((k ≡ id) × (i ≡ j)) ⊎ (lookup id s.identities ≡ some j)
put_inv s k id i j e = elim (Bool-cases (str_eq k id)) [
  | inl same ↦ inl (
    (str_eq_iff k id).0 same,
    some_inj (rw same at (sym (lookup-insert k id i s.identities) ∙ e)),
  )
  | inr other ↦ inr (rw other at (sym (lookup-insert k id i s.identities) ∙ e))
]

put-IsValid : (s : MemStorage) (i : Identity) → IsValid s → IsValid (put s i.id i)
put-IsValid s i v = record {
  distinct_pools = v.distinct_pools;
  distinct = insert-IsDistinct i.id i s.identities v.distinct;
  named = λ id j e. elim (put_inv s i.id id i j e) [
    | inl (same, eq) ↦ sym (ap (λ x. x.id) eq) ∙ same
    | inr there ↦ v.named id j there
  ];
}

Move-id : {q : Request} {i i' : Identity} → Move q i i' → i'.id ≡ i.id
Move-id (claiming _ _) = refl
Move-id (releasing _ _) = refl
Move-id (revoking _) = refl

Effect-IsValid : {s t : MemStorage} {q : Request} → Effect s q t → IsValid s → IsValid t
Effect-IsValid unchanged v = v
Effect-IsValid {s = s} (created {p = p}) v = record {
  distinct_pools = insert-IsDistinct p.id p s.pools v.distinct_pools;
  distinct = v.distinct;
  named = v.named;
}
Effect-IsValid {s = s} (removed {id = id} _ _) v = record {
  distinct_pools = delete-IsDistinct id s.pools v.distinct_pools;
  distinct = keep_if-IsDistinct _ s.identities v.distinct;
  named = λ k i e.
      v.named k i (guarded-some _ _ i (sym (lookup-keep_if _ k s.identities v.distinct) ∙ e));
}
Effect-IsValid {s = s} (added {i = i} p _ _ _) v = put-IsValid s i v
Effect-IsValid {s = s} (moved {i = i} {i' = i'} there m) v =
    subst (λ k. IsValid (put s k i')) (Move-id m) (put-IsValid s i' v)

-- Every call keeps the storage well formed.
pub run-IsValid : (s : MemStorage) (qs : List Request) → IsValid s → IsValid (run s qs)
run-IsValid s [] v = v
run-IsValid s (q ∷ qs) v = run-IsValid (serve s q) qs (Effect-IsValid (serve-Effect s q v) v)

-- A request that neither deletes the pool of an identity nor adds another under its id.
abbrev pub Keeps : String → String → Request → Type 0
Keeps id pool (remove _ p) = p ≢ pool
Keeps id pool (add _ _ i) = i.id ≢ id
Keeps id pool _ = Unit

-- One that does not release or revoke it either.
abbrev pub Spares : String → String → Request → Type 0
Spares id pool (release _ k _) = k ≢ id
Spares id pool (revoke _ k _) = k ≢ id
Spares id pool (remove t p) = p ≢ pool
Spares id pool (add _ _ i) = i.id ≢ id
Spares id pool _ = Unit

Spares-Keeps : (id pool : String) (q : Request) → Spares id pool q → Keeps id pool q
Spares-Keeps id pool (create _) h = tt
Spares-Keeps id pool (remove _ _) h = h
Spares-Keeps id pool (add _ _ _) h = h
Spares-Keeps id pool (claim _ _ _ _ _) h = tt
Spares-Keeps id pool (release _ _ _) h = tt
Spares-Keeps id pool (revoke _ _ _) h = tt

put_other :
    (s : MemStorage) (k id : String) (i j : Identity)
    → k ≢ id
    → lookup id s.identities ≡ some j
    → lookup id (put s k i).identities ≡ some j
put_other s k id i j ne e = lookup-insert k id i s.identities ∙ rw (str_eq_ne k id ne) e

-- What a request leaves under the id of an identity: the identity, or the result of its move.
Effect-at :
    {s t : MemStorage} {q : Request} (id : String) (i : Identity)
    → Effect s q t
    → IsValid s
    → lookup id s.identities ≡ some i
    → Keeps id i.pool_id q
    → (lookup id t.identities ≡ some i)
      ⊎ ((i' : Identity) × Move q i i' × (lookup id t.identities ≡ some i'))
Effect-at id i unchanged v e h = inl e
Effect-at id i created v e h = inl e
Effect-at {s = s} id i (removed {id = p} _ _) v e h =
    let other : str_eq i.pool_id p ≡ false = str_eq_ne i.pool_id p (λ x. h (sym x)) in
    inl (
      lookup-keep_if (λ k. not (str_eq k.pool_id p)) id s.identities v.distinct
      ∙ rw e (rw other refl))
Effect-at {s = s} id i (added {i = j} _ _ _ _) v e h = inl (put_other s j.id id j i h e)
Effect-at {s = s} {q = q} id i (moved {i = j} {i' = j'} there m) v e h =
    elim (Bool-cases (str_eq j.id id)) [
      | inl same ↦
          let k : j.id ≡ id = (str_eq_iff j.id id).0 same in
          let eq : j ≡ i = some_inj (sym there ∙ ap (λ x. lookup x s.identities) k ∙ e) in
          inr (
            j',
            subst (λ x. Move q x j') eq m,
            lookup-insert j.id id j' s.identities ∙ rw same refl,
          )
      | inr other ↦ inl (lookup-insert j.id id j' s.identities ∙ rw other e)
    ]

claimed_stays :
    {q : Request} {i i' : Identity} → i.status ≡ claimed → Spares i.id i.pool_id q → Move q i i' → ⊥
claimed_stays c h (claiming free _) = cc (c, free)
claimed_stays c h (releasing _ same) = h (sym same)
claimed_stays c h (revoking same) = h (sym same)

-- In a well-formed storage a claimed identity is untouched by a run of calls none of which releases or revokes it, deletes
-- its pool or adds another under its id.
pub claim_holds :
    (s : MemStorage) (id : String) (i : Identity) (qs : List Request)
    → IsValid s
    → lookup id s.identities ≡ some i
    → i.status ≡ claimed
    → All (Spares id i.pool_id) qs
    → lookup id (run s qs).identities ≡ some i
claim_holds s id i [] v e c h = e
claim_holds s id i (q ∷ qs) v e c (h, rest) =
    let effect = serve-Effect s q v in
    let v' = Effect-IsValid effect v in
    elim (Effect-at id i effect v e (Spares-Keeps id i.pool_id q h)) [
      | inl same ↦ claim_holds (serve s q) id i qs v' same c rest
      | inr (i', m, _) ↦
          absurd (claimed_stays c (subst (λ k. Spares k i.pool_id q) (sym (v.named id i e)) h) m)
    ]

revoked_stays :
    {q : Request} {i i' : Identity} → i.status ≡ revoked → Move q i i' → i'.status ≡ revoked
revoked_stays r (claiming free _) = absurd (cc (r, free))
revoked_stays r (releasing alive _) = absurd (alive r)
revoked_stays r (revoking _) = refl

Move-pool_id : {q : Request} {i i' : Identity} → Move q i i' → i'.pool_id ≡ i.pool_id
Move-pool_id (claiming _ _) = refl
Move-pool_id (releasing _ _) = refl
Move-pool_id (revoking _) = refl

-- In a well-formed storage a revoked identity stays revoked through any run of calls, unless its pool is deleted or another
-- identity is added under its id.
pub revoked_final :
    (s : MemStorage) (id : String) (i : Identity) (qs : List Request)
    → IsValid s
    → lookup id s.identities ≡ some i
    → i.status ≡ revoked
    → All (Keeps id i.pool_id) qs
    → (j : Identity) × (lookup id (run s qs).identities ≡ some j) × (j.status ≡ revoked)
revoked_final s id i [] v e r h = (i, e, r)
revoked_final s id i (q ∷ qs) v e r (h, rest) =
    let effect = serve-Effect s q v in
    let v' = Effect-IsValid effect v in
    elim (Effect-at id i effect v e h) [
      | inl same ↦ revoked_final (serve s q) id i qs v' same r rest
      | inr (i', m, at) ↦
          revoked_final (serve s q) id i' qs v' at (revoked_stays r m)
            (subst (λ p. All (Keeps id p) qs) (sym (Move-pool_id m)) rest)
    ]
