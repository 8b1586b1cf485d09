-- ===== src/Authenticator/Store/Laws.antt =====
-- Laws of the in-memory Store (storage.go): tenant isolation, updates and the purge.
use mathlib.Core.Path.{subst}
use x_auth_site.Base.{
  ℕ, ◌<◌, ◌≡◌, sym, ◌∙◌, ◌⊎◌, inl, inr, String, true, not, Option, none, some, arith, if◌then◌else◌,
  str_eq, str_eq_iff, Bool-cases, Option-cases, is_some, some_inj,
}
use x_auth_site.Base.Dict.{lookup, insert, keep_if, guarded, IsDistinct}
use x_auth_site.Base.Dict.Laws.{
  guarded-some, lookup-insert, lookup-keep_if, insert-IsDistinct, keep_if-IsDistinct,
}
use x_auth_site.Authenticator.Model.{
  Challenge, ChallengeStatus, pending, completed, failed, expired, max_challenge_attempts,
}
use x_auth_site.Authenticator.Store.{
  Store, ok, get_challenge, update_challenge, purge_expired, is_stale, new_store,
}

-- What the counters of a challenge say in each status.
abbrev pub Consistent : ChallengeStatus → ℕ → Option ℕ → Type 0
Consistent pending attempts done = (attempts < max_challenge_attempts) × (done ≡ none)
Consistent completed attempts done = (attempts < max_challenge_attempts) × (is_some done ≡ true)
Consistent failed attempts done = (attempts ≡ max_challenge_attempts) × (done ≡ none)
Consistent expired attempts done = (attempts < max_challenge_attempts) × (done ≡ none)

abbrev pub IsConsistent : Challenge → Type 0
IsConsistent c = Consistent c.status c.attempts c.completed_at

-- The challenges of a store: each id once, each challenge under its own id, counters consistent.
pub record IsValid {J : Type 0} (s : Store J) : Type 0 where
  pub distinct : IsDistinct s.challenges
  pub named : (id : String) (c : Challenge) → lookup id s.challenges ≡ some c → c.id ≡ id
  pub consistent : (id : String) (c : Challenge) → lookup id s.challenges ≡ some c → IsConsistent c

abbrev pub write : {J : Type 0} → Store J → String → Challenge → Store J
write s id c = record s { challenges = insert id c s.challenges }

module _ {J : Type 0} where
  pub owned :
      (s : Store J) (tenant id : String) (c : Challenge)
      → get_challenge s tenant id ≡ some c
      → (lookup id s.challenges ≡ some c) × (c.tenant_id ≡ tenant)
  unfolding get_challenge
  owned s tenant id c e = elim (Option-cases (lookup id s.challenges)) [
    | inl missing ↦ ground (arith, missing)
    | inr (d, there) ↦ ground (arith, there, str_eq_iff d.tenant_id tenant)
  ]

  pub get_of_lookup :
      (s : Store J) (tenant id : String) (c : Challenge)
      → lookup id s.challenges ≡ some c
      → c.tenant_id ≡ tenant
      → get_challenge s tenant id ≡ some c
  unfolding get_challenge
  get_of_lookup s tenant id c e t = ground (arith, str_eq_iff c.tenant_id tenant)

  pub lookup-write :
      (s : Store J) (id j : String) (c : Challenge)
      → lookup j (write s id c).challenges ≡ (if str_eq id j then some c else lookup j s.challenges)
  lookup-write s id j c = lookup-insert id j c s.challenges

  -- A mutator that keeps the id and the tenant is applied to the stored challenge.
  pub update_owned :
      (s : Store J) (tenant id : String) (f : Challenge → Challenge) (c : Challenge)
      → IsValid s
      → get_challenge s tenant id ≡ some c
      → (f c).id ≡ c.id
      → (f c).tenant_id ≡ c.tenant_id
      → update_challenge s tenant id f ≡ (write s id (f c), ok (f c))
  unfolding update_challenge get_challenge
  update_owned s tenant id f c v e fi ft =
      let same_id = (str_eq_iff (f c).id id).1 (fi ∙ v.named id c (owned s tenant id c e).0) in
      let same_tenant = (str_eq_iff (f c).tenant_id tenant).1 (ft ∙ (owned s tenant id c e).1) in
      rw e (rw (same_id, same_tenant))

  -- A read after a write finds what was written, or what was there.
  write_inv :
      (s : Store J) (id j : String) (c d : Challenge)
      → lookup j (write s id c).challenges ≡ some d
      → ((id ≡ j) × (c ≡ d)) ⊎ (lookup j s.challenges ≡ some d)
  write_inv s id j c d e = elim (Bool-cases (str_eq id j)) [
    | inl same ↦
        inl ((str_eq_iff id j).0 same, some_inj (rw same at (sym (lookup-write s id j c) ∙ e)))
    | inr other ↦ inr (rw other at (sym (lookup-write s id j c) ∙ e))
  ]

  pub write-IsValid :
      (s : Store J) (id : String) (c : Challenge)
      → IsValid s
      → c.id ≡ id
      → IsConsistent c
      → IsValid (write s id c)
  write-IsValid s id c v named sound = record {
    distinct = insert-IsDistinct id c s.challenges v.distinct;
    named = λ j d e. elim (write_inv s id j c d e) [
      | inl (same, eq) ↦ rw (← eq, ← same) named
      | inr old ↦ v.named j d old
    ];
    consistent = λ j d e. elim (write_inv s id j c d e) [
      | inl (same, eq) ↦ subst IsConsistent eq sound
      | inr old ↦ v.consistent j d old
    ];
  }

  -- The purge drops the stale challenges and nothing else: a pending challenge at or past its expiry
  -- and one marked expired are gone, every other challenge (so each completed or failed one) is kept
  -- as it was, and the store stays valid.
  pub purge_expired-lookup :
      (s : Store J) (now : ℕ) (id : String)
      → IsValid s
      → (lookup id (purge_expired s now).0.challenges
          ≡ guarded (λ c. not (is_stale now c)) (lookup id s.challenges))
        × IsValid (purge_expired s now).0
  unfolding purge_expired
  purge_expired-lookup s now id v = (
    at id,
    record {
      distinct = keep_if-IsDistinct _ s.challenges v.distinct;
      named = λ j c e. v.named j c (from j c e);
      consistent = λ j c e. v.consistent j c (from j c e);
    },
  )
    where
      at :
          (j : String)
          → lookup j (keep_if (λ c. not (is_stale now c)) s.challenges)
            ≡ guarded (λ c. not (is_stale now c)) (lookup j s.challenges)
      at j = lookup-keep_if (λ c. not (is_stale now c)) j s.challenges v.distinct

      from :
          (j : String) (c : Challenge)
          → lookup j (keep_if (λ c. not (is_stale now c)) s.challenges) ≡ some c
          → lookup j s.challenges ≡ some c
      from j c e =
          guarded-some (λ c. not (is_stale now c)) (lookup j s.challenges) c (sym (at j) ∙ e)

pub new_store-IsValid : {J : Type 0} → IsValid (new_store {J = J})
unfolding new_store lookup
new_store-IsValid = record {
  distinct = tt;
  named = λ id c e. cc e;
  consistent = λ id c e. absurd (cc e);
}
