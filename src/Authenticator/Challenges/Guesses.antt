-- ===== src/Authenticator/Challenges/Guesses.antt =====
-- How often a challenge can be guessed at, accepted and replayed (challenges.go, `Verify`), over
-- any sequence of requests, each of which completes before the next begins.
use mathlib.Core.Path.{subst}
use x_auth_site.Base.{
  ℕ, ◌+◌, ◌≤◌, ◌≡◌, refl, sym, ap, ◌∙◌, ◌≢◌, inl, inr, String, Bool, true, false, Option, none,
  some, List, [], ◌∷◌, arith, if◌then◌else◌, str_eq, str_eq_iff, Bool-cases, some_inj,
}
use x_auth_site.Base.Dict.{lookup}
use x_auth_site.Ratex.{Allower}
use x_auth_site.Authenticator.Model.{Challenge, ChallengeStatus, pending, max_challenge_attempts}
use x_auth_site.Authenticator.Store.{Store}
use x_auth_site.Authenticator.Store.Laws.{IsValid, IsConsistent, lookup-write, owned}
use x_auth_site.Authenticator.Challenges.{Adapter, Service, settle}
use x_auth_site.Authenticator.Challenges.Lifecycle.{verdict}
use x_auth_site.Authenticator.Challenges.Safety.{
  Request, is_rejection, is_acceptance, serve, Change, lapse, judge, Effect, idle, change,
  serve-Effect, verify-IsValid,
}

-- Whether a verdict is still possible.
abbrev pub open_count : ChallengeStatus → ℕ
open_count pending = 1
open_count _ = 0

-- A request's verdict on the challenge `id`: no verdict if it is on another.
abbrev pub about : String → String → Option Bool → Option Bool
about id asked v = if str_eq asked id then v else none

-- What one request does to a stored challenge, in numbers.
record Progress (c c' : Challenge) (v : Option Bool) : Type 0 where
  counted : c'.attempts ≡ c.attempts + is_rejection v
  spent : is_acceptance v + open_count c'.status ≤ open_count c.status
  closed : c.status ≢ pending → (c' ≡ c) × (v ≡ none)

settle-Progress :
    (passed : Bool) (now : ℕ) (c : Challenge)
    → c.status ≡ pending
    → Progress c (settle passed now c) (some passed)
settle-Progress true now c e = record {
  counted = omega arith;
  spent = ground arith;
  closed = λ h. absurd (h e);
}
settle-Progress false now c e = record {
  counted = ground arith;
  spent = ground arith;
  closed = λ h. absurd (h e);
}

Change-Progress :
    (c c' : Challenge) (v : Option Bool) → Change c c' v → c.status ≡ pending → Progress c c' v
Change-Progress c c' v (lapse e n) p =
    rw (e, n) (record { counted = omega arith; spent = ground arith; closed = λ h. absurd (h p) })
Change-Progress c c' v (judge passed now e n) p = rw (e, n) (settle-Progress passed now c p)

none-Progress : (c : Challenge) → Progress c c none
none-Progress c = record { counted = omega arith; spent = omega arith; closed = λ _. (refl, refl) }

about-none : (id asked : String) (v : Option Bool) → v ≡ none → about id asked v ≡ none
about-none id asked v e = ground arith

Effect-Progress :
    {J : Type 0} (s : Store J) (q : Request J) (t : Store J) (v : Option Bool) (id : String)
    (c : Challenge)
    → Effect s q t v
    → lookup id s.challenges ≡ some c
    → (c' : Challenge) × (lookup id t.challenges ≡ some c') × Progress c c' (about id q.id v)
Effect-Progress s q t v id c (idle same e) there =
    (c, rw same there, subst (Progress c c) (sym (about-none id q.id v e)) (none-Progress c))
Effect-Progress s q t v id c (change d d' owned_d open_ ch e) there =
    elim (Bool-cases (str_eq q.id id)) [
      | inl same ↦
          let here : d ≡ c = some_inj (
            sym (owned s q.tenant q.id d owned_d).0
            ∙ ap (λ k. lookup k s.challenges) ((str_eq_iff q.id id).0 same)
            ∙ there) in
          (
            d',
            rw e (rw (lookup-write s q.id id d', same)),
            rw same (subst (λ x. Progress x d' v) here (Change-Progress d d' v ch open_)),
          )
      | inr other ↦
          (c, rw e (rw (lookup-write s q.id id d', other) there), rw other (none-Progress c))
    ]

module _ {J : Type 0} (A : Allower) (registry : String → Option (Adapter J)) where
  pub run : Service J A.State → List (Request J) → Service J A.State
  run s [] = s
  run s (q ∷ qs) = run (serve A registry s q).0 qs

  -- The verdicts on one challenge, summed up by a count.
  pub tally : (Option Bool → ℕ) → String → Service J A.State → List (Request J) → ℕ
  tally f id s [] = 0
  tally f id s (q ∷ qs) =
      f (about id q.id (verdict (serve A registry s q).1)) + tally f id (serve A registry s q).0 qs

  step-Progress :
      (s : Service J A.State) (q : Request J) (id : String) (c : Challenge)
      → IsValid s.store
      → lookup id s.store.challenges ≡ some c
      → (c' : Challenge) × (lookup id (serve A registry s q).0.store.challenges ≡ some c')
        × Progress c c' (about id q.id (verdict (serve A registry s q).1))
  step-Progress s q id c v there =
      Effect-Progress s.store q _ _ id c (serve-Effect A registry s q v) there

  -- Every sequence of requests keeps the store valid.
  pub run-IsValid :
      (s : Service J A.State) (qs : List (Request J)) → IsValid s.store → IsValid (run s qs).store
  unfolding run
  run-IsValid s [] v = v
  run-IsValid s (q ∷ qs) v =
      run-IsValid (serve A registry s q).0 qs (verify-IsValid A registry s q v)

  run_progress :
      (s : Service J A.State) (qs : List (Request J)) (id : String) (c : Challenge)
      → IsValid s.store
      → lookup id s.store.challenges ≡ some c
      → (c' : Challenge) × (lookup id (run s qs).store.challenges ≡ some c')
        × (c'.attempts ≡ c.attempts + tally is_rejection id s qs)
        × (tally is_acceptance id s qs + open_count c'.status ≤ open_count c.status)
  unfolding run tally
  run_progress s [] id c v there = (c, there, omega arith, omega arith)
  run_progress s (q ∷ qs) id c v there =
      let (d, there', p) = step-Progress s q id c v there in
      let (c', final, counted, spent) =
        run_progress (serve A registry s q).0 qs id d (verify-IsValid A registry s q v) there' in
      (c', final, omega (arith, p.counted), omega (arith, p.spent))

  attempts_bound : (c : Challenge) → IsConsistent c → c.attempts ≤ max_challenge_attempts
  attempts_bound c h = ground arith

  -- If each request completes before the next begins: whatever requests arrive, in whatever order and at
  -- whatever times, a stored challenge of a well-formed store is rejected at most as often as it has
  -- attempts left of three, and is accepted at most once, and not at all if it is not pending.
  pub guesses_bounded :
      (s : Service J A.State) (qs : List (Request J)) (id : String) (c : Challenge)
      → IsValid s.store
      → lookup id s.store.challenges ≡ some c
      → (c.attempts + tally is_rejection id s qs ≤ 3)
        × (tally is_acceptance id s qs ≤ open_count c.status)
  guesses_bounded s qs id c v there =
      let (c', final, counted, spent) = run_progress s qs id c v there in
      let cap = attempts_bound c' ((run-IsValid s qs v).consistent id c' final) in
      (omega arith, omega arith)

  -- If each request completes before the next begins, a challenge that is not pending is final: no sequence of requests changes it, and none of them
  -- gets a verdict on it.
  pub terminal_final :
      (s : Service J A.State) (qs : List (Request J)) (id : String) (c : Challenge)
      → IsValid s.store
      → lookup id s.store.challenges ≡ some c
      → c.status ≢ pending
      → (lookup id (run s qs).store.challenges ≡ some c)
        × (tally is_rejection id s qs ≡ 0)
        × (tally is_acceptance id s qs ≡ 0)
  unfolding run tally
  terminal_final s [] id c v there h = (there, refl, refl)
  terminal_final s (q ∷ qs) id c v there h =
      let (d, there', p) = step-Progress s q id c v there in
      let (same, silent) = p.closed h in
      let (final, none_rejected, none_accepted) =
        terminal_final (serve A registry s q).0 qs id c (verify-IsValid A registry s q v)
          (there' ∙ ap some same) h in
      (final, rw silent (omega (arith, none_rejected)), rw silent (omega (arith, none_accepted)))

  Effect-isolated :
      (s : Store J) (q : Request J) (t : Store J) (v : Option Bool) (id : String) (c : Challenge)
      → Effect s q t v
      → lookup id s.challenges ≡ some c
      → c.tenant_id ≢ q.tenant
      → (lookup id t.challenges ≡ some c) × (about id q.id v ≡ none)
  Effect-isolated s q t v id c (idle same e) there h = (rw same there, about-none id q.id v e)
  Effect-isolated s q t v id c (change d d' owned_d open_ ch e) there h =
      elim (Bool-cases (str_eq q.id id)) [
        | inl same ↦
            let here : d ≡ c = some_inj (
              sym (owned s q.tenant q.id d owned_d).0
              ∙ ap (λ k. lookup k s.challenges) ((str_eq_iff q.id id).0 same)
              ∙ there) in
            absurd (h (ap (λ x. x.tenant_id) (sym here) ∙ (owned s q.tenant q.id d owned_d).1))
        | inr other ↦ (rw e (rw (lookup-write s q.id id d', other) there), rw other)
      ]

  -- Tenants are isolated: a request made under one tenant leaves the challenges of every other tenant
  -- as they were, and gets no verdict on them, whatever id it names.
  pub verify_isolated :
      (s : Service J A.State) (q : Request J) (id : String) (c : Challenge)
      → IsValid s.store
      → lookup id s.store.challenges ≡ some c
      → c.tenant_id ≢ q.tenant
      → (lookup id (serve A registry s q).0.store.challenges ≡ some c)
        × (about id q.id (verdict (serve A registry s q).1) ≡ none)
  verify_isolated s q id c v there h =
      Effect-isolated s.store q _ _ id c (serve-Effect A registry s q v) there h
