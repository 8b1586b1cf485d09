-- ===== src/Authenticator/Challenges/Overlap.antt =====
-- Requests to `Verify` (challenges.go) that overlap: how many wrong answers a challenge takes then.
pub mod Bound
use mathlib.Core.Path.{subst}
use x_auth_site.Base.{
  ℕ, zero, suc, ◌+◌, ◌≤◌, ◌≡◌, refl, sym, ap, ◌∙◌, ◌⊎◌, inl, inr, String, Bool, true, false, not,
  Option, none, some, List, [], ◌∷◌, arith, leb, if◌then◌else◌, ltb, ◌||◌, str_eq, str_eq_iff,
  Bool-cases, Option-cases, some_inj,
}
use x_auth_site.Base.Dict.{lookup}
use x_auth_site.Ratex.{Allower}
use x_auth_site.Authenticator.Model.{Challenge, ChallengeStatus, pending}
use x_auth_site.Authenticator.Lockout.{Lockout, LockStatus, abuse_key, locked}
use x_auth_site.Authenticator.Backoff.{backoff_remaining}
use x_auth_site.Authenticator.Store.{
  Store, StoreError, not_found, immutable_changed, Result, ok, err, update_challenge, update_found,
  owned_challenge, is_pending, get_challenge,
}
use x_auth_site.Authenticator.Store.Laws.{IsValid, write, lookup-write}
use x_auth_site.Authenticator.Challenges.{
  Adapter, VerifyOutcome, answered, verify_error, Service, Reading, outcome, expiry_check,
  backoff_check, lock_check, settle, expire, is_failed, max_attempts_exceeded, invalid_response,
}
use x_auth_site.Authenticator.Challenges.Lifecycle.{verdict, counted, settle-counted}
use x_auth_site.Authenticator.Challenges.Safety.{Request, is_rejection}
use x_auth_site.Authenticator.Challenges.Guesses.{open_count}
use x_auth_site.Authenticator.Challenges.Stages.{
  Stage, fetched, lapsing, judged, failure, replied, first_stage, first_found, outcome_stage,
  adapter_stage, open_stage, lock_stage, write_stage, advance,
}

-- Whether a request may still write an outcome: it has read a pending challenge, and no outcome is written.
abbrev pub live : Stage → ℕ
live (fetched c) = open_count c.status
live (judged c passed amr) = 1
live _ = 0

-- Whether a request has been rejected.
abbrev pub told : Stage → ℕ
told (failure user c) = 1
told (replied r) = is_rejection (verdict r)
told _ = 0

-- A count for the requests that name the challenge.
abbrev pub naming : String → String → ℕ → ℕ
naming id asked n = if str_eq asked id then n else 0

-- An update does nothing and fails, or writes the mutated challenge.
update-cases :
    {J : Type 0} (s : Store J) (tenant id : String) (f : Challenge → Challenge)
    → ((e : StoreError) × (update_challenge s tenant id f ≡ (s, err e)))
      ⊎ ((c : Challenge) × (lookup id s.challenges ≡ some c)
          × (update_challenge s tenant id f ≡ (write s id (f c), ok (f c))))
unfolding update_challenge
update-cases s tenant id f = elim (Option-cases (lookup id s.challenges)) [
  | inl missing ↦ inl (not_found, rw missing refl)
  | inr (c, there) ↦ elim (Bool-cases (str_eq c.tenant_id tenant)) [
    | inr theirs ↦ inl (not_found, rw (there, theirs) refl)
    | inl mine ↦
        elim (Bool-cases (not (str_eq (f c).id id) || not (str_eq (f c).tenant_id tenant))) [
          | inl moved ↦ inl (immutable_changed, rw (there, mine, moved) refl)
          | inr kept ↦ inr (c, there, rw (there, mine, kept) refl)
        ]
  ]
]

-- What one stage of a request does about a stored challenge.
pub record Kept {J : Type 0} (id asked : String) (c : Challenge) (st st' : Stage) (t : Store J)
    : Type 0 where
  pub after : Challenge
  pub there : lookup id t.challenges ≡ some after
  pub spent : after.attempts + naming id asked (live st') ≤ c.attempts + naming id asked (live st)
  pub counts : after.attempts + naming id asked (told st) ≡ c.attempts + naming id asked (told st')
  pub sound : after.status ≡ pending → after.attempts ≤ 2

untouched :
    {J : Type 0} (id asked : String) (c : Challenge) (st st' : Stage) (t : Store J)
    → lookup id t.challenges ≡ some c
    → (c.status ≡ pending → c.attempts ≤ 2)
    → live st' ≤ live st
    → told st ≡ told st'
    → Kept id asked c st st' t
untouched id asked c st st' t there sound less same = record {
  after = c;
  there = there;
  spent = ground (arith, less);
  counts = rw same refl;
  sound = sound;
}

-- A write of `d'` for `d` under the id that is asked for.
written :
    {J : Type 0} (id asked : String) (c d d' : Challenge) (st st' : Stage) (s : Store J)
    → lookup id s.challenges ≡ some c
    → lookup asked s.challenges ≡ some d
    → (c.status ≡ pending → c.attempts ≤ 2)
    → (d'.attempts + live st' ≤ d.attempts + live st)
    → (d'.attempts + told st ≡ d.attempts + told st')
    → ((d.status ≡ pending → d.attempts ≤ 2) → d'.status ≡ pending → d'.attempts ≤ 2)
    → Kept id asked c st st' (write s asked d')
written id asked c d d' st st' s at asked_at sound spent counts sound' =
    elim (Bool-cases (str_eq asked id)) [
      | inl same ↦
          let here : d ≡ c =
            some_inj (
              sym asked_at ∙ ap (λ k. lookup k s.challenges) ((str_eq_iff asked id).0 same) ∙ at) in
          let fewer = ap (λ x. x.attempts) here in
          record {
            after = d';
            there = lookup-write s asked id d' ∙ rw same refl;
            spent = rw same (omega (arith, spent, fewer));
            counts = rw same (omega (arith, counts, fewer));
            sound = sound' (subst (λ x. x.status ≡ pending → x.attempts ≤ 2) (sym here) sound);
          }
      | inr other ↦ record {
        after = c;
        there = lookup-write s asked id d' ∙ rw other at;
        spent = rw other (omega arith);
        counts = rw other refl;
        sound = sound;
      }
    ]

module _ {J : Type 0} (A : Allower) (registry : String → Option (Adapter J)) where
  -- Between the read and the verdict, a request stays live only on a challenge it has read as pending.
  abbrev IsAhead : Challenge → Stage → Type 0
  IsAhead c st = (live st ≤ open_count c.status) × (told st ≡ 0)

  open_stage-IsAhead : (q : Request J) (c : Challenge) → IsAhead c (open_stage A registry q c)
  open_stage-IsAhead q c = elim (Bool-cases (is_pending c.status)) [
    | inr closed ↦ rw closed (omega arith, refl)
    | inl still ↦ elim (Bool-cases (ltb (q.clock expiry_check) c.expires_at)) [
      | inr late ↦ rw (still, late) (omega arith, refl)
      | inl early ↦ elim (Bool-cases (ltb 0 (backoff_remaining c (q.clock backoff_check)))) [
        | inl soon ↦ rw (still, early, soon) (omega arith, refl)
        | inr waited ↦ rw (still, early, waited) (adapter (open_one still) (registry c.method))
      ]
    ]
  ]
    where
      open_one : is_pending c.status ≡ true → 1 ≤ open_count c.status
      open_one p = ground (arith, p)

      outcome_ahead :
          1 ≤ open_count c.status → (v : VerifyOutcome) → IsAhead c (outcome_stage A registry c v)
      outcome_ahead one verify_error = (omega arith, refl)
      outcome_ahead one (answered passed amr) = (one, refl)

      adapter :
          1 ≤ open_count c.status
          → (o : Option (Adapter J)) → IsAhead c (adapter_stage A registry q c o)
      adapter one none = (omega arith, refl)
      adapter one (some a) = outcome_ahead one (a.verify c q.response)

  lock_stage-IsAhead :
      (s : Service J A.State) (q : Request J) (c : Challenge)
      (out : Option (Lockout A.State) × LockStatus)
      → ((lock_stage A registry s q c out).0.store ≡ s.store)
        × IsAhead c (lock_stage A registry s q c out).1
  lock_stage-IsAhead s q c (lockout, status) = elim (Bool-cases status.is_locked) [
    | inl held ↦ rw held (refl, (omega arith, refl))
    | inr free ↦ rw free (refl, open_stage-IsAhead q c)
  ]

  rejected_once :
      (b : Bool)
      → is_rejection (verdict (if b then max_attempts_exceeded else invalid_response)) ≡ 1
  rejected_once true = refl
  rejected_once false = refl

  module _ (s : Service J A.State) (q : Request J) (id : String) (c : Challenge)
      (at : lookup id s.store.challenges ≡ some c)
      (sound : c.status ≡ pending → c.attempts ≤ 2) where
    judged-Kept :
        (read : Challenge) (passed : Bool) (amr : List String)
        → Kept id q.id c
            (judged read passed amr)
            (advance A registry s q (judged read passed amr)).1
            (advance A registry s q (judged read passed amr)).0.store
    judged-Kept read passed amr =
        elim (update-cases s.store q.tenant q.id (settle passed (q.clock outcome))) [
          | inl (not_found, e) ↦ rw e (untouched id q.id c _ _ s.store at sound (omega arith) refl)
          | inl (immutable_changed, e) ↦
              rw e (untouched id q.id c _ _ s.store at sound (omega arith) refl)
          | inr (d, there, e) ↦ rw e (outcome_written passed d there)
        ]
      where
        outcome_written :
            (b : Bool) (d : Challenge)
            → lookup q.id s.store.challenges ≡ some d
            → Kept id q.id c
                (judged read b amr)
                (write_stage A registry s read b amr (
                  write s.store q.id (settle b (q.clock outcome) d),
                  ok (settle b (q.clock outcome) d),
                )).1
                (write_stage A registry s read b amr (
                  write s.store q.id (settle b (q.clock outcome) d),
                  ok (settle b (q.clock outcome) d),
                )).0.store
        outcome_written true d there =
            written id q.id c d _ _ _ s.store at there sound (omega arith) refl
              (λ h p. absurd (cc p))
        outcome_written false d there =
            subst
              (λ d'.
                Kept id q.id c (judged read false amr) (failure read.user_id d')
                  (write s.store q.id d'))
              (sym (settle-counted (q.clock outcome) d))
              (written id q.id c d (counted (q.clock outcome) d) _ _ s.store at there sound
                (omega arith) (omega arith) (λ h p. ground (arith, p)))

    pub advance-Kept :
        (st : Stage)
        → Kept id q.id c st (advance A registry s q st).1 (advance A registry s q st).0.store
    advance-Kept (fetched read) =
        let (same, (less, silent)) =
          lock_stage-IsAhead s q read
            (locked s.lockout (abuse_key q.tenant read.user_id) (q.clock lock_check)) in
        untouched id q.id c _ _ _ (ap (λ t. lookup id t.challenges) same ∙ at) sound less
          (sym silent)
    advance-Kept lapsing = elim (update-cases s.store q.tenant q.id expire) [
      | inl (_, e) ↦ rw e (untouched id q.id c _ _ s.store at sound (omega arith) refl)
      | inr (d, there, e) ↦ rw e (
          written id q.id c d (expire d) _ _ s.store at there sound (omega arith) refl
            (λ h p. absurd (cc p)))
    ]
    advance-Kept (judged read passed amr) = judged-Kept read passed amr
    advance-Kept (failure user d) =
        untouched id q.id c _ _ s.store at sound (omega arith)
          (sym (rejected_once (is_failed d.status)))
    advance-Kept (replied r) = untouched id q.id c _ _ s.store at sound (omega arith) refl
