-- ===== src/Authenticator/Challenges/Lifecycle.antt =====
-- The specification of `Verify` (challenges.go): the four things that a request can do to a store.
use x_auth_site.Base.{
  ℕ, ◌+◌, ◌≤◌, ◌<◌, ◌≡◌, refl, ap, inl, inr, String, Bool, true, false, Option, none, some, List,
  arith, ltb, leb, if◌then◌else◌, str_eq, Bool-cases, Option-cases,
}
use x_auth_site.Ratex.{Allower}
use x_auth_site.Authenticator.Model.{
  Challenge, ChallengeStatus, pending, completed, failed, expired, max_challenge_attempts,
}
use x_auth_site.Authenticator.Lockout.{Lockout, abuse_key, locked}
use x_auth_site.Authenticator.Backoff.{backoff_remaining}
use x_auth_site.Authenticator.Store.{Store, get_challenge, update_challenge, is_pending, ok}
use x_auth_site.Authenticator.Store.Laws.{IsValid, write, update_owned}
use x_auth_site.Authenticator.Challenges.{
  Adapter, answered, verify_error, VerifyOutcome, Service, Reading, lock_check, expiry_check,
  backoff_check, outcome, Reply, verified, max_attempts_exceeded, invalid_response,
  challenge_expired, settle, expire, verify, verify_checked, verify_unlocked, verify_adapter,
  verify_outcome, conclude,
}

-- The adapter's verdict that a reply reports, if it reports one.
abbrev pub verdict : Reply → Option Bool
verdict (verified _ _) = some true
verdict max_attempts_exceeded = some false
verdict invalid_response = some false
verdict _ = none

-- A challenge after a wrong answer: one attempt more, made now, and failed at the third.
abbrev pub counted : ℕ → Challenge → Challenge
counted now c = record c {
  attempts = c.attempts + 1;
  last_attempt_at = some now;
  status = if leb 3 (c.attempts + 1) then failed else c.status;
}

pub settle-counted : (now : ℕ) (c : Challenge) → settle false now c ≡ counted now c
settle-counted now c = elim (Bool-cases (leb max_challenge_attempts (c.attempts + 1))) [
  | inl last ↦ rw last refl
  | inr more ↦ rw more refl
]

pub settle-id : (passed : Bool) (now : ℕ) (c : Challenge) → (settle passed now c).id ≡ c.id
settle-id true now c = refl
settle-id false now c = ground arith

pub settle-tenant :
    (passed : Bool) (now : ℕ) (c : Challenge) → (settle passed now c).tenant_id ≡ c.tenant_id
settle-tenant true now c = refl
settle-tenant false now c = ground arith

is_pending-pending : (st : ChallengeStatus) → is_pending st ≡ true → st ≡ pending
is_pending-pending st e = ground arith

module _ {J : Type 0} (A : Allower) (registry : String → Option (Adapter J)) where
  -- The guards that a request on challenge `c` has passed when an adapter answers.
  pub record Admitted (s : Service J A.State) (clock : Reading → ℕ) (tenant : String) (response : J)
      (c : Challenge) (passed : Bool) : Type 0 where
    pub is_open : c.status ≡ pending
    pub in_time : clock expiry_check < c.expires_at
    pub backed_off : backoff_remaining c (clock backoff_check) ≡ 0
    pub not_locked :
        (locked s.lockout (abuse_key tenant c.user_id) (clock lock_check)).1.is_locked ≡ false
    pub adapter : Adapter J
    pub registered : registry c.method ≡ some adapter
    pub amr : List String
    pub judged : adapter.verify c response ≡ answered passed amr

  pub data VerifySpec (s : Service J A.State) (clock : Reading → ℕ) (tenant : String) (id : String)
      (response : J) (t : Store J) (r : Reply) : Type 0 where
    refused : t ≡ s.store → verdict r ≡ none → VerifySpec s clock tenant id response t r
    lapsed :
        (c : Challenge)
        → get_challenge s.store tenant id ≡ some c
        → c.status ≡ pending
        → c.expires_at ≤ clock expiry_check
        → t ≡ write s.store id (record c { status = expired })
        → r ≡ challenge_expired
        → VerifySpec s clock tenant id response t r
    accepted :
        (c : Challenge)
        → get_challenge s.store tenant id ≡ some c
        → (a : Admitted s clock tenant response c true)
        → t
          ≡ write s.store id (record c { status = completed; completed_at = some (clock outcome) })
        → r ≡ verified c.authenticator_id a.amr
        → VerifySpec s clock tenant id response t r
    rejected :
        (c : Challenge)
        → get_challenge s.store tenant id ≡ some c
        → (a : Admitted s clock tenant response c false)
        → t ≡ write s.store id (counted (clock outcome) c)
        → r ≡ (if leb 3 (c.attempts + 1) then max_attempts_exceeded else invalid_response)
        → VerifySpec s clock tenant id response t r

  module _ (s : Service J A.State) (clock : Reading → ℕ) (tenant id : String) (response : J)
      (valid : IsValid s.store) (c : Challenge)
      (there : get_challenge s.store tenant id ≡ some c) where
    settled :
        (passed : Bool)
        → update_challenge s.store tenant id (settle passed (clock outcome)) ≡ (
          write s.store id (settle passed (clock outcome) c),
          ok (settle passed (clock outcome) c),
        )
    settled passed =
        update_owned s.store tenant id (settle passed (clock outcome)) c valid there
          (settle-id passed (clock outcome) c) (settle-tenant passed (clock outcome) c)

    -- A request's result in the state `u`, which differs from `s` in the lockout alone.
    abbrev Spec : Service J A.State × Reply → Type 0
    Spec (u, r) = VerifySpec s clock tenant id response u.store r

    module _ (lockout : Option (Lockout A.State)) where
      abbrev checked : Service J A.State
      checked = record s { lockout = lockout }

      judged-Spec :
          (passed : Bool)
          → (a : Admitted s clock tenant response c passed)
          → Spec (
              conclude A registry checked clock tenant c.user_id passed a.amr
                (update_challenge s.store tenant id (settle passed (clock outcome))))
      judged-Spec true a = rw (settled true) (accepted c there a refl refl)
      judged-Spec false a = rw (settled false) (
          rejected c there a (ap (write s.store id) (settle-counted (clock outcome) c))
            (ground arith))

      module _ (is_open : c.status ≡ pending)
          (not_locked : (locked s.lockout
              (abuse_key tenant c.user_id)
              (clock lock_check)).1.is_locked
            ≡ false) where
        adapter-Spec :
            clock expiry_check < c.expires_at
            → backoff_remaining c (clock backoff_check) ≡ 0
            → (o : Option (Adapter J)) → registry c.method ≡ o
            → Spec (verify_adapter A registry checked clock tenant id response c o)
        adapter-Spec in_time backed_off none e = refused refl refl
        adapter-Spec in_time backed_off (some a) e = go (a.verify c response) refl
          where
            go :
                (o : VerifyOutcome)
                → a.verify c response ≡ o
                → Spec (verify_outcome A registry checked clock tenant id c o)
            go verify_error judged = refused refl refl
            go (answered passed amr) judged = judged-Spec passed (record {
              is_open = is_open;
              in_time = in_time;
              backed_off = backed_off;
              not_locked = not_locked;
              adapter = a;
              registered = e;
              amr = amr;
              judged = judged;
            })

        open-Spec : Spec (verify_unlocked A registry checked clock tenant id response c)
        open-Spec =
            let pending_status : is_pending c.status ≡ true = rw is_open in
            elim (Bool-cases (ltb (clock expiry_check) c.expires_at)) [
              | inr late ↦
                  rw
                    (
                      pending_status,
                      late,
                      update_owned s.store tenant id expire c valid there refl refl,
                    )
                    (lapsed c there is_open (ground arith) refl refl)
              | inl early ↦ elim (Bool-cases (ltb 0 (backoff_remaining c (clock backoff_check)))) [
                | inl soon ↦ rw (pending_status, early, soon) (refused refl refl)
                | inr waited ↦
                    rw (pending_status, early, waited)
                      (adapter-Spec (ground arith) (ground arith) (registry c.method) refl)
              ]
            ]

      unlocked-Spec :
          (locked s.lockout (abuse_key tenant c.user_id) (clock lock_check)).1.is_locked ≡ false
          → Spec (verify_unlocked A registry checked clock tenant id response c)
      unlocked-Spec not_locked = elim (Bool-cases (is_pending c.status)) [
        | inl still ↦ open-Spec (is_pending-pending c.status still) not_locked
        | inr closed ↦ rw closed (refused refl refl)
      ]

    checked-Spec : Spec (
        verify_checked A registry s clock tenant id response c
          (locked s.lockout (abuse_key tenant c.user_id) (clock lock_check)))
    checked-Spec =
        elim (Bool-cases
          (locked s.lockout (abuse_key tenant c.user_id) (clock lock_check)).1.is_locked) [
            | inl held ↦ rw held (refused refl refl)
            | inr free ↦ rw free (
                unlocked-Spec (locked s.lockout (abuse_key tenant c.user_id) (clock lock_check)).0
                  free)
          ]

  -- On a valid store a request does one of four things. It is refused and changes no challenge; or
  -- the challenge was pending and past its expiry, is marked expired and reported so; or all guards
  -- were passed and an adapter answered, and the challenge is completed at the time of the outcome, or one
  -- attempt more is counted at that time and the third fails it; the reply is then the adapter's verdict.
  pub verify-VerifySpec :
      (s : Service J A.State) (clock : Reading → ℕ) (tenant id : String) (response : J)
      → IsValid s.store
      → VerifySpec s clock tenant id response
          (verify A registry s clock (some tenant) id (some response)).0.store
          (verify A registry s clock (some tenant) id (some response)).1
  unfolding verify
  verify-VerifySpec s clock tenant id response valid = elim (Bool-cases (str_eq id "")) [
    | inl no_id ↦ rw no_id (refused refl refl)
    | inr given ↦ elim (Option-cases (get_challenge s.store tenant id)) [
      | inl missing ↦ rw (given, missing) (refused refl refl)
      | inr (c, there) ↦ rw (given, there) (checked-Spec s clock tenant id response valid c there)
    ]
  ]
