-- ===== src/Authenticator/Challenges/Stages.antt =====
-- `Verify` (challenges.go) in its stages: one for each call of the store or of the lockout, between which
-- other requests may run.
pub mod Whole
use x_auth_site.Base.{
  ◌≡◌, refl, inl, inr, String, Bool, true, false, not, Option, none, some, List, ltb, if◌then◌else◌,
  str_eq, Bool-cases,
}
use x_auth_site.Ratex.{Allower}
use x_auth_site.Authenticator.Model.{Challenge}
use x_auth_site.Authenticator.Lockout.{Lockout, LockStatus, abuse_key, locked, record_failure}
use x_auth_site.Authenticator.Backoff.{backoff_remaining, retry_after_seconds}
use x_auth_site.Authenticator.Store.{
  Store, not_found, immutable_changed, Result, ok, err, get_challenge, update_challenge, is_pending,
}
use x_auth_site.Authenticator.Challenges.{
  Adapter, VerifyOutcome, answered, verify_error, Service, lock_check, expiry_check, backoff_check,
  outcome, failure_count, lock_start, Reply, invalid_request, no_such_challenge, internal_error,
  challenge_expired, verify_failed, account_locked, retry_backoff, challenge_closed, verified,
  max_attempts_exceeded, invalid_response, settle, expire, is_failed, conclude, verify,
  verify_found, verify_checked, verify_unlocked, verify_adapter, verify_outcome,
}
use x_auth_site.Authenticator.Challenges.Safety.{Request, serve}

-- How far a request has come, with what it carries: the challenge it has read, the write of the
-- expiry ahead, the adapter's verdict ahead of its write, the failure ahead of its count, the reply.
pub data Stage : Type 0 where
  fetched : Challenge → Stage
  lapsing : Stage
  judged : Challenge → Bool → List String → Stage
  failure : String → Challenge → Stage
  replied : Reply → Stage

module _ {J : Type 0} (A : Allower) (registry : String → Option (Adapter J)) where
  abbrev pub first_found : Option Challenge → Stage
  first_found none = replied no_such_challenge
  first_found (some c) = fetched c

  -- A request up to its read of the challenge.
  abbrev pub first_stage : Service J A.State → Request J → Stage
  first_stage s q =
      if str_eq q.id ""
      then replied invalid_request
      else first_found (get_challenge s.store q.tenant q.id)

  abbrev pub outcome_stage : Challenge → VerifyOutcome → Stage
  outcome_stage c verify_error = replied verify_failed
  outcome_stage c (answered passed amr) = judged c passed amr

  abbrev pub adapter_stage : Request J → Challenge → Option (Adapter J) → Stage
  adapter_stage q c none = replied internal_error
  adapter_stage q c (some adapter) = outcome_stage c (adapter.verify c q.response)

  -- From the check of the status to the adapter's answer: on the challenge as it was read.
  abbrev pub open_stage : Request J → Challenge → Stage
  open_stage q c =
      if not (is_pending c.status)
      then replied (challenge_closed c.status)
      else (if not (ltb (q.clock expiry_check) c.expires_at)
          then lapsing
          else (if ltb 0 (backoff_remaining c (q.clock backoff_check))
              then replied (
                  retry_backoff (retry_after_seconds (backoff_remaining c (q.clock backoff_check))))
              else adapter_stage q c (registry c.method)))

  abbrev pub lock_stage :
      Service J A.State
      → Request J
      → Challenge
      → Option (Lockout A.State) × LockStatus
      → Service J A.State × Stage
  lock_stage s q c (lockout, status) = (
    record s { lockout = lockout },
    if status.is_locked
        then replied (account_locked (retry_after_seconds status.remaining))
        else open_stage q c,
  )

  abbrev pub write_stage :
      Service J A.State
      → Challenge
      → Bool
      → List String
      → Store J × Result Challenge
      → Service J A.State × Stage
  write_stage s c passed amr (store, err not_found) =
      (record s { store = store }, replied no_such_challenge)
  write_stage s c passed amr (store, err immutable_changed) =
      (record s { store = store }, replied internal_error)
  write_stage s c true amr (store, ok updated) =
      (record s { store = store }, replied (verified updated.authenticator_id amr))
  write_stage s c false amr (store, ok updated) =
      (record s { store = store }, failure c.user_id updated)

  -- The next stage of a request, on the service as it is then.
  abbrev pub advance : Service J A.State → Request J → Stage → Service J A.State × Stage
  advance s q (fetched c) =
      lock_stage s q c (locked s.lockout (abuse_key q.tenant c.user_id) (q.clock lock_check))
  advance s q lapsing = (
    record s { store = (update_challenge s.store q.tenant q.id expire).0 },
    replied challenge_expired,
  )
  advance s q (judged c passed amr) =
      write_stage s c passed amr
        (update_challenge s.store q.tenant q.id (settle passed (q.clock outcome)))
  advance s q (failure user updated) = (
    record s {
      lockout =
          record_failure A s.lockout (abuse_key q.tenant user) (q.clock failure_count)
            (q.clock lock_start);
    },
    replied (if is_failed updated.status then max_attempts_exceeded else invalid_response),
  )
  advance s q (replied r) = (s, replied r)
