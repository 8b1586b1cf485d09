-- ===== src/Authenticator/Challenges.antt =====
-- The challenge handlers `Create`, `Get` and `Verify` (challenges.go), over the in-memory store.
-- A vendor adapter is a parameter: what it answers, not what it does elsewhere. `A` is the limiter
-- behind both abuse controls. The clock is read where the handler reads it (`Reading`), so that time
-- may pass between two steps of a request. A request is what the HTTP layer has parsed: a tenant id
-- that may be missing, and a body that is `none` if its JSON is malformed.
pub mod Lifecycle
pub mod Safety
pub mod Guesses
pub mod Stages
pub mod Overlap
pub mod Accepted
pub mod Purge
pub mod Creation
use x_auth_site.Base.{
  ℕ, zero, suc, ◌+◌, ◌<◌, String, Bool, true, false, not, ◌&&◌, Option, none, some, List, [], ◌∷◌,
  any, length, ◌||◌, ltb, leb, if◌then◌else◌, str_eq, is_some,
}
use x_auth_site.Ratex.{Allower, Decision}
use x_auth_site.Authenticator.Model.{
  Challenge, ChallengeRequest, ChallengeStatus, pending, completed, failed, expired, Authenticator,
  is_valid_method, challenge_ttl, max_challenge_attempts,
}
use x_auth_site.Authenticator.Lockout.{
  Lockout, LockStatus, abuse_key, allow_optional, locked, record_failure,
}
use x_auth_site.Authenticator.Backoff.{backoff_remaining, retry_after_seconds}
use x_auth_site.Authenticator.Store.{
  Store, StoreError, not_found, immutable_changed, Result, ok, err, get_challenge, update_challenge,
  put_challenge, list_active_authenticators, is_pending,
}
use x_auth_site.Authenticator.Select.{select_authenticator}

pub data DispatchOutcome : Type 0 where
  dispatched : String → String → List ℕ → DispatchOutcome
  no_credential invalid_number dispatch_error : DispatchOutcome

pub data VerifyOutcome : Type 0 where
  answered : Bool → List String → VerifyOutcome
  verify_error : VerifyOutcome

pub record Adapter (J : Type 0) : Type 0 where
  pub dispatch : Challenge → DispatchOutcome
  pub verify : Challenge → J → VerifyOutcome

pub record Service (J S : Type 0) : Type 0 where
  pub store : Store J
  pub challenge_create : Option S
  pub lockout : Option (Lockout S)

-- The places of a request at which the clock is read.
pub data Reading : Type 0 where
  lock_check rate_check creation expiry_check backoff_check outcome failure_count lock_start :
      Reading

pub data Reply : Type 0 where
  missing_tenant invalid_request no_authenticator no_such_challenge internal_error : Reply
  challenge_expired no_credential_enrolled number_invalid dispatch_failed verify_failed : Reply
  account_locked rate_limited retry_backoff : ℕ → Reply
  challenge_closed : ChallengeStatus → Reply
  created : Challenge → Reply
  found : Challenge → Reply
  verified : String → List String → Reply
  max_attempts_exceeded invalid_response : Reply

abbrev pub status_code : Reply → ℕ
status_code missing_tenant = 400
status_code invalid_request = 400
status_code no_authenticator = 409
status_code no_such_challenge = 404
status_code internal_error = 500
status_code challenge_expired = 410
status_code no_credential_enrolled = 409
status_code number_invalid = 422
status_code dispatch_failed = 502
status_code verify_failed = 502
status_code (account_locked _) = 423
status_code (rate_limited _) = 429
status_code (retry_backoff _) = 429
status_code (challenge_closed _) = 410
status_code (created _) = 201
status_code (found _) = 200
status_code (verified _ _) = 200
status_code max_attempts_exceeded = 401
status_code invalid_response = 401

-- What a verification writes to the challenge.
abbrev pub settle : Bool → ℕ → Challenge → Challenge
settle true now c = record c { status = completed; completed_at = some now }
settle false now c =
    if leb max_challenge_attempts (c.attempts + 1)
    then record c { attempts = c.attempts + 1; last_attempt_at = some now; status = failed }
    else record c { attempts = c.attempts + 1; last_attempt_at = some now }

abbrev pub expire : Challenge → Challenge
expire c = record c { status = expired }

abbrev pub is_failed : ChallengeStatus → Bool
is_failed failed = true
is_failed _ = false

abbrev pub new_challenge : String → String → String → String → String → ℕ → Challenge
new_challenge id tenant user method authenticator now = record {
  id = id;
  tenant_id = tenant;
  user_id = user;
  method = method;
  authenticator_id = authenticator;
  prompt = "";
  status = pending;
  attempts = 0;
  created_at = now;
  expires_at = now + challenge_ttl;
  completed_at = none;
  last_attempt_at = none;
  options_json = "";
  session_data = [];
}

-- The adapter's dispatch, written to the challenge.
abbrev pub addressed : Challenge → String → String → List ℕ → Challenge
addressed c prompt options session = record c {
  prompt = prompt;
  options_json = options;
  session_data = session;
}

module _ {J : Type 0} (A : Allower) (registry : String → Option (Adapter J)) where
  -- The write of the outcome, the count of a failure, and the answer.
  abbrev pub conclude :
      Service J A.State
      → (Reading → ℕ)
      → String
      → String
      → Bool
      → List String
      → Store J × Result Challenge
      → Service J A.State × Reply
  conclude s clock tenant user passed amr (store, err not_found) =
      (record s { store = store }, no_such_challenge)
  conclude s clock tenant user passed amr (store, err immutable_changed) =
      (record s { store = store }, internal_error)
  conclude s clock tenant user true amr (store, ok updated) =
      (record s { store = store }, verified updated.authenticator_id amr)
  conclude s clock tenant user false amr (store, ok updated) = (
    record s {
      store = store;
      lockout =
          record_failure A s.lockout (abuse_key tenant user) (clock failure_count)
            (clock lock_start);
    },
    if is_failed updated.status then max_attempts_exceeded else invalid_response,
  )

  abbrev pub verify_outcome :
      Service J A.State
      → (Reading → ℕ)
      → String
      → String
      → Challenge
      → VerifyOutcome
      → Service J A.State × Reply
  verify_outcome s clock tenant id c verify_error = (s, verify_failed)
  verify_outcome s clock tenant id c (answered passed amr) =
      conclude s clock tenant c.user_id passed amr
        (update_challenge s.store tenant id (settle passed (clock outcome)))

  abbrev pub verify_adapter :
      Service J A.State
      → (Reading → ℕ)
      → String
      → String
      → J
      → Challenge
      → Option (Adapter J)
      → Service J A.State × Reply
  verify_adapter s clock tenant id response c none = (s, internal_error)
  verify_adapter s clock tenant id response c (some adapter) =
      verify_outcome s clock tenant id c (adapter.verify c response)

  -- The handler once the account is known not to be locked.
  abbrev pub verify_unlocked :
      Service J A.State
      → (Reading → ℕ)
      → String
      → String
      → J
      → Challenge
      → Service J A.State × Reply
  verify_unlocked s clock tenant id response c =
      if not (is_pending c.status)
      then (s, challenge_closed c.status)
      else (if not (ltb (clock expiry_check) c.expires_at)
          then (
            record s { store = (update_challenge s.store tenant id expire).0 },
            challenge_expired,
          )
          else (if ltb 0 (backoff_remaining c (clock backoff_check))
              then (
                s,
                retry_backoff (retry_after_seconds (backoff_remaining c (clock backoff_check))),
              )
              else verify_adapter s clock tenant id response c (registry c.method)))

  abbrev pub verify_checked :
      Service J A.State
      → (Reading → ℕ)
      → String
      → String
      → J
      → Challenge
      → Option (Lockout A.State) × LockStatus
      → Service J A.State × Reply
  verify_checked s clock tenant id response c (lockout, status) =
      if status.is_locked
      then (record s { lockout = lockout }, account_locked (retry_after_seconds status.remaining))
      else verify_unlocked (record s { lockout = lockout }) clock tenant id response c

  abbrev pub verify_found :
      Service J A.State
      → (Reading → ℕ)
      → String
      → String
      → J
      → Option Challenge
      → Service J A.State × Reply
  verify_found s clock tenant id response none = (s, no_such_challenge)
  verify_found s clock tenant id response (some c) =
      verify_checked s clock tenant id response c
        (locked s.lockout (abuse_key tenant c.user_id) (clock lock_check))

  -- `Verify` as one step: the request completes before the next begins. Stages has its parts.
  unfoldable pub verify :
      Service J A.State
      → (Reading → ℕ)
      → Option String
      → String
      → Option J
      → Service J A.State × Reply
  verify s clock none id body = (s, missing_tenant)
  verify s clock (some tenant) id none = (s, invalid_request)
  verify s clock (some tenant) id (some response) =
      if str_eq id ""
      then (s, invalid_request)
      else verify_found s clock tenant id response (get_challenge s.store tenant id)

  abbrev pub get_reply : Option Challenge → Reply
  get_reply none = no_such_challenge
  get_reply (some c) = found c

  unfoldable pub get : Service J A.State → Option String → String → Reply
  get s none id = missing_tenant
  get s (some tenant) id =
      if str_eq id "" then invalid_request else get_reply (get_challenge s.store tenant id)

  abbrev pub dispatch_result :
      Service J A.State → Challenge → DispatchOutcome → Service J A.State × Reply
  dispatch_result s c no_credential = (s, no_credential_enrolled)
  dispatch_result s c invalid_number = (s, number_invalid)
  dispatch_result s c dispatch_error = (s, dispatch_failed)
  dispatch_result s c (dispatched prompt options session) = (
    record s { store = put_challenge s.store (addressed c prompt options session) },
    created (addressed c prompt options session),
  )

  abbrev pub create_dispatch :
      Service J A.State → Challenge → Option (Adapter J) → Service J A.State × Reply
  create_dispatch s c none = (s, internal_error)
  create_dispatch s c (some adapter) = dispatch_result s c (adapter.dispatch c)

  abbrev pub create_selected :
      Service J A.State
      → ℕ
      → String
      → String
      → String
      → Option (String × Authenticator J)
      → Service J A.State × Reply
  create_selected s now tenant user id none = (s, no_authenticator)
  create_selected s now tenant user id (some (method, authr)) =
      create_dispatch s (new_challenge id tenant user method authr.id now) (registry method)

  abbrev pub create_rated :
      Service J A.State
      → ℕ
      → String
      → String
      → ChallengeRequest
      → Option A.State × Decision
      → Service J A.State × Reply
  create_rated s now tenant id req (limiter, d) =
      if d.ok
      then create_selected (record s { challenge_create = limiter }) now tenant req.user_id id
          (select_authenticator req.methods (list_active_authenticators s.store tenant req.user_id))
      else (
        record s { challenge_create = limiter },
        rate_limited (retry_after_seconds d.retry_after),
      )

  abbrev pub create_checked :
      Service J A.State
      → (Reading → ℕ)
      → String
      → String
      → ChallengeRequest
      → Option (Lockout A.State) × LockStatus
      → Service J A.State × Reply
  create_checked s clock tenant id req (lockout, status) =
      if status.is_locked
      then (record s { lockout = lockout }, account_locked (retry_after_seconds status.remaining))
      else create_rated (record s { lockout = lockout }) (clock creation) tenant id req
          (allow_optional A s.challenge_create (abuse_key tenant req.user_id) (clock rate_check))

  -- `is_blank` tells a user id that `strings.TrimSpace` leaves empty; `id` is the fresh challenge id.
  unfoldable pub create :
      (is_blank : String → Bool)
      → Service J A.State
      → (Reading → ℕ)
      → Option String
      → String
      → Option ChallengeRequest
      → Service J A.State × Reply
  create is_blank s clock none id body = (s, missing_tenant)
  create is_blank s clock (some tenant) id none = (s, invalid_request)
  create is_blank s clock (some tenant) id (some req) =
      if is_blank req.user_id
        || (leb (length req.methods) 0 || any (λ m. not (is_valid_method m)) req.methods)
      then (s, invalid_request)
      else create_checked s clock tenant id req
          (locked s.lockout (abuse_key tenant req.user_id) (clock lock_check))
