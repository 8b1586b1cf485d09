-- ===== src/Authentication/StepUp.antt =====
-- The step-up interlude of /authorize: the parked flows, their tracker (stepup_tracker.go) and
-- `AuthorizeVerify` with what it calls (otp.go). The authenticator service is an interface with a
-- state of its own; the hosted pages are replies. The calls of the device analyzer and of the CAEP
-- emitter, which run on their own, are listed in the order they are made. Form values arrive parsed,
-- `trim` is strings.TrimSpace and `is_uri` the test of a redirect URI by the URL parser.
pub mod Verify
pub mod Minting
use x_auth_site.Base.{
  ℕ, ◌+◌, ◌*◌, String, Bool, true, false, not, ◌&&◌, Option, none, some, List, [], ◌∷◌, ◌++◌, ltb,
  ◌==◌, if◌then◌else◌, is_some, str_eq,
}
use x_auth_site.Base.Dict.{Dict, lookup, insert, delete, keep_if, values_where}
use x_auth_site.Base.Sort.{sort_by}
use x_auth_site.Authentication.Protection.{ProtectionLedger, record_rank}

pub record StepUpSpec : Type 0 where
  pub acr : String
  pub method : String
  pub amr : List String

abbrev pub step_up_method_fido2 : String
step_up_method_fido2 = "fido2"

abbrev pub step_up_specs : List StepUpSpec
step_up_specs =
    record { acr = "urn:xauth:otp:sms"; method = "sms"; amr = "otp" ∷ "sms" ∷ [] }
    ∷ record { acr = "urn:xauth:fido2"; method = step_up_method_fido2; amr = "user" ∷ "swk" ∷ [] }
    ∷ []

abbrev pub spec_in : List StepUpSpec → String → Option StepUpSpec
spec_in [] method = none
spec_in (s ∷ ss) method = if str_eq s.method method then some s else spec_in ss method

unfoldable pub spec_for_method : String → Option StepUpSpec
spec_for_method method = spec_in step_up_specs method

-- In nanoseconds: ten minutes.
abbrev pub otp_flow_ttl : ℕ
otp_flow_ttl = 600 * 1_000_000_000

pub record PendingAuthorize : Type 0 where
  pub client_id : String
  pub tenant_id : String
  pub user_id : String
  pub redirect_uri : String
  pub scope : String
  pub state : String
  pub nonce : String
  pub code_challenge : String
  pub challenge_id : String
  pub prompt : String
  pub method : String
  pub transaction_id : String
  pub created_at : ℕ
  pub webauthn_options : String
  pub target_acr : String
  pub target_rank : ℕ
  pub authz_session_id : String

pub record StepUpAttempt : Type 0 where
  pub flow_id : String
  pub tenant_id : String
  pub user_id : String
  pub method : String
  pub started_at : ℕ

pub record StepUpTracker : Type 0 where
  pub m : Dict StepUpAttempt
  pub ttl : ℕ

unfoldable pub new_step_up_tracker : ℕ → StepUpTracker
new_step_up_tracker ttl = record { m = []; ttl = ttl }

abbrev pub gc_locked : StepUpTracker → ℕ → StepUpTracker
gc_locked t now = record t { m = keep_if (λ a. not (ltb (a.started_at + t.ttl) now)) t.m }

unfoldable pub start : StepUpTracker → StepUpAttempt → ℕ → StepUpTracker
start t a now = record (gc_locked t now) { m = insert a.flow_id a (gc_locked t now).m }

unfoldable pub done : StepUpTracker → String → StepUpTracker
done t flow_id = record t { m = delete flow_id t.m }

unfoldable pub list_by_tenant : StepUpTracker → String → ℕ → StepUpTracker × List StepUpAttempt
list_by_tenant t tenant now = (
  gc_locked t now,
  sort_by (λ a b. ltb b.started_at a.started_at)
      (values_where (λ a. str_eq a.tenant_id tenant) (gc_locked t now).m),
)

pub record AuthCode : Type 0 where
  pub code : String
  pub client_id : String
  pub tenant_id : String
  pub user_id : String
  pub session_id : String
  pub redirect_uri : String
  pub scope : String
  pub state : String
  pub nonce : String
  pub code_challenge : String
  pub created_at : ℕ
  pub acr : String
  pub amr : List String
  pub transaction_id : String

pub record AdviceCall : Type 0 where
  pub id : String
  pub tenant_id : String
  pub client_id : String
  pub user_id : String
  pub session_id : String
  pub device_id : String
  pub transaction_type : String
  pub acr : String
  pub rank : ℕ
  pub created_at : ℕ
  pub completed_at : Option ℕ
  pub completed_user_id : String
  pub completed_acr : String

-- `MarkAdviceCallCompleted`: the log, and whether a pending call was completed.
unfoldable pub mark_advice_call_completed :
    List AdviceCall → String → String → String → String → ℕ → List AdviceCall × Bool
mark_advice_call_completed [] tenant id user acr at = ([], false)
mark_advice_call_completed (c ∷ cs) tenant id user acr at =
    let rest = mark_advice_call_completed cs tenant id user acr at in
    if str_eq c.id id && str_eq c.tenant_id tenant
    then (if is_some c.completed_at then (c ∷ cs, false) else (
      record c { completed_at = some at; completed_user_id = user; completed_acr = acr } ∷ cs,
      true,
    ))
    else (c ∷ rest.0, rest.1)

pub record VerifyOutcome : Type 0 where
  pub verified : Bool
  pub reason : String
  pub amr : List String

-- `gone` and `throttled` are the statuses 410 and 429, `failed` every other error.
pub data VerifyAnswer : Type 0 where
  outcome : VerifyOutcome → VerifyAnswer
  gone throttled failed : VerifyAnswer

-- `VerifyChallenge` takes the tenant, the challenge, the name of the response's field and its value.
pub record AuthenticatorClient : Type 1 where
  pub State : Type 0
  pub verify_challenge : State → String → String → String → String → State × VerifyAnswer

pub data Notice : Type 0 where
  observed : (tenant user session stage fingerprint : String) → Notice
  transaction_completed : AuthCode → Notice

pub record OidcHandlers (A : Type 0) : Type 0 where
  pub flows : Dict PendingAuthorize
  pub step_ups : StepUpTracker
  pub protection : ProtectionLedger
  pub codes : Dict AuthCode
  pub advice_log : List AdviceCall
  pub notices : List Notice
  pub authenticator : A

-- The places at which the clock is read.
pub data Reading : Type 0 where
  peek record_protection mint complete_advice : Reading

pub record VerifyForm : Type 0 where
  pub flow : String
  pub assertion : String
  pub code : String
  pub device_fp : String

pub data Reply : Type 0 where
  invalid_request invalid_grant challenge_closed authenticator_unavailable invalid_redirect_uri :
      Reply
  retry_throttled retry_wrong : PendingAuthorize → Reply
  redirect : (uri code state transaction_id : String) → Reply

abbrev pub flow_stale : ℕ → PendingAuthorize → Bool
flow_stale now p = ltb (p.created_at + otp_flow_ttl) now

abbrev pub stage_for_method : String → String
stage_for_method method = if str_eq method step_up_method_fido2 then "passkey" else "otp"

module _ {A : Type 0} where
  unfoldable pub store_flow : OidcHandlers A → String → PendingAuthorize → ℕ → OidcHandlers A
  store_flow h id p now = record h {
    flows = insert id p (keep_if (λ v. not (flow_stale now v)) h.flows);
  }

  abbrev pub peeked :
      OidcHandlers A
      → String
      → ℕ
      → Option PendingAuthorize
      → OidcHandlers A × Option PendingAuthorize
  peeked h id now none = (record h { flows = delete id h.flows }, none)
  peeked h id now (some p) =
      if flow_stale now p then (record h { flows = delete id h.flows }, none) else (h, some p)

  unfoldable pub peek_flow : OidcHandlers A → String → ℕ → OidcHandlers A × Option PendingAuthorize
  peek_flow h id now = peeked h id now (lookup id h.flows)

  unfoldable pub drop_flow : OidcHandlers A → String → OidcHandlers A
  drop_flow h id = record h { flows = delete id h.flows; step_ups = done h.step_ups id }

  abbrev pub advice_marked : OidcHandlers A → AuthCode → List AdviceCall × Bool → OidcHandlers A
  advice_marked h ac (log, false) = record h { advice_log = log }
  advice_marked h ac (log, true) = record h {
    advice_log = log;
    notices = h.notices ++ transaction_completed ac ∷ [];
  }

  unfoldable pub complete_advice_transaction : OidcHandlers A → AuthCode → ℕ → OidcHandlers A
  complete_advice_transaction h ac now =
      advice_marked h ac (
        mark_advice_call_completed h.advice_log ac.tenant_id ac.transaction_id ac.user_id ac.acr
          now)

  unfoldable pub mint_code_and_redirect :
      (String → Bool) → OidcHandlers A → AuthCode → (Reading → ℕ) → String → OidcHandlers A × Reply
  mint_code_and_redirect is_uri h ac clock uuid =
      if is_uri ac.redirect_uri
      then (let minted : AuthCode = record ac { code = uuid; created_at = clock mint } in
          let stored = record h { codes = insert uuid minted h.codes } in
          (
            if str_eq ac.transaction_id ""
                then stored
                else complete_advice_transaction stored minted (clock complete_advice),
            redirect ac.redirect_uri uuid ac.state ac.transaction_id,
          ))
      else (h, invalid_redirect_uri)
