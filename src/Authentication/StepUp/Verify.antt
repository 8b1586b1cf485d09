-- ===== src/Authentication/StepUp/Verify.antt =====
-- `AuthorizeVerify` of otp.go, stage by stage.
use x_auth_site.Base.{
  ℕ, String, Bool, Option, none, some, List, [], ◌∷◌, ◌++◌, ltb, if◌then◌else◌, str_eq,
}
use x_auth_site.Authentication.Protection.{record_rank}
use x_auth_site.Authentication.StepUp.{
  StepUpSpec, step_up_method_fido2, spec_for_method, PendingAuthorize, AuthCode, VerifyOutcome,
  VerifyAnswer, outcome, gone, throttled, failed, AuthenticatorClient, observed, OidcHandlers,
  Reading, peek, record_protection, VerifyForm, Reply, invalid_request, invalid_grant,
  challenge_closed, authenticator_unavailable, retry_throttled, retry_wrong, stage_for_method,
  peek_flow, drop_flow, mint_code_and_redirect,
}

-- The name of the response's field and its value; `none` if the value is missing.
abbrev pub response_of :
    (String → String) → PendingAuthorize → VerifyForm → Option (String × String)
response_of trim p f =
    if str_eq p.method step_up_method_fido2
    then (if str_eq (trim f.assertion) "" then none else some ("assertion", trim f.assertion))
    else (if str_eq f.code "" then none else some ("code", f.code))

abbrev pub achieved_acr : StepUpSpec → PendingAuthorize → String
achieved_acr spec p = if str_eq p.target_acr "" then spec.acr else p.target_acr

abbrev pub achieved_amr : StepUpSpec → VerifyOutcome → List String
achieved_amr spec v = elim v.amr [ [] ↦ spec.amr | a ∷ as' ↦ a ∷ as' ]

abbrev pub code_of : StepUpSpec → PendingAuthorize → VerifyOutcome → AuthCode
code_of spec p v = record {
  code = "";
  client_id = p.client_id;
  tenant_id = p.tenant_id;
  user_id = p.user_id;
  session_id = "";
  redirect_uri = p.redirect_uri;
  scope = p.scope;
  state = p.state;
  nonce = p.nonce;
  code_challenge = p.code_challenge;
  created_at = 0;
  acr = achieved_acr spec p;
  amr = achieved_amr spec v;
  transaction_id = p.transaction_id;
}

module _ {A : Type 0} where
  abbrev pub observed_step : OidcHandlers A → PendingAuthorize → VerifyForm → OidcHandlers A
  observed_step h p f = record h {
    notices =
        h.notices
        ++ observed p.tenant_id p.user_id p.authz_session_id (stage_for_method p.method) f.device_fp
          ∷ [];
  }

  abbrev pub recorded : OidcHandlers A → PendingAuthorize → ℕ → OidcHandlers A
  recorded h p now =
      if ltb 0 p.target_rank
      then record h { protection = record_rank h.protection p.authz_session_id p.target_rank now }
      else h

  abbrev pub completed :
      (String → Bool)
      → OidcHandlers A
      → StepUpSpec
      → PendingAuthorize
      → VerifyForm
      → (Reading → ℕ)
      → String
      → VerifyOutcome
      → OidcHandlers A × Reply
  completed is_uri h spec p f clock uuid v =
      mint_code_and_redirect is_uri
        (recorded (observed_step (drop_flow h f.flow) p f) p (clock record_protection))
        (code_of spec p v) clock uuid

  abbrev pub verified_reply :
      (String → Bool)
      → OidcHandlers A
      → StepUpSpec
      → PendingAuthorize
      → VerifyForm
      → (Reading → ℕ)
      → String
      → VerifyAnswer
      → OidcHandlers A × Reply
  verified_reply is_uri h spec p f clock uuid gone = (drop_flow h f.flow, challenge_closed)
  verified_reply is_uri h spec p f clock uuid throttled = (h, retry_throttled p)
  verified_reply is_uri h spec p f clock uuid failed = (h, authenticator_unavailable)
  verified_reply is_uri h spec p f clock uuid (outcome v) =
      if v.verified
      then completed is_uri h spec p f clock uuid v
      else (if str_eq v.reason "max_attempts_exceeded"
          then (drop_flow h f.flow, challenge_closed)
          else (h, retry_wrong p))

module _ (C : AuthenticatorClient) (trim : String → String) (is_uri : String → Bool) where
  abbrev pub responded :
      OidcHandlers C.State
      → StepUpSpec
      → PendingAuthorize
      → VerifyForm
      → (Reading → ℕ)
      → String
      → Option (String × String)
      → OidcHandlers C.State × Reply
  responded h spec p f clock uuid none = (h, invalid_request)
  responded h spec p f clock uuid (some (field, value)) =
      let (a, answer) = C.verify_challenge h.authenticator p.tenant_id p.challenge_id field value in
      verified_reply is_uri (record h { authenticator = a }) spec p f clock uuid answer

  abbrev pub matched :
      OidcHandlers C.State
      → PendingAuthorize
      → VerifyForm
      → (Reading → ℕ)
      → String
      → Option StepUpSpec
      → OidcHandlers C.State × Reply
  matched h p f clock uuid none = (drop_flow h f.flow, invalid_grant)
  matched h p f clock uuid (some spec) = responded h spec p f clock uuid (response_of trim p f)

  abbrev pub found_flow :
      VerifyForm
      → (Reading → ℕ)
      → String
      → OidcHandlers C.State × Option PendingAuthorize
      → OidcHandlers C.State × Reply
  found_flow f clock uuid (h, none) = (h, invalid_grant)
  found_flow f clock uuid (h, some p) = matched h p f clock uuid (spec_for_method p.method)

  -- The form is `none` if it could not be parsed.
  unfoldable pub authorize_verify :
      OidcHandlers C.State
      → Option VerifyForm
      → (Reading → ℕ)
      → String
      → OidcHandlers C.State × Reply
  authorize_verify h none clock uuid = (h, invalid_request)
  authorize_verify h (some f) clock uuid =
      if str_eq f.flow ""
      then (h, invalid_request)
      else found_flow f clock uuid (peek_flow h f.flow (clock peek))
