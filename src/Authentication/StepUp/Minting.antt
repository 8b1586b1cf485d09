-- ===== src/Authentication/StepUp/Minting.antt =====
-- When `AuthorizeVerify` hands out an authorization code.
use x_auth_site.Base.{
  ℕ, ◌≡◌, refl, ap, ◌∙◌, inl, inr, String, Bool, true, false, Option, none, some, List, ltb, str_eq,
  str_eq_iff, Bool-cases, Option-cases,
}
use x_auth_site.Base.Dict.{Dict, lookup, delete, insert}
use x_auth_site.Base.Dict.Laws.{lookup-delete, lookup-insert_self}
use x_auth_site.Authentication.StepUp.{
  StepUpSpec, spec_for_method, PendingAuthorize, AuthCode, VerifyOutcome, VerifyAnswer, outcome,
  gone, throttled, failed, AdviceCall, complete_advice, AuthenticatorClient, OidcHandlers, Reading,
  peek, mint, VerifyForm, Reply, redirect, flow_stale, peek_flow, drop_flow, mint_code_and_redirect,
  complete_advice_transaction, advice_marked, mark_advice_call_completed,
}
use x_auth_site.Authentication.StepUp.Verify.{
  response_of, code_of, recorded, completed, verified_reply, responded, matched, authorize_verify,
}

deleted_self : {V : Type 0} (k : String) (m : Dict V) → lookup k (delete k m) ≡ none
deleted_self k m = lookup-delete k k m ∙ rw ((str_eq_iff k k).1 refl) refl

abbrev pub IsRedirect : Reply → Type 0
IsRedirect (redirect _ _ _ _) = Unit
IsRedirect _ = ⊥

-- What stands behind a code that was handed out, and what is left of the flow.
pub record Minted (C : AuthenticatorClient) (trim : String → String) (h h' : OidcHandlers C.State)
    (f : VerifyForm) (now : ℕ) (uuid : String) : Type 0 where
  pub parked : PendingAuthorize
  pub found : lookup f.flow h.flows ≡ some parked
  pub live : flow_stale now parked ≡ false
  pub response : String × String
  pub answered : response_of trim parked f ≡ some response
  pub verdict : VerifyOutcome
  pub verified :
      (C.verify_challenge h.authenticator parked.tenant_id parked.challenge_id response.0
        response.1).1
      ≡ outcome verdict
  pub accepted : verdict.verified ≡ true
  pub spent : lookup f.flow h'.flows ≡ none
  pub code : AuthCode
  pub stored : lookup uuid h'.codes ≡ some code
  pub user :
      (code.user_id ≡ parked.user_id)
      × (code.client_id ≡ parked.client_id)
      × (code.tenant_id ≡ parked.tenant_id)
  pub bound :
      (code.redirect_uri ≡ parked.redirect_uri) × (code.code_challenge ≡ parked.code_challenge)

module _ {A : Type 0} where
  marked_keeps :
      (h : OidcHandlers A) (ac : AuthCode) (out : List AdviceCall × Bool)
      → ((advice_marked h ac out).flows ≡ h.flows) × ((advice_marked h ac out).codes ≡ h.codes)
  marked_keeps h ac (log, true) = (refl, refl)
  marked_keeps h ac (log, false) = (refl, refl)

  -- The code that was handed out is stored with the facts given, and no flow is touched.
  pub record Handed (h h' : OidcHandlers A) (ac : AuthCode) (uuid : String) (now : ℕ) : Type 0 where
    pub flows_kept : h'.flows ≡ h.flows
    pub stored : lookup uuid h'.codes ≡ some (record ac { code = uuid; created_at = now })

  mint-Handed :
      (is_uri : String → Bool) (h : OidcHandlers A) (ac : AuthCode) (clock : Reading → ℕ)
      (uuid : String)
      → IsRedirect (mint_code_and_redirect is_uri h ac clock uuid).1
      → Handed h (mint_code_and_redirect is_uri h ac clock uuid).0 ac uuid (clock mint)
  unfolding mint_code_and_redirect complete_advice_transaction
  mint-Handed is_uri h ac clock uuid = elim (Bool-cases (is_uri ac.redirect_uri)) [
    | inr bad ↦ rw bad (λ r. absurd r)
    | inl good ↦
        let minted : AuthCode = record ac { code = uuid; created_at = clock mint } in
        let stored = record h { codes = insert uuid minted h.codes } in
        let there = lookup-insert_self uuid minted h.codes in
        let marked = marked_keeps stored minted (
          mark_advice_call_completed h.advice_log ac.tenant_id ac.transaction_id ac.user_id ac.acr
            (clock complete_advice)) in
        elim (Bool-cases (str_eq ac.transaction_id "")) [
          | inl alone ↦ rw (good, alone) (λ _. record { flows_kept = refl; stored = there })
          | inr tracked ↦
              rw (good, tracked)
                (λ _. record { flows_kept = marked.0; stored = ap (lookup uuid) marked.1 ∙ there })
        ]
  ]

  recorded-flows :
      (h : OidcHandlers A) (p : PendingAuthorize) (now : ℕ) → (recorded h p now).flows ≡ h.flows
  recorded-flows h p now = elim (Bool-cases (ltb 0 p.target_rank)) [
    | inl ranked ↦ rw ranked refl
    | inr plain ↦ rw plain refl
  ]

module _ (C : AuthenticatorClient) (trim : String → String) (is_uri : String → Bool)
    (h : OidcHandlers C.State) (f : VerifyForm) (clock : Reading → ℕ) (uuid : String)
    (p : PendingAuthorize) (found : lookup f.flow h.flows ≡ some p)
    (live : flow_stale (clock peek) p ≡ false) where
  completed-Minted :
      (a : C.State) (spec : StepUpSpec) (response : String × String) (v : VerifyOutcome)
      → response_of trim p f ≡ some response
      → (C.verify_challenge h.authenticator p.tenant_id p.challenge_id response.0 response.1).1
        ≡ outcome v
      → v.verified ≡ true
      → IsRedirect (completed is_uri (record h { authenticator = a }) spec p f clock uuid v).1
      → Minted C trim h
          (completed is_uri (record h { authenticator = a }) spec p f clock uuid v).0
          f
          (clock peek)
          uuid
  unfolding drop_flow
  completed-Minted a spec response v answered verified accepted redirected =
      let handed = mint-Handed is_uri _ (code_of spec p v) clock uuid redirected in
      record {
        parked = p;
        found = found;
        live = live;
        response = response;
        answered = answered;
        verdict = v;
        verified = verified;
        accepted = accepted;
        spent =
            ap (lookup f.flow) (handed.flows_kept ∙ recorded-flows _ p _)
            ∙ deleted_self f.flow h.flows;
        code = _;
        stored = handed.stored;
        user = (refl, refl, refl);
        bound = (refl, refl);
      }

  answer-Minted :
      (a : C.State) (spec : StepUpSpec) (response : String × String) (answer : VerifyAnswer)
      → response_of trim p f ≡ some response
      → (C.verify_challenge h.authenticator p.tenant_id p.challenge_id response.0 response.1).1
        ≡ answer
      → IsRedirect
          (verified_reply is_uri (record h { authenticator = a }) spec p f clock uuid answer).1
      → Minted C trim h
          (verified_reply is_uri (record h { authenticator = a }) spec p f clock uuid answer).0
          f
          (clock peek)
          uuid
  answer-Minted a spec response gone e e' = λ r. absurd r
  answer-Minted a spec response throttled e e' = λ r. absurd r
  answer-Minted a spec response failed e e' = λ r. absurd r
  answer-Minted a spec response (outcome v) e e' = elim (Bool-cases v.verified) [
    | inl yes_verified ↦ rw yes_verified (completed-Minted a spec response v e e' yes_verified)
    | inr wrong ↦ elim (Bool-cases (str_eq v.reason "max_attempts_exceeded")) [
      | inl closed ↦ rw (wrong, closed) (λ r. absurd r)
      | inr again ↦ rw (wrong, again) (λ r. absurd r)
    ]
  ]

  responded-Minted :
      (spec : StepUpSpec) (response : Option (String × String))
      → response_of trim p f ≡ response
      → IsRedirect (responded C trim is_uri h spec p f clock uuid response).1
      → Minted C trim h
          (responded C trim is_uri h spec p f clock uuid response).0
          f
          (clock peek)
          uuid
  responded-Minted spec none e = λ r. absurd r
  responded-Minted spec (some (field, value)) e = answer-Minted _ spec (field, value) _ e refl

  matched-Minted :
      (spec : Option StepUpSpec)
      → IsRedirect (matched C trim is_uri h p f clock uuid spec).1
      → Minted C trim h (matched C trim is_uri h p f clock uuid spec).0 f (clock peek) uuid
  matched-Minted none = λ r. absurd r
  matched-Minted (some spec) = responded-Minted spec _ refl

-- An authorization code is handed out only for a flow that is parked and not past its lifetime, and on
-- the verdict of the authenticator service that the response submitted for the flow's challenge is
-- right; the code is stored for the flow's user, client, redirect URI and PKCE challenge, and the flow
-- is gone.
pub authorize_verify-Minted :
    (C : AuthenticatorClient) (trim : String → String) (is_uri : String → Bool)
    (h : OidcHandlers C.State) (f : VerifyForm) (clock : Reading → ℕ) (uuid : String)
    → IsRedirect (authorize_verify C trim is_uri h (some f) clock uuid).1
    → Minted C trim h (authorize_verify C trim is_uri h (some f) clock uuid).0 f (clock peek) uuid
unfolding authorize_verify peek_flow
authorize_verify-Minted C trim is_uri h f clock uuid = elim (Bool-cases (str_eq f.flow "")) [
  | inl blank ↦ rw blank (λ r. absurd r)
  | inr named ↦ elim (Option-cases (lookup f.flow h.flows)) [
    | inl missing ↦ rw (named, missing) (λ r. absurd r)
    | inr (p, found) ↦ elim (Bool-cases (flow_stale (clock peek) p)) [
      | inl stale ↦ rw (named, found, stale) (λ r. absurd r)
      | inr live ↦
          rw (named, found, live)
            (matched-Minted C trim is_uri h f clock uuid p found live (spec_for_method p.method))
    ]
  ]
]
