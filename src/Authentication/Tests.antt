-- ===== src/Authentication/Tests.antt =====
-- The properties of the authentication service at concrete inputs.
use x_auth_site.Base.{
  ◌+◌, ℕ, suc, ◌≤◌, ◌≡◌, ◌≢◌, refl, String, true, false, some, List, [], ◌∷◌, Among, arith, str_eq,
  str_eq_iff,
}
use x_auth_site.Base.Dict.{IsDistinct, lookup, insert, delete, keep_if}
use x_auth_site.Authentication.Flow.{continue, complete, FlowExecution, Stage, run_flow}
use x_auth_site.Authentication.Flow.Termination.{follow, run_flow-follow}
use x_auth_site.Authentication.Sessions.{Session, MemStorage}
use x_auth_site.Authentication.Sessions.Lifecycle.{
  Request, refreshing, upgrading, run, IsClosed, IsFiled, invalidated_final,
}
use x_auth_site.Authentication.Protection.{
  ProtectionLevel, ProtectionLedger, protection_satisfied, record_rank, new_protection_ledger,
  freshness_of, achieved_within,
}
use x_auth_site.Authentication.Protection.Ledger.{StepUp, after}
use x_auth_site.Authentication.Protection.Freshness.{satisfied_means, weak_step_up_refreshes}
use x_auth_site.Authentication.StepUp.{
  PendingAuthorize, VerifyForm, OidcHandlers, AuthenticatorClient, outcome, peek_flow,
  spec_for_method, drop_flow, mint_code_and_redirect,
}
use x_auth_site.Authentication.StepUp.Verify.{authorize_verify}
use x_auth_site.Authentication.StepUp.Minting.{Minted, IsRedirect, authorize_verify-Minted}

abbrev parked_execution : FlowExecution (Unit {0})
parked_execution = record {
  id = "e";
  tenant_id = "t";
  designation = "authorization-stepup";
  flow_slug = "default";
  cursor = 1;
  client_id = "cli";
  user_id = "u";
  redirect_uri = "https://app";
  scope = "openid";
  state = "s";
  nonce = "n";
  code_challenge = "v";
  transaction_id = "";
  authz_session_id = "ses";
  acr_values = "";
  achieved_acr = "";
  achieved_amr = [];
  context = tt;
  created_at = 0;
}

abbrev pass_on : Stage ℕ (Unit {0})
pass_on w e = record { world = suc w; exec = e; result = some continue }

abbrev issue : Stage ℕ (Unit {0})
issue w e = record { world = suc w; exec = e; result = some complete }

abbrev three_stages : List (Stage ℕ (Unit {0}))
three_stages = pass_on ∷ pass_on ∷ issue ∷ []

run_flow-follow_example :
    run_flow three_stages 3 7 parked_execution
    ≡ some (follow (pass_on ∷ issue ∷ []) 7 parked_execution)
run_flow-follow_example =
    run_flow-follow three_stages ((λ w e. refl), ((λ w e. refl), ((λ w e. refl), tt))) 2 7
      parked_execution (omega arith)

abbrev closed_session : Session
closed_session = record {
  id = "ses_1";
  tenant_id = "t";
  user_id = "u";
  risk_level = "low";
  step_up_completed = false;
  created_at = 1;
  updated_at = 5;
  expires_at = 100;
  invalidated_at = some 5;
}

abbrev one_session : MemStorage
one_session = record { users = []; sessions = ("ses_1", closed_session) ∷ [] }

abbrev attempts : List Request
attempts =
    refreshing (some "t") "ses_1" 6 7
    ∷ upgrading (some "t") "ses_1" (some (record { risk_level = "high"; step_up_completed = true }))
        8
    ∷ []

one_session-IsFiled : IsFiled one_session
unfolding lookup
one_session-IsFiled k x e = ground (arith, str_eq_iff "ses_1" k)

one_session-IsClosed : IsClosed "ses_1" 5 one_session
unfolding lookup str_eq
one_session-IsClosed = (closed_session, refl, refl)

invalidated_final_example : IsClosed "ses_1" 5 (run one_session attempts)
invalidated_final_example =
    invalidated_final one_session "ses_1" 5 attempts one_session-IsFiled one_session-IsClosed
      (tt, (tt, tt))

abbrev ultra : ProtectionLevel
ultra = record {
  acr = "urn:xauth:protect:ultra:strict";
  band = "ultra";
  name = "strict";
  rank = 8;
  method = "fido2";
}

abbrev history : List StepUp
history = record { session = "ses"; rank = 8; at = 10 } ∷ []

ultra_passes : (protection_satisfied (after 1000 history) 50 ultra "ses" 40).1 ≡ true
unfolding protection_satisfied achieved_within record_rank new_protection_ledger lookup insert
    keep_if str_eq
ultra_passes = refl

satisfied_means_example :
    ((u : StepUp) × Among u history × (u.session ≡ "ses") × (8 ≤ u.rank))
    × ((u : StepUp) × Among u history × (u.session ≡ "ses") × (40 ≤ u.at + freshness_of 50))
satisfied_means_example = satisfied_means 1000 50 40 history ultra "ses" (omega arith) ultra_passes

abbrev old_ledger : ProtectionLedger
old_ledger = record { m = ("ses", record { rank = 8; at = 10 }) ∷ []; ttl = 1000 }

session_named : ◌≢◌ {A = String} "ses" ""
unfolding str_eq
session_named = ground (arith, str_eq_iff "ses" "")

old_ledger-IsDistinct : IsDistinct old_ledger.m
unfolding lookup
old_ledger-IsDistinct = (refl, tt)

held_rank : lookup "ses" old_ledger.m ≡ some (record { rank = 8; at = 10 })
unfolding lookup str_eq
held_rank = refl

weak_step_up_refreshes_example :
    (protection_satisfied (record_rank old_ledger "ses" 1 900) 50 ultra "ses" 900).1 ≡ true
weak_step_up_refreshes_example =
    weak_step_up_refreshes old_ledger 50 900 1 ultra "ses" (record { rank = 8; at = 10 })
      old_ledger-IsDistinct session_named held_rank (omega arith) (omega arith) (omega arith)

abbrev sms_flow : PendingAuthorize
sms_flow = record {
  client_id = "cli";
  tenant_id = "t";
  user_id = "u";
  redirect_uri = "https://app";
  scope = "openid";
  state = "s";
  nonce = "n";
  code_challenge = "v";
  challenge_id = "ch";
  prompt = "";
  method = "sms";
  transaction_id = "";
  created_at = 0;
  webauthn_options = "";
  target_acr = "";
  target_rank = 0;
  authz_session_id = "ses";
}

abbrev accepting : AuthenticatorClient
accepting = record {
  State = Unit {0};
  verify_challenge =
      λ s tenant id field value. (s, outcome (record { verified = true; reason = ""; amr = [] }));
}

abbrev waiting : OidcHandlers (Unit {0})
waiting = record {
  flows = ("f", sms_flow) ∷ [];
  step_ups = record { m = []; ttl = 600 };
  protection = old_ledger;
  codes = [];
  advice_log = [];
  notices = [];
  authenticator = tt;
}

abbrev form : VerifyForm
form = record { flow = "f"; assertion = ""; code = "123456"; device_fp = "" }

redirected :
    IsRedirect
      (authorize_verify accepting (λ s. s) (λ s. true) waiting (some form) (λ place. 9) "id").1
unfolding authorize_verify peek_flow spec_for_method lookup delete str_eq drop_flow
    mint_code_and_redirect insert
redirected = tt

authorize_verify-Minted_example :
    Minted accepting
      (λ s. s)
      waiting
      (authorize_verify accepting (λ s. s) (λ s. true) waiting (some form) (λ place. 9) "id").0
      form
      9
      "id"
authorize_verify-Minted_example =
    authorize_verify-Minted accepting (λ s. s) (λ s. true) waiting form (λ place. 9) "id" redirected
