-- ===== src/Broker/OverPool/Tests.antt =====
-- A code grant over a pool with one identity, where the grant service fails.
use x_auth_site.Base.{◌≡◌, refl, true, false, none, some, [], ◌∷◌, arith, str_eq, str_eq_iff}
use x_auth_site.Base.Dict.{lookup, insert, delete, values_where}
use x_auth_site.Base.Sort.{sort_by, insert_by}
use x_auth_site.Pool.Store.{
  Pool, Identity, available, MemStorage, claim_identity, release_identity, contains_string,
}
use x_auth_site.Pool.Store.Steps.{IsValid}
use x_auth_site.Pool.Server.{handle_claim, handle_release}
use x_auth_site.Pool.Compensation.{IsUnheld}
use x_auth_site.Broker.Store.{AuthCode, consume_auth_code, create_install, update_install}
use x_auth_site.Broker.Clients.{given}
use x_auth_site.Broker.Calls.{Settings, Call, Broker, downstream_error}
use x_auth_site.Broker.Code.{handle_code_grant}
use x_auth_site.Broker.OverPool.{answered, Services, Others, over_pool}
use x_auth_site.Broker.OverPool.Failure.{failed_grant-IsUnheld}

abbrev agents : Pool
agents = record {
  id = "p1";
  tenant_id = "t";
  name = "agents";
  size = 2;
  persona_ids = "p" ∷ [];
  created_at = 1;
  updated_at = 1;
}

abbrev agent : Identity
agent = record {
  id = "i1";
  pool_id = "p1";
  subject_id = "s1";
  status = available;
  claimed_by_install_id = none;
  created_at = 5;
  updated_at = 5;
}

abbrev one_agent : MemStorage
one_agent = record { pools = ("p1", agents) ∷ []; identities = ("i1", agent) ∷ [] }

abbrev no_grants : Others
no_grants = record {
  State = Unit {0};
  get_persona = λ s tenant id. given (record { id = "p"; scopes = []; token_ttl = 60 });
  create_grant = λ s tenant g. (s, false);
  revoke_grants_for_install = λ s tenant id. (s, true);
  revoke_token = λ s tenant t. (s, true);
}

abbrev sign_all : Settings
sign_all = record {
  sign = λ c. some c.jti;
  hash_token = λ t. t;
  pkce_challenge = λ v. v;
  default_ttl = 900;
}

abbrev issued_code : AuthCode
issued_code = record {
  code = "c";
  tenant_id = "t";
  runtime = "claude";
  persona_id = "p";
  pool_id = "p1";
  client_id = "cli";
  redirect_uri = "https://app";
  state = "s";
  scope = "";
  code_challenge = "v";
  created_at = some 1;
}

abbrev waiting : Broker (Unit {0}) (Services (Unit {0}))
waiting = record {
  store = record { installs = []; clients = []; codes = ("c", issued_code) ∷ []; tokens = [] };
  services = record { pool = one_agent; served = 0; rest = tt };
}

abbrev call : Call
call = record { clock = λ place. 1; fresh = λ kind. "x" }

one_agent-IsValid : IsValid one_agent
unfolding lookup
one_agent-IsValid = record {
  distinct_pools = (refl, tt);
  distinct = (refl, tt);
  named = λ id i e. ground (arith, str_eq_iff "i1" id);
}

none_blank : lookup "" one_agent.identities ≡ none
unfolding lookup str_eq
none_blank = refl

one_agent-IsUnheld : IsUnheld "x" one_agent
unfolding lookup
one_agent-IsUnheld id i e = ground (arith, str_eq_iff "i1" id)

grant_fails :
    (handle_code_grant
      (over_pool (λ s. s) (λ n. n) (λ n. answered) no_grants)
      sign_all
      waiting
      "c"
      "cli"
      "v"
      call).1
    ≡ downstream_error
unfolding handle_code_grant consume_auth_code create_install update_install lookup insert delete
    str_eq handle_claim claim_identity contains_string values_where sort_by insert_by handle_release
    release_identity
grant_fails = refl

failed_grant-IsUnheld_example :
    IsUnheld "x"
      (handle_code_grant
        (over_pool (λ s. s) (λ n. n) (λ n. answered) no_grants)
        sign_all
        waiting
        "c"
        "cli"
        "v"
        call).0.services.pool
failed_grant-IsUnheld_example =
    failed_grant-IsUnheld (λ s. s) (λ n. n) (λ n. answered) no_grants sign_all waiting "c" "cli" "v"
      call one_agent-IsValid none_blank (λ e. cc e) (λ e. cc e) one_agent-IsUnheld
      (rw grant_fails tt)
