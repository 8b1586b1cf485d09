-- ===== src/Broker/Tests.antt =====
-- The properties of the broker at concrete inputs.
use x_auth_site.Base.{
  ◌∙◌, sym, inl, inr, Bool-cases, some_inj, ◌≡◌, refl, ap, ◌≢◌, String, true, none, some, [], ◌∷◌,
  arith, str_eq, str_eq_iff,
}
use x_auth_site.Base.Dict.{lookup, insert, delete, values_where}
use x_auth_site.Broker.Store.{
  token_expired, valid_runtime, put_auth_code, consume_auth_code, create_install, update_install,
  put_token, get_install, Install, active, TokenRecord, get_token_by_refresh, new_mem_storage,
}
use x_auth_site.Broker.Clients.{Clients, Persona, given}
use x_auth_site.Broker.Calls.{
  scope_string, Settings, Call, Fresh, install, jti, refresh, Broker, invalid_grant,
}
use x_auth_site.Broker.Code.{handle_code_grant}
use x_auth_site.Broker.Refresh.{handle_refresh_grant}
use x_auth_site.Broker.Endpoints.{
  authorize, token, handle_revoke_install, no_content, AuthorizeQuery, authorization_code,
  refresh_token,
}
use x_auth_site.Broker.Effects.{IsError}
use x_auth_site.Broker.Runs.{Request, authorizing, granting, Surroundings, Run, done, next, step}
use x_auth_site.Broker.Replay.{new_broker, Run-OneLive, replay_ends_family}
use x_auth_site.Broker.Families.{TokensFit, OneLive, IsEnded}
use x_auth_site.Broker.Revoked.{IsRevokedIn, revoked_install_final}
use x_auth_site.Broker.Sweep.{swept, sweep_ends_refresh}
use x_auth_site.Broker.Renewal.{IsRenewable}
use x_auth_site.Broker.Renewal.Exchanged.{IsExchanged, refresh-IsExchanged}
use x_auth_site.Broker.Renewal.Replayed.{second_use_is_replay}
use x_auth_site.Broker.SingleUse.{code_single_use}

abbrev scopes_persona : Persona
scopes_persona = record { id = "p"; scopes = "read" ∷ []; token_ttl = 60 }

abbrev demo_clients : Clients
demo_clients = record {
  State = Unit {0};
  get_persona = λ s tenant id. given scopes_persona;
  claim_identity = λ s tenant pool persona inst.
      (s, given (record { id = "u"; pool_id = pool; subject_id = "sub" }));
  release_identity = λ s tenant id. (s, true);
  create_grant = λ s tenant g. (s, true);
  revoke_grants_for_install = λ s tenant id. (s, true);
  revoke_token = λ s tenant t. (s, true);
}

abbrev demo_settings : Settings
demo_settings = record {
  sign = λ c. some c.jti;
  hash_token = λ t. t;
  pkce_challenge = λ v. v;
  default_ttl = 900;
}

abbrev demo_surroundings : Surroundings
demo_surroundings = record { is_absolute = λ uri. true; trim = λ s. s; settings = demo_settings }

abbrev chosen : String → String → String → Fresh → String
chosen i j r install = i
chosen i j r jti = j
chosen i j r refresh = r

abbrev call_of : String → String → String → Call
call_of i j r = record { clock = λ place. 1; fresh = chosen i j r }

abbrev asked : AuthorizeQuery
asked = record {
  client_id = "cli";
  redirect_uri = "https://app";
  state = "s";
  scope = "";
  persona_id = "p";
  pool_id = "pool";
  tenant_id = "t";
  code_challenge = "v";
  code_challenge_method = "S256";
  runtime = "claude";
}

abbrev DemoBroker : Type 0
DemoBroker = Broker (Unit {0}) (Unit {0})

abbrev demo_step : DemoBroker → Request (Unit {0}) → DemoBroker
demo_step b r = step demo_clients demo_surroundings b r

abbrev DemoRun : (DemoBroker → Request (Unit {0}) → Type 0) → DemoBroker → DemoBroker → Type 0
DemoRun Allowed b b' = Run demo_clients demo_surroundings Allowed b b'

abbrev authorize_it : Request (Unit {0})
authorize_it = authorizing asked "c" 1

abbrev redeem_it : Request (Unit {0})
redeem_it = granting (some (authorization_code "c" "cli" "v")) (call_of "i1" "a1" "r1")

abbrev renew_it : Request (Unit {0})
renew_it = granting (some (refresh_token "r1" "cli")) (call_of "i2" "a2" "r2")

abbrev fresh_broker : DemoBroker
fresh_broker = new_broker tt

abbrev authorized : DemoBroker
authorized = demo_step fresh_broker authorize_it

abbrev redeemed : DemoBroker
redeemed = demo_step authorized redeem_it

abbrev renewed_once : DemoBroker
renewed_once = demo_step redeemed renew_it

code_named : ◌≢◌ {A = String} "c" ""
unfolding str_eq
code_named = ground (arith, str_eq_iff "c" "")

refresh_named : ◌≢◌ {A = String} "r1" ""
unfolding str_eq
refresh_named = ground (arith, str_eq_iff "r1" "")

refresh_differs : ◌≢◌ {A = String} "r2" "r1"
unfolding str_eq
refresh_differs = ground (arith, str_eq_iff "r2" "r1")

access_differs : ◌≢◌ {A = String} "a2" "a1"
unfolding str_eq
access_differs = ground (arith, str_eq_iff "a2" "a1")

verifier_named : ◌≢◌ {A = String} "v" ""
unfolding str_eq
verifier_named = ground (arith, str_eq_iff "v" "")

code_single_use_example :
    IsError
      (handle_code_grant demo_clients demo_settings
        (demo_step
          (handle_code_grant demo_clients demo_settings authorized "c" "cli" "v"
            (call_of "i1" "a1" "r1")).0
          renew_it)
        "c"
        "cli"
        "v"
        (call_of "i3" "a3" "r3")).1
code_single_use_example =
    code_single_use demo_clients demo_surroundings authorized _ "c" "cli" "v"
      (call_of "i1" "a1" "r1") code_named verifier_named (next renew_it (λ e. absurd (cc e)) done)
      "cli" "v" (call_of "i3" "a3" "r3")

none_authorized :
    (id a : String) (t : TokenRecord)
    → lookup a authorized.store.tokens ≡ some t
    → t.install_id ≢ id
unfolding authorize put_auth_code new_mem_storage lookup str_eq valid_runtime
none_authorized id a t stored = absurd (cc stored)

Run-OneLive_example : OneLive renewed_once.store.tokens
Run-OneLive_example = Run-OneLive demo_clients demo_surroundings tt renewed_once (
    next authorize_it (λ id e. absurd (cc e))
      (next redeem_it (λ id e. none_authorized id) (next renew_it (λ id e. absurd (cc e)) done)))

abbrev first_token : TokenRecord
first_token = record {
  access_token = "a1";
  refresh_token = "r1";
  install_id = "i1";
  persona_id = "p";
  identity_id = "u";
  subject = "sub";
  scope = "read";
  tenant_id = "t";
  expires_at = 60_000_000_001;
  rotated_at = none;
}

abbrev rotated_token : TokenRecord
rotated_token = record first_token { rotated_at = some 1 }

rotated_found : get_token_by_refresh renewed_once.store "r1" ≡ some rotated_token
unfolding authorize put_auth_code new_mem_storage lookup insert delete str_eq valid_runtime token
    handle_code_grant consume_auth_code create_install update_install put_token scope_string
    handle_refresh_grant get_token_by_refresh get_install values_where
rotated_found = refl

replay_ends_family_example :
    ((handle_refresh_grant demo_clients demo_settings renewed_once "r1" ""
        (call_of "i3" "a3" "r3")).1
      ≡ invalid_grant)
    × IsEnded "i1"
        (demo_step
          (handle_refresh_grant demo_clients demo_settings renewed_once "r1" ""
            (call_of "i3" "a3" "r3")).0
          (granting (some (refresh_token "r2" "cli")) (call_of "i4" "a4" "r4"))).store.tokens
replay_ends_family_example =
    replay_ends_family demo_clients demo_surroundings tt renewed_once _ "r1" ""
      (call_of "i3" "a3" "r3") rotated_token
      (next authorize_it tt (next redeem_it tt (next renew_it tt done))) rotated_found refl
      (next (granting (some (refresh_token "r2" "cli")) (call_of "i4" "a4" "r4"))
        (λ e. absurd (cc e)) done)

revoked_answer :
    (handle_revoke_install demo_clients redeemed (some "t") "i1" (call_of "i3" "a3" "r3")).1
    ≡ no_content
unfolding authorize put_auth_code new_mem_storage lookup insert delete str_eq valid_runtime token
    handle_code_grant consume_auth_code create_install update_install put_token scope_string
    handle_revoke_install get_install
revoked_answer = refl

revoked_install_final_example :
    (let after =
        (demo_step
          (handle_revoke_install demo_clients redeemed (some "t") "i1" (call_of "i3" "a3" "r3")).0
          renew_it) in
      IsRevokedIn "i1" after.store.installs
      × ((presented client : String) (q' : Call) (rec : TokenRecord)
          → get_token_by_refresh after.store presented ≡ some rec
          → rec.install_id ≡ "i1"
          → IsError (handle_refresh_grant demo_clients demo_settings after presented client q').1))
revoked_install_final_example =
    revoked_install_final demo_clients demo_surroundings tt redeemed _ "t" "i1"
      (call_of "i3" "a3" "r3") (next authorize_it tt (next redeem_it tt done)) revoked_answer
      (next renew_it (λ e. absurd (cc e)) done)

abbrev granted_install : Install
granted_install = record {
  id = "i1";
  tenant_id = "t";
  runtime = "claude";
  persona_id = "p";
  identity_id = "u";
  client_id = "cli";
  status = active;
  created_at = 1;
  updated_at = 1;
}

abbrev one_token : DemoBroker
one_token = record {
  store = record {
    installs = ("i1", granted_install) ∷ [];
    clients = [];
    codes = [];
    tokens = ("a1", first_token) ∷ [];
  };
  services = tt;
}

one_token-TokensFit : TokensFit one_token.store.tokens
unfolding lookup
one_token-TokensFit = record {
  distinct = (refl, tt);
  keyed = λ k t e. ground (arith, str_eq_iff "a1" k);
}

only_one :
    (k : String) (t : TokenRecord)
    → lookup k one_token.store.tokens ≡ some t
    → (t ≡ first_token) × (k ≡ "a1")
unfolding lookup
only_one k t e = elim (Bool-cases (str_eq "a1" k)) [
  | inl here ↦ (sym (some_inj (rw here at e)), sym ((str_eq_iff "a1" k).0 here))
  | inr other ↦ absurd (cc (rw other at e))
]

sweep_ends_refresh_example :
    handle_refresh_grant demo_clients demo_settings
      (swept one_token 70_000_000_000)
      "r1"
      "cli"
      (call_of "i2" "a2" "r2")
    ≡ (swept one_token 70_000_000_000, invalid_grant)
sweep_ends_refresh_example =
    sweep_ends_refresh demo_clients demo_settings one_token 70_000_000_000 "r1" "cli"
      (call_of "i2" "a2" "r2") one_token-TokensFit refresh_named
      (λ k t e _. ap (λ t. token_expired 70_000_000_000 t) (only_one k t e).0)

one_token-IsRenewable :
    IsRenewable demo_clients demo_settings one_token
      (call_of "i2" "a2" "r2")
      "r1"
      "cli"
      first_token
      granted_install
      scopes_persona
      "a2"
unfolding get_token_by_refresh values_where str_eq get_install lookup
one_token-IsRenewable = record {
  found = refl;
  unrotated = refl;
  bound = refl;
  running = refl;
  same_client = λ named. refl;
  persona = refl;
  signed = refl;
  recorded = refl;
}

r2_given : ◌≢◌ {A = String} "r2" ""
unfolding str_eq
r2_given = ground (arith, str_eq_iff "r2" "")

refresh-IsExchanged_example :
    IsExchanged demo_clients demo_settings one_token
      (call_of "i2" "a2" "r2")
      first_token
      scopes_persona
      "a2"
      (handle_refresh_grant demo_clients demo_settings one_token "r1" "cli"
        (call_of "i2" "a2" "r2"))
refresh-IsExchanged_example =
    refresh-IsExchanged demo_clients demo_settings one_token (call_of "i2" "a2" "r2") "r1" "cli"
      first_token granted_install scopes_persona "a2" one_token-TokensFit one_token-IsRenewable
      (λ k t e same. refresh_differs (sym same ∙ ap (λ x. x.refresh_token) (only_one k t e).0))
      access_differs r2_given

second_use_is_replay_example :
    (let second =
        handle_refresh_grant demo_clients demo_settings
          (handle_refresh_grant demo_clients demo_settings one_token "r1" "cli"
            (call_of "i2" "a2" "r2")).0
          "r1"
          ""
          (call_of "i3" "a3" "r3") in
      (second.1 ≡ invalid_grant) × IsEnded "i1" second.0.store.tokens)
second_use_is_replay_example =
    second_use_is_replay demo_clients demo_surroundings one_token (call_of "i2" "a2" "r2")
      (call_of "i3" "a3" "r3") "r1" "cli" "" first_token granted_install scopes_persona "a2"
      one_token-TokensFit one_token-IsRenewable (λ k t e _. (only_one k t e).1) refresh_differs
      access_differs
