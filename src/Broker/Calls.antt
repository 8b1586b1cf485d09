-- ===== src/Broker/Calls.antt =====
-- What a request of oidc.go is and answers, and the records that it writes. Signing (jwtx) and the
-- digests are arguments; the issuer of the claims is fixed in the signer. Form values arrive parsed.
use x_auth_site.Base.{
  ℕ, ◌+◌, ◌*◌, ◌/◌, String, Bool, true, false, Option, none, List, [], ◌∷◌, ◌==◌, if◌then◌else◌,
}
use Prim.Native.String.{◌++◌ as append}
use x_auth_site.Broker.Store.{
  Install, InstallStatus, pending, active, revoked, AuthCode, TokenRecord, MemStorage, second,
  update_install,
}
use x_auth_site.Broker.Clients.{Persona, Identity, GrantCreateRequest}

pub record JwtClaims : Type 0 where
  pub sub : String
  pub aud : String
  pub exp : ℕ
  pub iat : ℕ
  pub jti : String
  pub tenant_id : String
  pub scope : String
  pub install_id : String
  pub persona_id : String
  pub identity_id : String

-- What the handlers take from elsewhere: the signer, `hashToken`, `pkceChallengeS256`, and the default
-- lifetime of a token.
pub record Settings : Type 0 where
  pub sign : JwtClaims → Option String
  pub hash_token : String → String
  pub pkce_challenge : String → String
  pub default_ttl : ℕ

-- The places of a request at which the clock is read.
pub data Reading : Type 0 where
  code_check creation issue rotation revocation finalization : Reading

-- The fresh ids of a request.
pub data Fresh : Type 0 where
  install jti refresh : Fresh

pub record Call : Type 0 where
  pub clock : Reading → ℕ
  pub fresh : Fresh → String

pub data Reply : Type 0 where
  invalid_request invalid_grant invalid_client internal_error downstream_error : Reply
  tokens : (access refresh scope : String) (ttl : ℕ) → Reply

pub record Broker (M S : Type 0) : Type 0 where
  pub store : MemStorage M
  pub services : S

abbrev pub join : List String → String
join [] = ""
join (x ∷ []) = x
join (x ∷ y ∷ xs) = append x (append " " (join (y ∷ xs)))

unfoldable pub scope_string : List String → String → String
scope_string [] requested = requested
scope_string (s ∷ ss) requested = join (s ∷ ss)

-- A lifetime that is not positive is 0 here.
abbrev pub ttl_of : Settings → Persona → ℕ
ttl_of o p = if p.token_ttl == 0 then o.default_ttl else p.token_ttl

abbrev pub is_active : InstallStatus → Bool
is_active active = true
is_active _ = false

abbrev pub is_revoked : InstallStatus → Bool
is_revoked revoked = true
is_revoked _ = false

abbrev pub new_install : AuthCode → Call → Install
new_install ac q = record {
  id = q.fresh install;
  tenant_id = ac.tenant_id;
  runtime = ac.runtime;
  persona_id = ac.persona_id;
  identity_id = "";
  client_id = ac.client_id;
  status = pending;
  created_at = q.clock creation;
  updated_at = q.clock creation;
}

abbrev pub code_claims : AuthCode → Identity → Persona → Call → ℕ → JwtClaims
code_claims ac i p q ttl = record {
  sub = i.subject_id;
  aud = ac.client_id;
  exp = (q.clock issue + ttl * second) / second;
  iat = q.clock issue / second;
  jti = q.fresh jti;
  tenant_id = ac.tenant_id;
  scope = scope_string p.scopes ac.scope;
  install_id = q.fresh install;
  persona_id = ac.persona_id;
  identity_id = i.id;
}

abbrev pub code_record : AuthCode → Identity → Persona → Call → ℕ → String → TokenRecord
code_record ac i p q ttl access = record {
  access_token = access;
  refresh_token = q.fresh refresh;
  install_id = q.fresh install;
  persona_id = ac.persona_id;
  identity_id = i.id;
  subject = i.subject_id;
  scope = scope_string p.scopes ac.scope;
  tenant_id = ac.tenant_id;
  expires_at = q.clock issue + ttl * second;
  rotated_at = none;
}

abbrev pub refresh_claims : TokenRecord → Install → Persona → Call → ℕ → JwtClaims
refresh_claims rec i p q ttl = record {
  sub = rec.subject;
  aud = i.client_id;
  exp = (q.clock issue + ttl * second) / second;
  iat = q.clock issue / second;
  jti = q.fresh jti;
  tenant_id = rec.tenant_id;
  scope = scope_string p.scopes rec.scope;
  install_id = rec.install_id;
  persona_id = rec.persona_id;
  identity_id = rec.identity_id;
}

abbrev pub refresh_record : TokenRecord → Persona → Call → ℕ → String → TokenRecord
refresh_record rec p q ttl access = record {
  access_token = access;
  refresh_token = q.fresh refresh;
  install_id = rec.install_id;
  persona_id = rec.persona_id;
  identity_id = rec.identity_id;
  subject = rec.subject;
  scope = scope_string p.scopes rec.scope;
  tenant_id = rec.tenant_id;
  expires_at = q.clock issue + ttl * second;
  rotated_at = none;
}

abbrev pub grant_request : Settings → TokenRecord → ℕ → GrantCreateRequest
grant_request o t ttl = record {
  install_id = t.install_id;
  identity_id = t.identity_id;
  persona_id = t.persona_id;
  access_token_hash = o.hash_token t.access_token;
  refresh_token_hash = o.hash_token t.refresh_token;
  ttl_seconds = ttl;
}

-- `markInstallRevoked`
abbrev pub mark_install_revoked : {M S : Type 0} → Broker M S → Install → Call → Broker M S
mark_install_revoked b i q = record b {
  store = update_install b.store (record i { status = revoked }) (q.clock revocation);
}
