-- ===== src/Grants/Issuing.antt =====
-- `CreateGrant` and `GetGrant` of handlers.go, with `isTokenHash` of grants.go and the bounds of models.go.
-- `trim` is `strings.TrimSpace`, `len` the builtin on texts, `hex_decodes` whether `hex.DecodeString`
-- succeeds, and `show_time` how a time stands in a payload. Times are in nanoseconds.
use x_auth_site.Base.{
  ℕ, ◌+◌, ◌*◌, String, Bool, not, ◌&&◌, Option, none, some, [], ◌∷◌, ltb, ◌==◌, if◌then◌else◌,
  str_eq,
}
use x_auth_site.Base.Int.{ℤ, pos, negsuc}
use x_auth_site.Grants.Store.{Grant, unset, AuditEvent, Handlers, create, get, append, with_status}

abbrev pub default_ttl_seconds : ℕ
default_ttl_seconds = 900

abbrev pub max_ttl_seconds : ℕ
max_ttl_seconds = 86400

-- `time.Second`.
abbrev pub second : ℕ
second = 1000000000

pub record CreateGrantRequest : Type 0 where
  pub install_id : String
  pub identity_id : String
  pub persona_id : String
  pub access_token_hash : String
  pub refresh_token_hash : String
  pub ttl_seconds : ℤ

-- What `httpx.ReadJSON` makes of a body.
pub data Body (A : Type 0) : Type 0 where
  empty_body invalid_json : Body A
  decoded : A → Body A

pub data CreateError : Type 0 where
  missing_tenant no_body bad_json invalid_install_id invalid_identity_id : CreateError
  invalid_persona_id invalid_access_token_hash invalid_refresh_token_hash : CreateError
  invalid_ttl_seconds : CreateError

pub data CreateReply : Type 0 where
  refused : CreateError → CreateReply
  created : Grant → CreateReply

-- A check that answers with an error and returns, before the rest.
abbrev pub refuse_if : {E : Type 0} → Bool → E → Option E → Option E
refuse_if wrong e rest = if wrong then some e else rest

-- The seconds that a grant lives, if they are within the bounds.
unfoldable pub ttl_of : ℤ → Option ℕ
ttl_of (negsuc n) = none
ttl_of (pos n) =
    if n == 0 then some default_ttl_seconds else (if ltb max_ttl_seconds n then none else some n)

pub data GetReply : Type 0 where
  no_tenant invalid_id not_found : GetReply
  grant_found : Grant → GetReply

abbrev pub get_reply : Option Grant → GetReply
get_reply none = not_found
get_reply (some g) = grant_found g

-- `GetGrant`: GET /v1/grants/{id}.
unfoldable pub handle_get : Handlers → Option String → String → ℕ → GetReply
handle_get h none id now = no_tenant
handle_get h (some tenant) id now =
    if str_eq id "" then invalid_id else get_reply (get h.grants tenant id now)

module _ (trim : String → String) (len : String → ℕ) (hex_decodes : String → Bool)
    (show_time : ℕ → String) where
  unfoldable pub is_token_hash : String → Bool
  is_token_hash s = (len s == 64) && hex_decodes s

  -- The checks of the fields, in the order of the code.
  unfoldable pub request_error : CreateGrantRequest → Option CreateError
  request_error req = refuse_if (str_eq (trim req.install_id) "") invalid_install_id (
      refuse_if (str_eq (trim req.identity_id) "") invalid_identity_id (
        refuse_if (str_eq (trim req.persona_id) "") invalid_persona_id (
          refuse_if (not (is_token_hash (trim req.access_token_hash))) invalid_access_token_hash (
            refuse_if
              (not (str_eq (trim req.refresh_token_hash) "")
                && not (is_token_hash (trim req.refresh_token_hash)))
              invalid_refresh_token_hash none))))

  abbrev pub new_grant : String → String → CreateGrantRequest → ℕ → ℕ → Grant
  new_grant id tenant req ttl now = record {
    id = id;
    tenant_id = tenant;
    install_id = trim req.install_id;
    identity_id = trim req.identity_id;
    persona_id = trim req.persona_id;
    access_token_hash = trim req.access_token_hash;
    refresh_token_hash = trim req.refresh_token_hash;
    issued_at = now;
    expires_at = some (now + ttl * second);
    revoked_at = none;
    status = unset;
  }

  abbrev pub issued_event : String → Grant → AuditEvent
  issued_event uuid g = record {
    id = uuid;
    tenant_id = g.tenant_id;
    event_type = "grant_issued";
    actor = "system";
    install_id = g.install_id;
    grant_id = g.id;
    payload =
        ("persona_id", g.persona_id)
        ∷ ("identity_id", g.identity_id)
        ∷ ("expires_at", expiry g.expires_at)
        ∷ [];
    created_at = g.issued_at;
  }
    where
      expiry : Option ℕ → String
      expiry none = ""
      expiry (some t) = show_time t

  abbrev pub create_checked :
      Handlers
      → String
      → String
      → String
      → CreateGrantRequest
      → ℕ
      → Option ℕ
      → Handlers × CreateReply
  create_checked h id uuid tenant req now none = (h, refused invalid_ttl_seconds)
  create_checked h id uuid tenant req now (some ttl) =
      let (grants, saved) = create h.grants (new_grant id tenant req ttl now) in
      (
        record { grants = grants; audit = (append h.audit (issued_event uuid saved)).0 },
        created (with_status now saved),
      )

  abbrev pub create_decoded :
      Handlers
      → String
      → String
      → String
      → CreateGrantRequest
      → ℕ
      → Option CreateError
      → Handlers × CreateReply
  create_decoded h id uuid tenant req now (some e) = (h, refused e)
  create_decoded h id uuid tenant req now none =
      create_checked h id uuid tenant req now (ttl_of req.ttl_seconds)

  -- `CreateGrant`: POST /v1/grants, with the ids of the grant and of its audit event.
  unfoldable pub create_grant :
      Handlers
      → String
      → String
      → Option String
      → Body CreateGrantRequest
      → ℕ
      → Handlers × CreateReply
  create_grant h id uuid none body now = (h, refused missing_tenant)
  create_grant h id uuid (some tenant) empty_body now = (h, refused no_body)
  create_grant h id uuid (some tenant) invalid_json now = (h, refused bad_json)
  create_grant h id uuid (some tenant) (decoded req) now =
      create_decoded h id uuid tenant req now (request_error req)
