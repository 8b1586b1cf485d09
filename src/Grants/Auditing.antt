-- ===== src/Grants/Auditing.antt =====
-- The audit endpoints: `AppendAudit` and `QueryAudit` of handlers.go, and `parseAuditFilter` of audit.go.
-- `trim` is `strings.TrimSpace`, `parse_time` is `time.Parse` with RFC 3339 and `atoi` is
-- `strconv.Atoi`, with `none` for their errors.
use x_auth_site.Base.{ℕ, ◌==◌, String, Option, none, some, List, if◌then◌else◌, ltb, str_eq}
use x_auth_site.Base.Int.{ℤ, pos, negsuc}
use x_auth_site.Grants.Store.{AuditEvent, AuditFilter, Handlers, append, query}
use x_auth_site.Grants.Issuing.{Body, empty_body, invalid_json, decoded, refuse_if}

abbrev pub default_audit_limit : ℕ
default_audit_limit = 100

abbrev pub max_audit_limit : ℕ
max_audit_limit = 1000

pub record AppendAuditRequest : Type 0 where
  pub event_type : String
  pub actor : String
  pub install_id : String
  pub grant_id : String
  pub payload : List (String × String)

pub data AuditError : Type 0 where
  missing_tenant no_body bad_json invalid_type invalid_actor : AuditError

pub data AppendReply : Type 0 where
  refused : AuditError → AppendReply
  appended : AuditEvent → AppendReply

pub data FilterError : Type 0 where
  invalid_since invalid_until invalid_limit : FilterError

-- `url.Values`, as `Get` reads it: the empty text for a missing parameter.
abbrev pub Values : Type 0
Values = String → String

pub data FilterResult (A : Type 0) : Type 0 where
  malformed : FilterError → FilterResult A
  parsed : A → FilterResult A

-- A time of the query: none if the parameter is missing.
abbrev pub time_of : FilterError → Option ℕ → FilterResult (Option ℕ)
time_of e none = malformed e
time_of e (some t) = parsed (some t)

-- A limit of the query, clamped.
abbrev pub clamped : Option ℤ → FilterResult ℕ
clamped none = malformed invalid_limit
clamped (some (negsuc n)) = malformed invalid_limit
clamped (some (pos n)) =
    if n == 0
    then malformed invalid_limit
    else parsed (if ltb max_audit_limit n then max_audit_limit else n)

abbrev pub and_then : {A B : Type 0} → FilterResult A → (A → FilterResult B) → FilterResult B
and_then (malformed e) f = malformed e
and_then (parsed a) f = f a

pub data QueryReply : Type 0 where
  no_tenant : QueryReply
  bad_filter : FilterError → QueryReply
  items : List AuditEvent → QueryReply

module _ (trim : String → String) where
  unfoldable pub audit_error : AppendAuditRequest → Option AuditError
  audit_error req =
      refuse_if (str_eq (trim req.event_type) "") invalid_type
        (refuse_if (str_eq (trim req.actor) "") invalid_actor none)

  abbrev pub sent_event : String → String → AppendAuditRequest → ℕ → AuditEvent
  sent_event uuid tenant req now = record {
    id = uuid;
    tenant_id = tenant;
    event_type = trim req.event_type;
    actor = trim req.actor;
    install_id = trim req.install_id;
    grant_id = trim req.grant_id;
    payload = req.payload;
    created_at = now;
  }

  abbrev pub append_decoded :
      Handlers
      → String
      → String
      → AppendAuditRequest
      → ℕ
      → Option AuditError
      → Handlers × AppendReply
  append_decoded h uuid tenant req now (some e) = (h, refused e)
  append_decoded h uuid tenant req now none =
      let (audit, saved) = append h.audit (sent_event uuid tenant req now) in
      (record h { audit = audit }, appended saved)

  -- `AppendAudit`: POST /v1/audit.
  unfoldable pub append_audit :
      Handlers → String → Option String → Body AppendAuditRequest → ℕ → Handlers × AppendReply
  append_audit h uuid none body now = (h, refused missing_tenant)
  append_audit h uuid (some tenant) empty_body now = (h, refused no_body)
  append_audit h uuid (some tenant) invalid_json now = (h, refused bad_json)
  append_audit h uuid (some tenant) (decoded req) now =
      append_decoded h uuid tenant req now (audit_error req)

module _ (parse_time : String → Option ℕ) (atoi : String → Option ℤ) where
  unfoldable pub time_parameter : String → FilterError → FilterResult (Option ℕ)
  time_parameter v e = if str_eq v "" then parsed none else time_of e (parse_time v)

  unfoldable pub limit_parameter : String → FilterResult ℕ
  limit_parameter v = if str_eq v "" then parsed default_audit_limit else clamped (atoi v)

  abbrev pub filter_of : Values → Option ℕ → Option ℕ → ℕ → AuditFilter
  filter_of q since until limit = record {
    install_id = q "install_id";
    grant_id = q "grant_id";
    event_type = q "type";
    since = since;
    until = until;
    limit = limit;
  }

  abbrev pub after_until : Values → Option ℕ → Option ℕ → FilterResult AuditFilter
  after_until q since until =
      and_then (limit_parameter (q "limit")) (λ limit. parsed (filter_of q since until limit))

  abbrev pub after_since : Values → Option ℕ → FilterResult AuditFilter
  after_since q since =
      and_then (time_parameter (q "until") invalid_until) (λ until. after_until q since until)

  unfoldable pub parse_audit_filter : Values → FilterResult AuditFilter
  parse_audit_filter q =
      and_then (time_parameter (q "since") invalid_since) (λ since. after_since q since)

  abbrev pub query_parsed : Handlers → String → FilterResult AuditFilter → QueryReply
  query_parsed h tenant (malformed e) = bad_filter e
  query_parsed h tenant (parsed f) = items (query h.audit tenant f)

  -- `QueryAudit`: GET /v1/audit.
  unfoldable pub query_audit : Handlers → Option String → Values → QueryReply
  query_audit h none q = no_tenant
  query_audit h (some tenant) q = query_parsed h tenant (parse_audit_filter q)
