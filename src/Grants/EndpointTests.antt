-- ===== src/Grants/EndpointTests.antt =====
-- Runs of `CreateGrant`, `AppendAudit` and `QueryAudit`, and instances of their theorems.
use x_auth_site.Base.{
  ℕ, ◌≡◌, refl, ◌≢◌, String, Bool, true, Option, none, some, [], ◌∷◌, arith, if◌then◌else◌, str_eq,
  str_eq_iff,
}
use x_auth_site.Base.Dict.{lookup}
use x_auth_site.Base.Sort.{sort_by, insert_by}
use x_auth_site.Base.Int.{ℤ, pos, negsuc}
use x_auth_site.Grants.Store.{
  Grant, active, derive_status, create, append, AuditEvent, AuditFilter, query, Handlers,
}
use x_auth_site.Grants.Revocation.{none-IsValid}
use x_auth_site.Grants.Tokens.{hash_token, introspect, introspected}
use x_auth_site.Grants.Issuing.{
  CreateGrantRequest, decoded, refused, created, invalid_ttl_seconds, is_token_hash, request_error,
  ttl_of, new_grant, create_grant,
}
use x_auth_site.Grants.Issued.{CreateEffect, create_grant-CreateEffect}
use x_auth_site.Grants.Issued.Shown.{create_grant-introspect}
use x_auth_site.Grants.Auditing.{
  AppendAuditRequest, appended, audit_error, append_audit, Values, parsed, time_parameter,
  limit_parameter, parse_audit_filter, items, query_audit,
}
use x_auth_site.Grants.Queries.{Answered, query_audit-Answered}

abbrev same : String → String
same t = t

abbrev len_of : String → ℕ
len_of s = if str_eq s "" then 0 else 64

abbrev is_hex : String → Bool
is_hex s = true

abbrev shown_time : ℕ → String
shown_time t = "later"

abbrev digest_of : String → String
digest_of t = if str_eq t "token one" then "h1" else "h0"

abbrev fresh_handlers : Handlers
fresh_handlers = record { grants = []; audit = [] }

abbrev grant_request : CreateGrantRequest
grant_request = record {
  install_id = "in";
  identity_id = "i1";
  persona_id = "sales";
  access_token_hash = "h1";
  refresh_token_hash = "";
  ttl_seconds = pos 0;
}

-- The grant of the request, with the default lifetime.
abbrev grant_answered : Grant
grant_answered = record (new_grant same len_of is_hex shown_time "g1" "t" grant_request 900 100) {
  status = active;
}

grant_made :
    (create_grant same len_of is_hex shown_time fresh_handlers "g1" "e1"
      (some "t")
      (decoded grant_request)
      100).1
    ≡ created grant_answered
unfolding create_grant request_error is_token_hash ttl_of create append derive_status str_eq
grant_made = refl

-- A negative lifetime is refused.
negative_refused :
    (create_grant same len_of is_hex shown_time fresh_handlers "g1" "e1"
      (some "t")
      (decoded (record grant_request { ttl_seconds = negsuc 4 }))
      100).1
    ≡ refused invalid_ttl_seconds
unfolding create_grant request_error is_token_hash ttl_of str_eq
negative_refused = refl

create_grant-CreateEffect_example :
    CreateEffect same len_of is_hex shown_time fresh_handlers "g1" "e1" "t" grant_request 100 (
      create_grant same len_of is_hex shown_time fresh_handlers "g1" "e1"
        (some "t")
        (decoded grant_request)
        100)
create_grant-CreateEffect_example =
    create_grant-CreateEffect same len_of is_hex shown_time fresh_handlers "g1" "e1" "t"
      grant_request 100

hash_given : "h1" ≡ hash_token same digest_of "token one"
unfolding hash_token str_eq
hash_given = refl

token_given : ◌≢◌ {A = String} "token one" ""
unfolding str_eq
token_given = ground (arith, str_eq_iff "token one" "")

none_stored :
    (k : String) (f : Grant) → lookup k fresh_handlers.grants ≡ some f → f.access_token_hash ≢ "h1"
unfolding lookup
none_stored k f e = absurd (cc e)

blank_length : len_of "" ≡ 0
unfolding str_eq
blank_length = refl

create_grant-introspect_example :
    introspect same digest_of
      (create_grant same len_of is_hex shown_time fresh_handlers "g1" "e1"
        (some "t")
        (decoded grant_request)
        100).0.grants
      (some "t")
      (some "token one")
      500
    ≡ introspected grant_answered
create_grant-introspect_example =
    create_grant-introspect same len_of is_hex shown_time digest_of fresh_handlers "g1" "e1" "t"
      "token one" grant_request 100 500 grant_answered blank_length none-IsValid none_stored
      hash_given token_given grant_made refl

abbrev time_of_text : String → Option ℕ
time_of_text v = none

abbrev number_of_text : String → Option ℤ
number_of_text v = if str_eq v "5000" then some (pos 5000) else none

-- A query for one type of event, with a limit over the maximum.
abbrev asked : Values
asked k = if str_eq k "limit" then "5000" else (if str_eq k "type" then "persona_bound" else "")

abbrev asked_filter : AuditFilter
asked_filter = record {
  install_id = "";
  grant_id = "";
  event_type = "persona_bound";
  since = none;
  until = none;
  limit = 1000;
}

filter_parsed : parse_audit_filter time_of_text number_of_text asked ≡ parsed asked_filter
unfolding parse_audit_filter time_parameter limit_parameter str_eq
filter_parsed = refl

abbrev audit_request : AppendAuditRequest
audit_request = record {
  event_type = "persona_bound";
  actor = "broker";
  install_id = "in";
  grant_id = "";
  payload = [];
}

abbrev event_sent : AuditEvent
event_sent = record {
  id = "e1";
  tenant_id = "t";
  event_type = "persona_bound";
  actor = "broker";
  install_id = "in";
  grant_id = "";
  payload = [];
  created_at = 100;
}

event_appended :
    (append_audit same fresh_handlers "e1" (some "t") (decoded audit_request) 100).1
    ≡ appended event_sent
unfolding append_audit audit_error append str_eq
event_appended = refl

-- The event that was sent is read back.
event_read_back :
    query_audit time_of_text number_of_text
      (append_audit same fresh_handlers "e1" (some "t") (decoded audit_request) 100).0
      (some "t")
      asked
    ≡ items (event_sent ∷ [])
unfolding append_audit audit_error append query_audit parse_audit_filter time_parameter
    limit_parameter query sort_by insert_by str_eq
event_read_back = refl

abbrev one_logged : Handlers
one_logged = record { grants = []; audit = event_sent ∷ [] }

query_answered :
    query_audit time_of_text number_of_text one_logged (some "t") asked ≡ items (event_sent ∷ [])
unfolding query_audit parse_audit_filter time_parameter limit_parameter query sort_by insert_by
    str_eq
query_answered = refl

query_audit-Answered_example :
    Answered time_of_text number_of_text one_logged "t" asked (event_sent ∷ [])
query_audit-Answered_example =
    query_audit-Answered time_of_text number_of_text one_logged "t" asked (event_sent ∷ [])
      query_answered
