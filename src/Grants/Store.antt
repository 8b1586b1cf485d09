-- ===== src/Grants/Store.antt =====
-- The in-memory stores of grants and audit events (storage.go) with their data (models.go), and the
-- handlers that revoke (handlers.go). `mu` makes each store operation one step; the clock and the ids
-- of `uuid.NewString` are arguments. The zero time is `none`.
use x_auth_site.Base.{
  ℕ, suc, ◌+◌, String, Bool, true, false, not, ◌&&◌, ◌||◌, Option, none, some, List, [], ◌∷◌, ◌++◌,
  length, keep, ltb, ◌==◌, if◌then◌else◌, str_eq, str_ltb, is_some,
}
use x_auth_site.Base.Dict.{Dict, lookup, insert, values_where}
use x_auth_site.Base.Sort.{sort_by}
use x_auth_site.Base.Page.{page}

-- `unset` is the empty text, which a grant has until its status is derived.
pub data GrantStatus : Type 0 where
  unset active expired revoked : GrantStatus

pub record Grant : Type 0 where
  pub id : String
  pub tenant_id : String
  pub install_id : String
  pub identity_id : String
  pub persona_id : String
  pub access_token_hash : String
  pub refresh_token_hash : String
  pub issued_at : ℕ
  pub expires_at : Option ℕ
  pub revoked_at : Option ℕ
  pub status : GrantStatus

pub record AuditEvent : Type 0 where
  pub id : String
  pub tenant_id : String
  pub event_type : String
  pub actor : String
  pub install_id : String
  pub grant_id : String
  pub payload : List (String × String)
  pub created_at : ℕ

pub record AuditFilter : Type 0 where
  pub install_id : String
  pub grant_id : String
  pub event_type : String
  pub since : Option ℕ
  pub until : Option ℕ
  pub limit : ℕ

-- `MemGrantStore`: its `data` by grant id.
abbrev pub MemGrantStore : Type 0
MemGrantStore = Dict Grant

-- `MemAuditStore`: its `events`.
abbrev pub MemAuditStore : Type 0
MemAuditStore = List AuditEvent

abbrev pub is_past : ℕ → Option ℕ → Bool
is_past now none = false
is_past now (some t) = not (ltb now t)

unfoldable pub derive_status : Grant → ℕ → GrantStatus
derive_status g now =
    if is_some g.revoked_at then revoked else (if is_past now g.expires_at then expired else active)

-- A grant as it is answered: with the status derived.
abbrev pub with_status : ℕ → Grant → Grant
with_status now g = record g { status = derive_status g now }

-- The test `!ok || g.TenantID != tenantID`.
abbrev pub owned : String → Option Grant → Option Grant
owned tenant none = none
owned tenant (some g) = if str_eq g.tenant_id tenant then some g else none

unfoldable pub create : MemGrantStore → Grant → MemGrantStore × Grant
create s g = (insert g.id g s, g)

abbrev pub answer : ℕ → Option Grant → Option Grant
answer now none = none
answer now (some g) = some (with_status now g)

unfoldable pub get : MemGrantStore → String → String → ℕ → Option Grant
get s tenant id now = answer now (owned tenant (lookup id s))

-- The grant with its status, and whether it was revoked before; `none` is `ErrNotFound`.
abbrev pub revoke_found :
    MemGrantStore → String → ℕ → Option Grant → MemGrantStore × Option (Grant × Bool)
revoke_found s id now none = (s, none)
revoke_found s id now (some g) =
    if is_some g.revoked_at
    then (s, some (with_status now g, true))
    else (let done : Grant = record g { revoked_at = some now } in
        (insert id done s, some (with_status now done, false)))

unfoldable pub revoke_grant :
    MemGrantStore → String → String → ℕ → MemGrantStore × Option (Grant × Bool)
revoke_grant s tenant id now = revoke_found s id now (owned tenant (lookup id s))

abbrev pub of_install : String → String → Grant → Bool
of_install tenant install g = str_eq g.tenant_id tenant && str_eq g.install_id install

abbrev pub with_statuses : ℕ → List Grant → List Grant
with_statuses now [] = []
with_statuses now (g ∷ gs) = with_status now g ∷ with_statuses now gs

unfoldable pub list_by_install : MemGrantStore → String → String → ℕ → List Grant
list_by_install s tenant install now =
    sort_by (λ a b. ltb a.issued_at b.issued_at)
      (with_statuses now (values_where (of_install tenant install) s))

abbrev pub first_of : ℕ → List Grant → Option Grant
first_of now [] = none
first_of now (g ∷ _) = some (with_status now g)

unfoldable pub find_by_access_token_hash : MemGrantStore → String → ℕ → Option Grant
find_by_access_token_hash s hash now =
    if str_eq hash ""
    then none
    else first_of now (values_where (λ g. str_eq g.access_token_hash hash) s)

unfoldable pub append : MemAuditStore → AuditEvent → MemAuditStore × AuditEvent
append events e = (events ++ e ∷ [], e)

abbrev pub from_since : Option ℕ → ℕ → Bool
from_since none at = true
from_since (some since) at = not (ltb at since)

abbrev pub before_until : Option ℕ → ℕ → Bool
before_until none at = true
before_until (some until) at = ltb at until

-- An empty filter field fits everything.
abbrev pub fits : String → String → Bool
fits wanted value = str_eq wanted "" || str_eq value wanted

abbrev pub selects : String → AuditFilter → AuditEvent → Bool
selects tenant f e =
    str_eq e.tenant_id tenant
    && (fits f.install_id e.install_id
        && (fits f.grant_id e.grant_id
            && (fits f.event_type e.event_type
                && (from_since f.since e.created_at && before_until f.until e.created_at))))

abbrev pub event_newer : AuditEvent → AuditEvent → Bool
event_newer a b =
    if a.created_at == b.created_at then str_ltb a.id b.id else ltb b.created_at a.created_at

unfoldable pub query : MemAuditStore → String → AuditFilter → List AuditEvent
query events tenant f = page f.limit (sort_by event_newer (keep (selects tenant f) events))

-- `Handlers`: the two stores.
pub record Handlers : Type 0 where
  pub grants : MemGrantStore
  pub audit : MemAuditStore

abbrev pub grant_revoked : String
grant_revoked = "grant_revoked"

abbrev pub revoked_event : String → String → Grant → List (String × String) → ℕ → AuditEvent
revoked_event uuid tenant g payload now = record {
  id = uuid;
  tenant_id = tenant;
  event_type = grant_revoked;
  actor = "system";
  install_id = g.install_id;
  grant_id = g.id;
  payload = payload;
  created_at = now;
}

-- The audit entry of a revocation: only for the first.
abbrev pub audited :
    MemAuditStore
    → String
    → String
    → List (String × String)
    → ℕ
    → Option (Grant × Bool)
    → MemAuditStore
audited log uuid tenant payload now none = log
audited log uuid tenant payload now (some (g, true)) = log
audited log uuid tenant payload now (some (g, false)) =
    (append log (revoked_event uuid tenant g payload now)).0

pub data RevokeReply : Type 0 where
  missing_tenant invalid_id not_found no_content : RevokeReply

abbrev pub revoke_reply : Option (Grant × Bool) → RevokeReply
revoke_reply none = not_found
revoke_reply (some _) = no_content

-- `RevokeGrant`: POST /v1/grants/{id}/revoke.
unfoldable pub handle_revoke :
    Handlers → String → Option String → String → ℕ → Handlers × RevokeReply
handle_revoke h uuid none id now = (h, missing_tenant)
handle_revoke h uuid (some tenant) id now =
    if str_eq id ""
    then (h, invalid_id)
    else (let (grants, out) = revoke_grant h.grants tenant id now in
        (
          record { grants = grants; audit = audited h.audit uuid tenant [] now out },
          revoke_reply out,
        ))

pub record Summary : Type 0 where
  pub total : ℕ
  pub revoked_count : ℕ
  pub already_revoked : ℕ

abbrev pub fresh_one : Option (Grant × Bool) → ℕ
fresh_one (some (g, false)) = 1
fresh_one _ = 0

abbrev pub already_one : Option (Grant × Bool) → ℕ
already_one (some (g, true)) = 1
already_one _ = 0

-- One round of the loop of `RevokeGrantsForInstall`.
abbrev pub cascade_round : Handlers → String → String → ℕ → Grant → Handlers
cascade_round h uuid tenant now g = record {
  grants = (revoke_grant h.grants tenant g.id now).0;
  audit =
      audited h.audit uuid tenant (("cause", "install_revoked") ∷ []) now
        (revoke_grant h.grants tenant g.id now).1;
}

-- The loop, with its two counts; `uuid k` is the id generated in round `k`.
unfoldable pub revoke_each :
    Handlers → (ℕ → String) → ℕ → String → ℕ → List Grant → ℕ → ℕ → Handlers × (ℕ × ℕ)
revoke_each h uuid k tenant now [] fresh already = (h, (fresh, already))
revoke_each h uuid k tenant now (g ∷ gs) fresh already =
    let out = (revoke_grant h.grants tenant g.id now).1 in
    revoke_each (cascade_round h (uuid k) tenant now g) uuid (suc k) tenant now gs
      (fresh + fresh_one out) (already + already_one out)

-- The work of `RevokeGrantsForInstall` after its checks.
unfoldable pub revoke_grants_for_install :
    Handlers → (ℕ → String) → String → String → ℕ → Handlers × Summary
revoke_grants_for_install h uuid tenant install now =
    let grants = list_by_install h.grants tenant install now in
    let (h', (fresh, already)) = revoke_each h uuid 0 tenant now grants 0 0 in
    (h', record { total = length grants; revoked_count = fresh; already_revoked = already })

pub data CascadeReply : Type 0 where
  no_tenant invalid_install_id : CascadeReply
  summary : Summary → CascadeReply

-- `RevokeGrantsForInstall`: POST /v1/installs/{install_id}/revoke-grants.
unfoldable pub handle_revoke_for_install :
    Handlers → (ℕ → String) → Option String → String → ℕ → Handlers × CascadeReply
handle_revoke_for_install h uuid none install now = (h, no_tenant)
handle_revoke_for_install h uuid (some tenant) install now =
    if str_eq install ""
    then (h, invalid_install_id)
    else (let (h', s) = revoke_grants_for_install h uuid tenant install now in (h', summary s))
