-- ===== src/Authentication/Sessions.antt =====
-- Sessions: their operations of the in-memory storage (storage.go), their data (models.go) and the
-- handlers under /v1/sessions (sessions.go). `mu` makes each operation of the storage one step, and a
-- handler is one step too. Bodies arrive decoded (`none` where that failed).
pub mod Lifecycle
use x_auth_site.Base.{
  ℕ, ◌+◌, ◌*◌, String, Bool, true, false, not, ◌&&◌, ◌||◌, Option, none, some, List, [], ◌∷◌, take,
  ltb, leb, ◌==◌, if◌then◌else◌, is_some, str_eq, str_ltb,
}
use Prim.Native.String.{◌++◌ as append}
use x_auth_site.Base.Dict.{Dict, lookup, insert, values_where}
use x_auth_site.Base.Sort.{sort_by}

pub record User : Type 0 where
  pub id : String
  pub tenant_id : String
  pub email : String
  pub name : String
  pub created_at : ℕ
  pub updated_at : ℕ

pub record Session : Type 0 where
  pub id : String
  pub tenant_id : String
  pub user_id : String
  pub risk_level : String
  pub step_up_completed : Bool
  pub created_at : ℕ
  pub updated_at : ℕ
  pub expires_at : ℕ
  pub invalidated_at : Option ℕ

pub record CreateSessionRequest : Type 0 where
  pub user_id : String
  pub risk_level : String
  pub step_up_completed : Bool

pub record UpgradeSessionRequest : Type 0 where
  pub risk_level : String
  pub step_up_completed : Bool

abbrev pub risk_low : String
risk_low = "low"

abbrev pub risk_medium : String
risk_medium = "medium"

abbrev pub risk_high : String
risk_high = "high"

unfoldable pub valid_risk_level : String → Bool
valid_risk_level s = str_eq s risk_low || (str_eq s risk_medium || str_eq s risk_high)

-- In nanoseconds: one hour.
abbrev pub session_ttl : ℕ
session_ttl = 3600 * 1_000_000_000

-- The users and the sessions of `MemStorage`.
pub record MemStorage : Type 0 where
  pub users : Dict User
  pub sessions : Dict Session

abbrev pub owned_user : String → Option User → Option User
owned_user tenant none = none
owned_user tenant (some u) = if str_eq u.tenant_id tenant then some u else none

abbrev pub owned_session : String → Option Session → Option Session
owned_session tenant none = none
owned_session tenant (some s) = if str_eq s.tenant_id tenant then some s else none

unfoldable pub get_user : MemStorage → String → String → Option User
get_user s tenant id = owned_user tenant (lookup id s.users)

unfoldable pub create_session : MemStorage → Session → MemStorage
create_session s sess = record s { sessions = insert sess.id sess s.sessions }

unfoldable pub get_session : MemStorage → String → String → Option Session
get_session s tenant id = owned_session tenant (lookup id s.sessions)

abbrev pub session_newer : Session → Session → Bool
session_newer a b =
    if a.created_at == b.created_at then str_ltb b.id a.id else ltb b.created_at a.created_at

abbrev pub default_session_list_cap : ℕ
default_session_list_cap = 100

unfoldable pub list_sessions : MemStorage → String → ℕ → List Session
list_sessions s tenant limit =
    take (if limit == 0 then default_session_list_cap else limit)
      (sort_by session_newer (values_where (λ x. str_eq x.tenant_id tenant) s.sessions))

-- The storage with the row replaced, and the row; `none` is `ErrNotFound`.
abbrev pub updated : MemStorage → Session → ℕ → Option Session → MemStorage × Option Session
updated s sess now none = (s, none)
updated s sess now (some existing) =
    let row : Session = record sess { created_at = existing.created_at; updated_at = now } in
    (record s { sessions = insert sess.id row s.sessions }, some row)

unfoldable pub update_session : MemStorage → Session → ℕ → MemStorage × Option Session
update_session s sess now =
    updated s sess now (owned_session sess.tenant_id (lookup sess.id s.sessions))

pub data Reply : Type 0 where
  missing_tenant invalid_request not_found session_invalidated internal_error no_content : Reply
  session : Session → Reply

abbrev pub saved : MemStorage × Option Session → MemStorage × Reply
saved (s, none) = (s, internal_error)
saved (s, some row) = (s, session row)

abbrev pub risk_of : String → String
risk_of level = if str_eq level "" then risk_low else level

abbrev pub new_session : String → CreateSessionRequest → String → ℕ → Session
new_session tenant r uuid now = record {
  id = append "ses_" uuid;
  tenant_id = tenant;
  user_id = r.user_id;
  risk_level = risk_of r.risk_level;
  step_up_completed = r.step_up_completed;
  created_at = now;
  updated_at = now;
  expires_at = now + session_ttl;
  invalidated_at = none;
}

abbrev pub create_checked :
    MemStorage → String → String → ℕ → Option CreateSessionRequest → MemStorage × Reply
create_checked s tenant uuid now none = (s, invalid_request)
create_checked s tenant uuid now (some r) =
    if str_eq r.user_id ""
    then (s, invalid_request)
    else (if not (valid_risk_level (risk_of r.risk_level))
        then (s, invalid_request)
        else (if not (is_some (get_user s tenant r.user_id)) then (s, invalid_request) else (
          create_session s (new_session tenant r uuid now),
          session (new_session tenant r uuid now),
        )))

unfoldable pub handle_create :
    MemStorage → Option String → Option CreateSessionRequest → String → ℕ → MemStorage × Reply
handle_create s none body uuid now = (s, missing_tenant)
handle_create s (some tenant) body uuid now = create_checked s tenant uuid now body

abbrev pub shown : Option Session → Reply
shown none = not_found
shown (some sess) = session sess

unfoldable pub handle_get : MemStorage → Option String → String → Reply
handle_get s none id = missing_tenant
handle_get s (some tenant) id = shown (get_session s tenant id)

abbrev pub refresh_found : MemStorage → ℕ → ℕ → Option Session → MemStorage × Reply
refresh_found s now stored none = (s, not_found)
refresh_found s now stored (some sess) =
    if is_some sess.invalidated_at
    then (s, session_invalidated)
    else saved (update_session s (record sess { expires_at = now + session_ttl }) stored)

-- `now` and `stored` are the readings of the clock by the handler and by the storage.
unfoldable pub handle_refresh : MemStorage → Option String → String → ℕ → ℕ → MemStorage × Reply
handle_refresh s none id now stored = (s, missing_tenant)
handle_refresh s (some tenant) id now stored = refresh_found s now stored (get_session s tenant id)

abbrev pub closed : MemStorage × Option Session → MemStorage × Reply
closed (s, none) = (s, internal_error)
closed (s, some row) = (s, no_content)

abbrev pub invalidate_found : MemStorage → ℕ → ℕ → Option Session → MemStorage × Reply
invalidate_found s now stored none = (s, not_found)
invalidate_found s now stored (some sess) =
    if is_some sess.invalidated_at
    then (s, no_content)
    else closed (update_session s (record sess { invalidated_at = some now }) stored)

unfoldable pub handle_invalidate : MemStorage → Option String → String → ℕ → ℕ → MemStorage × Reply
handle_invalidate s none id now stored = (s, missing_tenant)
handle_invalidate s (some tenant) id now stored =
    invalidate_found s now stored (get_session s tenant id)

abbrev pub upgrade_found :
    MemStorage → UpgradeSessionRequest → ℕ → Option Session → MemStorage × Reply
upgrade_found s r stored none = (s, not_found)
upgrade_found s r stored (some sess) =
    if is_some sess.invalidated_at
    then (s, session_invalidated)
    else (if not (str_eq r.risk_level "") && not (valid_risk_level r.risk_level)
        then (s, invalid_request)
        else saved (
            update_session s
              (record sess {
                risk_level = if str_eq r.risk_level "" then sess.risk_level else r.risk_level;
                step_up_completed = r.step_up_completed;
              })
              stored))

unfoldable pub handle_upgrade :
    MemStorage → Option String → String → Option UpgradeSessionRequest → ℕ → MemStorage × Reply
handle_upgrade s none id body stored = (s, missing_tenant)
handle_upgrade s (some tenant) id none stored = (s, invalid_request)
handle_upgrade s (some tenant) id (some r) stored =
    upgrade_found s r stored (get_session s tenant id)
