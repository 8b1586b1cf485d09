-- ===== src/Broker/Store.antt =====
-- The in-memory storage of the broker (storage.go) with its data (models.go). `mu` makes each
-- operation one step; the clock is an argument; `none` for a read is ErrNotFound.
use x_auth_site.Base.{
  ℕ, ◌+◌, ◌*◌, String, Bool, true, not, ◌&&◌, ◌||◌, Option, none, some, List, [], ◌∷◌, length, ltb,
  ◌==◌, if◌then◌else◌, str_eq, str_ltb,
}
use x_auth_site.Base.Dict.{Dict, lookup, insert, delete, keep_if, values_where}
use x_auth_site.Base.Sort.{sort_by}
use x_auth_site.Base.Page.{page}

pub data InstallStatus : Type 0 where
  pending active revoked : InstallStatus

pub record Install : Type 0 where
  pub id : String
  pub tenant_id : String
  pub runtime : String
  pub persona_id : String
  pub identity_id : String
  pub client_id : String
  pub status : InstallStatus
  pub created_at : ℕ
  pub updated_at : ℕ

pub record DcrClient (M : Type 0) : Type 0 where
  pub client_id : String
  pub client_secret : String
  pub client_metadata : M
  pub created_at : ℕ

-- `created_at` is `none` at the zero time.
pub record AuthCode : Type 0 where
  pub code : String
  pub tenant_id : String
  pub runtime : String
  pub persona_id : String
  pub pool_id : String
  pub client_id : String
  pub redirect_uri : String
  pub state : String
  pub scope : String
  pub code_challenge : String
  pub created_at : Option ℕ

pub record TokenRecord : Type 0 where
  pub access_token : String
  pub refresh_token : String
  pub install_id : String
  pub persona_id : String
  pub identity_id : String
  pub subject : String
  pub scope : String
  pub tenant_id : String
  pub expires_at : ℕ
  pub rotated_at : Option ℕ

abbrev pub second : ℕ
second = 1_000_000_000

abbrev pub default_token_ttl_seconds : ℕ
default_token_ttl_seconds = 900

abbrev pub auth_code_ttl_seconds : ℕ
auth_code_ttl_seconds = 300

abbrev pub runtime_custom : String
runtime_custom = "custom"

unfoldable pub valid_runtime : String → Bool
valid_runtime s =
    str_eq s "claude" || (str_eq s "chatgpt" || (str_eq s "cursor" || str_eq s runtime_custom))

-- `M` is the decoded metadata of a client, which the broker passes on unread.
pub record MemStorage (M : Type 0) : Type 0 where
  pub installs : Dict Install
  pub clients : Dict (DcrClient M)
  pub codes : Dict AuthCode
  pub tokens : Dict TokenRecord

abbrev pub owned_install : String → Option Install → Option Install
owned_install tenant none = none
owned_install tenant (some i) = if str_eq i.tenant_id tenant then some i else none

abbrev pub older_than : Option ℕ → ℕ → Bool
older_than none created_at = true
older_than (some cursor) created_at = ltb created_at cursor

abbrev pub install_newer : Install → Install → Bool
install_newer a b =
    if a.created_at == b.created_at then str_ltb b.id a.id else ltb b.created_at a.created_at

abbrev pub first_of : {A : Type 0} → List A → Option A
first_of [] = none
first_of (a ∷ _) = some a

abbrev pub stamped : ℕ → Option ℕ → Option ℕ
stamped now none = some now
stamped now (some t) = some t

abbrev pub of_install : String → TokenRecord → Bool
of_install install t = str_eq t.install_id install

abbrev pub token_expired : ℕ → TokenRecord → Bool
token_expired now t = ltb t.expires_at now

-- `created_at` before `now` less the lifetime of a code.
abbrev pub code_expired : ℕ → AuthCode → Bool
code_expired now c = elim c.created_at [
  | none ↦ true
  | some t ↦ ltb (t + auth_code_ttl_seconds * second) now
]

module _ {M : Type 0} where
  unfoldable pub new_mem_storage : MemStorage M
  new_mem_storage = record { installs = []; clients = []; codes = []; tokens = [] }

  unfoldable pub create_install : MemStorage M → Install → MemStorage M
  create_install s i = record s { installs = insert i.id i s.installs }

  unfoldable pub get_install : MemStorage M → String → String → Option Install
  get_install s tenant id = owned_install tenant (lookup id s.installs)

  abbrev pub update_found : MemStorage M → Install → ℕ → Option Install → MemStorage M
  update_found s i now none = s
  update_found s i now (some existing) = record s {
    installs =
        insert i.id (record i { created_at = existing.created_at; updated_at = now }) s.installs;
  }

  -- The callers read nothing of the answer but its error, which they log.
  unfoldable pub update_install : MemStorage M → Install → ℕ → MemStorage M
  update_install s i now = update_found s i now (owned_install i.tenant_id (lookup i.id s.installs))

  unfoldable pub list_installs : MemStorage M → String → ℕ → Option ℕ → List Install
  list_installs s tenant limit cursor = page limit (
      sort_by install_newer (
        values_where (λ i. str_eq i.tenant_id tenant && older_than cursor i.created_at) s.installs))

  unfoldable pub put_client : MemStorage M → DcrClient M → MemStorage M
  put_client s c = record s { clients = insert c.client_id c s.clients }

  unfoldable pub get_client : MemStorage M → String → Option (DcrClient M)
  get_client s id = lookup id s.clients

  unfoldable pub put_auth_code : MemStorage M → AuthCode → ℕ → MemStorage M
  put_auth_code s ac now = record s {
    codes = insert ac.code (record ac { created_at = stamped now ac.created_at }) s.codes;
  }

  abbrev pub consumed : MemStorage M → String → Option AuthCode → MemStorage M × Option AuthCode
  consumed s code none = (s, none)
  consumed s code (some ac) = (record s { codes = delete code s.codes }, some ac)

  unfoldable pub consume_auth_code : MemStorage M → String → MemStorage M × Option AuthCode
  consume_auth_code s code = consumed s code (lookup code s.codes)

  unfoldable pub put_token : MemStorage M → TokenRecord → MemStorage M
  put_token s t = record s { tokens = insert t.access_token t s.tokens }

  unfoldable pub get_token : MemStorage M → String → Option TokenRecord
  get_token s access = lookup access s.tokens

  unfoldable pub get_token_by_refresh : MemStorage M → String → Option TokenRecord
  get_token_by_refresh s refresh =
      if str_eq refresh ""
      then none
      else first_of (values_where (λ t. str_eq t.refresh_token refresh) s.tokens)

  -- Deleting an unknown token gives an error that the caller drops.
  unfoldable pub delete_token : MemStorage M → String → MemStorage M
  delete_token s access = record s { tokens = delete access s.tokens }

  unfoldable pub delete_tokens_for_install : MemStorage M → String → MemStorage M × ℕ
  delete_tokens_for_install s install = (
    record s { tokens = keep_if (λ t. not (of_install install t)) s.tokens },
    length (values_where (of_install install) s.tokens),
  )

  unfoldable pub purge_expired : MemStorage M → ℕ → MemStorage M × ℕ
  purge_expired s now = (
    record s {
      tokens = keep_if (λ t. not (token_expired now t)) s.tokens;
      codes = keep_if (λ c. not (code_expired now c)) s.codes;
    },
    length (values_where (token_expired now) s.tokens)
        + length (values_where (code_expired now) s.codes),
  )
