-- ===== src/Pool/Server.antt =====
-- The handlers of the pool service (handlers.go) over its storage: the checks of a request, the call and
-- the answer. Bodies arrive decoded (`none` where that failed); strings.TrimSpace and the length of a
-- text in bytes are arguments, as are the clock's answer and the id of `NewID`.
use x_auth_site.Base.{ℕ, String, ◌||◌, Option, none, some, List, ltb, if◌then◌else◌, str_eq}
use x_auth_site.Pool.Store.{
  Pool, Identity, available, StorageError, pool_not_found, identity_not_found, pool_full,
  persona_not_eligible, no_available_identity, identity_revoked, Result, ok, err, MemStorage,
  create_pool, get_pool, delete_pool, add_identity, claim_identity, release_identity,
  revoke_identity,
}

pub record CreatePoolRequest : Type 0 where
  pub name : String
  pub size : ℕ
  pub persona_ids : List String

pub record ClaimRequest : Type 0 where
  pub persona_id : String
  pub install_id : String

pub data Reply : Type 0 where
  missing_tenant invalid_body invalid_name invalid_size invalid_id invalid_subject_id
        invalid_persona_id invalid_install_id :
      Reply
  not_found conflict internal_error no_content : Reply
  pool_answer : Pool → Reply
  identity_answer : Identity → Reply

abbrev pub max_name_len : ℕ
max_name_len = 100

abbrev pub min_size : ℕ
min_size = 1

abbrev pub max_size : ℕ
max_size = 10000

-- The status of an error of the storage; each handler that can see it gives it the same one.
abbrev pub refusal : StorageError → Reply
refusal pool_not_found = not_found
refusal identity_not_found = not_found
refusal pool_full = conflict
refusal persona_not_eligible = not_found
refusal no_available_identity = conflict
refusal identity_revoked = conflict

abbrev pub pool_reply : Result Pool → Reply
pool_reply (ok p) = pool_answer p
pool_reply (err e) = refusal e

abbrev pub identity_reply : Result Identity → Reply
identity_reply (ok i) = identity_answer i
identity_reply (err e) = refusal e

abbrev pub empty_reply : Result (Unit {0}) → Reply
empty_reply (ok _) = no_content
empty_reply (err e) = refusal e

abbrev pub named_pool : CreatePoolRequest → String → String → String → ℕ → Pool
named_pool r name id tenant now = record {
  id = id;
  tenant_id = tenant;
  name = name;
  size = r.size;
  persona_ids = r.persona_ids;
  created_at = now;
  updated_at = now;
}

unfoldable pub handle_create_pool :
    (String → String)
    → (String → ℕ)
    → MemStorage
    → Option String
    → Option CreatePoolRequest
    → String
    → ℕ
    → MemStorage × Reply
handle_create_pool trim len s none body id now = (s, missing_tenant)
handle_create_pool trim len s (some tenant) none id now = (s, invalid_body)
handle_create_pool trim len s (some tenant) (some r) id now =
    if str_eq (trim r.name) "" || ltb max_name_len (len (trim r.name))
    then (s, invalid_name)
    else (if ltb r.size min_size || ltb max_size r.size
        then (s, invalid_size)
        else (let (s', out) = create_pool s (named_pool r (trim r.name) id tenant now) in
            (s', pool_reply out)))

unfoldable pub handle_get_pool : MemStorage → Option String → String → Reply
handle_get_pool s none id = missing_tenant
handle_get_pool s (some tenant) id =
    if str_eq id "" then invalid_id else pool_reply (get_pool s tenant id)

unfoldable pub handle_delete_pool : MemStorage → Option String → String → MemStorage × Reply
handle_delete_pool s none id = (s, missing_tenant)
handle_delete_pool s (some tenant) id =
    if str_eq id ""
    then (s, invalid_id)
    else (let (s', out) = delete_pool s tenant id in (s', empty_reply out))

abbrev pub new_identity : String → String → String → ℕ → Identity
new_identity pool subject id now = record {
  id = id;
  pool_id = pool;
  subject_id = subject;
  status = available;
  claimed_by_install_id = none;
  created_at = now;
  updated_at = now;
}

abbrev pub add_checked :
    (String → String)
    → MemStorage
    → String
    → String
    → String
    → ℕ
    → Option String
    → MemStorage × Reply
add_checked trim s tenant pool id now none = (s, invalid_body)
add_checked trim s tenant pool id now (some subject) =
    if str_eq (trim subject) ""
    then (s, invalid_subject_id)
    else (let (s', out) = add_identity s tenant pool (new_identity pool (trim subject) id now) in
        (s', identity_reply out))

-- The body is the subject id.
unfoldable pub handle_add_identity :
    (String → String)
    → MemStorage
    → Option String
    → String
    → Option String
    → String
    → ℕ
    → MemStorage × Reply
handle_add_identity trim s none pool body id now = (s, missing_tenant)
handle_add_identity trim s (some tenant) pool body id now =
    if str_eq pool "" then (s, invalid_id) else add_checked trim s tenant pool id now body

abbrev pub claim_checked :
    (String → String) → MemStorage → String → String → ℕ → Option ClaimRequest → MemStorage × Reply
claim_checked trim s tenant pool now none = (s, invalid_body)
claim_checked trim s tenant pool now (some r) =
    if str_eq (trim r.persona_id) ""
    then (s, invalid_persona_id)
    else (if str_eq (trim r.install_id) ""
        then (s, invalid_install_id)
        else (let (s', out) = claim_identity s tenant pool r.persona_id r.install_id now in
            (s', identity_reply out)))

unfoldable pub handle_claim :
    (String → String)
    → MemStorage
    → Option String
    → String
    → Option ClaimRequest
    → ℕ
    → MemStorage × Reply
handle_claim trim s none pool body now = (s, missing_tenant)
handle_claim trim s (some tenant) pool body now =
    if str_eq pool "" then (s, invalid_id) else claim_checked trim s tenant pool now body

unfoldable pub handle_release : MemStorage → Option String → String → ℕ → MemStorage × Reply
handle_release s none id now = (s, missing_tenant)
handle_release s (some tenant) id now =
    if str_eq id ""
    then (s, invalid_id)
    else (let (s', out) = release_identity s tenant id now in (s', identity_reply out))

unfoldable pub handle_revoke : MemStorage → Option String → String → ℕ → MemStorage × Reply
handle_revoke s none id now = (s, missing_tenant)
handle_revoke s (some tenant) id now =
    if str_eq id ""
    then (s, invalid_id)
    else (let (s', out) = revoke_identity s tenant id now in (s', empty_reply out))
