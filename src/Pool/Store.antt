-- ===== src/Pool/Store.antt =====
-- The in-memory storage of pools and identities (storage.go) with its data (models.go). `mu` makes
-- each operation one step; the clock is an argument, and an operation answers with the new storage.
pub mod Steps
use x_auth_site.Base.{
  ℕ, suc, ◌+◌, String, Bool, true, false, not, ◌&&◌, ◌||◌, Option, none, some, List, [], ◌∷◌,
  length, take, any, keep, ltb, leb, ◌==◌, if◌then◌else◌, str_eq, str_ltb,
}
use x_auth_site.Base.Dict.{Dict, lookup, insert, delete, keep_if, values_where}
use x_auth_site.Base.Sort.{sort_by}
use x_auth_site.Base.Page.{page}

pub data IdentityStatus : Type 0 where
  available claimed revoked : IdentityStatus

pub record Pool : Type 0 where
  pub id : String
  pub tenant_id : String
  pub name : String
  pub size : ℕ
  pub persona_ids : List String
  pub created_at : ℕ
  pub updated_at : ℕ

pub record Identity : Type 0 where
  pub id : String
  pub pool_id : String
  pub subject_id : String
  pub status : IdentityStatus
  pub claimed_by_install_id : Option String
  pub created_at : ℕ
  pub updated_at : ℕ

pub data StorageError : Type 0 where
  pool_not_found identity_not_found pool_full persona_not_eligible no_available_identity
        identity_revoked :
      StorageError

pub data Result (A : Type 0) : Type 0 where
  ok : A → Result A
  err : StorageError → Result A

pub record MemStorage : Type 0 where
  pub pools : Dict Pool
  pub identities : Dict Identity

abbrev pub is_available : IdentityStatus → Bool
is_available available = true
is_available _ = false

abbrev pub is_revoked : IdentityStatus → Bool
is_revoked revoked = true
is_revoked _ = false

abbrev pub unclaimed : Option String → Bool
unclaimed none = true
unclaimed (some _) = false

unfoldable pub contains_string : List String → String → Bool
contains_string [] target = false
contains_string (x ∷ xs) target = str_eq x target || contains_string xs target

-- A pool found by its id that is the tenant's: the test `!ok || p.TenantID != tenantID`.
abbrev pub owned_pool : String → Option Pool → Option Pool
owned_pool tenant none = none
owned_pool tenant (some p) = if str_eq p.tenant_id tenant then some p else none

-- The cursor of a list: `none` is the zero time.
abbrev pub older_than : Option ℕ → ℕ → Bool
older_than none created_at = true
older_than (some cursor) created_at = ltb created_at cursor

abbrev pub pool_newer : Pool → Pool → Bool
pool_newer a b =
    if a.created_at == b.created_at then str_ltb b.id a.id else ltb b.created_at a.created_at

abbrev pub identity_newer : Identity → Identity → Bool
identity_newer a b =
    if a.created_at == b.created_at then str_ltb b.id a.id else ltb b.created_at a.created_at

abbrev pub identity_older : Identity → Identity → Bool
identity_older a b =
    if a.created_at == b.created_at then str_ltb a.id b.id else ltb a.created_at b.created_at

abbrev pub in_pool : String → Identity → Bool
in_pool pool i = str_eq i.pool_id pool

unfoldable pub new_mem_storage : MemStorage
new_mem_storage = record { pools = []; identities = [] }

unfoldable pub create_pool : MemStorage → Pool → MemStorage × Result Pool
create_pool s p = (record s { pools = insert p.id p s.pools }, ok p)

abbrev pub pool_result : Option Pool → Result Pool
pool_result none = err pool_not_found
pool_result (some p) = ok p

unfoldable pub get_pool : MemStorage → String → String → Result Pool
get_pool s tenant id = pool_result (owned_pool tenant (lookup id s.pools))

unfoldable pub list_pools : MemStorage → String → ℕ → Option ℕ → List Pool
list_pools s tenant limit cursor = page limit (
    sort_by pool_newer
      (values_where (λ p. str_eq p.tenant_id tenant && older_than cursor p.created_at) s.pools))

abbrev pub delete_found : MemStorage → String → Option Pool → MemStorage × Result (Unit {0})
delete_found s id none = (s, err pool_not_found)
delete_found s id (some p) = (
  record {
    pools = delete id s.pools;
    identities = keep_if (λ i. not (str_eq i.pool_id id)) s.identities;
  },
  ok tt,
)

unfoldable pub delete_pool : MemStorage → String → String → MemStorage × Result (Unit {0})
delete_pool s tenant id = delete_found s id (owned_pool tenant (lookup id s.pools))

unfoldable pub pool_count_locked : MemStorage → String → ℕ
pool_count_locked s pool = length (values_where (in_pool pool) s.identities)

abbrev pub add_found : MemStorage → String → Identity → Option Pool → MemStorage × Result Identity
add_found s pool ident none = (s, err pool_not_found)
add_found s pool ident (some p) =
    if leb p.size (pool_count_locked s pool)
    then (s, err pool_full)
    else (record s { identities = insert ident.id ident s.identities }, ok ident)

unfoldable pub add_identity : MemStorage → String → String → Identity → MemStorage × Result Identity
add_identity s tenant pool ident = add_found s pool ident (owned_pool tenant (lookup pool s.pools))

abbrev pub list_found : MemStorage → String → ℕ → Option ℕ → Option Pool → Result (List Identity)
list_found s pool limit cursor none = err pool_not_found
list_found s pool limit cursor (some p) = ok (
    page limit (
      sort_by identity_newer
        (values_where (λ i. in_pool pool i && older_than cursor i.created_at) s.identities)))

unfoldable pub list_identities :
    MemStorage → String → String → ℕ → Option ℕ → Result (List Identity)
list_identities s tenant pool limit cursor =
    list_found s pool limit cursor (owned_pool tenant (lookup pool s.pools))

-- An identity that exists and whose pool is the tenant's: the two tests before a change of it.
abbrev pub reach : Identity → Option Pool → Option Identity
reach i none = none
reach i (some _) = some i

abbrev pub reached : MemStorage → String → Option Identity → Option Identity
reached s tenant none = none
reached s tenant (some i) = reach i (owned_pool tenant (lookup i.pool_id s.pools))

abbrev pub identity_result : Option Identity → Result Identity
identity_result none = err identity_not_found
identity_result (some i) = ok i

unfoldable pub get_identity : MemStorage → String → String → Result Identity
get_identity s tenant id = identity_result (reached s tenant (lookup id s.identities))

abbrev pub candidates : MemStorage → String → List Identity
candidates s pool = values_where (λ i. in_pool pool i && is_available i.status) s.identities

abbrev pub claim_first : MemStorage → String → ℕ → List Identity → MemStorage × Result Identity
claim_first s install now [] = (s, err no_available_identity)
claim_first s install now (i ∷ _) =
    let picked : Identity = record i {
      status = claimed;
      claimed_by_install_id = some install;
      updated_at = now;
    } in
    (record s { identities = insert picked.id picked s.identities }, ok picked)

abbrev pub claim_found :
    MemStorage → String → String → String → ℕ → Option Pool → MemStorage × Result Identity
claim_found s pool persona install now none = (s, err pool_not_found)
claim_found s pool persona install now (some p) =
    if contains_string p.persona_ids persona
    then claim_first s install now (sort_by identity_older (candidates s pool))
    else (s, err persona_not_eligible)

unfoldable pub claim_identity :
    MemStorage → String → String → String → String → ℕ → MemStorage × Result Identity
claim_identity s tenant pool persona install now =
    claim_found s pool persona install now (owned_pool tenant (lookup pool s.pools))

abbrev pub release_found : MemStorage → String → ℕ → Option Identity → MemStorage × Result Identity
release_found s id now none = (s, err identity_not_found)
release_found s id now (some i) =
    if is_revoked i.status
    then (s, err identity_revoked)
    else (if is_available i.status && unclaimed i.claimed_by_install_id
        then (s, ok i)
        else (let free : Identity = record i {
          status = available;
          claimed_by_install_id = none;
          updated_at = now;
        } in
            (record s { identities = insert id free s.identities }, ok free)))

unfoldable pub release_identity : MemStorage → String → String → ℕ → MemStorage × Result Identity
release_identity s tenant id now =
    release_found s id now (reached s tenant (lookup id s.identities))

abbrev pub revoke_found : MemStorage → String → ℕ → Option Identity → MemStorage × Result (Unit {0})
revoke_found s id now none = (s, err identity_not_found)
revoke_found s id now (some i) = (
  record s {
    identities =
        insert id (record i { status = revoked; claimed_by_install_id = none; updated_at = now })
          s.identities;
  },
  ok tt,
)

unfoldable pub revoke_identity : MemStorage → String → String → ℕ → MemStorage × Result (Unit {0})
revoke_identity s tenant id now = revoke_found s id now (reached s tenant (lookup id s.identities))
