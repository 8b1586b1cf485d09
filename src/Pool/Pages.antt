-- ===== src/Pool/Pages.antt =====
-- The pages of `ListPools` and the pick of `ClaimIdentity` (storage.go): what they list and in which
-- order.
use x_auth_site.Base.{
  ℕ, ◌≤◌, ◌<◌, ◌≡◌, ◌⊎◌, String, true, ◌&&◌, Option, some, List, length, All, Among, arith, str_eq,
  str_eq_iff,
}
use x_auth_site.Base.Dict.{lookup, values_where}
use x_auth_site.Base.Dict.Laws.{values_where-All, lookup-Among}
use x_auth_site.Base.Sort.{sort_by, IsSorted, sort_by-All, sort_by-IsSorted, Among-sort_by}
use x_auth_site.Base.Page.{page-All, page-IsSorted, length-page-le, Among-page}
use x_auth_site.Pool.Store.{Pool, MemStorage, older_than, pool_newer, list_pools}
use x_auth_site.Pool.Store.Steps.{IsValid}

abbrev pub Newer : Pool → Pool → Type 0
Newer a b = b.created_at ≤ a.created_at

list_order : (s : MemStorage) (tenant : String) (cursor : Option ℕ) → List Pool
list_order s tenant cursor =
    sort_by pool_newer
      (values_where (λ p. str_eq p.tenant_id tenant && older_than cursor p.created_at) s.pools)

-- What a page of pools is.
pub record PageOf (s : MemStorage) (tenant : String) (limit : ℕ) (cursor : Option ℕ)
    (out : List Pool) : Type 0 where
  pub own : All (λ p. (p.tenant_id ≡ tenant) × (older_than cursor p.created_at ≡ true)) out
  pub newest_first : IsSorted Newer out
  pub within_limit : 0 < limit → length out ≤ limit
  pub rest_is_older :
      (p : Pool) (id : String)
      → lookup id s.pools ≡ some p
      → p.tenant_id ≡ tenant
      → older_than cursor p.created_at ≡ true
      → Among p out ⊎ All (λ q. Newer q p) out

-- On a well-formed storage, a page of pools has only the tenant's pools that are older than the cursor, the newest first and
-- no more than the limit; a pool of the tenant older than the cursor that is not in it is older than
-- all that are, or as old.
pub list_pools-PageOf :
    (s : MemStorage) (tenant : String) (limit : ℕ) (cursor : Option ℕ)
    → IsValid s
    → PageOf s tenant limit cursor (list_pools s tenant limit cursor)
unfolding list_pools list_order
list_pools-PageOf s tenant limit cursor v = record {
  own = page-All _ limit (list_order s tenant cursor) (
      sort_by-All pool_newer _ _ (
        values_where-All _ _ s.pools v.distinct_pools
          (λ k p e t. (ground (arith, str_eq_iff p.tenant_id tenant), ground arith))));
  newest_first = page-IsSorted Newer limit (list_order s tenant cursor) sorted;
  within_limit = length-page-le limit (list_order s tenant cursor);
  rest_is_older = λ p id e t o. Among-page Newer p limit (list_order s tenant cursor) sorted (
      Among-sort_by pool_newer p _
        (lookup-Among _ id p s.pools e (ground (arith, str_eq_iff p.tenant_id tenant))));
}
  where
    sorted : IsSorted Newer (list_order s tenant cursor)
    sorted =
        sort_by-IsSorted pool_newer (λ a b c ab bc. omega arith) (λ a b e. ground arith)
          (λ a b e. ground arith) _
