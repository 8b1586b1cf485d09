-- ===== src/Risk/Listing.antt =====
-- The pages of `ListPolicies` (storage.go); the evaluation asks for all with the limit 0.
use x_auth_site.Base.{
  ℕ, ◌≤◌, ◌<◌, ◌≡◌, ◌⊎◌, String, true, ◌&&◌, Option, some, List, length, All, Among, arith, str_eq,
  str_eq_iff,
}
use x_auth_site.Base.Dict.{lookup, values_where, IsDistinct}
use x_auth_site.Base.Dict.Laws.{values_where-All, lookup-Among}
use x_auth_site.Base.Sort.{sort_by, IsSorted, sort_by-All, sort_by-IsSorted, Among-sort_by}
use x_auth_site.Base.Page.{page-All, page-IsSorted, length-page-le, Among-page, page_whole}
use x_auth_site.Risk.Model.{Policy}
use x_auth_site.Risk.Store.{MemStorage, older_than, policy_newer, list_policies}

module _ {F : Type 0} where
  abbrev pub Newer : Policy F → Policy F → Type 0
  Newer a b = b.created_at ≤ a.created_at

  list_order : MemStorage F → String → Option ℕ → List (Policy F)
  list_order s tenant cursor =
      sort_by policy_newer
        (values_where (λ p. str_eq p.tenant_id tenant && older_than cursor p.created_at) s.policies)

  sorted :
      (s : MemStorage F) (tenant : String) (cursor : Option ℕ)
      → IsSorted Newer (list_order s tenant cursor)
  unfolding list_order
  sorted s tenant cursor =
      sort_by-IsSorted policy_newer (λ a b c ab bc. omega arith) (λ a b e. ground arith)
        (λ a b e. ground arith) _

  listed :
      (s : MemStorage F) (tenant : String) (cursor : Option ℕ) (p : Policy F) (id : String)
      → lookup id s.policies ≡ some p
      → p.tenant_id ≡ tenant
      → older_than cursor p.created_at ≡ true
      → Among p (list_order s tenant cursor)
  unfolding list_order
  listed s tenant cursor p id e t o =
      Among-sort_by policy_newer p _
        (lookup-Among _ id p s.policies e (ground (arith, str_eq_iff p.tenant_id tenant)))

  -- What a page of policies is.
  pub record PageOf (s : MemStorage F) (tenant : String) (limit : ℕ) (cursor : Option ℕ)
      (out : List (Policy F)) : Type 0 where
    pub own : All (λ p. (p.tenant_id ≡ tenant) × (older_than cursor p.created_at ≡ true)) out
    pub newest_first : IsSorted Newer out
    pub within_limit : 0 < limit → length out ≤ limit
    pub unlimited_is_whole :
        limit ≡ 0
        → (p : Policy F) (id : String) → lookup id s.policies ≡ some p
        → p.tenant_id ≡ tenant
        → older_than cursor p.created_at ≡ true
        → Among p out
    pub rest_is_older :
        (p : Policy F) (id : String)
        → lookup id s.policies ≡ some p
        → p.tenant_id ≡ tenant
        → older_than cursor p.created_at ≡ true
        → Among p out ⊎ All (λ q. Newer q p) out

  -- If each policy has its own id, a page of policies has only the tenant's that are older than the
  -- cursor, the newest first; without a limit it has all of these, and with one it has no more than
  -- the limit and leaves out only policies that are not newer than any in it.
  pub list_policies-PageOf :
      (s : MemStorage F) (tenant : String) (limit : ℕ) (cursor : Option ℕ)
      → IsDistinct s.policies
      → PageOf s tenant limit cursor (list_policies s tenant limit cursor)
  unfolding list_policies list_order
  list_policies-PageOf s tenant limit cursor d = record {
    own = page-All _ limit (list_order s tenant cursor) (
        sort_by-All policy_newer _ _ (
          values_where-All _ _ s.policies d
            (λ k p e t. (ground (arith, str_eq_iff p.tenant_id tenant), ground arith))));
    newest_first = page-IsSorted Newer limit (list_order s tenant cursor) (sorted s tenant cursor);
    within_limit = length-page-le limit (list_order s tenant cursor);
    unlimited_is_whole = λ z p id e t o.
        page_whole p limit (list_order s tenant cursor) z (listed s tenant cursor p id e t o);
    rest_is_older = λ p id e t o.
        Among-page Newer p limit (list_order s tenant cursor) (sorted s tenant cursor)
          (listed s tenant cursor p id e t o);
  }
