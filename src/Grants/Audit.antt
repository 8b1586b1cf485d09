-- ===== src/Grants/Audit.antt =====
-- The audit log (`MemAuditStore` of storage.go): append-only, and its queries.
use x_auth_site.Base.{
  ◌≤◌, ◌<◌, ◌≡◌, refl, ◌⊎◌, inl, inr, String, Bool, true, List, [], ◌∷◌, length, keep, All, Among,
  arith, str_eq_iff, Bool-cases, Among-keep,
}
use x_auth_site.Base.Sort.{sort_by, IsSorted, sort_by-All, sort_by-IsSorted, Among-sort_by}
use x_auth_site.Grants.Store.{AuditEvent, AuditFilter, MemAuditStore, selects, event_newer, query}
use x_auth_site.Base.Page.{page-All, page-IsSorted, length-page-le, Among-page}

keep-All :
    {A : Type 0} (P : A → Type 0) (p : A → Bool) (xs : List A)
    → ((a : A) → Among a xs → p a ≡ true → P a)
    → All P (keep p xs)
keep-All P p [] f = tt
keep-All P p (x ∷ xs) f =
    let rest = keep-All P p xs (λ a m. f a (inr m)) in
    elim (Bool-cases (p x)) [
      | inl pass ↦ rw pass (f x (inl refl) pass, rest)
      | inr fail ↦ rw fail rest
    ]

abbrev pub Newer : AuditEvent → AuditEvent → Type 0
Newer a b = b.created_at ≤ a.created_at

-- What the answer of a query is.
pub record AnswerOf (log : MemAuditStore) (tenant : String) (f : AuditFilter)
    (out : List AuditEvent) : Type 0 where
  pub selected : All (λ e. Among e log × (e.tenant_id ≡ tenant) × (selects tenant f e ≡ true)) out
  pub newest_first : IsSorted Newer out
  pub within_limit : 0 < f.limit → length out ≤ f.limit
  pub rest_is_older :
      (e : AuditEvent)
      → Among e log
      → selects tenant f e ≡ true
      → Among e out ⊎ All (λ b. Newer b e) out

-- A query answers with logged events of the tenant that pass the filter, the newest first and no more
-- than the limit; an event that passes and is left out is no newer than any in the answer.
pub query-AnswerOf :
    (log : MemAuditStore) (tenant : String) (f : AuditFilter)
    → AnswerOf log tenant f (query log tenant f)
unfolding query
query-AnswerOf log tenant f = record {
  selected = page-All _ f.limit _ (
      sort_by-All event_newer _ _ (
        keep-All _ (selects tenant f) log
          (λ e m t. (m, ground (arith, str_eq_iff e.tenant_id tenant), t))));
  newest_first = page-IsSorted Newer f.limit _ sorted;
  within_limit = length-page-le f.limit _;
  rest_is_older = λ e m t.
      Among-page Newer e f.limit _ sorted
        (Among-sort_by event_newer e _ (Among-keep (selects tenant f) e log m t));
}
  where
    sorted : IsSorted Newer (sort_by event_newer (keep (selects tenant f) log))
    sorted =
        sort_by-IsSorted event_newer (λ a b c ab bc. omega arith) (λ a b e. ground arith)
          (λ a b e. ground arith) _
