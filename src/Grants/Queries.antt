-- ===== src/Grants/Queries.antt =====
-- What the answers of `QueryAudit` (handlers.go) hold, also of the events that `AppendAudit` logs.
use mathlib.Core.Path.{subst}
use x_auth_site.Base.{
  ℕ, if◌then◌else◌, ◌≤◌, ◌<◌, ◌==◌, ◌≡◌, refl, sym, ap, ◌⊎◌, inl, inr, String, true, Option, none,
  some, List, [], ◌∷◌, ◌++◌, length, All, Among, arith, ltb, str_eq, str_eq_iff, ◌≢◌, Bool-cases,
}
use x_auth_site.Base.Int.{ℤ, pos, negsuc}
use x_auth_site.Grants.Store.{AuditEvent, AuditFilter, Handlers, append, query, selects}
use x_auth_site.Grants.Issuing.{decoded}
use x_auth_site.Grants.Audit.{Newer, AnswerOf, query-AnswerOf}
use x_auth_site.Grants.Auditing.{
  max_audit_limit, AppendAuditRequest, AuditError, appended, Values, invalid_since, invalid_until,
  filter_of, after_until, after_since, FilterResult, FilterError, time_of, malformed, parsed,
  time_parameter, clamped, limit_parameter, and_then, parse_audit_filter, items, query_parsed,
  query_audit, audit_error, append_decoded, append_audit,
}

-- A limit that bounds an answer.
abbrev pub IsLimit : ℕ → Type 0
IsLimit n = (0 < n) × (n ≤ max_audit_limit)

parsed_inj : {A : Type 0} {a b : A} → parsed a ≡ parsed b → a ≡ b
parsed_inj e = cc e

-- A chain of parameters succeeds only if each does.
and_then-parsed :
    {A B : Type 0} (r : FilterResult A) (f : A → FilterResult B) (b : B)
    → and_then r f ≡ parsed b
    → (a : A) × (r ≡ parsed a) × (f a ≡ parsed b)
and_then-parsed (malformed e) f b h = absurd (cc h)
and_then-parsed (parsed a) f b h = (a, refl, h)

-- A limit as it is read from a number: up to the maximum.
abbrev pub ReadLimit : Option ℤ → ℕ → Type 0
ReadLimit o n = (m : ℕ) × (o ≡ some (pos m)) × (0 < m) × (n ≡ (if ltb 1000 m then 1000 else m))

clamped-ReadLimit : (o : Option ℤ) (n : ℕ) → clamped o ≡ parsed n → ReadLimit o n
clamped-ReadLimit none n e = absurd (cc e)
clamped-ReadLimit (some (negsuc m)) n e = absurd (cc e)
clamped-ReadLimit (some (pos m)) n e = elim (Bool-cases (m == 0)) [
  | inl zero ↦ absurd (cc (rw zero at e))
  | inr given ↦ (m, refl, ground (arith, given), sym (parsed_inj (rw given at e)))
]

Among-last : {A : Type 0} (x : A) (xs : List A) → Among x (xs ++ x ∷ [])
Among-last x [] = inl refl
Among-last x (y ∷ xs) = inr (Among-last x xs)

module _ (parse_time : String → Option ℕ) (atoi : String → Option ℤ) where
  -- A time as it is read from a parameter: none if that is missing.
  abbrev pub ReadTime : String → Option ℕ → Type 0
  ReadTime v o =
      ((v ≡ "") × (o ≡ none)) ⊎ ((v ≢ "") × ((t : ℕ) × (parse_time v ≡ some t) × (o ≡ some t)))

  time_of-ReadTime :
      (v : String) (e : FilterError) (r : Option ℕ) (o : Option ℕ)
      → v ≢ ""
      → parse_time v ≡ r
      → time_of e r ≡ parsed o
      → ReadTime v o
  time_of-ReadTime v e none o given read h = absurd (cc h)
  time_of-ReadTime v e (some t) o given read h = inr (given, (t, read, sym (parsed_inj h)))

  time_parameter-ReadTime :
      (v : String) (e : FilterError) (o : Option ℕ)
      → time_parameter parse_time atoi v e ≡ parsed o
      → ReadTime v o
  unfolding time_parameter
  time_parameter-ReadTime v e o h = elim (Bool-cases (str_eq v "")) [
    | inl missing ↦ inl ((str_eq_iff v "").0 missing, sym (parsed_inj (rw missing at h)))
    | inr given ↦
        time_of-ReadTime v e (parse_time v) o (ground (arith, str_eq_iff v "")) refl (rw given at h)
  ]

  -- A limit as it is read from a parameter: 100 if that is missing.
  abbrev pub LimitOf : String → ℕ → Type 0
  LimitOf v n = ((v ≡ "") × (n ≡ 100)) ⊎ ((v ≢ "") × ReadLimit (atoi v) n)

  limit_parameter-LimitOf :
      (v : String) (n : ℕ) → limit_parameter parse_time atoi v ≡ parsed n → LimitOf v n
  unfolding limit_parameter
  limit_parameter-LimitOf v n e = elim (Bool-cases (str_eq v "")) [
    | inl missing ↦ inl ((str_eq_iff v "").0 missing, sym (parsed_inj (rw missing at e)))
    | inr given ↦
        inr (ground (arith, str_eq_iff v ""), clamped-ReadLimit (atoi v) n (rw given at e))
  ]

  LimitOf-IsLimit : (v : String) (n : ℕ) → LimitOf v n → IsLimit n
  LimitOf-IsLimit v n (inl (_, e)) = (omega (arith, e), omega (arith, e))
  LimitOf-IsLimit v n (inr (_, (m, _, positive, e))) = (ground (arith, e), ground (arith, e))

  -- A filter that was parsed: each field reads its parameter.
  pub record IsFilter (q : Values) (f : AuditFilter) : Type 0 where
    pub install : f.install_id ≡ q "install_id"
    pub grant : f.grant_id ≡ q "grant_id"
    pub event : f.event_type ≡ q "type"
    pub since : ReadTime (q "since") f.since
    pub until : ReadTime (q "until") f.until
    pub limit : LimitOf (q "limit") f.limit

  pub parse_audit_filter-IsFilter :
      (q : Values) (f : AuditFilter)
      → parse_audit_filter parse_time atoi q ≡ parsed f
      → IsFilter q f
  unfolding parse_audit_filter
  parse_audit_filter-IsFilter q f e =
      let (since, from, e1) =
        and_then-parsed (time_parameter parse_time atoi (q "since") invalid_since)
          (after_since parse_time atoi q) f e in
      let (until, to, e2) =
        and_then-parsed (time_parameter parse_time atoi (q "until") invalid_until)
          (after_until parse_time atoi q since) f e1 in
      let (limit, limited, e3) =
        and_then-parsed (limit_parameter parse_time atoi (q "limit"))
          (λ n. parsed (filter_of parse_time atoi q since until n)) f e2 in
      subst (IsFilter q) (parsed_inj e3) (record {
        install = refl;
        grant = refl;
        event = refl;
        since = time_parameter-ReadTime (q "since") invalid_since since from;
        until = time_parameter-ReadTime (q "until") invalid_until until to;
        limit = limit_parameter-LimitOf (q "limit") limit limited;
      })

  items_inj : {a b : List AuditEvent} → items a ≡ items b → a ≡ b
  items_inj e = cc e

  -- The answer to a query, with the filter that was read from its parameters.
  pub record Answered (h : Handlers) (tenant : String) (q : Values) (out : List AuditEvent)
      : Type 0 where
    pub filter : AuditFilter
    pub read : IsFilter q filter
    pub answer : AnswerOf h.audit tenant filter out
    pub bounded : length out ≤ max_audit_limit

  answered :
      (h : Handlers) (tenant : String) (q : Values) (f : AuditFilter)
      → parse_audit_filter parse_time atoi q ≡ parsed f
      → Answered h tenant q (query h.audit tenant f)
  answered h tenant q f e =
      let read = parse_audit_filter-IsFilter q f e in
      let answer = query-AnswerOf h.audit tenant f in
      let short = answer.within_limit (LimitOf-IsLimit (q "limit") f.limit read.limit).0 in
      let most = (LimitOf-IsLimit (q "limit") f.limit read.limit).1 in
      record { filter = f; read = read; answer = answer; bounded = omega (arith, short, most) }

  -- A query that is answered with events has a filter that reads its parameters: the ids and the type as they
  -- are, each time by the parser or none, the limit as a positive number cut to 1000, or 100 if none is
  -- given. The events are logged ones of the tenant that pass the filter, the newest first, no more than
  -- the limit; an event that passes and is left out is no newer than any in the answer.
  pub query_audit-Answered :
      (h : Handlers) (tenant : String) (q : Values) (out : List AuditEvent)
      → query_audit parse_time atoi h (some tenant) q ≡ items out
      → Answered h tenant q out
  unfolding query_audit
  query_audit-Answered h tenant q out e = go (parse_audit_filter parse_time atoi q) refl e
    where
      go :
          (r : FilterResult AuditFilter)
          → parse_audit_filter parse_time atoi q ≡ r
          → query_parsed parse_time atoi h tenant r ≡ items out
          → Answered h tenant q out
      go (malformed x) p k = absurd (cc k)
      go (parsed f) p k = subst (Answered h tenant q) (items_inj k) (answered h tenant q f p)

  module _ (trim : String → String) where
    appended_inj : {a b : AuditEvent} → appended a ≡ appended b → a ≡ b
    appended_inj e = cc e

    append_audit-Among :
        (h : Handlers) (uuid tenant : String) (req : AppendAuditRequest) (now : ℕ) (x : AuditEvent)
        → (append_audit trim h uuid (some tenant) (decoded req) now).1 ≡ appended x
        → Among x (append_audit trim h uuid (some tenant) (decoded req) now).0.audit
    unfolding append_audit append
    append_audit-Among h uuid tenant req now x e = go (audit_error trim req) e
      where
        go :
            (o : Option AuditError)
            → (append_decoded trim h uuid tenant req now o).1 ≡ appended x
            → Among x (append_decoded trim h uuid tenant req now o).0.audit
        go (some k) p = absurd (cc p)
        go none p =
            subst (λ y. Among x (h.audit ++ y ∷ [])) (sym (appended_inj p)) (Among-last x h.audit)

    -- An event that was appended is in the answer of a query by the tenant with a well-formed filter that
    -- it passes, or every event of that answer is at least as new; the answer has no more events than the maximum.
    pub append_audit-query_audit :
        (h : Handlers) (uuid tenant : String) (req : AppendAuditRequest) (now : ℕ) (x : AuditEvent)
        (q : Values) (f : AuditFilter)
        → (append_audit trim h uuid (some tenant) (decoded req) now).1 ≡ appended x
        → parse_audit_filter parse_time atoi q ≡ parsed f
        → selects tenant f x ≡ true
        → (out : List AuditEvent) × (query_audit parse_time atoi
              (append_audit trim h uuid (some tenant) (decoded req) now).0
              (some tenant)
              q
            ≡ items out)
          × (length out ≤ max_audit_limit)
          × (Among x out ⊎ All (λ b. Newer b x) out)
    unfolding query_audit
    append_audit-query_audit h uuid tenant req now x q f made p passes =
        let h' = (append_audit trim h uuid (some tenant) (decoded req) now).0 in
        let known = answered h' tenant q f p in
        (
          query h'.audit tenant f,
          ap (query_parsed parse_time atoi h' tenant) p,
          known.bounded,
          (query-AnswerOf h'.audit tenant f).rest_is_older x
              (append_audit-Among h uuid tenant req now x made) passes,
        )
