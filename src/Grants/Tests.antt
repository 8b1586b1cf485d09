-- ===== src/Grants/Tests.antt =====
-- Two grants of an install, runs of the handlers on them, and instances of the theorems.
use x_auth_site.Base.{
  ℕ, ◌≤◌, ◌≡◌, refl, String, true, none, some, List, [], ◌∷◌, arith, if◌then◌else◌, str_eq,
  str_eq_iff, is_some, Bool-cases, inl, inr, sym, ◌∙◌,
}
use x_auth_site.Base.Dict.{lookup, insert, values_where}
use x_auth_site.Base.Sort.{sort_by, insert_by}
use x_auth_site.Grants.Store.{
  Grant, active, MemGrantStore, derive_status, create, revoke_grant, Handlers,
  revoke_grants_for_install, revoke_each, list_by_install, append, find_by_access_token_hash,
  AuditFilter,
}
use x_auth_site.Grants.Revocation.{IsValid, create-IsValid, none-IsValid}
use x_auth_site.Grants.Forward.{Request, revocation, run, rank, run_forward}
use x_auth_site.Grants.Cascade.{cascaded, revoke_grants_for_install-grants}
use x_auth_site.Grants.Tokens.{hash_token, introspect, introspected, inactive, revoke_by_token}
use x_auth_site.Grants.Introspection.{IsLive, introspect-IsLive}
use x_auth_site.Grants.Revoked.{IsUnique, revoked_inactive}
use x_auth_site.Base.{◌≢◌, arith, if◌then◌else◌, is_some}

abbrev first : Grant
first = record {
  id = "g1";
  tenant_id = "t";
  install_id = "in";
  identity_id = "i1";
  persona_id = "sales";
  access_token_hash = "h1";
  refresh_token_hash = "r1";
  issued_at = 100;
  expires_at = some 1000;
  revoked_at = none;
  status = active;
}

abbrev second : Grant
second = record first { id = "g2"; issued_at = 90; revoked_at = some 95 }

abbrev store : MemGrantStore
store = ("g1", first) ∷ ("g2", second) ∷ []

abbrev handlers : Handlers
handlers = record { grants = store; audit = [] }

abbrev ids : ℕ → String
ids _ = "e"

store-IsValid : IsValid store
unfolding create insert str_eq
store-IsValid = create-IsValid (("g1", first) ∷ []) second (create-IsValid [] first none-IsValid)

first_at : lookup "g1" store ≡ some first
unfolding lookup str_eq
first_at = refl

second_at : lookup "g2" store ≡ some second
unfolding lookup str_eq
second_at = refl

abbrev calls : List Request
calls = revocation "t" "g1" 500 ∷ revocation "t" "g2" 600 ∷ []

run_forward_example :
    (g : Grant) × (lookup "g2" (run store calls) ≡ some g)
    × (rank (derive_status second 95) ≤ rank (derive_status g 2000))
    × (is_some second.revoked_at ≡ true → g ≡ second)
run_forward_example =
    run_forward store "g2" second calls 95 2000 second_at (tt, (tt, tt)) (omega arith)

-- One grant is newly revoked and one was.
summary_of_two :
    (revoke_grants_for_install handlers ids "t" "in" 500).1
    ≡ record { total = 2; revoked_count = 1; already_revoked = 1 }
unfolding revoke_grants_for_install revoke_each list_by_install revoke_grant append lookup insert
    values_where sort_by insert_by str_eq
summary_of_two = refl

revoke_grants_for_install-grants_example :
    lookup "g1" (revoke_grants_for_install handlers ids "t" "in" 500).0.grants
    ≡ cascaded "t" "in" 500 (lookup "g1" store)
revoke_grants_for_install-grants_example =
    revoke_grants_for_install-grants handlers ids "t" "in" 500 "g1" store-IsValid

abbrev any_event : AuditFilter
any_event = record {
  install_id = "";
  grant_id = "";
  event_type = "";
  since = none;
  until = none;
  limit = 10;
}

abbrev same : String → String
same t = t

abbrev hash_of : String → String
hash_of t = if str_eq t "token one" then "h1" else "h0"

abbrev tokens : MemGrantStore
tokens = ("g1", first) ∷ []

tokens-IsValid : IsValid tokens
unfolding create insert
tokens-IsValid = create-IsValid [] first none-IsValid

tokens_only : (k : String) (g : Grant) → lookup k tokens ≡ some g → "g1" ≡ k
unfolding lookup
tokens_only k g e = elim (Bool-cases (str_eq "g1" k)) [
  | inl here ↦ (str_eq_iff "g1" k).0 here
  | inr other ↦ absurd (cc (rw other at e))
]

tokens-IsUnique : IsUnique tokens
tokens-IsUnique j k g f a b same_hash given = sym (tokens_only j g a) ∙ tokens_only k f b

token_shown : introspect same hash_of tokens (some "t") (some "token one") 500 ≡ introspected first
unfolding introspect hash_token find_by_access_token_hash values_where derive_status str_eq
token_shown = refl

introspect-IsLive_example : IsLive tokens "t" (hash_token same hash_of "token one") 500 first
introspect-IsLive_example =
    introspect-IsLive same hash_of tokens "t" "token one" 500 first tokens-IsValid token_shown

revoked_inactive_example :
    introspect same hash_of
      (revoke_by_token same hash_of
        (record { grants = tokens; audit = [] })
        "e"
        (some "t")
        (some "token one")
        500).0.grants
      (some "t")
      (some "token one")
      600
    ≡ inactive
revoked_inactive_example =
    revoked_inactive same hash_of (record { grants = tokens; audit = [] }) "e" "t" "token one" 500
      600 tokens-IsValid tokens-IsUnique

not_blank : ◌≢◌ {A = String} "g1" ""
unfolding str_eq
not_blank = ground (arith, str_eq_iff "g1" "")
