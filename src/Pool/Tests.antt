-- ===== src/Pool/Tests.antt =====
-- A pool with two identities, runs of the storage on it, and instances of its theorems.
use x_auth_site.Base.{◌≡◌, refl, ◌≢◌, none, some, List, [], ◌∷◌, arith, str_eq, str_ltb, str_eq_iff}
use x_auth_site.Base.Dict.{lookup, insert, values_where}
use x_auth_site.Base.Sort.{sort_by, insert_by}
use x_auth_site.Pool.Store.{
  Pool, Identity, available, revoked, MemStorage, ok, claim_identity, contains_string, create_pool,
  add_identity, pool_count_locked, revoke_identity, release_identity,
}
use x_auth_site.Pool.Store.Steps.{
  Request, create, add, claim, release, revoke, serve, IsValid, claimed_by, taken_away, put,
}
use x_auth_site.Pool.Lifecycle.{run, run-IsValid, revoked_final}
use x_auth_site.Pool.Exclusion.{claims_exclusive}
use x_auth_site.Pool.Capacity.{run-WithinSize, WithinSize}
use x_auth_site.Pool.Claims.{ClaimSpec, claim_identity-ClaimSpec}

abbrev agents : Pool
agents = record {
  id = "p1";
  tenant_id = "t";
  name = "agents";
  size = 2;
  persona_ids = "sales" ∷ [];
  created_at = 1;
  updated_at = 1;
}

abbrev one : Identity
one = record {
  id = "i1";
  pool_id = "p1";
  subject_id = "s1";
  status = available;
  claimed_by_install_id = none;
  created_at = 5;
  updated_at = 5;
}

abbrev two : Identity
two = record one { id = "i2"; subject_id = "s2"; created_at = 4 }

abbrev storage : MemStorage
storage = record { pools = ("p1", agents) ∷ []; identities = ("i1", one) ∷ ("i2", two) ∷ [] }

abbrev empty : MemStorage
empty = record { pools = []; identities = [] }

-- The older identity goes first.
older_first : (claim_identity storage "t" "p1" "sales" "in" 9).1 ≡ ok (claimed_by two "in" 9)
unfolding claim_identity lookup values_where sort_by insert_by contains_string str_eq str_ltb
older_first = refl

empty-IsValid : IsValid empty
unfolding lookup
empty-IsValid = record { distinct_pools = tt; distinct = tt; named = λ id i e. absurd (cc e) }

abbrev setup : List Request
setup = create agents ∷ add "t" "p1" one ∷ add "t" "p1" two ∷ []

storage-IsValid : IsValid (run empty setup)
storage-IsValid = run-IsValid empty setup empty-IsValid

setup_lem : run empty setup ≡ storage
unfolding serve create_pool add_identity pool_count_locked lookup insert values_where str_eq
setup_lem = refl

valid : IsValid storage
unfolding serve create_pool add_identity pool_count_locked lookup insert values_where str_eq
valid = storage-IsValid

claim_identity-ClaimSpec_example :
    ClaimSpec storage "t" "p1" "sales" "in" 9 (claim_identity storage "t" "p1" "sales" "in" 9)
claim_identity-ClaimSpec_example = claim_identity-ClaimSpec storage "t" "p1" "sales" "in" 9 valid

taken_first :
    (claim_identity
      (run (claim_identity storage "t" "p1" "sales" "in" 9).0 (release "t" "i1" 10 ∷ []))
      "t"
      "p1"
      "sales"
      "other"
      11).1
    ≡ ok (claimed_by one "other" 11)
unfolding serve claim_identity release_identity lookup insert values_where sort_by insert_by
    contains_string str_eq str_ltb
taken_first = refl

one_ne_two : one.id ≢ two.id
unfolding str_eq
one_ne_two = ground (arith, str_eq_iff "i1" "i2")

claims_exclusive_example : one.id ≢ two.id
claims_exclusive_example =
    claims_exclusive storage "t" "p1" "sales" "in" "t" "p1" "sales" "other" 9 11
      (claimed_by two "in" 9) (claimed_by one "other" 11) (release "t" "i1" 10 ∷ []) valid
      older_first (one_ne_two, tt) taken_first

abbrev held : MemStorage
held = put storage "i2" (claimed_by two "in" 9)

held-IsValid : IsValid held
unfolding serve claim_identity lookup insert values_where sort_by insert_by contains_string str_eq
    str_ltb
held-IsValid = run-IsValid storage (claim "t" "p1" "sales" "in" 9 ∷ []) valid

held_at : lookup "i2" held.identities ≡ some (claimed_by two "in" 9)
unfolding lookup insert str_eq
held_at = refl

abbrev withdrawn : MemStorage
withdrawn = put storage "i2" (taken_away two 9)

withdrawn-IsValid : IsValid withdrawn
unfolding serve revoke_identity lookup insert str_eq
withdrawn-IsValid = run-IsValid storage (revoke "t" "i2" 9 ∷ []) valid

withdrawn_at : lookup "i2" withdrawn.identities ≡ some (taken_away two 9)
unfolding lookup insert str_eq
withdrawn_at = refl

revoked_final_example :
    (j : Identity) × (lookup "i2" (run withdrawn (release "t" "i2" 10 ∷ [])).identities ≡ some j)
    × (j.status ≡ revoked)
revoked_final_example =
    revoked_final withdrawn "i2" (taken_away two 9) (release "t" "i2" 10 ∷ []) withdrawn-IsValid
      withdrawn_at refl (tt, tt)

empty-WithinSize : WithinSize empty
unfolding pool_count_locked values_where lookup
empty-WithinSize pool = omega arith

run-WithinSize_example : WithinSize (run empty setup)
unfolding serve create_pool lookup
run-WithinSize_example =
    run-WithinSize empty setup empty-IsValid (refl, (refl, (refl, tt))) empty-WithinSize
