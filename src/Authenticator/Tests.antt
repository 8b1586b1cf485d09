-- ===== src/Authenticator/Tests.antt =====
-- A small service, runs of its handlers, and instances of the theorems.
use x_auth_site.Base.{
  ℕ, ◌+◌, ◌≤◌, ◌≡◌, refl, ◌≢◌, String, true, Option, none, some, List, [], ◌∷◌, arith, ◌==◌,
  if◌then◌else◌, str_eq, str_eq_iff,
}
use x_auth_site.Base.Dict.{lookup, insert, delete}
use x_auth_site.Base.Dict.Laws.{lookup-insert_self}
use x_auth_site.Ratex.{in_memory, new, Limiter}
use x_auth_site.Authenticator.Model.{
  Authenticator, Challenge, active, pending, method_totp, challenge_ttl,
}
use x_auth_site.Authenticator.Lockout.{new_lockout, locked}
use x_auth_site.Authenticator.Backoff.{backoff_remaining, IsBackoff, backoff_remaining-IsBackoff}
use x_auth_site.Authenticator.Store.{new_store, get_challenge, update_challenge, put_authenticator}
use x_auth_site.Authenticator.Store.Laws.{IsValid, write, write-IsValid, new_store-IsValid}
use x_auth_site.Authenticator.Challenges.{
  Adapter, Service, answered, dispatched, verified, verify, create, settle,
}
use x_auth_site.Authenticator.Challenges.Overlap.{told}
use x_auth_site.Authenticator.Challenges.Overlap.Bound.{
  Move, arrive, proceed, sum, moves, IsNarrow, overlap_bounded,
}
use x_auth_site.Authenticator.Challenges.Lifecycle.{VerifySpec, verify-VerifySpec, verdict}
use x_auth_site.Authenticator.Challenges.Safety.{Request, serve, is_rejection, is_acceptance}
use x_auth_site.Authenticator.Challenges.Guesses.{
  run, tally, about, guesses_bounded, terminal_final, verify_isolated,
}
use x_auth_site.Authenticator.Challenges.Accepted.{IsAcceptance, verified_means}
use x_auth_site.Authenticator.Challenges.Creation.{CreateSpec, create-CreateSpec}

-- An adapter whose right answer is 7.
abbrev totp : Adapter ℕ
totp = record {
  dispatch = λ c. dispatched "enter the code" "" [];
  verify = λ c r. answered (r == 7) ("otp" ∷ []);
}

abbrev registry : String → Option (Adapter ℕ)
registry m = if str_eq m method_totp then some totp else none

abbrev waiting : Challenge
waiting = record {
  id = "ch_1";
  tenant_id = "t";
  user_id = "u";
  method = method_totp;
  authenticator_id = "au_1";
  prompt = "";
  status = pending;
  attempts = 0;
  created_at = 0;
  expires_at = challenge_ttl;
  completed_at = none;
  last_attempt_at = none;
  options_json = "";
  session_data = [];
}

abbrev enrolled : Authenticator ℕ
enrolled = record {
  id = "au_1";
  tenant_id = "t";
  user_id = "u";
  method = method_totp;
  metadata = 0;
  status = active;
  created_at = 0;
  updated_at = 0;
}

abbrev service : Service ℕ Limiter
service = record {
  store = write (put_authenticator new_store enrolled) "ch_1" waiting;
  challenge_create = some (new 10 60);
  lockout = new_lockout 5 900;
}

put-IsValid : IsValid (put_authenticator (new_store {J = ℕ}) enrolled)
unfolding put_authenticator
put-IsValid = record {
  distinct = new_store-IsValid.distinct;
  named = new_store-IsValid.named;
  consistent = new_store-IsValid.consistent;
}

service-IsValid : IsValid service.store
service-IsValid = write-IsValid _ "ch_1" waiting put-IsValid refl (omega arith, refl)

stored : lookup "ch_1" service.store.challenges ≡ some waiting
stored = lookup-insert_self "ch_1" waiting _

abbrev ask : String → ℕ → ℕ → Request ℕ
ask tenant response now = record {
  clock = λ _. now;
  tenant = tenant;
  id = "ch_1";
  response = response;
}

good_code :
    (verify in_memory registry service (λ _. 10) (some "t") "ch_1" (some 7)).1
    ≡ verified "au_1" ("otp" ∷ [])
unfolding verify locked new_lockout get_challenge update_challenge put_authenticator new_store
    lookup insert str_eq backoff_remaining
good_code = refl

abbrev refused_often : Challenge
refused_often = record waiting { attempts = 31; last_attempt_at = some 10 }

backoff_remaining-IsBackoff_example : IsBackoff 31 10 20 (backoff_remaining refused_often 20)
backoff_remaining-IsBackoff_example =
    backoff_remaining-IsBackoff refused_often 10 20 refl (omega arith)

verify-VerifySpec_example :
    VerifySpec in_memory registry service
      (λ _. 10)
      "t"
      "ch_1"
      7
      (verify in_memory registry service (λ _. 10) (some "t") "ch_1" (some 7)).0.store
      (verify in_memory registry service (λ _. 10) (some "t") "ch_1" (some 7)).1
verify-VerifySpec_example =
    verify-VerifySpec in_memory registry service (λ _. 10) "t" "ch_1" 7 service-IsValid

verified_means_example :
    IsAcceptance in_memory registry service
      (λ _. 10)
      "t"
      "ch_1"
      7
      (verify in_memory registry service (λ _. 10) (some "t") "ch_1" (some 7)).0.store
      "au_1"
      ("otp" ∷ [])
verified_means_example =
    verified_means in_memory registry service (λ _. 10) "t" "ch_1" 7 "au_1" ("otp" ∷ [])
      service-IsValid good_code

guesses_bounded_example :
    (0 + tally in_memory registry is_rejection "ch_1" service (ask "t" 1 10 ∷ ask "t" 7 11 ∷ [])
      ≤ 3)
    × (tally in_memory registry is_acceptance "ch_1" service (ask "t" 1 10 ∷ ask "t" 7 11 ∷ []) ≤ 1)
guesses_bounded_example =
    guesses_bounded in_memory registry service (ask "t" 1 10 ∷ ask "t" 7 11 ∷ []) "ch_1" waiting
      service-IsValid stored

abbrev done : Challenge
done = settle true 10 waiting

abbrev finished : Service ℕ Limiter
finished = record service { store = write service.store "ch_1" done }

finished-IsValid : IsValid finished.store
finished-IsValid = write-IsValid _ "ch_1" done service-IsValid refl (omega arith, refl)

terminal_final_example :
    (lookup "ch_1" (run in_memory registry finished (ask "t" 7 11 ∷ [])).store.challenges
      ≡ some done)
    × (tally in_memory registry is_rejection "ch_1" finished (ask "t" 7 11 ∷ []) ≡ 0)
    × (tally in_memory registry is_acceptance "ch_1" finished (ask "t" 7 11 ∷ []) ≡ 0)
terminal_final_example =
    terminal_final in_memory registry finished (ask "t" 7 11 ∷ []) "ch_1" done finished-IsValid
      (lookup-insert_self "ch_1" done _) (λ e. cc e)

t_not_other : ◌≢◌ {A = String} "t" "other"
unfolding str_eq
t_not_other = ground (arith, str_eq_iff "t" "other")

verify_isolated_example :
    (lookup "ch_1" (serve in_memory registry service (ask "other" 7 10)).0.store.challenges
      ≡ some waiting)
    × (about "ch_1" "ch_1" (verdict (serve in_memory registry service (ask "other" 7 10)).1) ≡ none)
verify_isolated_example =
    verify_isolated in_memory registry service (ask "other" 7 10) "ch_1" waiting service-IsValid
      stored t_not_other

create-CreateSpec_example :
    CreateSpec in_memory registry service 10 "t" "ch_2"
      (record { user_id = "u"; methods = "totp" ∷ [] })
      (create in_memory registry
        (λ u. str_eq u "")
        service
        (λ _. 10)
        (some "t")
        "ch_2"
        (some (record { user_id = "u"; methods = "totp" ∷ [] }))).0.store
      (create in_memory registry
        (λ u. str_eq u "")
        service
        (λ _. 10)
        (some "t")
        "ch_2"
        (some (record { user_id = "u"; methods = "totp" ∷ [] }))).1
create-CreateSpec_example =
    create-CreateSpec in_memory registry (λ u. str_eq u "") service (λ _. 10) "t" "ch_2"
      (record { user_id = "u"; methods = "totp" ∷ [] })

-- Two requests with a wrong answer, on a challenge that has one attempt left, both before either's write.
abbrev nearly_failed : Challenge
nearly_failed = record waiting { attempts = 2 }

abbrev last_chance : Service ℕ Limiter
last_chance = record service { store = write service.store "ch_1" nearly_failed }

last_chance-IsValid : IsValid last_chance.store
last_chance-IsValid = write-IsValid _ "ch_1" nearly_failed service-IsValid refl (omega arith, refl)

abbrev overlapping : List (Move ℕ)
overlapping =
    arrive (ask "t" 1 10)
    ∷ arrive (ask "t" 2 10)
    ∷ proceed 0
    ∷ proceed 1
    ∷ proceed 0
    ∷ proceed 1
    ∷ []

-- Both are rejected, so the challenge takes four wrong answers.
both_rejected : sum told "ch_1" (moves in_memory registry (last_chance, []) overlapping).1 ≡ 2
unfolding moves get_challenge update_challenge locked new_lockout lookup insert delete str_eq
    backoff_remaining put_authenticator new_store
both_rejected = refl

overlapping-IsNarrow : IsNarrow in_memory registry "ch_1" 2 (last_chance, []) overlapping
unfolding IsNarrow get_challenge update_challenge locked new_lockout lookup insert delete str_eq
    backoff_remaining put_authenticator new_store
overlapping-IsNarrow = (
  omega arith,
  (omega arith, (omega arith, (omega arith, (omega arith, (omega arith, omega arith))))),
)

overlap_bounded_example :
    (2 + sum told "ch_1" (moves in_memory registry (last_chance, []) overlapping).1 ≤ 4)
    × ((c' : Challenge) × (lookup "ch_1"
            (moves in_memory registry (last_chance, []) overlapping).0.store.challenges
          ≡ some c')
        × (c'.attempts
            ≡ 2 + sum told "ch_1" (moves in_memory registry (last_chance, []) overlapping).1))
overlap_bounded_example =
    overlap_bounded in_memory registry last_chance overlapping "ch_1" nearly_failed 2
      last_chance-IsValid (lookup-insert_self "ch_1" nearly_failed _) (omega arith)
      overlapping-IsNarrow
