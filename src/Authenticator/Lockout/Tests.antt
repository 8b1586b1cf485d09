-- ===== src/Authenticator/Lockout/Tests.antt =====
-- Runs of the lockout, and instances of its theorems.
use x_auth_site.Base.{◌+◌, ◌-◌, ◌++◌, ◌≡◌, refl, true, [], ◌∷◌, arith, ltb, str_eq}
use x_auth_site.Base.Dict.{lookup, insert}
use x_auth_site.Ratex.{new, allow}
use x_auth_site.Ratex.Refinement.{Log}
use x_auth_site.Authenticator.Lockout.{new_lockout, record_failure, locked, unlocked}
use x_auth_site.Authenticator.Lockout.Quiet.{record_failures}
use x_auth_site.Authenticator.Lockout.Trips.{below_threshold_unlocked, threshold_locks}

abbrev guesses : Log
guesses = ("t|u", 100) ∷ ("t|v", 101) ∷ ("t|u", 104) ∷ []

guesses_lock :
    (locked (record_failures (new_lockout 3 10) (guesses ++ ("t|u", 106) ∷ [])) "t|u" 109).1
    ≡ record { is_locked = true; remaining = 1 }
unfolding locked record_failures record_failure new_lockout new allow lookup insert str_eq
guesses_lock = refl

below_threshold_unlocked_example :
    (locked (record_failures (new_lockout 3 10) guesses) "t|u" 105).1 ≡ unlocked
unfolding str_eq
below_threshold_unlocked_example =
    below_threshold_unlocked 3 10 guesses 104 "t|u" 105 (omega arith) (omega arith)

threshold_locks_example :
    (locked (record_failures (new_lockout 3 10) (guesses ++ ("t|u", 106) ∷ [])) "t|u" 109).1
    ≡ record { is_locked = ltb 109 (100 + 10); remaining = 100 + 10 - 109 }
unfolding str_eq
threshold_locks_example =
    threshold_locks 3 10 guesses "t|u" 106 100 (104 ∷ 106 ∷ []) 109 (omega arith) (omega arith)
      (omega arith) refl refl (omega arith)
