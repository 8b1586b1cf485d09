-- ===== src/Ratex/Tests.antt =====
-- Runs of the limiter, and instances of its theorems.
use x_auth_site.Base.{◌-◌, ◌≤◌, ◌≡◌, refl, false, some, [], ◌∷◌, arith, str_eq}
use x_auth_site.Base.Dict.{lookup, insert, keep_if}
use x_auth_site.Ratex.{admitted, new, allow, sweep_locked, middleware, in_memory, served}
use x_auth_site.Ratex.Refinement.{Log, decisions, spec_decisions, decisions-refine}
use x_auth_site.Ratex.Throttle.{admitted_log, count_after, throttled}

-- Two events per 10 ns: the third call waits until the first leaves.
abbrev burst : Log
burst = ("a", 100) ∷ ("a", 104) ∷ ("b", 105) ∷ ("a", 107) ∷ ("a", 110) ∷ []

burst-decisions :
    decisions (new 2 10) burst
    ≡ admitted ∷ admitted ∷ admitted ∷ record { ok = false; retry_after = 3 } ∷ admitted ∷ []
unfolding decisions new allow lookup insert keep_if sweep_locked str_eq
burst-decisions = refl

decisions-refine_example : decisions (new 2 10) burst ≡ spec_decisions 2 10 [] burst
decisions-refine_example = decisions-refine 2 10 burst 110 (omega arith)

throttled_example : count_after (110 - 10) "a" (admitted_log (new 2 10) [] burst) ≤ 2
throttled_example = throttled 2 10 burst 110 "a" (omega arith) (omega arith)

middleware_bypass : (middleware in_memory (some (new 1 10)) "" 100).1 ≡ served
unfolding middleware str_eq
middleware_bypass = refl
