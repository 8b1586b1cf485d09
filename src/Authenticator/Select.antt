-- ===== src/Authenticator/Select.antt =====
-- The choice of the authenticator that a challenge goes to (`selectAuthenticator`, challenges.go).
pub mod Laws
use x_auth_site.Base.{
  String, Bool, true, false, ◌&&◌, ◌||◌, Option, none, some, List, [], ◌∷◌, keep, ltb, ◌==◌,
  if◌then◌else◌, str_eq, str_ltb,
}
use x_auth_site.Authenticator.Model.{Authenticator}

abbrev pub or_else : {A : Type 0} → Option A → Option A → Option A
or_else none rest = rest
or_else (some a) rest = some a

module _ {J : Type 0} where
  -- Older, or as old with the lower id.
  abbrev pub precedes : Authenticator J → Authenticator J → Bool
  precedes c best =
      ltb c.created_at best.created_at || (c.created_at == best.created_at && str_ltb c.id best.id)

  unfoldable pub oldest : Authenticator J → List (Authenticator J) → Authenticator J
  oldest best [] = best
  oldest best (c ∷ cs) = oldest (if precedes c best then c else best) cs

  abbrev pub pick : String → List (Authenticator J) → Option (String × Authenticator J)
  pick m [] = none
  pick m (c ∷ cs) = some (m, oldest c cs)

  unfoldable pub select_authenticator :
      List String → List (Authenticator J) → Option (String × Authenticator J)
  select_authenticator [] active = none
  select_authenticator (m ∷ ms) active =
      or_else (pick m (keep (λ a. str_eq a.method m) active)) (select_authenticator ms active)
