-- ===== src/Authenticator/Store.antt =====
-- The in-memory Store (storage.go). `mu` makes each operation one step; the clock is an argument.
-- An operation that cannot fail in memory has no error case.
pub mod Laws
use x_auth_site.Base.{
  ℕ, suc, ◌+◌, String, Bool, true, false, not, ◌&&◌, ◌||◌, Option, none, some, List, [], ◌∷◌,
  length, ltb, if◌then◌else◌, str_eq,
}
use x_auth_site.Base.Dict.{Dict, lookup, insert, keep_if, values_where}
use x_auth_site.Authenticator.Model.{
  Authenticator, Challenge, AuthenticatorStatus, active, disabled, ChallengeStatus, pending,
  expired,
}

pub data StoreError : Type 0 where
  not_found immutable_changed : StoreError

pub data Result (A : Type 0) : Type 0 where
  ok : A → Result A
  err : StoreError → Result A

pub record Store (J : Type 0) : Type 0 where
  pub authenticators : Dict (Authenticator J)
  pub challenges : Dict Challenge

abbrev pub is_active : AuthenticatorStatus → Bool
is_active active = true
is_active disabled = false

abbrev pub is_pending : ChallengeStatus → Bool
is_pending pending = true
is_pending _ = false

abbrev pub is_expired : ChallengeStatus → Bool
is_expired expired = true
is_expired _ = false

abbrev pub owned_challenge : String → Option Challenge → Option Challenge
owned_challenge tenant none = none
owned_challenge tenant (some c) = if str_eq c.tenant_id tenant then some c else none

-- What `PurgeExpired` deletes at `now`.
abbrev pub is_stale : ℕ → Challenge → Bool
is_stale now c = is_expired c.status || (is_pending c.status && not (ltb now c.expires_at))

module _ {J : Type 0} where
  unfoldable pub new_store : Store J
  new_store = record { authenticators = []; challenges = [] }

  unfoldable pub put_authenticator : Store J → Authenticator J → Store J
  put_authenticator s a = record s { authenticators = insert a.id a s.authenticators }

  abbrev pub owned_authenticator : String → Option (Authenticator J) → Option (Authenticator J)
  owned_authenticator tenant none = none
  owned_authenticator tenant (some a) = if str_eq a.tenant_id tenant then some a else none

  unfoldable pub get_authenticator : Store J → String → String → Option (Authenticator J)
  get_authenticator s tenant id = owned_authenticator tenant (lookup id s.authenticators)

  unfoldable pub list_authenticators : Store J → String → String → List (Authenticator J)
  list_authenticators s tenant user =
      values_where (λ a. str_eq a.tenant_id tenant && str_eq a.user_id user) s.authenticators

  unfoldable pub list_active_authenticators : Store J → String → String → List (Authenticator J)
  list_active_authenticators s tenant user =
      values_where (λ a. str_eq a.tenant_id tenant && (str_eq a.user_id user && is_active a.status))
        s.authenticators

  abbrev pub disable_found :
      Store J → String → ℕ → Option (Authenticator J) → Store J × Result (Unit {0})
  disable_found s id now none = (s, err not_found)
  disable_found s id now (some a) = (
    if is_active a.status
        then record s {
          authenticators =
              insert id (record a { status = disabled; updated_at = now }) s.authenticators;
        }
        else s,
    ok tt,
  )

  unfoldable pub disable_authenticator : Store J → String → String → ℕ → Store J × Result (Unit {0})
  disable_authenticator s tenant id now =
      disable_found s id now (owned_authenticator tenant (lookup id s.authenticators))

  unfoldable pub put_challenge : Store J → Challenge → Store J
  put_challenge s c = record s { challenges = insert c.id c s.challenges }

  unfoldable pub get_challenge : Store J → String → String → Option Challenge
  get_challenge s tenant id = owned_challenge tenant (lookup id s.challenges)

  abbrev pub update_found :
      Store J
      → String
      → String
      → (Challenge → Challenge)
      → Option Challenge
      → Store J × Result Challenge
  update_found s tenant id mutator none = (s, err not_found)
  update_found s tenant id mutator (some c) =
      if not (str_eq (mutator c).id id) || not (str_eq (mutator c).tenant_id tenant)
      then (s, err immutable_changed)
      else (record s { challenges = insert id (mutator c) s.challenges }, ok (mutator c))

  unfoldable pub update_challenge :
      Store J → String → String → (Challenge → Challenge) → Store J × Result Challenge
  update_challenge s tenant id mutator =
      update_found s tenant id mutator (owned_challenge tenant (lookup id s.challenges))

  unfoldable pub purge_expired : Store J → ℕ → Store J × ℕ
  purge_expired s now = (
    record s { challenges = keep_if (λ c. not (is_stale now c)) s.challenges },
    length (values_where (is_stale now) s.challenges),
  )
