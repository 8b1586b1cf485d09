-- ===== src/Authenticator/Lockout.antt =====
-- Account lockout and the retry backoff's arithmetic (abuse.go).
-- A nil *Lockout is `none`; a counter behind the `Allower` interface counts the failures. The
-- clock is read where the source reads it: `counted_at` by the counter, `locked_at` by `lock`.
pub mod Quiet
pub mod Trips
mod Tests
use x_auth_site.Base.{
  ℕ, ◌+◌, ◌-◌, ◌/◌, ◌%◌, String, Bool, true, false, not, ◌||◌, Option, none, some, [], ltb, leb,
  ◌==◌, if◌then◌else◌,
}
use x_auth_site.Base.Dict.{Dict, lookup, insert, delete}
use x_auth_site.Ratex.{Allower, Decision, Limiter, new}
use Prim.Native.String.{◌++◌ as append}

pub record Lockout (S : Type 0) : Type 0 where
  pub window : ℕ
  pub failures : Option S
  pub locked_until : Dict ℕ

unfoldable pub abuse_key : String → String → String
abuse_key tenant_id user_id = append tenant_id (append "|" user_id)

-- `allow` of a limiter that may be nil.
unfoldable pub allow_optional :
    (A : Allower) → Option A.State → String → ℕ → Option A.State × Decision
allow_optional A none key now = (none, record { ok = true; retry_after = 0 })
allow_optional A (some s) key now = let (s', d) = A.allow s key now in (some s', d)

abbrev pub new_lockout_with : {S : Type 0} → Option S → ℕ → Lockout S
new_lockout_with counter window = record { window = window; failures = counter; locked_until = [] }

-- Durations and thresholds that are not positive are 0 here.
unfoldable pub new_lockout : ℕ → ℕ → Option (Lockout Limiter)
new_lockout threshold window =
    if threshold == 0 || window == 0
    then none
    else some (
        new_lockout_with (if ltb 1 threshold then some (new (threshold - 1) window) else none)
          window)

abbrev pub lock : {S : Type 0} → Lockout S → String → ℕ → ℕ → Lockout S
lock l key d now = record l { locked_until = insert key (now + d) l.locked_until }

-- The answer of the counter: an event over the limit is the threshold-th failure.
abbrev pub lock_if_over : {S : Type 0} → Lockout S → Decision → String → ℕ → Lockout S
lock_if_over l d key locked_at = if d.ok then l else lock l key d.retry_after locked_at

abbrev pub count_failure :
    (A : Allower) → Lockout A.State → Option A.State → String → ℕ → ℕ → Lockout A.State
count_failure A l none key counted_at locked_at = lock l key l.window locked_at
count_failure A l (some s) key counted_at locked_at =
    let (s', d) = A.allow s key counted_at in
    lock_if_over (record l { failures = some s' }) d key locked_at

unfoldable pub record_failure :
    (A : Allower) → Option (Lockout A.State) → String → ℕ → ℕ → Option (Lockout A.State)
record_failure A none key counted_at locked_at = none
record_failure A (some l) key counted_at locked_at =
    some (count_failure A l l.failures key counted_at locked_at)

pub record LockStatus : Type 0 where
  pub is_locked : Bool
  pub remaining : ℕ

abbrev pub unlocked : LockStatus
unlocked = record { is_locked = false; remaining = 0 }

abbrev pub check_until : {S : Type 0} → Lockout S → String → ℕ → Option ℕ → Lockout S × LockStatus
check_until l key now none = (l, unlocked)
check_until l key now (some until) =
    if ltb now until
    then (l, record { is_locked = true; remaining = until - now })
    else (record l { locked_until = delete key l.locked_until }, unlocked)

abbrev pub kept : {S : Type 0} → Lockout S × LockStatus → Option (Lockout S) × LockStatus
kept (l, s) = (some l, s)

unfoldable pub locked :
    {S : Type 0} → Option (Lockout S) → String → ℕ → Option (Lockout S) × LockStatus
locked none key now = (none, unlocked)
locked (some l) key now = kept (check_until l key now (lookup key l.locked_until))
