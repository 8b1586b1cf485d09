-- ===== src/Authenticator/Backoff.antt =====
-- The exponential backoff between failed verifications and the Retry-After header (abuse.go).
use native.Mathlib.Nat.{pow-le-pow_right}
use x_auth_site.Base.{
  ℕ, ◌≡◌, refl, inl, inr, true, false, Bool-cases, ◌+◌, ◌-◌, ◌*◌, ◌/◌, ◌%◌, ◌^◌, ◌≤◌, ◌<◌, not,
  ◌||◌, Option, none, some, arith, ltb, leb, ◌==◌, if◌then◌else◌,
}
use x_auth_site.Authenticator.Model.{Challenge, second}

abbrev pub max_backoff_shift : ℕ
max_backoff_shift = 30

-- Seconds between an attempt and the next: two to the power of the attempts, capped.
abbrev pub backoff_shift : ℕ → ℕ
backoff_shift attempts = if ltb max_backoff_shift attempts then max_backoff_shift else attempts

abbrev pub remaining_since : ℕ → Option ℕ → ℕ → ℕ
remaining_since attempts none now = 0
remaining_since attempts (some last) now =
    if leb attempts 0
    then 0
    else (if ltb now (last + 2 ^ backoff_shift attempts * second)
        then last + 2 ^ backoff_shift attempts * second - now
        else 0)

unfoldable pub backoff_remaining : Challenge → ℕ → ℕ
backoff_remaining c now = remaining_since c.attempts c.last_attempt_at now

-- `retryAfterSeconds` of a duration that is not negative.
unfoldable pub retry_after_seconds : ℕ → ℕ
retry_after_seconds d =
    let secs = d / second in if not (d % second == 0) || ltb secs 1 then secs + 1 else secs

pow_le_cap : (k : ℕ) → k ≤ max_backoff_shift → 2 ^ k ≤ 2 ^ 30
pow_le_cap k h = pow-le-pow_right (omega arith) h

-- How long to wait after a failed attempt: twice as long with each, up to the thirtieth.
abbrev pub delay : ℕ → ℕ
delay attempts = if leb attempts 30 then 2 ^ attempts * second else 2 ^ 30 * second

delay-shift : (attempts : ℕ) → 2 ^ backoff_shift attempts * second ≡ delay attempts
delay-shift attempts = elim (Bool-cases (leb attempts 30)) [
  | inl few ↦
      let short : ltb max_backoff_shift attempts ≡ false = ground (arith, few) in
      rw (few, short) refl
  | inr many ↦
      let long : ltb max_backoff_shift attempts ≡ true = ground (arith, many) in
      rw (many, long) refl
]

-- What is left to wait at `now` after the attempts, the last of them at `last`.
pub record IsBackoff (attempts last now left : ℕ) : Type 0 where
  pub unfailed : attempts ≡ 0 → left ≡ 0
  pub waits : 0 < attempts → now < last + delay attempts → now + left ≡ last + delay attempts
  pub over : last + delay attempts ≤ now → left ≡ 0
  pub fits : left < 2 ^ 63

remaining_since-IsBackoff :
    (attempts last now : ℕ)
    → last ≤ now
    → IsBackoff attempts last now (remaining_since attempts (some last) now)
remaining_since-IsBackoff attempts last now order = elim (Bool-cases (leb attempts 0)) [
  | inl unfailed ↦ rw unfailed (record {
    unfailed = λ e. refl;
    waits = λ p w. absurd (ground (arith, unfailed, p));
    over = λ o. refl;
    fits = omega arith;
  })
  | inr failed ↦ rw (failed, delay-shift attempts) (left failed)
]
  where
    cap : delay attempts ≤ 2 ^ 30 * second
    cap = elim (Bool-cases (leb attempts 30)) [
      | inl few ↦ rw few (omega (arith, pow_le_cap attempts (ground (arith, few))))
      | inr many ↦ rw many (omega arith)
    ]

    left :
        leb attempts 0 ≡ false
        → IsBackoff attempts last now
            (if ltb now (last + delay attempts) then last + delay attempts - now else 0)
    left failed = elim (Bool-cases (ltb now (last + delay attempts))) [
      | inl early ↦
          let soon : now < last + delay attempts = ground (arith, early) in
          let bound = cap in
          rw early (record {
            unfailed = λ e. absurd (ground (arith, failed, e));
            waits = λ p w. omega (arith, soon);
            over = λ o. absurd (omega (arith, soon, o));
            fits = omega (arith, bound, order);
          })
      | inr late ↦
          let done : last + delay attempts ≤ now = ground (arith, late) in
          rw late (record {
            unfailed = λ e. refl;
            waits = λ p w. absurd (omega (arith, done, w));
            over = λ o. refl;
            fits = omega arith;
          })
    ]

-- After an attempt at a time that is not in the future, a challenge is to wait 2^attempts seconds from that time,
-- with the exponent cut to 30, and what is left of them is answered: nothing when they are over or no attempt
-- has failed. Whatever attempts are stored, it fits the int64 nanoseconds of a Duration.
pub backoff_remaining-IsBackoff :
    (c : Challenge) (last now : ℕ)
    → c.last_attempt_at ≡ some last
    → last ≤ now
    → IsBackoff c.attempts last now (backoff_remaining c now)
unfolding backoff_remaining
backoff_remaining-IsBackoff c last now stored order =
    rw stored (remaining_since-IsBackoff c.attempts last now order)

-- For any duration, the header's seconds are at least one, cover the duration, and exceed it by
-- less than a second unless the duration is zero.
pub retry_after_seconds_lem :
    (d : ℕ)
    → (1 ≤ retry_after_seconds d)
      × (d ≤ retry_after_seconds d * second)
      × (0 < d → retry_after_seconds d * second < d + second)
unfolding retry_after_seconds
retry_after_seconds_lem d = ground arith
