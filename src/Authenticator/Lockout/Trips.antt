-- ===== src/Authenticator/Lockout/Trips.antt =====
-- When the in-memory lockout (abuse.go) locks a key, and until when.
use x_auth_site.Base.{
  ℕ, zero, suc, ◌⊎◌, inl, inr, ◌+◌, ◌-◌, ◌≤◌, ◌<◌, ◌≡◌, refl, ap, ◌∙◌, String, true, false, none,
  some, List, [], ◌∷◌, ◌++◌, arith, ltb, leb, ◌==◌, length, length-append, keep,
}
use x_auth_site.Base.Dict.{lookup}
use x_auth_site.Base.Dict.Laws.{lookup-insert_self}
use x_auth_site.Ratex.{Limiter, new, after}
use x_auth_site.Ratex.Refinement.{Log, times, allow_step, IsAscending}
use x_auth_site.Authenticator.Lockout.{
  Lockout, new_lockout, new_lockout_with, lock, locked, unlocked,
}
use x_auth_site.Authenticator.Lockout.Quiet.{
  IsQuiet, counted, record_failures, IsQuiet-run, new-IsQuiet, record_failures-append,
  locked_of_none, locked_of_some, disabled_run, uncounted_run, keep_all, record_failure-counted,
  record_failure-uncounted,
}

new_lockout_off : (n : ℕ) → new_lockout (suc n) 0 ≡ none
unfolding new_lockout
new_lockout_off n = ground arith

new_lockout_one : (w : ℕ) → new_lockout 1 (suc w) ≡ some (new_lockout_with none (suc w))
unfolding new_lockout
new_lockout_one w = ground arith

new_lockout_many :
    (n w : ℕ)
    → new_lockout (suc (suc n)) (suc w)
      ≡ some (new_lockout_with (some (new (suc n) (suc w))) (suc w))
unfolding new_lockout
new_lockout_many n w =
    let big : ltb 1 (suc (suc n)) ≡ true = ground arith in
    let two : (suc (suc n) == 0) ≡ false = ground arith in
    let on : (suc w == 0) ≡ false = ground arith in
    let less : suc (suc n) - 1 ≡ suc n = omega arith in rw (two, on, big, less)

locked_off : (key : String) (now : ℕ) → (locked {S = Limiter} none key now).1 ≡ unlocked
unfolding locked
locked_off key now = refl

lookup_new : (key : String) → lookup {V = ℕ} key [] ≡ none
unfolding lookup
lookup_new key = refl

-- No key is locked by fewer failures than the threshold: after any failures at instants that do not
-- run back, a key that had fewer than `threshold` of them is not locked, at any time.
pub below_threshold_unlocked :
    (threshold window : ℕ) (calls : Log) (last : ℕ) (key : String) (now : ℕ)
    → IsAscending 0 calls last
    → length (times key calls) < threshold
    → (locked (record_failures (new_lockout threshold window) calls) key now).1 ≡ unlocked
below_threshold_unlocked zero window calls last key now up few = absurd (omega arith)
below_threshold_unlocked (suc n) zero calls last key now up few =
    rw (new_lockout_off n, disabled_run calls) (locked_off key now)
below_threshold_unlocked (suc zero) (suc w) calls last key now up few =
    let (lk, runs, _, _, free) =
      uncounted_run key (new_lockout_with none (suc w)) calls refl (ground (arith, few))
        (lookup_new key) in
    rw (new_lockout_one w, runs) (locked_of_none lk key now free)
below_threshold_unlocked (suc (suc n)) (suc w) calls last key now up few =
    let (_, lk, _, _, runs, quiet, _) =
      IsQuiet-run (suc n) (suc w) (omega arith) key 0
        (new_lockout_with (some (new (suc n) (suc w))) (suc w)) [] calls last
        (new-IsQuiet (suc n) (suc w) key) up (omega arith) in
    rw (new_lockout_many n w, runs) (locked_of_none lk key now quiet.unlocked)

-- A counter that is full at `t` locks the key until its oldest counted failure leaves the window.
full_locks :
    (limit window t₀ : ℕ) (key : String) (lk : Lockout Limiter) (log : Log) (t first : ℕ)
    (rest : List ℕ)
    → (q : IsQuiet limit window t₀ key lk log) → 0 < limit
    → t₀ ≤ t
    → window ≤ t
    → t < first + window
    → keep (after (t - window)) (times key log) ≡ first ∷ rest
    → length (first ∷ rest) ≡ limit
    → lookup key (counted lk q.limiter key t).locked_until ≡ some (first + window)
full_locks limit window t₀ key lk log t first rest q pos up early soon seen full =
    let step =
      (allow_step q.limiter log limit window t₀ key t q.limited q.windowed pos q.simulates up).0 in
    let enabled : (limit == 0) ≡ false = ground arith in
    let over : leb limit (length (first ∷ rest)) ≡ true = ground arith in
    let until : t + (first - (t - window)) ≡ first + window = omega arith in
    rw (counted, step, enabled, seen, over)
      (rw until (lookup-insert_self key (first + window) lk.locked_until))

-- The first of a history of failures, the last of which comes at `t`.
first_failure :
    (xs : List ℕ) (t first : ℕ) (rest : List ℕ)
    → xs ++ (t ∷ []) ≡ first ∷ rest
    → ((xs ≡ []) × (first ≡ t) × (length rest ≡ 0))
      ⊎ ((ys : List ℕ) × (xs ≡ first ∷ ys) × (length rest ≡ length ys + 1))
first_failure [] t first rest e = inl (refl, ground arith, ground arith)
first_failure (x ∷ xs) t first rest e =
    let same : x ≡ first = ground arith in
    let tail : rest ≡ xs ++ (t ∷ []) = ground arith in
    inr (xs, ap (λ y. y ∷ xs) same, ap length tail ∙ length-append xs (t ∷ []))

lock_until :
    (threshold window : ℕ) (calls : Log) (key : String) (t first : ℕ) (rest : List ℕ)
    → 0 < window
    → window ≤ t
    → IsAscending 0 calls t
    → times key calls ++ (t ∷ []) ≡ first ∷ rest
    → length (first ∷ rest) ≡ threshold
    → t < first + window
    → (lk : Lockout Limiter) × (record_failures
          (new_lockout threshold window)
          (calls ++ (key, t) ∷ [])
        ≡ some lk)
      × (lookup key lk.locked_until ≡ some (first + window))
unfolding record_failures
lock_until threshold zero calls key t first rest pos early up e n soon = absurd (omega arith)
lock_until zero (suc w) calls key t first rest pos early up e n soon = absurd (omega arith)
lock_until (suc zero) (suc w) calls key t first rest pos early up e n soon =
    elim (first_failure (times key calls) t first rest e) [
      | inr (ys, _, longer) ↦ absurd (omega arith)
      | inl (quiet, same, _) ↦
          let (lk, runs, uncounted, width, _) =
            uncounted_run key (new_lockout_with none (suc w)) calls refl quiet (lookup_new key) in
          (
            lock lk key lk.window t,
            rw (new_lockout_one w, record_failures-append _ calls ((key, t) ∷ []), runs)
                (record_failure-uncounted lk key t uncounted),
            rw (width, same) (lookup-insert_self key (t + suc w) lk.locked_until),
          )
    ]
lock_until (suc (suc n)) (suc w) calls key t first rest pos early up e m soon =
    elim (first_failure (times key calls) t first rest e) [
      | inl (_, _, short) ↦ absurd (omega arith)
      | inr (ys, all, longer) ↦
          let (t₁, lk, log, before, runs, q, logged_all) =
            IsQuiet-run (suc n) (suc w) (omega arith) key 0
              (new_lockout_with (some (new (suc n) (suc w))) (suc w)) [] calls t
              (new-IsQuiet (suc n) (suc w) key) up (rw all (omega arith)) in
          (
            counted lk q.limiter key t,
            rw (new_lockout_many n w, record_failures-append _ calls ((key, t) ∷ []), runs)
                (record_failure-counted lk q.limiter key t q.counts),
            full_locks (suc n) (suc w) t₁ key lk log t first ys q (omega arith) before early soon
                (rw logged_all
                  (keep_all key (t - suc w) 0 calls t first ys up all (omega arith) ∙ all))
                (omega arith),
          )
    ]

-- The threshold-th failure of a key inside the window locks it, exactly until the first of them
-- leaves the window: let a key's failures be `first ∷ rest`, as many as the threshold, the last at
-- `t` and instants that do not run back, with `t` less than `window` after `first`. Then at
-- any time `now` the key is locked if `now < first + window` and only then, and what remains of
-- the lock is the time until `first + window`. Failures of other keys do not matter.
pub threshold_locks :
    (threshold window : ℕ) (calls : Log) (key : String) (t first : ℕ) (rest : List ℕ) (now : ℕ)
    → 0 < window
    → window ≤ t
    → IsAscending 0 calls t
    → times key calls ++ (t ∷ []) ≡ first ∷ rest
    → length (first ∷ rest) ≡ threshold
    → t < first + window
    → (locked (record_failures (new_lockout threshold window) (calls ++ (key, t) ∷ [])) key now).1
      ≡ record { is_locked = ltb now (first + window); remaining = first + window - now }
threshold_locks threshold window calls key t first rest now pos early up e n soon =
    let (lk, runs, until) =
      lock_until threshold window calls key t first rest pos early up e n soon in
    rw runs (locked_of_some lk key now (first + window) until)
