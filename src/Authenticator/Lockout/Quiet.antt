-- ===== src/Authenticator/Lockout/Quiet.antt =====
-- The in-memory lockout (abuse.go) over a history of failures: how it counts before it locks a key.
use mathlib.Core.List.{append-nil, append_assoc}
use x_auth_site.Base.{
  ℕ, ◌+◌, ◌-◌, ◌≤◌, ◌<◌, ◌≡◌, refl, sym, ap, ◌∙◌, String, true, false, Option, none, some, List, [],
  ◌∷◌, ◌++◌, arith, ltb, leb, ◌==◌, if◌then◌else◌, length, length-append, keep, str_eq, str_eq_iff,
  length-keep-le, Bool-cases, inl, inr,
}
use x_auth_site.Base.Dict.{lookup}
use x_auth_site.Base.Dict.Laws.{lookup-insert}
use x_auth_site.Ratex.{Decision, admitted, Limiter, new, after, allow, in_memory}
use x_auth_site.Ratex.Refinement.{
  Log, times, times-append, spec, logged, Simulates, allow_step, allow-config, new-Simulates,
  IsAscending,
}
use x_auth_site.Authenticator.Lockout.{
  Lockout, new_lockout_with, lock, lock_if_over, record_failure, locked, unlocked,
}

-- A history of failed verifications, each counted and locked at one instant.
unfoldable pub record_failures : Option (Lockout Limiter) → Log → Option (Lockout Limiter)
record_failures l [] = l
record_failures l ((key, t) ∷ calls) = record_failures (record_failure in_memory l key t t) calls

-- A key that has not been locked, and whose failures are all on the log.
pub record IsQuiet (limit window t₀ : ℕ) (key : String) (lk : Lockout Limiter) (log : Log)
    : Type 0 where
  pub limiter : Limiter
  pub counts : lk.failures ≡ some limiter
  pub limited : limiter.limit ≡ limit
  pub windowed : limiter.window ≡ window
  pub simulates : Simulates limiter log (t₀ - window)
  pub unlocked : lookup key lk.locked_until ≡ none

spec_below :
    (limit window : ℕ) (log : Log) (key : String) (t : ℕ)
    → length (times key log) < limit
    → spec limit window log key t ≡ admitted
spec_below limit window log key t h =
    let kept = length-keep-le (after (t - window)) (times key log) in
    let room : leb limit (length (keep (after (t - window)) (times key log))) ≡ false =
      ground arith in
    let enabled : (limit == 0) ≡ false = ground arith in rw (enabled, room)

-- The lockout after a failure that the counter answers by `d`.
abbrev pub counted : Lockout Limiter → Limiter → String → ℕ → Lockout Limiter
counted lk l k t = lock_if_over (record lk { failures = some (allow l k t).0 }) (allow l k t).1 k t

pub record_failure-counted :
    (lk : Lockout Limiter) (l : Limiter) (k : String) (t : ℕ)
    → lk.failures ≡ some l
    → record_failure in_memory (some lk) k t t ≡ some (counted lk l k t)
unfolding record_failure
record_failure-counted lk l k t e = cc e

counted-failures :
    (lk : Lockout Limiter) (l : Limiter) (k : String) (t : ℕ)
    → (counted lk l k t).failures ≡ some (allow l k t).0
counted-failures lk l k t = ground arith

counted_other :
    (lk : Lockout Limiter) (l : Limiter) (k key : String) (t : ℕ)
    → str_eq k key ≡ false
    → lookup key (counted lk l k t).locked_until ≡ lookup key lk.locked_until
counted_other lk l k key t e =
    ground (arith, lookup-insert k key (t + (allow l k t).1.retry_after) lk.locked_until)

times-logged_other :
    (log : Log) (k key : String) (t : ℕ) (d : Decision)
    → str_eq k key ≡ false
    → times key (logged log k t d) ≡ times key log ++ []
times-logged_other log k key t d e =
    ground (arith, times-append key k t log, append-nil (times key log))

length-times_hit :
    (key : String) (log : Log) (k : String) (t : ℕ) (calls : Log)
    → str_eq k key ≡ true
    → length (times key log) < length (times key log ++ times key ((k, t) ∷ calls))
length-times_hit key log k t calls e =
    rw (e, length-append (times key log) (t ∷ times key calls)) (omega arith)

regroup :
    (key k : String) (t : ℕ) (log log₁ calls : Log)
    → times key log₁ ≡ times key log ++ (if str_eq k key then t ∷ [] else [])
    → times key log₁ ++ times key calls ≡ times key log ++ times key ((k, t) ∷ calls)
regroup key k t log log₁ calls e = elim (Bool-cases (str_eq k key)) [
  | inl same ↦ rw (e, same) (append_assoc (times key log) (t ∷ []) (times key calls))
  | inr differ ↦ rw (e, differ, append-nil (times key log))
]

module _ (limit window : ℕ) (pos : 0 < limit) (key : String) where
  counted-IsQuiet :
      (t₀ : ℕ) (lk : Lockout Limiter) (log : Log) (k : String) (t : ℕ)
      → (q : IsQuiet limit window t₀ key lk log) → t₀ ≤ t
      → (d : Decision) → (allow q.limiter k t).1 ≡ d
      → spec limit window log k t ≡ d
      → lookup key (counted lk q.limiter k t).locked_until ≡ none
      → IsQuiet limit window t key (counted lk q.limiter k t) (logged log k t d)
  counted-IsQuiet t₀ lk log k t q up d e₁ e₂ free = record {
    limiter = (allow q.limiter k t).0;
    counts = counted-failures lk q.limiter k t;
    limited = (allow-config q.limiter k t).0 ∙ q.limited;
    windowed = (allow-config q.limiter k t).1 ∙ q.windowed;
    simulates =
        rw (← e₂)
          (allow_step q.limiter log limit window t₀ k t q.limited q.windowed pos q.simulates up).1;
    unlocked = free;
  }

  IsQuiet-step :
      (t₀ : ℕ) (lk : Lockout Limiter) (log : Log) (k : String) (t : ℕ)
      → (q : IsQuiet limit window t₀ key lk log) → t₀ ≤ t
      → (str_eq k key ≡ true → length (times key log) < limit)
      → (log' : Log) × IsQuiet limit window t key (counted lk q.limiter k t) log'
        × (times key log' ≡ times key log ++ (if str_eq k key then t ∷ [] else []))
  IsQuiet-step t₀ lk log k t q up room = elim (Bool-cases (str_eq k key)) [
    | inl same ↦
        let below = spec_below limit window log k t (rw ((str_eq_iff k key).0 same) (room same)) in
        let answer = step.0 ∙ below in
        (
          log ++ (k, t) ∷ [],
          counted-IsQuiet t₀ lk log k t q up admitted answer below
              (rw (counted, answer) q.unlocked),
          times-append key k t log,
        )
    | inr differ ↦ (
      logged log k t (spec limit window log k t),
      counted-IsQuiet t₀ lk log k t q up _ step.0 refl
          (counted_other lk q.limiter k key t differ ∙ q.unlocked),
      rw differ (times-logged_other log k key t (spec limit window log k t) differ),
    )
  ]
    where
      step :
          ((allow q.limiter k t).1 ≡ spec limit window log k t)
          × Simulates
              (allow q.limiter k t).0
              (logged log k t (spec limit window log k t))
              (t - window)
      step = allow_step q.limiter log limit window t₀ k t q.limited q.windowed pos q.simulates up

  -- While the failures of the key are at most `limit`, they are all on the log and do not lock it.
  pub IsQuiet-run :
      (t₀ : ℕ) (lk : Lockout Limiter) (log : Log) (calls : Log) (last : ℕ)
      → IsQuiet limit window t₀ key lk log
      → IsAscending t₀ calls last
      → length (times key log ++ times key calls) ≤ limit
      → (t₁ : ℕ) × (lk' : Lockout Limiter) × (log' : Log) × (t₁ ≤ last)
        × (record_failures (some lk) calls ≡ some lk')
        × IsQuiet limit window t₁ key lk' log'
        × (times key log' ≡ times key log ++ times key calls)
  unfolding record_failures
  IsQuiet-run t₀ lk log [] last q up room =
      (t₀, lk, log, up, refl, q, sym (append-nil (times key log)))
  IsQuiet-run t₀ lk log ((k, t) ∷ calls) last q up room =
      let (log₁, q₁, grown) =
        IsQuiet-step t₀ lk log k t q up.0
          (λ e. omega (arith, room, length-times_hit key log k t calls e)) in
      let regrouped = regroup key k t log log₁ calls grown in
      let (t₁, lk', log', before, runs, q', all) =
        IsQuiet-run t (counted lk q.limiter k t) log₁ calls last q₁ up.1 (rw regrouped room) in
      (
        t₁,
        lk',
        log',
        before,
        ap (λ l. record_failures l calls) (record_failure-counted lk q.limiter k t q.counts) ∙ runs,
        q',
        all ∙ regrouped,
      )

pub record_failures-append :
    (l : Option (Lockout Limiter)) (xs ys : Log)
    → record_failures l (xs ++ ys) ≡ record_failures (record_failures l xs) ys
unfolding record_failures
record_failures-append l [] ys = refl
record_failures-append l ((k, t) ∷ xs) ys =
    record_failures-append (record_failure in_memory l k t t) xs ys

pub locked_of_none :
    (l : Lockout Limiter) (key : String) (now : ℕ)
    → lookup key l.locked_until ≡ none
    → (locked (some l) key now).1 ≡ unlocked
unfolding locked
locked_of_none l key now e = rw e

pub locked_of_some :
    (l : Lockout Limiter) (key : String) (now until : ℕ)
    → lookup key l.locked_until ≡ some until
    → (locked (some l) key now).1 ≡ record { is_locked = ltb now until; remaining = until - now }
unfolding locked
locked_of_some l key now until e = rw e (ground arith)

pub disabled_run : (calls : Log) → record_failures none calls ≡ none
unfolding record_failures record_failure
disabled_run [] = refl
disabled_run ((k, t) ∷ calls) = disabled_run calls

pub record_failure-uncounted :
    (lk : Lockout Limiter) (k : String) (t : ℕ)
    → lk.failures ≡ none
    → record_failure in_memory (some lk) k t t ≡ some (lock lk k lk.window t)
unfolding record_failure
record_failure-uncounted lk k t e = cc e

-- With threshold 1 there is no counter: every failure locks its key for the whole window.
pub uncounted_run :
    (key : String) (lk : Lockout Limiter) (calls : Log)
    → lk.failures ≡ none
    → times key calls ≡ []
    → lookup key lk.locked_until ≡ none
    → (lk' : Lockout Limiter) × (record_failures (some lk) calls ≡ some lk')
      × (lk'.failures ≡ none)
      × (lk'.window ≡ lk.window)
      × (lookup key lk'.locked_until ≡ none)
unfolding record_failures
uncounted_run key lk [] e quiet free = (lk, refl, e, refl, free)
uncounted_run key lk ((k, t) ∷ calls) e quiet free =
    let differ : str_eq k key ≡ false = ground arith in
    let rest : times key calls ≡ [] = ground arith in
    let (lk', runs, e', w, free') =
      uncounted_run key (lock lk k lk.window t) calls e rest
        (ground (arith, lookup-insert k key (t + lk.window) lk.locked_until)) in
    (
      lk',
      ap (λ l. record_failures l calls) (record_failure-uncounted lk k t e) ∙ runs,
      e',
      w,
      free',
    )

pub keep_later :
    (key : String) (c t₀ : ℕ) (calls : Log) (last : ℕ)
    → IsAscending t₀ calls last
    → c < t₀
    → keep (after c) (times key calls) ≡ times key calls
keep_later key c t₀ [] last up h = refl
keep_later key c t₀ ((k, t) ∷ calls) last up h = ground (arith, keep_later key c t calls last up.1)

-- A window that holds the first failure holds them all.
pub keep_all :
    (key : String) (c t₀ : ℕ) (calls : Log) (last first : ℕ) (rest : List ℕ)
    → IsAscending t₀ calls last
    → times key calls ≡ first ∷ rest
    → c < first
    → keep (after c) (times key calls) ≡ times key calls
keep_all key c t₀ [] last first rest up e h = refl
keep_all key c t₀ ((k, t) ∷ calls) last first rest up e h =
    ground (arith, keep_later key c t calls last up.1, keep_all key c t calls last first rest up.1)

-- The state in which a new lockout with a counter starts.
pub new-IsQuiet :
    (limit window : ℕ) (key : String)
    → IsQuiet limit window 0 key (new_lockout_with (some (new limit window)) window) []
unfolding new lookup
new-IsQuiet limit window key = record {
  limiter = new limit window;
  counts = refl;
  limited = refl;
  windowed = refl;
  simulates = new-Simulates limit window _;
  unlocked = refl;
}
