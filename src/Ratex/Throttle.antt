-- ===== src/Ratex/Throttle.antt =====
-- What a caller relies on: no window holds more admitted events of a key than the limit.
use mathlib.Core.List.{append-nil}
use x_auth_site.Base.{
  ◌∙◌, str_eq_iff, ℕ, suc, ◌-◌, ◌≤◌, ◌<◌, ◌≡◌, refl, String, false, [], ◌∷◌, ◌++◌, arith, leb, ◌==◌,
  length, keep, length-append, str_eq, Bool-cases, inl, inr,
}
use x_auth_site.Ratex.{Limiter, new, after, allow}
use x_auth_site.Ratex.Window.{keep-append, length-keep_mono}
use x_auth_site.Ratex.Refinement.{
  Log, times, times-append, spec, logged, Simulates, allow_step, allow-config, new-Simulates,
  IsAscending,
}

-- The events that the limiter admits, added to those of `log`.
unfoldable pub admitted_log : Limiter → Log → Log → Log
admitted_log l log [] = log
admitted_log l log ((key, now) ∷ calls) =
    let (l', d) = allow l key now in admitted_log l' (logged log key now d) calls

-- The events of a key in the window that starts at a cutoff.
abbrev pub count_after : ℕ → String → Log → ℕ
count_after c key log = length (keep (after c) (times key log))

times-logged-le :
    (c : ℕ) (log : Log) (key j : String) (now : ℕ)
    → count_after c j (log ++ (key, now) ∷ []) ≤ suc (count_after c j log)
times-logged-le c log key j now =
    rw
      (
        times-append j key now log,
        keep-append (after c) (times j log),
        length-append (keep (after c) (times j log)),
      )
      (ground arith)

times-logged_ne :
    (c : ℕ) (log : Log) (key j : String) (now : ℕ)
    → str_eq key j ≡ false
    → count_after c j (log ++ (key, now) ∷ []) ≡ count_after c j log
times-logged_ne c log key j now e = rw (times-append j key now log, e, append-nil (times j log))

-- A decision of the specification keeps every window within the limit.
spec_bound :
    (limit window : ℕ) (log : Log) (key : String) (now c₀ : ℕ) (j : String)
    → 0 < limit
    → c₀ ≤ now - window
    → count_after c₀ j log ≤ limit
    → count_after (now - window) j (logged log key now (spec limit window log key now)) ≤ limit
spec_bound limit window log key now c₀ j pos le h =
    let shrinks = length-keep_mono c₀ (now - window) (times j log) le in
    let enabled : (limit == 0) ≡ false = ground arith in
    elim (Bool-cases (leb limit (count_after (now - window) key log))) [
      | inl full ↦ rw (enabled, full) (omega (arith, shrinks))
      | inr room ↦
          rw (enabled, room)
            (elim (Bool-cases (str_eq key j)) [
              | inl same ↦
                  rw (← (str_eq_iff key j).0 same)
                    (ground (arith, times-logged-le (now - window) log key key now))
              | inr differ ↦
                  rw (times-logged_ne (now - window) log key j now differ) (omega (arith, shrinks))
            ])
    ]

module _ (limit window : ℕ) (pos : 0 < limit) where
  throttled_from :
      (l : Limiter) (log : Log) (t₀ : ℕ) (calls : Log) (now : ℕ)
      → l.limit ≡ limit
      → l.window ≡ window
      → Simulates l log (t₀ - window)
      → ((j : String) → count_after (t₀ - window) j log ≤ limit)
      → IsAscending t₀ calls now
      → (j : String) → count_after (now - window) j (admitted_log l log calls) ≤ limit
  unfolding admitted_log
  throttled_from l log t₀ [] now el ew s h up j =
      omega (arith, h j, length-keep_mono (t₀ - window) (now - window) (times j log) (omega arith))
  throttled_from l log t₀ ((key, t) ∷ calls) now el ew s h up j =
      throttled_from (allow l key t).0 (logged log key t (allow l key t).1) t calls now
        ((allow-config l key t).0 ∙ el) ((allow-config l key t).1 ∙ ew) (rw step.0 step.1)
        (λ i.
          rw step.0
            (spec_bound limit window log key t (t₀ - window) i pos (omega (arith, up.0)) (h i)))
        up.1 j
    where
      step :
          ((allow l key t).1 ≡ spec limit window log key t)
          × Simulates
              (allow l key t).0
              (logged log key t (spec limit window log key t))
              (t - window)
      step = allow_step l log limit window t₀ key t el ew pos s up.0

-- After any calls of a new limiter with a positive limit, at instants that do not run back and are
-- at most `now`, and for every key: of the events admitted for the key at most `limit` lie in the
-- window of length `window` that ends at `now`.
pub throttled :
    (limit window : ℕ) (calls : Log) (now : ℕ) (key : String)
    → 0 < limit
    → IsAscending 0 calls now
    → count_after (now - window) key (admitted_log (new limit window) [] calls) ≤ limit
unfolding new
throttled limit window calls now key pos up =
    throttled_from limit window pos (new limit window) [] 0 calls now refl refl
      (new-Simulates limit window _) (λ j. omega arith) up key
