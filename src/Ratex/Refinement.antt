-- ===== src/Ratex/Refinement.antt =====
-- The limiter against its specification: a log of all admitted events that is never pruned.
use mathlib.Core.List.{append-nil}
use x_auth_site.Base.{
  ℕ, zero, suc, ◌%◌, ◌-◌, ◌≤◌, ◌<◌, ◌≡◌, refl, sym, ap, ◌∙◌, String, true, false, Option, none,
  some, List, [], ◌∷◌, ◌++◌, arith, leb, ◌==◌, if◌then◌else◌, length, keep, any, str_eq, str_eq_iff,
  Bool-cases, inl, inr,
}
use x_auth_site.Base.Dict.{Dict, lookup, insert, guarded, IsDistinct}
use x_auth_site.Base.Dict.Laws.{
  lookup-insert, lookup-keep_if, insert-IsDistinct, keep_if-IsDistinct,
}
use x_auth_site.Ratex.{
  Decision, admitted, Limiter, new, after, hits_at, sweep_locked, until_oldest, swept_hits, allow,
  sweep_every,
}
use x_auth_site.Ratex.Window.{keep-keep-after, keep-append, keep-eq-nil}

-- Admitted events, oldest first.
abbrev pub Log : Type 0
Log = List (String × ℕ)

abbrev pub times : String → Log → List ℕ
times key [] = []
times key ((k, t) ∷ log) = if str_eq k key then t ∷ times key log else times key log

-- The specification: an event is admitted unless the window that ends now already holds `limit`
-- admitted events of its key; a refusal says how long the oldest of these stays.
abbrev pub spec : ℕ → ℕ → Log → String → ℕ → Decision
spec limit window log key now =
    if limit == 0
    then admitted
    else (if leb limit (length (keep (after (now - window)) (times key log)))
        then record {
          ok = false;
          retry_after = until_oldest (now - window) (keep (after (now - window)) (times key log));
        }
        else admitted)

abbrev pub logged : Log → String → ℕ → Decision → Log
logged log key now d = if d.ok then log ++ (key, now) ∷ [] else log

-- The limiter agrees with the log on every window that starts at `cutoff` or later.
pub record Simulates (l : Limiter) (log : Log) (cutoff : ℕ) : Type 0 where
  pub distinct : IsDistinct l.hits
  pub agree :
      (key : String) (c : ℕ)
      → cutoff ≤ c
      → keep (after c) (hits_at (lookup key l.hits)) ≡ keep (after c) (times key log)

hits_at-guarded :
    (c d : ℕ) (o : Option (List ℕ))
    → c ≤ d
    → keep (after d) (hits_at (guarded (any (after c)) o)) ≡ keep (after d) (hits_at o)
hits_at-guarded c d none h = refl
hits_at-guarded c d (some ts) h = elim (Bool-cases (any (after c) ts)) [
  | inl live ↦ rw live
  | inr dead ↦ rw dead (sym (keep-eq-nil c d ts h dead))
]

-- The sweep changes no window that starts at its cutoff or later.
sweep_locked-agree :
    (c d : ℕ) (key : String) (hits : Dict (List ℕ))
    → IsDistinct hits
    → c ≤ d
    → keep (after d) (hits_at (lookup key (sweep_locked c hits)))
      ≡ keep (after d) (hits_at (lookup key hits))
unfolding sweep_locked
sweep_locked-agree c d key hits distinct h =
    rw (lookup-keep_if (any (after c)) key hits distinct) (hits_at-guarded c d (lookup key hits) h)

swept_hits-IsDistinct : (l : Limiter) (c : ℕ) → IsDistinct l.hits → IsDistinct (swept_hits l c)
unfolding sweep_locked
swept_hits-IsDistinct l c h = elim (Bool-cases (suc l.calls % sweep_every == 0)) [
  | inl due ↦ rw due (keep_if-IsDistinct (any (after c)) l.hits h)
  | inr not_due ↦ rw not_due h
]

swept_hits-agree :
    (l : Limiter) (c d : ℕ) (key : String)
    → IsDistinct l.hits
    → c ≤ d
    → keep (after d) (hits_at (lookup key (swept_hits l c)))
      ≡ keep (after d) (hits_at (lookup key l.hits))
swept_hits-agree l c d key h le = elim (Bool-cases (suc l.calls % sweep_every == 0)) [
  | inl due ↦ rw due (sweep_locked-agree c d key l.hits h le)
  | inr not_due ↦ rw not_due
]

pub times-append :
    (key k : String) (t : ℕ) (log : Log)
    → times key (log ++ (k, t) ∷ []) ≡ times key log ++ (if str_eq k key then t ∷ [] else [])
times-append key k t [] = refl
times-append key k t ((j, u) ∷ log) = ground (arith, times-append key k t log)

-- What a call writes back agrees with the log, for the written key and for every other.
write-agree :
    (key j : String) (c d : ℕ) (window extra : List ℕ) (swept : Dict (List ℕ)) (log : Log)
    → c ≤ d
    → window ≡ keep (after c) (times key log)
    → keep (after d) (hits_at (lookup j swept)) ≡ keep (after d) (times j log)
    → keep (after d) (hits_at (lookup j (insert key (window ++ extra) swept)))
      ≡ keep (after d) (times j log ++ (if str_eq key j then extra else []))
write-agree key j c d window extra swept log le e other = elim (Bool-cases (str_eq key j)) [
  | inl same ↦
      rw
        (
          lookup-insert key j (window ++ extra) swept,
          same,
          keep-append (after d) window extra,
          e,
          ← (str_eq_iff key j).0 same,
          keep-keep-after c d (times key log) le,
        )
        (sym (keep-append (after d) (times key log) extra))
  | inr differ ↦
      rw (lookup-insert key j (window ++ extra) swept, differ, append-nil (times j log)) other
]

-- The pruned window of a call is the window of the log.
window-eq :
    (l : Limiter) (log : Log) (c₀ c : ℕ) (key : String)
    → Simulates l log c₀
    → c₀ ≤ c
    → keep (after c) (hits_at (lookup key (swept_hits l c))) ≡ keep (after c) (times key log)
window-eq l log c₀ c key s h = swept_hits-agree l c c key s.distinct (omega arith) ∙ s.agree key c h

-- The limiter after a call that adds `extra`, nothing or the event itself, to the key's window.
abbrev written : Limiter → String → ℕ → List ℕ → Limiter
written l key now extra = record l {
  hits =
      insert key
        (keep (after (now - l.window)) (hits_at (lookup key (swept_hits l (now - l.window))))
          ++ extra)
        (swept_hits l (now - l.window));
  calls = suc l.calls;
}

written-Simulates :
    (l : Limiter) (log log' : Log) (c₀ : ℕ) (key : String) (now : ℕ) (extra : List ℕ)
    → Simulates l log c₀
    → c₀ ≤ now - l.window
    → ((j : String) → times j log' ≡ times j log ++ (if str_eq key j then extra else []))
    → Simulates (written l key now extra) log' (now - l.window)
written-Simulates l log log' c₀ key now extra s h grown = record {
  distinct = insert-IsDistinct key _ _ (swept_hits-IsDistinct l (now - l.window) s.distinct);
  agree = λ j d le. rw (grown j) (
      write-agree key j (now - l.window) d _ extra (swept_hits l (now - l.window)) log le
        (window-eq l log c₀ (now - l.window) key s h)
        (swept_hits-agree l (now - l.window) d j s.distinct le ∙ s.agree j d (omega arith)));
}

-- Each call of an enabled limiter decides as the specification does, on the log of the events
-- admitted so far, and the limiter goes on agreeing with that log, if the clock does not run back.
pub allow-Simulates :
    (l : Limiter) (log : Log) (c₀ : ℕ) (key : String) (now : ℕ)
    → 0 < l.limit
    → Simulates l log c₀
    → c₀ ≤ now - l.window
    → ((allow l key now).1 ≡ spec l.limit l.window log key now)
      × Simulates
          (allow l key now).0
          (logged log key now (spec l.limit l.window log key now))
          (now - l.window)
unfolding allow
allow-Simulates l log c₀ key now on s h =
    let W = window-eq l log c₀ (now - l.window) key s h in
    let enabled : (l.limit == 0) ≡ false = ground arith in
    elim (Bool-cases (leb l.limit (length (keep (after (now - l.window)) (times key log))))) [
      | inl full ↦
          rw (enabled, W, full)
            (
              refl,
              rw (← append-nil (keep (after (now - l.window)) (times key log)), ← W)
                  (written-Simulates l log log c₀ key now [] s h
                    (λ j. ground (arith, append-nil (times j log)))),
            )
      | inr room ↦
          rw (enabled, W, room)
            (
              refl,
              rw (← W) (
                  written-Simulates l log (log ++ (key, now) ∷ []) c₀ key now (now ∷ []) s h
                    (λ j. times-append j key now log)),
            )
    ]

-- No call changes the configuration.
pub allow-config :
    (l : Limiter) (key : String) (now : ℕ)
    → ((allow l key now).0.limit ≡ l.limit) × ((allow l key now).0.window ≡ l.window)
unfolding allow
allow-config l key now = ground arith

-- A new limiter agrees with the empty log.
pub new-Simulates : (limit window c : ℕ) → Simulates (new limit window) [] c
unfolding new lookup
new-Simulates limit window c = record { distinct = tt; agree = λ j d le. refl }

-- A call of a limiter whose last call was at `t₀`, in terms of its configuration.
pub allow_step :
    (l : Limiter) (log : Log) (limit window t₀ : ℕ) (key : String) (t : ℕ)
    → l.limit ≡ limit
    → l.window ≡ window
    → 0 < limit
    → Simulates l log (t₀ - window)
    → t₀ ≤ t
    → ((allow l key t).1 ≡ spec limit window log key t)
      × Simulates (allow l key t).0 (logged log key t (spec limit window log key t)) (t - window)
allow_step l log limit window t₀ key t el ew pos s up =
    rw (← el, ← ew) (allow-Simulates l log (t₀ - window) key t (rw el pos) s (rw ew (omega arith)))

-- Calls at instants that do not run back, from `t₀` up to `now`.
abbrev pub IsAscending : ℕ → Log → ℕ → Type 0
IsAscending t₀ [] now = t₀ ≤ now
IsAscending t₀ ((key, t) ∷ calls) now = (t₀ ≤ t) × IsAscending t calls now

unfoldable pub decisions : Limiter → Log → List Decision
decisions l [] = []
decisions l ((key, now) ∷ calls) = let (l', d) = allow l key now in d ∷ decisions l' calls

unfoldable pub spec_decisions : ℕ → ℕ → Log → Log → List Decision
spec_decisions limit window log [] = []
spec_decisions limit window log ((key, now) ∷ calls) =
    let d = spec limit window log key now in
    d ∷ spec_decisions limit window (logged log key now d) calls

decisions_enabled :
    (l : Limiter) (log : Log) (limit window t₀ : ℕ) (calls : Log) (last : ℕ)
    → l.limit ≡ limit
    → l.window ≡ window
    → 0 < limit
    → Simulates l log (t₀ - window)
    → IsAscending t₀ calls last
    → decisions l calls ≡ spec_decisions limit window log calls
unfolding decisions spec_decisions
decisions_enabled l log limit window t₀ [] last el ew pos s up = refl
decisions_enabled l log limit window t₀ ((key, t) ∷ calls) last el ew pos s up = rw (← step.0) (
    ap (◌∷◌ (allow l key t).1) (
      decisions_enabled (allow l key t).0 (logged log key t (allow l key t).1) limit window t calls
        last ((allow-config l key t).0 ∙ el) ((allow-config l key t).1 ∙ ew) pos (rw step.0 step.1)
        up.1))
  where
    step :
        ((allow l key t).1 ≡ spec limit window log key t)
        × Simulates (allow l key t).0 (logged log key t (spec limit window log key t)) (t - window)
    step = allow_step l log limit window t₀ key t el ew pos s up.0

allow_disabled : (l : Limiter) (key : String) (t : ℕ) → l.limit ≡ 0 → allow l key t ≡ (l, admitted)
unfolding allow
allow_disabled l key t e = let off : (l.limit == 0) ≡ true = ground arith in rw off

decisions_disabled :
    (l : Limiter) (log : Log) (window : ℕ) (calls : Log)
    → l.limit ≡ 0
    → decisions l calls ≡ spec_decisions 0 window log calls
unfolding decisions spec_decisions
decisions_disabled l log window [] e = refl
decisions_disabled l log window ((key, t) ∷ calls) e =
    rw (allow_disabled l key t e)
      (ap (◌∷◌ admitted) (decisions_disabled l (log ++ (key, t) ∷ []) window calls e))

-- From a new limiter, under a clock that does not run back, every call decides (and says how long
-- to wait) as the specification does on the log of all events admitted before it: pruning and the
-- periodic sweep are not observable. A limit of 0 admits everything.
pub decisions-refine :
    (limit window : ℕ) (calls : Log) (last : ℕ)
    → IsAscending 0 calls last
    → decisions (new limit window) calls ≡ spec_decisions limit window [] calls
unfolding new
decisions-refine zero window calls last up = decisions_disabled _ [] window calls refl
decisions-refine (suc limit) window calls last up =
    decisions_enabled _ [] (suc limit) window 0 calls last refl refl (omega arith)
      (new-Simulates (suc limit) window _) up
