-- ===== src/Ratex.antt =====
-- The in-memory sliding-window limiter (pkg/ratex/ratex.go) and its `Allower` interface.
-- Instants and durations are nanoseconds, instants counted from Go's zero time; `now - window` is
-- therefore the source's cutoff wherever `window ≤ now`. A limit of 0 stands for every limit that
-- is not positive. A Limiter's `mu` makes each call one step.
pub mod Window
pub mod Refinement
pub mod Throttle
mod Tests
use x_auth_site.Base.{
  ℕ, zero, suc, ◌+◌, ◌-◌, ◌%◌, ◌/◌, String, Bool, true, false, not, ◌&&◌, Option, none, some, List,
  [], ◌∷◌, ◌++◌, ltb, leb, ◌==◌, if◌then◌else◌, length, keep, any, str_eq,
}
use x_auth_site.Base.Dict.{Dict, lookup, insert, keep_if}

pub record Decision : Type 0 where
  pub ok : Bool
  pub retry_after : ℕ

abbrev pub admitted : Decision
admitted = record { ok = true; retry_after = 0 }

-- The interface: `allow` records an event for a key at an instant and decides.
pub record Allower : Type 1 where
  pub State : Type 0
  pub allow : State → String → ℕ → State × Decision

pub record Limiter : Type 0 where
  pub limit : ℕ
  pub window : ℕ
  pub hits : Dict (List ℕ)
  pub calls : ℕ

abbrev pub sweep_every : ℕ
sweep_every = 4096

unfoldable pub new : ℕ → ℕ → Limiter
new limit window = record { limit = limit; window = window; hits = []; calls = 0 }

-- `t.After(cutoff)`
abbrev pub after : ℕ → ℕ → Bool
after cutoff t = ltb cutoff t

-- A read of a missing key of `hits` gives the nil slice.
abbrev pub hits_at : Option (List ℕ) → List ℕ
hits_at none = []
hits_at (some ts) = ts

unfoldable pub sweep_locked : ℕ → Dict (List ℕ) → Dict (List ℕ)
sweep_locked cutoff hits = keep_if (any (after cutoff)) hits

-- `window[0].Sub(cutoff)`: read only when the window is full, and a full window is not empty.
abbrev pub until_oldest : ℕ → List ℕ → ℕ
until_oldest cutoff [] = 0
until_oldest cutoff (t ∷ ts) = t - cutoff

-- The part of `Allow` below the sweep, on the swept map.
abbrev pub decide : Limiter → Dict (List ℕ) → String → ℕ → ℕ → List ℕ → Limiter × Decision
decide l swept key now cutoff window =
    if leb l.limit (length window)
    then (
      record l { hits = insert key window swept; calls = suc l.calls },
      record { ok = false; retry_after = until_oldest cutoff window },
    )
    else (record l { hits = insert key (window ++ now ∷ []) swept; calls = suc l.calls }, admitted)

abbrev pub swept_hits : Limiter → ℕ → Dict (List ℕ)
swept_hits l cutoff = if suc l.calls % sweep_every == 0 then sweep_locked cutoff l.hits else l.hits

unfoldable pub allow : Limiter → String → ℕ → Limiter × Decision
allow l key now =
    if l.limit == 0
    then (l, admitted)
    else decide l (swept_hits l (now - l.window)) key now (now - l.window)
        (keep (after (now - l.window)) (hits_at (lookup key (swept_hits l (now - l.window)))))

abbrev pub in_memory : Allower
in_memory = record { State = Limiter; allow = allow }

pub data Reply : Type 0 where
  served : Reply
  rate_limited : ℕ → Reply

-- `Middleware` for one request whose `keyFn` gives the key; the number is the Retry-After header.
unfoldable pub middleware : (A : Allower) → Option A.State → String → ℕ → Option A.State × Reply
middleware A none key now = (none, served)
middleware A (some s) key now =
    let (s', d) = A.allow s key now in
    if str_eq key ""
    then (some s, served)
    else (some s', if d.ok then served else rate_limited (d.retry_after / 1_000_000_000 + 1))
