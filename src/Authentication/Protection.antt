-- ===== src/Authentication/Protection.antt =====
-- The protection levels and the assurance ledger of /authorize (protection.go). `mu` makes each operation
-- of the ledger one step; the clock is an argument. A ledger that is not wired is not modelled, and
-- `fields` is strings.Fields.
pub mod Ledger
pub mod Freshness
use x_auth_site.Base.{
  ℕ, ◌+◌, ◌*◌, String, Bool, true, false, not, ◌&&◌, ◌||◌, Option, none, some, List, [], ◌∷◌, ltb,
  leb, ◌==◌, if◌then◌else◌, str_eq,
}
use x_auth_site.Base.Dict.{Dict, lookup, insert, keep_if}

pub record ProtectionLevel : Type 0 where
  pub acr : String
  pub band : String
  pub name : String
  pub rank : ℕ
  pub method : String

abbrev pub protection_levels : List ProtectionLevel
protection_levels =
    record {
      acr = "urn:xauth:protect:high:protected";
      band = "high";
      name = "protected";
      rank = 1;
      method = "sms";
    }
    ∷ record {
      acr = "urn:xauth:protect:high:enhanced";
      band = "high";
      name = "enhanced";
      rank = 2;
      method = "sms";
    }
    ∷ record {
      acr = "urn:xauth:protect:high:restricted";
      band = "high";
      name = "restricted";
      rank = 3;
      method = "fido2";
    }
    ∷ record {
      acr = "urn:xauth:protect:high:strict";
      band = "high";
      name = "strict";
      rank = 4;
      method = "fido2";
    }
    ∷ record {
      acr = "urn:xauth:protect:ultra:protected";
      band = "ultra";
      name = "protected";
      rank = 5;
      method = "fido2";
    }
    ∷ record {
      acr = "urn:xauth:protect:ultra:enhanced";
      band = "ultra";
      name = "enhanced";
      rank = 6;
      method = "fido2";
    }
    ∷ record {
      acr = "urn:xauth:protect:ultra:restricted";
      band = "ultra";
      name = "restricted";
      rank = 7;
      method = "fido2";
    }
    ∷ record {
      acr = "urn:xauth:protect:ultra:strict";
      band = "ultra";
      name = "strict";
      rank = 8;
      method = "fido2";
    }
    ∷ []

abbrev pub level_in : List ProtectionLevel → String → Option ProtectionLevel
level_in [] acr = none
level_in (l ∷ ls) acr = if str_eq l.acr acr then some l else level_in ls acr

unfoldable pub protection_by_acr : String → Option ProtectionLevel
protection_by_acr acr = level_in protection_levels acr

abbrev pub first_level : List String → Option ProtectionLevel
first_level [] = none
first_level (want ∷ wants) =
    let rest = first_level wants in
    elim (level_in protection_levels want) [ none ↦ rest | some l ↦ some l ]

unfoldable pub match_protection : (String → List String) → String → Option ProtectionLevel
match_protection fields acr_values = first_level (fields acr_values)

-- In nanoseconds: five minutes.
abbrev pub default_step_up_freshness : ℕ
default_step_up_freshness = 300 * 1_000_000_000

pub record ProtAchieved : Type 0 where
  pub rank : ℕ
  pub at : ℕ

pub record ProtectionLedger : Type 0 where
  pub m : Dict ProtAchieved
  pub ttl : ℕ

unfoldable pub new_protection_ledger : ℕ → ProtectionLedger
new_protection_ledger ttl = record { m = []; ttl = ttl }

abbrev pub is_kept : ℕ → ℕ → ProtAchieved → Bool
is_kept ttl now e = leb now (e.at + ttl)

abbrev pub gc_locked : ProtectionLedger → ℕ → ProtectionLedger
gc_locked l now = record l { m = keep_if (is_kept l.ttl now) l.m }

-- The entry of a session that has none is the zero one.
abbrev pub rank_of : Option ProtAchieved → ℕ
rank_of none = 0
rank_of (some e) = e.rank

abbrev pub raised : ℕ → ℕ → ℕ
raised rank current = if ltb current rank then rank else current

unfoldable pub record_rank : ProtectionLedger → String → ℕ → ℕ → ProtectionLedger
record_rank l session rank now =
    if str_eq session ""
    then l
    else (let kept = gc_locked l now in
        record kept {
          m =
              insert session
                (record { rank = raised rank (rank_of (lookup session kept.m)); at = now }) kept.m;
        })

unfoldable pub achieved : ProtectionLedger → String → ℕ → ProtectionLedger × ℕ
achieved l session now =
    if str_eq session ""
    then (l, 0)
    else (gc_locked l now, rank_of (lookup session (gc_locked l now).m))

abbrev pub fresh_rank : ℕ → ℕ → Option ProtAchieved → ℕ
fresh_rank within now none = 0
fresh_rank within now (some e) = if within == 0 || ltb (e.at + within) now then 0 else e.rank

unfoldable pub achieved_within : ProtectionLedger → String → ℕ → ℕ → ProtectionLedger × ℕ
achieved_within l session within now =
    if str_eq session ""
    then (l, 0)
    else (gc_locked l now, fresh_rank within now (lookup session (gc_locked l now).m))

abbrev pub freshness_of : ℕ → ℕ
freshness_of configured = if configured == 0 then default_step_up_freshness else configured

-- With the ledger that the question leaves.
unfoldable pub protection_satisfied :
    ProtectionLedger → ℕ → ProtectionLevel → String → ℕ → ProtectionLedger × Bool
protection_satisfied l configured lvl session now =
    if str_eq session ""
    then (l, false)
    else (let (l', rank) = achieved_within l session (freshness_of configured) now in
        (l', leb lvl.rank rank))
