-- ===== src/Authentication/Protection/Ledger.antt =====
-- The step-ups behind the entries of the assurance ledger.
use mathlib.Core.Path.{subst}
use x_auth_site.Base.{
  ℕ, ◌+◌, ◌≤◌, ◌<◌, ◌≡◌, refl, sym, ◌∙◌, ◌⊎◌, inl, inr, String, true, false, ◌||◌, Option, none,
  some, some_inj, List, [], ◌∷◌, Among, arith, ltb, leb, ◌==◌, str_eq, str_eq_iff, Bool-cases,
  if◌then◌else◌,
}
use x_auth_site.Base.Dict.{IsDistinct, lookup, insert}
use x_auth_site.Base.Dict.Laws.{
  lookup-insert, lookup-keep_if, guarded-some, insert-IsDistinct, keep_if-IsDistinct,
}
use x_auth_site.Authentication.Protection.{
  ProtectionLevel, ProtAchieved, ProtectionLedger, new_protection_ledger, record_rank, gc_locked,
  is_kept, rank_of, raised, fresh_rank, freshness_of, achieved_within, protection_satisfied,
}

-- A verified step-up of a session.
pub record StepUp : Type 0 where
  pub session : String
  pub rank : ℕ
  pub at : ℕ

-- The ledger after the step-ups of a list, its head the latest.
abbrev pub after : ℕ → List StepUp → ProtectionLedger
after ttl [] = new_protection_ledger ttl
after ttl (u ∷ us) = record_rank (after ttl us) u.session u.rank u.at

-- What an entry of a session rests on.
pub record IsBacked (us : List StepUp) (session : String) (e : ProtAchieved) : Type 0 where
  pub strong : (u : StepUp) × Among u us × (u.session ≡ session) × (e.rank ≤ u.rank)
  pub latest : (u : StepUp) × Among u us × (u.session ≡ session) × (u.at ≡ e.at)

later-IsBacked :
    (u : StepUp) (us : List StepUp) (session : String) (e : ProtAchieved)
    → IsBacked us session e
    → IsBacked (u ∷ us) session e
later-IsBacked u us session e b =
    let (v, there, same, le) = b.strong in
    let (w, here, same', eq) = b.latest in
    record { strong = (v, inr there, same, le); latest = (w, inr here, same', eq) }

pub record_rank-IsDistinct :
    (l : ProtectionLedger) (session : String) (rank now : ℕ)
    → IsDistinct l.m
    → IsDistinct (record_rank l session rank now).m
unfolding record_rank
record_rank-IsDistinct l session rank now d = elim (Bool-cases (str_eq session "")) [
  | inl blank ↦ rw blank d
  | inr named ↦ rw named (
      insert-IsDistinct session _ (gc_locked l now).m
        (keep_if-IsDistinct (is_kept l.ttl now) l.m d))
]

pub after-IsDistinct : (ttl : ℕ) (us : List StepUp) → IsDistinct (after ttl us).m
unfolding new_protection_ledger
after-IsDistinct ttl [] = tt
after-IsDistinct ttl (u ∷ us) =
    record_rank-IsDistinct (after ttl us) u.session u.rank u.at (after-IsDistinct ttl us)

pub kept-lookup :
    (l : ProtectionLedger) (now : ℕ) (session : String) (e : ProtAchieved)
    → IsDistinct l.m
    → lookup session (gc_locked l now).m ≡ some e
    → lookup session l.m ≡ some e
kept-lookup l now session e d found =
    guarded-some (is_kept l.ttl now) (lookup session l.m) e
      (sym (lookup-keep_if (is_kept l.ttl now) session l.m d) ∙ found)

-- The entry that a step-up leaves for its session rests on it and what was there.
recorded-IsBacked :
    (u : StepUp) (us : List StepUp) (current : Option ProtAchieved)
    → ((e : ProtAchieved) → current ≡ some e → IsBacked us u.session e)
    → IsBacked (u ∷ us) u.session (record { rank = raised u.rank (rank_of current); at = u.at })
recorded-IsBacked u us none h = record {
  strong = (u, inl refl, refl, ground arith);
  latest = (u, inl refl, refl, refl);
}
recorded-IsBacked u us (some e) h = elim (Bool-cases (ltb e.rank u.rank)) [
  | inl more ↦ record {
    strong = (u, inl refl, refl, ground arith);
    latest = (u, inl refl, refl, refl);
  }
  | inr less ↦
      let (v, there, same, le) = (h e refl).strong in
      record { strong = (v, inr there, same, ground arith); latest = (u, inl refl, refl, refl) }
]

abbrev pub new_entry : ProtectionLedger → String → ℕ → ℕ → ProtAchieved
new_entry l session rank now = record {
  rank = raised rank (rank_of (lookup session (gc_locked l now).m));
  at = now;
}

-- An entry after a step-up was there before, or is the new one.
record_rank_cases :
    (l : ProtectionLedger) (session : String) (rank now : ℕ) (k : String) (e : ProtAchieved)
    → IsDistinct l.m
    → lookup k (record_rank l session rank now).m ≡ some e
    → (lookup k l.m ≡ some e) ⊎ ((session ≡ k) × (e ≡ new_entry l session rank now))
unfolding record_rank
record_rank_cases l session rank now k e d found = elim (Bool-cases (str_eq session "")) [
  | inl blank ↦ inl (rw blank at found)
  | inr named ↦
      let at_k : lookup k (insert session (new_entry l session rank now) (gc_locked l now).m)
          ≡ some e =
        rw named at found in
      elim (Bool-cases (str_eq session k)) [
        | inl same ↦
            let is_new : some (new_entry l session rank now) ≡ some e =
              sym (
                lookup-insert session k (new_entry l session rank now) (gc_locked l now).m
                ∙ rw same refl)
              ∙ at_k in
            inr ((str_eq_iff session k).0 same, sym (some_inj is_new))
        | inr other ↦
            let kept : lookup k (gc_locked l now).m ≡ some e =
              sym (
                lookup-insert session k (new_entry l session rank now) (gc_locked l now).m
                ∙ rw other refl)
              ∙ at_k in
            inl (kept-lookup l now k e d kept)
      ]
]

-- Every entry of the ledger rests on the step-ups.
pub after-IsBacked :
    (ttl : ℕ) (us : List StepUp) (session : String) (e : ProtAchieved)
    → lookup session (after ttl us).m ≡ some e
    → IsBacked us session e
unfolding new_protection_ledger lookup
after-IsBacked ttl [] session e found = absurd (cc found)
after-IsBacked ttl (u ∷ us) session e found =
    recorded_entry (after-IsDistinct ttl us) (after-IsBacked ttl us)
  where
    recorded_entry :
        IsDistinct (after ttl us).m
        → ((session : String) (e : ProtAchieved)
            → lookup session (after ttl us).m ≡ some e
            → IsBacked us session e)
        → IsBacked (u ∷ us) session e
    recorded_entry d before =
        elim (record_rank_cases (after ttl us) u.session u.rank u.at session e d found) [
          | inl older ↦ later-IsBacked u us session e (before session e older)
          | inr (same, is_new) ↦
              subst (λ x. IsBacked (u ∷ us) session x) (sym is_new)
                (subst (λ k. IsBacked (u ∷ us) k (new_entry (after ttl us) u.session u.rank u.at))
                  same
                  (recorded-IsBacked u us (lookup u.session (gc_locked (after ttl us) u.at).m)
                    (λ x kept.
                      before u.session x (kept-lookup (after ttl us) u.at u.session x d kept))))
        ]

pub fresh_rank-entry :
    (within now : ℕ) (o : Option ProtAchieved)
    → 0 < fresh_rank within now o
    → (e : ProtAchieved) × (o ≡ some e) × (fresh_rank within now o ≡ e.rank) × (now ≤ e.at + within)
fresh_rank-entry within now none positive = absurd (omega arith)
fresh_rank-entry within now (some e) positive =
    elim (Bool-cases (within == 0 || ltb (e.at + within) now)) [
      | inl stale ↦ absurd (stale_rank stale)
      | inr fresh ↦ (e, refl, rw fresh refl, ground arith)
    ]
  where
    stale_rank : (within == 0 || ltb (e.at + within) now) ≡ true → ⊥
    stale_rank stale =
        let zero_rank : fresh_rank within now (some e) ≡ 0 = rw stale refl in omega arith

pub satisfied_branch :
    (l : ProtectionLedger) (configured : ℕ) (lvl : ProtectionLevel) (session : String) (now : ℕ)
    → (protection_satisfied l configured lvl session now).1 ≡ (
        if str_eq session ""
        then false
        else leb lvl.rank
            (fresh_rank (freshness_of configured) now (lookup session (gc_locked l now).m)))
unfolding protection_satisfied achieved_within
satisfied_branch l configured lvl session now = elim (Bool-cases (str_eq session "")) [
  | inl blank ↦ rw blank refl
  | inr named ↦ rw named refl
]
