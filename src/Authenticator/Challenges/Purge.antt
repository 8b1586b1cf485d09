-- ===== src/Authenticator/Challenges/Purge.antt =====
-- The purge (storage.go) against `Verify` (challenges.go): nothing that could still be answered is lost.
use mathlib.Core.Path.{subst}
use x_auth_site.Base.{
  ℕ, ◌≤◌, ◌<◌, ◌≡◌, sym, ap, ◌∙◌, inl, inr, String, Bool, true, false, Option, none, some, arith,
  str_eq, str_eq_iff, Bool-cases, some_inj,
}
use x_auth_site.Base.Dict.{lookup}
use x_auth_site.Ratex.{Allower}
use x_auth_site.Authenticator.Model.{Challenge, pending}
use x_auth_site.Authenticator.Store.{Store, get_challenge, is_stale}
use x_auth_site.Authenticator.Store.Laws.{IsValid, owned}
use x_auth_site.Authenticator.Challenges.{Adapter, Service, Reply, expiry_check}
use x_auth_site.Authenticator.Challenges.Lifecycle.{
  verdict, Admitted, VerifySpec, refused, lapsed, accepted, rejected, verify-VerifySpec,
}
use x_auth_site.Authenticator.Challenges.Safety.{Request, serve}
use x_auth_site.Authenticator.Challenges.Guesses.{about}

stale_late :
    (c : Challenge) (now : ℕ) → is_stale now c ≡ true → c.status ≡ pending → c.expires_at ≤ now
stale_late c now h e = ground arith

module _ {J : Type 0} (A : Allower) (registry : String → Option (Adapter J)) where
  stored_once :
      (s : Service J A.State) (q : Request J) (id : String) (c d : Challenge)
      → get_challenge s.store q.tenant q.id ≡ some d
      → lookup id s.store.challenges ≡ some c
      → str_eq q.id id ≡ true
      → d ≡ c
  stored_once s q id c d mine there same = some_inj (
      sym (owned s.store q.tenant q.id d mine).0
      ∙ ap (λ k. lookup k s.store.challenges) ((str_eq_iff q.id id).0 same)
      ∙ there)

  stale_not-Admitted :
      (s : Service J A.State) (q : Request J) (c d : Challenge) (now : ℕ) (passed : Bool)
      → Admitted A registry s q.clock q.tenant q.response d passed
      → d ≡ c
      → is_stale now c ≡ true
      → now ≤ q.clock expiry_check
      → ⊥
  stale_not-Admitted s q c d now passed a same stale le =
      let e : d.status ≡ pending = a.is_open in
      let early : q.clock expiry_check < d.expires_at = a.in_time in
      let late = stale_late d now (subst (λ x. is_stale now x ≡ true) (sym same) stale) e in
      absurd (omega arith)

  stale_silent :
      (s : Service J A.State) (q : Request J) (id : String) (c : Challenge) (now : ℕ) {t : Store J}
      {r : Reply}
      → VerifySpec A registry s q.clock q.tenant q.id q.response t r
      → lookup id s.store.challenges ≡ some c
      → is_stale now c ≡ true
      → now ≤ q.clock expiry_check
      → about id q.id (verdict r) ≡ none
  stale_silent s q id c now (refused _ e) there stale le = rw e (ground arith)
  stale_silent s q id c now (lapsed d _ _ _ _ answer) there stale le = rw answer (ground arith)
  stale_silent s q id c now (accepted d mine a _ _) there stale le =
      elim (Bool-cases (str_eq q.id id)) [
        | inr other ↦ rw other
        | inl same ↦ absurd (
            stale_not-Admitted s q c d now true a (stored_once s q id c d mine there same) stale le)
      ]
  stale_silent s q id c now (rejected d mine a _ _) there stale le =
      elim (Bool-cases (str_eq q.id id)) [
        | inr other ↦ rw other
        | inl same ↦ absurd (
            stale_not-Admitted s q c d now false a (stored_once s q id c d mine there same) stale
              le)
      ]

  -- What the sweeper may delete at `now` can no longer be answered: a request that checks the expiry
  -- at `now` or later gets no verdict on a stale challenge, even if it is still stored.
  pub stale_unanswerable :
      (s : Service J A.State) (q : Request J) (id : String) (c : Challenge) (now : ℕ)
      → IsValid s.store
      → lookup id s.store.challenges ≡ some c
      → is_stale now c ≡ true
      → now ≤ q.clock expiry_check
      → about id q.id (verdict (serve A registry s q).1) ≡ none
  stale_unanswerable s q id c now v there stale le =
      stale_silent s q id c now (verify-VerifySpec A registry s q.clock q.tenant q.id q.response v)
        there stale le
