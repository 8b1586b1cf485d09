-- ===== src/Authenticator/Challenges/Stages/Whole.antt =====
-- The stages of `Verify` (challenges.go), run one after the other, are the handler as one step.
use x_auth_site.Base.{
  ◌≡◌, refl, inl, inr, String, Bool, true, false, Option, none, some, List, ltb, str_eq, Bool-cases,
}
use x_auth_site.Ratex.{Allower}
use x_auth_site.Authenticator.Model.{Challenge}
use x_auth_site.Authenticator.Lockout.{Lockout, LockStatus}
use x_auth_site.Authenticator.Backoff.{backoff_remaining}
use x_auth_site.Authenticator.Store.{
  Store, not_found, immutable_changed, Result, ok, err, get_challenge, is_pending,
}
use x_auth_site.Authenticator.Challenges.{
  Adapter, VerifyOutcome, answered, verify_error, Service, expiry_check, backoff_check, Reply,
  conclude, verify, verify_found, verify_checked, verify_unlocked, verify_adapter, verify_outcome,
}
use x_auth_site.Authenticator.Challenges.Safety.{Request, serve}
use x_auth_site.Authenticator.Challenges.Stages.{
  Stage, replied, first_found, first_stage, outcome_stage, adapter_stage, open_stage, lock_stage,
  write_stage, advance,
}

module _ {J : Type 0} (A : Allower) (registry : String → Option (Adapter J)) where
  -- Three stages more.
  abbrev pub finish : Service J A.State → Request J → Stage → Service J A.State × Stage
  finish s q st =
      let (s1, st1) = advance A registry s q st in
      let (s2, st2) = advance A registry s1 q st1 in advance A registry s2 q st2

  abbrev pub replied_with : Service J A.State × Reply → Service J A.State × Stage
  replied_with (s, r) = (s, replied r)

  module _ (s : Service J A.State) (q : Request J) (c : Challenge) where
    -- The write of an outcome and the count of a failure.
    settled_whole :
        (u : Service J A.State) (passed : Bool) (amr : List String)
        (out : Store J × Result Challenge)
        → (let (s2, st2) = write_stage A registry u c passed amr out in advance A registry s2 q st2)
          ≡ replied_with (conclude A registry u q.clock q.tenant c.user_id passed amr out)
    settled_whole u passed amr (store, err not_found) = refl
    settled_whole u passed amr (store, err immutable_changed) = refl
    settled_whole u true amr (store, ok updated) = refl
    settled_whole u false amr (store, ok updated) = refl

    abbrev rest : Service J A.State → Stage → Service J A.State × Stage
    rest u st = (let (s2, st2) = advance A registry u q st in advance A registry s2 q st2)

    adapter_whole :
        (u : Service J A.State) (a : Option (Adapter J))
        → rest u (adapter_stage A registry q c a)
          ≡ replied_with (verify_adapter A registry u q.clock q.tenant q.id q.response c a)
    adapter_whole u none = refl
    adapter_whole u (some a) = go (a.verify c q.response)
      where
        go :
            (v : VerifyOutcome)
            → rest u (outcome_stage A registry c v)
              ≡ replied_with (verify_outcome A registry u q.clock q.tenant q.id c v)
        go verify_error = refl
        go (answered passed amr) = settled_whole u passed amr _

    open_whole :
        (u : Service J A.State)
        → rest u (open_stage A registry q c)
          ≡ replied_with (verify_unlocked A registry u q.clock q.tenant q.id q.response c)
    open_whole u = elim (Bool-cases (is_pending c.status)) [
      | inr closed ↦ rw closed refl
      | inl still ↦ elim (Bool-cases (ltb (q.clock expiry_check) c.expires_at)) [
        | inr late ↦ rw (still, late) refl
        | inl early ↦ elim (Bool-cases (ltb 0 (backoff_remaining c (q.clock backoff_check)))) [
          | inl soon ↦ rw (still, early, soon) refl
          | inr waited ↦ rw (still, early, waited) (adapter_whole u (registry c.method))
        ]
      ]
    ]

    locked_whole :
        (out : Option (Lockout A.State) × LockStatus)
        → (let (s1, st1) = lock_stage A registry s q c out in rest s1 st1)
          ≡ replied_with (verify_checked A registry s q.clock q.tenant q.id q.response c out)
    locked_whole (lockout, status) = elim (Bool-cases status.is_locked) [
      | inl held ↦ rw held refl
      | inr free ↦ rw free (open_whole (record s { lockout = lockout }))
    ]

  -- A request whose stages run without others between them is the handler `verify`: the same service and
  -- the same reply.
  pub finish-verify :
      (s : Service J A.State) (q : Request J)
      → finish s q (first_stage A registry s q) ≡ replied_with (serve A registry s q)
  unfolding verify
  finish-verify s q = elim (Bool-cases (str_eq q.id "")) [
    | inl blank ↦ rw blank refl
    | inr named ↦ rw named (go (get_challenge s.store q.tenant q.id))
  ]
    where
      go :
          (o : Option Challenge)
          → finish s q (first_found A registry o)
            ≡ replied_with (verify_found A registry s q.clock q.tenant q.id q.response o)
      go none = refl
      go (some c) = locked_whole s q c _
