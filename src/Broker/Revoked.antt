-- ===== src/Broker/Revoked.antt =====
-- A revoked install stays revoked, and its refresh tokens get no tokens (`Revoke` of install.go,
-- `handleRefreshGrant` of oidc.go).
use mathlib.Core.Path.{subst}
use x_auth_site.Base.{
  ◌≡◌, refl, sym, ap, ◌∙◌, ◌≢◌, ◌⊎◌, inl, inr, String, true, false, Option, none, some, some_inj,
  arith, str_eq, str_eq_iff, str_eq_refl, Bool-cases,
}
use x_auth_site.Base.Dict.{Dict, lookup, insert}
use x_auth_site.Base.Dict.Laws.{lookup-insert}
use x_auth_site.Broker.Store.{
  pending, Install, InstallStatus, active, revoked, TokenRecord, owned_install, get_install,
  get_token_by_refresh, update_install, new_mem_storage,
}
use x_auth_site.Broker.Clients.{Clients}
use x_auth_site.Broker.Calls.{
  revocation, mark_install_revoked, Broker, Call, Reply, Settings, is_revoked,
}
use x_auth_site.Broker.Refresh.{handle_refresh_grant}
use x_auth_site.Broker.Endpoints.{
  invalid_id, revoke_install_found, handle_revoke_install, no_content,
}
use x_auth_site.Broker.Effects.{IsError}
use x_auth_site.Broker.Effects.Refreshes.{
  RefreshEffect, kept, replayed, rotated, handle_refresh_grant-RefreshEffect,
}
use x_auth_site.Broker.Runs.{Surroundings, Run, Run_invariant}
use x_auth_site.Broker.Runs.Installs.{InstallChange, same_installs, stored, step-InstallChange}
use x_auth_site.Broker.Replay.{Avoids, Any, new_broker}

-- The install stored under the id is revoked.
abbrev pub IsRevokedIn : String → Dict Install → Type 0
IsRevokedIn id m = (i : Install) × (lookup id m ≡ some i) × (i.status ≡ revoked)

-- Installs are stored under their ids.
abbrev pub IsFiled : Dict Install → Type 0
IsFiled m = (k : String) (i : Install) → lookup k m ≡ some i → i.id ≡ k

insert-IsRevokedIn :
    (fresh : Option String) (id : String) (i : Install) (m : Dict Install)
    → fresh ≢ some id
    → (fresh ≡ some i.id) ⊎ (i.status ≡ revoked)
    → IsRevokedIn id m
    → IsRevokedIn id (insert i.id i m)
insert-IsRevokedIn fresh id i m avoids h (j, found, dead) = elim (Bool-cases (str_eq i.id id)) [
  | inl same ↦ elim h [
    | inl new ↦ absurd (avoids (new ∙ ap some ((str_eq_iff i.id id).0 same)))
    | inr gone ↦ (i, lookup-insert i.id id i m ∙ rw same refl, gone)
  ]
  | inr other ↦ (j, lookup-insert i.id id i m ∙ rw other found, dead)
]

change-IsRevokedIn :
    (fresh : Option String) (id : String) (m m' : Dict Install)
    → fresh ≢ some id
    → InstallChange fresh m m'
    → IsRevokedIn id m
    → IsRevokedIn id m'
change-IsRevokedIn fresh id m _ avoids same_installs r = r
change-IsRevokedIn fresh id m _ avoids (stored {m' = m'} i h change) r =
    insert-IsRevokedIn fresh id i m' avoids h (change-IsRevokedIn fresh id m m' avoids change r)

change-IsFiled :
    (fresh : Option String) (m m' : Dict Install)
    → InstallChange fresh m m'
    → IsFiled m
    → IsFiled m'
change-IsFiled fresh m _ same_installs filed = filed
change-IsFiled fresh m _ (stored {m' = m'} i h change) filed = λ k j found.
    elim (Bool-cases (str_eq i.id k)) [
      | inl same ↦
          let is_i : some i ≡ some j = sym (lookup-insert i.id k i m' ∙ rw same refl) ∙ found in
          ap (λ x. x.id) (sym (some_inj is_i)) ∙ (str_eq_iff i.id k).0 same
      | inr other ↦
          change-IsFiled fresh m m' change filed k j
            (sym (lookup-insert i.id k i m' ∙ rw other refl) ∙ found)
    ]

active_or_revoked : active ≢ revoked
active_or_revoked e = ground (arith, ap is_revoked e)

revoked_status : (s : InstallStatus) → is_revoked s ≡ true → s ≡ revoked
revoked_status pending e = ground arith
revoked_status active e = ground arith
revoked_status revoked e = refl

owned-lookup :
    (tenant : String) (found : Option Install) (i : Install)
    → owned_install tenant found ≡ some i
    → found ≡ some i
owned-lookup tenant found i e = ground arith

module _ {M : Type 0} (C : Clients) (o : Settings) (b : Broker M C.State) where
  refresh-IsError :
      (presented client : String) (q : Call) (rec : TokenRecord) (out : Broker M C.State × Reply)
      → get_token_by_refresh b.store presented ≡ some rec
      → IsRevokedIn rec.install_id b.store.installs
      → RefreshEffect C o b presented client q out
      → IsError out.1
  unfolding get_install
  refresh-IsError presented client q rec _ found dead (kept x) = x
  refresh-IsError presented client q rec _ found dead (replayed rec' x y _) = tt
  refresh-IsError presented client q rec _ found dead (rotated rec' i p access x y z w v u) =
      let (j, stored_j, dead_j) =
        subst (λ r. IsRevokedIn r.install_id b.store.installs) (some_inj (sym found ∙ x)) dead in
      let stored_i = owned-lookup rec'.tenant_id (lookup rec'.install_id b.store.installs) i z in
      active_or_revoked (sym w ∙ ap (λ i. i.status) (some_inj (sym stored_i ∙ stored_j)) ∙ dead_j)

module _ {M : Type 0} (C : Clients) (o : Surroundings) where
  marked-IsRevokedIn :
      (b : Broker M C.State) (i : Install) (tenant id : String) (q : Call)
      → IsFiled b.store.installs
      → owned_install tenant (lookup id b.store.installs) ≡ some i
      → IsRevokedIn id (mark_install_revoked b i q).store.installs
  unfolding update_install
  marked-IsRevokedIn b i tenant id q filed found =
      let stored_i = owned-lookup tenant (lookup id b.store.installs) i found in
      let here = filed id i stored_i in
      let at_id : lookup i.id b.store.installs ≡ some i =
        ap (λ k. lookup k b.store.installs) here ∙ stored_i in
      let own : owned_install i.tenant_id (lookup i.id b.store.installs) ≡ some i =
        rw (at_id, str_eq_refl i.tenant_id) refl in
      let marked : Install = record i { status = revoked; updated_at = q.clock revocation } in
      let kept : lookup id (insert i.id marked b.store.installs) ≡ some marked =
        lookup-insert i.id id marked b.store.installs ∙ rw ((str_eq_iff i.id id).1 here) refl in
      (marked, rw own kept, refl)

  blank_answer :
      (b : Broker M C.State) (tenant id : String) (q : Call)
      → str_eq id "" ≡ true
      → (handle_revoke_install C b (some tenant) id q).1 ≢ no_content
  unfolding handle_revoke_install
  blank_answer b tenant id q blank e =
      let invalid : (handle_revoke_install C b (some tenant) id q).1 ≡ invalid_id = rw blank refl in
      ground (arith, sym invalid ∙ e)

  revoke_install_branch :
      (b : Broker M C.State) (tenant id : String) (q : Call)
      → str_eq id "" ≡ false
      → handle_revoke_install C b (some tenant) id q
        ≡ revoke_install_found C b tenant id q (owned_install tenant (lookup id b.store.installs))
  unfolding handle_revoke_install get_install
  revoke_install_branch b tenant id q some_id = rw some_id refl

  found-IsRevokedIn :
      (b : Broker M C.State) (tenant id : String) (q : Call) (i : Option Install)
      → IsFiled b.store.installs
      → owned_install tenant (lookup id b.store.installs) ≡ i
      → (revoke_install_found C b tenant id q i).1 ≡ no_content
      → IsRevokedIn id (revoke_install_found C b tenant id q i).0.store.installs
  found-IsRevokedIn b tenant id q none filed found e = ground arith
  found-IsRevokedIn b tenant id q (some i) filed found e = elim (Bool-cases (is_revoked i.status)) [
    | inl dead ↦
        rw dead (
          i,
          owned-lookup tenant (lookup id b.store.installs) i found,
          revoked_status i.status dead,
        )
    | inr living ↦ rw living (marked-IsRevokedIn b i tenant id q filed found)
  ]

  handle_revoke_install-IsRevokedIn :
      (b : Broker M C.State) (tenant id : String) (q : Call)
      → IsFiled b.store.installs
      → (handle_revoke_install C b (some tenant) id q).1 ≡ no_content
      → IsRevokedIn id (handle_revoke_install C b (some tenant) id q).0.store.installs
  handle_revoke_install-IsRevokedIn b tenant id q filed e = elim (Bool-cases (str_eq id "")) [
    | inl blank ↦ absurd (blank_answer b tenant id q blank e)
    | inr some_id ↦
        let branch = revoke_install_branch b tenant id q some_id in
        subst (λ x. IsRevokedIn id x.0.store.installs) (sym branch)
          (found-IsRevokedIn b tenant id q _ filed refl (ap (λ x. x.1) (sym branch) ∙ e))
  ]

  Run-IsFiled :
      (b b' : Broker M C.State)
      → Run C o Any b b'
      → IsFiled b.store.installs
      → IsFiled b'.store.installs
  Run-IsFiled b b' =
      Run_invariant C o Any (λ b. IsFiled b.store.installs)
        (λ b r _ filed. change-IsFiled _ b.store.installs _ (step-InstallChange C o b r) filed) b b'

  -- In a broker reached from an empty storage: when the revocation of an install answers 204, then after
  -- it and any run of requests and sweeps that does not give the id to a new install, the install is
  -- stored as revoked, and every refresh grant by one of its tokens is refused.
  pub revoked_install_final :
      (services : C.State) (b b' : Broker M C.State) (tenant id : String) (q : Call)
      → Run C o Any (new_broker services) b
      → (handle_revoke_install C b (some tenant) id q).1 ≡ no_content
      → Run C o (Avoids id) (handle_revoke_install C b (some tenant) id q).0 b'
      → IsRevokedIn id b'.store.installs
        × ((presented client : String) (q' : Call) (rec : TokenRecord)
            → get_token_by_refresh b'.store presented ≡ some rec
            → rec.install_id ≡ id
            → IsError (handle_refresh_grant C o.settings b' presented client q').1)
  unfolding new_mem_storage lookup
  revoked_install_final services b b' tenant id q reached answered run =
      let filed = Run-IsFiled (new_broker services) b reached (λ k i e. ground arith) in
      let final =
        Run_invariant C o (Avoids id) (λ b. IsRevokedIn id b.store.installs)
          (λ b r avoids dead.
            change-IsRevokedIn _ id b.store.installs _ avoids (step-InstallChange C o b r) dead)
          _ b' run (handle_revoke_install-IsRevokedIn b tenant id q filed answered) in
      (
        final,
        λ presented client q' rec found of_it.
            refresh-IsError C o.settings b' presented client q' rec _ found
              (subst (λ k. IsRevokedIn k b'.store.installs) (sym of_it) final)
              (handle_refresh_grant-RefreshEffect C o.settings b' presented client q'),
      )
