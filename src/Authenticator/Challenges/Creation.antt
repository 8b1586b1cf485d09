-- ===== src/Authenticator/Challenges/Creation.antt =====
-- What `Create` (challenges.go) leaves behind, on every branch.
use x_auth_site.Base.{
  ℕ, ◌+◌, ◌≡◌, refl, ap, inl, inr, String, Bool, true, false, not, ◌||◌, Option, none, some, List,
  any, length, leb, Bool-cases, Option-cases,
}
use x_auth_site.Ratex.{Allower}
use x_auth_site.Authenticator.Model.{
  Authenticator, Challenge, ChallengeRequest, pending, challenge_ttl, is_valid_method,
}
use x_auth_site.Authenticator.Lockout.{abuse_key, locked, allow_optional}
use x_auth_site.Authenticator.Store.{Store, put_challenge, list_active_authenticators}
use x_auth_site.Authenticator.Store.Laws.{write}
use x_auth_site.Authenticator.Select.{select_authenticator}
use x_auth_site.Authenticator.Challenges.{
  Adapter, Service, Reading, lock_check, rate_check, creation, Reply, created, create,
  create_selected, dispatch_result, DispatchOutcome, dispatched, dispatch_error, no_credential,
  invalid_number, new_challenge, addressed,
}

abbrev pub is_created : Reply → Bool
is_created (created _) = true
is_created _ = false

module _ {J : Type 0} (A : Allower) (registry : String → Option (Adapter J)) where
  -- A challenge as it is created: for the selected authenticator, pending, untried, with its full time.
  pub record IsFresh (s : Service J A.State) (now : ℕ) (tenant id : String) (req : ChallengeRequest)
      (c : Challenge) : Type 0 where
    pub same_id : c.id ≡ id
    pub same_tenant : c.tenant_id ≡ tenant
    pub same_user : c.user_id ≡ req.user_id
    pub is_open : c.status ≡ pending
    pub untried : c.attempts ≡ 0
    pub not_done : c.completed_at ≡ none
    pub lifetime : c.expires_at ≡ now + challenge_ttl
    pub authenticator : Authenticator J
    pub selected :
        select_authenticator req.methods (list_active_authenticators s.store tenant req.user_id)
        ≡ some (c.method, authenticator)
    pub assigned : c.authenticator_id ≡ authenticator.id

  pub data CreateSpec (s : Service J A.State) (now : ℕ) (tenant id : String)
      (req : ChallengeRequest) (t : Store J) (r : Reply) : Type 0 where
    declined : t ≡ s.store → is_created r ≡ false → CreateSpec s now tenant id req t r
    made :
        (c : Challenge)
        → IsFresh s now tenant id req c
        → t ≡ write s.store id c
        → r ≡ created c
        → CreateSpec s now tenant id req t r

  module _ (s : Service J A.State) (now : ℕ) (tenant id : String) (req : ChallengeRequest) where
    abbrev Spec : Service J A.State × Reply → Type 0
    Spec (u, r) = CreateSpec s now tenant id req u.store r

    abbrev made_challenge : String → Authenticator J → String → String → List ℕ → Challenge
    made_challenge method authr prompt options session =
        addressed (new_challenge id tenant req.user_id method authr.id now) prompt options session

    dispatch-Spec :
        (u : Service J A.State) (method : String) (authr : Authenticator J) (o : DispatchOutcome)
        → u.store ≡ s.store
        → select_authenticator req.methods (list_active_authenticators s.store tenant req.user_id)
          ≡ some (method, authr)
        → Spec (
            dispatch_result A registry u
              (new_challenge id tenant req.user_id method authr.id now)
              o)
    unfolding put_challenge
    dispatch-Spec u method authr no_credential e sel = declined e refl
    dispatch-Spec u method authr invalid_number e sel = declined e refl
    dispatch-Spec u method authr dispatch_error e sel = declined e refl
    dispatch-Spec u method authr (dispatched prompt options session) e sel =
        made (made_challenge method authr prompt options session)
          (record {
            same_id = refl;
            same_tenant = refl;
            same_user = refl;
            is_open = refl;
            untried = refl;
            not_done = refl;
            lifetime = refl;
            authenticator = authr;
            selected = sel;
            assigned = refl;
          })
          (ap (λ st. put_challenge st (made_challenge method authr prompt options session)) e) refl

    selected-Spec :
        (u : Service J A.State)
        → u.store ≡ s.store
        → Spec (
            create_selected A registry u now tenant req.user_id id (
              select_authenticator req.methods
                (list_active_authenticators s.store tenant req.user_id)))
    selected-Spec u e = go _ refl
      where
        go :
            (o : Option (String × Authenticator J))
            → select_authenticator req.methods
                (list_active_authenticators s.store tenant req.user_id)
              ≡ o
            → Spec (create_selected A registry u now tenant req.user_id id o)
        go none sel = declined e refl
        go (some (method, authr)) sel = elim (Option-cases (registry method)) [
          | inl unknown ↦ rw unknown (declined e refl)
          | inr (adapter, known) ↦ rw known (dispatch-Spec u method authr _ e sel)
        ]

  -- On every branch of `Create`: either no challenge is created and no stored challenge changes, or
  -- the reply is a challenge that is stored under the fresh id, pending, untried and due at its full
  -- time, for the caller's tenant and the named user, by the method and the authenticator that the
  -- selection picks among the user's active ones.
  pub create-CreateSpec :
      (is_blank : String → Bool) (s : Service J A.State) (clock : Reading → ℕ) (tenant id : String)
      (req : ChallengeRequest)
      → CreateSpec s
          (clock creation)
          tenant
          id
          req
          (create A registry is_blank s clock (some tenant) id (some req)).0.store
          (create A registry is_blank s clock (some tenant) id (some req)).1
  unfolding create
  create-CreateSpec is_blank s clock tenant id req =
      elim (Bool-cases (
        is_blank req.user_id
        || (leb (length req.methods) 0 || any (λ m. not (is_valid_method m)) req.methods))) [
          | inl bad ↦ rw bad (declined refl refl)
          | inr good ↦
              rw good
                (elim (Bool-cases
                  (locked s.lockout (abuse_key tenant req.user_id)
                    (clock lock_check)).1.is_locked) [
                      | inl held ↦ rw held (declined refl refl)
                      | inr free ↦
                          rw free
                            (elim (Bool-cases
                              (allow_optional A s.challenge_create (abuse_key tenant req.user_id)
                                (clock rate_check)).1.ok) [
                                  | inr over ↦ rw over (declined refl refl)
                                  | inl room ↦ rw room (
                                      selected-Spec s (clock creation) tenant id req
                                        (record s {
                                          challenge_create =
                                              (allow_optional A s.challenge_create
                                                (abuse_key tenant req.user_id)
                                                (clock rate_check)).0;
                                          lockout =
                                              (locked s.lockout (abuse_key tenant req.user_id)
                                                (clock lock_check)).0;
                                        })
                                        refl)
                                ])
                    ])
        ]
