-- ===== src/Broker/Replay.antt =====
-- Rotation of refresh tokens over whole runs of the broker (`handleRefreshGrant` and
-- `revokeInstallForReplay` of oidc.go).
use x_auth_site.Base.{
  ◌≡◌, refl, sym, ap, ◌∙◌, ◌≢◌, inl, inr, String, Bool, true, false, not, Option, none, some,
  is_some, arith, str_eq, str_eq_iff, Bool-cases, [],
}
use mathlib.Core.Path.{subst}
use x_auth_site.Base.Dict.{lookup, guarded}
use x_auth_site.Base.Dict.Laws.{lookup-keep_if}
use x_auth_site.Broker.Store.{
  TokenRecord, MemStorage, get_token_by_refresh, new_mem_storage, of_install,
}
use x_auth_site.Broker.Clients.{Clients}
use x_auth_site.Broker.Calls.{Broker, Call, invalid_grant}
use x_auth_site.Broker.Refresh.{handle_refresh_grant, revoke_install_for_replay}
use x_auth_site.Broker.Runs.{Request, Surroundings, Run, Run_invariant, new_install_id, step}
use x_auth_site.Broker.Runs.Tokens.{dropped, step-TokenChange, revoke_install_for_replay-tokens}
use x_auth_site.Broker.Families.{TokensFit, OneLive, IsEnded}
use x_auth_site.Broker.Families.Origin.{change-origin}
use x_auth_site.Broker.Families.Rotation.{change-TokensFit, change-OneLive}

abbrev pub new_broker : {M S : Type 0} → S → Broker M S
new_broker services = record { store = new_mem_storage; services = services }

-- Every request.
abbrev pub Any : {M S : Type 0} → Broker M S → Request M → Type 0
Any b r = Unit

-- A request that gives a new install, if it makes one, an id that no stored token has.
abbrev pub NewIdsUnused : {M S : Type 0} → Broker M S → Request M → Type 0
NewIdsUnused b r = (id : String) → new_install_id r ≡ some id → IsEnded id b.store.tokens

-- A request that does not give the id to a new install.
abbrev pub Avoids : {M S : Type 0} → String → Broker M S → Request M → Type 0
Avoids id b r = new_install_id r ≢ some id

pub none_stored-TokensFit : TokensFit []
unfolding lookup
none_stored-TokensFit = record { distinct = tt; keyed = λ k t e. ground arith }

none_stored-OneLive : OneLive []
unfolding lookup
none_stored-OneLive a a' t t' l l' same = ground (arith, l.stored)

pub refreshed_nonblank :
    {M : Type 0} (s : MemStorage M) (presented : String) (t : TokenRecord)
    → get_token_by_refresh s presented ≡ some t
    → str_eq presented "" ≡ false
unfolding get_token_by_refresh
refreshed_nonblank s presented t found = elim (Bool-cases (str_eq presented "")) [
  | inl blank ↦ ground arith
  | inr some_token ↦ some_token
]

pub guarded-fits :
    (p : TokenRecord → Bool) (o : Option TokenRecord) (t : TokenRecord)
    → guarded p o ≡ some t
    → p t ≡ true
guarded-fits p o t e = ground arith

module _ {M : Type 0} (C : Clients) (o : Surroundings) where
  pub Run-TokensFit :
      (Allowed : Broker M C.State → Request M → Type 0) (b b' : Broker M C.State)
      → Run C o Allowed b b'
      → TokensFit b.store.tokens
      → TokensFit b'.store.tokens
  Run-TokensFit Allowed b b' =
      Run_invariant C o Allowed (λ b. TokensFit b.store.tokens)
        (λ b r _ fit. change-TokensFit _ b.store _ fit (step-TokenChange C o b r)) b b'

  -- From an empty storage, over any run of requests and sweeps, each of them one step, whose new
  -- installs get ids that no stored token has, an install has one unrotated token at most.
  pub Run-OneLive :
      (services : C.State) (b : Broker M C.State)
      → Run C o NewIdsUnused (new_broker services) b
      → OneLive b.store.tokens
  unfolding new_mem_storage
  Run-OneLive services b run =
      (Run_invariant C o NewIdsUnused (λ b. TokensFit b.store.tokens × OneLive b.store.tokens)
        (λ b r unused kept.
          let change = step-TokenChange C o b r in
          (
            change-TokensFit _ b.store _ kept.0 change,
            change-OneLive _ b.store _ kept.0 unused change kept.1,
          ))
        (new_broker services) b run (none_stored-TokensFit, none_stored-OneLive)).1

  step-IsEnded :
      (id : String) (b : Broker M C.State) (r : Request M)
      → Avoids id b r
      → TokensFit b.store.tokens
      → IsEnded id b.store.tokens
      → IsEnded id (step C o b r).store.tokens
  step-IsEnded id b r avoids fit ended a t stored =
      elim (change-origin _ b.store _ a t fit (step-TokenChange C o b r) stored) [
        | inl new ↦ λ same. avoids (new ∙ ap some same)
        | inr (k, old, kept, family) ↦ λ same. ended k old kept (sym family ∙ same)
      ]

  pub replayed-IsEnded :
      (b : Broker M C.State) (rec : TokenRecord) (q : Call)
      → TokensFit b.store.tokens
      → IsEnded rec.install_id (revoke_install_for_replay C o.settings b rec q).store.tokens
  replayed-IsEnded b rec q fit a t stored =
      let others = λ (t : TokenRecord). not (of_install rec.install_id t) in
      let kept : guarded others (lookup a b.store.tokens) ≡ some t =
        sym (lookup-keep_if others a b.store.tokens fit.distinct)
        ∙ ap (lookup a) (sym (revoke_install_for_replay-tokens C o b rec q))
        ∙ stored in
      ground (
        arith,
        guarded-fits others (lookup a b.store.tokens) t kept,
        str_eq_iff t.install_id rec.install_id,
      )

  pub replay_branch :
      (b : Broker M C.State) (presented client : String) (q : Call) (rec : TokenRecord)
      → get_token_by_refresh b.store presented ≡ some rec
      → is_some rec.rotated_at ≡ true
      → handle_refresh_grant C o.settings b presented client q
        ≡ (revoke_install_for_replay C o.settings b rec q, invalid_grant)
  unfolding handle_refresh_grant
  replay_branch b presented client q rec found again =
      rw (refreshed_nonblank b.store presented rec found, found, again) refl

  replayed-TokensFit :
      (b : Broker M C.State) (rec : TokenRecord) (q : Call)
      → TokensFit b.store.tokens
      → TokensFit (revoke_install_for_replay C o.settings b rec q).store.tokens
  replayed-TokensFit b rec q fit =
      change-TokensFit none b.store _ fit (rw revoke_install_for_replay-tokens (dropped _))

  -- In a broker reached from an empty storage, a refresh grant that presents a rotated token is refused,
  -- and after any run whose new installs do not get the id of that token's install, no token of the
  -- install is stored: no refresh grant, by whatever token of the family, answers with tokens.
  pub replay_ends_family :
      (services : C.State) (b b' : Broker M C.State) (presented client : String) (q : Call)
      (rec : TokenRecord)
      → Run C o Any (new_broker services) b
      → get_token_by_refresh b.store presented ≡ some rec
      → is_some rec.rotated_at ≡ true
      → Run C o
          (Avoids rec.install_id)
          (handle_refresh_grant C o.settings b presented client q).0
          b'
      → ((handle_refresh_grant C o.settings b presented client q).1 ≡ invalid_grant)
        × IsEnded rec.install_id b'.store.tokens
  unfolding new_mem_storage
  replay_ends_family services b b' presented client q rec reached found again run =
      let fit = Run-TokensFit Any (new_broker services) b reached (none_stored-TokensFit) in
      let branch = replay_branch b presented client q rec found again in
      let after = revoke_install_for_replay C o.settings b rec q in
      let run' : Run C o (Avoids rec.install_id) after b' =
        subst (λ x. Run C o (Avoids rec.install_id) x.0 b') branch run in
      (
        ap (λ x. x.1) branch,
        (Run_invariant C o (Avoids rec.install_id)
            (λ b. TokensFit b.store.tokens × IsEnded rec.install_id b.store.tokens)
            (λ b r avoids kept. (
              change-TokensFit _ b.store _ kept.0 (step-TokenChange C o b r),
              step-IsEnded rec.install_id b r avoids kept.0 kept.1,
            ))
            after b' run' (replayed-TokensFit b rec q fit, replayed-IsEnded b rec q fit)).1,
      )
