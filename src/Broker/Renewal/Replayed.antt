-- ===== src/Broker/Renewal/Replayed.antt =====
-- A refresh token is good for one exchange: its second use is a replay (`handleRefreshGrant` and
-- `revokeInstallForReplay` of oidc.go).
use x_auth_site.Base.{
  Among, ℕ, ◌≡◌, refl, sym, ap, ◌∙◌, ◌≢◌, inl, inr, String, true, none, some, is_some, str_eq,
  str_eq_iff, str_eq_ne, List, [], ◌∷◌,
}
use x_auth_site.Base.Dict.{IsDistinct, lookup, insert, values_where}
use x_auth_site.Base.Dict.Laws.{lookup-Among, lookup-insert_self, lookup-insert}
use x_auth_site.Broker.Store.{
  Install, TokenRecord, MemStorage, first_of, get_token_by_refresh, put_token,
}
use x_auth_site.Broker.Clients.{Clients, Persona}
use x_auth_site.Broker.Calls.{
  Broker, Call, invalid_grant, rotation, refresh, ttl_of, refresh_record,
}
use x_auth_site.Broker.Refresh.{handle_refresh_grant, revoke_install_for_replay}
use x_auth_site.Broker.Replay.{refreshed_nonblank, replay_branch, replayed-IsEnded}
use x_auth_site.Broker.Families.{TokensFit, IsEnded, first_of-lookup, lookup-insert_cases}
use x_auth_site.Broker.Families.Rotation.{insert-TokensFit}
use x_auth_site.Broker.Runs.{Surroundings}
use x_auth_site.Broker.Renewal.{IsRenewable, refresh_succeeds}
use mathlib.Core.Path.{subst}
use x_auth_site.Broker.Refresh.{revoke_install_for_replay}

pub Among-first_of :
    {A : Type 0} (a : A) (xs : List A) → Among a xs → (x : A) × (first_of xs ≡ some x)
Among-first_of a [] h = absurd h
Among-first_of a (x ∷ xs) h = (x, refl)

refreshed_text :
    {M : Type 0} (s : MemStorage M) (presented : String) (t : TokenRecord)
    → IsDistinct s.tokens
    → get_token_by_refresh s presented ≡ some t
    → str_eq t.refresh_token presented ≡ true
unfolding get_token_by_refresh
refreshed_text s presented t distinct found =
    let same = λ (t : TokenRecord). str_eq t.refresh_token presented in
    let first : first_of (values_where same s.tokens) ≡ some t =
      (rw (refreshed_nonblank s presented t found) refl) ∙ found in
    (first_of-lookup same s.tokens t distinct first).2

-- After the rotation of a token, its refresh token finds a rotated record of the same install.
rotated-found :
    {M : Type 0} (s : MemStorage M) (presented : String) (rec u : TokenRecord) (now : ℕ)
    → TokensFit s.tokens
    → get_token_by_refresh s presented ≡ some rec
    → ((k : String) (t : TokenRecord)
        → lookup k s.tokens ≡ some t
        → t.refresh_token ≡ presented
        → k ≡ rec.access_token)
    → u.refresh_token ≢ presented
    → u.access_token ≢ rec.access_token
    → (again : TokenRecord) × (get_token_by_refresh
          (put_token (put_token s (record rec { rotated_at = some now })) u)
          presented
        ≡ some again)
      × (is_some again.rotated_at ≡ true)
      × (again.install_id ≡ rec.install_id)
unfolding get_token_by_refresh put_token
rotated-found s presented rec u now fit found only new_refresh new_access =
    let old : TokenRecord = record rec { rotated_at = some now } in
    let m = insert rec.access_token old s.tokens in
    let same = λ (t : TokenRecord). str_eq t.refresh_token presented in
    let some_token = refreshed_nonblank s presented rec found in
    let there : lookup rec.access_token (insert u.access_token u m) ≡ some old =
      lookup-insert u.access_token rec.access_token u m
      ∙ rw (str_eq_ne u.access_token rec.access_token new_access)
          (lookup-insert_self rec.access_token old s.tokens) in
    let (again, first) = Among-first_of old _ (
      lookup-Among same rec.access_token old (insert u.access_token u m) there
        (refreshed_text s presented rec fit.distinct found)) in
    let (k, stored, fits) =
      first_of-lookup same (insert u.access_token u m) again
        (insert-TokensFit none s u m (insert-TokensFit none s old s.tokens fit)).distinct first in
    let text = (str_eq_iff again.refresh_token presented).0 fits in
    let is_old : again ≡ old = elim (lookup-insert_cases u.access_token k u again m stored) [
      | inl (_, is_new) ↦ absurd (new_refresh (ap (λ t. t.refresh_token) (sym is_new) ∙ text))
      | inr (_, kept) ↦ elim (lookup-insert_cases rec.access_token k old again s.tokens kept) [
        | inl (_, is_old) ↦ is_old
        | inr (elsewhere, older) ↦ absurd (elsewhere (only k again older text))
      ]
    ] in
    (
      again,
      rw (some_token, first) refl,
      ap (λ t. is_some t.rotated_at) is_old,
      ap (λ t. t.install_id) is_old,
    )

module _ {M : Type 0} (C : Clients) (o : Surroundings) where
  second_use :
      (b : Broker M C.State) (rec : TokenRecord) (q' : Call) (presented client' : String)
      → TokensFit b.store.tokens
      → (again : TokenRecord) × (get_token_by_refresh b.store presented ≡ some again)
        × (is_some again.rotated_at ≡ true)
        × (again.install_id ≡ rec.install_id)
      → ((handle_refresh_grant C o.settings b presented client' q').1 ≡ invalid_grant)
        × IsEnded rec.install_id
            (handle_refresh_grant C o.settings b presented client' q').0.store.tokens
  second_use b rec q' presented client' fit (again, found, rotated, family) =
      let branch = replay_branch C o b presented client' q' again found rotated in
      (
        ap (λ x. x.1) branch,
        subst (λ x. IsEnded rec.install_id x.0.store.tokens) (sym branch)
            (subst
              (λ id. IsEnded id (revoke_install_for_replay C o.settings b again q').store.tokens)
              family (replayed-IsEnded C o b again q' fit)),
      )

  put_twice-TokensFit :
      (s : MemStorage M) (t u : TokenRecord)
      → TokensFit s.tokens
      → TokensFit (put_token (put_token s t) u).tokens
  unfolding put_token
  put_twice-TokensFit s t u fit =
      insert-TokensFit none s u (insert t.access_token t s.tokens)
        (insert-TokensFit none s t s.tokens fit)

  -- A refresh token that has been exchanged, while no other stored token had its text and the exchange
  -- made a new access and a new refresh token, is refused as invalid when it is presented again, by any
  -- client, and that leaves no token of the install, the pair just issued included.
  pub second_use_is_replay :
      (b : Broker M C.State) (q q' : Call) (presented client client' : String) (rec : TokenRecord)
      (i : Install) (p : Persona) (access : String)
      → TokensFit b.store.tokens
      → IsRenewable C o.settings b q presented client rec i p access
      → ((k : String) (t : TokenRecord)
          → lookup k b.store.tokens ≡ some t
          → t.refresh_token ≡ presented
          → k ≡ rec.access_token)
      → q.fresh refresh ≢ presented
      → access ≢ rec.access_token
      → let first = handle_refresh_grant C o.settings b presented client q in
        let second = handle_refresh_grant C o.settings first.0 presented client' q' in
        (second.1 ≡ invalid_grant) × IsEnded rec.install_id second.0.store.tokens
  second_use_is_replay b q q' presented client client' rec i p access fit h only new_refresh
        new_access =
      subst
        (λ first.
          ((handle_refresh_grant C o.settings first.0 presented client' q').1 ≡ invalid_grant)
          × IsEnded rec.install_id
              (handle_refresh_grant C o.settings first.0 presented client' q').0.store.tokens)
        (sym (refresh_succeeds C o.settings b q presented client rec i p access h))
        (second_use _ rec q' presented client' (put_twice-TokensFit b.store _ _ fit) (
          rotated-found b.store presented rec (refresh_record rec p q (ttl_of o.settings p) access)
            (q.clock rotation) fit h.found only new_refresh new_access))
