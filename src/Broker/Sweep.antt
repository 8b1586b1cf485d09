-- ===== src/Broker/Sweep.antt =====
-- What the sweeper of the broker takes away (`PurgeExpired` of storage.go, run by cmd/main.go), and what
-- the revocation of an install leaves (`Revoke` of install.go).
use x_auth_site.Base.{
  ℕ, ◌≡◌, refl, sym, ap, ◌∙◌, ◌≢◌, inl, inr, String, Bool, true, not, Option, none, some, arith,
  str_eq, str_eq_iff, str_eq_ne, Bool-cases, Option-cases, if◌then◌else◌,
}
use x_auth_site.Base.Dict.{lookup, keep_if, values_where}
use x_auth_site.Base.Dict.Laws.{lookup-keep_if, guarded-some, keep_if-IsDistinct}
use x_auth_site.Broker.Store.{
  first_of, TokenRecord, MemStorage, token_expired, purge_expired, get_token_by_refresh, get_token,
}
use x_auth_site.Broker.Clients.{Clients}
use x_auth_site.Broker.Calls.{Broker, Call, Settings, invalid_grant}
use x_auth_site.Broker.Refresh.{handle_refresh_grant}
use x_auth_site.Broker.Endpoints.{
  failed_verification, handle_revoke_install, user_info_of, user_info_found,
}
use x_auth_site.Broker.Runs.Tokens.{revoke_install-tokens}
use x_auth_site.Broker.Families.{TokensFit, first_of-lookup}
use x_auth_site.Broker.Replay.{guarded-fits}

abbrev pub swept : {M S : Type 0} → Broker M S → ℕ → Broker M S
swept b now = record b { store = (purge_expired b.store now).0 }

module _ {M : Type 0} (s : MemStorage M) (fit : TokensFit s.tokens) (now : ℕ)
    (presented : String) where
  swept-none :
      ((k : String) (t : TokenRecord)
        → lookup k s.tokens ≡ some t
        → t.refresh_token ≡ presented
        → token_expired now t ≡ true)
      → get_token_by_refresh (purge_expired s now).0 presented ≡ none
  unfolding get_token_by_refresh purge_expired
  swept-none old = elim (Bool-cases (str_eq presented "")) [
    | inl blank ↦ rw blank refl
    | inr some_token ↦
        let due = λ (t : TokenRecord). not (token_expired now t) in
        let same = λ (t : TokenRecord). str_eq t.refresh_token presented in
        elim (Option-cases (first_of (values_where same (keep_if due s.tokens)))) [
          | inl e ↦ rw (some_token, e) refl
          | inr (t, e) ↦
              let (k, stored, fits) =
                first_of-lookup same (keep_if due s.tokens) t
                  (keep_if-IsDistinct due s.tokens fit.distinct) e in
              let kept = sym (lookup-keep_if due k s.tokens fit.distinct) ∙ stored in
              let late =
                old k t (guarded-some due (lookup k s.tokens) t kept)
                  ((str_eq_iff t.refresh_token presented).0 fits) in
              let early = guarded-fits due (lookup k s.tokens) t kept in ground arith
        ]
  ]

module _ {M : Type 0} (C : Clients) where
  -- When every stored token with the presented refresh token has an access token that has expired at a
  -- sweep, a refresh grant by it after the sweep is refused as invalid, also where the token was never
  -- rotated and its install is active.
  pub sweep_ends_refresh :
      (o : Settings) (b : Broker M C.State) (now : ℕ) (presented client : String) (q : Call)
      → TokensFit b.store.tokens
      → presented ≢ ""
      → ((k : String) (t : TokenRecord)
          → lookup k b.store.tokens ≡ some t
          → t.refresh_token ≡ presented
          → token_expired now t ≡ true)
      → handle_refresh_grant C o (swept b now) presented client q ≡ (swept b now, invalid_grant)
  unfolding handle_refresh_grant
  sweep_ends_refresh o b now presented client q fit some_token old =
      rw (str_eq_ne presented "" some_token, swept-none b.store fit now presented old) refl

  -- The revocation of an install changes no answer of the user-info endpoint, so that an access token of
  -- the install is still answered for until it expires.
  pub revoke_install-user_info :
      (jwt_valid : String → ℕ → Bool) (b : Broker M C.State) (tenant : Option String) (id : String)
      (q : Call) (bearer : Option String) (now : ℕ)
      → user_info_of C jwt_valid (handle_revoke_install C b tenant id q).0 bearer now
        ≡ user_info_of C jwt_valid b bearer now
  unfolding user_info_of get_token
  revoke_install-user_info jwt_valid b tenant id q none now = refl
  revoke_install-user_info jwt_valid b tenant id q (some t) now =
      ap (λ m. if jwt_valid t now then user_info_found now (lookup t m) else failed_verification)
        (revoke_install-tokens C b tenant id q)
