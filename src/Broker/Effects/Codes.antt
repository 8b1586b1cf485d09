-- ===== src/Broker/Effects/Codes.antt =====
-- What the grant for a code does (`handleCodeGrant` of oidc.go).
use x_auth_site.Base.{
  ◌≡◌, refl, ◌≢◌, inl, inr, String, Bool, true, false, not, ◌&&◌, ◌||◌, Option, none, some, arith,
  str_eq, str_eq_iff, Bool-cases,
}
use x_auth_site.Base.Dict.{lookup, delete}
use x_auth_site.Broker.Store.{
  active, revoked, AuthCode, MemStorage, code_expired, create_install, update_install, consumed,
  consume_auth_code, put_token,
}
use x_auth_site.Broker.Clients.{Clients, Persona, Identity, Answer, given, refused, unavailable}
use x_auth_site.Broker.Calls.{
  Settings, Call, refresh, revocation, finalization, code_check, Reply, invalid_request,
  invalid_grant, tokens, Broker, ttl_of, new_install, code_claims, code_record, scope_string,
}
use x_auth_site.Broker.Code.{
  code_persona, code_claimed, code_signed, code_granted, code_redeemed, handle_code_grant,
}
use x_auth_site.Broker.Effects.{IsError, named_client}

abbrev pub spend : {M : Type 0} → MemStorage M → String → MemStorage M
spend s code = record s { codes = delete code s.codes }

-- The code may be redeemed by the request.
pub record IsRedeemable (o : Settings) (ac : AuthCode) (client verifier : String) (q : Call)
    : Type 0 where
  pub same_client : client ≢ "" → client ≡ ac.client_id
  pub in_time : code_expired (q.clock code_check) ac ≡ false
  pub challenged : ac.code_challenge ≢ ""
  pub verified : o.pkce_challenge verifier ≡ ac.code_challenge

module _ {M : Type 0} (C : Clients) (o : Settings) (b : Broker M C.State) where
  -- The code grant: refused with the storage as it is, as malformed or for an unknown code, or with the
  -- code spent; given up with the install revoked; or granted, with an active install and a stored token.
  pub data CodeEffect (code client verifier : String) (q : Call)
      : Broker M C.State × Reply → Type 0 where
    malformed :
        (str_eq code "" || str_eq verifier "") ≡ true
        → CodeEffect code client verifier q (b, invalid_request)
    unknown :
        lookup code b.store.codes ≡ none → CodeEffect code client verifier q (b, invalid_grant)
    burnt :
        {r : Reply} (ac : AuthCode)
        → lookup code b.store.codes ≡ some ac
        → ¬ IsRedeemable o ac client verifier q
        → IsError r
        → CodeEffect code client verifier q (record b { store = spend b.store code }, r)
    abandoned :
        {r : Reply} {services : C.State} (ac : AuthCode)
        → lookup code b.store.codes ≡ some ac
        → IsRedeemable o ac client verifier q
        → IsError r
        → CodeEffect code client verifier q (
          record {
            store =
                update_install
                  (create_install (spend b.store code) (new_install ac q))
                  (record (new_install ac q) { status = revoked })
                  (q.clock revocation);
            services = services;
          },
          r,
        )
    issued :
        {services : C.State} (ac : AuthCode) (i : Identity) (p : Persona) (access : String)
        → lookup code b.store.codes ≡ some ac
        → IsRedeemable o ac client verifier q
        → o.sign (code_claims ac i p q (ttl_of o p)) ≡ some access
        → CodeEffect code client verifier q (
          record {
            store =
                put_token
                  (update_install
                    (create_install (spend b.store code) (new_install ac q))
                    (record (new_install ac q) { identity_id = i.id; status = active })
                    (q.clock finalization))
                  (code_record ac i p q (ttl_of o p) access);
            services = services;
          },
          tokens access (q.fresh refresh) (scope_string p.scopes ac.scope) (ttl_of o p),
        )

true_not_false : {b : Bool} → b ≡ true → b ≢ false
true_not_false yes_true yes_false = cc (yes_true, yes_false)

unnamed_client :
    (client id : String)
    → (not (str_eq client "") && not (str_eq client id)) ≡ true
    → ¬ (client ≢ "" → client ≡ id)
unnamed_client client id e same =
    let differs : client ≢ "" = ground (arith, str_eq_iff client "") in
    let reached : client ≡ id = same differs in ground (arith, str_eq_iff client id)

unverified :
    (challenge answer : String)
    → (str_eq challenge "" || not (str_eq answer challenge)) ≡ true
    → challenge ≢ ""
    → answer ≢ challenge
unverified challenge answer wrong some_challenge same =
    ground (arith, str_eq_iff challenge "", str_eq_iff answer challenge)

module _ {M : Type 0} (C : Clients) (o : Settings) (b : Broker M C.State) where
  module _ (code client verifier : String) (q : Call) (ac : AuthCode)
      (found : lookup code b.store.codes ≡ some ac)
      (fit : IsRedeemable o ac client verifier q) where
    abbrev begun : C.State → Broker M C.State
    begun services = record {
      store = create_install (spend b.store code) (new_install ac q);
      services = services;
    }

    code_granted-CodeEffect :
        (s : C.State) (i : Identity) (p : Persona) (access : String) (out : C.State × Bool)
        → o.sign (code_claims ac i p q (ttl_of o p)) ≡ some access
        → CodeEffect C o b code client verifier q (code_granted C o (begun s) ac i p q access out)
    code_granted-CodeEffect s i p access (services, true) e = issued ac i p access found fit e
    code_granted-CodeEffect s i p access (services, false) e = abandoned ac found fit tt

    code_signed-CodeEffect :
        (s : C.State) (i : Identity) (p : Persona) (access : Option String)
        → o.sign (code_claims ac i p q (ttl_of o p)) ≡ access
        → CodeEffect C o b code client verifier q (code_signed C o (begun s) ac i p q access)
    code_signed-CodeEffect s i p none e = abandoned ac found fit tt
    code_signed-CodeEffect s i p (some access) e = code_granted-CodeEffect s i p access _ e

    code_claimed-CodeEffect :
        (s : C.State) (p : Persona) (out : C.State × Answer Identity)
        → CodeEffect C o b code client verifier q (code_claimed C o (begun s) ac p q out)
    code_claimed-CodeEffect s p (services, refused) = abandoned ac found fit tt
    code_claimed-CodeEffect s p (services, unavailable) = abandoned ac found fit tt
    code_claimed-CodeEffect s p (services, given i) = code_signed-CodeEffect services i p _ refl

    code_persona-CodeEffect :
        (s : C.State) (p : Answer Persona)
        → CodeEffect C o b code client verifier q (code_persona C o (begun s) ac q p)
    code_persona-CodeEffect s refused = abandoned ac found fit tt
    code_persona-CodeEffect s unavailable = abandoned ac found fit tt
    code_persona-CodeEffect s (given p) = code_claimed-CodeEffect s p _

  code_redeemed-CodeEffect :
      (code client verifier : String) (q : Call) (found : Option AuthCode)
      → lookup code b.store.codes ≡ found
      → CodeEffect C o b code client verifier q (
          let (store, ac) = consumed b.store code found in
          code_redeemed C o (record b { store = store }) client verifier q ac)
  code_redeemed-CodeEffect code client verifier q none e = unknown e
  code_redeemed-CodeEffect code client verifier q (some ac) e =
      elim (Bool-cases (not (str_eq client "") && not (str_eq client ac.client_id))) [
        | inl other ↦
            rw other
              (burnt ac e (λ fit. unnamed_client client ac.client_id other fit.same_client) tt)
        | inr same ↦ elim (Bool-cases (code_expired (q.clock code_check) ac)) [
          | inl late ↦ rw (same, late) (burnt ac e (λ fit. true_not_false late fit.in_time) tt)
          | inr due ↦
              elim (Bool-cases (
                str_eq ac.code_challenge ""
                || not (str_eq (o.pkce_challenge verifier) ac.code_challenge))) [
                  | inl wrong ↦
                      rw (same, due, wrong)
                        (burnt ac e
                          (λ fit.
                            unverified ac.code_challenge (o.pkce_challenge verifier) wrong
                              fit.challenged fit.verified)
                          tt)
                  | inr right ↦
                      rw (same, due, right)
                        (code_persona-CodeEffect code client verifier q ac e
                          (record {
                            same_client = named_client client ac.client_id same;
                            in_time = due;
                            challenged = ground (arith, str_eq_iff ac.code_challenge "");
                            verified =
                                ground
                                  (arith, str_eq_iff (o.pkce_challenge verifier) ac.code_challenge);
                          })
                          b.services _)
                ]
        ]
      ]

  pub handle_code_grant-CodeEffect :
      (code client verifier : String) (q : Call)
      → CodeEffect C o b code client verifier q (handle_code_grant C o b code client verifier q)
  unfolding handle_code_grant consume_auth_code
  handle_code_grant-CodeEffect code client verifier q = elim (Bool-cases (str_eq code "")) [
    | inl blank ↦ rw blank (malformed (rw blank refl))
    | inr some_code ↦ elim (Bool-cases (str_eq verifier "")) [
      | inl blank ↦ rw (some_code, blank) (malformed (rw (some_code, blank) refl))
      | inr some_verifier ↦
          rw (some_code, some_verifier) (code_redeemed-CodeEffect code client verifier q _ refl)
    ]
  ]
