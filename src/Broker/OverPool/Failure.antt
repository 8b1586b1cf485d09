-- ===== src/Broker/OverPool/Failure.antt =====
-- A code grant that fails leaves no identity claimed in the pool service (`handleCodeGrant` of oidc.go,
-- its claim and its compensation).
use x_auth_site.Base.{
  ◌⊎◌, ℕ, suc, ◌≡◌, refl, sym, ap, ◌∙◌, ◌≢◌, inl, inr, String, Bool, true, false, not, ◌&&◌, ◌||◌,
  Option, none, some, str_eq, Bool-cases,
}
use mathlib.Core.Path.{subst}
use x_auth_site.Base.Dict.{lookup}
use x_auth_site.Pool.Store.{MemStorage, Identity as PoolIdentity}
use x_auth_site.Pool.Store.Steps.{put, IsValid, claimed_by}
use x_auth_site.Pool.Server.{
  ClaimRequest, handle_claim, Reply as PoolReply, missing_tenant, invalid_body, invalid_name,
  invalid_size, invalid_id, invalid_subject_id, invalid_persona_id, invalid_install_id, not_found,
  conflict, internal_error, no_content, pool_answer, identity_answer,
}
use x_auth_site.Pool.Compensation.{
  IsUnheld, ClaimOutcome, claim_refused, claim_taken, handle_claim-ClaimOutcome, release-IsUnheld,
}
use x_auth_site.Broker.Store.{consumed, AuthCode, code_expired, consume_auth_code}
use x_auth_site.Broker.Clients.{Persona, Identity, Answer, given, refused, unavailable}
use x_auth_site.Broker.Calls.{
  grant_request, code_record, Settings, Call, install, code_check, Broker, Reply, ttl_of,
}
use x_auth_site.Broker.Code.{
  handle_code_grant, code_redeemed, code_persona, code_claimed, code_signed, code_granted,
}
use x_auth_site.Broker.Effects.{IsError}
use x_auth_site.Broker.OverPool.{
  Delivery, answered, not_sent, answer_lost, exchange, Services, Others, over_pool, tenant_header,
  claim_answer,
}

-- The services after the release of an identity have none that is claimed by the install.
abbrev Held :
    (String → String)
    → (ℕ → ℕ)
    → (ℕ → Delivery)
    → (R : Others) → String
    → Services R.State
    → Identity
    → String
    → Type 0
Held trim clock network R inst s i tenant =
    IsUnheld inst ((over_pool trim clock network R).release_identity s tenant i.id).0.pool

not_claimed :
    (r : PoolReply)
    → ((i : PoolIdentity) → r ≢ identity_answer i)
    → (claim_answer (some r) ≡ refused) ⊎ (claim_answer (some r) ≡ unavailable)
not_claimed missing_tenant h = inr refl
not_claimed invalid_body h = inr refl
not_claimed invalid_name h = inr refl
not_claimed invalid_size h = inr refl
not_claimed invalid_id h = inr refl
not_claimed invalid_subject_id h = inr refl
not_claimed invalid_persona_id h = inr refl
not_claimed invalid_install_id h = inr refl
not_claimed not_found h = inr refl
not_claimed conflict h = inl refl
not_claimed internal_error h = inr refl
not_claimed no_content h = inr refl
not_claimed (pool_answer p) h = inr refl
not_claimed (identity_answer i) h = absurd (h i refl)

-- What `claim_identity` gives, for the outcome of the pool service's handler.
abbrev claim_seen :
    {S : Type 0} → Delivery → Services S → MemStorage × PoolReply → Services S × Answer Identity
claim_seen d s out = (let (s', reply) = exchange d s out in (s', claim_answer reply))

-- A release that arrives, answered or not, has its effect.
released :
    {S : Type 0} (inst : String) (d : Delivery) (s : Services S) (out : MemStorage × PoolReply)
    → d ≢ not_sent
    → IsUnheld inst out.0
    → IsUnheld inst (exchange d s out).0.pool
released inst answered s (pool, reply) arrives h = h
released inst answer_lost s (pool, reply) arrives h = h
released inst not_sent s (pool, reply) arrives h = absurd (arrives refl)

module _ (trim : String → String) (clock : ℕ → ℕ) (network : ℕ → Delivery) (R : Others) {M : Type 0}
    (o : Settings) (q : Call) where
  abbrev Clean : Broker M (Services R.State) × Reply → Type 0
  Clean out = IsError out.1 → IsUnheld (q.fresh install) out.0.services.pool

  granted-Clean :
      (b : Broker M (Services R.State)) (ac : AuthCode) (i : Identity) (p : Persona)
      (access : String) (out : Services R.State × Bool)
      → Held trim clock network R (q.fresh install) out.0 i ac.tenant_id
      → Clean (code_granted (over_pool trim clock network R) o b ac i p q access out)
  granted-Clean b ac i p access (s, true) h = λ e. absurd e
  granted-Clean b ac i p access (s, false) h = λ e. h

  signed-Clean :
      (b : Broker M (Services R.State)) (ac : AuthCode) (i : Identity) (p : Persona)
      (access : Option String)
      → ((rest : R.State)
          → Held trim clock network R
              (q.fresh install)
              (record b.services { rest = rest })
              i
              ac.tenant_id)
      → Clean (code_signed (over_pool trim clock network R) o b ac i p q access)
  signed-Clean b ac i p none h = λ e. h b.services.rest
  signed-Clean b ac i p (some access) h = granted-Clean b ac i p access _ (
      h
        (R.create_grant b.services.rest ac.tenant_id
          (grant_request o (code_record ac i p q (ttl_of o p) access) (ttl_of o p))).0)

  unserved :
      (b : Broker M (Services R.State)) (ac : AuthCode) (p : Persona) (s : Services R.State)
      (d : Delivery)
      → IsUnheld (q.fresh install) s.pool
      → Clean (
          code_claimed
            (over_pool trim clock network R)
            o
            b
            ac
            p
            q
            (claim_seen d s (s.pool, missing_tenant)))
  unserved b ac p s answered h = λ _. h
  unserved b ac p s not_sent h = λ _. h
  unserved b ac p s answer_lost h = λ _. h

  claimed-Clean :
      (b : Broker M (Services R.State)) (ac : AuthCode) (p : Persona) (s : Services R.State)
      (out : MemStorage × PoolReply) (d : Delivery)
      → d ≢ answer_lost
      → network (suc s.served) ≢ not_sent
      → tenant_header ac.tenant_id ≡ some ac.tenant_id
      → lookup "" s.pool.identities ≡ none
      → IsUnheld (q.fresh install) s.pool
      → ClaimOutcome s.pool ac.tenant_id (q.fresh install) out
      → Clean (code_claimed (over_pool trim clock network R) o b ac p q (claim_seen d s out))
  claimed-Clean b ac p s _ answer_lost heard arrives header named unheld c = absurd (heard refl)
  claimed-Clean b ac p s (pool, reply) not_sent heard arrives header named unheld c = λ _. unheld
  claimed-Clean b ac p s _ answered heard arrives header named unheld (claim_refused {r} h) =
      elim (not_claimed r h) [ inl e ↦ rw e (λ _. unheld) | inr e ↦ rw e (λ _. unheld) ]
  claimed-Clean b ac p s _ answered heard arrives header named unheld
        (claim_taken pool i now owned stored) =
      signed-Clean
        (record b {
          services = record s {
            pool = put s.pool i.id (claimed_by i (q.fresh install) now);
            served = suc s.served;
          };
        })
        ac (record { id = i.id; pool_id = i.pool_id; subject_id = i.subject_id }) p _
        (λ rest. rw header (
          released (q.fresh install) (network (suc s.served)) _ _ arrives (
            release-IsUnheld s.pool ac.tenant_id (q.fresh install) pool i now _ owned
              (λ blank. cc (sym named ∙ ap (λ k. lookup k s.pool.identities) (sym blank) ∙ stored))
              unheld)))

  pool-Clean :
      (b : Broker M (Services R.State)) (ac : AuthCode) (p : Persona)
      → IsValid b.services.pool
      → lookup "" b.services.pool.identities ≡ none
      → network b.services.served ≢ answer_lost
      → network (suc b.services.served) ≢ not_sent
      → IsUnheld (q.fresh install) b.services.pool
      → Clean (code_persona (over_pool trim clock network R) o b ac q (given p))
  unfolding handle_claim
  pool-Clean b ac p valid named heard arrives unheld =
      let pool = b.services.pool in
      let req : ClaimRequest = record {
        persona_id = ac.persona_id;
        install_id = q.fresh install;
      } in
      let served = λ (h : Option String).
        handle_claim trim pool h ac.pool_id (some req) (clock b.services.served) in
      elim (Bool-cases (str_eq ac.tenant_id "")) [
        | inl blank ↦
            let header : tenant_header ac.tenant_id ≡ none = rw blank refl in
            subst
              (λ h. Clean (
                code_claimed (over_pool trim clock network R) o b ac p q
                  (claim_seen (network b.services.served) b.services (served h))))
              (sym header) (unserved b ac p b.services (network b.services.served) unheld)
        | inr some_tenant ↦
            let header : tenant_header ac.tenant_id ≡ some ac.tenant_id = rw some_tenant refl in
            claimed-Clean b ac p b.services (served (tenant_header ac.tenant_id))
              (network b.services.served) heard arrives header named unheld
              (subst (λ h. ClaimOutcome pool ac.tenant_id (q.fresh install) (served h)) (sym header)
                (handle_claim-ClaimOutcome trim pool ac.tenant_id ac.pool_id req
                  (clock b.services.served) valid))
      ]

  persona-Clean :
      (b : Broker M (Services R.State)) (ac : AuthCode) (p : Answer Persona)
      → IsValid b.services.pool
      → lookup "" b.services.pool.identities ≡ none
      → network b.services.served ≢ answer_lost
      → network (suc b.services.served) ≢ not_sent
      → IsUnheld (q.fresh install) b.services.pool
      → Clean (code_persona (over_pool trim clock network R) o b ac q p)
  persona-Clean b ac refused valid named heard arrives unheld = λ _. unheld
  persona-Clean b ac unavailable valid named heard arrives unheld = λ _. unheld
  persona-Clean b ac (given p) valid named heard arrives unheld =
      pool-Clean b ac p valid named heard arrives unheld

  redeemed-Clean :
      (b : Broker M (Services R.State)) (client verifier : String) (ac : Option AuthCode)
      → IsValid b.services.pool
      → lookup "" b.services.pool.identities ≡ none
      → network b.services.served ≢ answer_lost
      → network (suc b.services.served) ≢ not_sent
      → IsUnheld (q.fresh install) b.services.pool
      → Clean (code_redeemed (over_pool trim clock network R) o b client verifier q ac)
  redeemed-Clean b client verifier none valid named heard arrives unheld = λ _. unheld
  redeemed-Clean b client verifier (some ac) valid named heard arrives unheld =
      elim (Bool-cases (not (str_eq client "") && not (str_eq client ac.client_id))) [
        | inl other ↦ rw other (λ _. unheld)
        | inr same ↦ elim (Bool-cases (code_expired (q.clock code_check) ac)) [
          | inl late ↦ rw (same, late) (λ _. unheld)
          | inr due ↦
              elim (Bool-cases (
                str_eq ac.code_challenge ""
                || not (str_eq (o.pkce_challenge verifier) ac.code_challenge))) [
                  | inl wrong ↦ rw (same, due, wrong) (λ _. unheld)
                  | inr right ↦
                      rw (same, due, right) (persona-Clean _ ac _ valid named heard arrives unheld)
                ]
        ]
      ]

  consumed-services :
      (b : Broker M (Services R.State)) (code client verifier : String) (found : Option AuthCode)
      → IsValid b.services.pool
      → lookup "" b.services.pool.identities ≡ none
      → network b.services.served ≢ answer_lost
      → network (suc b.services.served) ≢ not_sent
      → IsUnheld (q.fresh install) b.services.pool
      → Clean (
          let (store, ac) = consumed b.store code found in
          code_redeemed
            (over_pool trim clock network R)
            o
            (record b { store = store })
            client
            verifier
            q
            ac)
  consumed-services b code client verifier none valid named heard arrives unheld = λ _. unheld
  consumed-services b code client verifier (some ac) valid named heard arrives unheld =
      redeemed-Clean _ client verifier (some ac) valid named heard arrives unheld

-- The broker over the pool service, with a well-formed pool storage in which no identity has an empty id
-- and none is claimed by the id that the request gives to its install; the answer to its claim is not
-- lost on the way, and its release, if it sends one, arrives: a code grant that answers without tokens, at whichever
-- step it failed, leaves no identity claimed by that install.
pub failed_grant-IsUnheld :
    (trim : String → String) (clock : ℕ → ℕ) (network : ℕ → Delivery) (R : Others) {M : Type 0}
    (o : Settings) (b : Broker M (Services R.State)) (code client verifier : String) (q : Call)
    → IsValid b.services.pool
    → lookup "" b.services.pool.identities ≡ none
    → network b.services.served ≢ answer_lost
    → network (suc b.services.served) ≢ not_sent
    → IsUnheld (q.fresh install) b.services.pool
    → IsError (handle_code_grant (over_pool trim clock network R) o b code client verifier q).1
    → IsUnheld
        (q.fresh install)
        (handle_code_grant
          (over_pool trim clock network R)
          o
          b
          code
          client
          verifier
          q).0.services.pool
unfolding handle_code_grant consume_auth_code
failed_grant-IsUnheld trim clock network R o b code client verifier q valid named heard arrives
      unheld =
    elim (Bool-cases (str_eq code "")) [
      | inl blank ↦ rw blank (λ _. unheld)
      | inr some_code ↦ elim (Bool-cases (str_eq verifier "")) [
        | inl blank ↦ rw (some_code, blank) (λ _. unheld)
        | inr some_verifier ↦
            rw (some_code, some_verifier)
              (consumed-services trim clock network R o q b code client verifier _ valid named heard
                arrives unheld)
      ]
    ]
