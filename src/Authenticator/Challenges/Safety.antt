-- ===== src/Authenticator/Challenges/Safety.antt =====
-- What follows from the specification of `Verify` (challenges.go) for any sequence of requests.
use mathlib.Core.Path.{subst}
use x_auth_site.Base.{
  ℕ, ◌+◌, ◌≡◌, refl, sym, ap, ◌∙◌, String, Bool, true, false, Option, none, some, arith, leb,
  if◌then◌else◌,
}
use x_auth_site.Ratex.{Allower}
use x_auth_site.Authenticator.Model.{Challenge, pending}
use x_auth_site.Authenticator.Store.{Store, get_challenge}
use x_auth_site.Authenticator.Store.Laws.{
  IsValid, IsConsistent, Consistent, write, write-IsValid, owned,
}
use x_auth_site.Authenticator.Challenges.{
  Adapter, Service, Reading, outcome, Reply, max_attempts_exceeded, invalid_response, settle,
  expire, verify,
}
use x_auth_site.Authenticator.Challenges.Lifecycle.{
  verdict, settle-counted, settle-id, settle-tenant, VerifySpec, refused, lapsed, accepted,
  rejected, verify-VerifySpec,
}

settle-IsConsistent :
    (passed : Bool) (now : ℕ) (c : Challenge)
    → Consistent pending c.attempts c.completed_at
    → c.status ≡ pending
    → IsConsistent (settle passed now c)
settle-IsConsistent true now c h e = (h.0, refl)
settle-IsConsistent false now c h e = ground arith

pending-Consistent :
    (c : Challenge)
    → c.status ≡ pending
    → IsConsistent c
    → Consistent pending c.attempts c.completed_at
pending-Consistent c e h = subst (λ st. Consistent st c.attempts c.completed_at) e h

expire-IsConsistent :
    (c : Challenge) → Consistent pending c.attempts c.completed_at → IsConsistent (expire c)
expire-IsConsistent c h = h

pub record Request (J : Type 0) : Type 0 where
  pub clock : Reading → ℕ
  pub tenant : String
  pub id : String
  pub response : J

abbrev pub is_rejection : Option Bool → ℕ
is_rejection (some false) = 1
is_rejection _ = 0

abbrev pub is_acceptance : Option Bool → ℕ
is_acceptance (some true) = 1
is_acceptance _ = 0

-- What a request does to a pending challenge, and the verdict that it reports.
pub data Change (c c' : Challenge) (v : Option Bool) : Type 0 where
  lapse : c' ≡ expire c → v ≡ none → Change c c' v
  judge : (passed : Bool) (now : ℕ) → c' ≡ settle passed now c → v ≡ some passed → Change c c' v

pub data Effect {J : Type 0} (s : Store J) (q : Request J) (t : Store J) (v : Option Bool)
    : Type 0 where
  idle : t ≡ s → v ≡ none → Effect s q t v
  change :
      (c c' : Challenge)
      → get_challenge s q.tenant q.id ≡ some c
      → c.status ≡ pending
      → Change c c' v
      → t ≡ write s q.id c'
      → Effect s q t v

verdict-false :
    (b : Bool) → verdict (if b then max_attempts_exceeded else invalid_response) ≡ some false
verdict-false true = refl
verdict-false false = refl

Change-IsConsistent :
    (c c' : Challenge) {v : Option Bool}
    → Change c c' v
    → Consistent pending c.attempts c.completed_at
    → c.status ≡ pending
    → IsConsistent c'
Change-IsConsistent c c' (lapse e _) h p = subst IsConsistent (sym e) (expire-IsConsistent c h)
Change-IsConsistent c c' (judge passed now e _) h p =
    subst IsConsistent (sym e) (settle-IsConsistent passed now c h p)

pub Change-keys :
    (c c' : Challenge) {v : Option Bool}
    → Change c c' v
    → (c'.id ≡ c.id) × (c'.tenant_id ≡ c.tenant_id)
Change-keys c c' (lapse e _) = (ap (λ d. d.id) e, ap (λ d. d.tenant_id) e)
Change-keys c c' (judge passed now e _) = (
  ap (λ d. d.id) e ∙ settle-id passed now c,
  ap (λ d. d.tenant_id) e ∙ settle-tenant passed now c,
)

pub Effect-IsValid :
    {J : Type 0} (s : Store J) (q : Request J) {t : Store J} {v : Option Bool}
    → IsValid s
    → Effect s q t v
    → IsValid t
Effect-IsValid s q valid (idle same _) = rw same valid
Effect-IsValid s q valid (change c c' there open_ ch e) =
    let stored = (owned s q.tenant q.id c there).0 in
    rw e (
      write-IsValid s q.id c' valid ((Change-keys c c' ch).0 ∙ valid.named q.id c stored) (
        Change-IsConsistent c c' ch (pending-Consistent c open_ (valid.consistent q.id c stored))
          open_))

module _ {J : Type 0} (A : Allower) (registry : String → Option (Adapter J)) where
  abbrev pub serve : Service J A.State → Request J → Service J A.State × Reply
  serve s q = verify A registry s q.clock (some q.tenant) q.id (some q.response)

  spec_of :
      (s : Service J A.State) (q : Request J)
      → IsValid s.store
      → VerifySpec A registry s q.clock q.tenant q.id q.response (serve s q).0.store (serve s q).1
  spec_of s q v = verify-VerifySpec A registry s q.clock q.tenant q.id q.response v

  -- The specification with the guards left out: what it does to the store, and the verdict.
  Effect-of :
      (s : Service J A.State) (q : Request J) {t : Store J} {r : Reply}
      → VerifySpec A registry s q.clock q.tenant q.id q.response t r
      → Effect s.store q t (verdict r)
  Effect-of s q (refused same e) = idle same e
  Effect-of s q (lapsed c there open_ late e answer) =
      rw answer (change c (expire c) there open_ (lapse refl refl) e)
  Effect-of s q (accepted c there a e answer) =
      rw answer (change c _ there a.is_open (judge true (q.clock outcome) refl refl) e)
  Effect-of s q (rejected c there a e answer) =
      rw (answer, verdict-false (leb 3 (c.attempts + 1)))
        (change c _ there a.is_open
          (judge false (q.clock outcome) (sym (settle-counted (q.clock outcome) c)) refl) e)

  pub serve-Effect :
      (s : Service J A.State) (q : Request J)
      → IsValid s.store
      → Effect s.store q (serve s q).0.store (verdict (serve s q).1)
  serve-Effect s q v = Effect-of s q (spec_of s q v)

  -- Every request keeps the store valid.
  pub verify-IsValid :
      (s : Service J A.State) (q : Request J) → IsValid s.store → IsValid (serve s q).0.store
  verify-IsValid s q v = Effect-IsValid s.store q v (serve-Effect s q v)
