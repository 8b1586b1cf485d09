-- ===== src/Broker/SingleUse.antt =====
-- An authorization code of the broker is good for one attempt (`ConsumeAuthCode` of storage.go in
-- `handleCodeGrant` of oidc.go).
use x_auth_site.Base.{
  ◌≡◌, refl, ap, ◌∙◌, ◌≢◌, inl, inr, String, true, false, ◌||◌, Option, none, some, arith, str_eq,
  str_eq_iff, str_eq_ne, Bool-cases,
}
use x_auth_site.Base.Dict.{Dict, lookup, delete}
use x_auth_site.Base.Dict.Laws.{lookup-keep_if-none, lookup-delete, lookup-insert}
use x_auth_site.Broker.Store.{put_token, AuthCode, create_install}
use x_auth_site.Broker.Clients.{Clients}
use x_auth_site.Broker.Calls.{Broker, Call, Reply, Settings}
use x_auth_site.Broker.Code.{handle_code_grant}
use x_auth_site.Broker.Effects.{IsError}
use x_auth_site.Broker.Effects.Codes.{
  CodeEffect, malformed, unknown, burnt, abandoned, issued, handle_code_grant-CodeEffect,
}
use x_auth_site.Broker.Runs.{Request, Surroundings, Run, Run_invariant, new_code}
use x_auth_site.Broker.Runs.Codes.{
  CodeChange, same_codes, spent, swept, minted, step-CodeChange, update_install-codes,
}

-- A request that does not store the code.
abbrev pub AvoidsCode : {M S : Type 0} → String → Broker M S → Request M → Type 0
AvoidsCode code b r = new_code r ≢ some code

abbrev IsSpent : {M S : Type 0} → String → Broker M S → Type 0
IsSpent code b = lookup code b.store.codes ≡ none

lookup-delete-none :
    {V : Type 0} (k j : String) (m : Dict V) → lookup j m ≡ none → lookup j (delete k m) ≡ none
lookup-delete-none k j m e = elim (Bool-cases (str_eq k j)) [
  | inl same ↦ lookup-delete k j m ∙ rw same refl
  | inr other ↦ lookup-delete k j m ∙ rw other e
]

lookup-delete_self : {V : Type 0} (k : String) (m : Dict V) → lookup k (delete k m) ≡ none
lookup-delete_self k m = lookup-delete k k m ∙ rw ((str_eq_iff k k).1 refl) refl

change-IsSpent :
    (new : Option String) (code : String) (m m' : Dict AuthCode)
    → new ≢ some code
    → CodeChange new m m'
    → lookup code m ≡ none
    → lookup code m' ≡ none
change-IsSpent new code m _ avoids same_codes e = e
change-IsSpent new code m _ avoids (spent k) e = lookup-delete-none k code m e
change-IsSpent new code m _ avoids (swept p) e = lookup-keep_if-none p code m e
change-IsSpent new code m _ avoids (minted ac made) e =
    let other : str_eq ac.code code ≡ false =
      str_eq_ne ac.code code (λ same. avoids (made ∙ ap some same)) in
    lookup-insert ac.code code ac m ∙ rw other e

blank_false : (s t : String) → s ≢ "" → t ≢ "" → (str_eq s "" || str_eq t "") ≢ true
blank_false s t hs ht e = ground (arith, str_eq_iff s "", str_eq_iff t "")

module _ {M : Type 0} (C : Clients) (o : Settings) (b : Broker M C.State) where
  effect-IsSpent :
      (code client verifier : String) (q : Call) (out : Broker M C.State × Reply)
      → code ≢ ""
      → verifier ≢ ""
      → CodeEffect C o b code client verifier q out
      → IsSpent code out.0
  unfolding create_install put_token
  effect-IsSpent code client verifier q _ hc hv (malformed x) =
      absurd (blank_false code verifier hc hv x)
  effect-IsSpent code client verifier q _ hc hv (unknown x) = x
  effect-IsSpent code client verifier q _ hc hv (burnt ac x y z) =
      lookup-delete_self code b.store.codes
  effect-IsSpent code client verifier q _ hc hv (abandoned ac x y z) =
      rw update_install-codes (lookup-delete_self code b.store.codes)
  effect-IsSpent code client verifier q _ hc hv (issued ac i p access x y z) =
      rw update_install-codes (lookup-delete_self code b.store.codes)

  effect-IsError :
      (code client verifier : String) (q : Call) (out : Broker M C.State × Reply)
      → IsSpent code b
      → CodeEffect C o b code client verifier q out
      → IsError out.1
  effect-IsError code client verifier q _ e (malformed x) = tt
  effect-IsError code client verifier q _ e (unknown x) = tt
  effect-IsError code client verifier q _ e (burnt ac x y z) = z
  effect-IsError code client verifier q _ e (abandoned ac x y z) = z
  effect-IsError code client verifier q _ e (issued ac i p access x y z) = ground arith

module _ {M : Type 0} (C : Clients) (o : Surroundings) where
  -- After a code grant that names a code and a verifier, whatever it answered, and any run of requests
  -- and sweeps in which no authorization stores that code again, every further grant for the code is
  -- refused.
  pub code_single_use :
      (b b' : Broker M C.State) (code client verifier : String) (q : Call)
      → code ≢ ""
      → verifier ≢ ""
      → Run C o (AvoidsCode code) (handle_code_grant C o.settings b code client verifier q).0 b'
      → (client' verifier' : String) (q' : Call)
      → IsError (handle_code_grant C o.settings b' code client' verifier' q').1
  code_single_use b b' code client verifier q hc hv run client' verifier' q' =
      let first =
        effect-IsSpent C o.settings b code client verifier q _ hc hv
          (handle_code_grant-CodeEffect C o.settings b code client verifier q) in
      let still =
        Run_invariant C o (AvoidsCode code) (λ b. IsSpent code b)
          (λ b r avoids e.
            change-IsSpent (new_code r) code b.store.codes _ avoids (step-CodeChange C o b r) e)
          _ b' run first in
      effect-IsError C o.settings b' code client' verifier' q' _ still
        (handle_code_grant-CodeEffect C o.settings b' code client' verifier' q')
