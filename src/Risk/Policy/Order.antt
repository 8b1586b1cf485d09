-- ===== src/Risk/Policy/Order.antt =====
-- The order of policies in the walk of policy.go does not matter, as its comment says.
use mathlib.Core.Logic.{∥∥₁_elim}
use native.Mathlib.Nat.{ℕ_set}
use mathlib.Core.Bool.{Bool-set}
use mathlib.Core.List.{Perm, Permᴰ}
use x_auth_site.Base.{
  ℕ, ◌≡◌, refl, sym, ap, ◌∙◌, String, Bool, ◌||◌, List, [], ◌∷◌, ◌++◌, any, arith, if◌then◌else◌,
}
use x_auth_site.Risk.Model.{
  Runtime, allow, deny, Json, EvaluateRequest, PolicyAction, Policy, tier_rank,
}
use x_auth_site.Risk.Policy.{evaluate_policies}
use x_auth_site.Risk.Policy.Outcome.{
  raised, max_rank, max_rank-max, max_rank-append, any-append, rule_hits, hits,
  evaluate_policies-outcome,
}

abbrev denies : List PolicyAction → Bool
denies acts = any (λ a. a.denies) acts

max_rank_comm :
    (n : ℕ) (xs ys : List PolicyAction) → max_rank (max_rank n xs) ys ≡ max_rank (max_rank n ys) xs
max_rank_comm n [] ys = refl
max_rank_comm n (a ∷ xs) ys =
    let ih = max_rank_comm n xs ys in
    let e = max_rank-max (tier_rank a.tier_floor) (max_rank n xs) ys in omega arith

module _ (R : Runtime) (sprint : Json R.Float → String) (req : EvaluateRequest) where
  abbrev acts : List (Policy R.Float) → List PolicyAction
  acts ps = hits R sprint req ps

  abbrev own : Policy R.Float → List PolicyAction
  own p = rule_hits R sprint req p.rules

  Permᴰ-max_rank :
      {ps qs : List (Policy R.Float)}
      → Permᴰ ps qs
      → (n : ℕ) → max_rank n (acts ps) ≡ max_rank n (acts qs)
  Permᴰ-max_rank Permᴰ.nil n = refl
  Permᴰ-max_rank (Permᴰ.cons {a = a} {b = b} {l₁ = ps} {l₂ = qs} e d) n =
      max_rank-append R sprint req n (own a) (acts ps)
      ∙ Permᴰ-max_rank d (max_rank n (own a))
      ∙ sym (max_rank-append R sprint req n (own a) (acts qs))
      ∙ ap (λ p. max_rank n (own p ++ acts qs)) e
  Permᴰ-max_rank (Permᴰ.swap {a = a} {b = b} {a' = a'} {b' = b'} {l = l} e₁ e₂) n =
      max_rank-append R sprint req n (own a) (own b ++ acts l)
      ∙ max_rank-append R sprint req (max_rank n (own a)) (own b) (acts l)
      ∙ ap (λ k. max_rank k (acts l)) (max_rank_comm n (own a) (own b))
      ∙ sym (max_rank-append R sprint req (max_rank n (own b)) (own a) (acts l))
      ∙ sym (max_rank-append R sprint req n (own b) (own a ++ acts l))
      ∙ ap (λ p. max_rank n (own p ++ (own a ++ acts l))) e₂
      ∙ ap (λ p. max_rank n (own a' ++ (own p ++ acts l))) e₁
  Permᴰ-max_rank (Permᴰ.trans d₁ d₂) n = Permᴰ-max_rank d₁ n ∙ Permᴰ-max_rank d₂ n

  append_denies : (xs ys : List PolicyAction) → denies (xs ++ ys) ≡ (denies xs || denies ys)
  append_denies xs ys = any-append R sprint req xs ys

  Permᴰ-denies : {ps qs : List (Policy R.Float)} → Permᴰ ps qs → denies (acts ps) ≡ denies (acts qs)
  Permᴰ-denies Permᴰ.nil = refl
  Permᴰ-denies (Permᴰ.cons {a = a} {b = b} {l₁ = ps} {l₂ = qs} e d) =
      let ih = Permᴰ-denies d in
      append_denies (own a) (acts ps)
      ∙ ap (λ t. denies (own a) || t) ih
      ∙ sym (append_denies (own a) (acts qs))
      ∙ ap (λ p. denies (own p ++ acts qs)) e
  Permᴰ-denies (Permᴰ.swap {a = a} {b = b} {a' = a'} {b' = b'} {l = l} e₁ e₂) =
      let e = append_denies (own a) (own b ++ acts l) in
      let e' = append_denies (own b) (acts l) in
      let f = append_denies (own b) (own a ++ acts l) in
      let f' = append_denies (own a) (acts l) in
      let swapped : denies (own a ++ (own b ++ acts l)) ≡ denies (own b ++ (own a ++ acts l)) =
        ground arith in
      swapped
      ∙ ap (λ p. denies (own p ++ (own a ++ acts l))) e₂
      ∙ ap (λ p. denies (own a' ++ (own p ++ acts l))) e₁
  Permᴰ-denies (Permᴰ.trans d₁ d₂) = Permᴰ-denies d₁ ∙ Permᴰ-denies d₂

  -- A permutation of the policies changes neither the effective tier nor the
  -- decision.
  pub evaluate_policies_comm :
      (derived : String) (ps qs : List (Policy R.Float))
      → Perm ps qs
      → ((evaluate_policies R sprint req derived ps).effective_tier
          ≡ (evaluate_policies R sprint req derived qs).effective_tier)
        × ((evaluate_policies R sprint req derived ps).decision
            ≡ (evaluate_policies R sprint req derived qs).decision)
  evaluate_policies_comm derived ps qs perm =
      let ranks = ∥∥₁_elim perm (ℕ_set _ _) (λ d. Permᴰ-max_rank d (tier_rank derived)) in
      let verdicts = ∥∥₁_elim perm (Bool-set _ _) (λ d. Permᴰ-denies d) in
      let p = evaluate_policies-outcome R sprint req derived ps in
      let q = evaluate_policies-outcome R sprint req derived qs in
      (
        ap (λ r. r.effective_tier) p
            ∙ ap (raised derived) ranks
            ∙ sym (ap (λ r. r.effective_tier) q),
        ap (λ r. r.decision) p
            ∙ ap (λ t. if t then deny else allow) verdicts
            ∙ sym (ap (λ r. r.decision) q),
      )
