-- ===== src/Risk/Policy/Outcome.antt =====
-- The outcome of the policy walk (policy.go) in closed form.
use Prim.Native.Nat.{max}
use mathlib.Core.List.{append-nil, append_assoc}
use mathlib.Core.Path.{subst}
use x_auth_site.Base.{
  ℕ, ◌≤◌, ◌<◌, ◌≡◌, refl, sym, ap, ◌∙◌, inl, inr, String, Bool, true, false, ◌||◌, List, [], ◌∷◌,
  ◌++◌, map, arith, any, keep, ◌==◌, if◌then◌else◌, str_eq, str_eq_iff, Bool-cases,
}
use x_auth_site.Risk.Model.{
  Runtime, allow, deny, Json, EvaluateRequest, PolicyAction, PolicyRule, Policy, tier_low,
  tier_medium, tier_high, tier_rank,
}
use x_auth_site.Risk.Policy.{
  Walk, start, denied, raises, matches_condition, apply_rules, apply_policies, evaluate_policies,
}

-- The name of a rank.
abbrev pub tier_name : ℕ → String
tier_name r = if r == 3 then tier_high else (if r == 2 then tier_medium else tier_low)

-- A tier raised to a rank; it keeps its own name if it has that rank already.
abbrev pub raised : String → ℕ → String
raised tier rank = if rank == tier_rank tier then tier else tier_name rank

-- The highest rank among a start and the floors of some actions.
abbrev pub max_rank : ℕ → List PolicyAction → ℕ
max_rank n [] = n
max_rank n (a ∷ rest) = max (tier_rank a.tier_floor) (max_rank n rest)

-- What one match does to the walk.
abbrev pub apply_action : Walk → PolicyAction → Walk
apply_action w a = record {
  decision = denied a w.decision;
  floor_rank = if raises a w.floor_rank then tier_rank a.tier_floor else w.floor_rank;
  floor = if raises a w.floor_rank then a.tier_floor else w.floor;
  policy_matched = true;
}

unfoldable apply_actions : Walk → List PolicyAction → Walk
apply_actions w [] = w
apply_actions w (a ∷ rest) = apply_actions (apply_action w a) rest

abbrev pub some_hit : List PolicyAction → Bool
some_hit [] = false
some_hit (_ ∷ _) = true

module _ (R : Runtime) (sprint : Json R.Float → String) (req : EvaluateRequest) where
  abbrev pub is_match : PolicyRule R.Float → Bool
  is_match r = matches_condition R sprint req r.condition

  -- The actions of the rules that match, in the order of the walk.
  abbrev pub rule_hits : List (PolicyRule R.Float) → List PolicyAction
  rule_hits rs = map (λ r. r.effect) (keep is_match rs)

  abbrev pub hits : List (Policy R.Float) → List PolicyAction
  hits [] = []
  hits (p ∷ ps) = rule_hits p.rules ++ hits ps

tier_rank-empty : tier_rank "" ≡ 0
unfolding tier_rank str_eq
tier_rank-empty = refl

tier_name-tier_rank : (t : String) → 0 < tier_rank t → tier_name (tier_rank t) ≡ t
unfolding tier_rank
tier_name-tier_rank t h =
    ground (arith, str_eq_iff t tier_high, str_eq_iff t tier_medium, str_eq_iff t tier_low)

raises-rank :
    (a : PolicyAction) (n : ℕ)
    → (if raises a n then tier_rank a.tier_floor else n) ≡ max (tier_rank a.tier_floor) n
raises-rank a n = elim (Bool-cases (str_eq a.tier_floor "")) [
  | inl e ↦
      (let z = ap tier_rank ((str_eq_iff a.tier_floor "").0 e) ∙ tier_rank-empty in ground arith)
  | inr e ↦ ground arith
]

pub max_rank-max :
    (k n : ℕ) (acts : List PolicyAction) → max_rank (max k n) acts ≡ max k (max_rank n acts)
max_rank-max k n [] = refl
max_rank-max k n (a ∷ rest) = let ih = max_rank-max k n rest in omega arith

apply_actions-floor_rank :
    (w : Walk) (acts : List PolicyAction)
    → (apply_actions w acts).floor_rank ≡ max_rank w.floor_rank acts
unfolding apply_actions
apply_actions-floor_rank w [] = refl
apply_actions-floor_rank w (a ∷ rest) =
    apply_actions-floor_rank (apply_action w a) rest
    ∙ ap (λ n. max_rank n rest) (raises-rank a w.floor_rank)
    ∙ max_rank-max (tier_rank a.tier_floor) w.floor_rank rest

apply_actions-decision :
    (w : Walk) (acts : List PolicyAction)
    → (apply_actions w acts).decision ≡ (if any (λ a. a.denies) acts then deny else w.decision)
unfolding apply_actions
apply_actions-decision w [] = refl
apply_actions-decision w (a ∷ rest) = elim (Bool-cases a.denies) [
  | inl e ↦ apply_actions-decision (apply_action w a) rest ∙ ground arith
  | inr e ↦ apply_actions-decision (apply_action w a) rest ∙ ground arith
]

apply_actions-policy_matched :
    (w : Walk) (acts : List PolicyAction)
    → (apply_actions w acts).policy_matched ≡ (some_hit acts || w.policy_matched)
unfolding apply_actions
apply_actions-policy_matched w [] = refl
apply_actions-policy_matched w (a ∷ rest) =
    apply_actions-policy_matched (apply_action w a) rest ∙ ground arith

-- The floor is the derived tier until a match has a higher one; then the tier of its rank.
abbrev IsRaised : String → Walk → Type 0
IsRaised derived w = (w.floor ≡ raised derived w.floor_rank) × (tier_rank derived ≤ w.floor_rank)

apply_action-IsRaised :
    (derived : String) (w : Walk) (a : PolicyAction)
    → IsRaised derived w
    → IsRaised derived (apply_action w a)
apply_action-IsRaised derived w a (named, above) = elim (Bool-cases (raises a w.floor_rank)) [
  | inl e ↦ (let nm = tier_name-tier_rank a.tier_floor in ground arith)
  | inr e ↦ ground arith
]

apply_actions-IsRaised :
    (derived : String) (w : Walk) (acts : List PolicyAction)
    → IsRaised derived w
    → IsRaised derived (apply_actions w acts)
unfolding apply_actions
apply_actions-IsRaised derived w [] r = r
apply_actions-IsRaised derived w (a ∷ rest) r =
    apply_actions-IsRaised derived (apply_action w a) rest (apply_action-IsRaised derived w a r)

module _ (R : Runtime) (sprint : Json R.Float → String) (req : EvaluateRequest) where
  rule_hits-nil : rule_hits R sprint req [] ≡ []
  rule_hits-nil = refl

  apply_rules-hits :
      (w : Walk) (rs : List (PolicyRule R.Float))
      → apply_rules R sprint req w rs ≡ apply_actions w (rule_hits R sprint req rs)
  unfolding apply_rules apply_actions
  apply_rules-hits w [] = refl
  apply_rules-hits w (r ∷ rs) = elim (Bool-cases (matches_condition R sprint req r.condition)) [
    | inl e ↦ rw e (apply_rules-hits (apply_action w r.effect) rs)
    | inr e ↦ rw e (apply_rules-hits w rs)
  ]

  some_hit-any :
      (rs : List (PolicyRule R.Float))
      → some_hit (rule_hits R sprint req rs) ≡ any (is_match R sprint req) rs
  some_hit-any [] = refl
  some_hit-any (r ∷ rs) = elim (Bool-cases (matches_condition R sprint req r.condition)) [
    | inl e ↦ rw e refl
    | inr e ↦ rw e (some_hit-any rs)
  ]

  -- The ids of the policies with a matching rule, in order.
  abbrev pub hit_ids : List (Policy R.Float) → List String
  hit_ids ps = map (λ p. p.id) (keep (λ p. any (is_match R sprint req) p.rules) ps)

  abbrev fresh : Walk → Walk
  fresh w = record w { policy_matched = false }

  abbrev walk_rules : Walk → Policy R.Float → Walk
  walk_rules w p = apply_actions (fresh w) (rule_hits R sprint req p.rules)

  abbrev next_ids : List String → Policy R.Float → List String
  next_ids m p = if any (is_match R sprint req) p.rules then m ++ p.id ∷ [] else m

  walk_rules-matched :
      (w : Walk) (p : Policy R.Float)
      → (walk_rules w p).policy_matched ≡ any (is_match R sprint req) p.rules
  walk_rules-matched w p =
      let e = apply_actions-policy_matched (fresh w) (rule_hits R sprint req p.rules) in
      let k = some_hit-any p.rules in ground arith

  apply_policies-cons :
      (w : Walk) (m : List String) (p : Policy R.Float) (ps : List (Policy R.Float))
      → apply_policies R sprint req w m (p ∷ ps)
        ≡ apply_policies R sprint req
            (walk_rules w p)
            (if any (is_match R sprint req) p.rules then m ++ p.id ∷ [] else m)
            ps
  unfolding apply_policies
  apply_policies-cons w m p ps =
      ap (λ w'. apply_policies R sprint req w' (if w'.policy_matched then m ++ p.id ∷ [] else m) ps)
        (apply_rules-hits (fresh w) p.rules)
      ∙ ap (λ b. apply_policies R sprint req (walk_rules w p) (if b then m ++ p.id ∷ [] else m) ps)
          (walk_rules-matched w p)

  pub max_rank-append :
      (n : ℕ) (xs ys : List PolicyAction) → max_rank n (xs ++ ys) ≡ max_rank (max_rank n xs) ys
  max_rank-append n [] ys = refl
  max_rank-append n (a ∷ xs) ys =
      let ih = max_rank-append n xs ys in
      let e = max_rank-max (tier_rank a.tier_floor) (max_rank n xs) ys in omega arith

  pub any-append :
      (xs ys : List PolicyAction)
      → any (λ a. a.denies) (xs ++ ys) ≡ (any (λ a. a.denies) xs || any (λ a. a.denies) ys)
  any-append [] ys = refl
  any-append (a ∷ xs) ys = let ih = any-append xs ys in ground arith

  -- What the walk over the rest of the policies leaves, from any state of it.
  Walked : String → Walk → List String → List (Policy R.Float) → Walk × List String → Type 0
  Walked derived w m ps out =
      (out.0.decision ≡ (if any (λ a. a.denies) (hits R sprint req ps) then deny else w.decision))
      × (out.0.floor_rank ≡ max_rank w.floor_rank (hits R sprint req ps))
      × IsRaised derived out.0
      × (out.1 ≡ m ++ hit_ids ps)

  walk_rules-Walked :
      (derived : String) (w : Walk) (m : List String) (p : Policy R.Float)
      (ps : List (Policy R.Float)) (out : Walk × List String)
      → Walked derived
          (walk_rules w p)
          (if any (is_match R sprint req) p.rules then m ++ p.id ∷ [] else m)
          ps
          out
      → Walked derived w m (p ∷ ps) out
  unfolding Walked
  walk_rules-Walked derived w m p ps out (d, f, r, ids) = (
    d
        ∙ (let e = apply_actions-decision (fresh w) (rule_hits R sprint req p.rules) in
            let k = any-append (rule_hits R sprint req p.rules) (hits R sprint req ps) in
            ground arith),
    f
        ∙ ap (λ n. max_rank n (hits R sprint req ps))
            (apply_actions-floor_rank (fresh w) (rule_hits R sprint req p.rules))
        ∙ sym
            (max_rank-append w.floor_rank (rule_hits R sprint req p.rules) (hits R sprint req ps)),
    r,
    ids ∙ elim (Bool-cases (any (is_match R sprint req) p.rules)) [
      | inl e ↦ rw e (append_assoc m (p.id ∷ []) (hit_ids ps))
      | inr e ↦ rw e refl
    ],
  )

  apply_policies-Walked :
      (derived : String) (w : Walk) (m : List String) (ps : List (Policy R.Float))
      → IsRaised derived w
      → Walked derived w m ps (apply_policies R sprint req w m ps)
  unfolding apply_policies Walked
  apply_policies-Walked derived w m [] r = (refl, refl, r, sym (append-nil m))
  apply_policies-Walked derived w m (p ∷ ps) r =
      subst (Walked derived w m (p ∷ ps)) (sym (apply_policies-cons w m p ps)) (
        walk_rules-Walked derived w m p ps
          (apply_policies R sprint req (walk_rules w p) (next_ids m p) ps)
          (apply_policies-Walked derived (walk_rules w p) (next_ids m p) ps
            (apply_actions-IsRaised derived (fresh w) (rule_hits R sprint req p.rules) r)))

  start-IsRaised : (derived : String) → IsRaised derived (start derived)
  start-IsRaised derived = (ground arith, omega arith)

  -- The walk over all policies in closed form: the decision is deny exactly if some matching rule
  -- denies, the effective tier is the derived one raised to the highest floor of the matching rules,
  -- and the matched policies are those with a matching rule, in the order given.
  pub evaluate_policies-outcome :
      (derived : String) (ps : List (Policy R.Float))
      → evaluate_policies R sprint req derived ps ≡ record {
        derived_tier = derived;
        effective_tier = raised derived (max_rank (tier_rank derived) (hits R sprint req ps));
        decision = if any (λ a. a.denies) (hits R sprint req ps) then deny else allow;
        matched_policies = hit_ids ps;
      }
  unfolding evaluate_policies Walked
  evaluate_policies-outcome derived ps =
      let (d, f, r, ids) =
        apply_policies-Walked derived (start derived) [] ps (start-IsRaised derived) in
      let named = r.0 ∙ ap (raised derived) f in cc (d, named, ids)
