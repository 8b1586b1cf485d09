-- ===== src/Risk/Policy/Rules.antt =====
-- What the validation of rules (policy.go) lets pass, and the rules that can never match.
use x_auth_site.Base.{
  ℕ, suc, ◌+◌, ◌≤◌, ◌<◌, ◌≡◌, refl, ap, ◌≢◌, ◌↔◌, ◌⊎◌, inl, inr, String, true, false, Option, none,
  some, List, [], ◌∷◌, ◌++◌, length, All, ltb, ◌==◌, arith, str_eq, str_eq_iff, Bool-cases,
  Option-cases,
}
use x_auth_site.Risk.Model.{
  Runtime, Json, EvaluateRequest, PolicyCondition, PolicyRule, max_rules_per_policy, valid_tier,
  tier_low, tier_medium, tier_high,
}
use x_auth_site.Risk.Policy.{
  field_value, matches_condition, op_gt, op_in, supported_field, supported_op, is_array,
  validate_rule, validate_from, validate_rules, RuleError, RulesError, no_rules, too_many_rules,
  rule_error,
}

-- A rule that may be stored: a known field and operator, an array for `in`, an effect, and a floor,
-- if there is one, that is a tier.
pub record IsAccepted {F : Type 0} (r : PolicyRule F) : Type 0 where
  pub known_field : supported_field r.condition.field_name ≡ true
  pub known_op : supported_op r.condition.op ≡ true
  pub array_for_in : r.condition.op ≡ op_in → is_array r.condition.value ≡ true
  pub has_effect : (r.effect.denies ≡ true) ⊎ (r.effect.tier_floor ≢ "")
  pub floor_is_tier :
      r.effect.tier_floor ≢ ""
      → (r.effect.tier_floor ≡ tier_low)
        ⊎ (r.effect.tier_floor ≡ tier_medium)
        ⊎ (r.effect.tier_floor ≡ tier_high)

valid_tier_lem :
    (t : String) → (valid_tier t ≡ true) ↔ ((t ≡ tier_low) ⊎ (t ≡ tier_medium) ⊎ (t ≡ tier_high))
unfolding valid_tier
valid_tier_lem t =
    ground (arith, str_eq_iff t tier_low, str_eq_iff t tier_medium, str_eq_iff t tier_high)

module _ {F : Type 0} where
  validate_rule-IsAccepted : (r : PolicyRule F) → validate_rule r ≡ none → IsAccepted r
  unfolding validate_rule
  validate_rule-IsAccepted r e = record {
    known_field = ground arith;
    known_op = ground arith;
    array_for_in = λ i. ground (arith, str_eq_iff r.condition.op op_in);
    has_effect = ground (arith, str_eq_iff r.effect.tier_floor "");
    floor_is_tier = λ n.
        (valid_tier_lem r.effect.tier_floor).0 (ground (arith, str_eq_iff r.effect.tier_floor ""));
  }

  IsAccepted-validate_rule : (r : PolicyRule F) → IsAccepted r → validate_rule r ≡ none
  unfolding validate_rule
  IsAccepted-validate_rule r a =
      let f = a.known_field in
      let o = a.known_op in
      let i = a.array_for_in in
      let h = a.has_effect in
      let t : (r.effect.tier_floor ≢ "" → valid_tier r.effect.tier_floor ≡ true) =
        λ n. (valid_tier_lem r.effect.tier_floor).1 (a.floor_is_tier n) in
      ground (arith, str_eq_iff r.condition.op op_in, str_eq_iff r.effect.tier_floor "")

  -- What `validate_rules` answers for the rules of a policy: the first bad rule with its index.
  pub data RulesSpec (rules : List (PolicyRule F)) : Option RulesError → Type 0 where
    nothing_given : rules ≡ [] → RulesSpec rules (some no_rules)
    too_many : max_rules_per_policy < length rules → RulesSpec rules (some too_many_rules)
    accepted :
        0 < length rules
        → length rules ≤ max_rules_per_policy
        → All IsAccepted rules
        → RulesSpec rules none
    refused :
        (before after : List (PolicyRule F)) (r : PolicyRule F) {e : RuleError} {k : ℕ}
        → rules ≡ before ++ r ∷ after
        → All IsAccepted before
        → validate_rule r ≡ some e
        → ¬ IsAccepted r
        → k ≡ length before
        → RulesSpec rules (some (rule_error k e))

  -- The scan of some rules from an index: all pass, or it stops at the first that does not.
  data Scanned (i : ℕ) (rules : List (PolicyRule F)) : Option RulesError → Type 0 where
    clean : All IsAccepted rules → Scanned i rules none
    stopped :
        (before after : List (PolicyRule F)) (r : PolicyRule F) {e : RuleError} {k : ℕ}
        → rules ≡ before ++ r ∷ after
        → All IsAccepted before
        → validate_rule r ≡ some e
        → k ≡ i + length before
        → Scanned i rules (some (rule_error k e))

  scan_cons :
      (i : ℕ) (r : PolicyRule F) (rs : List (PolicyRule F)) {o : Option RulesError}
      → validate_rule r ≡ none
      → Scanned (suc i) rs o
      → Scanned i (r ∷ rs) o
  scan_cons i r rs ok (clean h) = clean (validate_rule-IsAccepted r ok, h)
  scan_cons i r rs ok (stopped before after s e h bad k) =
      stopped (r ∷ before) after s (ap (λ l. r ∷ l) e) (validate_rule-IsAccepted r ok, h) bad
        (omega arith)

  validate_from-Scanned :
      (i : ℕ) (rules : List (PolicyRule F)) → Scanned i rules (validate_from i rules)
  unfolding validate_from
  validate_from-Scanned i [] = clean tt
  validate_from-Scanned i (r ∷ rs) =
      let rest = validate_from-Scanned (suc i) rs in
      elim (Option-cases (validate_rule r)) [
        | inl ok ↦ rw ok (scan_cons i r rs ok rest)
        | inr (e, bad) ↦ rw bad (stopped [] rs r refl tt bad (omega arith))
      ]

  not-IsAccepted : (r : PolicyRule F) {e : RuleError} → validate_rule r ≡ some e → ¬ IsAccepted r
  not-IsAccepted r bad a = let ok = IsAccepted-validate_rule r a in cc (ok, bad)

  within_limits :
      (rules : List (PolicyRule F)) {o : Option RulesError}
      → 0 < length rules
      → length rules ≤ max_rules_per_policy
      → Scanned 0 rules o
      → RulesSpec rules o
  within_limits rules some_rules few (clean h) = accepted some_rules few h
  within_limits rules some_rules few (stopped before after r e h bad k) =
      refused before after r e h bad (not-IsAccepted r bad) (omega arith)

  -- The validation accepts one to fifty rules that are all acceptable; otherwise it says that there
  -- are none or too many, or gives the index of the first rule that is not acceptable.
  pub validate_rules-RulesSpec :
      (rules : List (PolicyRule F)) → RulesSpec rules (validate_rules rules)
  unfolding validate_rules
  validate_rules-RulesSpec [] = nothing_given refl
  validate_rules-RulesSpec (r ∷ rs) =
      let z : (length (r ∷ rs) == 0) ≡ false = ground arith in
      elim (Bool-cases (ltb max_rules_per_policy (length (r ∷ rs)))) [
        | inl many ↦ rw z (rw many (too_many (ground arith)))
        | inr few ↦ rw z (
            rw few (
              within_limits (r ∷ rs) (omega arith) (ground arith)
                (validate_from-Scanned 0 (r ∷ rs))))
      ]

-- A `gt` condition matches no request, whatever its field and value: every field's value is a text,
-- which is not a number.
pub gt_unmatched :
    (R : Runtime) (sprint : Json R.Float → String) (req : EvaluateRequest)
    (c : PolicyCondition R.Float)
    → c.op ≡ op_gt
    → matches_condition R sprint req c ≡ false
unfolding matches_condition field_value str_eq
gt_unmatched R sprint req c e = rw e refl
