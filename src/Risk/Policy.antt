-- ===== src/Risk/Policy.antt =====
-- The policy engine (policy.go): the match of a rule's condition, the walk over all policies, and the
-- validation of rules that are written. A Go `error` is the constructor that its message names.
pub mod Outcome
pub mod Order
pub mod Rules
use x_auth_site.Base.{
  ℕ, suc, ◌+◌, String, Bool, true, false, not, ◌&&◌, ◌||◌, Option, none, some, List, [], ◌∷◌, ◌++◌,
  length, ltb, ◌==◌, if◌then◌else◌, str_eq,
}
use x_auth_site.Risk.Model.{
  Runtime, Decision, allow, deny, Json, null, bool, number, text, array, object, Items, no_items,
  item, EvaluateRequest, PolicyCondition, PolicyAction, PolicyRule, Policy, max_rules_per_policy,
  valid_tier, tier_rank,
}

abbrev pub field_action : String
field_action = "action"

abbrev pub field_resource : String
field_resource = "resource"

abbrev pub field_resource_sensitivity : String
field_resource_sensitivity = "resource_sensitivity"

abbrev pub field_user_id : String
field_user_id = "user_id"

abbrev pub field_context_ip_address : String
field_context_ip_address = "context.ip_address"

abbrev pub field_context_country : String
field_context_country = "context.country"

abbrev pub op_eq : String
op_eq = "eq"

abbrev pub op_in : String
op_in = "in"

abbrev pub op_gt : String
op_gt = "gt"

abbrev pub op_contains : String
op_contains = "contains"

pub record PolicyEvalResult : Type 0 where
  pub derived_tier : String
  pub effective_tier : String
  pub decision : Decision
  pub matched_policies : List String

-- A missing case of the `switch` gives the empty string; the result is always a string.
unfoldable pub field_value : {F : Type 0} → EvaluateRequest → String → Json F
field_value req f = text (
    if str_eq f field_action
    then req.action
    else (if str_eq f field_resource
        then req.resource
        else (if str_eq f field_resource_sensitivity
            then req.resource_sensitivity
            else (if str_eq f field_user_id
                then req.user_id
                else (if str_eq f field_context_ip_address
                    then req.context.ip_address
                    else (if str_eq f field_context_country then req.context.country else ""))))))

-- `toNumber`: decoded JSON has no other numbers than float64.
abbrev pub to_number : {F : Type 0} → Json F → Option F
to_number (number n) = some n
to_number _ = none

-- The variables of the walk.
pub record Walk : Type 0 where
  pub decision : Decision
  pub floor_rank : ℕ
  pub floor : String
  pub policy_matched : Bool

abbrev pub denied : PolicyAction → Decision → Decision
denied a d = if a.denies then deny else d

abbrev pub raises : PolicyAction → ℕ → Bool
raises a rank = not (str_eq a.tier_floor "") && ltb rank (tier_rank a.tier_floor)

abbrev pub start : String → Walk
start derived = record {
  decision = allow;
  floor_rank = tier_rank derived;
  floor = derived;
  policy_matched = false;
}

module _ (R : Runtime) (sprint : Json R.Float → String) where
  abbrev pub equal_numbers : Option R.Float → Option R.Float → Option Bool
  equal_numbers (some a) (some b) = some (R.float_eq a b)
  equal_numbers _ _ = none

  abbrev pub or_formatted : Option Bool → String → String → Bool
  or_formatted (some b) s t = b
  or_formatted none s t = str_eq s t

  unfoldable pub equal_any : Json R.Float → Json R.Float → Bool
  equal_any null null = true
  equal_any null _ = false
  equal_any (text s) null = false
  equal_any (text s) (text t) = str_eq s t
  equal_any (text s) (bool b) = str_eq (sprint (text s)) (sprint (bool b))
  equal_any (text s) (number n) = str_eq (sprint (text s)) (sprint (number n))
  equal_any (text s) (array xs) = str_eq (sprint (text s)) (sprint (array xs))
  equal_any (text s) (object m) = str_eq (sprint (text s)) (sprint (object m))
  equal_any (bool b) null = false
  equal_any (bool b) v = or_formatted none (sprint (bool b)) (sprint v)
  equal_any (number n) null = false
  equal_any (number n) v =
      or_formatted (equal_numbers (some n) (to_number v)) (sprint (number n)) (sprint v)
  equal_any (array xs) null = false
  equal_any (array xs) v = or_formatted none (sprint (array xs)) (sprint v)
  equal_any (object m) null = false
  equal_any (object m) v = or_formatted none (sprint (object m)) (sprint v)

  unfoldable pub in_items : Json R.Float → Items R.Float → Bool
  in_items a no_items = false
  in_items a (item v vs) = equal_any a v || in_items a vs

  abbrev pub in_list : Json R.Float → Json R.Float → Bool
  in_list a (array vs) = in_items a vs
  in_list a _ = false

  abbrev pub contains_any : Json R.Float → Json R.Float → Bool
  contains_any (text s) (text sub) = R.contains s sub
  contains_any _ _ = false

  abbrev pub greater_numbers : Option R.Float → Option R.Float → Bool
  greater_numbers (some got) (some want) = R.float_lt want got
  greater_numbers _ _ = false

  unfoldable pub matches_condition : EvaluateRequest → PolicyCondition R.Float → Bool
  unfolding field_value
  matches_condition req c =
      let got = field_value req c.field_name in
      if str_eq c.op op_eq
      then equal_any got c.value
      else (if str_eq c.op op_in
          then in_list got c.value
          else (if str_eq c.op op_contains
              then contains_any got c.value
              else (if str_eq c.op op_gt
                  then greater_numbers (to_number got) (to_number c.value)
                  else false)))

  -- One round of the inner loop.
  abbrev pub apply_rule : EvaluateRequest → Walk → PolicyRule R.Float → Walk
  apply_rule req w r =
      if matches_condition req r.condition
      then record {
        decision = denied r.effect w.decision;
        floor_rank =
            if raises r.effect w.floor_rank then tier_rank r.effect.tier_floor else w.floor_rank;
        floor = if raises r.effect w.floor_rank then r.effect.tier_floor else w.floor;
        policy_matched = true;
      }
      else w

  unfoldable pub apply_rules : EvaluateRequest → Walk → List (PolicyRule R.Float) → Walk
  apply_rules req w [] = w
  apply_rules req w (r ∷ rs) = apply_rules req (apply_rule req w r) rs

  -- The outer loop, with the ids of the matched policies.
  unfoldable pub apply_policies :
      EvaluateRequest → Walk → List String → List (Policy R.Float) → Walk × List String
  apply_policies req w matched [] = (w, matched)
  apply_policies req w matched (p ∷ ps) =
      let w' = apply_rules req (record w { policy_matched = false }) p.rules in
      apply_policies req w' (if w'.policy_matched then matched ++ p.id ∷ [] else matched) ps

  unfoldable pub evaluate_policies :
      EvaluateRequest → String → List (Policy R.Float) → PolicyEvalResult
  evaluate_policies req derived policies =
      let (w, matched) = apply_policies req (start derived) [] policies in
      record {
        derived_tier = derived;
        effective_tier = w.floor;
        decision = w.decision;
        matched_policies = matched;
      }

pub data RuleError : Type 0 where
  unsupported_field unsupported_op in_needs_array no_effect invalid_floor : RuleError

pub data RulesError : Type 0 where
  no_rules too_many_rules : RulesError
  rule_error : ℕ → RuleError → RulesError

abbrev pub supported_field : String → Bool
supported_field f =
    str_eq f field_action
    || (str_eq f field_resource
        || (str_eq f field_resource_sensitivity
            || (str_eq f field_user_id
                || (str_eq f field_context_ip_address || str_eq f field_context_country))))

abbrev pub supported_op : String → Bool
supported_op op = str_eq op op_eq || (str_eq op op_in || (str_eq op op_contains || str_eq op op_gt))

abbrev pub is_array : {F : Type 0} → Json F → Bool
is_array (array _) = true
is_array _ = false

unfoldable pub validate_rule : {F : Type 0} → PolicyRule F → Option RuleError
validate_rule r =
    if not (supported_field r.condition.field_name)
    then some unsupported_field
    else (if not (supported_op r.condition.op)
        then some unsupported_op
        else (if str_eq r.condition.op op_in && not (is_array r.condition.value)
            then some in_needs_array
            else (if not r.effect.denies && str_eq r.effect.tier_floor ""
                then some no_effect
                else (if not (str_eq r.effect.tier_floor "") && not (valid_tier r.effect.tier_floor)
                    then some invalid_floor
                    else none))))

abbrev pub at_rule : ℕ → Option RuleError → Option RulesError → Option RulesError
at_rule i none rest = rest
at_rule i (some e) rest = some (rule_error i e)

unfoldable pub validate_from : {F : Type 0} → ℕ → List (PolicyRule F) → Option RulesError
validate_from i [] = none
validate_from i (r ∷ rs) = at_rule i (validate_rule r) (validate_from (suc i) rs)

unfoldable pub validate_rules : {F : Type 0} → List (PolicyRule F) → Option RulesError
validate_rules rules =
    if length rules == 0
    then some no_rules
    else (if ltb max_rules_per_policy (length rules)
        then some too_many_rules
        else validate_from 0 rules)
