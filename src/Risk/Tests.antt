-- ===== src/Risk/Tests.antt =====
-- Two policies, runs of the engine on them, and instances of its theorems. Numbers are naturals here.
use mathlib.Core.List.Perm
use x_auth_site.Base.{
  ℕ, ◌≡◌, refl, String, Bool, true, false, none, [], ◌∷◌, any, ltb, ◌==◌, if◌then◌else◌, str_eq,
}
use x_auth_site.Risk.Model.{
  Runtime, allow, deny, Json, number, text, array, no_items, item, EvaluateRequest, PolicyCondition,
  PolicyRule, Policy, tier_low, tier_high, tier_rank,
}
use x_auth_site.Risk.Policy.{
  op_gt, op_eq, op_in, field_action, field_context_country, evaluate_policies, matches_condition,
  validate_rules, validate_rule, validate_from, equal_any, in_items, field_value, apply_rules,
  apply_policies,
}
use x_auth_site.Base.{◌≢◌, str_eq_iff, arith}
use x_auth_site.Base.Dict.{lookup, IsDistinct}
use x_auth_site.Risk.Store.{MemStorage}
use x_auth_site.Risk.Policy.Outcome.{raised, max_rank, hits, hit_ids, evaluate_policies-outcome}
use x_auth_site.Risk.Policy.Order.{evaluate_policies_comm}

abbrev runtime : Runtime
runtime = record {
  Float = ℕ;
  float_eq = λ a b. a == b;
  float_lt = ltb;
  contains = λ s t. str_eq s t;
}

abbrev sprint : Json ℕ → String
sprint (text s) = s
sprint _ = "?"

abbrev request : EvaluateRequest
request = record {
  user_id = "u";
  session_id = "";
  action = "transfer.create";
  resource = "";
  resource_sensitivity = "high";
  context = record {
    device_fingerprint = "";
    ip_address = "192.0.2.1";
    country = "KP";
    user_agent = "";
  };
}

abbrev rule : String → String → Json ℕ → String → Bool → PolicyRule ℕ
rule f op v floor denies = record {
  condition = record { field_name = f; op = op; value = v };
  effect = record { tier_floor = floor; denies = denies };
}

abbrev transfers : Policy ℕ
transfers = record {
  id = "p1";
  tenant_id = "t";
  name = "transfers";
  rules = rule field_action op_eq (text "transfer.create") tier_high false ∷ [];
  created_at = 1;
  updated_at = 1;
}

abbrev countries : Policy ℕ
countries = record {
  id = "p2";
  tenant_id = "t";
  name = "countries";
  rules = rule field_context_country op_in (array (item (text "KP") no_items)) "" true ∷ [];
  created_at = 2;
  updated_at = 2;
}

abbrev over_amount : PolicyCondition ℕ
over_amount = record { field_name = field_action; op = op_gt; value = number 5 }

both_match :
    evaluate_policies runtime sprint request tier_low (transfers ∷ countries ∷ []) ≡ record {
      derived_tier = tier_low;
      effective_tier = tier_high;
      decision = deny;
      matched_policies = "p1" ∷ "p2" ∷ [];
    }
unfolding evaluate_policies apply_policies apply_rules matches_condition field_value equal_any
    in_items tier_rank str_eq
both_match = refl

evaluate_policies-outcome_example :
    evaluate_policies runtime sprint request tier_low (transfers ∷ countries ∷ []) ≡ record {
      derived_tier = tier_low;
      effective_tier = raised tier_low (
          max_rank (tier_rank tier_low) (hits runtime sprint request (transfers ∷ countries ∷ [])));
      decision =
          if any (λ a. a.denies) (hits runtime sprint request (transfers ∷ countries ∷ []))
          then deny
          else allow;
      matched_policies = hit_ids runtime sprint request (transfers ∷ countries ∷ []);
    }
evaluate_policies-outcome_example =
    evaluate_policies-outcome runtime sprint request tier_low (transfers ∷ countries ∷ [])

evaluate_policies_comm_example :
    ((evaluate_policies runtime sprint request tier_low (transfers ∷ countries ∷ [])).effective_tier
      ≡ (evaluate_policies runtime sprint request tier_low
          (countries ∷ transfers ∷ [])).effective_tier)
    × ((evaluate_policies runtime sprint request tier_low (transfers ∷ countries ∷ [])).decision
        ≡ (evaluate_policies runtime sprint request tier_low (countries ∷ transfers ∷ [])).decision)
evaluate_policies_comm_example =
    evaluate_policies_comm runtime sprint request tier_low (transfers ∷ countries ∷ [])
      (countries ∷ transfers ∷ []) (Perm.swap countries transfers [])

-- Such a rule can be stored.
gt_accepted :
    validate_rules
      (record { condition = over_amount; effect = record { tier_floor = ""; denies = true } } ∷ [])
    ≡ none
unfolding validate_rules validate_from validate_rule str_eq
gt_accepted = refl

abbrev storage : MemStorage ℕ
storage = record {
  evaluations = [];
  policies = ("p1", transfers) ∷ ("p2", countries) ∷ [];
  caep_events = [];
  assurance = [];
  txn_done = [];
}

abbrev intruder : Policy ℕ
intruder = record countries { id = "p1"; tenant_id = "x" }

other_tenant : intruder.tenant_id ≢ transfers.tenant_id
unfolding str_eq
other_tenant = ground (arith, str_eq_iff intruder.tenant_id transfers.tenant_id)

storage-IsDistinct : IsDistinct storage.policies
unfolding lookup str_eq
storage-IsDistinct = (refl, (refl, tt))
