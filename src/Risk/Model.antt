-- ===== src/Risk/Model.antt =====
-- The data of the risk service (models.go, the constants of policy.go). What the code takes from Go's
-- runtime is a parameter, `Runtime`: float64, the substring test and the formatting of `%v`.
use x_auth_site.Base.{ℕ, String, Bool, ◌||◌, List, if◌then◌else◌, str_eq}

pub record Runtime : Type 1 where
  pub Float : Type 0
  pub float_eq : Float → Float → Bool
  pub float_lt : Float → Float → Bool
  pub contains : String → String → Bool

abbrev pub tier_low : String
tier_low = "low"

abbrev pub tier_medium : String
tier_medium = "medium"

abbrev pub tier_high : String
tier_high = "high"

pub data Decision : Type 0 where
  allow deny : Decision

-- A decoded JSON value, the source's `any`.
mutual
  pub data Json (F : Type 0) : Type 0 where
    null : Json F
    bool : Bool → Json F
    number : F → Json F
    text : String → Json F
    array : Items F → Json F
    object : Fields F → Json F

  pub data Items (F : Type 0) : Type 0 where
    no_items : Items F
    item : Json F → Items F → Items F

  pub data Fields (F : Type 0) : Type 0 where
    no_fields : Fields F
    field : String → Json F → Fields F → Fields F

pub record EvaluateCtx : Type 0 where
  pub device_fingerprint : String
  pub ip_address : String
  pub country : String
  pub user_agent : String

-- `Signals`, which nothing of the engine reads, is left out.
pub record EvaluateRequest : Type 0 where
  pub user_id : String
  pub session_id : String
  pub action : String
  pub resource : String
  pub resource_sensitivity : String
  pub context : EvaluateCtx

pub record PolicyCondition (F : Type 0) : Type 0 where
  pub field_name : String
  pub op : String
  pub value : Json F

pub record PolicyAction : Type 0 where
  pub tier_floor : String
  pub denies : Bool

pub record PolicyRule (F : Type 0) : Type 0 where
  pub condition : PolicyCondition F
  pub effect : PolicyAction

pub record Policy (F : Type 0) : Type 0 where
  pub id : String
  pub tenant_id : String
  pub name : String
  pub rules : List (PolicyRule F)
  pub created_at : ℕ
  pub updated_at : ℕ

abbrev pub max_rules_per_policy : ℕ
max_rules_per_policy = 50

unfoldable pub valid_tier : String → Bool
valid_tier s = str_eq s tier_low || (str_eq s tier_medium || str_eq s tier_high)

unfoldable pub tier_rank : String → ℕ
tier_rank t =
    if str_eq t tier_high
    then 3
    else (if str_eq t tier_medium then 2 else (if str_eq t tier_low then 1 else 0))
