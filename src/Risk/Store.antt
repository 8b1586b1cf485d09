-- ===== src/Risk/Store.antt =====
-- The in-memory storage of the risk service (storage.go) with its records (models.go, caep.go). `mu`
-- makes each operation one step; the clock is an argument; `none` for a read is ErrNotFound.
use Prim.Native.String.{◌++◌ as append_text}
use x_auth_site.Base.{
  ℕ, String, Bool, true, false, ◌&&◌, Option, none, some, List, [], ◌∷◌, ◌++◌, ltb, ◌==◌,
  if◌then◌else◌, str_eq, str_ltb,
}
use x_auth_site.Base.Dict.{Dict, lookup, insert, delete, values_where}
use x_auth_site.Base.Sort.{sort_by}
use x_auth_site.Base.Page.{page}
use x_auth_site.Risk.Model.{Decision, Fields, Policy}

pub record ScorerResult (F : Type 0) : Type 0 where
  pub score : F
  pub flags : List String

pub record SignalsBreakdown (F : Type 0) : Type 0 where
  pub device : ScorerResult F
  pub behavior : ScorerResult F
  pub network : ScorerResult F
  pub user : ScorerResult F

pub record RiskEvaluation (F : Type 0) : Type 0 where
  pub id : String
  pub tenant_id : String
  pub user_id : String
  pub session_id : String
  pub action : String
  pub resource : String
  pub resource_sensitivity : String
  pub tier : String
  pub score : F
  pub signals : SignalsBreakdown F
  pub flags : List String
  pub policy_decision : Decision
  pub matched_policies : List String
  pub created_at : ℕ

pub record CaepEvent (F : Type 0) : Type 0 where
  pub id : String
  pub tenant_id : String
  pub subject_user_id : String
  pub subject_session_id : String
  pub event_type : String
  pub payload : Fields F
  pub received_at : ℕ

pub record AssuranceState : Type 0 where
  pub tenant_id : String
  pub user_id : String
  pub level : String
  pub compliant : Bool
  pub updated_at : ℕ

pub record TransactionCompletion : Type 0 where
  pub transaction_id : String
  pub tenant_id : String
  pub user_id : String
  pub acr : String
  pub rank : ℕ
  pub completed_at : ℕ

pub record MemStorage (F : Type 0) : Type 0 where
  pub evaluations : Dict (RiskEvaluation F)
  pub policies : Dict (Policy F)
  pub caep_events : List (CaepEvent F)
  pub assurance : Dict AssuranceState
  pub txn_done : Dict TransactionCompletion

abbrev pub older_than : Option ℕ → ℕ → Bool
older_than none created_at = true
older_than (some cursor) created_at = ltb created_at cursor

abbrev pub joined : String → String → String
joined tenant id = append_text tenant (append_text "|" id)

-- A loop that returns true at the first item it meets.
abbrev pub some_value : {A : Type 0} → List A → Bool
some_value [] = false
some_value (_ ∷ _) = true

module _ {F : Type 0} where
  unfoldable pub new_mem_storage : MemStorage F
  new_mem_storage = record {
    evaluations = [];
    policies = [];
    caep_events = [];
    assurance = [];
    txn_done = [];
  }

  unfoldable pub record_caep_event : MemStorage F → CaepEvent F → MemStorage F
  record_caep_event s e = record s { caep_events = s.caep_events ++ e ∷ [] }

  unfoldable pub upsert_assurance : MemStorage F → AssuranceState → MemStorage F
  upsert_assurance s a = record s {
    assurance = insert (joined a.tenant_id a.user_id) a s.assurance;
  }

  unfoldable pub get_assurance : MemStorage F → String → String → Option AssuranceState
  get_assurance s tenant user = lookup (joined tenant user) s.assurance

  unfoldable pub record_transaction_completion : MemStorage F → TransactionCompletion → MemStorage F
  record_transaction_completion s tc = record s {
    txn_done = insert (joined tc.tenant_id tc.transaction_id) tc s.txn_done;
  }

  unfoldable pub get_transaction_completion :
      MemStorage F → String → String → Option TransactionCompletion
  get_transaction_completion s tenant transaction = lookup (joined tenant transaction) s.txn_done

  unfoldable pub put_evaluation : MemStorage F → RiskEvaluation F → MemStorage F
  put_evaluation s e = record s { evaluations = insert e.id e s.evaluations }

  abbrev pub owned_evaluation : String → Option (RiskEvaluation F) → Option (RiskEvaluation F)
  owned_evaluation tenant none = none
  owned_evaluation tenant (some e) = if str_eq e.tenant_id tenant then some e else none

  unfoldable pub get_evaluation : MemStorage F → String → String → Option (RiskEvaluation F)
  get_evaluation s tenant id = owned_evaluation tenant (lookup id s.evaluations)

  unfoldable pub user_has_prior_evaluation : MemStorage F → String → String → Bool
  user_has_prior_evaluation s tenant user =
      some_value
        (values_where (λ e. str_eq e.tenant_id tenant && str_eq e.user_id user) s.evaluations)

  unfoldable pub create_policy : MemStorage F → Policy F → MemStorage F × Policy F
  create_policy s p = (record s { policies = insert p.id p s.policies }, p)

  abbrev pub owned_policy : String → Option (Policy F) → Option (Policy F)
  owned_policy tenant none = none
  owned_policy tenant (some p) = if str_eq p.tenant_id tenant then some p else none

  unfoldable pub get_policy : MemStorage F → String → String → Option (Policy F)
  get_policy s tenant id = owned_policy tenant (lookup id s.policies)

  abbrev pub policy_newer : Policy F → Policy F → Bool
  policy_newer a b =
      if a.created_at == b.created_at then str_ltb b.id a.id else ltb b.created_at a.created_at

  unfoldable pub list_policies : MemStorage F → String → ℕ → Option ℕ → List (Policy F)
  list_policies s tenant limit cursor = page limit (
      sort_by policy_newer (
        values_where (λ p. str_eq p.tenant_id tenant && older_than cursor p.created_at) s.policies))

  abbrev pub update_found :
      MemStorage F → Policy F → ℕ → Option (Policy F) → MemStorage F × Option (Policy F)
  update_found s p now none = (s, none)
  update_found s p now (some existing) =
      let p' : Policy F = record p { created_at = existing.created_at; updated_at = now } in
      (record s { policies = insert p.id p' s.policies }, some p')

  unfoldable pub update_policy : MemStorage F → Policy F → ℕ → MemStorage F × Option (Policy F)
  update_policy s p now = update_found s p now (owned_policy p.tenant_id (lookup p.id s.policies))

  abbrev pub delete_found : MemStorage F → String → Option (Policy F) → MemStorage F × Bool
  delete_found s id none = (s, false)
  delete_found s id (some p) = (record s { policies = delete id s.policies }, true)

  -- True is the nil error.
  unfoldable pub delete_policy : MemStorage F → String → String → MemStorage F × Bool
  delete_policy s tenant id = delete_found s id (owned_policy tenant (lookup id s.policies))
