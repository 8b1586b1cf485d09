-- ===== src/Authentication/Flow.antt =====
-- The flow executor (flowexec.go, flowmodels.go): parked executions, and the loop that drives one
-- through the stages of its flow. `mu` makes each operation of the registry one step. A stage writes to
-- the response and to other services: `W` is the world that it changes, `X` its context bag.
pub mod Termination
use x_auth_site.Base.{
  ℕ, zero, suc, ◌+◌, ◌*◌, String, Bool, true, false, not, Option, none, some, List, [], ◌∷◌, ltb,
  if◌then◌else◌,
}
use x_auth_site.Base.Dict.{Dict, lookup, insert, delete, keep_if}

pub data StageResult : Type 0 where
  -- `other` stands for every other value of the integer type.
  continue respond complete deny other : StageResult

pub record FlowExecution (X : Type 0) : Type 0 where
  pub id : String
  pub tenant_id : String
  pub designation : String
  pub flow_slug : String
  pub cursor : ℕ
  pub client_id : String
  pub user_id : String
  pub redirect_uri : String
  pub scope : String
  pub state : String
  pub nonce : String
  pub code_challenge : String
  pub transaction_id : String
  pub authz_session_id : String
  pub acr_values : String
  pub achieved_acr : String
  pub achieved_amr : List String
  pub context : X
  pub created_at : ℕ

-- In nanoseconds: ten minutes.
abbrev pub flow_exec_ttl : ℕ
flow_exec_ttl = 600_000_000_000

-- Parked longer than the lifetime.
abbrev pub is_stale : {X : Type 0} → ℕ → FlowExecution X → Bool
is_stale now e = ltb (e.created_at + flow_exec_ttl) now

module _ {X : Type 0} where
  unfoldable pub put : Dict (FlowExecution X) → FlowExecution X → ℕ → Dict (FlowExecution X)
  put execs e now = insert e.id e (keep_if (λ v. not (is_stale now v)) execs)

  abbrev pub got :
      Dict (FlowExecution X)
      → String
      → ℕ
      → Option (FlowExecution X)
      → Dict (FlowExecution X) × Option (FlowExecution X)
  got execs id now none = (delete id execs, none)
  got execs id now (some e) = if is_stale now e then (delete id execs, none) else (execs, some e)

  unfoldable pub get :
      Dict (FlowExecution X) → String → ℕ → Dict (FlowExecution X) × Option (FlowExecution X)
  get execs id now = got execs id now (lookup id execs)

  unfoldable pub drop : Dict (FlowExecution X) → String → Dict (FlowExecution X)
  drop execs id = delete id execs

  abbrev pub advance : FlowExecution X → FlowExecution X
  advance e = record e { cursor = suc e.cursor }

-- What `Execute` does: the world and the execution after it, and its result (`none` is an error).
pub record Executed (W X : Type 0) : Type 0 where
  pub world : W
  pub exec : FlowExecution X
  pub result : Option StageResult

abbrev pub Stage : Type 0 → Type 0 → Type 0
Stage W X = W → FlowExecution X → Executed W X

-- What the executor answers: `failed` if a stage had an error.
pub record Outcome (W X : Type 0) : Type 0 where
  pub world : W
  pub exec : FlowExecution X
  pub result : StageResult
  pub failed : Bool

abbrev pub stage_at : {A : Type 0} → List A → ℕ → Option A
stage_at [] n = none
stage_at (s ∷ ss) zero = some s
stage_at (s ∷ ss) (suc n) = stage_at ss n

module _ {W X : Type 0} where
  abbrev pub stopped : Executed W X → StageResult → Bool → Outcome W X
  stopped out r failed = record { world = out.world; exec = out.exec; result = r; failed = failed }

  -- One result of a stage; `later` is the loop after it.
  abbrev pub settled :
      Executed W X
      → (W → FlowExecution X → Option (Outcome W X))
      → Option StageResult
      → Option (Outcome W X)
  settled out later none = some (stopped out deny true)
  settled out later (some continue) = later out.world (advance out.exec)
  settled out later (some other) = later out.world (advance out.exec)
  settled out later (some respond) = some (stopped out respond false)
  settled out later (some complete) = some (stopped out complete false)
  settled out later (some deny) = some (stopped out deny false)

  abbrev pub round_of :
      W
      → FlowExecution X
      → (W → FlowExecution X → Option (Outcome W X))
      → Option (Stage W X)
      → Option (Outcome W X)
  round_of w e later none = some (record { world = w; exec = e; result = complete; failed = false })
  round_of w e later (some stage) = settled (stage w e) later (stage w e).result

  -- The loop of `runFlow`, on fuel.
  unfoldable pub run_flow : List (Stage W X) → ℕ → W → FlowExecution X → Option (Outcome W X)
  run_flow stages zero w e = none
  run_flow stages (suc fuel) w e =
      round_of w e (λ w' e'. run_flow stages fuel w' e') (stage_at stages e.cursor)
