-- ===== src/Control.antt =====
-- src/orchestration/control-plane.ts: the durable records of runs and their control plane. `Control` has
-- the data; `Scopes` the checks of texts, `Records`, `Decided`, `Resume` and `Executed` what the
-- operations make of a record, `Plane` the stored records and the calls that wait, `Children`, `Replies`,
-- `Steps` and `Advance` their steps, `Start` and `Operator` the calls that do not wait, and `Schedule` their
-- interleavings. Of a record, the verdicts, the
-- reviewed paths, the content binding, the publication, the operations and the intake statement are
-- left out. A host without `resolveAutoDecision` is one that answers with an error.
pub mod Scopes
pub mod Records
pub mod Decided
pub mod Resume
pub mod Executed
pub mod Plane
pub mod Children
pub mod Start
pub mod Operator
pub mod Replies
pub mod Steps
pub mod Advance
pub mod Schedule
pub mod Sound
pub mod Writes
pub mod Puts
pub mod Growth
pub mod Updates
pub mod Outcomes
pub mod Steady
pub mod Stepwise
pub mod Dispatching
pub mod Settling
pub mod Calls
pub mod Entries
pub mod Single
pub mod Gates
pub mod Inclusion
pub mod Families
pub mod Parents
pub mod Requests
use ad_coder.Prelude.{ℕ, String, Bool, true, false, Option, List}
use ad_coder.Limits.{Snapshot}

pub data RunMode : Type 0 where
  auto manual : RunMode

-- `ControlPlaneRunStatus`
pub data Status : Type 0 where
  queued running paused awaiting_decision cancelled complete failed : Status

pub record RunScope : Type 0 where
  pub allowed_paths : List String
  pub allowed_capabilities : List String
  pub external_effects : List String

pub record ChildPipelineSpec : Type 0 where
  pub task : String
  pub scope : RunScope
  pub parent_decision_id : Option String

pub data DecisionStatus : Type 0 where
  pending accepted rejected deferred : DecisionStatus

pub data Action : Type 0 where
  accept reject defer : Action

pub data Mandate : Type 0 where
  by_operator auto_mode : Mandate

pub record DecisionRecord : Type 0 where
  pub id : String
  pub status : DecisionStatus
  pub action : Option Action
  pub rationale : Option String
  pub evidence : List String
  pub scope : RunScope
  pub mandate_source : Mandate
  pub affected_run_ids : List String
  pub created_at : ℕ
  pub resolved_at : Option ℕ

pub data LimitSource : Type 0 where
  from_provider from_session from_project : LimitSource

pub data LimitState : Type 0 where
  unavailable limited unknown exhausted : LimitState

pub record ExternalLimit : Type 0 where
  pub source : LimitSource
  pub state : LimitState
  pub retry_after_ms : Option ℕ

pub data EventType : Type 0 where
  run_completed decision_required decomposition_required_event : EventType
  run_paused run_failed publication_completed : EventType

pub record ControlPlaneEvent : Type 0 where
  pub sequence : ℕ
  pub kind : EventType
  pub run_id : String
  pub created_at : ℕ

pub data RunBreakpoint : Type 0 where
  at_pipeline at_decision at_publication : RunBreakpoint

pub data BudgetKind : Type 0 where
  budget_accepted counter_estimated blocked : BudgetKind

pub record BudgetDecision : Type 0 where
  pub kind : BudgetKind
  pub evidence : List String

-- `PipelineResult.outcome`
pub data Outcome : Type 0 where
  approved decomposition_required : Outcome

pub record DurableRunRecord : Type 0 where
  pub id : String
  pub request_key : String
  pub task : String
  pub mode : RunMode
  pub status : Status
  pub depth : ℕ
  pub root_run_id : String
  pub parent_run_id : Option String
  pub child_run_ids : List String
  pub remaining_children : List ChildPipelineSpec
  pub scope : RunScope
  pub decisions : List DecisionRecord
  pub created_at : ℕ
  pub updated_at : ℕ
  pub cancel_requested : Bool
  pub provider_turn_in_flight : Bool
  pub execution_lease : Option String
  pub authorization_decision_id : Option String
  pub event_sequence : ℕ
  pub events : List ControlPlaneEvent
  pub result : Option Outcome
  pub external_limit : Option ExternalLimit
  pub failure_code : Option String
  pub breakpoint : Option RunBreakpoint
  pub session_limit_snapshot : Option Snapshot
  pub automatic_retry_attempts : ℕ
  pub budget_decision : Option BudgetDecision

pub record ControlPlaneConfig : Type 0 where
  pub auto_decomposition : Bool
  pub max_decomposition_depth : ℕ
  pub max_child_pipelines : ℕ
  pub max_queued_root_runs : ℕ
  pub max_active_root_runs : ℕ
  pub max_project_turns : ℕ
  pub max_project_cost_usd : ℕ
  pub retry_interval_ms : ℕ
  pub max_automatic_retry_attempts : ℕ

-- `ProjectOperationsError.code`
-- A store error comes out as `missing`, `checkpoint_conflict` or `resource_limit_reached`.
pub data PlaneError : Type 0 where
  invalid_config invalid_follow_up resource_limit_reached checkpoint_conflict : PlaneError
  pending_decision missing session_mismatch : PlaneError
  host_error : String → PlaneError

-- What the texts of the runtime and of the redactor are made of: `trim` and `sort` are JavaScript's,
-- `redact` is `redactCredentialLike`, `digest` the first 32 digits of the SHA-256 of a run's id, a
-- name and a number, `child_key` the first 64 characters of a request key with a child's id.
pub record Texts : Type 0 where
  pub trim : String → String
  pub sort : List String → List String
  pub redact : String → String
  pub digest : String → String → ℕ → String
  pub child_key : String → String → String
