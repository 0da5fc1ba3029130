-- ===== src/Workflow.antt =====
-- src/orchestration/session.ts and types.ts: the state of a workflow run between two steps, the
-- edges that a step offers, and what a role's turn gives. Texts, metrics and the context handed to
-- a role are left out: no edge depends on them.
pub mod Steps
pub mod Drive
pub mod Offers
pub mod Progress
pub mod Approval
pub mod Choices
pub mod Offered
use ad_coder.Prelude.{ℕ, Bool, Option, List}

pub data Phase : Type 0 where
  plan research security code gates review done : Phase

pub data TransitionKind : Type 0 where
  advance rework stop : TransitionKind

pub record AvailableTransition : Type 0 where
  pub kind : TransitionKind
  pub is_default : Bool
  pub to_phase : Phase
  pub to_round : ℕ

pub data Status : Type 0 where
  approved changes_requested decomposition_required : Status

pub data Complexity : Type 0 where
  trivial medium complex : Complexity

pub data Surface : Type 0 where
  none low elevated : Surface

pub data Reason : Type 0 where
  role_requested blocking_verdicts cap_exhausted : Reason

pub record EscalationSignal : Type 0 where
  pub required : Bool
  pub reason : Reason
  pub count : ℕ

-- What the session is built with: which optional roles and gates there are, and the resolved
-- transition policy.
pub data OnChanges : Type 0 where
  advances stops : OnChanges

pub record Config : Type 0 where
  pub has_task : Bool
  pub has_planner : Bool
  pub has_security : Bool
  pub has_gates : Bool
  pub on_changes_requested : OnChanges
  pub auto_advance : Bool
  pub max_rounds : ℕ
  pub pre_complexity : Complexity

pub record WorkflowState : Type 0 where
  pub phase : Phase
  pub round : ℕ
  pub pre_complexity : Complexity
  pub effective : Complexity
  pub complexity : Option Complexity
  pub security_surface : Option Surface
  pub verdicts : List Status
  pub last_gate_report : Option Bool
  pub escalation : Option EscalationSignal
  pub run_ids : List ℕ
  pub done : Bool
  pub approved : Bool

-- What comes back from the planner, the researcher and the reviewer.
pub data PlanTurn : Type 0 where
  no_plan : PlanTurn
  rejected_plan : PlanTurn
  planned : (unresolved : ℕ) → Option Surface → Option Complexity → PlanTurn

pub data ReviewTurn : Type 0 where
  no_verdict : ReviewTurn
  malformed_verdict : ReviewTurn
  verdict : Status → ReviewTurn

-- What the world answers in one step; `attempts` are the run ids of its attempts. A step reads the part that its phase asks for.
pub record Turn : Type 0 where
  pub attempts : List ℕ
  pub has_failed : Bool
  pub plan_turn : PlanTurn
  pub research_resolved : Bool
  pub gates_passed : Bool
  pub review_turn : ReviewTurn

pub data WorkflowError : Type 0 where
  invalid_max_rounds empty_task missing_role : WorkflowError
  stage_failed missing_plan malformed_plan requirements_unresolved : WorkflowError
  missing_verdict verdict_rejected : WorkflowError
  completed_workflow no_default input_exhausted invalid_transition : WorkflowError

pub data Result {ℓ} (A : Type ℓ) : Type ℓ where
  ok : A → Result A
  err : WorkflowError → Result A

pub record StepResult : Type 0 where
  pub state : WorkflowState
  pub transitions : List AvailableTransition
