-- ===== src/Workflow/Drive.antt =====
-- The drivers of a workflow run: `applyTransition`, `autoDriver` and `toPipelineResult` of
-- src/orchestration/session.ts, `assertTransitionOffered` of src/orchestration/transition-guard.ts,
-- the choice of src/cli/drive.ts, and the loop of `RunCoordinator.run` over `commitTransition`
-- (src/project-operations/run-coordinator.ts).
use ad_coder.Prelude.{
  ℕ, zero, suc, ◌==◌, ltb, Bool, true, false, ◌&&◌, Option, none, some, List, [], ◌∷◌,
  if◌then◌else◌, length,
}
use ad_coder.Workflow.{
  Phase, TransitionKind, advance, rework, stop, AvailableTransition, Status, Config,
  EscalationSignal, WorkflowState, Turn, Result, ok, err, StepResult, WorkflowError, no_default,
  input_exhausted, invalid_transition,
}
use ad_coder.Workflow.Steps.{step}

abbrev pub is_done : Phase → Bool
is_done Phase.done = true
is_done _ = false

-- `verdicts[verdicts.length - 1]?.status === "approved"`
abbrev pub is_approved : Status → Bool
is_approved Status.approved = true
is_approved _ = false

abbrev pub last_approved : List Status → Bool
last_approved [] = false
last_approved (v ∷ []) = is_approved v
last_approved (v ∷ w ∷ vs) = last_approved (w ∷ vs)

abbrev pub is_not_red : Option Bool → Bool
is_not_red (some false) = false
is_not_red _ = true

unfoldable pub apply_transition : WorkflowState → AvailableTransition → WorkflowState
apply_transition s t =
    if is_done t.to_phase
    then record s {
      phase = Phase.done;
      done = true;
      approved = last_approved s.verdicts && is_not_red s.last_gate_report;
    }
    else record s { phase = t.to_phase; round = t.to_round }

-- A driver picks one of the offered transitions or fails.
abbrev pub Driver : Type 0
Driver = List AvailableTransition → Result AvailableTransition

abbrev pub or_fail : Option AvailableTransition → WorkflowError → Result AvailableTransition
or_fail none e = err e
or_fail (some t) e = ok t

unfoldable pub find_default : List AvailableTransition → Option AvailableTransition
find_default [] = none
find_default (t ∷ ts) = if t.is_default then some t else find_default ts

unfoldable pub auto_driver : Driver
unfolding find_default
auto_driver ts = or_fail (find_default ts) no_default

abbrev pub same_kind : TransitionKind → TransitionKind → Bool
same_kind advance advance = true
same_kind rework rework = true
same_kind stop stop = true
same_kind _ _ = false

unfoldable pub phase_code : Phase → ℕ
phase_code Phase.plan = 0
phase_code Phase.research = 1
phase_code Phase.security = 2
phase_code Phase.code = 3
phase_code Phase.gates = 4
phase_code Phase.review = 5
phase_code Phase.done = 6

-- Equality by kind, phase and round.
unfoldable pub same_edge : AvailableTransition → AvailableTransition → Bool
unfolding phase_code
same_edge t u =
    same_kind t.kind u.kind
    && phase_code t.to_phase == phase_code u.to_phase
    && t.to_round == u.to_round

unfoldable pub find_offered :
    AvailableTransition → List AvailableTransition → Option AvailableTransition
unfolding same_edge
find_offered chosen [] = none
find_offered chosen (t ∷ ts) = if same_edge t chosen then some t else find_offered chosen ts

-- What an operator's line says once it is trimmed and lowercased.
pub data Answer : Type 0 where
  empty : Answer
  names : TransitionKind → Answer
  number : ℕ → Answer
  unrecognized : Answer

unfoldable pub find_kind : TransitionKind → List AvailableTransition → Option AvailableTransition
find_kind k [] = none
find_kind k (t ∷ ts) = if same_kind t.kind k then some t else find_kind k ts

-- `transitions[index - 1]` for an index from 1.
unfoldable pub pick : ℕ → List AvailableTransition → Option AvailableTransition
pick n [] = none
pick zero (t ∷ ts) = none
pick (suc zero) (t ∷ ts) = some t
pick (suc (suc n)) (t ∷ ts) = pick (suc n) ts

unfoldable pub answered : Answer → List AvailableTransition → Option AvailableTransition
unfolding find_default find_kind pick
answered empty ts = find_default ts
answered (names k) ts = find_kind k ts
answered (number n) ts = pick n ts
answered unrecognized ts = none

-- `readChoice`: it asks again until a line is a choice; the end of the input takes the default.
unfoldable pub read_choice : List Answer → Driver
unfolding answered
read_choice [] ts = or_fail (find_default ts) input_exhausted
read_choice (a ∷ as') ts = elim (answered a ts) [ none ↦ read_choice as' ts | some t ↦ ok t ]

-- `commitTransition`: the edge that was offered is applied, not the one that was handed over.
unfoldable pub commit_transition : StepResult → AvailableTransition → Result WorkflowState
unfolding find_offered apply_transition
commit_transition r chosen = elim (find_offered chosen r.transitions) [
  | none ↦ err invalid_transition
  | some t ↦ ok (apply_transition r.state t)
]

infixl 5 ◌>>=◌
abbrev pub ◌>>=◌ : {A B : Type 0} → Result A → (A → Result B) → Result B
ok a >>= f = f a
err e >>= f = err e

-- One round of the loop: a step, the driver's choice, the commit.
unfoldable pub advance_run : Config → Driver → Turn → WorkflowState → Result WorkflowState
unfolding step commit_transition
advance_run c d t s = do r ← step c t s; chosen ← d r.transitions; commit_transition r chosen

pub data Outcome : Type 0 where
  settled : WorkflowState → Outcome
  paused : WorkflowError → WorkflowState → Outcome
  unfinished : WorkflowState → Outcome

-- `RunCoordinator.run`, with the answer of each step taken from `ts`. `unfinished` means that the
-- fuel ran out.
unfoldable pub drive : ℕ → Config → Driver → (ℕ → Turn) → ℕ → WorkflowState → Outcome
unfolding advance_run
drive zero c d ts n s = unfinished s
drive (suc fuel) c d ts n s = elim (is_done s.phase) [
  | true ↦ settled s
  | false ↦ elim (advance_run c d (ts n) s) [
    | err e ↦ paused e s
    | ok s' ↦ drive fuel c d ts (suc n) s'
  ]
]

-- `toPipelineResult`
pub record PipelineResult : Type 0 where
  pub approved : Bool
  pub rounds : ℕ
  pub verdicts : List Status
  pub review_ran : Bool
  pub run_ids : List ℕ
  pub escalation : Option EscalationSignal

unfoldable pub to_pipeline_result : WorkflowState → PipelineResult
to_pipeline_result s = record {
  approved = s.approved;
  rounds = length s.verdicts;
  verdicts = s.verdicts;
  review_ran = ltb 0 (length s.verdicts);
  run_ids = s.run_ids;
  escalation = s.escalation;
}
