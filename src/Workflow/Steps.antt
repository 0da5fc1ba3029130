-- ===== src/Workflow/Steps.antt =====
-- src/orchestration/session.ts, `createWorkflowSession`: the steps and the edges that each offers.
use ad_coder.Prelude.{
  ℕ, ◌+◌, ltb, leb, Bool, true, false, not, ◌&&◌, Option, none, some, List, [], ◌∷◌, ◌++◌,
  if◌then◌else◌,
}
use ad_coder.Workflow.{
  Phase, TransitionKind, advance, rework, stop, AvailableTransition, Status, approved,
  changes_requested, decomposition_required, Complexity, Surface, elevated, Reason, role_requested,
  blocking_verdicts, cap_exhausted, EscalationSignal, OnChanges, advances, stops, Config,
  WorkflowState, PlanTurn, no_plan, rejected_plan, planned, ReviewTurn, no_verdict,
  malformed_verdict, verdict, Turn, Result, ok, err, StepResult, invalid_max_rounds, empty_task,
  missing_role, stage_failed, missing_plan, malformed_plan, requirements_unresolved,
  missing_verdict, verdict_rejected, completed_workflow,
}

-- The checks of `createWorkflowSession` that come before any role runs.
unfoldable pub check_config : Config → Result (Unit {0})
check_config c =
    if ltb c.max_rounds 1
    then err invalid_max_rounds
    else if c.has_task
    then ok tt
    else err empty_task

unfoldable pub initial_state : Config → WorkflowState
initial_state c = record {
  phase = if c.has_planner then Phase.plan else Phase.code;
  round = 1;
  pre_complexity = c.pre_complexity;
  effective = c.pre_complexity;
  complexity = none;
  security_surface = none;
  verdicts = [];
  last_gate_report = none;
  escalation = none;
  run_ids = [];
  done = false;
  approved = false;
}

abbrev pub edge : TransitionKind → Bool → Phase → ℕ → AvailableTransition
edge k d p r = record { kind = k; is_default = d; to_phase = p; to_round = r }

-- The forward edge of a linear phase, and the stop.
abbrev pub linear : Config → Phase → ℕ → List AvailableTransition
linear c p r = edge advance c.auto_advance p r ∷ edge stop (not c.auto_advance) Phase.done r ∷ []

abbrev pub is_elevated : Option Surface → Bool
is_elevated (some elevated) = true
is_elevated _ = false

-- The phase after the plan is settled: the security review only on an elevated surface with a role
-- for it.
abbrev pub after_plan : Config → Option Surface → Phase
after_plan c s = if is_elevated s && c.has_security then Phase.security else Phase.code

abbrev known : Option Complexity → Option Complexity → Option Complexity
known none old = old
known (some x) old = some x

abbrev kept : Option Surface → Option Surface → Option Surface
kept none old = old
kept (some x) old = some x

abbrev or_else : Option Complexity → Complexity → Complexity
or_else none d = d
or_else (some x) d = x

unfoldable pub settle_plan : Config → Turn → WorkflowState → PlanTurn → Result StepResult
settle_plan c t s no_plan = err missing_plan
settle_plan c t s rejected_plan = err malformed_plan
settle_plan c t s (planned unresolved surface x) = ok (record {
  state = record s {
    run_ids = s.run_ids ++ t.attempts;
    effective = or_else x s.pre_complexity;
    complexity = known x s.complexity;
    security_surface = kept surface s.security_surface;
  };
  transitions =
      linear c (if ltb 0 unresolved then Phase.research else after_plan c surface) s.round;
})

unfoldable pub step_plan : Config → Turn → WorkflowState → Result StepResult
unfolding settle_plan
step_plan c t s =
    if not c.has_planner
    then err missing_role
    else if t.has_failed
    then err stage_failed
    else settle_plan c t s t.plan_turn

unfoldable pub step_research : Config → Turn → WorkflowState → Result StepResult
step_research c t s =
    if t.has_failed
    then err stage_failed
    else if t.research_resolved
    then ok (record {
      state = record s { run_ids = s.run_ids ++ t.attempts };
      transitions = linear c (after_plan c s.security_surface) s.round;
    })
    else err requirements_unresolved

unfoldable pub step_security : Config → Turn → WorkflowState → Result StepResult
step_security c t s =
    if not c.has_security
    then err missing_role
    else if t.has_failed
    then err stage_failed
    else ok (record {
      state = record s { run_ids = s.run_ids ++ t.attempts };
      transitions = linear c Phase.code s.round;
    })

unfoldable pub step_code : Config → Turn → WorkflowState → Result StepResult
step_code c t s =
    if t.has_failed
    then err stage_failed
    else ok (record {
      state = record s { run_ids = s.run_ids ++ t.attempts };
      transitions =
          edge advance c.auto_advance (if c.has_gates then Phase.gates else Phase.review) s.round
          ∷ edge rework false Phase.code (s.round + 1)
          ∷ edge stop (not c.auto_advance) Phase.done s.round
          ∷ [];
    })

-- A green report leads to the review, a red one back to the coder while rounds are left.
unfoldable pub gate_transitions : Config → Bool → ℕ → List AvailableTransition
gate_transitions c passed r =
    if passed
    then edge advance c.auto_advance Phase.review r
      ∷ edge rework false Phase.code (r + 1)
      ∷ edge stop (not c.auto_advance) Phase.done r
      ∷ []
    else if ltb r c.max_rounds
    then edge advance c.auto_advance Phase.code (r + 1)
      ∷ edge stop (not c.auto_advance) Phase.done r
      ∷ []
    else edge stop true Phase.done r ∷ []

unfoldable pub step_gates : Config → Turn → WorkflowState → Result StepResult
unfolding gate_transitions
step_gates c t s =
    if not c.has_gates
    then err missing_role
    else if t.has_failed
    then err stage_failed
    else ok (record {
      state = record s {
        run_ids = s.run_ids ++ t.attempts;
        last_gate_report = some t.gates_passed;
      };
      transitions = gate_transitions c t.gates_passed s.round;
    })

abbrev pub is_blocking : Status → ℕ
is_blocking approved = 0
is_blocking _ = 1

unfoldable pub blocking_verdict_count : List Status → ℕ
blocking_verdict_count [] = 0
blocking_verdict_count (v ∷ vs) = is_blocking v + blocking_verdict_count vs

abbrev pub is_advances : OnChanges → Bool
is_advances advances = true
is_advances stops = false

abbrev pub signal : Bool → Reason → ℕ → Option EscalationSignal
signal required reason n = some (record { required = required; reason = reason; count = n })

-- The stop rule: the edges and the escalation, by the verdict, the number of blocking verdicts
-- with this one, and the round.
unfoldable pub review_outcome :
    Config → Status → ℕ → ℕ → List AvailableTransition × Option EscalationSignal
review_outcome c approved n r =
    (edge stop true Phase.done r ∷ edge rework false Phase.code (r + 1) ∷ [], none)
review_outcome c decomposition_required n r =
    (edge stop true Phase.done r ∷ [], signal true role_requested n)
review_outcome c changes_requested n r =
    if leb 2 n
    then (edge stop true Phase.done r ∷ [], signal true blocking_verdicts n)
    else if ltb r c.max_rounds
    then (
      edge advance (is_advances c.on_changes_requested) Phase.code (r + 1)
          ∷ edge stop (not (is_advances c.on_changes_requested)) Phase.done r
          ∷ [],
      none,
    )
    else (edge stop true Phase.done r ∷ [], signal false cap_exhausted n)

abbrev pub escalate : Option EscalationSignal → Option EscalationSignal → Option EscalationSignal
escalate none old = old
escalate (some e) old = some e

unfoldable pub settle_review : Config → Turn → WorkflowState → ReviewTurn → Result StepResult
unfolding blocking_verdict_count review_outcome
settle_review c t s no_verdict = err missing_verdict
settle_review c t s malformed_verdict = err verdict_rejected
settle_review c t s (verdict v) =
    let vs = s.verdicts ++ (v ∷ []) in
    let (offered, raised) = review_outcome c v (blocking_verdict_count vs) s.round in
    ok (record {
      state = record s {
        verdicts = vs;
        run_ids = s.run_ids ++ t.attempts;
        escalation = escalate raised s.escalation;
      };
      transitions = offered;
    })

unfoldable pub step_review : Config → Turn → WorkflowState → Result StepResult
unfolding settle_review
step_review c t s = if t.has_failed then err stage_failed else settle_review c t s t.review_turn

unfoldable pub step_in : Phase → Config → Turn → WorkflowState → Result StepResult
unfolding step_plan step_research step_security step_code step_gates step_review
step_in Phase.plan = step_plan
step_in Phase.research = step_research
step_in Phase.security = step_security
step_in Phase.code = step_code
step_in Phase.gates = step_gates
step_in Phase.review = step_review
step_in Phase.done = λ c t s. err completed_workflow

unfoldable pub step : Config → Turn → WorkflowState → Result StepResult
unfolding step_in
step c t s = step_in s.phase c t s
