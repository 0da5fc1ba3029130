-- ===== src/Workflow/Choices.antt =====
-- The operator's choice, and the edges that lead out of a red gate or a reviewed round.
use ad_coder.Prelude.{◌+◌, ◌<◌, ◌≡◌, ◌⊎◌, true, false, not, List, ◌++◌, arith}
use ad_coder.Workflow.{
  Phase, TransitionKind, AvailableTransition, Config, WorkflowState, Turn, Result, ok, StepResult,
}
use ad_coder.Workflow.Steps.{step_in, step, edge, step_code, step_gates, gate_transitions}
use ad_coder.Workflow.Drive.{
  apply_transition, commit_transition, find_offered, last_approved, advance_run, is_not_red,
}

-- From a red gate report, whatever the driver chooses among the edges offered, the round that
-- follows is the coder's next round with rounds left, or the end of the run without an approval.
pub red_gate_blocks :
    (c : Config) (t : Turn) (s s' : WorkflowState) (r : StepResult) (chosen : AvailableTransition)
    → s.phase ≡ Phase.gates
    → t.gates_passed ≡ false
    → step c t s ≡ ok r
    → commit_transition r chosen ≡ ok s'
    → ((s'.phase ≡ Phase.code) × (s'.round ≡ s.round + 1) × (s.round < c.max_rounds))
      ⊎ ((s'.phase ≡ Phase.done) × (s'.approved ≡ false))
unfolding step step_in step_gates gate_transitions commit_transition find_offered apply_transition
red_gate_blocks c t s s' r chosen p g h k = ground arith

-- The operator stops after the coder's turn.
abbrev pub stop_after_code :
    Config → WorkflowState → List AvailableTransition → Result AvailableTransition
stop_after_code c s ts = ok (edge TransitionKind.stop (not c.auto_advance) Phase.done s.round)

-- In the coder's phase, with a last verdict that approves and a last gate report that is not red, a
-- coder's turn that succeeds and a stop after it settle the run as approved, with no further verdict:
-- what the coder changed in that turn was not reviewed.
pub stale_approval :
    (c : Config) (t : Turn) (s : WorkflowState)
    → s.phase ≡ Phase.code
    → t.has_failed ≡ false
    → last_approved s.verdicts ≡ true
    → is_not_red s.last_gate_report ≡ true
    → advance_run c (stop_after_code c s) t s
      ≡ ok (record s {
        run_ids = s.run_ids ++ t.attempts;
        phase = Phase.done;
        done = true;
        approved = true;
      })
unfolding advance_run step step_in step_code commit_transition find_offered apply_transition
stale_approval c t s p f l g = ground arith
