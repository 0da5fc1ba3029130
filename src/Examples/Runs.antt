-- ===== src/Examples/Runs.antt =====
-- A workflow with a planner and gates, two rounds at most, at work.
use ad_coder.Prelude.{
  ℕ, ◌+◌, ◌≡◌, ◌≤◌, ◌<◌, refl, ◌⊎◌, Bool, true, false, Option, none, some, List, [], ◌∷◌, length,
}
use ad_coder.Workflow.{
  Phase, TransitionKind, AvailableTransition, Status, Complexity, OnChanges, Config, WorkflowState,
  planned, verdict, Turn, ok, StepResult,
}
use ad_coder.Workflow.Steps.{
  check_config, initial_state, step, step_in, step_gates, gate_transitions, edge,
}
use ad_coder.Workflow.Drive.{
  unrecognized, number, read_choice, commit_transition, apply_transition, find_offered, auto_driver,
  drive, settled, last_approved, advance_run,
}
use ad_coder.Workflow.Offers.{defaults, kinds_differ, step_offers}
use ad_coder.Workflow.Progress.{HasEnded, drive_ends_in_time}
use ad_coder.Workflow.Approval.{drive_approves}
use ad_coder.Workflow.Offered.{read_choice_commits}
use ad_coder.Workflow.Choices.{red_gate_blocks, stale_approval, stop_after_code}

abbrev gated : Config
gated = record {
  has_task = true;
  has_planner = true;
  has_security = false;
  has_gates = true;
  on_changes_requested = OnChanges.advances;
  auto_advance = true;
  max_rounds = 2;
  pre_complexity = Complexity.medium;
}

-- A plan without open questions, gates that answer `green`, and the verdict `v`.
abbrev answer : Bool → Status → Turn
answer green v = record {
  attempts = 7 ∷ [];
  has_failed = false;
  plan_turn = planned 0 none none;
  research_resolved = true;
  gates_passed = green;
  review_turn = verdict v;
}

-- The gates and the reviewer agree at once.
abbrev smooth : ℕ → Turn
smooth n = answer true Status.approved

abbrev at : Phase → List Status → Option Bool → WorkflowState
at p vs report = record {
  phase = p;
  round = 1;
  pre_complexity = Complexity.medium;
  effective = Complexity.medium;
  complexity = none;
  security_surface = none;
  verdicts = vs;
  last_gate_report = report;
  escalation = none;
  run_ids = [];
  done = false;
  approved = false;
}

abbrev approved_run : WorkflowState
approved_run = record (at Phase.done (Status.approved ∷ []) (some true)) {
  run_ids = 7 ∷ 7 ∷ 7 ∷ 7 ∷ [];
  done = true;
  approved = true;
}

smooth_run : drive 16 gated auto_driver smooth 0 (initial_state gated) ≡ settled approved_run
unfolding drive initial_state auto_driver
smooth_run = refl

drive_approves_example :
    (length approved_run.verdicts ≤ 2)
    × (approved_run.round ≤ 2)
    × ((approved_run.approved ≡ false)
        ⊎ ((last_approved approved_run.verdicts ≡ true)
            × ((gated.has_gates ≡ false) ⊎ (approved_run.last_gate_report ≡ some true))))
unfolding check_config
drive_approves_example = drive_approves 16 gated smooth approved_run refl smooth_run

drive_ends_in_time_example : HasEnded (drive 16 gated auto_driver smooth 0 (initial_state gated))
unfolding check_config
drive_ends_in_time_example = drive_ends_in_time gated smooth refl

-- The red gate of the last round but one.
abbrev red : StepResult
red = record {
  state = record (at Phase.gates [] (some false)) { run_ids = 7 ∷ [] };
  transitions =
      edge TransitionKind.advance true Phase.code 2
      ∷ edge TransitionKind.stop false Phase.done 1
      ∷ [];
}

red_offered : step gated (answer false Status.approved) (at Phase.gates [] none) ≡ ok red
unfolding step step_in step_gates gate_transitions
red_offered = refl

abbrev reworked : WorkflowState
reworked = record (at Phase.code [] (some false)) { round = 2; run_ids = 7 ∷ [] }

red_gate_blocks_example :
    ((reworked.phase ≡ Phase.code) × (reworked.round ≡ 1 + 1) × (1 < 2))
    ⊎ ((reworked.phase ≡ Phase.done) × (reworked.approved ≡ false))
unfolding commit_transition find_offered apply_transition
red_gate_blocks_example =
    red_gate_blocks gated (answer false Status.approved) (at Phase.gates [] none) reworked red
      (edge TransitionKind.advance true Phase.code 2) refl refl red_offered refl

read_choice_commits_example :
    (e : AvailableTransition) × (read_choice (unrecognized ∷ number 2 ∷ []) red.transitions ≡ ok e)
    × (commit_transition red e ≡ ok (apply_transition red.state e))
read_choice_commits_example =
    read_choice_commits gated (answer false Status.approved) (at Phase.gates [] none) red
      (unrecognized ∷ number 2 ∷ []) red_offered

step_offers_example : (defaults red.transitions ≡ 1) × (kinds_differ red.transitions ≡ true)
step_offers_example =
    step_offers gated (answer false Status.approved) (at Phase.gates [] none) red red_offered

-- The coder works again after an approval.
abbrev again : WorkflowState
again = record (at Phase.code (Status.approved ∷ []) (some true)) { round = 2 }

stale_approval_example :
    advance_run gated (stop_after_code gated again) (answer true Status.approved) again
    ≡ ok (record again { run_ids = 7 ∷ []; phase = Phase.done; done = true; approved = true })
stale_approval_example =
    stale_approval gated (answer true Status.approved) again refl refl refl refl
