-- ===== src/Examples/Controls.antt =====
-- Two calls of `resume` that race for one run, a run that is cancelled while it executes, and a run
-- that decomposes.
use ad_coder.Prelude.{
  inr, ℕ, ◌≤◌, String, true, false, ◌||◌, none, some, List, [], ◌∷◌, lookup, ◌≡◌, refl,
}
use ad_coder.Limits.{Controller, construct}
use ad_coder.Control.{
  RunScope, manual, approved, decomposition_required, ControlPlaneConfig, counter_estimated,
  ChildPipelineSpec, DecisionRecord, DurableRunRecord, Texts, complete, EventType, DecisionStatus,
  Mandate, Action,
}
use ad_coder.Control.Records.{done, is_terminal, with_status}
use ad_coder.Control.Resume.{await_availability, Facts, resume_plan}
use ad_coder.Control.Plane.{Held, World, persist_session_limits}
use ad_coder.Control.Children.{Answers, child_returned}
use ad_coder.Control.Start.{StartRunInput, root_record, start}
use ad_coder.Control.Schedule.{
  Event, started, resumed, cancelled, answered, crashed, Setup, opened, reached, run,
}
use ad_coder.Control.Sound.{IsHeld, executions, flight, is_cancelled, starts, NumberedFrom}
use ad_coder.Control.Single.{executions-flight, cancelled_stays, events-numbered}
use ad_coder.Control.Gates.{IsBudgeted, resume_plan-IsBudgeted}
use ad_coder.Control.Families.{IsFamily, settlement-decomposed_record}
use ad_coder.Control.Parents.{child_returned_persisted}
use ad_coder.Control.Requests.{start_again}
use ad_coder.Control.Replies.{proceed, executed, last_record}
use ad_coder.Control.Updates.{WhenDone}
use ad_coder.Control.Executed.{Execution, to_decide, settlement, decomposed_record}

abbrev texts : Texts
texts = record {
  trim = λ s. s;
  sort = λ xs. xs;
  redact = λ s. s;
  digest = λ id name n. name;
  child_key = λ key id. id;
}

abbrev settings : ControlPlaneConfig
settings = record {
  auto_decomposition = true;
  max_decomposition_depth = 2;
  max_child_pipelines = 4;
  max_queued_root_runs = 0;
  max_active_root_runs = 3;
  max_project_turns = 0;
  max_project_cost_usd = 0;
  retry_interval_ms = 0;
  max_automatic_retry_attempts = 0;
}

abbrev plane : Setup
plane = record {
  texts = texts;
  config = settings;
  bytes_of = λ v. 100;
  index_bytes = λ v. 10;
  estimate = some (record { kind = counter_estimated; evidence = [] });
  jitter = λ n. n;
  index = record { states = []; byte_limit = 0 };
  byte_limit = 0;
  session = none;
  retries = none;
}

abbrev scope : RunScope
scope = record {
  allowed_paths = "src" ∷ "docs" ∷ [];
  allowed_capabilities = [];
  external_effects = [];
}

abbrev input : StartRunInput
input = record {
  request_key = "key-1";
  task = "port the parser";
  mode = manual;
  scope = scope;
  budget = none;
  has_resolver = false;
}

abbrev at : ℕ → String → Answers
at now id = record { now = now; new_id = id; rationale = "" }

-- Both calls are past the provider's answer when the first is dispatched.
abbrev racing : List Event
racing =
    started (at 1 "r1") input
    ∷ resumed "r1" none
    ∷ resumed "r1" none
    ∷ answered 0 (at 2 "") proceed
    ∷ answered 1 (at 3 "") proceed
    ∷ answered 0 (at 4 "lease-1") proceed
    ∷ answered 0 (at 5 "lease-2") proceed
    ∷ []

racing_started : (reached plane racing).started ≡ "r1" ∷ []
unfolding reached
racing_started = refl

executions-flight_example :
    (executions "r1" (reached plane racing).tasks
      ≤ flight (lookup "r1" (reached plane racing).runs.states))
    × (executions "r1" (reached plane racing).tasks ≤ 1)
executions-flight_example = executions-flight plane racing "r1"

-- A cancellation while the run executes; then the execution is approved and the run resumed.
abbrev stopped : List Event
stopped =
    started (at 1 "r1") input
    ∷ resumed "r1" none
    ∷ answered 0 (at 2 "") proceed
    ∷ answered 0 (at 3 "lease-1") proceed
    ∷ cancelled 4 "r1"
    ∷ []

abbrev after_stop : List Event
after_stop =
    answered 0 (at 5 "") (executed (record { outcome = approved; children = [] }))
    ∷ resumed "r1" none
    ∷ answered 0 (at 6 "") proceed
    ∷ crashed
    ∷ []

stopped-cancelled : is_cancelled (lookup "r1" (reached plane stopped).runs.states) ≡ true
unfolding reached
stopped-cancelled = refl

cancelled_stays_example :
    (is_cancelled (lookup "r1" (run plane after_stop (reached plane stopped)).runs.states) ≡ true)
    × (starts "r1" (run plane after_stop (reached plane stopped)).started
        ≡ starts "r1" (reached plane stopped).started)
cancelled_stays_example = cancelled_stays plane stopped after_stop "r1" stopped-cancelled

-- The provider's limits pause nothing here; the run is complete after its execution.
abbrev finished : List Event
finished =
    started (at 1 "r1") input
    ∷ resumed "r1" none
    ∷ answered 0 (at 2 "") proceed
    ∷ answered 0 (at 3 "lease-1") proceed
    ∷ answered 0 (at 5 "") (executed (record { outcome = approved; children = [] }))
    ∷ []

abbrev first_record : DurableRunRecord
unfolding root_record
first_record = root_record texts settings (at 1 "r1") input

abbrev finished_state : Held
finished_state = record {
  version = 4;
  value = record first_record {
    status = complete;
    updated_at = 5;
    event_sequence = 1;
    events =
        record { sequence = 1; kind = EventType.run_completed; run_id = "r1"; created_at = 5 } ∷ [];
    result = some approved;
    budget_decision = some (record { kind = counter_estimated; evidence = [] });
  };
}

finished-lookup : lookup "r1" (reached plane finished).runs.states ≡ some finished_state
unfolding reached root_record
finished-lookup = refl

events-numbered_example :
    (finished_state.value.id ≡ "r1")
    × NumberedFrom "r1" 0 finished_state.value.events finished_state.value.event_sequence
events-numbered_example = events-numbered plane finished "r1" finished_state finished-lookup

-- A resumption without a stated budget, which is estimated.
abbrev facts : Facts
facts = record {
  estimate = some (record { kind = counter_estimated; evidence = [] });
  project_exhausted = false;
  session_exhausted = false;
  now = 7;
}

first-waits : (resume_plan none facts first_record).next ≡ await_availability
unfolding resume_plan root_record
first-waits = refl

resume_plan-IsBudgeted_example :
    ((is_terminal first_record.status || first_record.provider_turn_in_flight) ≡ false)
    × (first_record.cancel_requested ≡ false)
    × (facts.project_exhausted ≡ false)
    × (facts.session_exhausted ≡ false)
    × IsBudgeted (last_record first_record (resume_plan none facts first_record).writes)
resume_plan-IsBudgeted_example = resume_plan-IsBudgeted facts none first_record first-waits

-- An execution that proposes two child runs.
abbrev child : String → ChildPipelineSpec
child task = record {
  task = task;
  scope = record { allowed_paths = "src" ∷ []; allowed_capabilities = []; external_effects = [] };
  parent_decision_id = none;
}

abbrev proposal : Execution
proposal = record {
  outcome = decomposition_required;
  children = child "port the lexer" ∷ child "port the printer" ∷ [];
}

abbrev decision : DecisionRecord
decision = record {
  id = "decomposition";
  status = DecisionStatus.pending;
  action = none;
  rationale = none;
  evidence = "docs/contracts/operation-modes.md" ∷ [];
  scope = scope;
  mandate_source = Mandate.by_operator;
  affected_run_ids = "r1" ∷ [];
  created_at = 9;
  resolved_at = none;
}

abbrev proposing : DurableRunRecord
proposing = record first_record { result = some decomposition_required; updated_at = 9 }

proposal-decides :
    settlement texts settings "" proposal 2 9 first_record ≡ done (to_decide proposing decision)
unfolding settlement root_record
proposal-decides = refl

-- The host accepts the proposal.
abbrev acceptance : DecisionRecord
acceptance = record decision {
  status = DecisionStatus.accepted;
  action = some Action.accept;
  rationale = some "two parts";
  resolved_at = some 11;
}

settlement-decomposed_record_example :
    IsFamily texts settings 2
      (decomposed_record texts settings acceptance proposal.children 12 proposing)
unfolding root_record
settlement-decomposed_record_example =
    settlement-decomposed_record texts settings "" proposal 2 9 12 first_record proposing decision
      acceptance refl proposal-decides

-- The parent holds its third version, and the session's limits are written over it.
abbrev parent : Held
parent = record { version = 3; value = first_record }

abbrev session : Controller
unfolding construct
session = construct (record { max_turns = 9; max_cost_usd = 0 })

abbrev with_parent : World
with_parent = record (opened plane) {
  runs = record { states = ("r1", parent) ∷ []; byte_limit = 0 };
  session = some session;
}

abbrev persisted : World
unfolding persist_session_limits
persisted = (persist_session_limits (λ v. 100) "r1" 8 with_parent).0

parent-IsHeld : IsHeld with_parent.runs parent
unfolding lookup first_record root_record
parent-IsHeld = (parent, refl, inr refl)

persists : persist_session_limits (λ v. 100) parent.value.id 8 with_parent ≡ (persisted, done 4)
unfolding persist_session_limits persisted first_record root_record
persists = refl

child_returned_persisted_example :
    child_returned texts
      (λ v. 100)
      (at 9 "")
      (with_status complete 8 first_record)
      parent
      []
      persisted
    ≡ persisted
unfolding first_record
child_returned_persisted_example =
    child_returned_persisted (λ v. 100) texts (at 9 "") (with_status complete 8 first_record) parent
      [] 8 4 with_parent persisted session refl parent-IsHeld refl persists

-- The same request twice, with another task.
abbrev again : StartRunInput
again = record input { task = "port the printer" }

abbrev once : World
unfolding start
once = (start texts settings (λ v. 100) (λ v. 10) (at 1 "r1") input (opened plane)).0

once-started :
    start texts settings (λ v. 100) (λ v. 10) (at 1 "r1") input (opened plane)
    ≡ (once, done first_record)
unfolding start root_record
once-started = refl

start_again_example :
    ((start texts settings (λ v. 100) (λ v. 10) (at 2 "r2") again once).0.runs ≡ once.runs)
    × WhenDone
        (λ s. s ≡ first_record)
        (start texts settings (λ v. 100) (λ v. 10) (at 2 "r2") again once).1
start_again_example =
    start_again texts settings (λ v. 100) (λ v. 10) (at 1 "r1") (at 2 "r2") input again
      (opened plane) once first_record once-started refl
