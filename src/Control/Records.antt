-- ===== src/Control/Records.antt =====
-- src/orchestration/control-plane.ts: events, statuses and decisions of a record, and the results of the
-- operations.
use ad_coder.Prelude.{
  ℕ, ◌+◌, String, Bool, true, false, Option, none, some, [], ◌∷◌, ◌++◌, if◌then◌else◌,
}
use ad_coder.Control.{
  RunMode, Status, queued, running, paused, awaiting_decision, cancelled, complete, failed,
  DecisionStatus, pending, accepted, rejected, deferred, Action, accept, reject, defer, by_operator,
  auto_mode, auto, manual, Mandate, EventType, BudgetDecision, budget_accepted, counter_estimated,
  blocked, BudgetKind, DurableRunRecord, PlaneError, invalid_config, invalid_follow_up,
  resource_limit_reached, checkpoint_conflict, pending_decision, missing, session_mismatch,
  host_error,
}

-- `withEvent`, at a time.
abbrev pub with_event : EventType → ℕ → DurableRunRecord → DurableRunRecord
with_event kind now r = record r {
  event_sequence = r.event_sequence + 1;
  events =
      r.events
      ++ (record { sequence = r.event_sequence + 1; kind = kind; run_id = r.id; created_at = now }
          ∷ []);
}

abbrev pub with_status : Status → ℕ → DurableRunRecord → DurableRunRecord
with_status status now r = record r { status = status; updated_at = now }

abbrev pub is_terminal : Status → Bool
is_terminal complete = true
is_terminal failed = true
is_terminal cancelled = true
is_terminal queued = false
is_terminal running = false
is_terminal paused = false
is_terminal awaiting_decision = false

abbrev pub is_queued : Status → Bool
is_queued queued = true
is_queued running = false
is_queued paused = false
is_queued awaiting_decision = false
is_queued cancelled = false
is_queued complete = false
is_queued failed = false

abbrev pub is_active : Status → Bool
is_active running = true
is_active paused = true
is_active awaiting_decision = true
is_active queued = false
is_active cancelled = false
is_active complete = false
is_active failed = false

abbrev pub is_running : Status → Bool
is_running running = true
is_running queued = false
is_running paused = false
is_running awaiting_decision = false
is_running cancelled = false
is_running complete = false
is_running failed = false

abbrev pub is_resolvable : Status → Bool
is_resolvable queued = true
is_resolvable awaiting_decision = true
is_resolvable running = false
is_resolvable paused = false
is_resolvable cancelled = false
is_resolvable complete = false
is_resolvable failed = false

abbrev pub is_manual : RunMode → Bool
is_manual manual = true
is_manual auto = false

abbrev pub is_pending : DecisionStatus → Bool
is_pending pending = true
is_pending accepted = false
is_pending rejected = false
is_pending deferred = false

abbrev pub is_accepted : DecisionStatus → Bool
is_accepted accepted = true
is_accepted pending = false
is_accepted rejected = false
is_accepted deferred = false

abbrev pub mandate_of : RunMode → Mandate
mandate_of auto = auto_mode
mandate_of manual = by_operator

abbrev pub status_of : Action → DecisionStatus
status_of accept = accepted
status_of reject = rejected
status_of defer = deferred

-- The status of a run after a decision of it: a deferred one pauses it.
abbrev pub after_action : Action → Status
after_action accept = queued
after_action reject = queued
after_action defer = paused

abbrev pub is_startable_kind : BudgetKind → Bool
is_startable_kind budget_accepted = true
is_startable_kind counter_estimated = true
is_startable_kind blocked = false

-- `isWorkStartableBudget`
abbrev pub is_work_startable : BudgetDecision → Bool
is_work_startable b = is_startable_kind b.kind

-- `ProjectOperationsError.code`, and the code of any other error.
abbrev pub code_of : PlaneError → String
code_of invalid_config = "invalid_config"
code_of invalid_follow_up = "invalid_follow_up"
code_of resource_limit_reached = "resource_limit"
code_of checkpoint_conflict = "checkpoint_conflict"
code_of pending_decision = "pending_decision"
code_of missing = "not_found"
code_of session_mismatch = "unexpected"
code_of (host_error code) = code

-- A result, or what was thrown.
pub data Tried {ℓ} (A : Type ℓ) : Type ℓ where
  done : A → Tried A
  raised : PlaneError → Tried A

infixl 5 ◌>>=◌
abbrev pub ◌>>=◌ {κ μ} : {A : Type κ} {B : Type μ} → Tried A → (A → Tried B) → Tried B
done a >>= f = f a
raised e >>= f = raised e

abbrev pub require : Bool → PlaneError → Tried Bool
require b e = if b then done true else raised e

abbrev pub from_option {ℓ} : {A : Type ℓ} → Option A → PlaneError → Tried A
from_option none e = raised e
from_option (some a) e = done a
