-- ===== src/Control/Schedule.antt =====
-- src/orchestration/control-plane.ts: the calls of a host's control plane in any order. A call that
-- waits may go on at any time after others, and a crash forgets the calls and keeps the stored records.
use ad_coder.Prelude.{ℕ, zero, suc, String, Option, none, some, List, [], ◌∷◌}
use ad_coder.Limits.{Controller}
use ad_coder.Retry.{Coordinator}
use ad_coder.Versioned.{VersionedState, Files}
use ad_coder.Control.{RunBreakpoint, Action, ControlPlaneConfig, BudgetDecision, Texts}
use ad_coder.Control.Plane.{ControlPlaneIndex, Held, Task, resuming, World, enter}
use ad_coder.Control.Children.{Answers}
use ad_coder.Control.Start.{StartRunInput, start}
use ad_coder.Control.Replies.{Reply}
use ad_coder.Control.Advance.{advance}
use ad_coder.Control.Decided.{DecisionRequest}
use ad_coder.Control.Operator.{
  record_budget_decision, request_decision, resolve_decision_from_operator, cancel,
}

-- The host's calls; `answered` lets the task at a place go on, `resume` only enters one.
pub data Event : Type 0 where
  started : Answers → StartRunInput → Event
  resumed : String → Option RunBreakpoint → Event
  cancelled : ℕ → String → Event
  budgeted : BudgetDecision → ℕ → String → Event
  asked : DecisionRequest → ℕ → String → Event
  ruled : String → Action → String → ℕ → String → Event
  answered : ℕ → Answers → Reply → Event
  crashed : Event

abbrev pub put_back : Task → Option (Task × List Task) → Option (Task × List Task)
put_back k none = none
put_back k (some (a, rest)) = some (a, k ∷ rest)

-- The task at a place, and the others.
unfoldable pub pick : ℕ → List Task → Option (Task × List Task)
pick n [] = none
pick zero (k ∷ ks) = some (k, ks)
pick (suc n) (k ∷ ks) = put_back k (pick n ks)

-- What a control plane stands on: the texts, the settings, the sizes of written states, the estimate
-- of a budget, the jitter of a delay, and the index, the session and the retries that it opens with.
pub record Setup : Type 0 where
  pub texts : Texts
  pub config : ControlPlaneConfig
  pub bytes_of : Held → ℕ
  pub index_bytes : VersionedState ControlPlaneIndex → ℕ
  pub estimate : Option BudgetDecision
  pub jitter : ℕ → ℕ
  pub index : Files ControlPlaneIndex
  pub byte_limit : ℕ
  pub session : Option Controller
  pub retries : Option Coordinator

module _ (k : Setup) where
  unfoldable pub answer : Answers → Reply → World → Option (Task × List Task) → World
  unfolding advance
  answer a y w none = w
  answer a y w (some (task, rest)) =
      advance k.texts k.config k.bytes_of k.estimate k.jitter a task y (record w { tasks = rest })

  unfoldable pub step : Event → World → World
  unfolding start record_budget_decision request_decision resolve_decision_from_operator cancel
      answer pick
  step (started a i) w = (start k.texts k.config k.bytes_of k.index_bytes a i w).0
  step (resumed id until) w = enter (resuming id until []) w
  step (cancelled now id) w = cancel k.texts k.config k.bytes_of now id w
  step (budgeted b now id) w = record_budget_decision k.texts k.config k.bytes_of b now id w
  step (asked q now id) w = request_decision k.texts k.config k.bytes_of q now id w
  step (ruled d action rationale now id) w =
      resolve_decision_from_operator k.texts k.config k.bytes_of d action rationale now id w
  step (answered n a y) w = answer a y w (pick n w.tasks)
  step crashed w = record w { tasks = [] }

  unfoldable pub run : List Event → World → World
  unfolding step
  run [] w = w
  run (e ∷ es) w = run es (step e w)

  -- A new plane, with no run yet, and after events.
  abbrev pub opened : World
  opened = record {
    index = k.index;
    runs = record { states = []; byte_limit = k.byte_limit };
    session = k.session;
    retries = k.retries;
    tasks = [];
    started = [];
  }

  unfoldable pub reached : List Event → World
  unfolding run
  reached es = run es opened
