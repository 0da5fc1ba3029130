-- ===== src/Control/Children.antt =====
-- src/orchestration/control-plane.ts, `runChildren`: the part before the call of `resume` of a child,
-- which is then a task with the parent among its callers, and the part after that call returned. An
-- error of either part goes to the callers of `resume`, whose promises are rejected: the `catch` of
-- `resume` does not see it, since `resume` returns the promise of `runChildren` as it is.
use ad_coder.Prelude.{
  ℕ, ◌+◌, ◌==◌, String, Bool, true, false, Option, none, some, List, [], ◌∷◌, ◌++◌, length,
  if◌then◌else◌,
}
use ad_coder.Versioned.{Stored, ok, store_failed, failed, write_versioned_json}
use ad_coder.Control.{
  Status, queued, running, paused, cancelled, complete, failed as ended_badly, awaiting_decision,
  run_completed, ChildPipelineSpec, DecisionRecord, DurableRunRecord, PlaneError, pending_decision,
  Texts,
}
use ad_coder.Control.Scopes.{normalized_scope}
use ad_coder.Control.Records.{
  with_event, with_status, is_accepted, Tried, done, raised, ◌>>=◌, require, from_option,
}
use ad_coder.Control.Resume.{is_decomposition}
use ad_coder.Control.Plane.{Held, Runs, resuming, World, read, enter, reply_to, put}
use ad_coder.Control.Decided.{find_decision}

-- What the runtime and the host answer within one step: the time, an id for a new run or a lease, and
-- the text of a refused decomposition.
pub record Answers : Type 0 where
  pub now : ℕ
  pub new_id : String
  pub rationale : String

abbrev pub is_complete : Status → Bool
is_complete complete = true
is_complete queued = false
is_complete running = false
is_complete paused = false
is_complete awaiting_decision = false
is_complete cancelled = false
is_complete ended_badly = false

abbrev pub is_authorized : Option DecisionRecord → Bool
is_authorized none = false
is_authorized (some d) = is_accepted d.status

-- The decision that a child stands under, which the parent has accepted.
unfoldable pub authorization : ChildPipelineSpec → DurableRunRecord → Tried String
authorization spec r = do
  id ← from_option spec.parent_decision_id pending_decision
  _ ← require (is_authorized (find_decision id r.decisions)) pending_decision
  done id

module _ (t : Texts) (bytes_of : Held → ℕ) where
  unfoldable pub child_record :
      Answers → String → ChildPipelineSpec → DurableRunRecord → DurableRunRecord
  unfolding normalized_scope
  child_record a decision spec r = record {
    id = a.new_id;
    request_key = t.child_key r.request_key a.new_id;
    task = t.redact spec.task;
    mode = r.mode;
    status = queued;
    depth = r.depth + 1;
    root_run_id = r.root_run_id;
    parent_run_id = some r.id;
    child_run_ids = [];
    remaining_children = [];
    scope = normalized_scope t spec.scope;
    decisions = [];
    created_at = a.now;
    updated_at = a.now;
    cancel_requested = false;
    provider_turn_in_flight = false;
    execution_lease = none;
    authorization_decision_id = some decision;
    event_sequence = 0;
    events = [];
    result = none;
    external_limit = none;
    failure_code = none;
    breakpoint = none;
    session_limit_snapshot = none;
    automatic_retry_attempts = 0;
    budget_decision = none;
  }

  abbrev pub with_child : Answers → List ChildPipelineSpec → DurableRunRecord → DurableRunRecord
  with_child a rest r = record r {
    child_run_ids = r.child_run_ids ++ (a.new_id ∷ []);
    remaining_children = rest;
    updated_at = a.now;
  }

  -- The parent is written and returns with a status to its own callers.
  abbrev pub returned_with : DurableRunRecord → List Held → World × Tried ℕ → World
  returned_with r cs (w, done n) = reply_to cs r w
  returned_with r cs (w, raised e) = w

  unfoldable pub return_as : DurableRunRecord → Held → List Held → World → World
  unfolding put
  return_as r v cs w = returned_with r cs (put bytes_of v.value.id v.version (r ∷ []) w)

  unfoldable pub completed : Answers → Held → List Held → World → World
  unfolding return_as
  completed a v cs w =
      return_as (with_event run_completed a.now (with_status complete a.now v.value)) v cs w

  -- The child is called, with the written parent among its callers.
  abbrev pub called_child : String → DurableRunRecord → List Held → World × Tried ℕ → World
  called_child id r cs (w, done n) =
      enter (resuming id none (record { version = n; value = r } ∷ cs)) w
  called_child id r cs (w, raised e) = w

  unfoldable pub child_written :
      Answers → List ChildPipelineSpec → Held → List Held → World → Stored PlaneError Runs → World
  unfolding put
  child_written a rest v cs w (ok s) =
      called_child a.new_id (with_child a rest v.value) cs
        (put bytes_of v.value.id v.version (with_child a rest v.value ∷ []) (record w { runs = s }))
  child_written a rest v cs w (store_failed e) = w
  child_written a rest v cs w (failed e) = w

  unfoldable pub write_child :
      Answers
      → ChildPipelineSpec
      → List ChildPipelineSpec
      → Held
      → List Held
      → World
      → String
      → World
  unfolding child_record child_written write_versioned_json
  write_child a spec rest v cs w decision = child_written a rest v cs w (
      write_versioned_json bytes_of a.new_id (child_record a decision spec v.value) (some 0) w.runs)

  unfoldable pub under :
      Tried String
      → Answers
      → ChildPipelineSpec
      → List ChildPipelineSpec
      → Held
      → List Held
      → World
      → World
  unfolding write_child
  under (done decision) a spec rest v cs w = write_child a spec rest v cs w decision
  under (raised e) a spec rest v cs w = w

  unfoldable pub next_child : List ChildPipelineSpec → Answers → Held → List Held → World → World
  unfolding completed under authorization
  next_child [] a v cs w = completed a v cs w
  next_child (spec ∷ rest) a v cs w = under (authorization spec v.value) a spec rest v cs w

  -- One pass of the loop over the record that was read again.
  unfoldable pub next_pass : Tried Held → Answers → List Held → World → World
  unfolding next_child return_as
  next_pass (raised e) a cs w = w
  next_pass (done v) a cs w =
      if v.value.cancel_requested
      then return_as (with_status cancelled a.now v.value) v cs w
      else next_child v.value.remaining_children a v cs w

  -- The loop from its test on, with the parent as it was last written.
  unfoldable pub run_children : Answers → Held → List Held → World → World
  unfolding next_pass completed read
  run_children a v cs w =
      if length v.value.remaining_children == 0
      then completed a v cs w
      else next_pass (read v.value.id w.runs) a cs w

  -- A child returned with a status, to its parent as it was written before the call.
  unfoldable pub child_returned : Answers → DurableRunRecord → Held → List Held → World → World
  unfolding run_children return_as
  child_returned a child v cs w =
      if is_decomposition child.result
      then return_as (with_status paused a.now v.value) v cs w
      else if is_complete child.status
      then run_children a v cs w
      else return_as (with_status paused a.now v.value) v cs w
