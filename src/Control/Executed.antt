-- ===== src/Control/Executed.antt =====
-- src/orchestration/control-plane.ts, `resume`: what it makes of an execution, and of a decision on child
-- runs. The clock is read once in each part.
use ad_coder.Prelude.{
  ℕ, ◌+◌, ◌==◌, ltb, String, Bool, false, not, ◌&&◌, Option, none, some, List, [], ◌∷◌, ◌++◌, all,
  length, map, if◌then◌else◌, str_eq,
}
use ad_coder.Control.{
  Status, running, paused, awaiting_decision, cancelled, complete, ChildPipelineSpec,
  DecisionRecord, deferred, defer, run_completed, decision_required, decomposition_required_event,
  Outcome, DurableRunRecord, ControlPlaneConfig, invalid_follow_up, resource_limit_reached, Texts,
}
use ad_coder.Control.Scopes.{normalized_scope, is_subset}
use ad_coder.Control.Records.{with_event, is_accepted, is_pending, Tried, done, ◌>>=◌, require}
use ad_coder.Control.Resume.{at_publication_point, is_approved}
use ad_coder.Control.Decided.{Resolution, pending_record, resolved_record}

-- What `execute` gave: the children are the host's, or those that `deriveChildSpecs` derives.
pub record Execution : Type 0 where
  pub outcome : Outcome
  pub children : List ChildPipelineSpec

-- A record to write and return with, or a decision on the children to ask for.
pub data Settlement : Type 0 where
  settled : DurableRunRecord → Settlement
  to_decide : DurableRunRecord → DecisionRecord → Settlement

abbrev pub settled_record : Outcome → ℕ → DurableRunRecord → DurableRunRecord
settled_record outcome now r = record r {
  result = some outcome;
  provider_turn_in_flight = false;
  execution_lease = none;
  updated_at = now;
}

abbrev pub approved_record : ℕ → DurableRunRecord → DurableRunRecord
approved_record now r =
    if at_publication_point r.breakpoint
    then record r { status = paused }
    else with_event run_completed now (record r { status = complete })

module _ (t : Texts) (c : ControlPlaneConfig) where
  unfoldable pub child_allowed : DurableRunRecord → ChildPipelineSpec → Bool
  unfolding normalized_scope is_subset
  child_allowed r child =
      not (str_eq (t.trim child.task) "") && is_subset (normalized_scope t child.scope) r.scope

  abbrev pub child_evidence : List ChildPipelineSpec → List String
  child_evidence [] = []
  child_evidence (x ∷ xs) =
      let rest = child_evidence xs in
      elim x.parent_decision_id [ none ↦ rest | some id ↦ if str_eq id "" then rest else id ∷ rest ]

  abbrev pub deferred_record : String → ℕ → DecisionRecord → DurableRunRecord → DurableRunRecord
  deferred_record rationale now d r = with_event decomposition_required_event now (record r {
    decisions =
        r.decisions
        ++ (record d {
          status = deferred;
          action = some defer;
          rationale = some rationale;
          resolved_at = some now;
        }
            ∷ []);
    status = paused;
  })

  -- The deferred decision of a run that no children come of. `rationale` tells why.
  unfoldable pub undecomposed : String → ℕ → DurableRunRecord → Tried Settlement
  unfolding pending_record
  undecomposed rationale now r = do
    d ←
        pending_record t "decomposition" ("docs/contracts/operation-modes.md" ∷ []) r.scope
          (r.id ∷ []) now r
    done (settled (deferred_record rationale now d r))

  -- The children are asked for, where their number and their scopes allow it.
  unfoldable pub proposed : List ChildPipelineSpec → ℕ → ℕ → DurableRunRecord → Tried Settlement
  unfolding child_allowed pending_record
  proposed children existing now r = do
    _ ←
        require
          (not
            (ltb 0 c.max_child_pipelines && ltb c.max_child_pipelines (existing + length children)))
          resource_limit_reached
    _ ← require (all (child_allowed r) children) invalid_follow_up
    d ←
        pending_record t "decomposition"
          ("docs/contracts/operation-modes.md" ∷ child_evidence children) r.scope (r.id ∷ []) now r
    done (to_decide r d)

  -- `resume` after `execute`, up to the decision on the children. `existing` counts the child runs
  -- of the root; `rationale` is the text for a run that no children come of.
  unfoldable pub settlement : String → Execution → ℕ → ℕ → DurableRunRecord → Tried Settlement
  unfolding undecomposed proposed
  settlement rationale x existing now r0 =
      let r = settled_record x.outcome now r0 in
      if r.cancel_requested
      then done (settled (record r { status = cancelled }))
      else if is_approved (some x.outcome)
      then done (settled (approved_record now r))
      else if not c.auto_decomposition
      then done (settled (record r { status = paused }))
      else if ltb 0 c.max_decomposition_depth && not (ltb r.depth c.max_decomposition_depth)
      then done (settled (record r { status = paused }))
      else if length x.children == 0
      then undecomposed rationale now r
      else proposed x.children existing now r

  unfoldable pub authorized : String → ChildPipelineSpec → ChildPipelineSpec
  unfolding normalized_scope
  authorized id child = record {
    task = child.task;
    scope = normalized_scope t child.scope;
    parent_decision_id = some id;
  }

  abbrev pub top_level : Option String → Status
  top_level none = running
  top_level (some id) = paused

  -- What a decision on the children makes of the record.
  unfoldable pub decomposed_record :
      DecisionRecord → List ChildPipelineSpec → ℕ → DurableRunRecord → DurableRunRecord
  unfolding authorized
  decomposed_record d children now r =
      let r1 = record r { decisions = r.decisions ++ (d ∷ []) } in
      if is_accepted d.status
      then record r1 {
        remaining_children = map (authorized d.id) children;
        status = top_level r.parent_run_id;
      }
      else if is_pending d.status
      then with_event decision_required now (record r1 { status = awaiting_decision })
      else with_event decomposition_required_event now (record r1 { status = paused })

  -- `resolveDecompositionDecision`, with the host's answer.
  unfoldable pub decomposition_decision : Resolution → ℕ → DecisionRecord → Tried DecisionRecord
  unfolding resolved_record
  decomposition_decision given now d = do
    _ ← require (not (str_eq (t.trim given.rationale) "")) invalid_follow_up
    resolved_record t given now d
