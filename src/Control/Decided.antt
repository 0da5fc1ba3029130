-- ===== src/Control/Decided.antt =====
-- src/orchestration/control-plane.ts: what `cancel`, `recordBudgetDecision`, `requestDecision`,
-- `resolveDecisionFromOperator` and the `catch` of `resume` make of a record. The clock is read once
-- in each of them.
use ad_coder.Prelude.{
  ℕ, ◌+◌, ◌==◌, String, Bool, true, false, not, Option, none, some, List, [], ◌∷◌, ◌++◌, length,
  if◌then◌else◌, str_eq,
}
use ad_coder.Control.{
  queued, paused, awaiting_decision, cancelled, failed, RunScope, pending, Action, DecisionRecord,
  ExternalLimit, decision_required, run_paused, run_failed, BudgetDecision, DurableRunRecord,
  PlaneError, invalid_follow_up, missing, Texts,
}
use ad_coder.Control.Scopes.{normalized_scope, evidence_references, is_subset}
use ad_coder.Control.Records.{
  with_event, with_status, is_resolvable, is_manual, is_pending, mandate_of, status_of,
  after_action, code_of, Tried, done, ◌>>=◌, require, from_option,
}

-- `cancel`, of a run that has not ended.
unfoldable pub cancelled_record : ℕ → DurableRunRecord → DurableRunRecord
cancelled_record now r = record r {
  cancel_requested = true;
  status = if r.provider_turn_in_flight then r.status else cancelled;
  updated_at = now;
}

-- `recordBudgetDecision`, of a budget that parsed.
unfoldable pub budget_record : BudgetDecision → ℕ → DurableRunRecord → Tried DurableRunRecord
budget_record budget now r = do
  _ ← require (r.depth == 0) invalid_follow_up
  _ ← require (is_resolvable r.status) invalid_follow_up
  done (record r { budget_decision = some budget; status = queued; updated_at = now })

pub record DecisionRequest : Type 0 where
  pub action : String
  pub evidence : List String
  pub scope : RunScope
  pub affected_run_ids : Option (List String)

pub record Resolution : Type 0 where
  pub action : Action
  pub rationale : String
  pub evidence : List String

abbrev pub affected : Option (List String) → String → List String
affected none id = id ∷ []
affected (some ids) id = ids

abbrev pub add_decision : DecisionRecord → DurableRunRecord → DurableRunRecord
add_decision d r = record r { decisions = r.decisions ++ (d ∷ []) }

-- The first decision of an id, and the decisions with another in its place.
abbrev pub find_decision : String → List DecisionRecord → Option DecisionRecord
find_decision id [] = none
find_decision id (d ∷ ds) =
    let rest = find_decision id ds in if str_eq d.id id then some d else rest

abbrev pub replace_decision : DecisionRecord → List DecisionRecord → List DecisionRecord
replace_decision d [] = []
replace_decision d (x ∷ xs) =
    let rest = replace_decision d xs in if str_eq x.id d.id then d ∷ xs else x ∷ rest

module _ (t : Texts) where
  -- A decision that waits; its id is the digest of the run, a name and the number of decisions before
  -- it.
  unfoldable pub pending_record :
      String → List String → RunScope → List String → ℕ → DurableRunRecord → Tried DecisionRecord
  unfolding evidence_references
  pending_record name evidence scope runs now r = do
    references ← from_option (evidence_references t evidence) invalid_follow_up
    done (record {
      id = t.digest r.id name (length r.decisions);
      status = pending;
      action = none;
      rationale = none;
      evidence = references;
      scope = scope;
      mandate_source = mandate_of r.mode;
      affected_run_ids = runs;
      created_at = now;
      resolved_at = none;
    })

  -- A pending decision with its resolution.
  unfoldable pub resolved_record : Resolution → ℕ → DecisionRecord → Tried DecisionRecord
  unfolding evidence_references
  resolved_record given now d = do
    references ←
        from_option (evidence_references t (d.evidence ++ given.evidence)) invalid_follow_up
    done (record d {
      status = status_of given.action;
      action = some given.action;
      rationale = some (t.redact given.rationale);
      evidence = references;
      resolved_at = some now;
    })

  -- The first half of `requestDecision`: the decision, or what is refused.
  unfoldable pub requested : DecisionRequest → ℕ → DurableRunRecord → Tried DecisionRecord
  unfolding normalized_scope is_subset pending_record
  requested q now r = do
    _ ← require (not (str_eq (t.trim q.action) "")) invalid_follow_up
    _ ← require (is_subset (normalized_scope t q.scope) r.scope) invalid_follow_up
    pending_record q.action q.evidence (normalized_scope t q.scope)
        (affected q.affected_run_ids r.id) now r

  -- What a manual run waits with, and what an automatic one goes on with.
  unfoldable pub waiting_record : DecisionRecord → ℕ → DurableRunRecord → DurableRunRecord
  waiting_record d now r =
      with_event decision_required now (with_status awaiting_decision now (add_decision d r))

  unfoldable pub decided_record :
      Resolution → DecisionRecord → ℕ → DurableRunRecord → Tried DurableRunRecord
  unfolding resolved_record
  decided_record given d now r = do
    resolved ← resolved_record given now d
    done (with_status (after_action given.action) now (add_decision resolved r))

  abbrev pub operator_record : Action → String → ℕ → DecisionRecord → DecisionRecord
  operator_record action rationale now d = record d {
    status = status_of action;
    action = some action;
    rationale = some (t.redact rationale);
    resolved_at = some now;
  }

  abbrev pub operator_resolved :
      Action → String → ℕ → DecisionRecord → DurableRunRecord → Option DurableRunRecord
  operator_resolved action rationale now d r =
      if is_pending d.status
      then some (
          with_status (after_action action) now (record r {
            decisions = replace_decision (operator_record action rationale now d) r.decisions;
          }))
      else none

  -- `resolveDecisionFromOperator`: the record to write, `none` where the decision is resolved.
  unfoldable pub operator_decision :
      String → Action → String → ℕ → DurableRunRecord → Tried (Option DurableRunRecord)
  operator_decision id action rationale now r = do
    _ ← require (not (str_eq (t.trim rationale) "")) invalid_follow_up
    _ ← require (is_manual r.mode) invalid_follow_up
    d ← from_option (find_decision id r.decisions) missing
    done (operator_resolved action rationale now d r)

-- The `catch` of `resume`: a limit of the provider pauses the run, another error fails it.
unfoldable pub limited_record : ExternalLimit → Bool → ℕ → DurableRunRecord → DurableRunRecord
limited_record limit again now r = with_event run_paused now (record r {
  status = paused;
  external_limit = some limit;
  provider_turn_in_flight = false;
  updated_at = now;
  automatic_retry_attempts =
      if again then r.automatic_retry_attempts + 1 else r.automatic_retry_attempts;
  execution_lease = none;
  failure_code = none;
})

unfoldable pub failed_record : PlaneError → ℕ → DurableRunRecord → DurableRunRecord
failed_record e now r = with_event run_failed now (record r {
  status = failed;
  failure_code = some (code_of e);
  provider_turn_in_flight = false;
  updated_at = now;
})
