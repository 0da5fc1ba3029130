-- ===== src/Control/Resume.antt =====
-- src/orchestration/control-plane.ts, `resume`: what the call does to the record it read until it
-- returns or waits, and what it makes of the answer on the provider. The writes are listed in their
-- order. The sums over the other records and the limits of the session come in as facts; the clock is
-- read once in each part.
use ad_coder.Prelude.{
  ℕ, ◌==◌, ltb, String, Bool, true, false, not, ◌&&◌, ◌||◌, Option, none, some, List, [], ◌∷◌,
  length, if◌then◌else◌,
}
use ad_coder.Control.{
  running, paused, awaiting_decision, cancelled, complete, LimitSource, from_provider, from_session,
  from_project, LimitState, exhausted, decision_required, run_paused, RunBreakpoint, at_pipeline,
  at_decision, at_publication, BudgetDecision, Outcome, approved, decomposition_required,
  DurableRunRecord,
}
use ad_coder.Control.Records.{with_event, with_status, is_terminal, is_work_startable}

pub data Next : Type 0 where
  returned await_availability run_children : Next

-- Successive records to write, and what comes then.
pub record Resumption : Type 0 where
  pub writes : List DurableRunRecord
  pub next : Next

pub record Facts : Type 0 where
  pub estimate : Option BudgetDecision
  pub project_exhausted : Bool
  pub session_exhausted : Bool
  pub now : ℕ

abbrev pub stay : Resumption
stay = record { writes = []; next = returned }

abbrev pub halt : DurableRunRecord → Resumption
halt r = record { writes = r ∷ []; next = returned }

abbrev pub write_then : DurableRunRecord → Resumption → Resumption
write_then r p = record p { writes = r ∷ p.writes }

abbrev pub paused_by : LimitSource → ℕ → DurableRunRecord → DurableRunRecord
paused_by source now r = with_event run_paused now (record r {
  status = paused;
  external_limit = some (record { source = source; state = exhausted; retry_after_ms = none });
  updated_at = now;
})

abbrev pub awaiting : ℕ → DurableRunRecord → DurableRunRecord
awaiting now r = with_event decision_required now (with_status awaiting_decision now r)

-- The limits of the project and of the session; the provider is asked where they leave room.
unfoldable pub limits_plan : Facts → DurableRunRecord → Resumption
limits_plan f r =
    if f.project_exhausted
    then halt (paused_by from_project f.now r)
    else if f.session_exhausted
    then halt (paused_by from_session f.now r)
    else record { writes = []; next = await_availability }

abbrev pub is_decomposition : Option Outcome → Bool
is_decomposition none = false
is_decomposition (some approved) = false
is_decomposition (some decomposition_required) = true

abbrev pub is_approved : Option Outcome → Bool
is_approved none = false
is_approved (some approved) = true
is_approved (some decomposition_required) = false

abbrev pub at_publication_point : Option RunBreakpoint → Bool
at_publication_point none = false
at_publication_point (some at_pipeline) = false
at_publication_point (some at_decision) = false
at_publication_point (some at_publication) = true

abbrev pub has_children : DurableRunRecord → Bool
has_children r = is_decomposition r.result && ltb 0 (length r.remaining_children)

abbrev pub broken_at : RunBreakpoint → ℕ → DurableRunRecord → DurableRunRecord
broken_at b now r = with_event run_paused now (record r { breakpoint = some b; updated_at = now })

-- `runUntil` of the call; without it, the children that remain and an approved publication.
unfoldable pub until_plan : Option RunBreakpoint → Facts → DurableRunRecord → Resumption
unfolding limits_plan
until_plan none f r =
    if has_children r
    then record { writes = with_status running f.now r ∷ []; next = run_children }
    else if at_publication_point r.breakpoint && is_approved r.result
    then halt (record r { breakpoint = none; status = complete; updated_at = f.now })
    else limits_plan f r
until_plan (some at_publication) f r =
    let b = broken_at at_publication f.now r in write_then b (limits_plan f b)
until_plan (some at_pipeline) f r =
    let b = broken_at at_pipeline f.now r in write_then b (halt (with_status paused f.now b))
until_plan (some at_decision) f r =
    let b = broken_at at_decision f.now r in write_then b (halt (with_status paused f.now b))

abbrev pub is_blocked : Option BudgetDecision → Bool
is_blocked none = false
is_blocked (some b) = not (is_work_startable b)

-- A blocked budget of a root run.
unfoldable pub blocked_plan : Option RunBreakpoint → Facts → DurableRunRecord → Resumption
unfolding until_plan
blocked_plan until f r =
    if r.depth == 0 && is_blocked r.budget_decision
    then halt (awaiting f.now r)
    else until_plan until f r

abbrev pub is_unstated : Option BudgetDecision → Bool
is_unstated none = true
is_unstated (some b) = false

unfoldable pub estimated_plan :
    Option BudgetDecision → Option RunBreakpoint → Facts → DurableRunRecord → Resumption
unfolding blocked_plan
estimated_plan none until f r = halt (awaiting f.now r)
estimated_plan (some b) until f r =
    let e = record r { budget_decision = some b; updated_at = f.now } in
    write_then e (blocked_plan until f e)

-- A root run without a stated budget.
unfoldable pub budget_plan : Option RunBreakpoint → Facts → DurableRunRecord → Resumption
unfolding estimated_plan blocked_plan
budget_plan until f r =
    if r.depth == 0 && is_unstated r.budget_decision
    then estimated_plan f.estimate until f r
    else blocked_plan until f r

unfoldable pub resume_plan : Option RunBreakpoint → Facts → DurableRunRecord → Resumption
unfolding budget_plan
resume_plan until f r =
    if is_terminal r.status || r.provider_turn_in_flight
    then stay
    else if r.cancel_requested
    then halt (with_status cancelled f.now r)
    else budget_plan until f r

-- The provider is not available, in a state; and it is.
unfoldable pub unavailable_record : LimitState → ℕ → DurableRunRecord → DurableRunRecord
unavailable_record state now r = record r {
  status = paused;
  external_limit = some (record { source = from_provider; state = state; retry_after_ms = none });
  updated_at = now;
}

unfoldable pub dispatched_record : String → ℕ → DurableRunRecord → DurableRunRecord
dispatched_record lease now r = record r {
  external_limit = none;
  status = running;
  provider_turn_in_flight = true;
  execution_lease = some lease;
  updated_at = now;
}
