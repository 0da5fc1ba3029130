-- ===== src/Control/Gates.antt =====
-- src/orchestration/control-plane.ts: what stands before an execution.
use ad_coder.Prelude.{
  ℕ, ◌==◌, Bool, true, false, not, ◌&&◌, ◌||◌, Option, none, some, if◌then◌else◌, if_rule, ◌≢◌, ◌≡◌,
  refl, inl, inr, ◌⊎◌, arith, Bool-cases,
}
use ad_coder.Control.{
  RunBreakpoint, at_pipeline, at_decision, at_publication, BudgetDecision, cancelled,
  DurableRunRecord,
}
use ad_coder.Control.Records.{is_terminal, is_work_startable, with_status}
use ad_coder.Control.Resume.{
  returned, await_availability, run_children, Resumption, Facts, limits_plan, until_plan,
  blocked_plan, estimated_plan, budget_plan, resume_plan, has_children, is_blocked, is_unstated,
  at_publication_point, is_approved, broken_at, halt, awaiting, stay,
}
use ad_coder.Control.Replies.{last_record}

-- A record that work may start on: a child run, or a root run with a budget that allows it.
abbrev pub IsBudgeted : DurableRunRecord → Type 0
IsBudgeted r =
    (r.depth ≢ 0)
    ⊎ ((b : BudgetDecision) × (r.budget_decision ≡ some b) × (is_work_startable b ≡ true))

-- What a plan that waits for the provider's availability says.
abbrev IsAdmitted : Facts → DurableRunRecord → Resumption → Type 0
IsAdmitted f r p =
    p.next ≡ await_availability
    → (f.project_exhausted ≡ false)
      × (f.session_exhausted ≡ false)
      × ((last_record r p.writes).depth ≡ r.depth)
      × ((last_record r p.writes).budget_decision ≡ r.budget_decision)

no_wait : returned ≡ await_availability → ⊥
no_wait h = cc

no_wait_children : run_children ≡ await_availability → ⊥
no_wait_children h = cc

-- A root run has a budget, and one that is not blocked.
abbrev IsOpen : DurableRunRecord → Type 0
IsOpen r =
    ((r.depth == 0 && is_unstated r.budget_decision) ≡ false)
    × ((r.depth == 0 && is_blocked r.budget_decision) ≡ false)

-- A plan that waits for the provider's availability has an open record, within the limits.
abbrev IsGated : Facts → DurableRunRecord → Resumption → Type 0
IsGated f r p =
    p.next ≡ await_availability
    → (f.project_exhausted ≡ false)
      × (f.session_exhausted ≡ false)
      × IsOpen (last_record r p.writes)

and_false : (b : Bool) → (b && false) ≡ false
and_false true = refl
and_false false = refl

budgeted_from :
    (n : ℕ) (o : Option BudgetDecision)
    → (n == 0 && is_unstated o) ≡ false
    → (n == 0 && is_blocked o) ≡ false
    → (n ≢ 0) ⊎ ((b : BudgetDecision) × (o ≡ some b) × (is_work_startable b ≡ true))
budgeted_from n none h k = inl (λ e. ground (arith, e, h))
budgeted_from n (some b) h k = elim (Bool-cases (n == 0)) [
  | inl zero ↦ inr (b, refl, startable (is_work_startable b) (rw zero at k))
  | inr other ↦ inl (λ e. ground (arith, e, other))
]
  where
    startable : (x : Bool) → (true && not x) ≡ false → x ≡ true
    startable true h = refl
    startable false h = cc

module _ (f : Facts) where
  limits_plan-IsAdmitted : (r : DurableRunRecord) → IsAdmitted f r (limits_plan f r)
  unfolding limits_plan
  limits_plan-IsAdmitted r =
      if_rule (λ (p : Resumption). IsAdmitted f r p) f.project_exhausted _ _
        (λ e. λ h. absurd (no_wait h))
        (λ e.
          if_rule (λ (p : Resumption). IsAdmitted f r p) f.session_exhausted _ _
            (λ d. λ h. absurd (no_wait h)) (λ d. λ h. (e, d, refl, refl)))

  until_plan-IsAdmitted :
      (until : Option RunBreakpoint) (r : DurableRunRecord) → IsAdmitted f r (until_plan until f r)
  unfolding until_plan
  until_plan-IsAdmitted none r =
      if_rule (λ (p : Resumption). IsAdmitted f r p) (has_children r) _ _
        (λ e. λ h. absurd (no_wait_children h))
        (λ e.
          if_rule (λ (p : Resumption). IsAdmitted f r p)
            (at_publication_point r.breakpoint && is_approved r.result) _ _
            (λ d. λ h. absurd (no_wait h)) (λ d. limits_plan-IsAdmitted r))
  until_plan-IsAdmitted (some at_publication) r =
      limits_plan-IsAdmitted (broken_at at_publication f.now r)
  until_plan-IsAdmitted (some at_pipeline) r = λ h. absurd (no_wait h)
  until_plan-IsAdmitted (some at_decision) r = λ h. absurd (no_wait h)

  blocked_plan-IsGated :
      (until : Option RunBreakpoint) (r : DurableRunRecord)
      → (r.depth == 0 && is_unstated r.budget_decision) ≡ false
      → IsGated f r (blocked_plan until f r)
  unfolding blocked_plan
  blocked_plan-IsGated until r u =
      if_rule (λ (p : Resumption). IsGated f r p) (r.depth == 0 && is_blocked r.budget_decision)
        (halt (awaiting f.now r)) (until_plan until f r) (λ e. λ h. absurd (no_wait h))
        (λ e. λ h.
          let (a, b, d, o) = until_plan-IsAdmitted until r h in (a, b, (rw (d, o) u, rw (d, o) e)))

  budget_plan-IsGated :
      (until : Option RunBreakpoint) (r : DurableRunRecord) → IsGated f r (budget_plan until f r)
  unfolding budget_plan estimated_plan
  budget_plan-IsGated until r =
      if_rule (λ (p : Resumption). IsGated f r p) (r.depth == 0 && is_unstated r.budget_decision)
        (estimated_plan f.estimate until f r) (blocked_plan until f r) (λ e. estimated f.estimate)
        (λ e. blocked_plan-IsGated until r e)
    where
      estimated : (o : Option BudgetDecision) → IsGated f r (estimated_plan o until f r)
      estimated none = λ h. absurd (no_wait h)
      estimated (some b) =
          blocked_plan-IsGated until (record r { budget_decision = some b; updated_at = f.now })
            (and_false (r.depth == 0))

  -- A call of `resume` that goes on to ask for the provider's availability, and so the only one that
  -- may execute, is of a run that has not ended, is not cancelled and is not in flight, within the
  -- limits of the project and of the session; and its record is a child run's, or has a budget
  -- decision that work may start on.
  pub resume_plan-IsBudgeted :
      (until : Option RunBreakpoint) (r : DurableRunRecord)
      → (resume_plan until f r).next ≡ await_availability
      → ((is_terminal r.status || r.provider_turn_in_flight) ≡ false)
        × (r.cancel_requested ≡ false)
        × (f.project_exhausted ≡ false)
        × (f.session_exhausted ≡ false)
        × IsBudgeted (last_record r (resume_plan until f r).writes)
  unfolding resume_plan
  resume_plan-IsBudgeted until r =
      let P : Resumption → Type 0 = λ p.
        p.next ≡ await_availability
        → ((is_terminal r.status || r.provider_turn_in_flight) ≡ false)
          × (r.cancel_requested ≡ false)
          × (f.project_exhausted ≡ false)
          × (f.session_exhausted ≡ false)
          × IsBudgeted (last_record r p.writes) in
      let rest : Resumption =
        if r.cancel_requested
        then halt (with_status cancelled f.now r)
        else budget_plan until f r in
      if_rule P (is_terminal r.status || r.provider_turn_in_flight) stay rest
        (λ e. λ h. absurd (no_wait h))
        (λ e.
          if_rule P r.cancel_requested (halt (with_status cancelled f.now r))
            (budget_plan until f r) (λ d. λ h. absurd (no_wait h))
            (λ d. λ h.
              let (a, b, (u, k)) = budget_plan-IsGated until r h in
              (e, d, a, b, budgeted_from _ _ u k)))
