-- ===== src/Control/Growth.antt =====
-- src/orchestration/control-plane.ts, `resume`: what the writes before its wait keep of a record.
use ad_coder.Prelude.{
  ◌==◌, Bool, true, false, ◌&&◌, ◌||◌, Option, none, some, List, [], ◌∷◌, if◌then◌else◌, if_rule,
  ◌≡◌, refl, ◌∙◌,
}
use ad_coder.Control.{
  RunBreakpoint, at_pipeline, at_decision, at_publication, BudgetDecision, decision_required,
  run_paused, DurableRunRecord, complete, running, cancelled,
}
use ad_coder.Control.Records.{with_status, is_terminal}
use ad_coder.Control.Resume.{
  Next, returned, await_availability, run_children, Resumption, Facts, limits_plan, until_plan,
  blocked_plan, estimated_plan, budget_plan, resume_plan, has_children, at_publication_point,
  is_approved, is_blocked, halt, awaiting, stay,
}
use ad_coder.Control.Sound.{Chain, with_event-IsLogged}
use ad_coder.Control.Replies.{last_record}

-- Neither cancelled nor in flight.
abbrev pub IsIdle : DurableRunRecord → Type 0
IsIdle r = (r.cancel_requested ≡ false) × (r.provider_turn_in_flight ≡ false)

pub Chain-IsIdle :
    (r : DurableRunRecord) (rs : List DurableRunRecord)
    → Chain r rs
    → IsIdle r
    → IsIdle (last_record r rs)
Chain-IsIdle r [] c h = h
Chain-IsIdle r (s ∷ rs) ((a, b, d, e), c) (h, k) = Chain-IsIdle s rs c (b ∙ h, d ∙ k)

abbrev pub IsLawful : DurableRunRecord → Resumption → Type 0
IsLawful r p = Chain r p.writes

module _ (f : Facts) where
  limits_plan-IsLawful : (r : DurableRunRecord) → IsLawful r (limits_plan f r)
  unfolding limits_plan
  limits_plan-IsLawful r =
      if_rule (λ (p : Resumption). IsLawful r p) f.project_exhausted _ _
        (λ e. ((refl, refl, refl, with_event-IsLogged run_paused f.now r), tt))
        (λ e.
          if_rule (λ (p : Resumption). IsLawful r p) f.session_exhausted _ _
            (λ d. ((refl, refl, refl, with_event-IsLogged run_paused f.now r), tt)) (λ d. tt))

  until_plan-IsLawful :
      (until : Option RunBreakpoint) (r : DurableRunRecord) → IsLawful r (until_plan until f r)
  unfolding until_plan
  until_plan-IsLawful none r =
      if_rule (λ (p : Resumption). IsLawful r p) (has_children r)
        (record { writes = with_status running f.now r ∷ []; next = run_children })
        (if at_publication_point r.breakpoint && is_approved r.result
          then halt (record r { breakpoint = none; status = complete; updated_at = f.now })
          else limits_plan f r)
        (λ e. ((refl, refl, refl, λ h. h), tt))
        (λ e.
          if_rule (λ (p : Resumption). IsLawful r p)
            (at_publication_point r.breakpoint && is_approved r.result)
            (halt (record r { breakpoint = none; status = complete; updated_at = f.now }))
            (limits_plan f r) (λ d. ((refl, refl, refl, λ h. h), tt)) (λ d. limits_plan-IsLawful r))
  until_plan-IsLawful (some at_publication) r =
      ((refl, refl, refl, with_event-IsLogged run_paused f.now r), limits_plan-IsLawful _)
  until_plan-IsLawful (some at_pipeline) r =
      ((refl, refl, refl, with_event-IsLogged run_paused f.now r), ((refl, refl, refl, λ h. h), tt))
  until_plan-IsLawful (some at_decision) r =
      ((refl, refl, refl, with_event-IsLogged run_paused f.now r), ((refl, refl, refl, λ h. h), tt))

  blocked_plan-IsLawful :
      (until : Option RunBreakpoint) (r : DurableRunRecord) → IsLawful r (blocked_plan until f r)
  unfolding blocked_plan
  blocked_plan-IsLawful until r =
      if_rule (λ (p : Resumption). IsLawful r p) (r.depth == 0 && is_blocked r.budget_decision)
        (halt (awaiting f.now r)) (until_plan until f r)
        (λ e. ((refl, refl, refl, with_event-IsLogged decision_required f.now r), tt))
        (λ e. until_plan-IsLawful until r)

  budget_plan-IsLawful :
      (until : Option RunBreakpoint) (r : DurableRunRecord) → IsLawful r (budget_plan until f r)
  unfolding budget_plan estimated_plan
  budget_plan-IsLawful until r =
      if_rule (λ (p : Resumption). IsLawful r p) _ _ _ (λ e. estimated f.estimate)
        (λ e. blocked_plan-IsLawful until r)
    where
      estimated : (o : Option BudgetDecision) → IsLawful r (estimated_plan o until f r)
      estimated none = ((refl, refl, refl, with_event-IsLogged decision_required f.now r), tt)
      estimated (some b) = (
        (refl, refl, refl, λ h. h),
        blocked_plan-IsLawful until (record r { budget_decision = some b; updated_at = f.now }),
      )

  -- Before it waits for the provider, a resumed run is neither cancelled nor in flight.
  abbrev pub IsChecked : Next → DurableRunRecord → Type 0
  IsChecked returned r = Unit
  IsChecked await_availability r = IsIdle r
  IsChecked run_children r = Unit

  IsIdle-IsChecked : (n : Next) (r : DurableRunRecord) → IsIdle r → IsChecked n r
  IsIdle-IsChecked returned r h = tt
  IsIdle-IsChecked await_availability r h = h
  IsIdle-IsChecked run_children r h = tt

  pub resume_plan-IsLawful :
      (until : Option RunBreakpoint) (r : DurableRunRecord)
      → IsLawful r (resume_plan until f r)
        × IsChecked (resume_plan until f r).next (last_record r (resume_plan until f r).writes)
  unfolding resume_plan
  resume_plan-IsLawful until r =
      if_rule (λ (p : Resumption). IsLawful r p × IsChecked p.next (last_record r p.writes))
        (is_terminal r.status || r.provider_turn_in_flight) stay
        (if r.cancel_requested then halt (with_status cancelled f.now r) else budget_plan until f r)
        (λ e. (tt, tt))
        (λ e.
          if_rule (λ (p : Resumption). IsLawful r p × IsChecked p.next (last_record r p.writes))
            r.cancel_requested (halt (with_status cancelled f.now r)) (budget_plan until f r)
            (λ d. (((refl, refl, refl, λ h. h), tt), tt))
            (λ d.
              let c = budget_plan-IsLawful until r in
              let last = last_record r (budget_plan until f r).writes in
              (
                c,
                IsIdle-IsChecked (budget_plan until f r).next last (
                    Chain-IsIdle r (budget_plan until f r).writes c
                      (d, or_right (is_terminal r.status) r.provider_turn_in_flight e)),
              )))
    where
      or_right : (a b : Bool) → (a || b) ≡ false → b ≡ false
      or_right false b h = h
      or_right true b h = cc
