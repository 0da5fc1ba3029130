-- ===== src/Workflow/Approval.antt =====
-- What an approval means, and how often a run is reviewed.
use ad_coder.Prelude.{
  ℕ, zero, suc, ◌≤◌, ◌≡◌, refl, sym, subst, ◌∙◌, ◌⊎◌, inl, inr, true, false, some, [], ◌∷◌, arith,
  Bool-cases, length,
}
use ad_coder.Workflow.{Phase, Status, Config, WorkflowState, PlanTurn, ReviewTurn, Turn, ok}
use ad_coder.Workflow.Steps.{
  settle_plan, blocking_verdict_count, review_outcome, settle_review, step_in, initial_state,
  check_config,
}
use ad_coder.Workflow.Drive.{
  auto_driver, ◌>>=◌, advance_run, is_done, last_approved, settled, unfinished, drive,
}
use ad_coder.Workflow.Progress.{taken, taken_run, Result-cases}

-- What holds of a run that takes every default, between two steps.
pub record IsSound (c : Config) (s : WorkflowState) : Type 0 where
  pub capped : s.round ≤ c.max_rounds
  pub unsettled :
      is_done s.phase ≡ false → (s.verdicts ≡ []) ⊎ (s.verdicts ≡ Status.changes_requested ∷ [])
  pub closed : is_done s.phase ≡ true → length s.verdicts ≤ 2
  pub pending : is_done s.phase ≡ false → s.approved ≡ false
  pub green : s.phase ≡ Phase.review → c.has_gates ≡ true → s.last_gate_report ≡ some true
  pub blessed : s.approved ≡ true → last_approved s.verdicts ≡ true
  pub gated : s.approved ≡ true → c.has_gates ≡ true → s.last_gate_report ≡ some true

plan-IsSound :
    (c : Config) (t : Turn) (s s' : WorkflowState) (p : PlanTurn)
    → s.phase ≡ Phase.plan
    → (settle_plan c t s p >>= taken c) ≡ ok s'
    → IsSound c s
    → IsSound c s'
unfolding settle_plan taken
plan-IsSound c t s s' p e h i = ground arith

review-IsSound :
    (c : Config) (t : Turn) (s s' : WorkflowState) (v : ReviewTurn)
    → s.phase ≡ Phase.review
    → (settle_review c t s v >>= taken c) ≡ ok s'
    → IsSound c s
    → IsSound c s'
unfolding settle_review review_outcome blocking_verdict_count taken
review-IsSound c t s s' v e h i = ground arith

step-IsSound :
    (p : Phase) (c : Config) (t : Turn) (s s' : WorkflowState)
    → s.phase ≡ p
    → (step_in p c t s >>= taken c) ≡ ok s'
    → IsSound c s
    → IsSound c s'
unfolding step_in taken
step-IsSound Phase.plan c t s s' p h i = ground (arith, plan-IsSound c t s s' t.plan_turn p)
step-IsSound Phase.research c t s s' p h i = ground arith
step-IsSound Phase.security c t s s' p h i = ground arith
step-IsSound Phase.code c t s s' p h i = ground arith
step-IsSound Phase.gates c t s s' p h i = ground arith
step-IsSound Phase.review c t s s' p h i = ground (arith, review-IsSound c t s s' t.review_turn p)
step-IsSound Phase.done c t s s' p h i = cc

initial-IsSound : (c : Config) → check_config c ≡ ok tt → IsSound c (initial_state c)
unfolding check_config initial_state
initial-IsSound c h = ground arith

settled-injective : (s u : WorkflowState) → settled s ≡ settled u → s ≡ u
settled-injective s u h = cc

not_settled {ℓ} : {A : Type ℓ} (s u : WorkflowState) → unfinished s ≡ settled u → A
not_settled s u h = cc

drive-IsSound :
    (fuel : ℕ) (c : Config) (ts : ℕ → Turn) (n : ℕ) (s u : WorkflowState)
    → IsSound c s
    → drive fuel c auto_driver ts n s ≡ settled u
    → IsSound c u × (is_done u.phase ≡ true)
unfolding drive
drive-IsSound zero c ts n s u i h = not_settled s u h
drive-IsSound (suc fuel) c ts n s u i h = elim (Bool-cases (is_done s.phase)) [
  | inl e ↦
      let same = settled-injective s u (rw (e, drive) at h) in
      subst (λ x. IsSound c x × (is_done x.phase ≡ true)) same (i, e)
  | inr e ↦ elim (Result-cases (advance_run c auto_driver (ts n) s)) [
    | inl (x, q) ↦ cc
    | inr (s', q) ↦
        drive-IsSound fuel c ts (suc n) s' u
          (step-IsSound s.phase c (ts n) s s' refl (sym (taken_run c (ts n) s) ∙ q) i)
          (rw (e, q, drive) at h)
  ]
]

-- A run of a valid configuration that takes every default and settles was reviewed at most twice and
-- stayed within `maxRounds`; it is not approved, or its last verdict approves and, where gates are
-- configured, the last gate report is green.
pub drive_approves :
    (fuel : ℕ) (c : Config) (ts : ℕ → Turn) (s : WorkflowState)
    → check_config c ≡ ok tt
    → drive fuel c auto_driver ts 0 (initial_state c) ≡ settled s
    → (length s.verdicts ≤ 2)
      × (s.round ≤ c.max_rounds)
      × ((s.approved ≡ false)
          ⊎ ((last_approved s.verdicts ≡ true)
              × ((c.has_gates ≡ false) ⊎ (s.last_gate_report ≡ some true))))
drive_approves fuel c ts s h e =
    let (i, d) = drive-IsSound fuel c ts 0 (initial_state c) s (initial-IsSound c h) e in
    (i.closed d, i.capped, ground (arith, i.blessed, i.gated))
