-- ===== src/Workflow/Progress.antt =====
-- The run that takes every default ends, and within how many steps.
use ad_coder.Prelude.{
  ℕ, zero, suc, ◌+◌, ◌*◌, ◌-◌, ◌<◌, ◌≡◌, refl, sym, ◌∙◌, ◌⊎◌, inl, inr, Bool, true, arith,
  Bool-cases,
}
use ad_coder.Workflow.{
  Phase, Config, WorkflowState, PlanTurn, ReviewTurn, Turn, Result, ok, err, StepResult,
  WorkflowError,
}
use ad_coder.Workflow.Steps.{
  settle_plan, step_gates, review_outcome, settle_review, step_in, step, initial_state,
  check_config,
}
use ad_coder.Workflow.Drive.{
  auto_driver, commit_transition, ◌>>=◌, advance_run, is_done, Outcome, settled, paused, unfinished,
  drive,
}

-- How far a phase is from the end of its round.
abbrev pub rank : Phase → ℕ
rank Phase.plan = 6
rank Phase.research = 5
rank Phase.security = 4
rank Phase.code = 3
rank Phase.gates = 2
rank Phase.review = 1
rank Phase.done = 0

abbrev pub left : Config → WorkflowState → ℕ
left c s = 8 * (c.max_rounds - s.round) + rank s.phase

-- The round that the default leads to from what a step offers.
unfoldable pub taken : Config → StepResult → Result WorkflowState
unfolding auto_driver commit_transition
taken c r = auto_driver r.transitions >>= λ chosen. commit_transition r chosen

plan_left :
    (c : Config) (t : Turn) (s s' : WorkflowState) (p : PlanTurn)
    → s.phase ≡ Phase.plan
    → (settle_plan c t s p >>= taken c) ≡ ok s'
    → left c s' < left c s
unfolding settle_plan taken
plan_left c t s s' p e h = ground arith

gates_left :
    (c : Config) (t : Turn) (s s' : WorkflowState) (b : Bool)
    → s.phase ≡ Phase.gates
    → (step_gates c t s >>= taken c) ≡ ok s'
    → left c s' < left c s
unfolding step_gates taken
gates_left c t s s' b e h = ground arith

review_left :
    (c : Config) (t : Turn) (s s' : WorkflowState) (v : ReviewTurn)
    → s.phase ≡ Phase.review
    → (settle_review c t s v >>= taken c) ≡ ok s'
    → left c s' < left c s
unfolding review_outcome settle_review taken
review_left c t s s' v e h = ground arith

step_left :
    (p : Phase) (c : Config) (t : Turn) (s s' : WorkflowState)
    → s.phase ≡ p
    → (step_in p c t s >>= taken c) ≡ ok s'
    → left c s' < left c s
unfolding step_in taken
step_left Phase.plan c t s s' p h = ground (arith, plan_left c t s s' t.plan_turn p)
step_left Phase.research c t s s' p h = ground arith
step_left Phase.security c t s s' p h = ground arith
step_left Phase.code c t s s' p h = ground arith
step_left Phase.gates c t s s' p h = gates_left c t s s' t.gates_passed p h
step_left Phase.review c t s s' p h = ground (arith, review_left c t s s' t.review_turn p)
step_left Phase.done c t s s' p h = cc

pub taken_run :
    (c : Config) (t : Turn) (s : WorkflowState)
    → advance_run c auto_driver t s ≡ (step_in s.phase c t s >>= taken c)
unfolding advance_run step taken
taken_run c t s = refl

pub advance_run_left :
    (c : Config) (t : Turn) (s s' : WorkflowState)
    → advance_run c auto_driver t s ≡ ok s'
    → left c s' < left c s
advance_run_left c t s s' h = step_left s.phase c t s s' refl (sym (taken_run c t s) ∙ h)

-- The run settled in phase `done`, or stopped at an error of its last step.
abbrev pub HasEnded : Outcome → Type 0
HasEnded (settled s) = s.phase ≡ Phase.done
HasEnded (paused e s) = Unit
HasEnded (unfinished s) = ⊥

pub Result-cases :
    {A : Type 0} (m : Result A) → ((e : WorkflowError) × (m ≡ err e)) ⊎ ((a : A) × (m ≡ ok a))
Result-cases (ok a) = inr (a, refl)
Result-cases (err e) = inl (e, refl)

pub done_of : (p : Phase) → is_done p ≡ true → p ≡ Phase.done
done_of Phase.plan h = cc
done_of _ h = ground arith

drive_ends :
    (fuel : ℕ) (c : Config) (ts : ℕ → Turn) (n : ℕ) (s : WorkflowState)
    → left c s < fuel
    → HasEnded (drive fuel c auto_driver ts n s)
unfolding drive
drive_ends zero c ts n s h = elim h [ ]
drive_ends (suc fuel) c ts n s h = elim (Bool-cases (is_done s.phase)) [
  | inl e ↦ rw (e, drive) (done_of s.phase e)
  | inr e ↦ elim (Result-cases (advance_run c auto_driver (ts n) s)) [
    | inl (x, q) ↦ rw (e, q, drive) tt
    | inr (s', q) ↦
        rw (e, q, drive)
          (drive_ends fuel c ts (suc n) s' (omega (arith, advance_run_left c (ts n) s s' q)))
  ]
]

left_initial : (c : Config) → check_config c ≡ ok tt → left c (initial_state c) < 8 * c.max_rounds
unfolding check_config initial_state
left_initial c h = ground arith

-- A valid configuration run by the defaults ends within `8 * maxRounds` steps, whatever the roles
-- and the gates answer: it settles, or stops at the error of a step.
pub drive_ends_in_time :
    (c : Config) (ts : ℕ → Turn)
    → check_config c ≡ ok tt
    → HasEnded (drive (8 * c.max_rounds) c auto_driver ts 0 (initial_state c))
drive_ends_in_time c ts h =
    drive_ends (8 * c.max_rounds) c ts 0 (initial_state c) (left_initial c h)
