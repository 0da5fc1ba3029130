-- ===== src/Workflow/Offers.antt =====
-- What a step offers: one default, and no kind of edge twice.
use ad_coder.Prelude.{
  ℕ, ◌+◌, ◌≡◌, refl, Bool, true, false, not, ◌&&◌, List, [], ◌∷◌, arith, any, ltb, if◌then◌else◌,
}
use ad_coder.Workflow.{
  Phase, AvailableTransition, Status, Config, WorkflowState, PlanTurn, no_plan, rejected_plan,
  planned, ReviewTurn, no_verdict, malformed_verdict, verdict, Turn, Result, ok, err, StepResult,
  WorkflowError,
}
use ad_coder.Workflow.Steps.{
  linear, after_plan, settle_plan, gate_transitions, review_outcome, settle_review, step_in, step,
}
use ad_coder.Workflow.Drive.{same_kind}

abbrev pub one_if : Bool → ℕ
one_if true = 1
one_if false = 0

-- How many of the edges are the default.
abbrev pub defaults : List AvailableTransition → ℕ
defaults [] = 0
defaults (t ∷ ts) = one_if t.is_default + defaults ts

-- No two of the edges are of one kind.
abbrev pub kinds_differ : List AvailableTransition → Bool
kinds_differ [] = true
kinds_differ (t ∷ ts) = not (any (λ u. same_kind u.kind t.kind) ts) && kinds_differ ts

abbrev pub IsOffer : List AvailableTransition → Type 0
IsOffer ts = (defaults ts ≡ 1) × (kinds_differ ts ≡ true)

linear-IsOffer : (c : Config) (p : Phase) (r : ℕ) → IsOffer (linear c p r)
linear-IsOffer c p r = ground arith

gate_transitions-IsOffer : (c : Config) (b : Bool) (r : ℕ) → IsOffer (gate_transitions c b r)
unfolding gate_transitions
gate_transitions-IsOffer c b r = ground arith

review_outcome-IsOffer : (c : Config) (v : Status) (n r : ℕ) → IsOffer (review_outcome c v n r).0
unfolding review_outcome
review_outcome-IsOffer c Status.approved n r = ground arith
review_outcome-IsOffer c _ n r = ground arith

-- A step fails, or what holds of its result holds.
abbrev pub Ensures {ℓ} : (StepResult → Type ℓ) → Result StepResult → Type ℓ
Ensures P (ok r) = P r
Ensures P (err e) = Unit

pub Ensures-if {ℓ} :
    (P : StepResult → Type ℓ) (b : Bool) (e : WorkflowError) (m : Result StepResult)
    → (b ≡ false → Ensures P m)
    → Ensures P (if b then err e else m)
Ensures-if P true e m h = tt
Ensures-if P false e m h = h refl

abbrev Offers : StepResult → Type 0
Offers r = IsOffer r.transitions

settle_plan-Offers :
    (c : Config) (t : Turn) (s : WorkflowState) (p : PlanTurn)
    → Ensures Offers (settle_plan c t s p)
unfolding settle_plan
settle_plan-Offers c t s no_plan = tt
settle_plan-Offers c t s rejected_plan = tt
settle_plan-Offers c t s (planned u surface x) =
    linear-IsOffer c (if ltb 0 u then Phase.research else after_plan c surface) s.round

settle_review-Offers :
    (c : Config) (t : Turn) (s : WorkflowState) (v : ReviewTurn)
    → Ensures Offers (settle_review c t s v)
unfolding settle_review
settle_review-Offers c t s no_verdict = tt
settle_review-Offers c t s malformed_verdict = tt
settle_review-Offers c t s (verdict v) = review_outcome-IsOffer c v _ s.round

step-Offers :
    (p : Phase) (c : Config) (t : Turn) (s : WorkflowState) → Ensures Offers (step_in p c t s)
unfolding step_in
step-Offers Phase.plan c t s =
    Ensures-if Offers (not c.has_planner) _ _
      λ _. Ensures-if Offers t.has_failed _ _ λ _. settle_plan-Offers c t s t.plan_turn
step-Offers Phase.research c t s = ground (arith, linear-IsOffer c)
step-Offers Phase.security c t s = ground (arith, linear-IsOffer c)
step-Offers Phase.code c t s = ground arith
step-Offers Phase.gates c t s =
    Ensures-if Offers (not c.has_gates) _ _
      λ _. Ensures-if Offers t.has_failed _ _ λ _. gate_transitions-IsOffer c t.gates_passed s.round
step-Offers Phase.review c t s =
    Ensures-if Offers t.has_failed _ _ λ _. settle_review-Offers c t s t.review_turn
step-Offers Phase.done c t s = tt

-- Every step that succeeds, in any phase and whatever its turn says, offers one default edge, and
-- at most one edge of each kind.
pub step_offers :
    (c : Config) (t : Turn) (s : WorkflowState) (r : StepResult)
    → step c t s ≡ ok r
    → (defaults r.transitions ≡ 1) × (kinds_differ r.transitions ≡ true)
unfolding step
step_offers c t s r h = rw h at (step-Offers s.phase c t s)
