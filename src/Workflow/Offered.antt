-- ===== src/Workflow/Offered.antt =====
-- The operator's choice among the edges that a step offers.
use ad_coder.Prelude.{
  ℕ, zero, suc, ◌≡◌, refl, ◌⊎◌, inl, inr, true, false, any, some, List, [], ◌∷◌, arith, Bool-cases,
  Option-cases,
}
use ad_coder.Workflow.{
  TransitionKind, AvailableTransition, Config, WorkflowState, Turn, ok, StepResult,
}
use ad_coder.Workflow.Steps.{step}
use ad_coder.Workflow.Offers.{kinds_differ, defaults, step_offers}
use ad_coder.Workflow.Drive.{
  same_kind, apply_transition, commit_transition, find_offered, same_edge, phase_code, Answer,
  empty, names, number, unrecognized, read_choice, answered, find_default, find_kind, pick,
}

abbrev In : AvailableTransition → List AvailableTransition → Type 0
In t [] = ⊥
In t (u ∷ us) = (u ≡ t) ⊎ In t us

find_default-In :
    (ts : List AvailableTransition) (t : AvailableTransition) → find_default ts ≡ some t → In t ts
unfolding find_default
find_default-In [] t h = cc
find_default-In (u ∷ us) t h = ground (arith, find_default-In us t)

find_kind-In :
    (k : TransitionKind) (ts : List AvailableTransition) (t : AvailableTransition)
    → find_kind k ts ≡ some t
    → In t ts
unfolding find_kind
find_kind-In k [] t h = cc
find_kind-In k (u ∷ us) t h = ground (arith, find_kind-In k us t)

pick-In :
    (n : ℕ) (ts : List AvailableTransition) (t : AvailableTransition) → pick n ts ≡ some t → In t ts
unfolding pick
pick-In n [] t h = cc
pick-In zero (u ∷ us) t h = cc
pick-In (suc zero) (u ∷ us) t h = ground arith
pick-In (suc (suc n)) (u ∷ us) t h = inr (pick-In (suc n) us t h)

answered-In :
    (a : Answer) (ts : List AvailableTransition) (t : AvailableTransition)
    → answered a ts ≡ some t
    → In t ts
unfolding answered
answered-In empty ts t h = find_default-In ts t h
answered-In (names k) ts t h = find_kind-In k ts t h
answered-In (number n) ts t h = pick-In n ts t h
answered-In unrecognized ts t h = cc

same_edge_refl : (t : AvailableTransition) → same_edge t t ≡ true
unfolding same_edge phase_code
same_edge_refl t = ground arith

other_kind :
    (u t : AvailableTransition) (us : List AvailableTransition)
    → any (λ v. same_kind v.kind u.kind) us ≡ false
    → In t us
    → same_edge u t ≡ false
unfolding same_edge
other_kind u t [] h i = elim i [ ]
other_kind u t (v ∷ vs) h i = ground (arith, other_kind u t vs)

find_offered-In :
    (ts : List AvailableTransition) (t : AvailableTransition)
    → kinds_differ ts ≡ true
    → In t ts
    → find_offered t ts ≡ some t
unfolding find_offered
find_offered-In [] t k i = elim i [ ]
find_offered-In (u ∷ us) t k i =
    ground (arith, find_offered-In us t, same_edge_refl t, other_kind u t us)

has_default :
    (ts : List AvailableTransition)
    → defaults ts ≡ 1
    → (t : AvailableTransition) × (find_default ts ≡ some t)
unfolding find_default
has_default [] h = ground arith
has_default (u ∷ us) h = elim (Bool-cases u.is_default) [
  | inl e ↦ (u, rw e refl)
  | inr e ↦ let k : defaults us ≡ 1 = ground arith in rw e (has_default us k)
]

-- A choice is made, and it is one of the edges.
read_choice-In :
    (answers : List Answer) (ts : List AvailableTransition)
    → defaults ts ≡ 1
    → (t : AvailableTransition) × (read_choice answers ts ≡ ok t) × In t ts
unfolding read_choice
read_choice-In [] ts h = let (t, e) = has_default ts h in (t, rw e refl, find_default-In ts t e)
read_choice-In (a ∷ as') ts h = elim (Option-cases (answered a ts)) [
  | inl e ↦ rw (e, read_choice) (read_choice-In as' ts h)
  | inr (t, e) ↦ (t, rw (e, read_choice) refl, answered-In a ts t e)
]

-- Whatever lines the operator types, a step that succeeds ends with a choice, and committing it
-- applies that edge to the state that the step left.
pub read_choice_commits :
    (c : Config) (t : Turn) (s : WorkflowState) (r : StepResult) (answers : List Answer)
    → step c t s ≡ ok r
    → (e : AvailableTransition) × (read_choice answers r.transitions ≡ ok e)
      × (commit_transition r e ≡ ok (apply_transition r.state e))
unfolding commit_transition
read_choice_commits c t s r answers h =
    let (one, differ) = step_offers c t s r h in
    let (e, q, i) = read_choice-In answers r.transitions one in
    (e, q, rw (find_offered-In r.transitions e differ i, commit_transition) refl)
