-- ===== src/Limits/Counted.antt =====
-- What a session lets through and pays, counted from its history.
use ad_coder.Prelude.{none, some, ℕ, zero, suc, ◌+◌, ◌<◌, ◌≡◌, refl, List, [], ◌∷◌, arith}
use ad_coder.Limits.{
  Outcome, Event, call, ended, Session, threw, rejected, resolved, unknown, known, reserve, settle,
  finish, ended_one, step, run,
}

-- A turn that begins: a call that is not answered with an error.
abbrev turns_of : Session → Event → ℕ
turns_of s call = elim (reserve s.controller).1 [ none ↦ 1 | some e ↦ 0 ]
turns_of s (ended o) = 0

-- A known cost, of a message for one of `held` calls in flight.
abbrev cost_of : ℕ → Event → ℕ
cost_of (suc held) (ended (resolved (known n))) = n
cost_of _ _ = 0

-- The calls of a history that were let through, by the answers that the callers get.
unfoldable pub calls_made : Session → List Event → ℕ
calls_made s [] = 0
calls_made s (e ∷ es) = turns_of s e + calls_made (step s e) es

-- The sum of the known costs of the messages that came back in a history.
unfoldable pub costs_paid : Session → List Event → ℕ
costs_paid s [] = 0
costs_paid s (e ∷ es) = cost_of s.held e + costs_paid (step s e) es

ended_turns :
    (s : Session) (o : Outcome) (n : ℕ)
    → (ended_one s o n).controller.admitted_turns ≡ s.controller.admitted_turns
unfolding finish settle
ended_turns s o zero = refl
ended_turns s threw (suc n) = ground arith
ended_turns s rejected (suc n) = ground arith
ended_turns s (resolved unknown) (suc n) = ground arith
ended_turns s (resolved (known m)) (suc n) = ground arith

step_turns :
    (s : Session) (e : Event)
    → (step s e).controller.admitted_turns ≡ s.controller.admitted_turns + turns_of s e
unfolding step reserve
step_turns s call = ground arith
step_turns s (ended o) = omega (arith, ended_turns s o s.held)

-- The controller counts the calls that it lets through.
pub run_turns :
    (s : Session) (es : List Event)
    → (run s es).controller.admitted_turns ≡ s.controller.admitted_turns + calls_made s es
unfolding run calls_made
run_turns s [] = omega arith
run_turns s (e ∷ es) = omega (arith, run_turns (step s e) es, step_turns s e)

ended_costs :
    (s : Session) (o : Outcome) (n : ℕ)
    → 0 < s.controller.limits.max_cost_usd
    → (ended_one s o n).controller.observed_cost ≡ s.controller.observed_cost + cost_of n (ended o)
unfolding finish settle
ended_costs s o zero h = omega arith
ended_costs s threw (suc n) h = ground arith
ended_costs s rejected (suc n) h = ground arith
ended_costs s (resolved unknown) (suc n) h = ground arith
ended_costs s (resolved (known m)) (suc n) h = ground arith

ended_limits :
    (s : Session) (o : Outcome) (n : ℕ) → (ended_one s o n).controller.limits ≡ s.controller.limits
unfolding finish settle
ended_limits s o zero = refl
ended_limits s threw (suc n) = ground arith
ended_limits s rejected (suc n) = ground arith
ended_limits s (resolved unknown) (suc n) = ground arith
ended_limits s (resolved (known m)) (suc n) = ground arith

step_limits : (s : Session) (e : Event) → (step s e).controller.limits ≡ s.controller.limits
unfolding step reserve
step_limits s call = ground arith
step_limits s (ended o) = ended_limits s o s.held

call_costs : (h : ℕ) → cost_of h call ≡ 0
call_costs zero = refl
call_costs (suc h) = refl

step_costs :
    (s : Session) (e : Event)
    → 0 < s.controller.limits.max_cost_usd
    → (step s e).controller.observed_cost ≡ s.controller.observed_cost + cost_of s.held e
unfolding step reserve
step_costs s call h = rw call_costs (ground arith)
step_costs s (ended o) h = ended_costs s o s.held h

-- With a limit of the cost the controller adds up what the messages cost.
pub run_costs :
    (s : Session) (es : List Event)
    → 0 < s.controller.limits.max_cost_usd
    → (run s es).controller.observed_cost ≡ s.controller.observed_cost + costs_paid s es
unfolding run costs_paid
run_costs s [] h = omega arith
run_costs s (e ∷ es) h =
    let p = run_costs (step s e) es (rw (step_limits s e) h) in omega (arith, p, step_costs s e h)
