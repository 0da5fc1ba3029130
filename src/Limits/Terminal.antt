-- ===== src/Limits/Terminal.antt =====
-- What ends a session for good, and what a restart keeps of it.
use ad_coder.Prelude.{
  ℕ, zero, suc, ◌≤◌, ◌<◌, ◌≡◌, refl, none, some, List, [], ◌∷◌, arith, ap, ==_refl,
}
use ad_coder.Limits.{
  turns, cost_unknown, Controller, Outcome, Event, call, ended, ended_one, Session, threw, rejected,
  resolved, unknown, known, exhausted, current_error, assert_active, reserve, settle, finish, step,
  run, construct, restore, snapshot, ok, reason_of,
}

-- The session was ended for an unknown cost after `n` turns.
abbrev IsOver : ℕ → Session → Type 0
IsOver n s = (s.controller.terminal_reason ≡ some cost_unknown) × (s.controller.admitted_turns ≡ n)

ended_one-IsOver :
    (n : ℕ) (s : Session) (o : Outcome) (k : ℕ) → IsOver n s → IsOver n (ended_one s o k)
unfolding finish settle
ended_one-IsOver n s o zero i = i
ended_one-IsOver n s threw (suc k) i = ground arith
ended_one-IsOver n s rejected (suc k) i = ground arith
ended_one-IsOver n s (resolved unknown) (suc k) i = ground arith
ended_one-IsOver n s (resolved (known m)) (suc k) i = ground arith

step-IsOver : (n : ℕ) (s : Session) (e : Event) → IsOver n s → IsOver n (step s e)
unfolding step reserve assert_active current_error exhausted
step-IsOver n s call i = ground arith
step-IsOver n s (ended o) i = ended_one-IsOver n s o s.held i

run-IsOver : (n : ℕ) (s : Session) (es : List Event) → IsOver n s → IsOver n (run s es)
unfolding run
run-IsOver n s [] i = i
run-IsOver n s (e ∷ es) i = run-IsOver n (step s e) es (step-IsOver n s e i)

abbrev HasNoCost : Outcome → Type 0
HasNoCost (resolved (known m)) = ⊥
HasNoCost _ = Unit

unknown_cost-IsOver :
    (s : Session) (o : Outcome) (n : ℕ)
    → 0 < s.controller.limits.max_cost_usd
    → s.held ≡ suc n
    → HasNoCost o
    → IsOver s.controller.admitted_turns (step s (ended o))
unfolding step finish settle
unknown_cost-IsOver s threw n p h a = ground arith
unknown_cost-IsOver s rejected n p h a = ground arith
unknown_cost-IsOver s (resolved unknown) n p h a = ground arith
unknown_cost-IsOver s (resolved (known m)) n p h a = elim a [ ]

-- Under a cost limit, a call that throws, is rejected or comes back without a usable cost ends the
-- session for good: whatever follows, no further turn is admitted and the reason stays.
pub unknown_cost_ends :
    (s : Session) (o : Outcome) (n : ℕ) (es : List Event)
    → 0 < s.controller.limits.max_cost_usd
    → s.held ≡ suc n
    → HasNoCost o
    → ((run (step s (ended o)) es).controller.terminal_reason ≡ some cost_unknown)
      × ((run (step s (ended o)) es).controller.admitted_turns ≡ s.controller.admitted_turns)
unknown_cost_ends s o n es p h a =
    run-IsOver s.controller.admitted_turns (step s (ended o)) es (unknown_cost-IsOver s o n p h a)

-- What `restore` makes of a fresh controller and a snapshot of `c`.
abbrev restored : Controller → Controller
unfolding current_error
restored c = record c { terminal_reason = reason_of (current_error c); boundary_failure = none }

restored_reason :
    (c : Controller) → reason_of (current_error (restored c)) ≡ reason_of (current_error c)
unfolding current_error exhausted
restored_reason c = ground arith

-- A controller that starts from the snapshot of another of the same limits refuses or admits a call
-- as that one does, for the same reason, with the same turns and the same cost.
pub restore-snapshot :
    (c : Controller)
    → (c' : Controller) × (restore (construct c.limits) (snapshot c) ≡ ok c')
      × (c'.admitted_turns ≡ c.admitted_turns)
      × (c'.observed_cost ≡ c.observed_cost)
      × (reason_of (current_error c') ≡ reason_of (current_error c))
      × (snapshot c' ≡ snapshot c)
unfolding restore construct snapshot current_error exhausted
restore-snapshot c =
    let c' : Controller = restored c in
    (
      c',
      rw (==_refl c.limits.max_turns, ==_refl c.limits.max_cost_usd) refl,
      refl,
      refl,
      restored_reason c,
      ap (λ r. record (snapshot c) { terminal_reason = r }) (restored_reason c),
    )

-- A session that stopped at its turn limit reports, after a restart, the cost limit and the observed
-- cost in place of the turn limit and the turns.
pub restored_turn_error :
    (c c' : Controller)
    → c.terminal_reason ≡ none
    → 0 < c.limits.max_turns
    → c.limits.max_turns ≤ c.admitted_turns
    → restore (construct c.limits) (snapshot c) ≡ ok c'
    → (current_error c
        ≡ some (record { reason = turns; limit = c.limits.max_turns; observed = c.admitted_turns }))
      × (current_error c'
          ≡ some (record {
            reason = turns;
            limit = c.limits.max_cost_usd;
            observed = c.observed_cost;
          }))
unfolding restore construct snapshot current_error exhausted
restored_turn_error c c' t p m h = ground arith
