-- ===== src/Limits/Bounds.antt =====
-- What a session can admit and spend.
use ad_coder.Prelude.{ℕ, zero, suc, ◌+◌, ◌≤◌, ◌<◌, ◌≡◌, ◌⊎◌, refl, true, List, [], ◌∷◌, arith, All}
use ad_coder.Limits.{
  SessionLimits, Outcome, Event, call, ended, Session, threw, rejected, resolved, unknown, known,
  exhausted, current_error, assert_active, reserve, settle, finish, ended_one, step, run,
  open_session, construct,
}
use ad_coder.Limits.Counted.{calls_made, costs_paid, run_turns, run_costs}

-- A call that comes back with a cost costs at most `k`.
abbrev pub CostsAtMost : ℕ → Event → Type 0
CostsAtMost k (ended (resolved (known n))) = n ≤ k
CostsAtMost k _ = Unit

-- What holds of a session of limits `l` whose calls cost at most `k` each.
pub record IsBounded (l : SessionLimits) (k : ℕ) (s : Session) : Type 0 where
  pub same : s.controller.limits ≡ l
  pub few : 0 < l.max_turns → s.controller.admitted_turns ≤ l.max_turns
  pub single : 0 < l.max_cost_usd → s.held ≤ 1
  pub flying : 0 < l.max_cost_usd → 0 < s.held → s.controller.in_flight ≡ true
  pub below : 0 < l.max_cost_usd → 0 < s.held → s.controller.observed_cost < l.max_cost_usd
  pub paid : 0 < l.max_cost_usd → s.controller.observed_cost < l.max_cost_usd + k

call-IsBounded :
    (l : SessionLimits) (k : ℕ) (s : Session) → IsBounded l k s → IsBounded l k (step s call)
unfolding step reserve assert_active current_error exhausted
call-IsBounded l k s i = ground arith

ended-IsBounded :
    (l : SessionLimits) (k : ℕ) (s : Session) (o : Outcome) (n : ℕ)
    → s.held ≡ n
    → CostsAtMost k (ended o)
    → IsBounded l k s
    → IsBounded l k (ended_one s o n)
unfolding finish settle
ended-IsBounded l k s o zero h b i = i
ended-IsBounded l k s threw (suc n) h b i = ground arith
ended-IsBounded l k s rejected (suc n) h b i = ground arith
ended-IsBounded l k s (resolved unknown) (suc n) h b i = ground arith
ended-IsBounded l k s (resolved (known m)) (suc n) h b i = ground arith

step-IsBounded :
    (l : SessionLimits) (k : ℕ) (s : Session) (e : Event)
    → CostsAtMost k e
    → IsBounded l k s
    → IsBounded l k (step s e)
unfolding step
step-IsBounded l k s call b i = call-IsBounded l k s i
step-IsBounded l k s (ended o) b i = ended-IsBounded l k s o s.held refl b i

run-IsBounded :
    (l : SessionLimits) (k : ℕ) (s : Session) (es : List Event)
    → All (CostsAtMost k) es
    → IsBounded l k s
    → IsBounded l k (run s es)
unfolding run
run-IsBounded l k s [] a i = i
run-IsBounded l k s (e ∷ es) (b, a) i =
    run-IsBounded l k (step s e) es a (step-IsBounded l k s e b i)

-- In any sequence of calls and ends of calls, in which no call costs more than `k`, a session has no
-- turn limit or lets no more calls through than the limit; and it has no cost limit, or has at most
-- one call in flight and the messages that came back cost less than the limit and `k` together. The
-- calls are counted by the answers that they get, and the costs by the messages.
pub session_within_limits :
    (l : SessionLimits) (k : ℕ) (es : List Event)
    → All (CostsAtMost k) es
    → ((l.max_turns ≡ 0) ⊎ (calls_made (open_session l) es ≤ l.max_turns))
      × ((l.max_cost_usd ≡ 0)
          ⊎ (((run (open_session l) es).held ≤ 1)
              × (costs_paid (open_session l) es < l.max_cost_usd + k)))
unfolding open_session construct
session_within_limits l k es a =
    let start : IsBounded l k (open_session l) = ground arith in
    let i = run-IsBounded l k (open_session l) es a start in
    let turns = run_turns (open_session l) es in
    let costs = run_costs (open_session l) es in
    ground (arith, i.few, i.single, i.paid, turns, costs)
