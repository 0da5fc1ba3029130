-- ===== src/Limits.antt =====
-- src/session-limits.ts: the turn and cost limits of one session. Costs are whole micro-units; a
-- message whose cost is missing, negative or not finite is `unknown`.
pub mod Bounds
pub mod Counted
pub mod Terminal
use ad_coder.Prelude.{
  ℕ, zero, suc, ◌+◌, ◌==◌, ltb, leb, Bool, true, false, not, ◌&&◌, ◌||◌, Option, none, some, List,
  [], ◌∷◌, if◌then◌else◌,
}

-- A configured number as it stands in the settings: absent, refused by the check, or a number.
pub data Setting : Type 0 where
  absent invalid : Setting
  set : ℕ → Setting

pub record SessionLimits : Type 0 where
  pub max_turns : ℕ
  pub max_cost_usd : ℕ

pub data LimitReason : Type 0 where
  turns cost cost_in_flight cost_unknown : LimitReason

pub record SessionLimitError : Type 0 where
  pub reason : LimitReason
  pub limit : ℕ
  pub observed : ℕ

pub data Failure : Type 0 where
  bad_max_turns bad_max_cost mismatch : Failure
  limit_reached : SessionLimitError → Failure
  provider_failure : Failure

pub data Checked {ℓ} (A : Type ℓ) : Type ℓ where
  ok : A → Checked A
  thrown : Failure → Checked A

abbrev resolve_setting : Setting → Failure → Checked ℕ
resolve_setting absent f = ok 0
resolve_setting invalid f = thrown f
resolve_setting (set n) f = ok n

abbrev with_cost : ℕ → Checked ℕ → Checked SessionLimits
with_cost n (thrown f) = thrown f
with_cost n (ok m) = ok (record { max_turns = n; max_cost_usd = m })

abbrev with_turns : Checked ℕ → Checked ℕ → Checked SessionLimits
with_turns (thrown f) m = thrown f
with_turns (ok n) m = with_cost n m

unfoldable pub resolve_limits : Setting → Setting → Checked SessionLimits
resolve_limits t m = with_turns (resolve_setting t bad_max_turns) (resolve_setting m bad_max_cost)

pub record Snapshot : Type 0 where
  pub max_turns : ℕ
  pub max_cost_usd : ℕ
  pub admitted_turns : ℕ
  pub observed_cost : ℕ
  pub in_flight : Bool
  pub terminal_reason : Option LimitReason

pub record Controller : Type 0 where
  pub limits : SessionLimits
  pub admitted_turns : ℕ
  pub observed_cost : ℕ
  pub in_flight : Bool
  pub terminal_reason : Option LimitReason
  pub boundary_failure : Option SessionLimitError

unfoldable pub construct : SessionLimits → Controller
construct l = record {
  limits = l;
  admitted_turns = 0;
  observed_cost = 0;
  in_flight = false;
  terminal_reason = none;
  boundary_failure = none;
}

unfoldable pub restore : Controller → Snapshot → Checked Controller
restore c s =
    if not (c.admitted_turns == 0) || not (c.observed_cost == 0) || c.in_flight
    then ok c
    else if not (s.max_turns == c.limits.max_turns) || not (s.max_cost_usd == c.limits.max_cost_usd)
    then thrown mismatch
    else ok (record c {
      admitted_turns = s.admitted_turns;
      observed_cost = s.observed_cost;
      in_flight = s.in_flight;
      terminal_reason = s.terminal_reason;
    })

abbrev pub limit_error : LimitReason → ℕ → ℕ → Option SessionLimitError
limit_error r l o = some (record { reason = r; limit = l; observed = o })

unfoldable pub exhausted : Controller → Option SessionLimitError
exhausted c =
    if ltb 0 c.limits.max_turns && leb c.limits.max_turns c.admitted_turns
    then limit_error turns c.limits.max_turns c.admitted_turns
    else if ltb 0 c.limits.max_cost_usd && leb c.limits.max_cost_usd c.observed_cost
    then limit_error cost c.limits.max_cost_usd c.observed_cost
    else if ltb 0 c.limits.max_cost_usd && c.in_flight
    then limit_error cost_in_flight c.limits.max_cost_usd c.observed_cost
    else none

unfoldable pub current_error : Controller → Option SessionLimitError
unfolding exhausted
current_error c = elim c.terminal_reason [
  | some r ↦ limit_error r c.limits.max_cost_usd c.observed_cost
  | none ↦ exhausted c
]

abbrev pub reason_of : Option SessionLimitError → Option LimitReason
reason_of none = none
reason_of (some e) = some e.reason

unfoldable pub snapshot : Controller → Snapshot
unfolding current_error
snapshot c = record {
  max_turns = c.limits.max_turns;
  max_cost_usd = c.limits.max_cost_usd;
  admitted_turns = c.admitted_turns;
  observed_cost = c.observed_cost;
  in_flight = c.in_flight;
  terminal_reason = reason_of (current_error c);
}

-- `assertActive` and `assertNoBoundaryFailure`: the error that each throws.
unfoldable pub assert_active : Controller → Option SessionLimitError
unfolding current_error
assert_active c = current_error c

unfoldable pub assert_no_boundary_failure : Controller → Option SessionLimitError
assert_no_boundary_failure c = c.boundary_failure

-- The turn is admitted, or refused with the error recorded.
unfoldable pub reserve : Controller → Controller × Option SessionLimitError
unfolding assert_active
reserve c = elim (assert_active c) [
  | some e ↦ (record c { boundary_failure = some e }, some e)
  | none ↦ (
    record c {
      admitted_turns = c.admitted_turns + 1;
      in_flight = if ltb 0 c.limits.max_cost_usd then true else c.in_flight;
    },
    none,
  )
]

-- The cost of a message that came back: `unknown` where there is no message, too.
pub data Cost : Type 0 where
  unknown : Cost
  known : ℕ → Cost

unfoldable pub settle : Controller → Cost → Controller
settle c m = if c.limits.max_cost_usd == 0 then c else elim m [
  | unknown ↦ record c { in_flight = false; terminal_reason = some cost_unknown }
  | known n ↦ record c { in_flight = false; observed_cost = c.observed_cost + n }
]

-- How an admitted call of a wrapped method ends: the provider's method throws, its promise rejects,
-- or a message comes back.
pub data Outcome : Type 0 where
  threw rejected : Outcome
  resolved : Cost → Outcome

unfoldable pub finish : Controller → Outcome → Controller
unfolding settle
finish c threw = settle c unknown
finish c rejected = settle c unknown
finish c (resolved m) = settle c m

-- What the wrapped methods do to the controller: a call is admitted or refused when it is made,
-- and an admitted one ends once, later, in any order. `held` counts the calls in flight.
pub data Event : Type 0 where
  call : Event
  ended : Outcome → Event

pub record Session : Type 0 where
  pub controller : Controller
  pub held : ℕ

abbrev pub held_after : Option SessionLimitError → ℕ → ℕ
held_after none n = n + 1
held_after (some e) n = n

abbrev pub ended_one : Session → Outcome → ℕ → Session
unfolding finish
ended_one s o zero = s
ended_one s o (suc n) = record { controller = finish s.controller o; held = n }

unfoldable pub step : Session → Event → Session
unfolding reserve ended_one
step s call =
    let (c, e) = reserve s.controller in record { controller = c; held = held_after e s.held }
step s (ended o) = ended_one s o s.held

unfoldable pub run : Session → List Event → Session
unfolding step
run s [] = s
run s (e ∷ es) = run (step s e) es

unfoldable pub open_session : SessionLimits → Session
unfolding construct
open_session l = record { controller = construct l; held = 0 }
