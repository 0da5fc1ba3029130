-- ===== src/Stage.antt =====
-- src/orchestration/stage-limits.ts: the limits of one workflow stage and the reserve that is kept for
-- its final response. Milliseconds, tokens and costs are natural numbers, costs in whole micro-units.
-- One operation reads the clock once: `now` is its reading, and the controller keeps the reading and
-- the elapsed time that it was built with, so that `startedAt` need not be negative.
pub mod Run
pub mod Bounds
pub mod Closeout
use ad_coder.Prelude.{
  ℕ, zero, suc, ◌+◌, ◌-◌, ◌==◌, ltb, leb, String, Bool, true, false, not, ◌&&◌, ◌||◌, Option, none,
  some, List, [], ◌∷◌, ◌++◌, if◌then◌else◌, any, str_eq,
}

-- A configured number: absent, refused by the check, or a number.
pub data Setting : Type 0 where
  absent invalid : Setting
  set : ℕ → Setting

pub record WrittenLimits : Type 0 where
  pub max_duration_ms : Setting
  pub max_model_turns : Setting
  pub max_tool_turns : Setting
  pub max_input_tokens : Setting
  pub max_cost_usd : Setting
  pub reserve_model_turns : Setting
  pub reserve_duration_ms : Setting
  pub reserve_tool_turns : Setting
  pub reserve_input_tokens : Setting

-- `Required<StageLimits>`: 0 is no limit, or no reserve.
pub record StageLimits : Type 0 where
  pub max_duration_ms : ℕ
  pub max_model_turns : ℕ
  pub max_tool_turns : ℕ
  pub max_input_tokens : ℕ
  pub max_cost_usd : ℕ
  pub reserve_model_turns : ℕ
  pub reserve_duration_ms : ℕ
  pub reserve_tool_turns : ℕ
  pub reserve_input_tokens : ℕ

pub data LimitReason : Type 0 where
  duration model_turns tool_turns input cost cost_in_flight cost_unknown : LimitReason

pub data CloseoutReason : Type 0 where
  in_duration in_model_turns in_tool_turns in_input : CloseoutReason

pub record StageLimitSnapshot : Type 0 where
  pub limits : StageLimits
  pub elapsed_ms : ℕ
  pub model_turns : ℕ
  pub tool_turns : ℕ
  pub input_tokens : ℕ
  pub last_input_tokens : ℕ
  pub cost_usd : ℕ
  pub cost_in_flight : Bool

-- The numbers that the text of a closeout names.
pub record CloseoutFact : Type 0 where
  pub reason : CloseoutReason
  pub used : ℕ
  pub limit : ℕ
  pub reserve : ℕ

pub data Failure : Type 0 where
  invalid_limits clock_backwards invalid_usage unsafe_total : Failure
  stage_limit : LimitReason → (limit observed : ℕ) → StageLimitSnapshot → Failure
  stage_closeout : CloseoutFact → Failure

pub data Checked {ℓ} (A : Type ℓ) : Type ℓ where
  ok : A → Checked A
  thrown : Failure → Checked A

infixl 5 ◌>>=◌
abbrev pub ◌>>=◌ {ℓ κ} : {A : Type ℓ} {B : Type κ} → Checked A → (A → Checked B) → Checked B
ok a >>= f = f a
thrown e >>= f = thrown e

abbrev pub setting : Setting → Checked ℕ
setting absent = ok 0
setting invalid = thrown invalid_limits
setting (set n) = ok n

unfoldable pub resolve_stage_limits : WrittenLimits → Checked StageLimits
resolve_stage_limits w = do
  d ← setting w.max_duration_ms
  m ← setting w.max_model_turns
  t ← setting w.max_tool_turns
  i ← setting w.max_input_tokens
  rm ← setting w.reserve_model_turns
  rd ← setting w.reserve_duration_ms
  rt ← setting w.reserve_tool_turns
  ri ← setting w.reserve_input_tokens
  c ← setting w.max_cost_usd
  ok (record {
    max_duration_ms = d;
    max_model_turns = m;
    max_tool_turns = t;
    max_input_tokens = i;
    max_cost_usd = c;
    reserve_model_turns = rm;
    reserve_duration_ms = rd;
    reserve_tool_turns = rt;
    reserve_input_tokens = ri;
  })

-- What a resumed stage starts from.
pub record Initial : Type 0 where
  pub elapsed_ms : ℕ
  pub model_turns : ℕ
  pub tool_turns : ℕ
  pub input_tokens : ℕ
  pub last_input_tokens : ℕ
  pub cost_usd : ℕ

-- `reports` are the snapshots that were handed to `onSnapshot`.
pub record Controller : Type 0 where
  pub limits : StageLimits
  pub built_at : ℕ
  pub elapsed_before : ℕ
  pub model_turns : ℕ
  pub tool_turns : ℕ
  pub input_tokens : ℕ
  pub last_input_tokens : ℕ
  pub cost_usd : ℕ
  pub cost_in_flight : Bool
  pub closeout : Option CloseoutFact
  pub terminal_reason : Option LimitReason
  pub boundary_failure : Option Failure
  pub reports : List StageLimitSnapshot

unfoldable pub construct : StageLimits → ℕ → Initial → Controller
construct l now i = record {
  limits = l;
  built_at = now;
  elapsed_before = i.elapsed_ms;
  model_turns = i.model_turns;
  tool_turns = i.tool_turns;
  input_tokens = i.input_tokens;
  last_input_tokens = i.last_input_tokens;
  cost_usd = i.cost_usd;
  cost_in_flight = false;
  closeout = none;
  terminal_reason = none;
  boundary_failure = none;
  reports = [];
}

-- `elapsedMs`, and whether the clock has moved backwards, where it throws.
unfoldable pub elapsed_ms : ℕ → Controller → ℕ
elapsed_ms now c = now + c.elapsed_before - c.built_at

unfoldable pub is_backwards : ℕ → Controller → Bool
is_backwards now c = ltb (now + c.elapsed_before) c.built_at

unfoldable pub snapshot : ℕ → Controller → StageLimitSnapshot
unfolding elapsed_ms
snapshot now c = record {
  limits = c.limits;
  elapsed_ms = elapsed_ms now c;
  model_turns = c.model_turns;
  tool_turns = c.tool_turns;
  input_tokens = c.input_tokens;
  last_input_tokens = c.last_input_tokens;
  cost_usd = c.cost_usd;
  cost_in_flight = c.cost_in_flight;
}

-- `assertBelow`, followed by the check after it.
abbrev pub below : ℕ → Controller → LimitReason → ℕ → ℕ → Option Failure → Option Failure
unfolding snapshot
below now c r limit observed next =
    if ltb 0 limit && leb limit observed
    then some (stage_limit r limit observed (snapshot now c))
    else next

unfoldable pub check_limits : ℕ → Controller → Option Failure
unfolding below elapsed_ms
check_limits now c = below now c duration c.limits.max_duration_ms (elapsed_ms now c) (
    below now c model_turns c.limits.max_model_turns c.model_turns (
      below now c tool_turns c.limits.max_tool_turns c.tool_turns (
        below now c input c.limits.max_input_tokens c.input_tokens (
          below now c cost c.limits.max_cost_usd c.cost_usd (
            if ltb 0 c.limits.max_cost_usd && c.cost_in_flight
            then some (stage_limit cost_in_flight c.limits.max_cost_usd c.cost_usd (snapshot now c))
            else none)))))

-- `assertActive`: the error that it throws. Each branch reads the clock first.
unfoldable pub assert_active : ℕ → Controller → Option Failure
unfolding is_backwards snapshot check_limits
assert_active now c = if is_backwards now c then some clock_backwards else elim c.terminal_reason [
  | some r ↦ some (stage_limit r c.limits.max_cost_usd c.cost_usd (snapshot now c))
  | none ↦ check_limits now c
]

-- `this.onSnapshot?.(this.snapshot())`
unfoldable pub report : ℕ → Controller → Controller
unfolding snapshot
report now c = record c { reports = c.reports ++ (snapshot now c ∷ []) }

unfoldable pub add_model_turn : Controller → Controller
add_model_turn c = record c {
  model_turns = c.model_turns + 1;
  cost_in_flight = if ltb 0 c.limits.max_cost_usd then true else c.cost_in_flight;
}

unfoldable pub admit_model_turn : ℕ → Controller → Checked Controller
unfolding assert_active add_model_turn report
admit_model_turn now c = elim (assert_active now c) [
  | some e ↦ thrown e
  | none ↦ ok (report now (add_model_turn c))
]

abbrev pub entered : ℕ → ℕ → ℕ → Bool
entered limit reserve observed = ltb 0 limit && ltb 0 reserve && leb (limit - reserve) observed

abbrev pub fact : CloseoutReason → ℕ → ℕ → ℕ → CloseoutFact
fact r used limit reserve = record { reason = r; used = used; limit = limit; reserve = reserve }

-- One reserve, and the check after it.
unfoldable pub check_reserve :
    CloseoutReason → (limit reserve observed used : ℕ) → Option CloseoutFact → Option CloseoutFact
check_reserve r limit reserve observed used next =
    if entered limit reserve observed then some (fact r used limit reserve) else next

unfoldable pub detect_closeout : ℕ → ℕ → Controller → Option CloseoutFact
unfolding elapsed_ms check_reserve
detect_closeout now next c =
    let l = c.limits in
    let t = elapsed_ms now c in
    check_reserve in_duration l.max_duration_ms l.reserve_duration_ms t t (
      check_reserve in_model_turns l.max_model_turns l.reserve_model_turns c.model_turns
        c.model_turns
        (check_reserve in_input l.max_input_tokens l.reserve_input_tokens (c.input_tokens + next)
          c.input_tokens
          (check_reserve in_tool_turns l.max_tool_turns l.reserve_tool_turns c.tool_turns
            c.tool_turns none)))
