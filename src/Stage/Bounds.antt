-- ===== src/Stage/Bounds.antt =====
-- What a stage can admit.
use ad_coder.Prelude.{ℕ, ◌+◌, ◌-◌, ◌≤◌, ◌<◌, ◌≡◌, ◌⊎◌, true, Option, none, arith}
use ad_coder.Stage.{
  Controller, check_reserve, elapsed_ms, CloseoutReason, in_duration, in_model_turns, in_tool_turns,
  in_input, CloseoutFact, StageLimits, assert_active, check_limits, detect_closeout,
}
use ad_coder.Stage.Run.{Stage}

-- What holds of a stage of limits `l`.
record IsBounded (l : StageLimits) (s : Stage) : Type 0 where
  pub same : s.controller.limits ≡ l
  pub few : (l.max_model_turns ≡ 0) ⊎ (s.controller.model_turns ≤ l.max_model_turns)
  pub tools : (l.max_tool_turns ≡ 0) ⊎ (s.controller.tool_turns ≤ l.max_tool_turns)
  pub single : (l.max_cost_usd ≡ 0) ⊎ (s.held ≤ 1)
  pub flying : (l.max_cost_usd ≡ 0) ⊎ ((s.held ≡ 0) ⊎ (s.controller.cost_in_flight ≡ true))
  pub spare :
      (l.max_tool_turns ≡ 0)
      ⊎ ((l.reserve_tool_turns ≡ 0) ⊎ (s.plain ≤ l.max_tool_turns - l.reserve_tool_turns))
  pub counted : s.plain ≤ s.controller.tool_turns

pub active_checks :
    (now : ℕ) (c : Controller) → assert_active now c ≡ none → check_limits now c ≡ none
unfolding assert_active
active_checks now c h = ground arith

-- A check that finds nothing has entered no reserve.
passed :
    (r : CloseoutReason) (limit reserve observed used : ℕ) (next : Option CloseoutFact)
    → check_reserve r limit reserve observed used next ≡ none
    → ((limit ≡ 0) ⊎ ((reserve ≡ 0) ⊎ (observed < limit - reserve))) × (next ≡ none)
unfolding check_reserve
passed r limit reserve observed used next h = ground arith

pub spare_left :
    (now : ℕ) (c : Controller)
    → detect_closeout now 0 c ≡ none
    → (c.limits.max_tool_turns ≡ 0)
      ⊎ ((c.limits.reserve_tool_turns ≡ 0)
          ⊎ (c.tool_turns < c.limits.max_tool_turns - c.limits.reserve_tool_turns))
unfolding detect_closeout
spare_left now c h =
    let l = c.limits in
    let t = elapsed_ms now c in
    let d =
      check_reserve in_tool_turns l.max_tool_turns l.reserve_tool_turns c.tool_turns c.tool_turns
        none in
    let n =
      check_reserve in_input l.max_input_tokens l.reserve_input_tokens (c.input_tokens + 0)
        c.input_tokens d in
    let m =
      check_reserve in_model_turns l.max_model_turns l.reserve_model_turns c.model_turns
        c.model_turns n in
    let (_, a) = passed in_duration l.max_duration_ms l.reserve_duration_ms t t m h in
    let (_, b) =
      passed in_model_turns l.max_model_turns l.reserve_model_turns c.model_turns c.model_turns n
        a in
    let (_, e) =
      passed in_input l.max_input_tokens l.reserve_input_tokens (c.input_tokens + 0) c.input_tokens
        d b in
    (passed in_tool_turns l.max_tool_turns l.reserve_tool_turns c.tool_turns c.tool_turns none e).0
