-- ===== src/Stage/Run.antt =====
-- src/orchestration/stage-limits.ts: the admission of tools, the usage of calls, and the wrapped
-- provider methods; `isSubmissionToolName` of src/orchestration/submission-tools.ts.
use ad_coder.Prelude.{
  ℕ, zero, suc, ◌+◌, ltb, String, Bool, true, false, ◌&&◌, Option, none, some, List, [], ◌∷◌, ◌++◌,
  if◌then◌else◌, any, str_eq,
}
use ad_coder.Stage.{
  Controller, Checked, ok, thrown, Failure, invalid_usage, unsafe_total, stage_limit,
  stage_closeout, cost_unknown, StageLimits, Initial, CloseoutFact, assert_active, admit_model_turn,
  detect_closeout, report, construct,
}

abbrev pub submission_tool_names : List String
submission_tool_names = "submit_plan" ∷ "submit_verdict" ∷ "submit_follow_up" ∷ []

unfoldable pub is_submission_tool_name : String → Bool
is_submission_tool_name name = any (λ n. str_eq n name) submission_tool_names

abbrev pub is_submission : Option String → Bool
unfolding is_submission_tool_name
is_submission none = false
is_submission (some name) = is_submission_tool_name name

abbrev pub is_recorded : Option CloseoutFact → Bool
is_recorded none = false
is_recorded (some f) = true

unfoldable pub add_tool_turn : ℕ → Controller → Controller
unfolding report
add_tool_turn now c = report now (record c { tool_turns = c.tool_turns + 1 })

-- A tool that enters the reserve is refused and the closeout recorded, unless it is a submission tool
-- and the closeout is already recorded.
unfoldable pub close_out :
    ℕ → Option String → CloseoutFact → Controller → Controller × Option Failure
unfolding add_tool_turn
close_out now name f c =
    if is_recorded c.closeout && is_submission name
    then (add_tool_turn now c, none)
    else (record c { closeout = some f }, some (stage_closeout f))

unfoldable pub admit_tool_turn : ℕ → Option String → Controller → Controller × Option Failure
unfolding assert_active detect_closeout close_out add_tool_turn
admit_tool_turn now name c = elim (assert_active now c) [
  | some e ↦ (c, some e)
  | none ↦ elim (detect_closeout now 0 c) [
    | some f ↦ close_out now name f c
    | none ↦ (add_tool_turn now c, none)
  ]
]

abbrev pub max_safe_integer : ℕ
max_safe_integer = 9007199254740991

-- The usage of a message: `none` for a number of tokens that is no safe integer from 0, and for a
-- cost that is negative or not finite.
pub record Usage : Type 0 where
  pub input_tokens : Option ℕ
  pub cost_usd : Option ℕ

abbrev pub add_usage : ℕ → ℕ → ℕ → Controller → Checked Controller
unfolding report
add_usage now n m c =
    if ltb max_safe_integer (c.input_tokens + n)
    then thrown unsafe_total
    else ok (
        report now (record c {
          input_tokens = c.input_tokens + n;
          last_input_tokens = n;
          cost_usd = c.cost_usd + m;
          cost_in_flight = false;
        }))

abbrev pub with_cost : ℕ → ℕ → Option ℕ → Controller → Checked Controller
unfolding add_usage
with_cost now n none c = thrown invalid_usage
with_cost now n (some m) c = add_usage now n m c

abbrev pub with_input : ℕ → Option ℕ → Option ℕ → Controller → Checked Controller
unfolding with_cost
with_input now none m c = thrown invalid_usage
with_input now (some n) m c = with_cost now n m c

unfoldable pub observe_usage : ℕ → Usage → Controller → Checked Controller
unfolding with_input
observe_usage now u c = with_input now u.input_tokens u.cost_usd c

unfoldable pub fail_unknown_cost : ℕ → Controller → Controller
unfolding report
fail_unknown_cost now c =
    if ltb 0 c.limits.max_cost_usd
    then report now (record c { cost_in_flight = false; terminal_reason = some cost_unknown })
    else c

-- `reserve` of the wrapped methods: only a stage limit is kept for `assertNoBoundaryFailure`.
abbrev pub keep_failure : Failure → Controller → Controller
keep_failure (stage_limit r l o s) c = record c { boundary_failure = some (stage_limit r l o s) }
keep_failure _ c = c

unfoldable pub prepare_closeout : ℕ → Controller → Controller
unfolding detect_closeout
prepare_closeout now c = elim c.closeout [
  | some f ↦ c
  | none ↦ record c { closeout = detect_closeout now c.last_input_tokens c }
]

unfoldable pub begin_call : ℕ → Controller → Controller × Option Failure
unfolding admit_model_turn prepare_closeout
begin_call now c = elim (admit_model_turn now c) [
  | thrown e ↦ (keep_failure e c, some e)
  | ok d ↦ (prepare_closeout now d, none)
]

-- How an admitted call ends.
pub data Outcome : Type 0 where
  threw rejected : Outcome
  resolved : Usage → Outcome

-- The usage that is refused leaves the controller as it is.
abbrev pub kept : Controller → Checked Controller → Controller
kept c (ok d) = d
kept c (thrown e) = c

unfoldable pub settle : ℕ → Outcome → Controller → Controller
unfolding observe_usage fail_unknown_cost
settle now threw c = fail_unknown_cost now c
settle now rejected c = fail_unknown_cost now c
settle now (resolved u) c = kept c (observe_usage now u c)

-- What the request still carries: messages by number, the instruction that is appended, and the
-- tools that have a name.
pub data Message : Type 0 where
  dialogue : ℕ → Message
  instruction : CloseoutFact → Message

pub record Context : Type 0 where
  pub messages : List Message
  pub tools : List (Option String)

abbrev pub submission_tools_only : List (Option String) → List (Option String)
unfolding is_submission
submission_tools_only [] = []
submission_tools_only (t ∷ ts) =
    if is_submission t then t ∷ submission_tools_only ts else submission_tools_only ts

-- `closeoutRequest`, for a context that has messages; any other is left as it is.
unfoldable pub closeout_request : Controller → Option Context → Option Context
unfolding submission_tools_only
closeout_request c none = none
closeout_request c (some x) = elim c.closeout [
  | none ↦ some x
  | some f ↦ some (record {
    messages = x.messages ++ (instruction f ∷ []);
    tools = submission_tools_only x.tools;
  })
]

-- The pieces of code that run between two suspensions, each at a reading of the clock.
pub data Event : Type 0 where
  call : Event
  ended : Outcome → Event
  tool : Option String → Event

-- `held` counts the calls in flight, `plain` the admitted tools that submit nothing.
pub record Stage : Type 0 where
  pub controller : Controller
  pub held : ℕ
  pub plain : ℕ

abbrev pub one_if_none : Option Failure → ℕ
one_if_none none = 1
one_if_none (some e) = 0

abbrev pub one_unless : Bool → ℕ → ℕ
one_unless true n = 0
one_unless false n = n

unfoldable pub end_call : ℕ → Outcome → Stage → ℕ → Stage
unfolding settle
end_call now o s zero = s
end_call now o s (suc n) = record s { controller = settle now o s.controller; held = n }

abbrev pub after_tool : Option String → Stage → Controller × Option Failure → Stage
after_tool name s (c, e) = record s {
  controller = c;
  plain = s.plain + one_unless (is_submission name) (one_if_none e);
}

unfoldable pub step : ℕ → Event → Stage → Stage
unfolding begin_call end_call admit_tool_turn
step now call s =
    let (c, e) = begin_call now s.controller in
    record s { controller = c; held = s.held + one_if_none e }
step now (ended o) s = end_call now o s s.held
step now (tool name) s = after_tool name s (admit_tool_turn now name s.controller)

unfoldable pub run : List (ℕ × Event) → Stage → Stage
unfolding step
run [] s = s
run ((now, e) ∷ es) s = run es (step now e s)

unfoldable pub start : StageLimits → ℕ → Initial → Stage
unfolding construct
start l now i = record { controller = construct l now i; held = 0; plain = 0 }
