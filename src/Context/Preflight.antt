-- ===== src/Context/Preflight.antt =====
-- src/context/estimate.ts and src/context/preflight.ts: the size of a full request, and the two
-- checks before a turn.
use ad_coder.Prelude.{
  ℕ, ◌+◌, ◌≡◌, ltb, min, String, Bool, true, false, Option, none, some, List, [], ◌∷◌,
  if◌then◌else◌, any, str_eq, arith,
}
use ad_coder.Context.{ContextBudget, context_budget, Checked, ok, thrown}
use ad_coder.Context.Tail.{select_recent_tail, total, select_recent_tail-le}

pub record EstimatorTool : Type 0 where
  pub name : String
  pub description : String
  pub parameters : String

pub record Role : Type 0 where
  pub budget : ContextBudget
  pub active_tool_names : Option (List String)

pub record Request {ℓ} (M : Type ℓ) : Type ℓ where
  pub system_prompt : Option String
  pub tools : List EstimatorTool
  pub messages : List M

pub record Estimate : Type 0 where
  pub tokens : ℕ
  pub overhead_tokens : ℕ
  pub usage_based : Bool

abbrev pub keep_allowed : List String → List EstimatorTool → List EstimatorTool
keep_allowed names [] = []
keep_allowed names (t ∷ ts) =
    if any (λ n. str_eq n t.name) names then t ∷ keep_allowed names ts else keep_allowed names ts

unfoldable pub granted_tools : Option (List String) → List EstimatorTool → List EstimatorTool
granted_tools none ts = ts
granted_tools (some names) ts = keep_allowed names ts

-- `estimate_tokens` measures a message, `estimate_context` a dialogue: its tokens, and how many of
-- them a provider has reported. `estimate_blob` measures a text as a message, `tool_text` is the
-- text of a tool definition.
module _ {ℓ} {M : Type ℓ} (estimate_tokens : M → ℕ) (estimate_context : List M → ℕ × ℕ)
    (estimate_blob : String → ℕ) (tool_text : EstimatorTool → String) where
  unfoldable pub estimate_tools : List EstimatorTool → ℕ
  estimate_tools [] = 0
  estimate_tools (t ∷ ts) = estimate_blob (tool_text t) + estimate_tools ts

  abbrev pub estimate_prompt : Option String → ℕ
  estimate_prompt none = 0
  estimate_prompt (some s) = if str_eq s "" then 0 else estimate_blob s

  unfoldable pub estimate_overhead_tokens : Request M → ℕ
  unfolding estimate_tools
  estimate_overhead_tokens r = estimate_prompt r.system_prompt + estimate_tools r.tools

  unfoldable pub estimate_full_request_tokens : Request M → Estimate
  unfolding estimate_overhead_tokens
  estimate_full_request_tokens r =
      let (tokens, usage) = estimate_context r.messages in
      if ltb 0 usage
      then record { tokens = tokens; overhead_tokens = 0; usage_based = true }
      else record {
        tokens = tokens + estimate_overhead_tokens r;
        overhead_tokens = estimate_overhead_tokens r;
        usage_based = false;
      }

  -- The request as the estimator sees it: only the tools that the role is granted.
  abbrev pub granted_request : Role → Request M → Request M
  unfolding granted_tools
  granted_request role r = record r { tools = granted_tools role.active_tool_names r.tools }

  unfoldable pub assert_turn_fits_budget : Role → Request M → ℕ → Checked Estimate
  unfolding estimate_full_request_tokens granted_request select_recent_tail total
  assert_turn_fits_budget role r window =
      let e = estimate_full_request_tokens (granted_request role r) in
      let tail = (select_recent_tail estimate_tokens role.budget.keep_recent_tokens r.messages).1 in
      if ltb (min role.budget.max_tokens window)
        (total estimate_tokens tail + e.overhead_tokens + role.budget.reserve_tokens)
      then thrown context_budget
      else ok e

  unfoldable pub assert_context_fits_budget : Role → Request M → ℕ → Checked Estimate
  unfolding estimate_full_request_tokens granted_request
  assert_context_fits_budget role r window =
      let e = estimate_full_request_tokens (granted_request role r) in
      if ltb (min role.budget.max_tokens window) (e.tokens + role.budget.reserve_tokens)
      then thrown context_budget
      else ok e

  -- A turn whose whole context fits also passes the check of its irreducible tail, when no provider
  -- has reported usage and the estimator then sums the messages' estimates.
  pub context_fits-turn_fits :
      (role : Role) (r : Request M) (window : ℕ) (e : Estimate)
      → estimate_context r.messages ≡ (total estimate_tokens r.messages, 0)
      → assert_context_fits_budget role r window ≡ ok e
      → assert_turn_fits_budget role r window ≡ ok e
  unfolding assert_context_fits_budget assert_turn_fits_budget estimate_full_request_tokens
  context_fits-turn_fits role r window e f h =
      ground
        (arith, f, select_recent_tail-le estimate_tokens role.budget.keep_recent_tokens r.messages)
