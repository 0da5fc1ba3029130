-- ===== src/Control/Replies.antt =====
-- src/orchestration/control-plane.ts: what the steps of `resume` take in from the other records, the
-- session and the host.
use ad_coder.Prelude.{
  ℕ, ◌+◌, ◌==◌, ltb, String, Bool, true, false, ◌&&◌, Option, none, some, List, [], ◌∷◌,
  if◌then◌else◌, str_eq,
}
use ad_coder.Limits.{Controller, Snapshot, Checked, ok, thrown, restore, assert_active}
use ad_coder.Retry.{Coordinator, schedule}
use ad_coder.Retry as R
use ad_coder.Control.{
  LimitState, DurableRunRecord, PlaneError, invalid_follow_up, checkpoint_conflict,
  session_mismatch, host_error, invalid_config, resource_limit_reached, pending_decision, missing,
}
use ad_coder.Control.Records.{Tried, done, raised}
use ad_coder.Control.Plane.{Held}
use ad_coder.Control.Decided.{Resolution}
use ad_coder.Control.Executed.{Execution}

abbrev pub last_record : DurableRunRecord → List DurableRunRecord → DurableRunRecord
last_record r [] = r
last_record r (x ∷ xs) = last_record x xs

abbrev pub max_retry_delay_ms : ℕ
max_retry_delay_ms = 86400000

abbrev pub turns_of : Option Snapshot → ℕ
turns_of none = 0
turns_of (some s) = s.admitted_turns

abbrev pub cost_of : Option Snapshot → ℕ
cost_of none = 0
cost_of (some s) = s.observed_cost

-- The turns and the cost of the root runs together.
abbrev pub project_turns : List (String × Held) → ℕ
project_turns [] = 0
project_turns ((k, v) ∷ table) =
    (if v.value.depth == 0 then turns_of v.value.session_limit_snapshot else 0)
    + project_turns table

abbrev pub project_cost : List (String × Held) → ℕ
project_cost [] = 0
project_cost ((k, v) ∷ table) =
    (if v.value.depth == 0 then cost_of v.value.session_limit_snapshot else 0) + project_cost table

-- The child runs of a root.
abbrev pub existing_children : String → List (String × Held) → ℕ
existing_children root [] = 0
existing_children root ((k, v) ∷ table) =
    (if str_eq v.value.root_run_id root && ltb 0 v.value.depth then 1 else 0)
    + existing_children root table

unfoldable pub is_exhausted : Option Controller → Bool
unfolding assert_active
is_exhausted none = false
is_exhausted (some c) = elim (assert_active c) [ none ↦ false | some e ↦ true ]

unfoldable pub cancel_retry : String → Option Coordinator → Option Coordinator
unfolding R.cancel
cancel_retry id none = none
cancel_retry id (some c) = some (R.cancel id c)

abbrev pub restored : Checked Controller → Tried (Option Controller)
restored (ok c) = done (some c)
restored (thrown e) = raised session_mismatch

-- The snapshot of the root's record, if there is one, is restored.
unfoldable pub restore_session : Option Snapshot → Option Controller → Tried (Option Controller)
unfolding restore
restore_session none session = done session
restore_session (some s) none = done none
restore_session (some s) (some c) = restored (restore c s)

-- What `execute` may throw: the provider's limit with its hint, or another error.
pub data Thrown : Type 0 where
  provider_limited : Option ℕ → Thrown
  other_error : PlaneError → Thrown

abbrev pub is_conflict : PlaneError → Bool
is_conflict checkpoint_conflict = true
is_conflict invalid_config = false
is_conflict invalid_follow_up = false
is_conflict resource_limit_reached = false
is_conflict pending_decision = false
is_conflict missing = false
is_conflict session_mismatch = false
is_conflict (host_error code) = false

-- What the host answers to a task that waits.
pub data Reply : Type 0 where
  proceed : Reply
  unavailable : LimitState → Reply
  executed : Execution → Reply
  execute_threw : Thrown → Reply
  resolved : Resolution → Reply
  resolve_threw : PlaneError → Reply
