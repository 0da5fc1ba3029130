-- ===== src/Control/Advance.antt =====
-- src/orchestration/control-plane.ts, `resume` after `execute` over the stored records, with the `try` and
-- its `catch`, `requestDecision` after its wait, and the step of any call that waits.
use Prim.Native.Nat.{◌^◌}
use ad_coder.Prelude.{
  ℕ, ◌*◌, ◌==◌, ltb, min, max, String, Bool, true, false, ◌&&◌, ◌||◌, Option, none, some, List, [],
  ◌∷◌, length, if◌then◌else◌, str_eq,
}
use ad_coder.Retry.{Coordinator, schedule}
use ad_coder.Control.{
  RunMode, auto, manual, DurableRunRecord, ControlPlaneConfig, BudgetDecision, ExternalLimit,
  from_provider, exhausted, checkpoint_conflict, DecisionRecord, ChildPipelineSpec, Texts,
}
use ad_coder.Control.Records.{Tried, done, raised, is_running}
use ad_coder.Control.Plane.{
  Held, Task, resuming, checking, executing, deciding, returning, requesting, World, read, enter,
  reply_to, put, persist_session_limits,
}
use ad_coder.Control.Children.{Answers, child_returned}
use ad_coder.Control.Children as C
use ad_coder.Control.Replies.{
  max_retry_delay_ms, existing_children, Thrown, provider_limited, other_error, Reply, proceed,
  unavailable, executed, execute_threw, resolved, resolve_threw,
}
use ad_coder.Control.Steps.{resume, dispatch, hold_back}
use ad_coder.Control.Decided.{limited_record, failed_record, Resolution, decided_record}
use ad_coder.Control.Executed.{
  Execution, Settlement, settled, to_decide, settlement, decomposed_record, decomposition_decision,
}

module _ (t : Texts) (c : ControlPlaneConfig) (bytes_of : Held → ℕ)
    (estimate : Option BudgetDecision) (jitter : ℕ → ℕ) where
  abbrev pub should_schedule : DurableRunRecord → Option Coordinator → Bool
  should_schedule r none = false
  should_schedule r (some k) =
      ltb 0 c.retry_interval_ms
      && (c.max_automatic_retry_attempts == 0
          || ltb r.automatic_retry_attempts c.max_automatic_retry_attempts)

  abbrev pub base_delay : Option ℕ → ℕ
  base_delay none = c.retry_interval_ms
  base_delay (some hint) = hint

  -- The delay of the retry after some attempts.
  abbrev pub retry_delay : Option ℕ → ℕ → ℕ
  retry_delay hint attempts =
      min max_retry_delay_ms (max 1000 (min max_retry_delay_ms (base_delay hint * 2 ^ attempts)))

  unfoldable pub scheduled : Bool → String → ℕ → Option Coordinator → Option Coordinator
  unfolding schedule
  scheduled false id delay k = k
  scheduled true id delay none = none
  scheduled true id delay (some k) = some (schedule id (jitter delay) k)

  unfoldable pub limited_result :
      Bool → Option ℕ → Held → DurableRunRecord → List Held → World × Tried ℕ → World
  unfolding scheduled
  limited_result again hint v r cs (w, done n) = reply_to cs r (record w {
    retries = scheduled again r.id (retry_delay hint v.value.automatic_retry_attempts) w.retries;
  })
  limited_result again hint v r cs (w, raised e) = w

  abbrev pub provider_limit : Option ℕ → ExternalLimit
  provider_limit hint = record { source = from_provider; state = exhausted; retry_after_ms = hint }

  -- The `catch` from its read on.
  unfoldable pub caught_with : Answers → Thrown → Held → List Held → World → World
  unfolding limited_result put limited_record failed_record
  caught_with a (provider_limited hint) v cs w =
      let again = should_schedule v.value w.retries in
      let r = limited_record (provider_limit hint) again a.now v.value in
      limited_result again hint v r cs (put bytes_of v.value.id v.version (r ∷ []) w)
  caught_with a (other_error e) v cs w =
      (put bytes_of v.value.id v.version (failed_record e a.now v.value ∷ []) w).0

  unfoldable pub caught_read : Answers → Thrown → List Held → World → Tried Held → World
  unfolding caught_with
  caught_read a x cs w (done v) = caught_with a x v cs w
  caught_read a x cs w (raised e) = w

  unfoldable pub caught_after : Answers → Thrown → String → List Held → World × Tried ℕ → World
  unfolding caught_read read
  caught_after a x id cs (w, done n) = caught_read a x cs w (read id w.runs)
  caught_after a x id cs (w, raised e) = w

  -- The `catch` of `resume`.
  unfoldable pub caught : Answers → Thrown → Held → List Held → World → World
  unfolding caught_after persist_session_limits
  caught a x held cs w =
      caught_after a x held.value.id cs
        (persist_session_limits bytes_of held.value.root_run_id a.now w)

  abbrev pub runs_children : DurableRunRecord → Bool
  runs_children r = is_running r.status && ltb 0 (length r.remaining_children)

  -- The last write of the `try`, and the children after it.
  unfoldable pub settled_result :
      Answers → Held → DurableRunRecord → List Held → World × Tried ℕ → World
  unfolding C.run_children caught
  settled_result a held r cs (w, done n) =
      if runs_children r
      then C.run_children t bytes_of a (record { version = n; value = r }) cs w
      else reply_to cs r w
  settled_result a held r cs (w, raised e) = caught a (other_error e) held cs w

  unfoldable pub settle_record :
      Answers → Held → Held → DurableRunRecord → List Held → World → World
  unfolding put settled_result
  settle_record a held v r cs w =
      settled_result a held r cs (put bytes_of v.value.id v.version (r ∷ []) w)

  unfoldable pub settle_as :
      Answers → Execution → Held → Held → List Held → World → Tried Settlement → World
  unfolding settle_record caught
  settle_as a x held v cs w (done (settled r)) = settle_record a held v r cs w
  settle_as a x held v cs w (done (to_decide r d)) = enter (deciding v r x.children d cs) w
  settle_as a x held v cs w (raised e) = caught a (other_error e) held cs w

  abbrev pub holds_lease : Option String → String → Bool
  holds_lease none lease = false
  holds_lease (some own) lease = str_eq own lease

  unfoldable pub settle_read :
      Answers → Execution → Held → String → List Held → World → Tried Held → World
  unfolding settle_as settlement caught
  settle_read a x held lease cs w (done v) =
      if holds_lease v.value.execution_lease lease
      then settle_as a x held v cs w (
          settlement t c a.rationale x (existing_children v.value.root_run_id w.runs.states) a.now
            v.value)
      else caught a (other_error checkpoint_conflict) held cs w
  settle_read a x held lease cs w (raised e) = caught a (other_error e) held cs w

  unfoldable pub settle_after :
      Answers → Execution → Held → String → List Held → World × Tried ℕ → World
  unfolding settle_read read caught
  settle_after a x held lease cs (w, done n) =
      settle_read a x held lease cs w (read held.value.id w.runs)
  settle_after a x held lease cs (w, raised e) = caught a (other_error e) held cs w

  -- `resume` after `execute` returned.
  unfoldable pub settle : Answers → Execution → Held → String → List Held → World → World
  unfolding settle_after persist_session_limits
  settle a x held lease cs w =
      settle_after a x held lease cs
        (persist_session_limits bytes_of held.value.root_run_id a.now w)

  -- `resolveDecompositionDecision` after its wait: a manual run does not ask the host.
  unfoldable pub decision_of :
      RunMode → Tried Resolution → ℕ → DecisionRecord → Tried DecisionRecord
  unfolding decomposition_decision
  decision_of manual answer now d = done d
  decision_of auto (done g) now d = decomposition_decision t c g now d
  decision_of auto (raised e) now d = raised e

  unfoldable pub decide_as :
      Answers
      → Held
      → DurableRunRecord
      → List ChildPipelineSpec
      → List Held
      → World
      → Tried DecisionRecord
      → World
  unfolding settle_record decomposed_record caught
  decide_as a v r children cs w (done d) =
      settle_record a v v (decomposed_record t c d children a.now r) cs w
  decide_as a v r children cs w (raised e) = caught a (other_error e) v cs w

  -- `requestDecision` after the host's answer.
  unfoldable pub requested_write : Held → World → Tried DurableRunRecord → World
  unfolding put
  requested_write v w (done r) = (put bytes_of v.value.id v.version (r ∷ []) w).0
  requested_write v w (raised e) = w

  -- One task goes on with an answer of the host; an answer to another wait leaves it waiting.
  unfoldable pub advance : Answers → Task → Reply → World → World
  unfolding resume dispatch hold_back settle caught decide_as decision_of requested_write
      decided_record child_returned
  advance a (resuming id until cs) y w = resume t c bytes_of estimate jitter a id until cs w
  advance a (checking v cs) proceed w = dispatch t c bytes_of estimate jitter a v cs w
  advance a (checking v cs) (unavailable s) w = hold_back t c bytes_of estimate jitter a s v cs w
  advance a (executing v lease cs) (executed x) w = settle a x v lease cs w
  advance a (executing v lease cs) (execute_threw x) w = caught a x v cs w
  advance a (deciding v r children d cs) (resolved g) w =
      decide_as a v r children cs w (decision_of v.value.mode (done g) a.now d)
  advance a (deciding v r children d cs) (resolve_threw e) w =
      decide_as a v r children cs w (decision_of v.value.mode (raised e) a.now d)
  advance a (returning r []) y w = w
  advance a (returning r (v ∷ cs)) y w = child_returned t bytes_of a r v cs w
  advance a (requesting v d) (resolved g) w =
      requested_write v w (decided_record t g d a.now v.value)
  advance a (requesting v d) (resolve_threw e) w = w
  advance a k y w = enter k w
