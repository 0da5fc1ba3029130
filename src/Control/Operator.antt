-- ===== src/Control/Operator.antt =====
-- src/orchestration/control-plane.ts: `recordBudgetDecision`, `requestDecision` up to its wait,
-- `resolveDecisionFromOperator` and `cancel` over the stored records.
use ad_coder.Prelude.{ℕ, String, Option, none, some, [], ◌∷◌, if◌then◌else◌}
use ad_coder.Control.{
  RunMode, auto, manual, Action, DecisionRecord, DurableRunRecord, ControlPlaneConfig,
  BudgetDecision, Texts,
}
use ad_coder.Control.Records.{is_terminal, Tried, done, raised}
use ad_coder.Control.Plane.{Held, requesting, World, read, enter, put}
use ad_coder.Control.Replies.{cancel_retry}
use ad_coder.Control.Decided.{
  cancelled_record, budget_record, DecisionRequest, requested, waiting_record, operator_decision,
}

module _ (t : Texts) (c : ControlPlaneConfig) where
  module _ (bytes_of : Held → ℕ) where
    unfoldable pub put_tried : Held → World → Tried DurableRunRecord → World
    unfolding put
    put_tried v w (done r) = (put bytes_of v.value.id v.version (r ∷ []) w).0
    put_tried v w (raised e) = w

    unfoldable pub put_option : Held → World → Tried (Option DurableRunRecord) → World
    unfolding put
    put_option v w (done (some r)) = (put bytes_of v.value.id v.version (r ∷ []) w).0
    put_option v w (done none) = w
    put_option v w (raised e) = w

    -- An operation on a record that was read.
    abbrev pub on_read : Tried Held → (Held → World) → World → World
    on_read (done v) f w = f v
    on_read (raised e) f w = w

    unfoldable pub record_budget_decision : BudgetDecision → ℕ → String → World → World
    unfolding put_tried budget_record read
    record_budget_decision b now id w =
        on_read (read id w.runs) (λ v. put_tried v w (budget_record b now v.value)) w

    unfoldable pub ask : RunMode → Held → ℕ → World → Tried DecisionRecord → World
    unfolding put waiting_record
    ask manual v now w (done d) =
        (put bytes_of v.value.id v.version (waiting_record t d now v.value ∷ []) w).0
    ask auto v now w (done d) = enter (requesting v d) w
    ask m v now w (raised e) = w

    unfoldable pub request_decision : DecisionRequest → ℕ → String → World → World
    unfolding ask requested read
    request_decision q now id w =
        on_read (read id w.runs) (λ v. ask v.value.mode v now w (requested t q now v.value)) w

    unfoldable pub resolve_decision_from_operator :
        String → Action → String → ℕ → String → World → World
    unfolding put_option operator_decision read
    resolve_decision_from_operator decision action rationale now id w =
        on_read (read id w.runs)
          (λ v. put_option v w (operator_decision t decision action rationale now v.value)) w

    unfoldable pub cancel_held : ℕ → Held → World → World
    unfolding put cancelled_record
    cancel_held now v w =
        if is_terminal v.value.status
        then w
        else (put bytes_of v.value.id v.version (cancelled_record now v.value ∷ []) w).0

    unfoldable pub cancel : ℕ → String → World → World
    unfolding cancel_held read cancel_retry
    cancel now id w =
        let w1 = record w { retries = cancel_retry id w.retries } in
        on_read (read id w1.runs) (λ v. cancel_held now v w1) w1
