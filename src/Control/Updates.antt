-- ===== src/Control/Updates.antt =====
-- src/orchestration/control-plane.ts: what the writes of the other operations keep of a record.
use ad_coder.Prelude.{
  ℕ, ◌==◌, String, Bool, true, not, Option, none, some, if_rule, str_eq, ◌≡◌, refl,
}
use ad_coder.Control.{
  BudgetDecision, LimitState, Action, decision_required, run_paused, run_failed, DurableRunRecord,
  PlaneError, ExternalLimit, DecisionRecord, Texts, queued, missing, invalid_follow_up,
}
use ad_coder.Control.Records.{
  Tried, done, raised, ◌>>=◌, with_status, is_pending, is_resolvable, is_manual, require,
  from_option, after_action,
}
use ad_coder.Control.Resume.{unavailable_record, dispatched_record}
use ad_coder.Control.Sound.{Evolves, Follows, with_event-IsLogged}
use ad_coder.Control.Decided.{
  operator_resolved, cancelled_record, budget_record, waiting_record, decided_record,
  operator_decision, limited_record, failed_record, Resolution, find_decision, resolved_record,
  add_decision, replace_decision, operator_record,
}

pub unavailable_record-Follows :
    (s : LimitState) (now : ℕ) (r : DurableRunRecord) → Follows r (unavailable_record s now r)
unfolding unavailable_record
unavailable_record-Follows s now r = (refl, refl, refl, λ h. h)

pub dispatched_record-Evolves :
    (lease : String) (now : ℕ) (r : DurableRunRecord) → Evolves r (dispatched_record lease now r)
unfolding dispatched_record
dispatched_record-Evolves lease now r = (refl, λ h. h, λ h. h)

pub dispatched_record_in_flight :
    (lease : String) (now : ℕ) (r : DurableRunRecord)
    → (dispatched_record lease now r).provider_turn_in_flight ≡ true
unfolding dispatched_record
dispatched_record_in_flight lease now r = refl

pub dispatched_record_cancel :
    (lease : String) (now : ℕ) (r : DurableRunRecord)
    → (dispatched_record lease now r).cancel_requested ≡ r.cancel_requested
unfolding dispatched_record
dispatched_record_cancel lease now r = refl

pub limited_record-Evolves :
    (l : ExternalLimit) (again : Bool) (now : ℕ) (r : DurableRunRecord)
    → Evolves r (limited_record l again now r)
unfolding limited_record
limited_record-Evolves l again now r = (refl, λ h. h, with_event-IsLogged run_paused now r)

pub failed_record-Evolves :
    (e : PlaneError) (now : ℕ) (r : DurableRunRecord) → Evolves r (failed_record e now r)
unfolding failed_record
failed_record-Evolves e now r = (refl, λ h. h, with_event-IsLogged run_failed now r)

pub cancelled_record-Evolves : (now : ℕ) (r : DurableRunRecord) → Evolves r (cancelled_record now r)
unfolding cancelled_record
cancelled_record-Evolves now r = (refl, λ h. refl, λ h. h)

pub cancelled_record_in_flight :
    (now : ℕ) (r : DurableRunRecord)
    → (cancelled_record now r).provider_turn_in_flight ≡ r.provider_turn_in_flight
unfolding cancelled_record
cancelled_record_in_flight now r = refl

-- What holds of a result, if there is one.
abbrev pub WhenDone {ℓ} : {A : Type ℓ} → (A → Type 0) → Tried A → Type 0
WhenDone P (done a) = P a
WhenDone P (raised e) = Unit

pub WhenDone-bind {ℓ κ} :
    {A : Type ℓ} {B : Type κ} (P : B → Type 0) (m : Tried A) (f : A → Tried B)
    → ((a : A) → WhenDone P (f a))
    → WhenDone P (m >>= f)
WhenDone-bind P (done a) f h = h a
WhenDone-bind P (raised e) f h = tt

pub budget_record-Follows :
    (b : BudgetDecision) (now : ℕ) (r : DurableRunRecord)
    → WhenDone (Follows r) (budget_record b now r)
unfolding budget_record
budget_record-Follows b now r =
    let s : DurableRunRecord = record r {
      budget_decision = some b;
      status = queued;
      updated_at = now;
    } in
    let p : Follows r s = (refl, refl, refl, λ h. h) in
    WhenDone-bind (Follows r) (require (r.depth == 0) invalid_follow_up) _ (λ x.
      WhenDone-bind (Follows r) (require (is_resolvable r.status) invalid_follow_up) (λ y. done s)
        (λ y. p))

module _ (t : Texts) where
  pub waiting_record-Follows :
      (d : DecisionRecord) (now : ℕ) (r : DurableRunRecord) → Follows r (waiting_record t d now r)
  unfolding waiting_record
  waiting_record-Follows d now r = (refl, refl, refl, with_event-IsLogged decision_required now r)

  pub decided_record-Follows :
      (g : Resolution) (d : DecisionRecord) (now : ℕ) (r : DurableRunRecord)
      → WhenDone (Follows r) (decided_record t g d now r)
  unfolding decided_record
  decided_record-Follows g d now r =
      WhenDone-bind (Follows r) (resolved_record t g now d)
        (λ x. done (with_status (after_action g.action) now (add_decision x r)))
        (λ x.
          let p : Follows r (with_status (after_action g.action) now (add_decision x r)) =
            (refl, refl, refl, λ h. h) in
          p)

  abbrev pub FollowsOption : DurableRunRecord → Option DurableRunRecord → Type 0
  FollowsOption r none = Unit
  FollowsOption r (some s) = Follows r s

  operator_resolved-Follows :
      (a : Action) (rationale : String) (now : ℕ) (d : DecisionRecord) (r : DurableRunRecord)
      → FollowsOption r (operator_resolved t a rationale now d r)
  operator_resolved-Follows a rationale now d r =
      let s : DurableRunRecord = with_status (after_action a) now (record r {
        decisions = replace_decision (operator_record t a rationale now d) r.decisions;
      }) in
      let p : Follows r s = (refl, refl, refl, λ h. h) in
      if_rule (λ (o : Option DurableRunRecord). FollowsOption r o) (is_pending d.status) (some s)
        none (λ e. p) (λ e. tt)

  pub operator_decision-Follows :
      (id : String) (a : Action) (rationale : String) (now : ℕ) (r : DurableRunRecord)
      → WhenDone (FollowsOption r) (operator_decision t id a rationale now r)
  unfolding operator_decision
  operator_decision-Follows id a rationale now r =
      WhenDone-bind (FollowsOption r)
        (require (not (str_eq (t.trim rationale) "")) invalid_follow_up) _
        (λ x. WhenDone-bind (FollowsOption r) (require (is_manual r.mode) invalid_follow_up) _ (λ y.
          WhenDone-bind (FollowsOption r) (from_option (find_decision id r.decisions) missing)
            (λ d. done (operator_resolved t a rationale now d r))
            (λ d. operator_resolved-Follows a rationale now d r)))
