-- ===== src/Control/Entries.antt =====
-- src/orchestration/control-plane.ts, `start`, `recordBudgetDecision`, `requestDecision`,
-- `resolveDecisionFromOperator` and `cancel`: each keeps the invariant of the stored records and of the
-- calls.
use ad_coder.Prelude.{
  ℕ, ◌+◌, String, Bool, Option, none, some, [], ◌∷◌, if_rule, lookup, ◌≡◌, refl, arith,
}
use ad_coder.Versioned.{
  VersionedState, Files, Stored, ok, store_failed, failed, write_versioned_json, write_next,
  version_of,
}
use ad_coder.Control.{
  RunMode, auto, manual, Action, ControlPlaneConfig, BudgetDecision, DecisionRecord,
  DurableRunRecord, PlaneError, Texts,
}
use ad_coder.Control.Records.{Tried, done, raised, is_terminal}
use ad_coder.Control.Plane.{ControlPlaneIndex, Held, Runs, requesting, World, read, put}
use ad_coder.Control.Children.{Answers}
use ad_coder.Control.Start.{
  StartRunInput, index_path, index_of, valid_input, root_record, put_index, known_request,
  admit_root, admit_checked, start_in, root_written, index_written, start_checked, start,
}
use ad_coder.Control.Sound.{Follows, IsHeld, IsSound}
use ad_coder.Control.Writes.{Shift-same}
use ad_coder.Control.Calls.{kept_by_put, put_followed}
use ad_coder.Control.Steady.{enter-IsSound}
use ad_coder.Control.Stepwise.{beside}
use ad_coder.Control.Replies.{cancel_retry}
use ad_coder.Control.Puts.{put-Wrote, create-IsSound, read-IsHeld}
use ad_coder.Control.Updates.{
  WhenDone, FollowsOption, cancelled_record-Evolves, cancelled_record_in_flight,
  budget_record-Follows, waiting_record-Follows, operator_decision-Follows,
}
use ad_coder.Control.Decided.{
  DecisionRequest, requested, waiting_record, budget_record, operator_decision, cancelled_record,
}
use ad_coder.Control.Operator.{
  put_tried, put_option, on_read, record_budget_decision, ask, request_decision,
  resolve_decision_from_operator, cancel_held, cancel,
}

module _ (w0 : World) (t : Texts) (c : ControlPlaneConfig) (bytes_of : Held → ℕ) where
  module _ (index_bytes : VersionedState ControlPlaneIndex → ℕ) where
    reindexed :
        (w : World) (r : DurableRunRecord) (m : Stored PlaneError (Files ControlPlaneIndex))
        → IsSound w0 none w
        → IsSound w0 none (index_written t c bytes_of index_bytes r w m).0
    reindexed w r (ok s) i = record {
      stored = i.stored;
      ready = i.ready;
      flights = i.flights;
      since = i.since;
    }
    reindexed w r (store_failed e) i = i
    reindexed w r (failed e) i = i

    put_index-IsSound :
        (x : ControlPlaneIndex) (r : DurableRunRecord) (w : World)
        → IsSound w0 none w
        → IsSound w0 none (put_index t c bytes_of index_bytes x r w).0
    unfolding put_index
    put_index-IsSound x r w i =
        let n = version_of (lookup index_path w.index.states) in
        reindexed w r
          (write_next index_bytes index_path (record { version = n + 1; value = x }) w.index) i

    root_written-IsSound :
        (a : Answers) (x : StartRunInput) (index : ControlPlaneIndex) (w : World)
        (m : Stored PlaneError Runs)
        → write_versioned_json bytes_of a.new_id (root_record t c a x) (some 0) w.runs ≡ m
        → IsSound w0 none w
        → IsSound w0 none (root_written t c bytes_of index_bytes a x index w m).0
    unfolding root_written root_record
    root_written-IsSound a x index w (ok s) e i =
        put_index-IsSound _ _ (record w { runs = s })
          (create-IsSound w0 bytes_of none a.new_id (root_record t c a x) w refl refl i s e).0
    root_written-IsSound a x index w (store_failed y) e i = i
    root_written-IsSound a x index w (failed y) e i = i

    admit_checked-IsSound :
        (m : Tried Bool) (a : Answers) (x : StartRunInput) (index : ControlPlaneIndex) (w : World)
        → IsSound w0 none w
        → IsSound w0 none (admit_checked t c bytes_of index_bytes m a x index w).0
    unfolding admit_checked admit_root
    admit_checked-IsSound (done b) a x index w i = root_written-IsSound a x index w _ refl i
    admit_checked-IsSound (raised e) a x index w i = i

    known_request-IsSound :
        (index : ControlPlaneIndex) (w : World) (m : Tried Held)
        → IsSound w0 none w
        → IsSound w0 none (known_request t c bytes_of index_bytes index w m).0
    unfolding known_request
    known_request-IsSound index w (done v) i = put_index-IsSound index v.value w i
    known_request-IsSound index w (raised e) i = i

    start_in-IsSound :
        (a : Answers) (x : StartRunInput) (index : ControlPlaneIndex) (w : World)
        (o : Option String)
        → IsSound w0 none w
        → IsSound w0 none (start_in t c bytes_of index_bytes a x index w o).0
    unfolding start_in
    start_in-IsSound a x index w (some id) i = known_request-IsSound index w (read id w.runs) i
    start_in-IsSound a x index w none i = admit_checked-IsSound _ a x index w i

    start_checked-IsSound :
        (m : Tried Bool) (a : Answers) (x : StartRunInput) (index : ControlPlaneIndex) (w : World)
        → IsSound w0 none w
        → IsSound w0 none (start_checked t c bytes_of index_bytes m a x index w).0
    unfolding start_checked
    start_checked-IsSound (done b) a x index w i = start_in-IsSound a x index w _ i
    start_checked-IsSound (raised e) a x index w i = i

    pub start-IsSound :
        (a : Answers) (x : StartRunInput) (w : World)
        → IsSound w0 none w
        → IsSound w0 none (start t c bytes_of index_bytes a x w).0
    unfolding start
    start-IsSound a x w i =
        start_checked-IsSound (valid_input t c x) a x (index_of (lookup index_path w.index.states))
          w i

  on_read-IsSound :
      (id : String) (f : Held → World) (w : World)
      → IsSound w0 none w
      → ((v : Held) → IsHeld w.runs v → IsSound w0 none (f v))
      → IsSound w0 none (on_read t c bytes_of (read id w.runs) f w)
  on_read-IsSound id f w i h =
      read_rule (read id w.runs) (λ v. λ e. h v (read-IsHeld w0 none id w i v e).1)
    where
      read_rule :
          (m : Tried Held)
          → ((v : Held) → m ≡ done v → IsSound w0 none (f v))
          → IsSound w0 none (on_read t c bytes_of m f w)
      read_rule (done v) g = g v refl
      read_rule (raised e) g = i

  put_tried-IsSound :
      (v : Held) (w : World) (m : Tried DurableRunRecord)
      → IsHeld w.runs v
      → WhenDone (Follows v.value) m
      → IsSound w0 none w
      → IsSound w0 none (put_tried t c bytes_of v w m)
  unfolding put_tried
  put_tried-IsSound v w (done r) h f i = put_followed w0 bytes_of v r w h f i
  put_tried-IsSound v w (raised e) h f i = i

  put_option-IsSound :
      (v : Held) (w : World) (m : Tried (Option DurableRunRecord))
      → IsHeld w.runs v
      → WhenDone (FollowsOption t v.value) m
      → IsSound w0 none w
      → IsSound w0 none (put_option t c bytes_of v w m)
  unfolding put_option
  put_option-IsSound v w (done (some r)) h f i = put_followed w0 bytes_of v r w h f i
  put_option-IsSound v w (done none) h f i = i
  put_option-IsSound v w (raised e) h f i = i

  pub record_budget-IsSound :
      (b : BudgetDecision) (now : ℕ) (id : String) (w : World)
      → IsSound w0 none w
      → IsSound w0 none (record_budget_decision t c bytes_of b now id w)
  unfolding record_budget_decision
  record_budget-IsSound b now id w i =
      on_read-IsSound id (λ v. put_tried t c bytes_of v w (budget_record b now v.value)) w i
        (λ v. λ h. put_tried-IsSound v w _ h (budget_record-Follows b now v.value) i)

  ask-IsSound :
      (m : RunMode) (v : Held) (now : ℕ) (w : World) (d : Tried DecisionRecord)
      → IsHeld w.runs v
      → IsSound w0 none w
      → IsSound w0 none (ask t c bytes_of m v now w d)
  unfolding ask
  ask-IsSound manual v now w (done d) h i =
      put_followed w0 bytes_of v (waiting_record t d now v.value) w h
        (waiting_record-Follows t d now v.value) i
  ask-IsSound auto v now w (done d) h i =
      enter-IsSound w0 none none (requesting v d) w h (λ j. omega arith) i
  ask-IsSound manual v now w (raised e) h i = i
  ask-IsSound auto v now w (raised e) h i = i

  pub request-IsSound :
      (q : DecisionRequest) (now : ℕ) (id : String) (w : World)
      → IsSound w0 none w
      → IsSound w0 none (request_decision t c bytes_of q now id w)
  unfolding request_decision
  request-IsSound q now id w i =
      on_read-IsSound id (λ v. ask t c bytes_of v.value.mode v now w (requested t q now v.value)) w
        i (λ v. λ h. ask-IsSound v.value.mode v now w (requested t q now v.value) h i)

  pub ruled-IsSound :
      (d : String) (x : Action) (rationale : String) (now : ℕ) (id : String) (w : World)
      → IsSound w0 none w
      → IsSound w0 none (resolve_decision_from_operator t c bytes_of d x rationale now id w)
  unfolding resolve_decision_from_operator
  ruled-IsSound d x rationale now id w i =
      on_read-IsSound id
        (λ v. put_option t c bytes_of v w (operator_decision t d x rationale now v.value)) w i
        (λ v.
          λ h. put_option-IsSound v w _ h (operator_decision-Follows t d x rationale now v.value) i)

  pub cancel-IsSound :
      (now : ℕ) (id : String) (w : World)
      → IsSound w0 none w
      → IsSound w0 none (cancel t c bytes_of now id w)
  unfolding cancel cancel_held
  cancel-IsSound now id w i =
      let w1 : World = record w { retries = cancel_retry id w.retries } in
      let i1 : IsSound w0 none w1 = beside w0 bytes_of none w w.session w1.retries i in
      on_read-IsSound id (λ v. cancel_held t c bytes_of now v w1) w1 i1
        (λ v. λ h.
          let r = cancelled_record now v.value in
          if_rule (λ (x : World). IsSound w0 none x) (is_terminal v.value.status) w1
            (put bytes_of v.value.id v.version (r ∷ []) w1).0 (λ e. i1)
            (λ e. kept_by_put w0 bytes_of w1.runs r _ (
              put-Wrote w0 bytes_of none none v r w1 i1 h (cancelled_record-Evolves now v.value)
                (Shift-same none v.value.id v.value r (cancelled_record_in_flight now v.value)))))
