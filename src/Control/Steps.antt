-- ===== src/Control/Steps.antt =====
-- src/orchestration/control-plane.ts, `resume` over the stored records up to `execute`: each part between
-- two waits, with its writes in their order.
use ad_coder.Prelude.{ℕ, ltb, leb, String, ◌&&◌, ◌||◌, Option, List, [], ◌∷◌, if◌then◌else◌}
use ad_coder.Limits.{Controller}
use ad_coder.Control.{
  RunBreakpoint, LimitState, DurableRunRecord, ControlPlaneConfig, BudgetDecision, PlaneError,
  Texts,
}
use ad_coder.Control.Records.{Tried, done, raised}
use ad_coder.Control.Resume.{
  Next, returned, await_availability, run_children, Facts, resume_plan, unavailable_record,
  dispatched_record,
}
use ad_coder.Control.Plane.{Held, checking, executing, World, read, enter, reply_to, put}
use ad_coder.Control.Children.{Answers, child_returned}
use ad_coder.Control.Children as C
use ad_coder.Control.Replies.{
  last_record, project_turns, project_cost, is_exhausted, cancel_retry, restore_session,
  is_conflict,
}

module _ (t : Texts) (c : ControlPlaneConfig) (bytes_of : Held → ℕ)
    (estimate : Option BudgetDecision) (jitter : ℕ → ℕ) where
  unfoldable pub facts : Answers → World → Facts
  unfolding is_exhausted
  facts a w = record {
    estimate = estimate;
    project_exhausted =
        (ltb 0 c.max_project_turns && leb c.max_project_turns (project_turns w.runs.states))
        || (ltb 0 c.max_project_cost_usd
            && leb c.max_project_cost_usd (project_cost w.runs.states));
    session_exhausted = is_exhausted w.session;
    now = a.now;
  }

  -- After the writes of a resumption.
  unfoldable pub go_on : Next → Answers → Held → List Held → World → World
  unfolding C.run_children
  go_on returned a v cs w = reply_to cs v.value w
  go_on await_availability a v cs w = enter (checking v cs) w
  go_on run_children a v cs w = C.run_children t bytes_of a v cs w

  unfoldable pub written : Next → Answers → DurableRunRecord → List Held → World × Tried ℕ → World
  unfolding go_on
  written next a r cs (w, done n) = go_on next a (record { version = n; value = r }) cs w
  written next a r cs (w, raised e) = w

  unfoldable pub resume_with : Answers → Option RunBreakpoint → Held → List Held → World → World
  unfolding resume_plan put written facts
  resume_with a until v cs w =
      let p = resume_plan until (facts a w) v.value in
      written p.next a (last_record v.value p.writes) cs
        (put bytes_of v.value.id v.version p.writes w)

  unfoldable pub resume_session :
      Answers → Option RunBreakpoint → Held → List Held → World → Tried (Option Controller) → World
  unfolding resume_with
  resume_session a until v cs w (done s) = resume_with a until v cs (record w { session = s })
  resume_session a until v cs w (raised e) = w

  unfoldable pub resume_root :
      Answers → Option RunBreakpoint → Held → List Held → World → Tried Held → World
  unfolding resume_session restore_session
  resume_root a until v cs w (done root) =
      resume_session a until v cs w (restore_session root.value.session_limit_snapshot w.session)
  resume_root a until v cs w (raised e) = w

  unfoldable pub resume_read :
      Answers → Option RunBreakpoint → List Held → World → Tried Held → World
  unfolding resume_root read
  resume_read a until cs w (done v) = resume_root a until v cs w (read v.value.root_run_id w.runs)
  resume_read a until cs w (raised e) = w

  -- `resume` until it returns or waits.
  unfoldable pub resume : Answers → String → Option RunBreakpoint → List Held → World → World
  unfolding resume_read read cancel_retry
  resume a id until cs w =
      let w1 = record w { retries = cancel_retry id w.retries } in
      resume_read a until cs w1 (read id w1.runs)

  -- The dispatch: where its write fails, nothing is executed.
  abbrev pub dispatched : String → DurableRunRecord → List Held → World × Tried ℕ → World
  dispatched lease r cs (w, done n) =
      enter (executing (record { version = n; value = r }) lease cs)
        (record w { started = r.id ∷ w.started })
  dispatched lease r cs (w, raised e) = w

  -- A write that the held version is not the current one of leaves the call to the callers that
  -- hold the run, where it is in flight; every other error is thrown.
  abbrev pub dispatch_conflict : List Held → World → Tried Held → World
  dispatch_conflict cs w (done v) =
      if v.value.provider_turn_in_flight then reply_to cs v.value w else w
  dispatch_conflict cs w (raised e) = w

  unfoldable pub dispatch_failed : PlaneError → String → List Held → World → World
  unfolding read
  dispatch_failed e id cs w = if is_conflict e then dispatch_conflict cs w (read id w.runs) else w

  unfoldable pub dispatch_result : String → DurableRunRecord → List Held → World × Tried ℕ → World
  unfolding dispatch_failed
  dispatch_result lease r cs (w, done n) = dispatched lease r cs (w, done n)
  dispatch_result lease r cs (w, raised e) = dispatch_failed e r.id cs w

  unfoldable pub dispatch : Answers → Held → List Held → World → World
  unfolding put dispatch_result dispatched_record
  dispatch a v cs w =
      let r = dispatched_record a.new_id a.now v.value in
      dispatch_result a.new_id r cs (put bytes_of v.value.id v.version (r ∷ []) w)

  -- The provider is not available.
  unfoldable pub hold_back : Answers → LimitState → Held → List Held → World → World
  unfolding C.return_as unavailable_record
  hold_back a state v cs w = C.return_as t bytes_of (unavailable_record state a.now v.value) v cs w
