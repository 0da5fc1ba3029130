-- ===== src/Control/Dispatching.antt =====
-- src/orchestration/control-plane.ts, `resume` after the provider's answer: it keeps the invariant of
-- the stored records and of the calls.
use text.Mathlib.TextEquality.{eq_iff}
use ad_coder.Prelude.{
  ℕ, String, true, false, Option, none, some, List, [], ◌∷◌, All, if_rule, lookup, str_eq, ◌≡◌, sym,
  subst, inl, inr, arith, ◌∙◌, Bool-cases,
}
use ad_coder.Control.{DurableRunRecord, ControlPlaneConfig, BudgetDecision, LimitState, Texts}
use ad_coder.Control.Records.{Tried, done, raised}
use ad_coder.Control.Resume.{unavailable_record, dispatched_record}
use ad_coder.Control.Plane.{Held, Runs, checking, executing, World, read, enter, reply_to, put}
use ad_coder.Control.Children.{Answers}
use ad_coder.Control.Steps.{
  dispatch_conflict, dispatch_failed, dispatch_result, dispatch, hold_back,
}
use ad_coder.Control.Sound.{is_cancelled, starts, IsHeld, IsReady, IsSound}
use ad_coder.Control.Writes.{Shift-raised}
use ad_coder.Control.Steady.{enter-IsSound, reply_to-IsSound, callers_carried, return_as-IsSound}
use ad_coder.Control.Replies.{is_conflict}
use ad_coder.Control.Puts.{Wrote, put-Wrote, IsWritten, put-IsWritten}
use ad_coder.Control.Updates.{
  unavailable_record-Follows, dispatched_record-Evolves, dispatched_record_in_flight,
  dispatched_record_cancel,
}

contrary : true ≡ false → ⊥
contrary h = cc

module _ (w0 : World) (bytes_of : Held → ℕ) where
  -- A start of a run that is stored as not cancelled.
  started-IsSound :
      (lease : String) (n : ℕ) (r : DurableRunRecord) (cs : List Held) (w : World)
      → lookup r.id w.runs.states ≡ some (record { version = n; value = r })
      → r.cancel_requested ≡ false
      → All (IsHeld w.runs) cs
      → IsSound w0 (some r.id) w
      → IsSound w0 none (
          enter
            (executing (record { version = n; value = r }) lease cs)
            (record w { started = r.id ∷ w.started }))
  started-IsSound lease n r cs w e f k i =
      let noted : IsSound w0 (some r.id) (record w { started = r.id ∷ w.started }) = record {
        stored = i.stored;
        ready = i.ready;
        flights = i.flights;
        since = λ j. λ h. let (a, b) = i.since j h in (a, fresh_start j a b);
      } in
      enter-IsSound w0 (some r.id) none (executing (record { version = n; value = r }) lease cs) _ k
        (λ j. omega arith) noted
    where
      fresh_start :
          (j : String)
          → is_cancelled (lookup j w.runs.states) ≡ true
          → starts j w.started ≡ starts j w0.started
          → starts j (r.id ∷ w.started) ≡ starts j w0.started
      fresh_start j a b = elim (Bool-cases (str_eq r.id j)) [
        | inl same ↦
            let q : lookup j w.runs.states ≡ some (record { version = n; value = r }) =
              subst (λ x. lookup x w.runs.states ≡ some (record { version = n; value = r }))
                ((eq_iff r.id j).0 same) e in
            let c : r.cancel_requested ≡ true = rw q at a in absurd (contrary (sym c ∙ f))
        | inr other ↦ rw other (omega (arith, b))
      ]

  module _ (t : Texts) (c : ControlPlaneConfig) (estimate : Option BudgetDecision) (jitter : ℕ → ℕ)
      (a : Answers) where
    dispatch_conflict-IsSound :
        (cs : List Held) (w : World) (m : Tried Held)
        → All (IsHeld w.runs) cs
        → IsSound w0 none w
        → IsSound w0 none (dispatch_conflict t c bytes_of estimate jitter cs w m)
    dispatch_conflict-IsSound cs w (done v) k i =
        if_rule (λ (x : World). IsSound w0 none x) v.value.provider_turn_in_flight
          (reply_to cs v.value w) w (λ e. reply_to-IsSound w0 cs v.value w k i) (λ e. i)
    dispatch_conflict-IsSound cs w (raised e) k i = i

    dispatch_result-IsSound :
        (r : DurableRunRecord) (cs : List Held) (s : Runs) (m : World × Tried ℕ)
        → r.cancel_requested ≡ false
        → Wrote w0 none (some r.id) s r m
        → IsWritten w0 bytes_of r m
        → All (IsHeld s) cs
        → IsSound w0 none (dispatch_result t c bytes_of estimate jitter a.new_id r cs m)
    unfolding dispatch_result dispatch_failed
    dispatch_result-IsSound r cs s (w, done n) f (i, d, h) p k =
        started-IsSound a.new_id n r cs w p f (callers_carried w0 s w.runs cs d k) i
    dispatch_result-IsSound r cs s (w, raised e) f (i, d) p k =
        if_rule (λ (x : World). IsSound w0 none x) (is_conflict e)
          (dispatch_conflict t c bytes_of estimate jitter cs w (read r.id w.runs)) w
          (λ y.
            dispatch_conflict-IsSound cs w (read r.id w.runs) (callers_carried w0 s w.runs cs d k)
              i)
          (λ y. i)

    pub dispatch-IsSound :
        (v : Held) (cs : List Held) (w : World)
        → IsReady w.runs (checking v cs)
        → IsSound w0 none w
        → IsSound w0 none (dispatch t c bytes_of estimate jitter a v cs w)
    unfolding dispatch
    dispatch-IsSound v cs w (h, p, q, k) i =
        let r = dispatched_record a.new_id a.now v.value in
        let e = dispatched_record-Evolves a.new_id a.now v.value in
        dispatch_result-IsSound r cs w.runs _ (dispatched_record_cancel a.new_id a.now v.value ∙ p)
          (subst
            (λ x. Wrote w0 none (some x) w.runs r (put bytes_of v.value.id v.version (r ∷ []) w))
            (sym e.0)
            (put-Wrote w0 bytes_of none (some v.value.id) v r w i h e (
              Shift-raised v.value.id v.value r q
                (dispatched_record_in_flight a.new_id a.now v.value))))
          (put-IsWritten w0 bytes_of v.value.id v.version r w e.0) k

    pub hold_back-IsSound :
        (s : LimitState) (v : Held) (cs : List Held) (w : World)
        → IsHeld w.runs v
        → All (IsHeld w.runs) cs
        → IsSound w0 none w
        → IsSound w0 none (hold_back t c bytes_of estimate jitter a s v cs w)
    unfolding hold_back
    hold_back-IsSound s v cs w h k i =
        return_as-IsSound w0 t bytes_of (unavailable_record s a.now v.value) v cs w
          (unavailable_record-Follows s a.now v.value) h k i
