-- ===== src/Control/Outcomes.antt =====
-- src/orchestration/control-plane.ts, `resume` after `execute`: what its writes keep of a record.
use ad_coder.Prelude.{
  ℕ, ◌+◌, ◌==◌, ltb, String, not, ◌&&◌, some, List, [], ◌∷◌, ◌++◌, map, all, if◌then◌else◌, if_rule,
  length, refl,
}
use ad_coder.Control.{
  Status, decision_required, decomposition_required_event, run_completed, DurableRunRecord,
  ControlPlaneConfig, ChildPipelineSpec, DecisionRecord, Texts, paused, complete, invalid_follow_up,
  resource_limit_reached, cancelled, awaiting_decision,
}
use ad_coder.Control.Records.{Tried, done, with_event, is_accepted, is_pending, require}
use ad_coder.Control.Resume.{at_publication_point, is_approved}
use ad_coder.Control.Sound.{Evolves, with_event-IsLogged}
use ad_coder.Control.Updates.{WhenDone, WhenDone-bind}
use ad_coder.Control.Decided.{pending_record}
use ad_coder.Control.Executed.{
  Execution, Settlement, settled, to_decide, settlement, undecomposed, proposed, decomposed_record,
  authorized, top_level, child_allowed, child_evidence, deferred_record, approved_record,
  settled_record,
}

-- What a settlement makes of a record.
abbrev pub EvolvesTo : DurableRunRecord → Settlement → Type 0
EvolvesTo r (settled s) = Evolves r s
EvolvesTo r (to_decide s d) = Evolves r s

module _ (t : Texts) (c : ControlPlaneConfig) where
  pub decomposed_record-Evolves :
      (d : DecisionRecord) (children : List ChildPipelineSpec) (now : ℕ) (r0 r : DurableRunRecord)
      → Evolves r0 r
      → Evolves r0 (decomposed_record t c d children now r)
  unfolding decomposed_record
  decomposed_record-Evolves d children now r0 r (a, b, h) =
      let r1 : DurableRunRecord = record r { decisions = r.decisions ++ (d ∷ []) } in
      let s1 : DurableRunRecord = record r1 {
        remaining_children = map (authorized t c d.id) children;
        status = top_level t c r.parent_run_id;
      } in
      let s2 : DurableRunRecord =
        with_event decision_required now (record r1 { status = awaiting_decision }) in
      let s3 : DurableRunRecord =
        with_event decomposition_required_event now (record r1 { status = paused }) in
      let p1 : Evolves r0 s1 = (a, b, h) in
      let p2 : Evolves r0 s2 = (a, b, λ l. with_event-IsLogged decision_required now r (h l)) in
      let p3 : Evolves r0 s3 =
        (a, b, λ l. with_event-IsLogged decomposition_required_event now r (h l)) in
      if_rule (λ (s : DurableRunRecord). Evolves r0 s) (is_accepted d.status) s1
        (if is_pending d.status then s2 else s3) (λ e. p1)
        (λ e.
          if_rule (λ (s : DurableRunRecord). Evolves r0 s) (is_pending d.status) s2 s3 (λ f. p2)
            (λ f. p3))

  undecomposed-EvolvesTo :
      (rationale : String) (now : ℕ) (r0 r : DurableRunRecord)
      → Evolves r0 r
      → WhenDone (EvolvesTo r0) (undecomposed t c rationale now r)
  unfolding undecomposed
  undecomposed-EvolvesTo rationale now r0 r (a, b, h) =
      WhenDone-bind (EvolvesTo r0)
        (pending_record t "decomposition" ("docs/contracts/operation-modes.md" ∷ []) r.scope
          (r.id ∷ []) now r)
        (λ d. done (settled (deferred_record t c rationale now d r)))
        (λ d.
          let p : Evolves r0 (deferred_record t c rationale now d r) =
            (a, b, λ l. with_event-IsLogged decomposition_required_event now r (h l)) in
          p)

  proposed-EvolvesTo :
      (children : List ChildPipelineSpec) (existing now : ℕ) (r0 r : DurableRunRecord)
      → Evolves r0 r
      → WhenDone (EvolvesTo r0) (proposed t c children existing now r)
  unfolding proposed
  proposed-EvolvesTo children existing now r0 r p =
      WhenDone-bind (EvolvesTo r0)
        (require
          (not
            (ltb 0 c.max_child_pipelines && ltb c.max_child_pipelines (existing + length children)))
          resource_limit_reached)
        _
        (λ x.
          WhenDone-bind (EvolvesTo r0)
            (require (all (child_allowed t c r) children) invalid_follow_up) _
            (λ y.
              WhenDone-bind (EvolvesTo r0)
                (pending_record t "decomposition"
                  ("docs/contracts/operation-modes.md" ∷ child_evidence t c children) r.scope
                  (r.id ∷ []) now r)
                (λ d. done (to_decide r d)) (λ d. p)))

  approved_record-Evolves :
      (now : ℕ) (r0 r : DurableRunRecord) → Evolves r0 r → Evolves r0 (approved_record now r)
  approved_record-Evolves now r0 r (a, b, h) =
      let s1 : DurableRunRecord = record r { status = paused } in
      let s2 : DurableRunRecord = with_event run_completed now (record r { status = complete }) in
      let p1 : Evolves r0 s1 = (a, b, h) in
      let p2 : Evolves r0 s2 = (a, b, λ l. with_event-IsLogged run_completed now r (h l)) in
      if_rule (λ (s : DurableRunRecord). Evolves r0 s) (at_publication_point r.breakpoint) s1 s2
        (λ e. p1) (λ e. p2)

  pub settlement-EvolvesTo :
      (rationale : String) (x : Execution) (existing now : ℕ) (r0 : DurableRunRecord)
      → WhenDone (EvolvesTo r0) (settlement t c rationale x existing now r0)
  unfolding settlement
  settlement-EvolvesTo rationale x existing now r0 =
      let r = settled_record x.outcome now r0 in
      let p : Evolves r0 r = (refl, λ h. h, λ h. h) in
      let q : (s : Status) → Evolves r0 (record r { status = s }) = λ s. (refl, λ h. h, λ h. h) in
      let P : Tried Settlement → Type 0 = λ m. WhenDone (EvolvesTo r0) m in
      let m5 : Tried Settlement =
        if length x.children == 0
        then undecomposed t c rationale now r
        else proposed t c x.children existing now r in
      let m4 : Tried Settlement =
        if ltb 0 c.max_decomposition_depth && not (ltb r.depth c.max_decomposition_depth)
        then done (settled (record r { status = paused }))
        else m5 in
      let m3 : Tried Settlement =
        if not c.auto_decomposition then done (settled (record r { status = paused })) else m4 in
      let m2 : Tried Settlement =
        if is_approved (some x.outcome) then done (settled (approved_record now r)) else m3 in
      if_rule P r.cancel_requested (done (settled (record r { status = cancelled }))) m2
        (λ e. q cancelled)
        (λ e.
          if_rule P (is_approved (some x.outcome)) (done (settled (approved_record now r))) m3
            (λ e. approved_record-Evolves now r0 r p)
            (λ e.
              if_rule P (not c.auto_decomposition) (done (settled (record r { status = paused })))
                m4 (λ e. q paused)
                (λ e.
                  if_rule P
                    (ltb 0 c.max_decomposition_depth && not (ltb r.depth c.max_decomposition_depth))
                    (done (settled (record r { status = paused }))) m5 (λ e. q paused)
                    (λ e.
                      if_rule P (length x.children == 0) (undecomposed t c rationale now r)
                        (proposed t c x.children existing now r)
                        (λ e. undecomposed-EvolvesTo rationale now r0 r p)
                        (λ e. proposed-EvolvesTo x.children existing now r0 r p)))))
