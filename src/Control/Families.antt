-- ===== src/Control/Families.antt =====
-- src/orchestration/control-plane.ts: which child runs `resume` proposes.
use ad_coder.Prelude.{
  ◌++◌, inl, inr, map, ℕ, ◌+◌, ◌==◌, ◌≤◌, ◌<◌, ltb, String, Bool, true, false, not, ◌&&◌, some,
  List, [], ◌∷◌, All, All-impl, all, all-eq-true, length, if◌then◌else◌, if_rule, ◌≡◌, refl, subst,
  ◌⊎◌, arith,
}
use ad_coder.Control.{
  RunScope, awaiting_decision, decision_required, decomposition_required_event, DurableRunRecord,
  ChildPipelineSpec, ControlPlaneConfig, DecisionRecord, PlaneError, Texts, paused, cancelled,
  resource_limit_reached, invalid_follow_up,
}
use ad_coder.Control.Scopes.{normalized_scope}
use ad_coder.Control.Records.{with_event, is_accepted, is_pending, Tried, done, ◌>>=◌, require}
use ad_coder.Control.Resume.{is_approved}
use ad_coder.Control.Updates.{WhenDone, WhenDone-bind}
use ad_coder.Control.Decided.{pending_record}
use ad_coder.Control.Executed.{
  top_level, authorized, decomposed_record, Execution, Settlement, settled, to_decide, settlement,
  undecomposed, proposed, settled_record, approved_record, deferred_record, child_allowed,
  child_evidence,
}
use ad_coder.Control.Inclusion.{Within, is_subset-Within}

-- What a proposal of child runs has passed.
abbrev IsBounded :
    Texts → ControlPlaneConfig → List ChildPipelineSpec → ℕ → DurableRunRecord → Type 0
IsBounded t c children existing r =
    (r.cancel_requested ≡ false)
    × (c.auto_decomposition ≡ true)
    × ((c.max_decomposition_depth ≡ 0) ⊎ (r.depth < c.max_decomposition_depth))
    × ((c.max_child_pipelines ≡ 0) ⊎ (existing + length children ≤ c.max_child_pipelines))
    × All (λ child. Within (normalized_scope t child.scope) r.scope) children

abbrev OnDecide : (DurableRunRecord → Type 0) → Settlement → Type 0
OnDecide P (settled s) = Unit
OnDecide P (to_decide s d) = P s

require_rule {ℓ} :
    {B : Type ℓ} (P : B → Type 0) (b : Bool) (e : PlaneError) (f : Bool → Tried B)
    → (b ≡ true → WhenDone P (f true))
    → WhenDone P (require b e >>= f)
require_rule P true e f h = h refl
require_rule P false e f h = tt

negated : (b : Bool) → not b ≡ true → b ≡ false
negated true h = cc
negated false h = refl

unnegated : (b : Bool) → not b ≡ false → b ≡ true
unnegated true h = refl
unnegated false h = cc

right_of : (a b : Bool) → (a && b) ≡ true → b ≡ true
right_of true b h = h
right_of false b h = cc

-- A limit of 0 is none.
within_limit : (limit n : ℕ) → (ltb 0 limit && ltb limit n) ≡ false → (limit ≡ 0) ⊎ (n ≤ limit)
within_limit limit n h = ground arith

below_limit : (limit n : ℕ) → (ltb 0 limit && not (ltb n limit)) ≡ false → (limit ≡ 0) ⊎ (n < limit)
below_limit limit n h = ground arith

module _ (t : Texts) (c : ControlPlaneConfig) where
  allowed_scope :
      (r : DurableRunRecord) (x : ChildPipelineSpec)
      → child_allowed t c r x ≡ true
      → Within (normalized_scope t x.scope) r.scope
  unfolding child_allowed
  allowed_scope r x h = is_subset-Within _ _ (right_of _ _ h)

  proposed-IsBounded :
      (children : List ChildPipelineSpec) (existing now : ℕ) (r : DurableRunRecord)
      → r.cancel_requested ≡ false
      → c.auto_decomposition ≡ true
      → (c.max_decomposition_depth ≡ 0) ⊎ (r.depth < c.max_decomposition_depth)
      → WhenDone
          (OnDecide (λ s. (s ≡ r) × IsBounded t c children existing r))
          (proposed t c children existing now r)
  unfolding proposed
  proposed-IsBounded children existing now r h1 h2 h3 =
      let P : Settlement → Type 0 = OnDecide (λ s. (s ≡ r) × IsBounded t c children existing r) in
      let pending : Tried DecisionRecord =
        pending_record t "decomposition"
          ("docs/contracts/operation-modes.md" ∷ child_evidence t c children) r.scope (r.id ∷ [])
          now r in
      require_rule P
        (not
          (ltb 0 c.max_child_pipelines && ltb c.max_child_pipelines (existing + length children)))
        resource_limit_reached
        (λ x. require (all (child_allowed t c r) children) invalid_follow_up >>= λ y.
          pending >>= λ d. done (to_decide r d))
        (λ e.
          require_rule P (all (child_allowed t c r) children) invalid_follow_up
            (λ y. pending >>= λ d. done (to_decide r d))
            (λ g.
              WhenDone-bind P pending (λ d. done (to_decide r d))
                (λ d. (
                  refl,
                  (
                    h1,
                    h2,
                    h3,
                    within_limit c.max_child_pipelines (existing + length children) (negated _ e),
                    All-impl _ _ (allowed_scope r) children
                        (all-eq-true (child_allowed t c r) children g),
                  ),
                ))))

  undecomposed_settles :
      (P : DurableRunRecord → Type 0) (rationale : String) (now : ℕ) (r : DurableRunRecord)
      → WhenDone (OnDecide P) (undecomposed t c rationale now r)
  unfolding undecomposed
  undecomposed_settles P rationale now r =
      WhenDone-bind (OnDecide P)
        (pending_record t "decomposition" ("docs/contracts/operation-modes.md" ∷ []) r.scope
          (r.id ∷ []) now r)
        (λ d. done (settled (deferred_record t c rationale now d r))) (λ d. tt)

  -- The record of a proposal is the run's, with the outcome of its execution.
  abbrev Decides : String → Execution → ℕ → ℕ → DurableRunRecord → DurableRunRecord → Type 0
  Decides rationale x existing now r s =
      (s ≡ settled_record x.outcome now r) × IsBounded t c x.children existing r

  settlement-Decides :
      (rationale : String) (x : Execution) (existing now : ℕ) (r0 : DurableRunRecord)
      → WhenDone
          (OnDecide (Decides rationale x existing now r0))
          (settlement t c rationale x existing now r0)
  unfolding settlement
  settlement-Decides rationale x existing now r0 =
      let r = settled_record x.outcome now r0 in
      let P : Tried Settlement → Type 0 =
        λ m. WhenDone (OnDecide (Decides rationale x existing now r0)) m in
      let m5 : Tried Settlement =
        if length x.children == 0
        then undecomposed t c rationale now r
        else proposed t c x.children existing now r in
      let m4 : Tried Settlement =
        if ltb 0 c.max_decomposition_depth && not (ltb r.depth c.max_decomposition_depth)
        then done (settled (record r { status = paused }))
        else m5 in
      let m3 : Tried Settlement =
        if not c.auto_decomposition then done (settled (record r { status = paused })) else m4 in
      let m2 : Tried Settlement =
        if is_approved (some x.outcome) then done (settled (approved_record now r)) else m3 in
      if_rule P r.cancel_requested (done (settled (record r { status = cancelled }))) m2 (λ e. tt)
        (λ e1.
          if_rule P (is_approved (some x.outcome)) (done (settled (approved_record now r))) m3
            (λ e. tt)
            (λ e2.
              if_rule P (not c.auto_decomposition) (done (settled (record r { status = paused })))
                m4 (λ e. tt)
                (λ e3.
                  if_rule P
                    (ltb 0 c.max_decomposition_depth && not (ltb r.depth c.max_decomposition_depth))
                    (done (settled (record r { status = paused }))) m5 (λ e. tt)
                    (λ e4.
                      if_rule P (length x.children == 0) (undecomposed t c rationale now r)
                        (proposed t c x.children existing now r)
                        (λ e.
                          undecomposed_settles (Decides rationale x existing now r0) rationale now
                            r)
                        (λ e.
                          proposed-IsBounded x.children existing now r e1 (unnegated _ e3)
                            (below_limit c.max_decomposition_depth r.depth e4))))))

  authorized-Within :
      (id : String) (a : RunScope) (children : List ChildPipelineSpec)
      → All (λ child. Within (normalized_scope t child.scope) a) children
      → All (λ child. Within child.scope a) (map (authorized t c id) children)
  unfolding authorized
  authorized-Within id a [] h = tt
  authorized-Within id a (x ∷ xs) (p, h) = (p, authorized-Within id a xs h)

  length-authorized :
      (id : String) (children : List ChildPipelineSpec)
      → length (map (authorized t c id) children) ≡ length children
  length-authorized id [] = refl
  length-authorized id (x ∷ xs) = omega (arith, length-authorized id xs)

  -- The children that a decision leaves to be run, where the run had none before.
  abbrev pub IsFamily : ℕ → DurableRunRecord → Type 0
  IsFamily existing r =
      All (λ child. Within child.scope r.scope) r.remaining_children
      × ((length r.remaining_children ≡ 0)
          ⊎ ((r.cancel_requested ≡ false)
              × (c.auto_decomposition ≡ true)
              × ((c.max_decomposition_depth ≡ 0) ⊎ (r.depth < c.max_decomposition_depth))
              × ((c.max_child_pipelines ≡ 0)
                  ⊎ (existing + length r.remaining_children ≤ c.max_child_pipelines))))

  none-IsFamily :
      (existing : ℕ) (r : DurableRunRecord) → r.remaining_children ≡ [] → IsFamily existing r
  none-IsFamily existing r e = rw e (tt, inl refl)

  decomposed_record-IsFamily :
      (d : DecisionRecord) (children : List ChildPipelineSpec) (existing now : ℕ)
      (r : DurableRunRecord)
      → r.remaining_children ≡ []
      → IsBounded t c children existing r
      → IsFamily existing (decomposed_record t c d children now r)
  unfolding decomposed_record
  decomposed_record-IsFamily d children existing now r e (h1, h2, h3, h4, h5) =
      let r1 : DurableRunRecord = record r { decisions = r.decisions ++ (d ∷ []) } in
      let s1 : DurableRunRecord = record r1 {
        remaining_children = map (authorized t c d.id) children;
        status = top_level t c r.parent_run_id;
      } in
      let s2 : DurableRunRecord =
        with_event decision_required now (record r1 { status = awaiting_decision }) in
      let s3 : DurableRunRecord =
        with_event decomposition_required_event now (record r1 { status = paused }) in
      let family : IsFamily existing s1 = (
        authorized-Within d.id r.scope children h5,
        inr (h1, h2, h3, rw (length-authorized d.id children) h4),
      ) in
      if_rule (IsFamily existing) (is_accepted d.status) s1 (if is_pending d.status then s2 else s3)
        (λ a. family)
        (λ a.
          if_rule (IsFamily existing) (is_pending d.status) s2 s3 (λ b. none-IsFamily existing s2 e)
            (λ b. none-IsFamily existing s3 e))

  -- A run with no child left to run executes and asks for a decision on child runs, at any time `later`.
  -- Whatever the decision is, each path, capability and external effect of each child that the record
  -- has to run after it is one of the run's own; and where there is such a child, the run is
  -- not cancelled, decomposition is on, the depth of the run is below its limit, and these children
  -- fit with the existing ones under the limit of their number, where 0 is no limit.
  pub settlement-decomposed_record :
      (rationale : String) (x : Execution) (existing now later : ℕ) (r s : DurableRunRecord)
      (d e : DecisionRecord)
      → r.remaining_children ≡ []
      → settlement t c rationale x existing now r ≡ done (to_decide s d)
      → IsFamily existing (decomposed_record t c e x.children later s)
  settlement-decomposed_record rationale x existing now later r s d e empty h =
      let (same, b) : Decides rationale x existing now r s =
        subst (λ m. WhenDone (OnDecide (Decides rationale x existing now r)) m) h
          (settlement-Decides rationale x existing now r) in
      rw same (
        decomposed_record-IsFamily e x.children existing later (settled_record x.outcome now r)
          empty b)
