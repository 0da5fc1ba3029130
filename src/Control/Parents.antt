-- ===== src/Control/Parents.antt =====
-- src/orchestration/control-plane.ts, `runChildren`: a parent whose record was written while its child
-- ran.
use ad_coder.Prelude.{
  ℕ, ◌+◌, ◌==◌, ◌<◌, String, false, some, List, [], ◌∷◌, length, if◌then◌else◌, if_rule, lookup,
  ◌≡◌, refl, subst, ◌⊎◌, ◌≢◌, ap, inl, inr, sym, ◌∙◌, arith,
}
use ad_coder.Limits.{Controller}
use ad_coder.Versioned.{version_of, write_versioned_json-conflict}
use ad_coder.Control.{
  DurableRunRecord, ChildPipelineSpec, PlaneError, Texts, paused, complete, run_completed,
  checkpoint_conflict,
}
use ad_coder.Control.Records.{done, raised, with_event, with_status}
use ad_coder.Control.Resume.{is_decomposition}
use ad_coder.Control.Plane.{
  Runs, Held, World, read, put_all, put, snapshot_record, put_snapshot, persist_in,
  persist_session_limits,
}
use ad_coder.Control.Sound.{IsHeld}
use ad_coder.Control.Puts.{IsNext, put-IsNext}
use ad_coder.Control.Children.{
  Answers, is_complete, return_as, completed, next_pass, run_children, child_returned,
}

no_child : (rest : List ChildPipelineSpec) → rest ≡ [] → (length rest == 0) ≡ false → ⊥
no_child [] e h = cc
no_child (x ∷ rest) e h = cc

not_current : (v x : Held) → (v.version < x.version) ⊎ (x ≡ v) → x.version + 1 ≡ v.version → ⊥
not_current v x (inl less) e = omega (arith, less, e)
not_current v x (inr same) e = omega (arith, ap (λ y. y.version) same, e)

read_found : (id : String) (s : Runs) (v : Held) → lookup id s.states ≡ some v → read id s ≡ done v
unfolding read
read_found id s v h = rw (h, read) refl

module _ (bytes_of : Held → ℕ) where
  -- A write under a version that is not the stored one changes nothing.
  put_stale :
      (id : String) (n : ℕ) (r : DurableRunRecord) (w : World)
      → version_of (lookup id w.runs.states) ≢ n
      → put bytes_of id n (r ∷ []) w ≡ (w, raised checkpoint_conflict)
  unfolding put put_all
  put_stale id n r w h =
      rw (write_versioned_json-conflict {E = PlaneError} bytes_of id r n w.runs h) refl

  module _ (t : Texts) where
    return_as_stale :
        (r : DurableRunRecord) (v : Held) (cs : List Held) (w : World)
        → version_of (lookup v.value.id w.runs.states) ≢ v.version
        → return_as t bytes_of r v cs w ≡ w
    unfolding return_as
    return_as_stale r v cs w h = rw (put_stale v.value.id v.version r w h) refl

    -- A parent whose record was written since it called its last child is left as it is.
    child_returned_stale :
        (a : Answers) (r : DurableRunRecord) (v : Held) (cs : List Held) (w : World)
        → v.value.remaining_children ≡ []
        → version_of (lookup v.value.id w.runs.states) ≢ v.version
        → child_returned t bytes_of a r v cs w ≡ w
    unfolding child_returned run_children completed
    child_returned_stale a r v cs w e h =
        let stop : World = return_as t bytes_of (with_status paused a.now v.value) v cs w in
        let stopped : stop ≡ w = return_as_stale (with_status paused a.now v.value) v cs w h in
        let whole = with_event run_completed a.now (with_status complete a.now v.value) in
        if_rule (λ (x : World). x ≡ w) (is_decomposition r.result) stop
          (if is_complete r.status then run_children t bytes_of a v cs w else stop) (λ y. stopped)
          (λ y.
            if_rule (λ (x : World). x ≡ w) (is_complete r.status) (run_children t bytes_of a v cs w)
              stop
              (λ z.
                if_rule (λ (x : World). x ≡ w) (length v.value.remaining_children == 0)
                  (completed t bytes_of a v cs w)
                  (next_pass t bytes_of (read v.value.id w.runs) a cs w)
                  (λ y. return_as_stale whole v cs w h)
                  (λ y. absurd (no_child v.value.remaining_children e y)))
              (λ z. stopped))

    -- A child that returns to a parent without further children changes nothing, whatever its status,
    -- where the limits of the session were written to the parent's record after the parent called it:
    -- the parent is neither completed nor paused, and no caller of it is told.
    pub child_returned_persisted :
        (a : Answers) (r : DurableRunRecord) (v : Held) (cs : List Held) (now n : ℕ) (w w2 : World)
        (c : Controller)
        → w.session ≡ some c
        → IsHeld w.runs v
        → v.value.remaining_children ≡ []
        → persist_session_limits bytes_of v.value.id now w ≡ (w2, done n)
        → child_returned t bytes_of a r v cs w2 ≡ w2
    unfolding persist_session_limits persist_in put_snapshot
    child_returned_persisted a r v cs now n w w2 c s (x, e, o) k p =
        let id = v.value.id in
        let p1 : put_snapshot bytes_of id c now (read id w.runs) w ≡ (w2, done n) =
          subst (λ m. persist_in bytes_of m id now w ≡ (w2, done n)) s p in
        let p2 : put bytes_of id x.version (snapshot_record bytes_of c now x.value ∷ []) w
            ≡ (w2, done n) =
          subst (λ m. put_snapshot bytes_of id c now m w ≡ (w2, done n)) (read_found id w.runs x e)
            p1 in
        let q : version_of (lookup id w2.runs.states) ≡ x.version + 1 =
          subst (IsNext w bytes_of id x.version) p2
            (put-IsNext w bytes_of id x.version (snapshot_record bytes_of c now x.value) w) in
        child_returned_stale a r v cs w2 k (λ y. not_current v x o (sym q ∙ y))
