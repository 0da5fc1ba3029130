-- ===== src/Control/Settling.antt =====
-- src/orchestration/control-plane.ts, `resume` after `execute`, with its `catch`: it keeps the invariant
-- of the stored records and of the calls.
use ad_coder.Prelude.{
  ℕ, ◌+◌, ◌≤◌, String, Bool, Option, none, some, List, [], ◌∷◌, All, if_rule, str_eq, ◌≡◌, refl,
  sym, subst, arith,
}
use ad_coder.Control.{
  ChildPipelineSpec, DurableRunRecord, ControlPlaneConfig, BudgetDecision, DecisionRecord, Texts,
  checkpoint_conflict,
}
use ad_coder.Control.Records.{Tried, done, raised}
use ad_coder.Control.Plane.{Held, Runs, deciding, World, read, reply_to, put}
use ad_coder.Control.Children.{Answers}
use ad_coder.Control.Children as C
use ad_coder.Control.Sound.{Evolves, flag, IsHeld, IsSound}
use ad_coder.Control.Writes.{Shift-cleared}
use ad_coder.Control.Stepwise.{beside, IsKept, persist-IsKept}
use ad_coder.Control.Steady.{
  IsSound-dropped, enter-IsSound, reply_to-IsSound, callers_carried, run_children-IsSound,
}
use ad_coder.Control.Replies.{existing_children, Thrown, provider_limited, other_error}
use ad_coder.Control.Advance.{
  should_schedule, limited_result, provider_limit, caught_with, caught_read, caught_after, caught,
  runs_children, settled_result, settle_record, settle_as, holds_lease, settle_read, settle_after,
  settle, decide_as,
}
use ad_coder.Control.Puts.{Wrote, put-Wrote, read-IsHeld}
use ad_coder.Control.Updates.{WhenDone, limited_record-Evolves, failed_record-Evolves}
use ad_coder.Control.Outcomes.{EvolvesTo, settlement-EvolvesTo, decomposed_record-Evolves}
use ad_coder.Control.Decided.{limited_record, failed_record}
use ad_coder.Control.Executed.{
  Execution, Settlement, settled, to_decide, settlement, decomposed_record,
}

module _ (w0 : World) (bytes_of : Held → ℕ) where
  module _ (t : Texts) (c : ControlPlaneConfig) (estimate : Option BudgetDecision) (jitter : ℕ → ℕ)
      (a : Answers) where
    -- The `catch`.
    limited_result-IsSound :
        (again : Bool) (hint : Option ℕ) (v : Held) (r : DurableRunRecord) (cs : List Held)
        (s : Runs) (load : Option String) (m : World × Tried ℕ)
        → Wrote w0 load none s r m
        → All (IsHeld s) cs
        → IsSound w0 none (limited_result t c bytes_of estimate jitter again hint v r cs m)
    unfolding limited_result
    limited_result-IsSound again hint v r cs s load (w, done n) (i, d, h) k =
        reply_to-IsSound w0 cs r _ (callers_carried w0 s w.runs cs d k)
          (beside w0 bytes_of none w w.session _ i)
    limited_result-IsSound again hint v r cs s load (w, raised e) (i, d) k =
        IsSound-dropped w0 load w i

    kept_by_put :
        (load : Option String) (s : Runs) (r : DurableRunRecord) (m : World × Tried ℕ)
        → Wrote w0 load none s r m
        → IsSound w0 none m.0
    kept_by_put load s r (w, done n) (i, d, h) = i
    kept_by_put load s r (w, raised e) (i, d) = IsSound-dropped w0 load w i

    -- A write that ends the execution that the step at hand holds.
    put_cleared :
        (id : String) (v : Held) (r : DurableRunRecord) (w : World)
        → v.value.id ≡ id
        → IsHeld w.runs v
        → Evolves v.value r
        → IsSound w0 (some id) w
        → Wrote w0 (some id) none w.runs r (put bytes_of v.value.id v.version (r ∷ []) w)
    put_cleared id v r w same h e i =
        subst (λ x. Wrote w0 (some x) none w.runs r (put bytes_of v.value.id v.version (r ∷ []) w))
          same
          (put-Wrote w0 bytes_of (some v.value.id) none v r w
            (subst (λ x. IsSound w0 (some x) w) (sym same) i) h e
            (Shift-cleared v.value.id v.value r))

    caught_with-IsSound :
        (x : Thrown) (id : String) (v : Held) (cs : List Held) (w : World)
        → v.value.id ≡ id
        → IsHeld w.runs v
        → All (IsHeld w.runs) cs
        → IsSound w0 (some id) w
        → IsSound w0 none (caught_with t c bytes_of estimate jitter a x v cs w)
    unfolding caught_with
    caught_with-IsSound (provider_limited hint) id v cs w same h k i =
        let again = should_schedule t c bytes_of estimate jitter v.value w.retries in
        let limit = provider_limit t c bytes_of estimate jitter hint in
        let r = limited_record limit again a.now v.value in
        limited_result-IsSound again hint v r cs w.runs (some id) _
          (put_cleared id v r w same h (limited_record-Evolves limit again a.now v.value) i) k
    caught_with-IsSound (other_error e) id v cs w same h k i =
        let r = failed_record e a.now v.value in
        kept_by_put (some id) w.runs r _
          (put_cleared id v r w same h (failed_record-Evolves e a.now v.value) i)

    caught_read-IsSound :
        (x : Thrown) (id : String) (cs : List Held) (w : World) (m : Tried Held)
        → ((v : Held) → m ≡ done v → (v.value.id ≡ id) × IsHeld w.runs v)
        → All (IsHeld w.runs) cs
        → IsSound w0 (some id) w
        → IsSound w0 none (caught_read t c bytes_of estimate jitter a x cs w m)
    unfolding caught_read
    caught_read-IsSound x id cs w (done v) h k i =
        let (same, held) = h v refl in caught_with-IsSound x id v cs w same held k i
    caught_read-IsSound x id cs w (raised e) h k i = IsSound-dropped w0 (some id) w i

    caught_after-IsSound :
        (x : Thrown) (id : String) (cs : List Held) (s : Runs) (m : World × Tried ℕ)
        → IsKept w0 bytes_of (some id) s m
        → All (IsHeld s) cs
        → IsSound w0 none (caught_after t c bytes_of estimate jitter a x id cs m)
    unfolding caught_after
    caught_after-IsSound x id cs s (w, done n) (i, d) k =
        caught_read-IsSound x id cs w (read id w.runs)
          (λ v. λ e. read-IsHeld w0 (some id) id w i v e) (callers_carried w0 s w.runs cs d k) i
    caught_after-IsSound x id cs s (w, raised e) (i, d) k = IsSound-dropped w0 (some id) w i

    pub caught-IsSound :
        (x : Thrown) (held : Held) (cs : List Held) (w : World)
        → All (IsHeld w.runs) cs
        → IsSound w0 (some held.value.id) w
        → IsSound w0 none (caught t c bytes_of estimate jitter a x held cs w)
    unfolding caught
    caught-IsSound x held cs w k i =
        caught_after-IsSound x held.value.id cs w.runs _
          (persist-IsKept w0 bytes_of (some held.value.id) held.value.root_run_id a.now w i) k

    -- The `try` from its read on.
    settled_result-IsSound :
        (held : Held) (r : DurableRunRecord) (cs : List Held) (s : Runs) (m : World × Tried ℕ)
        → Wrote w0 (some held.value.id) none s r m
        → All (IsHeld s) cs
        → IsSound w0 none (settled_result t c bytes_of estimate jitter a held r cs m)
    unfolding settled_result
    settled_result-IsSound held r cs s (w, done n) (i, d, h) k =
        let v : Held = record { version = n; value = r } in
        let k2 = callers_carried w0 s w.runs cs d k in
        if_rule (λ (x : World). IsSound w0 none x) (runs_children t c bytes_of estimate jitter r)
          (C.run_children t bytes_of a v cs w) (reply_to cs r w)
          (λ e. run_children-IsSound w0 t bytes_of a v cs w h k2 i)
          (λ e. reply_to-IsSound w0 cs r w k2 i)
    settled_result-IsSound held r cs s (w, raised e) (i, d) k =
        caught-IsSound (other_error e) held cs w (callers_carried w0 s w.runs cs d k) i

    settle_record-IsSound :
        (held v : Held) (r : DurableRunRecord) (cs : List Held) (w : World)
        → v.value.id ≡ held.value.id
        → IsHeld w.runs v
        → Evolves v.value r
        → All (IsHeld w.runs) cs
        → IsSound w0 (some held.value.id) w
        → IsSound w0 none (settle_record t c bytes_of estimate jitter a held v r cs w)
    unfolding settle_record
    settle_record-IsSound held v r cs w same h e k i =
        settled_result-IsSound held r cs w.runs _ (put_cleared held.value.id v r w same h e i) k

    settle_as-IsSound :
        (x : Execution) (held v : Held) (cs : List Held) (w : World) (m : Tried Settlement)
        → WhenDone (EvolvesTo v.value) m
        → v.value.id ≡ held.value.id
        → IsHeld w.runs v
        → All (IsHeld w.runs) cs
        → IsSound w0 (some held.value.id) w
        → IsSound w0 none (settle_as t c bytes_of estimate jitter a x held v cs w m)
    unfolding settle_as
    settle_as-IsSound x held v cs w (done (settled r)) e same h k i =
        settle_record-IsSound held v r cs w same h e k i
    settle_as-IsSound x held v cs w (done (to_decide r d)) e same h k i =
        enter-IsSound w0 (some held.value.id) none (deciding v r x.children d cs) w (h, e, k)
          (subst (λ y. (j : String) → flag (str_eq v.value.id j) + 0 ≤ flag (str_eq y j)) same
            (λ j. omega arith))
          i
    settle_as-IsSound x held v cs w (raised y) e same h k i =
        caught-IsSound (other_error y) held cs w k i

    settle_read-IsSound :
        (x : Execution) (held : Held) (lease : String) (cs : List Held) (w : World) (m : Tried Held)
        → ((v : Held) → m ≡ done v → (v.value.id ≡ held.value.id) × IsHeld w.runs v)
        → All (IsHeld w.runs) cs
        → IsSound w0 (some held.value.id) w
        → IsSound w0 none (settle_read t c bytes_of estimate jitter a x held lease cs w m)
    unfolding settle_read
    settle_read-IsSound x held lease cs w (done v) h k i =
        let (same, h2) = h v refl in
        let n = existing_children v.value.root_run_id w.runs.states in
        if_rule (λ (y : World). IsSound w0 none y)
          (holds_lease t c bytes_of estimate jitter v.value.execution_lease lease)
          (settle_as t c bytes_of estimate jitter a x held v cs w
            (settlement t c a.rationale x n a.now v.value))
          (caught t c bytes_of estimate jitter a (other_error checkpoint_conflict) held cs w)
          (λ e.
            settle_as-IsSound x held v cs w (settlement t c a.rationale x n a.now v.value)
              (settlement-EvolvesTo t c a.rationale x n a.now v.value) same h2 k i)
          (λ e. caught-IsSound (other_error checkpoint_conflict) held cs w k i)
    settle_read-IsSound x held lease cs w (raised e) h k i =
        caught-IsSound (other_error e) held cs w k i

    settle_after-IsSound :
        (x : Execution) (held : Held) (lease : String) (cs : List Held) (s : Runs)
        (m : World × Tried ℕ)
        → IsKept w0 bytes_of (some held.value.id) s m
        → All (IsHeld s) cs
        → IsSound w0 none (settle_after t c bytes_of estimate jitter a x held lease cs m)
    unfolding settle_after
    settle_after-IsSound x held lease cs s (w, done n) (i, d) k =
        settle_read-IsSound x held lease cs w (read held.value.id w.runs)
          (λ v. λ e. read-IsHeld w0 (some held.value.id) held.value.id w i v e)
          (callers_carried w0 s w.runs cs d k) i
    settle_after-IsSound x held lease cs s (w, raised e) (i, d) k =
        caught-IsSound (other_error e) held cs w (callers_carried w0 s w.runs cs d k) i

    pub settle-IsSound :
        (x : Execution) (held : Held) (lease : String) (cs : List Held) (w : World)
        → All (IsHeld w.runs) cs
        → IsSound w0 (some held.value.id) w
        → IsSound w0 none (settle t c bytes_of estimate jitter a x held lease cs w)
    unfolding settle
    settle-IsSound x held lease cs w k i =
        settle_after-IsSound x held lease cs w.runs _
          (persist-IsKept w0 bytes_of (some held.value.id) held.value.root_run_id a.now w i) k

    pub decide_as-IsSound :
        (v : Held) (r : DurableRunRecord) (children : List ChildPipelineSpec) (cs : List Held)
        (w : World) (m : Tried DecisionRecord)
        → IsHeld w.runs v
        → Evolves v.value r
        → All (IsHeld w.runs) cs
        → IsSound w0 (some v.value.id) w
        → IsSound w0 none (decide_as t c bytes_of estimate jitter a v r children cs w m)
    unfolding decide_as
    decide_as-IsSound v r children cs w (done d) h e k i =
        settle_record-IsSound v v (decomposed_record t c d children a.now r) cs w refl h
          (decomposed_record-Evolves t c d children a.now v.value r e) k i
    decide_as-IsSound v r children cs w (raised x) h e k i =
        caught-IsSound (other_error x) v cs w k i
