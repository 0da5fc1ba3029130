-- ===== src/Control/Steady.antt =====
-- src/orchestration/control-plane.ts, `runChildren`: its parts keep the invariant of the stored records
-- and of the calls that wait.
use ad_coder.Prelude.{
  ℕ, ◌+◌, ◌==◌, ◌≤◌, String, Option, none, some, List, [], ◌∷◌, All, All-impl, if◌then◌else◌,
  if_rule, length, ◌≡◌, refl, arith,
}
use ad_coder.Versioned.{Stored, ok, store_failed, failed, write_versioned_json}
use ad_coder.Control.{
  ChildPipelineSpec, DurableRunRecord, PlaneError, Texts, complete, cancelled, paused,
  run_completed,
}
use ad_coder.Control.Records.{Tried, done, raised, with_event, with_status}
use ad_coder.Control.Resume.{is_decomposition}
use ad_coder.Control.Plane.{Held, Runs, Task, resuming, returning, World, read, enter, reply_to}
use ad_coder.Control.Children.{
  Answers, is_complete, authorization, child_record, with_child, returned_with, return_as,
  completed, called_child, child_written, write_child, under, next_child, next_pass, run_children,
  child_returned,
}
use ad_coder.Control.Sound.{
  Follows, flag, is_execution, holds, IsHeld, IsReady, IsSound, with_event-IsLogged,
}
use ad_coder.Control.Writes.{Carries}
use ad_coder.Control.Puts.{Wrote, put-Wrote-Chain, create-IsSound, read-IsHeld}

module _ (w0 : World) where
  -- A call that ends holds its execution no longer.
  pub IsSound-dropped : (load : Option String) (w : World) → IsSound w0 load w → IsSound w0 none w
  IsSound-dropped load w i = record {
    stored = i.stored;
    ready = i.ready;
    flights = λ k. omega (arith, i.flights k);
    since = i.since;
  }

  pub enter-IsSound :
      (load after : Option String) (k : Task) (w : World)
      → IsReady w.runs k
      → ((j : String) → flag (is_execution j k) + holds after j ≤ holds load j)
      → IsSound w0 load w
      → IsSound w0 after (enter k w)
  enter-IsSound load after k w h f i = record {
    stored = i.stored;
    ready = (h, i.ready);
    flights = λ j. omega (arith, f j, i.flights j);
    since = i.since;
  }

  pub reply_to-IsSound :
      (cs : List Held) (r : DurableRunRecord) (w : World)
      → All (IsHeld w.runs) cs
      → IsSound w0 none w
      → IsSound w0 none (reply_to cs r w)
  reply_to-IsSound [] r w h i = i
  reply_to-IsSound (c ∷ cs) r w h i =
      enter-IsSound none none (returning r (c ∷ cs)) w h (λ j. omega arith) i

  pub callers_carried :
      (s s2 : Runs) (cs : List Held) → Carries s s2 → All (IsHeld s) cs → All (IsHeld s2) cs
  callers_carried s s2 cs c h = All-impl _ _ c cs h

  module _ (t : Texts) (bytes_of : Held → ℕ) where
    returned_with-IsSound :
        (r : DurableRunRecord) (cs : List Held) (s : Runs) (m : World × Tried ℕ)
        → Wrote w0 none none s r m
        → All (IsHeld s) cs
        → IsSound w0 none (returned_with t bytes_of r cs m)
    returned_with-IsSound r cs s (w, done n) (i, c, h) k =
        reply_to-IsSound cs r w (callers_carried s w.runs cs c k) i
    returned_with-IsSound r cs s (w, raised e) (i, c) k = i

    pub return_as-IsSound :
        (r : DurableRunRecord) (v : Held) (cs : List Held) (w : World)
        → Follows v.value r
        → IsHeld w.runs v
        → All (IsHeld w.runs) cs
        → IsSound w0 none w
        → IsSound w0 none (return_as t bytes_of r v cs w)
    unfolding return_as
    return_as-IsSound r v cs w f h k i =
        returned_with-IsSound r cs w.runs _
          (put-Wrote-Chain w0 bytes_of none (r ∷ []) v w i h (f, tt)) k

    module _ (a : Answers) where
      completed-IsSound :
          (v : Held) (cs : List Held) (w : World)
          → IsHeld w.runs v
          → All (IsHeld w.runs) cs
          → IsSound w0 none w
          → IsSound w0 none (completed t bytes_of a v cs w)
      unfolding completed
      completed-IsSound v cs w h k i =
          return_as-IsSound (with_event run_completed a.now (with_status complete a.now v.value)) v
            cs w (refl, refl, refl, with_event-IsLogged run_completed a.now v.value) h k i

      called_child-IsSound :
          (id : String) (r : DurableRunRecord) (cs : List Held) (s : Runs) (m : World × Tried ℕ)
          → Wrote w0 none none s r m
          → All (IsHeld s) cs
          → IsSound w0 none (called_child t bytes_of id r cs m)
      called_child-IsSound id r cs s (w, done n) (i, c, h) k =
          enter-IsSound none none (resuming id none (record { version = n; value = r } ∷ cs)) w
            (h, callers_carried s w.runs cs c k) (λ j. omega arith) i
      called_child-IsSound id r cs s (w, raised e) (i, c) k = i

      child_written-IsSound :
          (spec : ChildPipelineSpec) (rest : List ChildPipelineSpec) (v : Held) (cs : List Held)
          (w : World) (decision : String)
          → IsHeld w.runs v
          → All (IsHeld w.runs) cs
          → IsSound w0 none w
          → (m : Stored PlaneError Runs)
          → write_versioned_json bytes_of a.new_id
              (child_record t bytes_of a decision spec v.value)
              (some 0)
              w.runs
            ≡ m
          → IsSound w0 none (child_written t bytes_of a rest v cs w m)
      unfolding child_written child_record
      child_written-IsSound spec rest v cs w decision h k i (ok s) e =
          let (i2, c) =
            create-IsSound w0 bytes_of none a.new_id
              (child_record t bytes_of a decision spec v.value) w refl refl i s e in
          called_child-IsSound a.new_id (with_child t bytes_of a rest v.value) cs s _
            (put-Wrote-Chain w0 bytes_of none (with_child t bytes_of a rest v.value ∷ []) v
              (record w { runs = s }) i2 (c v h) ((refl, refl, refl, λ x. x), tt))
            (callers_carried w.runs s cs c k)
      child_written-IsSound spec rest v cs w decision h k i (store_failed x) e = i
      child_written-IsSound spec rest v cs w decision h k i (failed x) e = i

      under-IsSound :
          (m : Tried String) (spec : ChildPipelineSpec) (rest : List ChildPipelineSpec) (v : Held)
          (cs : List Held) (w : World)
          → IsHeld w.runs v
          → All (IsHeld w.runs) cs
          → IsSound w0 none w
          → IsSound w0 none (under t bytes_of m a spec rest v cs w)
      unfolding under write_child
      under-IsSound (done d) spec rest v cs w h k i =
          child_written-IsSound spec rest v cs w d h k i _ refl
      under-IsSound (raised e) spec rest v cs w h k i = i

      next_child-IsSound :
          (rest : List ChildPipelineSpec) (v : Held) (cs : List Held) (w : World)
          → IsHeld w.runs v
          → All (IsHeld w.runs) cs
          → IsSound w0 none w
          → IsSound w0 none (next_child t bytes_of rest a v cs w)
      unfolding next_child
      next_child-IsSound [] v cs w h k i = completed-IsSound v cs w h k i
      next_child-IsSound (spec ∷ rest) v cs w h k i =
          under-IsSound (authorization spec v.value) spec rest v cs w h k i

      next_pass-IsSound :
          (m : Tried Held) (cs : List Held) (w : World)
          → ((v : Held) → m ≡ done v → IsHeld w.runs v)
          → All (IsHeld w.runs) cs
          → IsSound w0 none w
          → IsSound w0 none (next_pass t bytes_of m a cs w)
      unfolding next_pass
      next_pass-IsSound (raised e) cs w h k i = i
      next_pass-IsSound (done v) cs w h k i =
          if_rule (λ (x : World). IsSound w0 none x) v.value.cancel_requested
            (return_as t bytes_of (with_status cancelled a.now v.value) v cs w)
            (next_child t bytes_of v.value.remaining_children a v cs w)
            (λ e.
              return_as-IsSound (with_status cancelled a.now v.value) v cs w
                (refl, refl, refl, λ x. x) (h v refl) k i)
            (λ e. next_child-IsSound v.value.remaining_children v cs w (h v refl) k i)

      pub run_children-IsSound :
          (v : Held) (cs : List Held) (w : World)
          → IsHeld w.runs v
          → All (IsHeld w.runs) cs
          → IsSound w0 none w
          → IsSound w0 none (run_children t bytes_of a v cs w)
      unfolding run_children
      run_children-IsSound v cs w h k i =
          if_rule (λ (x : World). IsSound w0 none x) (length v.value.remaining_children == 0)
            (completed t bytes_of a v cs w) (next_pass t bytes_of (read v.value.id w.runs) a cs w)
            (λ e. completed-IsSound v cs w h k i)
            (λ e.
              next_pass-IsSound (read v.value.id w.runs) cs w
                (λ x. λ p. (read-IsHeld w0 none v.value.id w i x p).1) k i)

      pub child_returned-IsSound :
          (r : DurableRunRecord) (v : Held) (cs : List Held) (w : World)
          → IsHeld w.runs v
          → All (IsHeld w.runs) cs
          → IsSound w0 none w
          → IsSound w0 none (child_returned t bytes_of a r v cs w)
      unfolding child_returned
      child_returned-IsSound r v cs w h k i =
          let stop = return_as t bytes_of (with_status paused a.now v.value) v cs w in
          let stopped : IsSound w0 none stop =
            return_as-IsSound (with_status paused a.now v.value) v cs w (refl, refl, refl, λ x. x) h
              k i in
          if_rule (λ (x : World). IsSound w0 none x) (is_decomposition r.result) stop
            (if is_complete r.status then run_children t bytes_of a v cs w else stop) (λ e. stopped)
            (λ e.
              if_rule (λ (x : World). IsSound w0 none x) (is_complete r.status)
                (run_children t bytes_of a v cs w) stop (λ f. run_children-IsSound v cs w h k i)
                (λ f. stopped))
