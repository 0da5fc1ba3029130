-- ===== src/Control/Stepwise.antt =====
-- src/orchestration/control-plane.ts, `resume` up to its wait, and `persistSessionLimits`: they keep
-- the invariant of the stored records and of the calls that wait.
use ad_coder.Prelude.{ℕ, String, Option, none, some, List, [], ◌∷◌, All, ◌≡◌, refl, subst, arith}
use ad_coder.Limits.{Controller}
use ad_coder.Retry.{Coordinator}
use ad_coder.Control.{DurableRunRecord, ControlPlaneConfig, BudgetDecision, RunBreakpoint, Texts}
use ad_coder.Control.Records.{Tried, done, raised}
use ad_coder.Control.Resume.{Next, returned, await_availability, run_children, Facts, resume_plan}
use ad_coder.Control.Plane.{
  Held, Runs, checking, World, read, put, snapshot_record, put_snapshot, persist_in,
  persist_session_limits,
}
use ad_coder.Control.Children.{Answers}
use ad_coder.Control.Steps.{
  facts, go_on, written, resume_with, resume_session, resume_root, resume_read, resume,
}
use ad_coder.Control.Sound.{IsHeld, IsSound}
use ad_coder.Control.Writes.{Carries}
use ad_coder.Control.Growth.{IsChecked, resume_plan-IsLawful}
use ad_coder.Control.Steady.{enter-IsSound, reply_to-IsSound, callers_carried, run_children-IsSound}
use ad_coder.Control.Replies.{cancel_retry}
use ad_coder.Control.Puts.{Wrote, put-Wrote-Chain, read-IsHeld}

module _ (w0 : World) (bytes_of : Held → ℕ) where
  -- The session and the retries are no part of the invariant.
  pub beside :
      (load : Option String) (w : World) (s : Option Controller) (k : Option Coordinator)
      → IsSound w0 load w
      → IsSound w0 load (record w { session = s; retries = k })
  beside load w s k i = record {
    stored = i.stored;
    ready = i.ready;
    flights = i.flights;
    since = i.since;
  }

  -- The snapshot of the session is written into some record, or nothing is.
  abbrev pub IsKept : Option String → Runs → World × Tried ℕ → Type 0
  IsKept load s (w, t) = IsSound w0 load w × Carries s w.runs

  pub Wrote-IsKept :
      (load : Option String) (s : Runs) (r : DurableRunRecord) (m : World × Tried ℕ)
      → Wrote w0 load load s r m
      → IsKept load s m
  Wrote-IsKept load s r (w, done n) (i, c, h) = (i, c)
  Wrote-IsKept load s r (w, raised e) (i, c) = (i, c)

  put_snapshot-IsKept :
      (load : Option String) (root : String) (c : Controller) (now : ℕ) (w : World) (m : Tried Held)
      → ((v : Held) → m ≡ done v → (v.value.id ≡ root) × IsHeld w.runs v)
      → IsSound w0 load w
      → IsKept load w.runs (put_snapshot bytes_of root c now m w)
  unfolding put_snapshot
  put_snapshot-IsKept load root c now w (done v) h i =
      let (same, held) = h v refl in
      subst
        (λ x.
          IsKept load w.runs
            (put bytes_of x v.version (snapshot_record bytes_of c now v.value ∷ []) w))
        same
        (Wrote-IsKept load w.runs _ _ (
          put-Wrote-Chain w0 bytes_of load (snapshot_record bytes_of c now v.value ∷ []) v w i held
            ((refl, refl, refl, λ x. x), tt)))
  put_snapshot-IsKept load root c now w (raised e) h i = (i, λ x. λ y. y)

  persist_in-IsKept :
      (load : Option String) (o : Option Controller) (root : String) (now : ℕ) (w : World)
      → IsSound w0 load w
      → IsKept load w.runs (persist_in bytes_of o root now w)
  unfolding persist_in
  persist_in-IsKept load none root now w i = (i, λ x. λ y. y)
  persist_in-IsKept load (some c) root now w i =
      put_snapshot-IsKept load root c now w (read root w.runs)
        (λ v. λ e. read-IsHeld w0 load root w i v e) i

  pub persist-IsKept :
      (load : Option String) (root : String) (now : ℕ) (w : World)
      → IsSound w0 load w
      → IsKept load w.runs (persist_session_limits bytes_of root now w)
  unfolding persist_session_limits
  persist-IsKept load root now w i = persist_in-IsKept load w.session root now w i

  module _ (t : Texts) (c : ControlPlaneConfig) (estimate : Option BudgetDecision) (jitter : ℕ → ℕ)
      (a : Answers) where
    -- `resume` up to its wait.
    go_on-IsSound :
        (f : Facts) (n : Next) (v : Held) (cs : List Held) (w : World)
        → IsChecked f n v.value
        → IsHeld w.runs v
        → All (IsHeld w.runs) cs
        → IsSound w0 none w
        → IsSound w0 none (go_on t c bytes_of estimate jitter n a v cs w)
    unfolding go_on
    go_on-IsSound f returned v cs w p h k i = reply_to-IsSound w0 cs v.value w k i
    go_on-IsSound f await_availability v cs w (p, q) h k i =
        enter-IsSound w0 none none (checking v cs) w (h, p, q, k) (λ j. omega arith) i
    go_on-IsSound f run_children v cs w p h k i = run_children-IsSound w0 t bytes_of a v cs w h k i

    written-IsSound :
        (f : Facts) (n : Next) (r : DurableRunRecord) (cs : List Held) (s : Runs)
        (m : World × Tried ℕ)
        → IsChecked f n r
        → Wrote w0 none none s r m
        → All (IsHeld s) cs
        → IsSound w0 none (written t c bytes_of estimate jitter n a r cs m)
    unfolding written
    written-IsSound f n r cs s (w, done x) p (i, d, h) k =
        go_on-IsSound f n (record { version = x; value = r }) cs w p h
          (callers_carried w0 s w.runs cs d k) i
    written-IsSound f n r cs s (w, raised e) p (i, d) k = i

    resume_with-IsSound :
        (until : Option RunBreakpoint) (v : Held) (cs : List Held) (w : World)
        → IsHeld w.runs v
        → All (IsHeld w.runs) cs
        → IsSound w0 none w
        → IsSound w0 none (resume_with t c bytes_of estimate jitter a until v cs w)
    unfolding resume_with
    resume_with-IsSound until v cs w h k i =
        let f = facts t c bytes_of estimate jitter a w in
        let (l, p) = resume_plan-IsLawful f until v.value in
        written-IsSound f _ _ cs w.runs _ p
          (put-Wrote-Chain w0 bytes_of none (resume_plan until f v.value).writes v w i h l) k

    resume_session-IsSound :
        (until : Option RunBreakpoint) (v : Held) (cs : List Held) (w : World)
        (m : Tried (Option Controller))
        → IsHeld w.runs v
        → All (IsHeld w.runs) cs
        → IsSound w0 none w
        → IsSound w0 none (resume_session t c bytes_of estimate jitter a until v cs w m)
    unfolding resume_session
    resume_session-IsSound until v cs w (done s) h k i =
        resume_with-IsSound until v cs (record w { session = s }) h k (beside none w s w.retries i)
    resume_session-IsSound until v cs w (raised e) h k i = i

    resume_root-IsSound :
        (until : Option RunBreakpoint) (v : Held) (cs : List Held) (w : World) (m : Tried Held)
        → IsHeld w.runs v
        → All (IsHeld w.runs) cs
        → IsSound w0 none w
        → IsSound w0 none (resume_root t c bytes_of estimate jitter a until v cs w m)
    unfolding resume_root
    resume_root-IsSound until v cs w (done root) h k i = resume_session-IsSound until v cs w _ h k i
    resume_root-IsSound until v cs w (raised e) h k i = i

    resume_read-IsSound :
        (until : Option RunBreakpoint) (cs : List Held) (w : World) (m : Tried Held)
        → ((v : Held) → m ≡ done v → IsHeld w.runs v)
        → All (IsHeld w.runs) cs
        → IsSound w0 none w
        → IsSound w0 none (resume_read t c bytes_of estimate jitter a until cs w m)
    unfolding resume_read
    resume_read-IsSound until cs w (done v) h k i =
        resume_root-IsSound until v cs w (read v.value.root_run_id w.runs) (h v refl) k i
    resume_read-IsSound until cs w (raised e) h k i = i

    pub resume-IsSound :
        (id : String) (until : Option RunBreakpoint) (cs : List Held) (w : World)
        → All (IsHeld w.runs) cs
        → IsSound w0 none w
        → IsSound w0 none (resume t c bytes_of estimate jitter a id until cs w)
    unfolding resume
    resume-IsSound id until cs w k i =
        resume_read-IsSound until cs (record w { retries = cancel_retry id w.retries })
          (read id w.runs) (λ v. λ e. (read-IsHeld w0 none id w i v e).1) k
          (beside none w w.session (cancel_retry id w.retries) i)
