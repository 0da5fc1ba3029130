-- ===== src/Control/Calls.antt =====
-- src/orchestration/control-plane.ts: every call of the control plane, and every step of one that
-- waited, keeps the invariant of the stored records and of the calls.
use ad_coder.Prelude.{ℕ, String, Option, none, some, [], ◌∷◌, ◌≡◌, refl, arith}
use ad_coder.Control.{ControlPlaneConfig, BudgetDecision, DurableRunRecord, Texts}
use ad_coder.Control.Records.{Tried, done, raised}
use ad_coder.Control.Plane.{
  Held, Runs, Task, resuming, checking, executing, deciding, returning, requesting, World, enter,
  put,
}
use ad_coder.Control.Children.{Answers}
use ad_coder.Control.Sound.{Follows, flag, is_execution, holds, IsHeld, IsReady, IsSound}
use ad_coder.Control.Steady.{enter-IsSound, child_returned-IsSound}
use ad_coder.Control.Stepwise.{resume-IsSound}
use ad_coder.Control.Settling.{settle-IsSound, caught-IsSound, decide_as-IsSound}
use ad_coder.Control.Replies.{
  Reply, proceed, unavailable, executed, execute_threw, resolved, resolve_threw,
}
use ad_coder.Control.Advance.{requested_write, advance}
use ad_coder.Control.Puts.{Wrote, put-Wrote-Chain}
use ad_coder.Control.Updates.{WhenDone, decided_record-Follows}
use ad_coder.Control.Dispatching.{dispatch-IsSound, hold_back-IsSound}

module _ (w0 : World) (bytes_of : Held → ℕ) where
  pub kept_by_put :
      (s : Runs) (r : DurableRunRecord) (m : World × Tried ℕ)
      → Wrote w0 none none s r m
      → IsSound w0 none m.0
  kept_by_put s r (w, done n) (i, d, h) = i
  kept_by_put s r (w, raised e) (i, d) = i

  -- A write that leaves the execution alone.
  pub put_followed :
      (v : Held) (r : DurableRunRecord) (w : World)
      → IsHeld w.runs v
      → Follows v.value r
      → IsSound w0 none w
      → IsSound w0 none (put bytes_of v.value.id v.version (r ∷ []) w).0
  put_followed v r w h f i =
      kept_by_put w.runs r _ (put-Wrote-Chain w0 bytes_of none (r ∷ []) v w i h (f, tt))

  requested_write-IsSound :
      (t : Texts) (c : ControlPlaneConfig) (estimate : Option BudgetDecision) (jitter : ℕ → ℕ)
      (a : Answers) (v : Held) (w : World) (m : Tried DurableRunRecord)
      → IsHeld w.runs v
      → WhenDone (Follows v.value) m
      → IsSound w0 none w
      → IsSound w0 none (requested_write t c bytes_of estimate jitter v w m)
  unfolding requested_write
  requested_write-IsSound t c estimate jitter a v w (done r) h f i = put_followed v r w h f i
  requested_write-IsSound t c estimate jitter a v w (raised e) h f i = i

  -- The execution that a task stands for.
  abbrev pub load_of : Task → Option String
  load_of (resuming id until cs) = none
  load_of (checking v cs) = none
  load_of (executing v lease cs) = some v.value.id
  load_of (deciding v r children d cs) = some v.value.id
  load_of (returning r cs) = none
  load_of (requesting v d) = none

  pub load_lem : (k : Task) (j : String) → holds (load_of k) j ≡ flag (is_execution j k)
  load_lem (resuming id until cs) j = refl
  load_lem (checking v cs) j = refl
  load_lem (executing v lease cs) j = refl
  load_lem (deciding v r children d cs) j = refl
  load_lem (returning r cs) j = refl
  load_lem (requesting v d) j = refl

  -- A task that stays in the list.
  stays :
      (k : Task) (w : World)
      → IsReady w.runs k
      → IsSound w0 (load_of k) w
      → IsSound w0 none (enter k w)
  stays k w h i = enter-IsSound w0 (load_of k) none k w h (λ j. omega (arith, load_lem k j)) i

  module _ (t : Texts) (c : ControlPlaneConfig) (estimate : Option BudgetDecision) (jitter : ℕ → ℕ)
      (a : Answers) where
    pub advance-IsSound :
        (k : Task) (y : Reply) (w : World)
        → IsReady w.runs k
        → IsSound w0 (load_of k) w
        → IsSound w0 none (advance t c bytes_of estimate jitter a k y w)
    unfolding advance
    advance-IsSound (resuming id until cs) y w h i =
        resume-IsSound w0 bytes_of t c estimate jitter a id until cs w h i
    advance-IsSound (checking v cs) proceed w h i =
        dispatch-IsSound w0 bytes_of t c estimate jitter a v cs w h i
    advance-IsSound (checking v cs) (unavailable s) w (h, p, q, k) i =
        hold_back-IsSound w0 bytes_of t c estimate jitter a s v cs w h k i
    advance-IsSound (checking v cs) (executed x) w h i = stays (checking v cs) w h i
    advance-IsSound (checking v cs) (execute_threw x) w h i = stays (checking v cs) w h i
    advance-IsSound (checking v cs) (resolved g) w h i = stays (checking v cs) w h i
    advance-IsSound (checking v cs) (resolve_threw e) w h i = stays (checking v cs) w h i
    advance-IsSound (executing v lease cs) (executed x) w h i =
        settle-IsSound w0 bytes_of t c estimate jitter a x v lease cs w h i
    advance-IsSound (executing v lease cs) (execute_threw x) w h i =
        caught-IsSound w0 bytes_of t c estimate jitter a x v cs w h i
    advance-IsSound (executing v lease cs) proceed w h i = stays (executing v lease cs) w h i
    advance-IsSound (executing v lease cs) (unavailable s) w h i =
        stays (executing v lease cs) w h i
    advance-IsSound (executing v lease cs) (resolved g) w h i = stays (executing v lease cs) w h i
    advance-IsSound (executing v lease cs) (resolve_threw e) w h i =
        stays (executing v lease cs) w h i
    advance-IsSound (deciding v r children d cs) (resolved g) w (h, e, k) i =
        decide_as-IsSound w0 bytes_of t c estimate jitter a v r children cs w _ h e k i
    advance-IsSound (deciding v r children d cs) (resolve_threw x) w (h, e, k) i =
        decide_as-IsSound w0 bytes_of t c estimate jitter a v r children cs w _ h e k i
    advance-IsSound (deciding v r children d cs) proceed w h i =
        stays (deciding v r children d cs) w h i
    advance-IsSound (deciding v r children d cs) (unavailable s) w h i =
        stays (deciding v r children d cs) w h i
    advance-IsSound (deciding v r children d cs) (executed x) w h i =
        stays (deciding v r children d cs) w h i
    advance-IsSound (deciding v r children d cs) (execute_threw x) w h i =
        stays (deciding v r children d cs) w h i
    advance-IsSound (returning r []) y w h i = i
    advance-IsSound (returning r (v ∷ cs)) y w (h, k) i =
        child_returned-IsSound w0 t bytes_of a r v cs w h k i
    advance-IsSound (requesting v d) (resolved g) w h i =
        requested_write-IsSound t c estimate jitter a v w _ h
          (decided_record-Follows t g d a.now v.value) i
    advance-IsSound (requesting v d) (resolve_threw e) w h i = i
    advance-IsSound (requesting v d) proceed w h i = stays (requesting v d) w h i
    advance-IsSound (requesting v d) (unavailable s) w h i = stays (requesting v d) w h i
    advance-IsSound (requesting v d) (executed x) w h i = stays (requesting v d) w h i
    advance-IsSound (requesting v d) (execute_threw x) w h i = stays (requesting v d) w h i
