-- ===== src/Wait/Replay.antt =====
-- What a wait keeps: a settled record, and an operation that was dispatched.
use ad_coder.Prelude.{
  ℕ, ◌≡◌, ap, inl, inr, refl, sym, subst, ◌∙◌, String, Bool, true, false, Option, none, some, List,
  [], ◌∷◌, All, lookup, if_rule, Bool-cases, if◌then◌else◌, str_eq,
}
use mathlib.Core.Option.{some-injective}
use text.Mathlib.TextEquality.{eq_iff}
use ad_coder.Versioned.{
  VersionedState, ok, store_failed, failed, WhenOk, WhenOk-intro, WhenOk-bind, bind-ok,
  read_versioned_json, ◌>>=◌,
}
use ad_coder.Wait.{timed_out, deadline_exceeded, is_wait_id, WaitRecord, Dispatch, is_pending}
use ad_coder.Wait.Service.{begin_pending, begin_reconcile, read, transition}
use ad_coder.Wait.Records.{
  Waits, Answer, WaitService, append, same_operation, is_dispatched, is_due, found, require,
}
use ad_coder.Wait.History.{
  WaitCall, create_wait, cancel_wait, begin_wait, end_wait, World, after, after_begin, step, run,
  start,
}
use ad_coder.Wait.Moves.{step-Move}
use ad_coder.Wait.Changes.{Change, kept, closed, sent, answered, checked-ok}
use ad_coder.Wait.Valid.{AllServed, advanced-AllServed, run-AllServed, start-AllServed, found_lem}
use ad_coder.Wait.Shape.{Drawn}
use ad_coder.Wait.Kept.{Holds, advanced-Holds, run-Holds}

-- A call that does not end the operation `op`.
abbrev pub Unanswered : String → WaitCall → Type 0
Unanswered op (end_wait id other a now) = str_eq other op ≡ false
Unanswered op _ = Unit

same_operation-some :
    (op : String) (o : Option Dispatch) (d : Dispatch)
    → same_operation op o ≡ true
    → o ≡ some d
    → str_eq op d.operation_id ≡ true
same_operation-some op none d h e = cc
same_operation-some op (some x) d h e =
    let f : x ≡ d = some-injective _ _ e in
    let g = (eq_iff x.operation_id op).0 h in
    (eq_iff op d.operation_id).1 (sym g ∙ ap (λ (y : Dispatch). y.operation_id) f)

dispatched_change :
    (k : WaitService) (d : Dispatch) (c : WaitCall) (r r2 : WaitRecord)
    → Unanswered d.operation_id c
    → Change k c r r2
    → r.reconciliation ≡ some d
    → r2.reconciliation ≡ some d
unfolding append
dispatched_change k d _ _ _ u (kept c r) h = h
dispatched_change k d _ _ _ u (closed c r l e now p q) h = h
dispatched_change k d _ _ _ u (sent id op now r p q) h = cc
dispatched_change k d _ _ _ u (answered id op o now r p q) h =
    let same = same_operation-some op r.reconciliation d q h in cc

-- The calls of the adapters for a wait.
unfoldable pub calls_for : String → List (String × String) → List (String × String)
calls_for id [] = []
calls_for id ((j, op) ∷ calls) =
    let rest = calls_for id calls in if str_eq j id then (j, op) ∷ rest else rest

is_dispatched-some : (o : Option Dispatch) (d : Dispatch) → o ≡ some d → is_dispatched o ≡ true
is_dispatched-some none d h = cc
is_dispatched-some (some x) d h = refl

uncalled :
    (m : Answer Waits) → WhenOk (λ (x : Waits × Bool). x.1 ≡ false) (m >>= λ t. ok (t, false))
uncalled (ok t) = refl
uncalled (store_failed e) = tt
uncalled (failed e) = tt

begin_pending_silent :
    (k : WaitService) (id op : String) (now : ℕ) (r : WaitRecord) (s : Waits)
    → is_dispatched r.reconciliation ≡ true
    → WhenOk (λ (x : Waits × Bool). x.1 ≡ false) (begin_pending k id op now r s)
unfolding begin_pending
begin_pending_silent k id op now r s h =
    let P : Answer (Waits × Bool) → Type 0 = WhenOk (λ (x : Waits × Bool). x.1 ≡ false) in
    if_rule P (is_due now r.terms.deadline_at) _ _
      (λ e. uncalled (transition k id timed_out deadline_exceeded now s)) (λ e. rw h tt)

ok_injective :
    (v : VersionedState WaitRecord) (r : WaitRecord) (x : VersionedState WaitRecord)
    → ◌≡◌ {A = Answer (VersionedState WaitRecord)} (ok v) (ok x)
    → x.value ≡ r
    → v.value ≡ r
ok_injective v r x f g = cc

read_stored :
    (k : WaitService) (id : String) (s : Waits) (v : VersionedState WaitRecord) (r : WaitRecord)
    → lookup id s.states ≡ some v
    → read k id s ≡ ok r
    → v.value ≡ r
unfolding read
read_stored k id s v r h e =
    let (u, a, e1) = bind-ok (require (is_wait_id id) _) _ r e in
    let (x, b, e2) = bind-ok (found (read_versioned_json id s)) _ r e1 in
    let (good, small, same) = checked-ok k x r e2 in
    let f : ok v ≡ ok x = sym (found_lem id v s h) ∙ b in ok_injective v r x f same

begin_reconcile_silent :
    (k : WaitService) (id op : String) (now : ℕ) (s : Waits) (d : Dispatch)
    → Holds (λ r. r.reconciliation ≡ some d) (lookup id s.states)
    → WhenOk (λ (x : Waits × Bool). x.1 ≡ false) (begin_reconcile k id op now s)
unfolding begin_reconcile
begin_reconcile_silent k id op now s d (v, h, g) =
    let Q : Waits × Bool → Type 0 = λ x. x.1 ≡ false in
    WhenOk-bind Q (read k id s) _ (
      WhenOk-intro _ (read k id s) (λ r e.
        if_rule (WhenOk Q) (is_pending r.lifecycle) _ _
          (λ p. begin_pending_silent k id op now r s (
            is_dispatched-some r.reconciliation d (
              subst (λ (x : WaitRecord). x.reconciliation ≡ some d) (read_stored k id s v r h e)
                g)))
          (λ p. refl)))

after-calls : (w : World) (m : Answer Waits) → (after w m).calls ≡ w.calls
after-calls w (ok t) = refl
after-calls w (store_failed e) = refl
after-calls w (failed e) = refl

after_begin-calls :
    (id op : String) (w : World) (m : Answer (Waits × Bool))
    → WhenOk (λ (x : Waits × Bool). x.1 ≡ false) m
    → (after_begin id op w m).calls ≡ w.calls
after_begin-calls id op w (ok (t, b)) h = rw h refl
after_begin-calls id op w (store_failed e) h = refl
after_begin-calls id op w (failed e) h = refl

calls_for-other :
    (id j op : String) (w : World) (m : Answer (Waits × Bool))
    → str_eq j id ≡ false
    → calls_for id (after_begin j op w m).calls ≡ calls_for id w.calls
unfolding calls_for
calls_for-other id j op w (ok (t, true)) h = rw h refl
calls_for-other id j op w (ok (t, false)) h = refl
calls_for-other id j op w (store_failed e) h = refl
calls_for-other id j op w (failed e) h = refl

step_silent :
    (k : WaitService) (id : String) (d : Dispatch) (c : WaitCall) (w : World)
    → Holds (λ r. r.reconciliation ≡ some d) (lookup id w.waits.states)
    → calls_for id (step k c w).calls ≡ calls_for id w.calls
unfolding step
step_silent k id d (create_wait j now terms) w h = ap (calls_for id) (after-calls w _)
step_silent k id d (cancel_wait j now) w h = ap (calls_for id) (after-calls w _)
step_silent k id d (end_wait j op a now) w h = ap (calls_for id) (after-calls w _)
step_silent k id d (begin_wait j op now) w h = elim (Bool-cases (str_eq j id)) [
  | inr b ↦ calls_for-other id j op w _ b
  | inl b ↦
      let e = (eq_iff j id).0 b in
      ap (calls_for id) (
        after_begin-calls j op w _ (
          begin_reconcile_silent k j op now w.waits d (
            subst (λ x. Holds (λ r. r.reconciliation ≡ some d) (lookup x w.waits.states)) (sym e)
              h)))
]

run_silent :
    (k : WaitService) (id : String) (d : Dispatch) (cs : List WaitCall) (w : World)
    → All Drawn cs
    → All (Unanswered d.operation_id) cs
    → AllServed k w.waits
    → Holds (λ r. r.reconciliation ≡ some d) (lookup id w.waits.states)
    → calls_for id (run k cs w).calls ≡ calls_for id w.calls
unfolding run
run_silent k id d [] w a u i h = refl
run_silent k id d (c ∷ cs) w a u i h =
    let m = step-Move k c w in
    run_silent k id d cs (step k c w) a.1 u.1 (advanced-AllServed k c w.waits _ a.0 m i) (
      advanced-Holds k (λ r. r.reconciliation ≡ some d) (Unanswered d.operation_id)
        (dispatched_change k d) c w.waits (step k c w).waits id u.0 i m h)
    ∙ step_silent k id d c w h

-- An operation that was dispatched is not replayed: until its own answer comes, whatever else is called,
-- the wait keeps the witness of the dispatch and no adapter is called for the wait again.
pub dispatched_once :
    (k : WaitService) (limit : ℕ) (cs ds : List WaitCall) (id : String)
    (v : VersionedState WaitRecord) (d : Dispatch)
    → All Drawn cs
    → All Drawn ds
    → All (Unanswered d.operation_id) ds
    → lookup id (run k cs (start limit)).waits.states ≡ some v
    → v.value.reconciliation ≡ some d
    → let w = run k cs (start limit) in
      Holds (λ r. r.reconciliation ≡ some d) (lookup id (run k ds w).waits.states)
      × (calls_for id (run k ds w).calls ≡ calls_for id w.calls)
dispatched_once k limit cs ds id v d a b u h e =
    let w = run k cs (start limit) in
    let i = run-AllServed k cs (start limit) a (start-AllServed k limit) in
    (
      run-Holds k (λ r. r.reconciliation ≡ some d) (Unanswered d.operation_id)
          (dispatched_change k d) ds w id b u i (v, h, e),
      run_silent k id d ds w b u i (v, h, e),
    )
