-- ===== src/Wait/Moves.antt =====
-- What one call of the service can do to the states.
use ad_coder.Prelude.{
  ℕ, ◌+◌, ◌≡◌, refl, subst, String, Bool, true, false, ◌&&◌, Option, none, some, lookup, arith,
  if_rule,
}
use ad_coder.Versioned.{
  ok, store_failed, failed, not_found, version_conflict, resource_limit, ◌>>=◌, version_of,
  put_state, bind-ok, WhenOk, WhenOk-intro, WhenOk-bind, write_versioned_json-ok,
  mutate_versioned_json-ok,
}
use ad_coder.Wait.{
  Dispatch, WaitLifecycle, pending, WaitEvidenceCode, WaitTerms, WaitRecord, is_pending, is_wait_id,
  validate_input, timed_out, cancelled, deadline_exceeded, by_cancel,
}
use ad_coder.Wait.Service.{
  fits, create, read, sized_mutation, mutate, settle_wait, transition, cancel, dispatch,
  dispatch_pending, begin_pending, begin_reconcile, complete, end_reconcile,
}
use ad_coder.Wait.Records.{
  Waits, Answer, WaitService, WaitObservation, Answered, adapter_threw, observed, append, initial,
  same_operation, same_lifecycle, created, require, validate_observation, is_due, is_early,
  is_dispatched,
}
use ad_coder.Wait.History.{
  WaitCall, create_wait, cancel_wait, begin_wait, end_wait, World, after, after_begin, step,
}
use ad_coder.Wait.Changes.{
  Change, Move, answered, changed, closed, kept, opened, require-ok, sent, sized_mutation-ok,
  stayed, target,
}

module _ (k : WaitService) where
  -- What a mutation of the record does, once it succeeded.
  mutate-Move :
      (c : WaitCall) (change : WaitRecord → Answer WaitRecord) (s : Waits)
      → ((r : WaitRecord) → WhenOk (Change k c r) (change r))
      → WhenOk (Move k c s) (mutate k (target c) change s)
  unfolding mutate
  mutate-Move c change s f = WhenOk-intro (Move k c s) (mutate k (target c) change s) (λ t h.
      let (r, e, w) =
        mutate_versioned_json-ok k.bytes_of (target c) (sized_mutation k change) s t h in
      let (v, i, good, b, small) = sized_mutation-ok k change (lookup (target c) s.states) r e in
      subst (Move k c s)
        (subst (λ o. put_state (target c) (record { version = version_of o + 1; value = r }) s ≡ t)
          i w)
        (changed c s v r i good (subst (WhenOk (Change k c v.value)) b (f v.value)) small))

  settle_wait-Change :
      (c : WaitCall) (l : WaitLifecycle) (e : WaitEvidenceCode) (now : ℕ)
      → is_pending l ≡ false
      → (r : WaitRecord) → WhenOk (Change k c r) (settle_wait k l e now r)
  unfolding settle_wait
  settle_wait-Change c l e now p r =
      if_rule (WhenOk (Change k c r)) (is_pending r.lifecycle) _ _ (λ q. closed c r l e now q p)
        (λ q.
          if_rule (WhenOk (Change k c r)) (same_lifecycle r.lifecycle l) _ _ (λ q2. kept c r)
            (λ q2. tt))

  not_dispatched : (o : Option Dispatch) → is_dispatched o ≡ false → o ≡ none
  not_dispatched none h = refl
  not_dispatched (some d) h = cc

  dispatch-Change :
      (id op : String) (now : ℕ) (r : WaitRecord)
      → is_pending r.lifecycle ≡ true
      → WhenOk (Change k (begin_wait id op now) r) (dispatch k op now r)
  unfolding dispatch
  dispatch-Change id op now r p =
      if_rule (WhenOk (Change k (begin_wait id op now) r)) (is_dispatched r.reconciliation) _ _
        (λ d. tt) (λ d. sent id op now r p (not_dispatched r.reconciliation d))

  dispatch_pending-Change :
      (id op : String) (now : ℕ) (r : WaitRecord)
      → WhenOk (Change k (begin_wait id op now) r) (dispatch_pending k op now r)
  unfolding dispatch_pending
  dispatch_pending-Change id op now r =
      if_rule (WhenOk (Change k (begin_wait id op now) r)) (is_pending r.lifecycle) _ _
        (λ p. dispatch-Change id op now r p) (λ p. tt)

  complete-Change :
      (id op : String) (o : WaitObservation) (now : ℕ) (r : WaitRecord)
      → WhenOk (Change k (end_wait id op (observed o) now) r) (complete k op o now r)
  unfolding complete
  complete-Change id op o now r =
      if_rule (WhenOk (Change k (end_wait id op (observed o) now) r))
        (same_operation op r.reconciliation && is_pending r.lifecycle) _ _
        (λ p. answered id op o now r (ground (arith, p)) (ground (arith, p))) (λ p. tt)

  created-ok : (m : Answer Waits) (t : Waits) → created m ≡ ok t → m ≡ ok t
  created-ok (ok s) t h = h
  created-ok (failed e) t h = cc
  created-ok (store_failed version_conflict) t h = cc
  created-ok (store_failed not_found) t h = cc
  created-ok (store_failed resource_limit) t h = cc

  create-Move :
      (id : String) (now : ℕ) (terms : WaitTerms) (s : Waits)
      → WhenOk (Move k (create_wait id now terms) s) (create k id now terms s)
  unfolding create
  create-Move id now terms s =
      WhenOk-intro (Move k (create_wait id now terms) s) (create k id now terms s) (λ t h.
        let first = append k.limits pending now none (initial id now terms) in
        let (u1, a, h1) = bind-ok (require (validate_input k.limits terms) _) _ t h in
        let (u2, b, h2) = bind-ok (require (k.has_adapter terms.source && _) _) _ t h1 in
        let (u3, c, h3) = bind-ok (require (is_wait_id id) _) _ t h2 in
        let (u4, d, h4) =
          bind-ok (require (fits k (record { version = 1; value = first })) _) _ t h3 in
        let (e, w) = write_versioned_json-ok k.bytes_of id first 0 s t (created-ok _ t h4) in
        subst (Move k (create_wait id now terms) s) w (
          opened id now terms s (require-ok _ _ u1 a) (require-ok _ _ u3 c) e
            (require-ok _ _ u4 d)))

  cancel-Move :
      (id : String) (now : ℕ) (s : Waits)
      → WhenOk (Move k (cancel_wait id now) s) (cancel k id now s)
  unfolding cancel transition
  cancel-Move id now s =
      mutate-Move (cancel_wait id now) _ s
        (settle_wait-Change (cancel_wait id now) cancelled by_cancel now refl)

  transition-Move :
      (id op : String) (now : ℕ) (s : Waits)
      → WhenOk (Move k (begin_wait id op now) s) (transition k id timed_out deadline_exceeded now s)
  unfolding transition
  transition-Move id op now s =
      mutate-Move (begin_wait id op now) _ s
        (settle_wait-Change (begin_wait id op now) timed_out deadline_exceeded now refl)

  paired-Move :
      (c : WaitCall) (s : Waits) (m : Answer Waits) (b : Bool)
      → WhenOk (Move k c s) m
      → WhenOk (λ (x : Waits × Bool). Move k c s x.0) (m >>= λ t. ok (t, b))
  paired-Move c s (ok t) b h = h
  paired-Move c s (store_failed e) b h = tt
  paired-Move c s (failed e) b h = tt

  begin_pending-Move :
      (id op : String) (now : ℕ) (r : WaitRecord) (s : Waits)
      → WhenOk
          (λ (x : Waits × Bool). Move k (begin_wait id op now) s x.0)
          (begin_pending k id op now r s)
  unfolding begin_pending
  begin_pending-Move id op now r s =
      let P : Answer (Waits × Bool) → Type 0 =
        WhenOk (λ (x : Waits × Bool). Move k (begin_wait id op now) s x.0) in
      if_rule P (is_due now r.terms.deadline_at) _ _
        (λ d. paired-Move (begin_wait id op now) s _ false (transition-Move id op now s))
        (λ d.
          if_rule P (is_dispatched r.reconciliation) _ _ (λ e. tt)
            (λ e.
              if_rule P (is_early now r) _ _ (λ f. stayed (begin_wait id op now) s)
                (λ f.
                  paired-Move (begin_wait id op now) s _ (k.has_adapter r.terms.source)
                    (mutate-Move (begin_wait id op now) _ s (dispatch_pending-Change id op now)))))

  begin_reconcile-Move :
      (id op : String) (now : ℕ) (s : Waits)
      → WhenOk
          (λ (x : Waits × Bool). Move k (begin_wait id op now) s x.0)
          (begin_reconcile k id op now s)
  unfolding begin_reconcile
  begin_reconcile-Move id op now s =
      let P : Waits × Bool → Type 0 = λ x. Move k (begin_wait id op now) s x.0 in
      WhenOk-bind P (read k id s) _ (
        WhenOk-intro _ (read k id s) (λ r h.
          if_rule (WhenOk P) (is_pending r.lifecycle) _ _ (λ p. begin_pending-Move id op now r s)
            (λ p. stayed _ s)))

  end_reconcile-Move :
      (id op : String) (a : Answered) (now : ℕ) (s : Waits)
      → WhenOk (Move k (end_wait id op a now) s) (end_reconcile k id op a now s)
  unfolding end_reconcile
  end_reconcile-Move id op adapter_threw now s = tt
  end_reconcile-Move id op (observed o) now s =
      if_rule (WhenOk (Move k (end_wait id op (observed o) now) s)) (validate_observation o) _ _
        (λ p. mutate-Move (end_wait id op (observed o) now) _ s (complete-Change id op o now))
        (λ p. tt)

after-Move :
    (k : WaitService) (c : WaitCall) (w : World) (m : Answer Waits)
    → WhenOk (Move k c w.waits) m
    → Move k c w.waits (after w m).waits
after-Move k c w (ok t) h = h
after-Move k c w (store_failed e) h = stayed c w.waits
after-Move k c w (failed e) h = stayed c w.waits

after_begin-Move :
    (k : WaitService) (c : WaitCall) (id op : String) (w : World) (m : Answer (Waits × Bool))
    → WhenOk (λ (x : Waits × Bool). Move k c w.waits x.0) m
    → Move k c w.waits (after_begin id op w m).waits
after_begin-Move k c id op w (ok (t, b)) h = h
after_begin-Move k c id op w (store_failed e) h = stayed c w.waits
after_begin-Move k c id op w (failed e) h = stayed c w.waits

pub step-Move : (k : WaitService) (c : WaitCall) (w : World) → Move k c w.waits (step k c w).waits
unfolding step
step-Move k (create_wait id now terms) w = after-Move k _ w _ (create-Move k id now terms w.waits)
step-Move k (cancel_wait id now) w = after-Move k _ w _ (cancel-Move k id now w.waits)
step-Move k (begin_wait id op now) w =
    after_begin-Move k _ id op w _ (begin_reconcile-Move k id op now w.waits)
step-Move k (end_wait id op a now) w = after-Move k _ w _ (end_reconcile-Move k id op a now w.waits)
