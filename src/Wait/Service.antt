-- ===== src/Wait/Service.antt =====
-- src/orchestration/wait-service.ts: the operations of `WaitService`. The size of a written record,
-- the adapters' checks, random ids and the clock are parameters; what an adapter's `reconcile` answers
-- is an argument of the part of `reconcile` that follows it.
use ad_coder.Prelude.{
  ℕ, ◌+◌, ltb, leb, String, Bool, false, ◌&&◌, Option, none, some, List, [], ◌∷◌, if◌then◌else◌,
  take,
}
use ad_coder.Versioned.{
  VersionedState, ok, failed, ◌>>=◌, read_versioned_json, write_versioned_json,
  mutate_versioned_json,
}
use ad_coder.Wait.{
  WaitLifecycle, pending, cancelled, timed_out, WaitEvidenceCode, deadline_exceeded, by_cancel,
  WaitTerms, WaitEvent, WaitRecord, invalid_request, invalid_adapter, unknown_wait, not_pending,
  state_too_large, reconcile_uncertain, is_pending, is_wait_id, validate_input, validate_shape,
}
use ad_coder.Wait.Records.{
  Answer, Answered, WaitObservation, WaitService, Waits, adapter_threw, append, created, found,
  initial, is_dispatched, is_due, is_early, observed, require, same_lifecycle, same_operation,
  validate_observation,
}

module _ (k : WaitService) where
  -- `assertRecordSize`
  abbrev pub fits : VersionedState WaitRecord → Bool
  fits v = leb (k.bytes_of v) k.limits.max_persisted_state_bytes

  unfoldable pub checked : VersionedState WaitRecord → Answer WaitRecord
  unfolding validate_shape
  checked v = do
    _ ← require (ltb 0 v.version && validate_shape k.limits v.value) invalid_request
    _ ← require (fits v) state_too_large
    ok v.value

  unfoldable pub create : String → ℕ → WaitTerms → Waits → Answer Waits
  unfolding validate_input is_wait_id append write_versioned_json
  create id now terms s = do
    _ ← require (validate_input k.limits terms) invalid_request
    _ ←
        require (k.has_adapter terms.source && k.accepts terms.source terms.condition)
          invalid_adapter
    _ ← require (is_wait_id id) invalid_request
    let first = append k.limits pending now none (initial id now terms)
    _ ← require (fits (record { version = 1; value = first })) state_too_large
    created (write_versioned_json k.bytes_of id first (some 0) s)

  unfoldable pub read : String → Waits → Answer WaitRecord
  unfolding is_wait_id read_versioned_json checked
  read id s = do
    _ ← require (is_wait_id id) invalid_request
    v ← found (read_versioned_json id s)
    checked v

  unfoldable pub current : Option (VersionedState WaitRecord) → Answer WaitRecord
  unfolding checked
  current none = failed unknown_wait
  current (some v) = checked v

  abbrev pub next_version : Option (VersionedState WaitRecord) → ℕ
  next_version none = 1
  next_version (some v) = v.version + 1

  -- The record that a mutation makes, under the ceiling of its written size.
  unfoldable pub sized_mutation :
      (WaitRecord → Answer WaitRecord) → Option (VersionedState WaitRecord) → Answer WaitRecord
  unfolding current
  sized_mutation change v = do
    r ← current v
    next ← change r
    _ ← require (fits (record { version = next_version v; value = next })) state_too_large
    ok next

  unfoldable pub mutate : String → (WaitRecord → Answer WaitRecord) → Waits → Answer Waits
  unfolding sized_mutation mutate_versioned_json
  mutate id change s = mutate_versioned_json k.bytes_of id (sized_mutation change) s

  unfoldable pub settle_wait : WaitLifecycle → WaitEvidenceCode → ℕ → WaitRecord → Answer WaitRecord
  unfolding append
  settle_wait l code now r =
      if is_pending r.lifecycle
      then ok (append k.limits l now (some code) r)
      else if same_lifecycle r.lifecycle l
      then ok r
      else failed not_pending

  unfoldable pub transition : String → WaitLifecycle → WaitEvidenceCode → ℕ → Waits → Answer Waits
  unfolding mutate settle_wait
  transition id l code now s = mutate id (settle_wait l code now) s

  unfoldable pub cancel : String → ℕ → Waits → Answer Waits
  unfolding transition
  cancel id now s = transition id cancelled by_cancel now s

  -- The checkpoint that `reconcile` writes before it calls the adapter.
  unfoldable pub dispatch : String → ℕ → WaitRecord → Answer WaitRecord
  dispatch op now r =
      if is_dispatched r.reconciliation
      then failed reconcile_uncertain
      else ok (record r {
        updated_at = now;
        reconciliation = some (record { operation_id = op; dispatched_at = now });
      })

  unfoldable pub dispatch_pending : String → ℕ → WaitRecord → Answer WaitRecord
  unfolding dispatch
  dispatch_pending op now r =
      if is_pending r.lifecycle then dispatch op now r else failed not_pending

  -- `reconcile` up to its call of the adapter, with what was read: the states, and whether the
  -- adapter is called.
  unfoldable pub begin_pending : String → String → ℕ → WaitRecord → Waits → Answer (Waits × Bool)
  unfolding transition mutate dispatch_pending
  begin_pending id op now r s =
      if is_due now r.terms.deadline_at
      then (transition id timed_out deadline_exceeded now s >>= λ t. ok (t, false))
      else if is_dispatched r.reconciliation
      then failed reconcile_uncertain
      else if is_early now r
      then ok (s, false)
      else (mutate id (dispatch_pending op now) s >>= λ t. ok (t, k.has_adapter r.terms.source))

  unfoldable pub begin_reconcile : String → String → ℕ → Waits → Answer (Waits × Bool)
  unfolding read begin_pending
  begin_reconcile id op now s = do
    r ← read id s
    if is_pending r.lifecycle then begin_pending id op now r s else ok (s, false)

  unfoldable pub observe : WaitObservation → ℕ → WaitRecord → WaitRecord
  unfolding append
  observe o now r =
      if is_pending o.lifecycle then r else append k.limits o.lifecycle now o.evidence r

  unfoldable pub complete : String → WaitObservation → ℕ → WaitRecord → Answer WaitRecord
  unfolding observe
  complete op o now r =
      if same_operation op r.reconciliation && is_pending r.lifecycle
      then ok (observe o now (record r { updated_at = now; reconciliation = none }))
      else failed reconcile_uncertain

  -- `reconcile` after its call of the adapter.
  unfoldable pub end_reconcile : String → String → Answered → ℕ → Waits → Answer Waits
  unfolding validate_observation mutate complete
  end_reconcile id op adapter_threw now s = failed reconcile_uncertain
  end_reconcile id op (observed o) now s =
      if validate_observation o then mutate id (complete op o now) s else failed invalid_adapter

pub record WaitEventPage : Type 0 where
  pub events : List WaitEvent
  pub next_cursor : ℕ
  pub gap : Bool

abbrev pub first_sequence : List WaitEvent → ℕ → ℕ
first_sequence [] n = n
first_sequence (e ∷ es) n = e.sequence

abbrev pub last_sequence : List WaitEvent → ℕ → ℕ
last_sequence [] n = n
last_sequence (e ∷ es) n = last_sequence es e.sequence

unfoldable pub after_cursor : ℕ → List WaitEvent → List WaitEvent
after_cursor cursor [] = []
after_cursor cursor (e ∷ es) =
    if ltb cursor e.sequence then e ∷ after_cursor cursor es else after_cursor cursor es

-- `events`, for a record that was read, a cursor from 0 and a positive limit.
unfoldable pub events_page : ℕ → ℕ → WaitRecord → WaitEventPage
unfolding after_cursor
events_page cursor limit r =
    let page = take limit (after_cursor cursor r.events) in
    record {
      events = page;
      next_cursor = last_sequence page cursor;
      gap = ltb 0 cursor && ltb (cursor + 1) (first_sequence r.events r.next_sequence);
    }
