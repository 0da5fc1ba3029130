-- ===== src/Wait/Changes.antt =====
-- What one call of the service can do to a record.
use ad_coder.Prelude.{
  ℕ, ◌+◌, ◌≡◌, refl, subst, ltb, String, Bool, true, false, ◌&&◌, Option, none, some, lookup, arith,
}
use ad_coder.Versioned.{VersionedState, ok, version_of, put_state, bind-ok}
use ad_coder.Wait.{
  WaitLifecycle, pending, WaitEvidenceCode, WaitTerms, WaitRecord, WaitError, is_pending,
  is_wait_id, validate_input, validate_shape,
}
use ad_coder.Wait.Service.{fits, checked, current, sized_mutation, observe}
use ad_coder.Wait.Records.{
  Waits, Answer, WaitService, WaitObservation, observed, append, initial, same_operation, require,
}
use ad_coder.Wait.History.{WaitCall, create_wait, cancel_wait, begin_wait, end_wait}

-- What a call changes in a record.
pub data Change (k : WaitService) : WaitCall → WaitRecord → WaitRecord → Type 0 where
  kept : (c : WaitCall) (r : WaitRecord) → Change k c r r
  closed :
      (c : WaitCall) (r : WaitRecord) (l : WaitLifecycle) (e : WaitEvidenceCode) (now : ℕ)
      → is_pending r.lifecycle ≡ true
      → is_pending l ≡ false
      → Change k c r (append k.limits l now (some e) r)
  sent :
      (id op : String) (now : ℕ) (r : WaitRecord)
      → is_pending r.lifecycle ≡ true
      → r.reconciliation ≡ none
      → Change k (begin_wait id op now) r (record r {
        updated_at = now;
        reconciliation = some (record { operation_id = op; dispatched_at = now });
      })
  answered :
      (id op : String) (o : WaitObservation) (now : ℕ) (r : WaitRecord)
      → is_pending r.lifecycle ≡ true
      → same_operation op r.reconciliation ≡ true
      → Change k
          (end_wait id op (observed o) now)
          r
          (observe k o now (record r { updated_at = now; reconciliation = none }))

abbrev pub target : WaitCall → String
target (create_wait id now terms) = id
target (cancel_wait id now) = id
target (begin_wait id op now) = id
target (end_wait id op a now) = id

-- What a call changes in the states: nothing, a new record, or the record that it names.
pub data Move (k : WaitService) : WaitCall → Waits → Waits → Type 0 where
  stayed : (c : WaitCall) (s : Waits) → Move k c s s
  opened :
      (id : String) (now : ℕ) (terms : WaitTerms) (s : Waits)
      → validate_input k.limits terms ≡ true
      → is_wait_id id ≡ true
      → version_of (lookup id s.states) ≡ 0
      → fits k
          (record { version = 1; value = append k.limits pending now none (initial id now terms) })
        ≡ true
      → Move k (create_wait id now terms) s (
          put_state id
            (record {
              version = 1;
              value = append k.limits pending now none (initial id now terms);
            })
            s)
  changed :
      (c : WaitCall) (s : Waits) (v : VersionedState WaitRecord) (r : WaitRecord)
      → lookup (target c) s.states ≡ some v
      → (ltb 0 v.version && validate_shape k.limits v.value) ≡ true
      → Change k c v.value r
      → fits k (record { version = v.version + 1; value = r }) ≡ true
      → Move k c s (put_state (target c) (record { version = v.version + 1; value = r }) s)

pub require-ok : (b : Bool) (e : WaitError) (u : Unit {0}) → require b e ≡ ok u → b ≡ true
require-ok true e u h = refl
require-ok false e u h = cc

module _ (k : WaitService) where
  pub checked-ok :
      (v : VersionedState WaitRecord) (r : WaitRecord)
      → checked k v ≡ ok r
      → ((ltb 0 v.version && validate_shape k.limits v.value) ≡ true)
        × (fits k v ≡ true)
        × (v.value ≡ r)
  unfolding checked
  checked-ok v r h =
      let (u, a, h1) =
        bind-ok (require (ltb 0 v.version && validate_shape k.limits v.value) _) _ r h in
      let (u2, b, h2) = bind-ok (require (fits k v) _) _ r h1 in
      (require-ok _ _ u a, require-ok _ _ u2 b, ground arith)

  pub sized_mutation-ok :
      (change : WaitRecord → Answer WaitRecord) (o : Option (VersionedState WaitRecord))
      (r : WaitRecord)
      → sized_mutation k change o ≡ ok r
      → (v : VersionedState WaitRecord) × (o ≡ some v)
        × ((ltb 0 v.version && validate_shape k.limits v.value) ≡ true)
        × (change v.value ≡ ok r)
        × (fits k (record { version = v.version + 1; value = r }) ≡ true)
  unfolding sized_mutation current
  sized_mutation-ok change none r h = cc
  sized_mutation-ok change (some v) r h =
      let (old, a, h1) = bind-ok (checked k v) _ r h in
      let (next, b, h2) = bind-ok (change old) _ r h1 in
      let (u, c, h3) =
        bind-ok (require (fits k (record { version = v.version + 1; value = next })) _) _ r h2 in
      let (good, small, same) = checked-ok v old a in
      let e : next ≡ r = cc in
      (
        v,
        refl,
        good,
        cc,
        subst (λ x. fits k (record { version = v.version + 1; value = x }) ≡ true) e
            (require-ok _ _ u c),
      )
