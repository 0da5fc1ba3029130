-- ===== src/Wait/Records.antt =====
-- src/orchestration/wait-service.ts: what the service makes of a record, and its collaborators.
use ad_coder.Prelude.{
  ℕ, ◌+◌, ltb, leb, String, Bool, true, false, ◌&&◌, Option, none, some, List, [], ◌∷◌, ◌++◌,
  if◌then◌else◌, length, str_eq,
}
use ad_coder.Versioned.{
  VersionedState, Files, Stored, ok, store_failed, failed, not_found, version_conflict,
}
use ad_coder.Wait.{
  WaitLifecycle, pending, cancelled, timed_out, WaitEvidenceCode, by_cancel, uncertain,
  WaitEvidence, Field, number, poll, WaitSource, WaitCondition, WaitTerms, WaitEvent, Dispatch,
  WaitRecord, WaitServiceLimits, WaitError, unknown_wait, already_exists,
}

abbrev pub Waits : Type 0
Waits = Files WaitRecord

abbrev pub Answer {ℓ} : Type ℓ → Type ℓ
Answer A = Stored WaitError A

-- The loops that shift entries off the front.
unfoldable pub keep_last {ℓ} : {A : Type ℓ} → ℕ → List A → List A
keep_last max [] = []
keep_last max (x ∷ xs) =
    let rest = keep_last max xs in if ltb max (length (x ∷ xs)) then rest else x ∷ xs

abbrev pub evidence_of : Option WaitEvidenceCode → ℕ → Option WaitEvidence
evidence_of none t = none
evidence_of (some c) t = some (record { code = c; at = t })

abbrev pub add_evidence : Option WaitEvidence → List WaitEvidence → List WaitEvidence
add_evidence none es = es
add_evidence (some e) es = es ++ (e ∷ [])

abbrev pub event_of : WaitRecord → WaitLifecycle → ℕ → Option WaitEvidence → WaitEvent
event_of r l t e = record {
  sequence = r.next_sequence;
  wait_id = r.id;
  lifecycle = l;
  timestamp = t;
  evidence = e;
}

unfoldable pub append :
    WaitServiceLimits → WaitLifecycle → ℕ → Option WaitEvidenceCode → WaitRecord → WaitRecord
unfolding keep_last
append m l t code r = record r {
  lifecycle = l;
  updated_at = t;
  events = keep_last m.max_events_per_wait (r.events ++ (event_of r l t (evidence_of code t) ∷ []));
  next_sequence = r.next_sequence + 1;
  evidence = keep_last m.max_evidence_entries (add_evidence (evidence_of code t) r.evidence);
}

abbrev pub initial : String → ℕ → WaitTerms → WaitRecord
initial id t terms = record {
  id = id;
  lifecycle = pending;
  terms = terms;
  created_at = t;
  updated_at = t;
  next_sequence = 1;
  events = [];
  evidence = [];
  reconciliation = none;
}

-- `record.deadlineAt !== undefined && timestamp >= record.deadlineAt`
abbrev pub is_due : ℕ → Field → Bool
is_due now (number d) = leb d now
is_due now _ = false

abbrev pub interval_of : Field → ℕ
interval_of (number n) = n
interval_of _ = 0

abbrev pub is_early : ℕ → WaitRecord → Bool
is_early now r = elim r.terms.policy.delivery [
  | poll ↦ ltb now (r.updated_at + interval_of r.terms.policy.poll_interval_ms)
  | _ ↦ false
]

pub record WaitObservation : Type 0 where
  pub lifecycle : WaitLifecycle
  pub evidence : Option WaitEvidenceCode

abbrev observed_lifecycle : WaitLifecycle → Bool
observed_lifecycle cancelled = false
observed_lifecycle _ = true

abbrev observed_evidence : Option WaitEvidenceCode → Bool
observed_evidence (some by_cancel) = false
observed_evidence (some uncertain) = false
observed_evidence _ = true

unfoldable pub validate_observation : WaitObservation → Bool
validate_observation o = observed_lifecycle o.lifecycle && observed_evidence o.evidence

-- What the adapter's `reconcile` does: it throws, or it answers.
pub data Answered : Type 0 where
  adapter_threw : Answered
  observed : WaitObservation → Answered

-- `reconciliation !== undefined`
abbrev pub is_dispatched : Option Dispatch → Bool
is_dispatched none = false
is_dispatched (some d) = true

abbrev pub same_operation : String → Option Dispatch → Bool
same_operation op none = false
same_operation op (some d) = str_eq d.operation_id op

abbrev pub same_lifecycle : WaitLifecycle → WaitLifecycle → Bool
same_lifecycle pending pending = true
same_lifecycle WaitLifecycle.satisfied WaitLifecycle.satisfied = true
same_lifecycle WaitLifecycle.unsuccessful WaitLifecycle.unsuccessful = true
same_lifecycle WaitLifecycle.unavailable WaitLifecycle.unavailable = true
same_lifecycle timed_out timed_out = true
same_lifecycle WaitLifecycle.stalled WaitLifecycle.stalled = true
same_lifecycle cancelled cancelled = true
same_lifecycle _ _ = false

-- `Conflict` of the store at the creation is `already_exists`.
abbrev pub created : Answer Waits → Answer Waits
created (store_failed version_conflict) = failed already_exists
created m = m

abbrev pub found : Answer (VersionedState WaitRecord) → Answer (VersionedState WaitRecord)
found (store_failed not_found) = failed unknown_wait
found m = m

-- The collaborators of the service: its limits, the size of a written state, the registry, and
-- whether the adapter accepts the condition.
pub record WaitService : Type 0 where
  pub limits : WaitServiceLimits
  pub bytes_of : VersionedState WaitRecord → ℕ
  pub has_adapter : WaitSource → Bool
  pub accepts : WaitSource → WaitCondition → Bool

abbrev pub require : Bool → WaitError → Answer (Unit {0})
require true e = ok tt
require false e = failed e
