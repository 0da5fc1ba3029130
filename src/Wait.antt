-- ===== src/Wait.antt =====
-- src/orchestration/wait-service.ts: durable waits. `Wait` has the data and its checks, `Wait/Records` and `Wait/Service`
-- the operations. The types rule out the objects with foreign keys, which `plainObject` refuses; a
-- number that is no safe integer from 0 is `unsafe`.
pub mod Records
pub mod Service
pub mod History
pub mod Changes
pub mod Moves
pub mod Shape
pub mod Valid
pub mod Once
pub mod Kept
pub mod Replay
use ad_coder.Prelude.{
  ℕ, zero, suc, ◌+◌, ◌==◌, ltb, leb, String, Bool, true, false, not, ◌&&◌, ◌||◌, Option, none, some,
  List, [], ◌∷◌, ◌++◌, if◌then◌else◌, all, length, codes, is_letter, is_digit, str_eq, within,
}

pub data WaitLifecycle : Type 0 where
  pending satisfied unsuccessful unavailable timed_out stalled cancelled : WaitLifecycle

pub data WaitEvidenceCode : Type 0 where
  condition_met condition_failed source_unavailable deadline_exceeded : WaitEvidenceCode
  source_stalled by_cancel uncertain : WaitEvidenceCode

pub record WaitEvidence : Type 0 where
  pub code : WaitEvidenceCode
  pub at : ℕ

pub record WaitTarget : Type 0 where
  pub kind : String
  pub id : String

pub data Field : Type 0 where
  absent unsafe : Field
  number : ℕ → Field

pub record WaitCondition : Type 0 where
  pub kind : String
  pub at : Field

pub record WaitSource : Type 0 where
  pub adapter : String
  pub version : Field
  pub target : WaitTarget

pub data OwnerKind : Type 0 where
  by_run by_session by_operator : OwnerKind

pub record WaitOwner : Type 0 where
  pub kind : OwnerKind
  pub id : String

pub data WaitDelivery : Type 0 where
  events poll : WaitDelivery

pub record WaitPolicy : Type 0 where
  pub delivery : WaitDelivery
  pub poll_interval_ms : Field

pub data WaitRecoveryAction : Type 0 where
  inspect retry replace : WaitRecoveryAction

-- What a request and a record share.
pub record WaitTerms : Type 0 where
  pub source : WaitSource
  pub condition : WaitCondition
  pub owner : WaitOwner
  pub policy : WaitPolicy
  pub deadline_at : Field
  pub recovery : WaitRecoveryAction

pub record WaitEvent : Type 0 where
  pub sequence : ℕ
  pub wait_id : String
  pub lifecycle : WaitLifecycle
  pub timestamp : ℕ
  pub evidence : Option WaitEvidence

-- `reconciliation`
pub record Dispatch : Type 0 where
  pub operation_id : String
  pub dispatched_at : ℕ

pub record WaitRecord : Type 0 where
  pub id : String
  pub lifecycle : WaitLifecycle
  pub terms : WaitTerms
  pub created_at : ℕ
  pub updated_at : ℕ
  pub next_sequence : ℕ
  pub events : List WaitEvent
  pub evidence : List WaitEvidence
  pub reconciliation : Option Dispatch

pub record WaitServiceLimits : Type 0 where
  pub max_events_per_wait : ℕ
  pub max_evidence_entries : ℕ
  pub max_persisted_state_bytes : ℕ
  pub min_poll_interval_ms : ℕ

pub data WaitError : Type 0 where
  invalid_request invalid_adapter unknown_wait already_exists not_pending : WaitError
  state_too_large reconcile_uncertain : WaitError

-- `TERMINAL.has`
abbrev pub is_pending : WaitLifecycle → Bool
is_pending pending = true
is_pending _ = false

abbrev sized : ℕ → List ℕ → Bool
sized n s = within 1 n (length s)

abbrev id_char : ℕ → Bool
id_char c = is_letter c || is_digit c || c == b'.' || c == b'_' || c == b':' || c == b'-'

abbrev wait_id_char : ℕ → Bool
wait_id_char c = is_letter c || is_digit c || c == b'_' || c == b'-'

abbrev kind_char : ℕ → Bool
kind_char c = is_letter c || is_digit c || c == b'_' || c == b'.' || c == b'-'

-- `SAFE_ID`
unfoldable pub is_safe_id : String → Bool
unfolding codes
is_safe_id s = sized 128 (codes s) && all id_char (codes s)

-- `WAIT_ID`
unfoldable pub is_wait_id : String → Bool
unfolding codes
is_wait_id s = sized 64 (codes s) && all wait_id_char (codes s)

abbrev kind_text : List ℕ → Bool
kind_text [] = false
kind_text (c ∷ s) = is_letter c && all kind_char s && leb (length s) 63

-- `SAFE_KIND`
unfoldable pub is_safe_kind : String → Bool
unfolding codes
is_safe_kind s = kind_text (codes s)

abbrev is_positive : Field → Bool
is_positive (number (suc n)) = true
is_positive _ = false

abbrev is_safe : Field → Bool
is_safe unsafe = false
is_safe _ = true

unfoldable pub validate_source : WaitSource → Bool
unfolding is_safe_id is_safe_kind
validate_source s =
    is_safe_id s.adapter
    && is_positive s.version
    && is_safe_kind s.target.kind
    && is_safe_id s.target.id

abbrev interval_allowed : ℕ → Field → Bool
interval_allowed least (number n) = leb least n
interval_allowed least _ = false

abbrev is_absent : Field → Bool
is_absent absent = true
is_absent _ = false

abbrev policy_allowed : ℕ → WaitDelivery → Field → Bool
policy_allowed least poll f = interval_allowed least f
policy_allowed least events f = is_absent f

unfoldable pub validate_input : WaitServiceLimits → WaitTerms → Bool
unfolding validate_source is_safe_kind is_safe_id
validate_input l t =
    validate_source t.source
    && is_safe_kind t.condition.kind
    && is_safe t.condition.at
    && is_safe_id t.owner.id
    && policy_allowed l.min_poll_interval_ms t.policy.delivery t.policy.poll_interval_ms
    && (is_absent t.deadline_at || is_positive t.deadline_at)

-- The events of a record: sequences that increase, from above `previous` and below `next`.
unfoldable pub validate_events : String → ℕ → ℕ → List WaitEvent → Bool
validate_events id next previous [] = true
validate_events id next previous (e ∷ es) =
    ltb previous e.sequence
    && ltb e.sequence next
    && str_eq e.wait_id id
    && validate_events id next e.sequence es

unfoldable pub dispatch_allowed : Option Dispatch → Bool
unfolding is_safe_id
dispatch_allowed none = true
dispatch_allowed (some d) = is_safe_id d.operation_id

-- `validateRecord`, but for the size of the record.
unfoldable pub validate_shape : WaitServiceLimits → WaitRecord → Bool
unfolding is_wait_id validate_input validate_events dispatch_allowed
validate_shape l r =
    is_wait_id r.id
    && validate_input l r.terms
    && ltb 0 r.next_sequence
    && leb (length r.events) l.max_events_per_wait
    && leb (length r.evidence) l.max_evidence_entries
    && validate_events r.id r.next_sequence 0 r.events
    && dispatch_allowed r.reconciliation
