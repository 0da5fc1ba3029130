-- ===== src/Admission.antt =====
-- src/provider-admission.ts: the data of the admission controller. Milliseconds are natural
-- numbers; a token is a number into `Tokens`, so that a queue entry, a scope and a caller share
-- one object, as in the source.
pub mod Scheduler
pub mod Persist
pub mod Reserve
pub mod Release
pub mod Restore
pub mod Keys
pub mod Wrap
pub mod Counts
pub mod Tally
pub mod Served
pub mod Bounds
pub mod Cooldown
pub mod Recovery
pub mod Durable
pub mod Crash
pub mod Permits
pub mod Once
pub mod Scopes
use ad_coder.Prelude.{
  ℕ, ◌==◌, String, Bool, true, false, Option, none, List, [], ◌∷◌, if◌then◌else◌,
}

-- `ADMISSION_PRIORITY_CLASSES`
pub data Priority : Type 0 where
  interactive background title : Priority

abbrev pub same_priority : Priority → Priority → Bool
same_priority interactive interactive = true
same_priority background background = true
same_priority title title = true
same_priority _ _ = false

abbrev pub admission_priority_classes : List Priority
admission_priority_classes = interactive ∷ background ∷ title ∷ []

pub record Config : Type 0 where
  pub max_concurrent_per_scope : ℕ
  pub queue_capacity_per_scope : ℕ
  pub max_wait_ms : ℕ
  pub priority_classes : List Priority
  pub retry_delay_ms : ℕ
  pub cooldown_max_ms : ℕ

-- What the class `ProviderLimitError` carries of a provider's answer.
pub record ProviderLimit : Type 0 where
  pub retry_after_ms : Option ℕ

pub data TokenState : Type 0 where
  admitted queued cancelled settled uncertain : TokenState

-- `waiters` counts the pending resolvers of `wait`.
pub record Token : Type 0 where
  pub scope_label : String
  pub scope_key : String
  pub priority : Priority
  pub state : TokenState
  pub is_uncertain : Bool
  pub released : Bool
  pub is_settled : Bool
  pub unowned : Bool
  pub limit_error : Option ProviderLimit
  pub has_controller : Bool
  pub waiters : ℕ

-- `new AdmissionToken(scopeLabel, scopeKey, priority)`
abbrev pub new_token : String → String → Priority → Token
new_token label key p = record {
  scope_label = label;
  scope_key = key;
  priority = p;
  state = queued;
  is_uncertain = false;
  released = false;
  is_settled = false;
  unowned = false;
  limit_error = none;
  has_controller = false;
  waiters = 0;
}

abbrev pub Tokens : Type 0
Tokens = ℕ → Token

abbrev pub put : ℕ → Token → Tokens → Tokens
put i t ts j = if j == i then t else ts j

pub record QueueEntry : Type 0 where
  pub priority : Priority
  pub enqueued_at : ℕ
  pub token : ℕ

pub record ScopeRuntime : Type 0 where
  pub concurrent : ℕ
  pub cooldown_until : Option ℕ
  pub queue : List QueueEntry
  pub in_flight_token : Option ℕ

abbrev pub empty_scope : ScopeRuntime
empty_scope = record { concurrent = 0; cooldown_until = none; queue = []; in_flight_token = none }

-- `ProviderAdmissionSnapshot`: what the store holds.
pub record SavedEntry : Type 0 where
  pub priority : Priority
  pub enqueued_at : ℕ

pub record SavedScope : Type 0 where
  pub concurrent : ℕ
  pub queue : List SavedEntry
  pub cooldown_until : Option ℕ
  pub in_flight : Bool

pub record Snapshot : Type 0 where
  pub version : ℕ
  pub scopes : List (String × SavedScope)

-- `store` is `none` where the controller has no store, and else what was last saved in it.
pub record Controller : Type 0 where
  pub config : Config
  pub scopes : List (String × ScopeRuntime)
  pub restored : Bool
  pub store : Option (Option Snapshot)
  pub tokens : Tokens
  pub next_token : ℕ
