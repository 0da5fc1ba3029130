-- ===== src/Control/Start.antt =====
-- src/orchestration/control-plane.ts, `start` over the stored records: it holds the lock of the index
-- from its read to its write, with the write of the new record in between.
use ad_coder.Prelude.{
  ℕ, ◌+◌, ◌==◌, ltb, leb, String, Bool, true, false, not, ◌&&◌, ◌||◌, Option, none, some, List, [],
  ◌∷◌, ◌++◌, all, length, if◌then◌else◌, lookup, insert, str_eq, codes, within, is_letter, is_digit,
}
use ad_coder.Versioned.{
  VersionedState, Files, Stored, ok, store_failed, failed, write_versioned_json, write_next,
  version_of,
}
use ad_coder.Control.{
  RunMode, auto, manual, queued, RunScope, DurableRunRecord, ControlPlaneConfig, BudgetDecision,
  PlaneError, invalid_config, resource_limit_reached, Texts,
}
use ad_coder.Control.Scopes.{normalized_scope}
use ad_coder.Control.Records.{is_queued, is_active, Tried, done, raised, ◌>>=◌, require}
use ad_coder.Control.Plane.{ControlPlaneIndex, Held, Runs, World, plane_error, read}
use ad_coder.Control.Children.{Answers}

-- `has_resolver`: the host has `resolveAutoDecision`.
pub record StartRunInput : Type 0 where
  pub request_key : String
  pub task : String
  pub mode : RunMode
  pub scope : RunScope
  pub budget : Option BudgetDecision
  pub has_resolver : Bool

abbrev pub index_path : String
index_path = "control-index"

abbrev pub key_char : ℕ → Bool
key_char c = is_letter c || is_digit c || c == b'_' || c == b'-'

unfoldable pub is_request_key : String → Bool
unfolding codes
is_request_key s = within 1 64 (length (codes s)) && all key_char (codes s)

abbrev pub mode_allowed : RunMode → Bool → Bool
mode_allowed manual resolver = true
mode_allowed auto resolver = resolver

abbrev pub index_of : Option (VersionedState ControlPlaneIndex) → ControlPlaneIndex
index_of none = record { requests = []; root_ids = [] }
index_of (some v) = v.value

unfoldable pub with_request : String → String → ControlPlaneIndex → ControlPlaneIndex
unfolding insert
with_request key id i = record {
  requests = insert key id i.requests;
  root_ids = i.root_ids ++ (id ∷ []);
}

-- The roots that the index names, all of which must be readable.
unfoldable pub read_roots : List String → Runs → Tried (List DurableRunRecord)
unfolding read
read_roots [] s = done []
read_roots (id ∷ ids) s =
    let rest = read_roots ids s in read id s >>= λ v. rest >>= λ rs. done (v.value ∷ rs)

abbrev pub count_queued : List DurableRunRecord → ℕ
count_queued [] = 0
count_queued (r ∷ rs) = (if is_queued r.status then 1 else 0) + count_queued rs

abbrev pub count_active : List DurableRunRecord → ℕ
count_active [] = 0
count_active (r ∷ rs) = (if is_active r.status then 1 else 0) + count_active rs

module _ (t : Texts) (c : ControlPlaneConfig) where
  unfoldable pub valid_input : StartRunInput → Tried Bool
  unfolding is_request_key
  valid_input i = do
    _ ← require (is_request_key i.request_key) invalid_config
    _ ← require (not (str_eq (t.trim i.task) "")) invalid_config
    require (mode_allowed i.mode i.has_resolver) invalid_config

  -- Room among the queued and the active roots.
  abbrev pub has_room : List DurableRunRecord → Tried Bool
  has_room roots = do
    _ ←
        require
          (not (ltb 0 c.max_queued_root_runs && leb c.max_queued_root_runs (count_queued roots)))
          resource_limit_reached
    require (not (ltb 0 c.max_active_root_runs && leb c.max_active_root_runs (count_active roots)))
        resource_limit_reached

  unfoldable pub root_record : Answers → StartRunInput → DurableRunRecord
  unfolding normalized_scope
  root_record a i = record {
    id = a.new_id;
    request_key = i.request_key;
    task = t.redact i.task;
    mode = i.mode;
    status = queued;
    depth = 0;
    root_run_id = a.new_id;
    parent_run_id = none;
    child_run_ids = [];
    remaining_children = [];
    scope = normalized_scope t i.scope;
    decisions = [];
    created_at = a.now;
    updated_at = a.now;
    cancel_requested = false;
    provider_turn_in_flight = false;
    execution_lease = none;
    authorization_decision_id = none;
    event_sequence = 0;
    events = [];
    result = none;
    external_limit = none;
    failure_code = none;
    breakpoint = none;
    session_limit_snapshot = none;
    automatic_retry_attempts = 0;
    budget_decision = i.budget;
  }

  module _ (bytes_of : Held → ℕ) (index_bytes : VersionedState ControlPlaneIndex → ℕ) where
    abbrev pub index_written :
        DurableRunRecord
        → World
        → Stored PlaneError (Files ControlPlaneIndex)
        → World × Tried DurableRunRecord
    index_written r w (ok s) = (record w { index = s }, done r)
    index_written r w (store_failed e) = (w, raised (plane_error e))
    index_written r w (failed e) = (w, raised e)

    -- The write of the index, at the end of its mutation.
    unfoldable pub put_index :
        ControlPlaneIndex → DurableRunRecord → World → World × Tried DurableRunRecord
    unfolding write_next lookup
    put_index i r w =
        let n = version_of (lookup index_path w.index.states) in
        index_written r w
          (write_next index_bytes index_path (record { version = n + 1; value = i }) w.index)

    unfoldable pub known_request :
        ControlPlaneIndex → World → Tried Held → World × Tried DurableRunRecord
    unfolding put_index
    known_request i w (done v) = put_index i v.value w
    known_request i w (raised e) = (w, raised e)

    unfoldable pub root_written :
        Answers
        → StartRunInput
        → ControlPlaneIndex
        → World
        → Stored PlaneError Runs
        → World × Tried DurableRunRecord
    unfolding put_index root_record with_request
    root_written a i index w (ok s) =
        put_index (with_request i.request_key a.new_id index) (root_record a i)
          (record w { runs = s })
    root_written a i index w (store_failed e) = (w, raised (plane_error e))
    root_written a i index w (failed e) = (w, raised e)

    -- The new record; an id that is taken ends in `checkpoint_conflict`.
    unfoldable pub admit_root :
        Answers → StartRunInput → ControlPlaneIndex → World → World × Tried DurableRunRecord
    unfolding root_written root_record write_versioned_json
    admit_root a i index w =
        root_written a i index w
          (write_versioned_json bytes_of a.new_id (root_record a i) (some 0) w.runs)

    unfoldable pub admit_checked :
        Tried Bool
        → Answers
        → StartRunInput
        → ControlPlaneIndex
        → World
        → World × Tried DurableRunRecord
    unfolding admit_root
    admit_checked (done b) a i index w = admit_root a i index w
    admit_checked (raised e) a i index w = (w, raised e)

    unfoldable pub start_in :
        Answers
        → StartRunInput
        → ControlPlaneIndex
        → World
        → Option String
        → World × Tried DurableRunRecord
    unfolding known_request admit_checked read read_roots
    start_in a i index w (some id) = known_request index w (read id w.runs)
    start_in a i index w none =
        admit_checked (read_roots index.root_ids w.runs >>= has_room) a i index w

    unfoldable pub start_checked :
        Tried Bool
        → Answers
        → StartRunInput
        → ControlPlaneIndex
        → World
        → World × Tried DurableRunRecord
    unfolding start_in lookup
    start_checked (done b) a i index w = start_in a i index w (lookup i.request_key index.requests)
    start_checked (raised e) a i index w = (w, raised e)

    unfoldable pub start : Answers → StartRunInput → World → World × Tried DurableRunRecord
    unfolding start_checked valid_input lookup
    start a i w = start_checked (valid_input i) a i (index_of (lookup index_path w.index.states)) w
