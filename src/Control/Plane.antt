-- ===== src/Control/Plane.antt =====
-- src/orchestration/control-plane.ts: the operations of `OrchestratorControlPlane` over the stored
-- records. A call that waits is a task of the list, with the calls that wait for it; the code between
-- two waits is one step. A record is stored under its id. The size of a written state is a parameter.
use ad_coder.Prelude.{ℕ, ◌+◌, String, Option, none, some, List, [], ◌∷◌, lookup}
use ad_coder.Limits.{Controller, snapshot}
use ad_coder.Retry.{Coordinator}
use ad_coder.Versioned.{
  VersionedState, Files, StoreError, not_found, version_conflict, resource_limit, Stored, ok,
  store_failed, failed, write_versioned_json,
}
use ad_coder.Control.{
  RunBreakpoint, ChildPipelineSpec, DecisionRecord, DurableRunRecord, PlaneError,
  resource_limit_reached, checkpoint_conflict, missing,
}
use ad_coder.Control.Records.{Tried, done, raised}

-- `schemaVersion` is left out.
pub record ControlPlaneIndex : Type 0 where
  pub requests : List (String × String)
  pub root_ids : List String

abbrev pub Runs : Type 0
Runs = Files DurableRunRecord

abbrev pub Held : Type 0
Held = VersionedState DurableRunRecord

-- Where a call of `resume` or of `requestDecision` stands: before its first step, at the provider's
-- availability, at `execute` under a lease, at the decision on the children, after its end with a
-- status for its caller, and at the decision that was requested.
pub data Task : Type 0 where
  resuming : String → Option RunBreakpoint → List Held → Task
  checking : Held → List Held → Task
  executing : Held → String → List Held → Task
  deciding : Held → DurableRunRecord → List ChildPipelineSpec → DecisionRecord → List Held → Task
  returning : DurableRunRecord → List Held → Task
  requesting : Held → DecisionRecord → Task

-- `started` has the runs that `execute` was called for, the last one first.
pub record World : Type 0 where
  pub index : Files ControlPlaneIndex
  pub runs : Runs
  pub session : Option Controller
  pub retries : Option Coordinator
  pub tasks : List Task
  pub started : List String

abbrev pub plane_error : StoreError → PlaneError
plane_error not_found = missing
plane_error version_conflict = checkpoint_conflict
plane_error resource_limit = resource_limit_reached

abbrev pub tried {ℓ} : {A : Type ℓ} → Stored PlaneError A → Tried A
tried (ok a) = done a
tried (store_failed e) = raised (plane_error e)
tried (failed e) = raised e

unfoldable pub read : String → Runs → Tried Held
unfolding lookup
read id s = elim (lookup id s.states) [ none ↦ raised missing | some v ↦ done v ]

abbrev pub enter : Task → World → World
enter a w = record w { tasks = a ∷ w.tasks }

-- The first waiting caller of a call that ended is told, if there is one.
abbrev pub reply_to : List Held → DurableRunRecord → World → World
reply_to [] r w = w
reply_to (c ∷ cs) r w = enter (returning r (c ∷ cs)) w

abbrev pub after_write : Runs → (Runs → Runs × Tried ℕ) → Stored PlaneError Runs → Runs × Tried ℕ
after_write s f (ok s2) = f s2
after_write s f (store_failed e) = (s, raised (plane_error e))
after_write s f (failed e) = (s, raised e)

module _ (bytes_of : Held → ℕ) where
  -- Successive writes of a record from a version on; those before one that fails stay.
  unfoldable pub put_all : String → ℕ → List DurableRunRecord → Runs → Runs × Tried ℕ
  unfolding write_versioned_json
  put_all id n [] s = (s, done n)
  put_all id n (r ∷ rs) s =
      after_write s (λ s2. put_all id (n + 1) rs s2) (write_versioned_json bytes_of id r (some n) s)

  unfoldable pub put : String → ℕ → List DurableRunRecord → World → World × Tried ℕ
  unfolding put_all
  put id n rs w = let (s, e) = put_all id n rs w.runs in (record w { runs = s }, e)

  abbrev pub snapshot_record : Controller → ℕ → DurableRunRecord → DurableRunRecord
  snapshot_record c now r = record r {
    session_limit_snapshot = some (snapshot c);
    updated_at = now;
  }

  unfoldable pub put_snapshot : String → Controller → ℕ → Tried Held → World → World × Tried ℕ
  unfolding put
  put_snapshot root c now (done v) w = put root v.version (snapshot_record c now v.value ∷ []) w
  put_snapshot root c now (raised e) w = (w, raised e)

  unfoldable pub persist_in : Option Controller → String → ℕ → World → World × Tried ℕ
  unfolding put_snapshot read
  persist_in none root now w = (w, done 0)
  persist_in (some c) root now w = put_snapshot root c now (read root w.runs) w

  -- `persistSessionLimits`
  unfoldable pub persist_session_limits : String → ℕ → World → World × Tried ℕ
  unfolding persist_in
  persist_session_limits root now w = persist_in w.session root now w
