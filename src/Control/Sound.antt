-- ===== src/Control/Sound.antt =====
-- src/orchestration/control-plane.ts: the invariant of the stored records and of the calls that wait.
use ad_coder.Prelude.{
  ℕ, ◌+◌, ◌≤◌, ◌<◌, String, Bool, true, false, Option, none, some, List, [], ◌∷◌, ◌++◌, All, lookup,
  str_eq, ◌≡◌, refl, ◌⊎◌, arith,
}
use ad_coder.Control.{ControlPlaneEvent, EventType, DurableRunRecord}
use ad_coder.Control.Records.{with_event}
use ad_coder.Control.Plane.{
  Held, Runs, Task, resuming, checking, executing, deciding, returning, requesting, World,
}

-- The events of a run from a number on are numbered one by one up to another, under its id.
abbrev pub NumberedFrom : String → ℕ → List ControlPlaneEvent → ℕ → Type 0
NumberedFrom id n [] m = n ≡ m
NumberedFrom id n (e ∷ es) m = (e.sequence ≡ n + 1) × (e.run_id ≡ id) × NumberedFrom id (n + 1) es m

-- The events of a record are numbered from 1 to its event sequence, and are its own.
abbrev pub IsLogged : DurableRunRecord → Type 0
IsLogged r = NumberedFrom r.id 0 r.events r.event_sequence

numbered-append :
    (id : String) (n m : ℕ) (es : List ControlPlaneEvent) (e : ControlPlaneEvent)
    → NumberedFrom id n es m
    → e.sequence ≡ m + 1
    → e.run_id ≡ id
    → NumberedFrom id n (es ++ (e ∷ [])) (m + 1)
numbered-append id n m [] e h s i = (omega (arith, h, s), i, omega (arith, h))
numbered-append id n m (x ∷ es) e (a, b, h) s i = (a, b, numbered-append id (n + 1) m es e h s i)

pub with_event-IsLogged :
    (kind : EventType) (now : ℕ) (r : DurableRunRecord)
    → IsLogged r
    → IsLogged (with_event kind now r)
with_event-IsLogged kind now r h = numbered-append r.id 0 r.event_sequence r.events _ h refl refl

-- What each write of a stored record keeps: the id, a cancellation, and numbered events.
abbrev pub Evolves : DurableRunRecord → DurableRunRecord → Type 0
Evolves r s =
    (s.id ≡ r.id)
    × (r.cancel_requested ≡ true → s.cancel_requested ≡ true)
    × (IsLogged r → IsLogged s)

-- The same for a write that leaves the cancellation and the execution alone.
abbrev pub Follows : DurableRunRecord → DurableRunRecord → Type 0
Follows r s =
    (s.id ≡ r.id)
    × (s.cancel_requested ≡ r.cancel_requested)
    × (s.provider_turn_in_flight ≡ r.provider_turn_in_flight)
    × (IsLogged r → IsLogged s)

abbrev pub Chain : DurableRunRecord → List DurableRunRecord → Type 0
Chain r [] = Unit
Chain r (s ∷ ss) = Follows r s × Chain s ss

abbrev pub flag : Bool → ℕ
flag true = 1
flag false = 0

-- 1 where the stored record has an execution in flight.
abbrev pub flight : Option Held → ℕ
flight none = 0
flight (some v) = flag v.value.provider_turn_in_flight

abbrev pub is_cancelled : Option Held → Bool
is_cancelled none = false
is_cancelled (some v) = v.value.cancel_requested

abbrev pub is_execution : String → Task → Bool
is_execution id (resuming k until cs) = false
is_execution id (checking v cs) = false
is_execution id (executing v lease cs) = str_eq v.value.id id
is_execution id (deciding v r children d cs) = str_eq v.value.id id
is_execution id (returning r cs) = false
is_execution id (requesting v d) = false

-- The executions of a run that have started and not ended.
abbrev pub executions : String → List Task → ℕ
executions id [] = 0
executions id (k ∷ ks) = flag (is_execution id k) + executions id ks

-- The calls of `execute` for a run.
abbrev pub starts : String → List String → ℕ
starts id [] = 0
starts id (k ∷ ks) = flag (str_eq k id) + starts id ks

-- The execution that the step at hand has taken from the list.
abbrev pub holds : Option String → String → ℕ
holds none k = 0
holds (some id) k = flag (str_eq id k)

abbrev pub IsStored : String → Option Held → Type 0
IsStored k none = Unit
IsStored k (some v) = (v.value.id ≡ k) × (1 ≤ v.version) × IsLogged v.value

-- A state that a call holds is the current one, or an older one.
abbrev pub IsHeld : Runs → Held → Type 0
IsHeld s h =
    (c : Held) × (lookup h.value.id s.states ≡ some c) × ((h.version < c.version) ⊎ (c ≡ h))

-- A call that waits for the provider's availability holds a run that was neither cancelled nor in
-- flight; one that waits for a decision holds what it will make of the run.
abbrev pub IsReady : Runs → Task → Type 0
IsReady s (resuming id until cs) = All (IsHeld s) cs
IsReady s (checking v cs) =
    IsHeld s v
    × (v.value.cancel_requested ≡ false)
    × (v.value.provider_turn_in_flight ≡ false)
    × All (IsHeld s) cs
IsReady s (executing v lease cs) = All (IsHeld s) cs
IsReady s (deciding v r children d cs) = IsHeld s v × Evolves v.value r × All (IsHeld s) cs
IsReady s (returning r cs) = All (IsHeld s) cs
IsReady s (requesting v d) = IsHeld s v

-- No execution without its flag, one at most for a flag; and since an earlier world, a cancelled run
-- has stayed cancelled and was not started.
pub record IsSound (w0 : World) (load : Option String) (w : World) : Type 0 where
  pub stored : (k : String) → IsStored k (lookup k w.runs.states)
  pub ready : All (IsReady w.runs) w.tasks
  pub flights : (k : String) → executions k w.tasks + holds load k ≤ flight (lookup k w.runs.states)
  pub since :
      (k : String)
      → is_cancelled (lookup k w0.runs.states) ≡ true
      → (is_cancelled (lookup k w.runs.states) ≡ true) × (starts k w.started ≡ starts k w0.started)
