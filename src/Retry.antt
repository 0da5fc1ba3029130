-- ===== src/Retry.antt =====
-- src/orchestration/control-plane.ts: `LiveRetryCoordinator`, the gate of the retries of a host. A
-- timer is a number with its delay; that it fires is an event, at any time, also after it was
-- cleared. A callback is named by its run and its timer; what it does is not seen, that it settled is
-- an event. The delay with its random jitter is an argument.
pub mod Bounds
pub mod Counted
pub mod Chances
pub mod Cancelled
use ad_coder.Prelude.{
  ℕ, zero, suc, ◌+◌, ◌-◌, ◌==◌, min, max, ltb, leb, String, Bool, true, false, Option, none, some,
  List, [], ◌∷◌, ◌++◌, if◌then◌else◌, length, lookup, insert, str_eq,
}

pub record Limits : Type 0 where
  pub max_concurrent_admissions : ℕ
  pub max_queued_admissions : ℕ
  pub max_retry_delay_ms : ℕ

pub record Timer : Type 0 where
  pub number : ℕ
  pub delay_ms : ℕ

pub record Entry : Type 0 where
  pub run_id : String
  pub timer : ℕ

-- `started` has the callbacks that were started, the last one first.
pub record Coordinator : Type 0 where
  pub limits : Limits
  pub pending : List (String × Timer)
  pub ready : List Entry
  pub active : ℕ
  pub next_timer : ℕ
  pub started : List Entry

-- `Map.delete`
unfoldable pub delete : String → List (String × Timer) → List (String × Timer)
delete run [] = []
delete run ((j, t) ∷ table) =
    let rest = delete run table in if str_eq j run then rest else (j, t) ∷ rest

-- `findIndex` and `splice`
unfoldable pub remove_first : String → List Entry → List Entry
remove_first run [] = []
remove_first run (e ∷ es) =
    let rest = remove_first run es in if str_eq e.run_id run then es else e ∷ rest

unfoldable pub cancel : String → Coordinator → Coordinator
unfolding delete remove_first
cancel run c = record c { pending = delete run c.pending; ready = remove_first run c.ready }

abbrev pub timer_delay : ℕ → ℕ → ℕ
timer_delay most jittered = min most (max 1000 jittered)

abbrev pub new_timer : ℕ → Coordinator → Timer
new_timer jittered c = record {
  number = c.next_timer;
  delay_ms = timer_delay c.limits.max_retry_delay_ms jittered;
}

unfoldable pub schedule : String → ℕ → Coordinator → Coordinator
unfolding cancel insert
schedule run jittered c =
    let d = cancel run c in
    record d {
      pending = insert run (new_timer jittered c) d.pending;
      next_timer = c.next_timer + 1;
    }

unfoldable pub drain_from : Coordinator → List Entry → Coordinator
drain_from c [] = record c { ready = [] }
drain_from c (e ∷ es) =
    let rest = drain_from (record c { active = c.active + 1; started = e ∷ c.started }) es in
    if ltb c.active c.limits.max_concurrent_admissions then rest else record c { ready = e ∷ es }

unfoldable pub drain : Coordinator → Coordinator
unfolding drain_from
drain c = drain_from c c.ready

abbrev pub is_current : ℕ → Option Timer → Bool
is_current t none = false
is_current t (some u) = u.number == t

-- The callback of a timer.
unfoldable pub fire : String → ℕ → Coordinator → Coordinator
unfolding lookup delete drain
fire run t c =
    if is_current t (lookup run c.pending)
    then if leb c.limits.max_queued_admissions (length c.ready)
      then record c { pending = delete run c.pending }
      else drain (record c {
        pending = delete run c.pending;
        ready = c.ready ++ (record { run_id = run; timer = t } ∷ []);
      })
    else c

-- A started callback settles.
unfoldable pub finish : Coordinator → Coordinator
unfolding drain
finish c = if ltb 0 c.active then drain (record c { active = c.active - 1 }) else c

pub data Event : Type 0 where
  scheduled : String → ℕ → Event
  cancelled : String → Event
  fired : String → ℕ → Event
  settled : Event

unfoldable pub step : Event → Coordinator → Coordinator
unfolding schedule cancel fire finish
step (scheduled run jittered) c = schedule run jittered c
step (cancelled run) c = cancel run c
step (fired run t) c = fire run t c
step settled c = finish c

unfoldable pub run : List Event → Coordinator → Coordinator
unfolding step
run [] c = c
run (e ∷ es) c = run es (step e c)

abbrev pub fresh : Limits → Coordinator
fresh l = record { limits = l; pending = []; ready = []; active = 0; next_timer = 0; started = [] }

-- The constructor, which refuses limits of 0.
unfoldable pub construct : Limits → Option Coordinator
construct l =
    if ltb 0 l.max_concurrent_admissions
    then if ltb 0 l.max_queued_admissions then some (fresh l) else none
    else none
