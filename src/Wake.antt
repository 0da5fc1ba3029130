-- ===== src/Wake.antt =====
-- src/orchestration/wake.ts, `WakePump`: durable wakes become turns of the orchestrator, one batch
-- at a time. An event is what runs between two suspensions of the code: a nudge, the microtask, the
-- end of a turn. The durable store and the turns are answers that the events carry; the prompt text
-- and the lines to stderr are left out.
pub mod Flight
pub mod Answered
pub mod Batches
pub mod Groups
use ad_coder.Prelude.{
  ℕ, zero, suc, ◌+◌, ◌==◌, String, Bool, true, false, not, ◌&&◌, ◌||◌, Option, none, some, List, [],
  ◌∷◌, ◌++◌, if◌then◌else◌, any, take, lookup, insert, str_eq,
}

pub record PendingWake : Type 0 where
  pub run_id : String
  pub kind : String
  pub first_at : ℕ
  pub last_at : ℕ
  pub count : ℕ

-- The fields of the pump, what it has asked the durable store to mark as handled, the batches it has
-- run turns for, and how many of those turns run. `idle_resolver` is the startup scan that waits.
pub record WakePump : Type 0 where
  pub max_wakes_per_turn : ℕ
  pub in_flight : Bool
  pub scheduled : Bool
  pub turn_counter : ℕ
  pub idle_resolver : Option ℕ
  pub resolved : List ℕ
  pub batch : List PendingWake
  pub turns : List (List PendingWake)
  pub running : ℕ
  pub handled : List (String × List PendingWake)

-- The constructor, after the default of 8: `none` for a number that is no positive safe integer.
unfoldable pub construct : Option ℕ → Option WakePump
construct none = none
construct (some zero) = none
construct (some (suc n)) = some (record {
  max_wakes_per_turn = suc n;
  in_flight = false;
  scheduled = false;
  turn_counter = 0;
  idle_resolver = none;
  resolved = [];
  batch = [];
  turns = [];
  running = 0;
  handled = [];
})

unfoldable pub schedule : WakePump → WakePump
schedule p = if p.scheduled || p.in_flight then p else record p { scheduled = true }

abbrev pub resolver_list : Option ℕ → List ℕ
resolver_list none = []
resolver_list (some n) = n ∷ []

unfoldable pub resolve_idle : WakePump → WakePump
resolve_idle p = record p {
  idle_resolver = none;
  resolved = p.resolved ++ resolver_list p.idle_resolver;
}

unfoldable pub await_idle : ℕ → WakePump → WakePump
await_idle n p =
    if not p.in_flight && not p.scheduled
    then record p { resolved = p.resolved ++ (n ∷ []) }
    else record p { idle_resolver = some n }

-- The `finally` of a drain.
unfoldable pub settle_drain : Bool → WakePump → WakePump
unfolding schedule resolve_idle
settle_drain remaining p =
    let q = record p { in_flight = false; batch = [] } in
    if remaining then schedule q else resolve_idle q

abbrev pub is_empty : List PendingWake → Bool
is_empty [] = true
is_empty (w ∷ ws) = false

abbrev pub pending_or_empty : Option (List PendingWake) → List PendingWake
pending_or_empty none = []
pending_or_empty (some ws) = ws

-- `drain` up to its first suspension: it reads what is pending, `none` when the read fails, and
-- starts a turn.
unfoldable pub start_turn : List PendingWake → WakePump → WakePump
start_turn ws p = record p {
  in_flight = true;
  turn_counter = p.turn_counter + 1;
  batch = take p.max_wakes_per_turn ws;
  turns = p.turns ++ (take p.max_wakes_per_turn ws ∷ []);
  running = p.running + 1;
}

unfoldable pub drain : Option (List PendingWake) → WakePump → WakePump
unfolding start_turn settle_drain
drain read p =
    if p.in_flight
    then p
    else if is_empty (pending_or_empty read)
    then settle_drain false p
    else start_turn (pending_or_empty read) p

-- The microtask. `busy` is `turnActive() || recoveryBlocked()`.
unfoldable pub microtask : Bool → Option (List PendingWake) → WakePump → WakePump
unfolding drain resolve_idle
microtask busy read p =
    if not p.scheduled
    then p
    else if busy
    then resolve_idle (record p { scheduled = false })
    else drain read (record p { scheduled = false })

abbrev pub wakes_or_empty : Option (List PendingWake) → List PendingWake
wakes_or_empty none = []
wakes_or_empty (some ws) = ws

abbrev pub add_wake :
    List (String × List PendingWake) → PendingWake → List (String × List PendingWake)
unfolding lookup insert
add_wake m w = insert w.run_id (wakes_or_empty (lookup w.run_id m) ++ (w ∷ [])) m

abbrev pub add_wakes :
    List (String × List PendingWake) → List PendingWake → List (String × List PendingWake)
unfolding add_wake
add_wakes m [] = m
add_wakes m (w ∷ ws) = add_wakes (add_wake m w) ws

-- The batch by its runs, in the order of a `Map`.
unfoldable pub by_run : List PendingWake → List (String × List PendingWake)
unfolding add_wakes
by_run ws = add_wakes [] ws

unfoldable pub same_window : PendingWake → PendingWake → Bool
same_window l r =
    str_eq l.run_id r.run_id
    && str_eq l.kind r.kind
    && l.first_at == r.first_at
    && l.last_at == r.last_at
    && l.count == r.count

unfoldable pub must_reschedule : List PendingWake → List PendingWake → Bool
unfolding same_window
must_reschedule after batch =
    any (λ current. not (any (λ drained. same_window current drained) batch)) after

-- How a turn ends: it fails, or marking fails after some of the runs, or reading again fails, or
-- all goes well and the store lists what is pending now.
pub data TurnEnd : Type 0 where
  turn_failed : TurnEnd
  mark_failed : ℕ → TurnEnd
  listed : Option (List PendingWake) → TurnEnd

unfoldable pub mark : List (String × List PendingWake) → WakePump → WakePump
mark rows p = record p { handled = p.handled ++ rows }

-- `drain` after its turn.
unfoldable pub end_turn : TurnEnd → WakePump → WakePump
unfolding settle_drain mark by_run must_reschedule
end_turn turn_failed p = settle_drain false p
end_turn (mark_failed k) p = settle_drain false (mark (take k (by_run p.batch)) p)
end_turn (listed none) p = settle_drain false (mark (by_run p.batch) p)
end_turn (listed (some after)) p =
    settle_drain (must_reschedule after p.batch) (mark (by_run p.batch) p)

pub data Event : Type 0 where
  nudge : Event
  startup_scan : ℕ → Event
  fire : Bool → Option (List PendingWake) → Event
  turn_end : TurnEnd → Event

-- A turn that ends is one that runs.
abbrev pub ended : TurnEnd → WakePump → ℕ → WakePump
unfolding end_turn
ended r p zero = p
ended r p (suc n) = end_turn r (record p { running = n })

unfoldable pub step : WakePump → Event → WakePump
unfolding schedule await_idle microtask ended
step p nudge = schedule p
step p (startup_scan n) = await_idle n (schedule p)
step p (fire busy read) = microtask busy read p
step p (turn_end r) = ended r p p.running

unfoldable pub run : WakePump → List Event → WakePump
unfolding step
run p [] = p
run p (e ∷ es) = run (step p e) es
