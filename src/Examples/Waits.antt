-- ===== src/Examples/Waits.antt =====
-- A timer that fires, and one that is cancelled while its adapter works.
use ad_coder.Prelude.{◌+◌, ◌*◌, ◌≡◌, refl, true, none, some, List, [], ◌∷◌, length, All, lookup}
use ad_coder.Versioned.{VersionedState, ok}
use ad_coder.Wait.{
  WaitLifecycle, pending, condition_met, WaitTerms, WaitRecord, WaitEvent, absent, number, events,
  by_run, inspect, is_safe_id,
}
use ad_coder.Wait.Service.{read}
use ad_coder.Wait.Records.{WaitService, observed}
use ad_coder.Wait.History.{WaitCall, create_wait, cancel_wait, begin_wait, end_wait, run, start}
use ad_coder.Wait.Valid.{run-read}
use ad_coder.Wait.Shape.{Drawn}
use ad_coder.Wait.Once.{Lives, cell, run-Lives}
use ad_coder.Wait.Replay.{calls_for, dispatched_once}
use ad_coder.Wait.Kept.{Holds, settled_is_final}

abbrev service : WaitService
service = record {
  limits = record {
    max_events_per_wait = 2;
    max_evidence_entries = 1;
    max_persisted_state_bytes = 900;
    min_poll_interval_ms = 100;
  };
  bytes_of = λ v. 300 + 80 * length v.value.events;
  has_adapter = λ s. true;
  accepts = λ s c. true;
}

abbrev terms : WaitTerms
terms = record {
  source = record {
    adapter = "timer";
    version = number 1;
    target = record { kind = "clock"; id = "wall" };
  };
  condition = record { kind = "after"; at = number 500 };
  owner = record { kind = by_run; id = "run-7" };
  policy = record { delivery = events; poll_interval_ms = absent };
  deadline_at = number 1000;
  recovery = inspect;
}

abbrev fired : List WaitCall
fired =
    create_wait "w1" 10 terms
    ∷ begin_wait "w1" "op-1" 20
    ∷ begin_wait "w1" "op-2" 25
    ∷ end_wait "w1" "op-1"
        (observed (record { lifecycle = WaitLifecycle.satisfied; evidence = some condition_met }))
        30
    ∷ []

abbrev stopped : List WaitCall
stopped = create_wait "w1" 10 terms ∷ begin_wait "w1" "op-1" 20 ∷ []

abbrev late : List WaitCall
late =
    cancel_wait "w1" 40
    ∷ begin_wait "w1" "op-2" 50
    ∷ end_wait "w1" "op-3" (observed (record { lifecycle = pending; evidence = none })) 60
    ∷ []

abbrev opened_event : WaitEvent
opened_event = record {
  sequence = 1;
  wait_id = "w1";
  lifecycle = pending;
  timestamp = 10;
  evidence = none;
}

abbrev satisfied_event : WaitEvent
satisfied_event = record {
  sequence = 2;
  wait_id = "w1";
  lifecycle = WaitLifecycle.satisfied;
  timestamp = 30;
  evidence = some (record { code = condition_met; at = 30 });
}

abbrev fired_state : VersionedState WaitRecord
fired_state = record {
  version = 3;
  value = record {
    id = "w1";
    lifecycle = WaitLifecycle.satisfied;
    terms = terms;
    created_at = 10;
    updated_at = 30;
    next_sequence = 3;
    events = opened_event ∷ satisfied_event ∷ [];
    evidence = record { code = condition_met; at = 30 } ∷ [];
    reconciliation = none;
  };
}

abbrev sent_state : VersionedState WaitRecord
sent_state = record {
  version = 2;
  value = record {
    id = "w1";
    lifecycle = pending;
    terms = terms;
    created_at = 10;
    updated_at = 20;
    next_sequence = 2;
    events = opened_event ∷ [];
    evidence = [];
    reconciliation = some (record { operation_id = "op-1"; dispatched_at = 20 });
  };
}

fired-Drawn : All Drawn fired
unfolding is_safe_id
fired-Drawn = (tt, (refl, (refl, (tt, tt))))

stopped-Drawn : All Drawn stopped
unfolding is_safe_id
stopped-Drawn = (tt, (refl, tt))

late-Drawn : All Drawn late
unfolding is_safe_id
late-Drawn = (tt, (refl, (tt, tt)))

fired-lookup : lookup "w1" (run service fired (start 0)).waits.states ≡ some fired_state
unfolding run
fired-lookup = refl

sent-lookup : lookup "w1" (run service stopped (start 0)).waits.states ≡ some sent_state
unfolding run
sent-lookup = refl

run-read_example :
    (read service "w1" (run service fired (start 0)).waits ≡ ok fired_state.value)
    × (fired_state.value.id ≡ "w1")
run-read_example = run-read service 0 fired "w1" fired_state fired-Drawn fired-lookup

run-Lives_example :
    Lives
      (cell "w1" (run service stopped (start 0)).waits)
      (cell "w1" (run service late (run service stopped (start 0))).waits)
run-Lives_example = run-Lives service 0 stopped late "w1" stopped-Drawn late-Drawn

settled_is_final_example :
    Holds
      (λ r. r ≡ fired_state.value)
      (lookup "w1" (run service late (run service fired (start 0))).waits.states)
settled_is_final_example =
    settled_is_final service 0 fired late "w1" fired_state fired-Drawn late-Drawn fired-lookup refl

dispatched_once_example :
    Holds
      (λ r. r.reconciliation ≡ some (record { operation_id = "op-1"; dispatched_at = 20 }))
      (lookup "w1" (run service late (run service stopped (start 0))).waits.states)
    × (calls_for "w1" (run service late (run service stopped (start 0))).calls
        ≡ calls_for "w1" (run service stopped (start 0)).calls)
dispatched_once_example =
    dispatched_once service 0 stopped late "w1" sent_state
      (record { operation_id = "op-1"; dispatched_at = 20 }) stopped-Drawn late-Drawn
      (tt, (tt, (refl, tt))) sent-lookup refl
