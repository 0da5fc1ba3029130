-- ===== src/Examples/Calls.antt =====
-- A controller with one permit and two places in a scope's queue, at work.
use ad_coder.Prelude.{
  ℕ, ◌++◌, ◌≤◌, length, All, ◌≡◌, refl, true, false, none, some, List, [], ◌∷◌, lookup, insert,
  arith,
}
use ad_coder.Admission.{
  Config, interactive, background, title, admission_priority_classes, Controller, ScopeRuntime,
  ProviderLimit, new_token,
}
use ad_coder.Admission.Scheduler.{can_grant, grant_token, dequeue_candidate}
use ad_coder.Admission.Scheduler.Order.{Serves, dequeue_candidate-Serves}
use ad_coder.Admission.Persist.{snapshot}
use ad_coder.Admission.Release.{cooldown_delay, release_scope}
use ad_coder.Admission.Restore.{ok, fresh, assert_config, construct}
use ad_coder.Admission.Wrap.{rejected, finish, Event, admits, finishes, succeeded, step, run}
use ad_coder.Admission.Reserve.{
  pump_scopes, pump, ensure_scope, allocate, arrive, reserve_on, reserve,
}
use ad_coder.Admission.Counts.{count, in_service, is_granted}
use ad_coder.Admission.Served.{AllOrderly, served_within_limits}
use ad_coder.Admission.Cooldown.{cooled, finish_rejected}
use ad_coder.Admission.Crash.{construct-run}
use ad_coder.Admission.Keys.{is_scope_label, label_char}
use ad_coder.Admission.Scopes.{key_text-injective}

abbrev one_permit : Config
one_permit = record {
  max_concurrent_per_scope = 1;
  queue_capacity_per_scope = 2;
  max_wait_ms = 1000;
  priority_classes = admission_priority_classes;
  retry_delay_ms = 50;
  cooldown_max_ms = 100;
}

-- One call is granted, two wait, a fourth finds the queue full, and the first ends.
abbrev calls : List (ℕ × Event)
calls =
    (0, admits "k" "chat" interactive)
    ∷ (1, admits "k" "chat" background)
    ∷ (2, admits "k" "chat" interactive)
    ∷ (3, admits "k" "chat" title)
    ∷ []

abbrev history : List (ℕ × Event)
history = calls ++ ((4, finishes succeeded "k" 0) ∷ [])

abbrev serving : ScopeRuntime
serving = record { concurrent = 1; cooldown_until = none; queue = []; in_flight_token = some 0 }

abbrev hint : ProviderLimit
hint = record { retry_after_ms = some 70 }

abbrev idle : Controller
idle = record {
  config = one_permit;
  scopes = [];
  restored = false;
  store = some none;
  tokens = λ i. new_token "" "" interactive;
  next_token = 0;
}

-- One call is in flight.
abbrev busy : Controller
busy = record idle {
  scopes = ("k", serving) ∷ [];
  tokens = λ i. new_token "chat" "k" interactive;
  next_token = 1;
}

-- One call is in flight and two wait.
abbrev waiting_scope : ScopeRuntime
waiting_scope = record serving {
  queue =
      record { priority = background; enqueued_at = 1; token = 1 }
      ∷ record { priority = interactive; enqueued_at = 2; token = 2 }
      ∷ [];
}

abbrev crowded : Controller
crowded = record busy { scopes = ("k", waiting_scope) ∷ []; next_token = 3 }

dequeue_candidate-Serves_example :
    Serves one_permit 3 crowded.tokens waiting_scope.queue
      (dequeue_candidate one_permit 3 crowded.tokens waiting_scope.queue)
dequeue_candidate-Serves_example =
    dequeue_candidate-Serves one_permit 3 crowded.tokens waiting_scope.queue

-- Four calls were made, and the first one was let through.
four_calls :
    let c = run calls (fresh one_permit none) in
    (c.next_token ≡ 4) × (is_granted (c.tokens 0).state ≡ true)
unfolding run fresh lookup step reserve arrive ensure_scope allocate reserve_on pump pump_scopes
    can_grant insert grant_token
four_calls = (refl, refl)

served_within_limits_example :
    let c = run history (fresh one_permit none) in
    (count (in_service "k") c.tokens c.next_token ≤ 1) × All (λ e. length e.1.queue ≤ 2) c.scopes
unfolding AllOrderly run
served_within_limits_example =
    served_within_limits one_permit none history "k"
      (tt, (tt, (tt, (tt, ((omega (arith, four_calls.0), four_calls.1), tt)))))

construct-run_example :
    let lost = run history (fresh one_permit (some none)) in
    (c : Controller) × (construct one_permit lost.store ≡ ok c) × (snapshot c ≡ snapshot lost)
unfolding assert_config
construct-run_example = construct-run one_permit history refl

finish_rejected_example :
    lookup "k" (finish (rejected (some hint)) "k" 0 100 crowded).scopes
    ≡ some (release_scope 0 (cooled one_permit hint 100 waiting_scope))
unfolding lookup cooldown_delay
finish_rejected_example =
    finish_rejected hint 0 100 crowded waiting_scope refl refl refl (ground arith)

abbrev provider : List ℕ
provider = b'a' ∷ b'n' ∷ []

abbrev chat : List ℕ
chat = b'c' ∷ b'-' ∷ b'1' ∷ []

key_text-injective_example : (provider ≡ provider) × (chat ≡ chat) × (chat ≡ chat)
unfolding is_scope_label label_char
key_text-injective_example =
    key_text-injective provider chat chat provider chat chat refl refl refl refl refl
