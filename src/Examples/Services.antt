-- ===== src/Examples/Services.antt =====
-- Limits, leases, wakes and budgets at work.
use ad_coder.Prelude.{
  ℕ, ◌+◌, ◌-◌, ◌≡◌, ◌≤◌, ◌<◌, ◌↔◌, refl, ◌⊎◌, true, false, none, some, List, [], ◌∷◌, ◌++◌, length,
  arith, lookup, insert, str_eq, codes,
}
use ad_coder.Limits
use ad_coder.Limits.{SessionLimits, LimitReason, Controller}
use ad_coder.Limits.Bounds.{session_within_limits}
use ad_coder.Limits.Counted.{calls_made, costs_paid}
use ad_coder.Limits.Terminal.{restored_turn_error}
use ad_coder.Lease
use ad_coder.Lease.{LeaseRecord, LeaseFile, lease, Identity, Leases, own_record, manager_token}
use ad_coder.Lease.Exclusive.{acquire_excludes, release_admits, probe_race}
use ad_coder.Wake
use ad_coder.Wake.{PendingWake, WakePump}
use ad_coder.Context
use ad_coder.Context.{
  ContextBudget, WrittenBudget, CompactionPolicy, ResolvedPolicy, durable_compaction_settings,
}
use ad_coder.Context.Tail.{select_recent_tail, total, is_empty, select_recent_tail_lem}
use ad_coder.Context.Threshold.{durable_threshold}

abbrev limits : SessionLimits
limits = record { max_turns = 3; max_cost_usd = 10 }

abbrev spending : List Limits.Event
spending =
    Limits.call ∷ Limits.call ∷ Limits.ended (Limits.resolved (Limits.known 4)) ∷ Limits.call ∷ []

session_within_limits_example :
    ((limits.max_turns ≡ 0) ⊎ (calls_made (Limits.open_session limits) spending ≤ 3))
    × ((limits.max_cost_usd ≡ 0)
        ⊎ (((Limits.run (Limits.open_session limits) spending).held ≤ 1)
            × (costs_paid (Limits.open_session limits) spending < 10 + 4)))
session_within_limits_example =
    session_within_limits limits 4 spending (tt, (tt, (ground arith, (tt, tt))))

abbrev spent : Controller
spent = record {
  limits = limits;
  admitted_turns = 3;
  observed_cost = 6;
  in_flight = true;
  terminal_reason = none;
  boundary_failure = none;
}

abbrev restarted : Controller
restarted = record spent { terminal_reason = some LimitReason.turns }

restored_turn_error_example :
    (Limits.current_error spent
      ≡ some (record { reason = LimitReason.turns; limit = 3; observed = 3 }))
    × (Limits.current_error restarted
        ≡ some (record { reason = LimitReason.turns; limit = 10; observed = 6 }))
unfolding Limits.restore Limits.construct Limits.snapshot Limits.current_error Limits.exhausted
restored_turn_error_example =
    restored_turn_error spent restarted refl (ground arith) (ground arith) refl

-- A manager that sees every process of its host `h` as alive.
abbrev manager : ℕ → Identity
manager n = record {
  now = 100 + n;
  host_is_local = λ h. str_eq h "h";
  pid_alive = λ p. true;
  own_pid = n;
  own_host = "h";
  uuid = "u";
}

abbrev taken : Leases
taken = ("notes", lease (own_record (manager 1) "s")) ∷ []

abbrev given : Leases
given = ("notes", lease (record (own_record (manager 1) "s") { released_at = some 101 })) ∷ []

acquire_excludes_example :
    (lookup "notes" taken ≡ some (lease (own_record (manager 1) "s")))
    × (Lease.acquire_manager_lease (manager 2) "notes" "t" taken
        ≡ Lease.failed Lease.session_lease_held)
unfolding Lease.acquire_manager_lease lookup insert codes
acquire_excludes_example =
    acquire_excludes (manager 1) (manager 2) "notes" "s" "t" "sm:u" [] taken refl refl

release_admits_example :
    (m : Leases) × (Lease.acquire_manager_lease (manager 2) "notes" "t" given
      ≡ Lease.ok (m, manager_token (manager 2)))
unfolding Lease.release_lease Lease.released_in lookup insert codes
release_admits_example = release_admits (manager 1) (manager 2) "notes" "t" taken given refl

probe_race_example :
    (m : Leases) × (n : Leases) × (Lease.take_lease (manager 1) "notes" "s" Lease.absent []
      ≡ Lease.ok (m, manager_token (manager 1)))
    × (Lease.take_lease (manager 2) "notes" "t" Lease.absent m
        ≡ Lease.ok (n, manager_token (manager 2)))
    × (lookup "notes" n ≡ some (lease (own_record (manager 2) "t")))
unfolding Lease.probe_lease lookup codes
probe_race_example =
    probe_race (manager 1) (manager 2) "notes" "s" "t" Lease.absent Lease.absent [] refl refl refl
      refl

abbrev wake : ℕ → PendingWake
wake n = record { run_id = "r"; kind = "failed"; first_at = n; last_at = n; count = 1 }

abbrev pump : WakePump
pump = record {
  max_wakes_per_turn = 1;
  in_flight = false;
  scheduled = false;
  turn_counter = 0;
  idle_resolver = none;
  resolved = [];
  batch = [];
  turns = [];
  running = 0;
  handled = [];
}

-- Two wakes are pending; a turn runs for the first, ends well, and another follows.
abbrev nudges : List Wake.Event
nudges =
    Wake.startup_scan 1
    ∷ Wake.fire false (some (wake 1 ∷ wake 2 ∷ []))
    ∷ Wake.nudge
    ∷ Wake.turn_end (Wake.listed (some (wake 2 ∷ [])))
    ∷ Wake.fire false (some (wake 2 ∷ []))
    ∷ []

abbrev sizes : List ℕ
sizes = 40 ∷ 30 ∷ 20 ∷ []

abbrev itself : ℕ → ℕ
itself n = n

select_recent_tail_lem_example :
    ((select_recent_tail itself 50 sizes).0 ++ (select_recent_tail itself 50 sizes).1 ≡ sizes)
    × ((sizes ≡ []) ⊎ (is_empty (select_recent_tail itself 50 sizes).1 ≡ false))
    × ((total itself (select_recent_tail itself 50 sizes).1 ≤ 50)
        ⊎ (length (select_recent_tail itself 50 sizes).1 ≤ 1))
    × (((select_recent_tail itself 50 sizes).0 ≡ [])
        ⊎ ((h : List ℕ) × (m : ℕ) × ((select_recent_tail itself 50 sizes).0 ≡ h ++ (m ∷ []))
            × (50 < m + total itself (select_recent_tail itself 50 sizes).1)))
select_recent_tail_lem_example = select_recent_tail_lem itself 50 sizes

abbrev budget : ContextBudget
budget = record { max_tokens = 80; reserve_tokens = 10; keep_recent_tokens = 25 }

abbrev written : WrittenBudget
written = record { max_tokens = some 80; reserve_tokens = some 10; keep_recent_tokens = some 25 }

durable_threshold_example :
    ((durable_compaction_settings budget 100 5).reserve_tokens < 100)
    × ((100 - (durable_compaction_settings budget 100 5).reserve_tokens < 66) ↔ (80 < 66 + 5 + 10))
unfolding Context.validate_context_budget Context.fits_window
durable_threshold_example = durable_threshold written budget 100 5 66 refl (ground arith)

abbrev policy : CompactionPolicy
policy = record {
  mode = none;
  summary_max_tokens = Context.absent;
  summarizer_retry_limit = Context.absent;
  summarizer_provider = some "other";
  allow_cross_provider = true;
  fallback_to_role_model = none;
}

abbrev resolved_policy : ResolvedPolicy
resolved_policy = record {
  mode = Context.auto;
  provider = some "other";
  summary_max_tokens = 33;
  summarizer_retry_limit = 3;
  fallback_to_role_model = true;
}

-- An estimator without reported usage, where a message's size is its number of tokens.
abbrev summed : List ℕ → ℕ × ℕ
summed ms = (total itself ms, 0)
