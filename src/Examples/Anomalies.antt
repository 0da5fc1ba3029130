-- ===== src/Examples/Anomalies.antt =====
-- A model that is billed at one and a half times its price, in numbers of three decimals.
use ad_coder.Prelude.{
  ℕ, ◌+◌, ◌*◌, ◌/◌, ◌≡◌, ◌≤◌, max, ltb, refl, true, false, none, some, List, [], ◌∷◌, All, length,
  lookup,
}
use ad_coder.Anomaly.{
  Arithmetic, CostAnomalyConfig, CostAnomalyBlock, CostAnomalyScopeState, Observation, Detector,
  restored, block_of, median, cost_anomaly_scope_key,
}
use ad_coder.Anomaly.Detection.{
  Event, admitted, released, observed_at, responded, restarted, run, construct, admit,
}
use ad_coder.Anomaly.Blocked.{blocked_until_released}
use ad_coder.Anomaly.Confirmed.{run-IsConfirmed}

abbrev decimals : Arithmetic ℕ
decimals = record {
  is_money = λ x. ltb 0 x;
  divide = λ x y. x * 1000 / y;
  times = λ x y. x * y / 1000;
  plus = λ x y. x + y;
  less = ltb;
  larger = max;
  nought = 0;
  one = 1000;
  two = 2000;
  nan = 0;
}

abbrev config : CostAnomalyConfig ℕ
config = record { enabled = true; threshold_ratio = 1250; confirming_observations = 2 }

abbrev billed : ℕ → Observation ℕ
billed charged = record {
  provider = "router";
  model = "m";
  charged_usd = charged;
  expected_usd = 1000;
}

abbrev repriced : List (Event decimals)
repriced =
    observed_at 1 (billed 1500)
    ∷ observed_at 2 (billed 1000)
    ∷ responded 3 "router" "m" (some 1000) (some 1500)
    ∷ observed_at 4 (billed 1600)
    ∷ []

abbrev afterwards : List (Event decimals)
afterwards =
    observed_at 5 (billed 1000) ∷ restarted ∷ released "router" "other" ∷ admitted "router" "m" ∷ []

abbrev block : CostAnomalyBlock ℕ
block = record {
  at = 4;
  charged_usd = 3100;
  expected_usd = 2000;
  ratio = 1550;
  accepted_ratio = 1000;
  confirming_observations = 2;
}

abbrev blocked_scope : CostAnomalyScopeState ℕ
blocked_scope = record {
  provider = "router";
  model = "m";
  observed = 1000 ∷ [];
  pending = 1500 ∷ 1600 ∷ [];
  pending_charged_usd = some 3100;
  pending_expected_usd = some 2000;
  accepted = none;
  block = some block;
}

abbrev start : Detector ℕ
start = restored config none

start_lem : construct decimals config none ≡ some start
unfolding construct
start_lem = refl

repriced_lem : lookup "router/m" (run decimals repriced start).scopes ≡ some blocked_scope
unfolding run lookup
repriced_lem = refl

run-IsConfirmed_example :
    (2 ≤ block.confirming_observations)
    × (block.confirming_observations ≡ config.confirming_observations)
    × (length blocked_scope.pending ≡ block.confirming_observations)
    × (block.ratio ≡ median decimals blocked_scope.pending)
    × All
        (λ r. ltb r (block.accepted_ratio * config.threshold_ratio / 1000) ≡ false)
        blocked_scope.pending
run-IsConfirmed_example =
    run-IsConfirmed decimals config start repriced "router/m" blocked_scope block start_lem
      repriced_lem refl

blocked_lem :
    block_of (lookup (cost_anomaly_scope_key "router" "m") (run decimals repriced start).scopes)
    ≡ some block
unfolding run lookup cost_anomaly_scope_key
blocked_lem = refl

blocked_until_released_example :
    let r = run decimals afterwards (run decimals repriced start) in
    (block_of (lookup (cost_anomaly_scope_key "router" "m") r.scopes) ≡ some block)
    × ((admit decimals "router" "m" r).1
        ≡ some (record { provider = "router"; model = "m"; block = block }))
unfolding cost_anomaly_scope_key
blocked_until_released_example =
    blocked_until_released decimals config start repriced afterwards "router" "m" block start_lem
      refl blocked_lem (tt, (tt, (refl, (tt, tt))))
