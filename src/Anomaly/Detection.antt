-- ===== src/Anomaly/Detection.antt =====
-- src/economics/cost-anomaly.ts: the operations of `CostAnomalyDetector`, and its histories.
use ad_coder.Prelude.{
  ℕ, String, ◌&&◌, Option, none, some, List, [], ◌∷◌, if◌then◌else◌, length, lookup, insert,
}
use ad_coder.Anomaly.{
  CostAnomalyConfig, CostAnomalyBlock, CostAnomalyScopeState, CostAnomalyBlockedError, Observation,
  Detector, Scopes, Arithmetic, accept, accepted_ratio, assert_config, assert_no_boundary_failure,
  block_of, cost_anomaly_scope_key, get_or, median, new_scope, observe_scope, persist, refusal,
  refuse, restored,
}

module _ {F : Type 0} (a : Arithmetic F) where
  unfoldable pub construct : CostAnomalyConfig F → Option (Scopes F) → Option (Detector F)
  unfolding assert_config
  construct c stored = if assert_config a c then some (restored c stored) else none

  -- With the error that is thrown.
  unfoldable pub admit :
      String → String → Detector F → Detector F × Option (CostAnomalyBlockedError F)
  unfolding lookup cost_anomaly_scope_key
  admit provider model d =
      if d.config.enabled
      then refuse
          (refusal provider model
            (block_of (lookup (cost_anomaly_scope_key provider model) d.scopes)))
          d
      else refuse none d

  unfoldable pub observe : ℕ → Observation F → Detector F → Detector F
  unfolding lookup insert cost_anomaly_scope_key observe_scope
  observe now o d =
      let key = cost_anomaly_scope_key o.provider o.model in
      let s = get_or (new_scope o.provider o.model) (lookup key d.scopes) in
      if d.config.enabled && a.is_money o.charged_usd && a.is_money o.expected_usd
      then persist (record d { scopes = insert key (observe_scope a d.config now o s) d.scopes })
      else d

  -- `settle` of `wrap`: a response without usage, or without a reported charge, is no observation.
  unfoldable pub settle : ℕ → String → String → (usage charge : Option F) → Detector F → Detector F
  unfolding observe
  settle now provider model none charge d = d
  settle now provider model (some usage) none d = d
  settle now provider model (some usage) (some charge) d =
      observe now
        (record { provider = provider; model = model; charged_usd = charge; expected_usd = usage })
        d

  unfoldable pub release_block :
      String → CostAnomalyScopeState F → Option (CostAnomalyBlock F) → Detector F → Detector F
  unfolding insert accept
  release_block key s none d = d
  release_block key s (some b) d =
      persist (record d { scopes = insert key (accept a b s) d.scopes })

  unfoldable pub release_scope : String → Option (CostAnomalyScopeState F) → Detector F → Detector F
  unfolding release_block
  release_scope key none d = d
  release_scope key (some s) d = release_block key s s.block d

  unfoldable pub release : String → String → Detector F → Detector F
  unfolding lookup cost_anomaly_scope_key release_scope
  release provider model d =
      let key = cost_anomaly_scope_key provider model in release_scope key (lookup key d.scopes) d

  -- `blocked`: the scopes that wait for the operator, each with its block.
  unfoldable pub blocked_scopes : Scopes F → List (CostAnomalyBlockedError F)
  blocked_scopes [] = []
  blocked_scopes ((key, s) ∷ table) =
      let rest = blocked_scopes table in
      elim s.block [
        | none ↦ rest
        | some b ↦ record { provider = s.provider; model = s.model; block = b } ∷ rest
      ]

  pub data Status : Type 0 where
    disabled : Status
    no_charge_data : F → Status
    normal : (ratio : F) (samples : ℕ) (accepted : F) → Status
    watching : (ratio : F) (pending required : ℕ) (accepted : F) → Status
    blocked : CostAnomalyBlock F → Status

  abbrev pub observed_status : F → List F → Status
  unfolding median
  observed_status ratio [] = no_charge_data ratio
  observed_status ratio (x ∷ xs) = normal (median a (x ∷ xs)) (length (x ∷ xs)) ratio

  abbrev pub pending_status : ℕ → F → List F → List F → Status
  unfolding median observed_status
  pending_status required ratio [] observed = observed_status ratio observed
  pending_status required ratio (x ∷ xs) observed =
      watching (median a (x ∷ xs)) (length (x ∷ xs)) required ratio

  abbrev pub scope_status : CostAnomalyConfig F → CostAnomalyScopeState F → Status
  unfolding pending_status
  scope_status c s = elim s.block [
    | some b ↦ blocked b
    | none ↦ pending_status c.confirming_observations (accepted_ratio a s) s.pending s.observed
  ]

  unfoldable pub status : String → String → Detector F → Status
  unfolding lookup cost_anomaly_scope_key scope_status
  status provider model d =
      if d.config.enabled
      then scope_status d.config (
          get_or (new_scope provider model)
            (lookup (cost_anomaly_scope_key provider model) d.scopes))
      else disabled

  -- What reaches a detector; `restarted` is a new process over the same store.
  pub data Event : Type 0 where
    admitted released : (provider model : String) → Event
    observed_at : ℕ → Observation F → Event
    responded : ℕ → (provider model : String) → (usage charge : Option F) → Event
    replayed restarted : Event

  unfoldable pub step : Event → Detector F → Detector F
  unfolding admit observe settle release assert_no_boundary_failure construct
  step (admitted provider model) d = (admit provider model d).0
  step (released provider model) d = release provider model d
  step (observed_at now o) d = observe now o d
  step (responded now provider model usage charge) d = settle now provider model usage charge d
  step replayed d = (assert_no_boundary_failure d).0
  step restarted d = get_or d (construct d.config d.saved)

  unfoldable pub run : List Event → Detector F → Detector F
  unfolding step
  run [] d = d
  run (e ∷ es) d = run es (step e d)
