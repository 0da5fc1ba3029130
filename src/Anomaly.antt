-- ===== src/Anomaly.antt =====
-- src/economics/cost-anomaly.ts: `CostAnomalyDetector`, which blocks a model that is billed above its
-- declared price. Floating-point numbers are a parameter, the type `F` with the operations of
-- `Arithmetic`; a `Map` is an association list, and the store keeps the last snapshot.
pub mod Detection
pub mod Saved
pub mod Blocked
pub mod Confirmed
use Prim.Native.String.{◌++◌ as append_text}
use ad_coder.Prelude.{
  ℕ, zero, suc, ◌+◌, ◌-◌, ◌/◌, ◌%◌, ◌==◌, ltb, leb, String, Bool, true, false, not, ◌&&◌, Option,
  none, some, List, [], ◌∷◌, ◌++◌, if◌then◌else◌, length, drop, lookup, insert,
}

-- `is_money` holds of the finite numbers above 0; `larger` is `Math.max`.
pub record Arithmetic (F : Type 0) : Type 0 where
  pub is_money : F → Bool
  pub divide : F → F → F
  pub times : F → F → F
  pub plus : F → F → F
  pub less : F → F → Bool
  pub larger : F → F → F
  pub nought : F
  pub one : F
  pub two : F
  pub nan : F

module _ (F : Type 0) where
  pub record CostAnomalyConfig : Type 0 where
    pub enabled : Bool
    pub threshold_ratio : F
    pub confirming_observations : ℕ

  pub record CostAnomalyBlock : Type 0 where
    pub at : ℕ
    pub charged_usd : F
    pub expected_usd : F
    pub ratio : F
    pub accepted_ratio : F
    pub confirming_observations : ℕ

  pub record CostAnomalyScopeState : Type 0 where
    pub provider : String
    pub model : String
    pub observed : List F
    pub pending : List F
    pub pending_charged_usd : Option F
    pub pending_expected_usd : Option F
    pub accepted : Option F
    pub block : Option CostAnomalyBlock

  pub record CostAnomalyBlockedError : Type 0 where
    pub provider : String
    pub model : String
    pub block : CostAnomalyBlock

  pub record Observation : Type 0 where
    pub provider : String
    pub model : String
    pub charged_usd : F
    pub expected_usd : F

  abbrev pub Scopes : Type 0
  Scopes = List (String × CostAnomalyScopeState)

  -- `saved` is the snapshot in the store, once one was written.
  pub record Detector : Type 0 where
    pub config : CostAnomalyConfig
    pub scopes : Scopes
    pub boundary_failure : Option CostAnomalyBlockedError
    pub saved : Option Scopes

abbrev pub observed_history : ℕ
observed_history = 20

unfoldable pub cost_anomaly_scope_key : String → String → String
cost_anomaly_scope_key provider model = append_text provider (append_text "/" model)

abbrev pub get_or {ℓ} : {A : Type ℓ} → A → Option A → A
get_or a none = a
get_or a (some b) = b

abbrev pub is_blocked {ℓ} : {A : Type ℓ} → Option A → Bool
is_blocked none = false
is_blocked (some b) = true

module _ {F : Type 0} where
  -- `trim`: at most 20 ratios, the last ones.
  abbrev pub trim : List F → List F
  trim xs = drop (length xs - observed_history) xs

  abbrev pub persist : Detector F → Detector F
  persist d = record d { saved = some d.scopes }

  -- With the states of an earlier detector, read back from the store.
  abbrev pub restored : CostAnomalyConfig F → Option (Scopes F) → Detector F
  restored c stored = record {
    config = c;
    scopes = get_or [] stored;
    boundary_failure = none;
    saved = stored;
  }

  abbrev pub block_of : Option (CostAnomalyScopeState F) → Option (CostAnomalyBlock F)
  block_of none = none
  block_of (some s) = s.block

  abbrev pub refusal :
      String → String → Option (CostAnomalyBlock F) → Option (CostAnomalyBlockedError F)
  refusal provider model none = none
  refusal provider model (some b) = some (record { provider = provider; model = model; block = b })

  abbrev pub refuse :
      Option (CostAnomalyBlockedError F)
      → Detector F
      → Detector F × Option (CostAnomalyBlockedError F)
  refuse e d = (record d { boundary_failure = e }, e)

  unfoldable pub assert_no_boundary_failure :
      Detector F → Detector F × Option (CostAnomalyBlockedError F)
  assert_no_boundary_failure d = (record d { boundary_failure = none }, d.boundary_failure)

  abbrev pub new_scope : String → String → CostAnomalyScopeState F
  new_scope provider model = record {
    provider = provider;
    model = model;
    observed = [];
    pending = [];
    pending_charged_usd = none;
    pending_expected_usd = none;
    accepted = none;
    block = none;
  }

module _ {F : Type 0} (a : Arithmetic F) where
  unfoldable pub assert_config : CostAnomalyConfig F → Bool
  assert_config c =
      a.is_money c.threshold_ratio
      && a.less a.one c.threshold_ratio
      && leb 2 c.confirming_observations

  -- The sort of `median`.
  unfoldable pub insert_sorted : F → List F → List F
  insert_sorted x [] = x ∷ []
  insert_sorted x (y ∷ ys) =
      let rest = insert_sorted x ys in if a.less x y then x ∷ y ∷ ys else y ∷ rest

  unfoldable pub sorted : List F → List F
  unfolding insert_sorted
  sorted [] = []
  sorted (x ∷ xs) = insert_sorted x (sorted xs)

  unfoldable pub item : List F → ℕ → F
  item [] n = a.nan
  item (x ∷ xs) zero = x
  item (x ∷ xs) (suc n) = item xs n

  unfoldable pub median : List F → F
  unfolding sorted item
  median values =
      let s = sorted values in
      let middle = length s / 2 in
      if length s % 2 == 1
      then item s middle
      else a.divide (a.plus (item s (middle - 1)) (item s middle)) a.two

  abbrev pub accepted_ratio : CostAnomalyScopeState F → F
  accepted_ratio s = get_or a.one s.accepted

  -- `ratio < acceptedRatio * thresholdRatio`
  abbrev pub is_normal : CostAnomalyConfig F → CostAnomalyScopeState F → F → Bool
  is_normal c s ratio = a.less ratio (a.times (accepted_ratio s) c.threshold_ratio)

  unfoldable pub observe_normal : F → CostAnomalyScopeState F → CostAnomalyScopeState F
  observe_normal ratio s = record s {
    pending = [];
    pending_charged_usd = none;
    pending_expected_usd = none;
    observed = trim (s.observed ++ (ratio ∷ []));
  }

  unfoldable pub add_pending : Observation F → F → CostAnomalyScopeState F → CostAnomalyScopeState F
  add_pending o ratio s = record s {
    pending = s.pending ++ (ratio ∷ []);
    pending_charged_usd = some (a.plus (get_or a.nought s.pending_charged_usd) o.charged_usd);
    pending_expected_usd = some (a.plus (get_or a.nought s.pending_expected_usd) o.expected_usd);
  }

  unfoldable pub confirmed : ℕ → CostAnomalyScopeState F → CostAnomalyScopeState F
  unfolding median
  confirmed now s = record s {
    block = some (record {
      at = now;
      charged_usd = get_or a.nought s.pending_charged_usd;
      expected_usd = get_or a.nought s.pending_expected_usd;
      ratio = median s.pending;
      accepted_ratio = accepted_ratio s;
      confirming_observations = length s.pending;
    });
  }

  unfoldable pub observe_over :
      CostAnomalyConfig F → ℕ → CostAnomalyScopeState F → CostAnomalyScopeState F
  unfolding confirmed
  observe_over c now s =
      if ltb (length s.pending) c.confirming_observations then s else confirmed now s

  -- What a valid observation makes of its scope; a blocked one stays as it is.
  unfoldable pub observe_scope :
      CostAnomalyConfig F → ℕ → Observation F → CostAnomalyScopeState F → CostAnomalyScopeState F
  unfolding observe_normal add_pending observe_over
  observe_scope c now o s =
      let ratio = a.divide o.charged_usd o.expected_usd in
      if is_blocked s.block
      then s
      else if is_normal c s ratio
      then observe_normal ratio s
      else observe_over c now (add_pending o ratio s)

  unfoldable pub accept : CostAnomalyBlock F → CostAnomalyScopeState F → CostAnomalyScopeState F
  accept b s = record s {
    block = none;
    accepted = some (a.larger (accepted_ratio s) b.ratio);
    observed = trim s.pending;
    pending = [];
    pending_charged_usd = none;
    pending_expected_usd = none;
  }
