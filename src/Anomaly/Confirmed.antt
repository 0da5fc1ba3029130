-- ===== src/Anomaly/Confirmed.antt =====
-- What stands behind a block.
use ad_coder.Prelude.{
  ℕ, ◌≤◌, ◌<◌, ◌≡◌, ◌∙◌, ap, refl, sym, subst, ltb, String, true, false, ◌&&◌, Option, none, some,
  List, [], ◌∷◌, All, All-append, All-insert, All-lookup, length, length-append, arith, if_rule,
  lookup,
}
use ad_coder.Anomaly.{
  Arithmetic, CostAnomalyConfig, CostAnomalyBlock, CostAnomalyScopeState, Observation, Scopes,
  Detector, get_or, is_blocked, assert_config, new_scope, median, is_normal, accepted_ratio,
  observe_normal, add_pending, confirmed, observe_over, observe_scope, accept,
  assert_no_boundary_failure, cost_anomaly_scope_key,
}
use ad_coder.Anomaly.Detection.{
  Event, construct, observe, release_block, release_scope, release, admitted, released, observed_at,
  responded, settle, replayed, restarted, step, run,
}
use ad_coder.Anomaly.Saved.{IsSaved, admit-same, restarted_same, step-IsSaved}
use ad_coder.Anomaly.Blocked.{step-config, constructed, constructed-IsSaved}

unblocked {ℓ} : {A : Type ℓ} (o : Option A) → is_blocked o ≡ false → o ≡ none
unblocked none h = refl
unblocked (some x) h = cc

module _ {F : Type 0} (a : Arithmetic F) where
  -- A block states the readings that confirmed it.
  abbrev pub Behind : ℕ → CostAnomalyScopeState F → Option (CostAnomalyBlock F) → Type 0
  Behind n s none = length s.pending < n
  Behind n s (some b) =
      (length s.pending ≡ n)
      × (b.confirming_observations ≡ n)
      × (b.ratio ≡ median a s.pending)
      × (b.accepted_ratio ≡ accepted_ratio a s)

  -- Every reading that is pending is over the threshold.
  pub record IsConfirmed (c : CostAnomalyConfig F) (s : CostAnomalyScopeState F) : Type 0 where
    pub behind : Behind c.confirming_observations s s.block
    pub over : All (λ r. is_normal a c s r ≡ false) s.pending

  observe_over-IsConfirmed :
      (c : CostAnomalyConfig F) (now : ℕ) (s : CostAnomalyScopeState F)
      → s.block ≡ none
      → length s.pending ≤ c.confirming_observations
      → All (λ r. is_normal a c s r ≡ false) s.pending
      → IsConfirmed c (observe_over a c now s)
  unfolding observe_over confirmed
  observe_over-IsConfirmed c now s e n h =
      if_rule (IsConfirmed c) (ltb (length s.pending) c.confirming_observations) _ _
        (λ p. record {
          behind = subst (Behind c.confirming_observations s) (sym e) (ground (arith, p));
          over = h;
        })
        (λ p. record {
          behind = (ground (arith, p, n), ground (arith, p, n), refl, refl);
          over = h;
        })

  observe_normal-IsConfirmed :
      (c : CostAnomalyConfig F) (ratio : F) (s : CostAnomalyScopeState F)
      → s.block ≡ none
      → 2 ≤ c.confirming_observations
      → IsConfirmed c (observe_normal a ratio s)
  unfolding observe_normal
  observe_normal-IsConfirmed c ratio s e n = record {
    behind =
        subst (Behind c.confirming_observations (observe_normal a ratio s)) (sym e)
          (omega (arith, n));
    over = tt;
  }

  add_pending-IsConfirmed :
      (c : CostAnomalyConfig F) (now : ℕ) (o : Observation F) (s : CostAnomalyScopeState F)
      → s.block ≡ none
      → is_normal a c s (a.divide o.charged_usd o.expected_usd) ≡ false
      → IsConfirmed c s
      → IsConfirmed c
          (observe_over a c now (add_pending a o (a.divide o.charged_usd o.expected_usd) s))
  unfolding add_pending
  add_pending-IsConfirmed c now o s e p i =
      let ratio = a.divide o.charged_usd o.expected_usd in
      let few : length s.pending < c.confirming_observations =
        subst (Behind c.confirming_observations s) e i.behind in
      observe_over-IsConfirmed c now (add_pending a o ratio s) e
        (omega (arith, few, length-append s.pending (ratio ∷ [])))
        (All-append (λ r. is_normal a c s r ≡ false) s.pending (ratio ∷ []) i.over (p, tt))

  observe_scope-IsConfirmed :
      (c : CostAnomalyConfig F) (now : ℕ) (o : Observation F) (s : CostAnomalyScopeState F)
      → 2 ≤ c.confirming_observations
      → IsConfirmed c s
      → IsConfirmed c (observe_scope a c now o s)
  unfolding observe_scope
  observe_scope-IsConfirmed c now o s n i =
      if_rule (IsConfirmed c) (is_blocked s.block) _ _ (λ p. i)
        (λ p.
          if_rule (IsConfirmed c) (is_normal a c s (a.divide o.charged_usd o.expected_usd)) _ _
            (λ q. observe_normal-IsConfirmed c _ s (unblocked s.block p) n)
            (λ q. add_pending-IsConfirmed c now o s (unblocked s.block p) q i))

  start-IsConfirmed :
      (c : CostAnomalyConfig F) (provider model : String)
      → 2 ≤ c.confirming_observations
      → IsConfirmed c (new_scope provider model)
  start-IsConfirmed c provider model n = record { behind = omega (arith, n); over = tt }

  accept-IsConfirmed :
      (c : CostAnomalyConfig F) (b : CostAnomalyBlock F) (s : CostAnomalyScopeState F)
      → 2 ≤ c.confirming_observations
      → IsConfirmed c (accept a b s)
  unfolding accept
  accept-IsConfirmed c b s n = record { behind = omega (arith, n); over = tt }

  abbrev AllConfirmed : CostAnomalyConfig F → Scopes F → Type 0
  AllConfirmed c table = All (λ (e : String × CostAnomalyScopeState F). IsConfirmed c e.1) table

  stored-IsConfirmed :
      (c : CostAnomalyConfig F) (n : CostAnomalyScopeState F) (key : String) (table : Scopes F)
      (o : Option (CostAnomalyScopeState F))
      → IsConfirmed c n
      → AllConfirmed c table
      → lookup key table ≡ o
      → IsConfirmed c (get_or n o)
  stored-IsConfirmed c n key table none i h e = i
  stored-IsConfirmed c n key table (some s) i h e = All-lookup (IsConfirmed c) key table h e

  observe-AllConfirmed :
      (now : ℕ) (o : Observation F) (d : Detector F)
      → 2 ≤ d.config.confirming_observations
      → AllConfirmed d.config d.scopes
      → AllConfirmed d.config (observe a now o d).scopes
  unfolding observe
  observe-AllConfirmed now o d n h =
      let key = cost_anomaly_scope_key o.provider o.model in
      let start = new_scope o.provider o.model in
      if_rule (λ (r : Detector F). AllConfirmed d.config r.scopes)
        (d.config.enabled && a.is_money o.charged_usd && a.is_money o.expected_usd) _ _
        (λ p.
          All-insert (IsConfirmed d.config) key _ d.scopes
            (observe_scope-IsConfirmed d.config now o _ n (
              stored-IsConfirmed d.config start key d.scopes (lookup key d.scopes)
                (start-IsConfirmed d.config o.provider o.model n) h refl))
            h)
        (λ p. h)

  settle-AllConfirmed :
      (now : ℕ) (p m : String) (u v : Option F) (d : Detector F)
      → 2 ≤ d.config.confirming_observations
      → AllConfirmed d.config d.scopes
      → AllConfirmed d.config (settle a now p m u v d).scopes
  unfolding settle
  settle-AllConfirmed now p m none v d n h = h
  settle-AllConfirmed now p m (some u) none d n h = h
  settle-AllConfirmed now p m (some u) (some v) d n h = observe-AllConfirmed now _ d n h

  release_block-AllConfirmed :
      (c : CostAnomalyConfig F) (key : String) (s : CostAnomalyScopeState F)
      (b : Option (CostAnomalyBlock F)) (d : Detector F)
      → 2 ≤ c.confirming_observations
      → AllConfirmed c d.scopes
      → AllConfirmed c (release_block a key s b d).scopes
  unfolding release_block
  release_block-AllConfirmed c key s none d n h = h
  release_block-AllConfirmed c key s (some b) d n h =
      All-insert (IsConfirmed c) key _ d.scopes (accept-IsConfirmed c b s n) h

  release_scope-AllConfirmed :
      (c : CostAnomalyConfig F) (key : String) (o : Option (CostAnomalyScopeState F))
      (d : Detector F)
      → 2 ≤ c.confirming_observations
      → AllConfirmed c d.scopes
      → AllConfirmed c (release_scope a key o d).scopes
  unfolding release_scope
  release_scope-AllConfirmed c key none d n h = h
  release_scope-AllConfirmed c key (some s) d n h = release_block-AllConfirmed c key s s.block d n h

  step-AllConfirmed :
      (e : Event a) (d : Detector F)
      → IsSaved d
      → 2 ≤ d.config.confirming_observations
      → AllConfirmed d.config d.scopes
      → AllConfirmed d.config (step a e d).scopes
  unfolding step release assert_no_boundary_failure
  step-AllConfirmed (admitted p m) d i n h =
      subst (AllConfirmed d.config) (sym (admit-same a p m d).0) h
  step-AllConfirmed (released p m) d i n h = release_scope-AllConfirmed d.config _ _ d n h
  step-AllConfirmed (observed_at now o) d i n h = observe-AllConfirmed now o d n h
  step-AllConfirmed (responded now p m u v) d i n h = settle-AllConfirmed now p m u v d n h
  step-AllConfirmed replayed d i n h = h
  step-AllConfirmed restarted d i n h =
      subst (AllConfirmed d.config) (sym (restarted_same a d i).0) h

  run-AllConfirmed :
      (c : CostAnomalyConfig F) (es : List (Event a)) (d : Detector F)
      → IsSaved d
      → d.config ≡ c
      → 2 ≤ c.confirming_observations
      → AllConfirmed c d.scopes
      → AllConfirmed c (run a es d).scopes
  unfolding run
  run-AllConfirmed c [] d i e n h = h
  run-AllConfirmed c (x ∷ es) d i e n h =
      run-AllConfirmed c es (step a x d) (step-IsSaved a x d i) (step-config a x d i ∙ e) n (
        subst (λ k. AllConfirmed k (step a x d).scopes) e
          (step-AllConfirmed x d i
            (subst (λ (k : CostAnomalyConfig F). 2 ≤ k.confirming_observations) (sym e) n)
            (subst (λ k. AllConfirmed k d.scopes) (sym e) h)))

  at_least_two :
      (c : CostAnomalyConfig F) → assert_config a c ≡ true → 2 ≤ c.confirming_observations
  unfolding assert_config
  at_least_two c h = ground arith

  -- No single reading blocks: after any history of a detector that was constructed, restarts from its
  -- store included, every block was confirmed by exactly the configured number of pending readings,
  -- two at least, none of which was below the threshold of the accepted price, and it states their
  -- median.
  pub run-IsConfirmed :
      (c : CostAnomalyConfig F) (d : Detector F) (es : List (Event a)) (key : String)
      (s : CostAnomalyScopeState F) (b : CostAnomalyBlock F)
      → construct a c none ≡ some d
      → lookup key (run a es d).scopes ≡ some s
      → s.block ≡ some b
      → (2 ≤ b.confirming_observations)
        × (b.confirming_observations ≡ c.confirming_observations)
        × (length s.pending ≡ b.confirming_observations)
        × (b.ratio ≡ median a s.pending)
        × All (λ r. a.less r (a.times b.accepted_ratio c.threshold_ratio) ≡ false) s.pending
  run-IsConfirmed c d es key s b h e f =
      let (valid, same) = constructed a c d h in
      let n = at_least_two c valid in
      let all_confirmed =
        run-AllConfirmed c es d (constructed-IsSaved a c d same)
          (ap (λ (x : Detector F). x.config) (sym same)) n
          (subst (λ (x : Detector F). AllConfirmed c x.scopes) same tt) in
      let i = All-lookup (IsConfirmed c) key (run a es d).scopes all_confirmed e in
      let (few, count, ratio, price) : Behind c.confirming_observations s (some b) =
        subst (Behind c.confirming_observations s) f i.behind in
      (
        omega (arith, n, count),
        count,
        omega (arith, few, count),
        ratio,
        subst (λ x. All (λ r. a.less r (a.times x c.threshold_ratio) ≡ false) s.pending) (sym price)
            i.over,
      )
