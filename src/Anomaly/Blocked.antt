-- ===== src/Anomaly/Blocked.antt =====
-- How long a block stays.
use ad_coder.Prelude.{
  ℕ, ◌≡◌, ◌⊎◌, ◌∙◌, ap, inl, inr, refl, sym, subst, String, Bool, true, false, ◌&&◌, Option, none,
  some, List, [], ◌∷◌, if◌then◌else◌, All, if_rule, Bool-cases, lookup, insert, lookup-insert,
  str_eq,
}
use mathlib.Core.Option.{some-injective}
use text.Mathlib.TextEquality.{eq_iff}
use ad_coder.Anomaly.{
  Arithmetic, CostAnomalyConfig, CostAnomalyBlock, CostAnomalyScopeState, Observation, Scopes,
  Detector, cost_anomaly_scope_key, get_or, restored, is_blocked, assert_config, block_of,
  new_scope, observe_scope, assert_no_boundary_failure,
}
use ad_coder.Anomaly.Detection.{
  Event, construct, admit, observe, release_block, release_scope, release, admitted, released,
  observed_at, responded, settle, replayed, restarted, step, run,
}
use ad_coder.Anomaly.Saved.{IsSaved, admit-same, restarted_same, run-IsSaved, step-IsSaved}

none_some {ℓ} : {A : Type ℓ} (x : A) → none ≡ some x → ⊥
none_some x h = cc

contrary : (b : Bool) → b ≡ true → b ≡ false → ⊥
contrary true h g = cc
contrary false h g = cc

module _ {F : Type 0} (a : Arithmetic F) where
  -- An event that does not release the scope of a key.
  abbrev pub Unreleased : String → Event a → Type 0
  Unreleased key (released p m) = str_eq (cost_anomaly_scope_key p m) key ≡ false
  Unreleased key _ = Unit

  some_blocked :
      (o : Option (CostAnomalyBlock F)) (b : CostAnomalyBlock F) → o ≡ some b → is_blocked o ≡ true
  some_blocked none b h = cc
  some_blocked (some x) b h = refl

  block-get_or :
      (n : CostAnomalyScopeState F) (o : Option (CostAnomalyScopeState F)) (b : CostAnomalyBlock F)
      → block_of o ≡ some b
      → (get_or n o).block ≡ some b
  block-get_or n none b h = cc
  block-get_or n (some s) b h = h

  observe_scope_blocked :
      (c : CostAnomalyConfig F) (now : ℕ) (o : Observation F) (s : CostAnomalyScopeState F)
      (b : CostAnomalyBlock F)
      → s.block ≡ some b
      → (observe_scope a c now o s).block ≡ some b
  unfolding observe_scope
  observe_scope_blocked c now o s b h = let e = some_blocked s.block b h in rw e h

  -- Writing a scope leaves a block, if it is of another key, or has the block itself.
  insert-blocked :
      (key other : String) (s : CostAnomalyScopeState F) (table : Scopes F) (b : CostAnomalyBlock F)
      → block_of (lookup key table) ≡ some b
      → (str_eq other key ≡ false) ⊎ (s.block ≡ some b)
      → block_of (lookup key (insert other s table)) ≡ some b
  insert-blocked key other s table b h k =
      let e : lookup key (insert other s table)
          ≡ (if str_eq other key then some s else lookup key table) =
        lookup-insert other key s table in
      elim (Bool-cases (str_eq other key)) [
        | inr c ↦ ap block_of (rw c at e) ∙ h
        | inl c ↦ elim k [
          | inl differs ↦ absurd (contrary (str_eq other key) c differs)
          | inr kept ↦ ap block_of (rw c at e) ∙ kept
        ]
      ]

  observe-blocked :
      (key : String) (now : ℕ) (o : Observation F) (d : Detector F) (b : CostAnomalyBlock F)
      → block_of (lookup key d.scopes) ≡ some b
      → block_of (lookup key (observe a now o d).scopes) ≡ some b
  unfolding observe
  observe-blocked key now o d b h =
      let other = cost_anomaly_scope_key o.provider o.model in
      let s = get_or (new_scope o.provider o.model) (lookup other d.scopes) in
      if_rule (λ (r : Detector F). block_of (lookup key r.scopes) ≡ some b)
        (d.config.enabled && a.is_money o.charged_usd && a.is_money o.expected_usd) _ _
        (λ p.
          insert-blocked key other (observe_scope a d.config now o s) d.scopes b h
            (elim (Bool-cases (str_eq other key)) [
              | inr c ↦ inl c
              | inl c ↦ inr (
                  observe_scope_blocked d.config now o s b (
                    block-get_or _ (lookup other d.scopes) b (
                      subst (λ x. block_of (lookup x d.scopes) ≡ some b)
                        (sym ((eq_iff other key).0 c)) h)))
            ]))
        (λ p. h)

  settle-blocked :
      (key : String) (now : ℕ) (p m : String) (u v : Option F) (d : Detector F)
      (b : CostAnomalyBlock F)
      → block_of (lookup key d.scopes) ≡ some b
      → block_of (lookup key (settle a now p m u v d).scopes) ≡ some b
  unfolding settle
  settle-blocked key now p m none v d b h = h
  settle-blocked key now p m (some u) none d b h = h
  settle-blocked key now p m (some u) (some v) d b h = observe-blocked key now _ d b h

  release_block-other :
      (key other : String) (s : CostAnomalyScopeState F) (o : Option (CostAnomalyBlock F))
      (d : Detector F) (b : CostAnomalyBlock F)
      → str_eq other key ≡ false
      → block_of (lookup key d.scopes) ≡ some b
      → block_of (lookup key (release_block a other s o d).scopes) ≡ some b
  unfolding release_block
  release_block-other key other s none d b n h = h
  release_block-other key other s (some x) d b n h = insert-blocked key other _ d.scopes b h (inl n)

  release_scope-other :
      (key other : String) (o : Option (CostAnomalyScopeState F)) (d : Detector F)
      (b : CostAnomalyBlock F)
      → str_eq other key ≡ false
      → block_of (lookup key d.scopes) ≡ some b
      → block_of (lookup key (release_scope a other o d).scopes) ≡ some b
  unfolding release_scope
  release_scope-other key other none d b n h = h
  release_scope-other key other (some s) d b n h = release_block-other key other s s.block d b n h

  step-blocked :
      (key : String) (e : Event a) (d : Detector F) (b : CostAnomalyBlock F)
      → IsSaved d
      → Unreleased key e
      → block_of (lookup key d.scopes) ≡ some b
      → block_of (lookup key (step a e d).scopes) ≡ some b
  unfolding step release assert_no_boundary_failure
  step-blocked key (admitted p m) d b i u h =
      subst (λ t. block_of (lookup key t) ≡ some b) (sym (admit-same a p m d).0) h
  step-blocked key (released p m) d b i u h = release_scope-other key _ _ d b u h
  step-blocked key (observed_at now o) d b i u h = observe-blocked key now o d b h
  step-blocked key (responded now p m x y) d b i u h = settle-blocked key now p m x y d b h
  step-blocked key replayed d b i u h = h
  step-blocked key restarted d b i u h =
      subst (λ t. block_of (lookup key t) ≡ some b) (sym (restarted_same a d i).0) h

  run-blocked :
      (key : String) (es : List (Event a)) (d : Detector F) (b : CostAnomalyBlock F)
      → IsSaved d
      → All (Unreleased key) es
      → block_of (lookup key d.scopes) ≡ some b
      → block_of (lookup key (run a es d).scopes) ≡ some b
  unfolding run
  run-blocked key [] d b i u h = h
  run-blocked key (e ∷ es) d b i u h =
      run-blocked key es (step a e d) b (step-IsSaved a e d i) u.1 (step-blocked key e d b i u.0 h)

  admit-blocked :
      (provider model : String) (d : Detector F) (b : CostAnomalyBlock F)
      → d.config.enabled ≡ true
      → block_of (lookup (cost_anomaly_scope_key provider model) d.scopes) ≡ some b
      → (admit a provider model d).1
        ≡ some (record { provider = provider; model = model; block = b })
  unfolding admit
  admit-blocked provider model d b e h = rw (e, h) refl

  observe-config :
      (now : ℕ) (o : Observation F) (d : Detector F) → (observe a now o d).config ≡ d.config
  unfolding observe
  observe-config now o d =
      if_rule (λ (r : Detector F). r.config ≡ d.config)
        (d.config.enabled && a.is_money o.charged_usd && a.is_money o.expected_usd) _ _ (λ p. refl)
        (λ p. refl)

  settle-config :
      (now : ℕ) (p m : String) (u v : Option F) (d : Detector F)
      → (settle a now p m u v d).config ≡ d.config
  unfolding settle
  settle-config now p m none v d = refl
  settle-config now p m (some u) none d = refl
  settle-config now p m (some u) (some v) d = observe-config now _ d

  release_block-config :
      (key : String) (s : CostAnomalyScopeState F) (o : Option (CostAnomalyBlock F))
      (d : Detector F)
      → (release_block a key s o d).config ≡ d.config
  unfolding release_block
  release_block-config key s none d = refl
  release_block-config key s (some b) d = refl

  release_scope-config :
      (key : String) (o : Option (CostAnomalyScopeState F)) (d : Detector F)
      → (release_scope a key o d).config ≡ d.config
  unfolding release_scope
  release_scope-config key none d = refl
  release_scope-config key (some s) d = release_block-config key s s.block d

  pub step-config : (e : Event a) (d : Detector F) → IsSaved d → (step a e d).config ≡ d.config
  unfolding step release assert_no_boundary_failure
  step-config (admitted p m) d i = (admit-same a p m d).2
  step-config (released p m) d i = release_scope-config _ _ d
  step-config (observed_at now o) d i = observe-config now o d
  step-config (responded now p m u v) d i = settle-config now p m u v d
  step-config replayed d i = refl
  step-config restarted d i = (restarted_same a d i).2

  run-config : (es : List (Event a)) (d : Detector F) → IsSaved d → (run a es d).config ≡ d.config
  unfolding run
  run-config [] d i = refl
  run-config (e ∷ es) d i = run-config es (step a e d) (step-IsSaved a e d i) ∙ step-config e d i

  pub constructed :
      (c : CostAnomalyConfig F) (d : Detector F)
      → construct a c none ≡ some d
      → (assert_config a c ≡ true) × (restored c none ≡ d)
  unfolding construct
  constructed c d h = elim (Bool-cases (assert_config a c)) [
    | inl p ↦ let e : some (restored c none) ≡ some d = rw p at h in (p, some-injective _ _ e)
    | inr p ↦ let e : none ≡ some d = rw p at h in absurd (none_some d e)
  ]

  pub constructed-IsSaved :
      (c : CostAnomalyConfig F) (d : Detector F) → restored c none ≡ d → IsSaved d
  constructed-IsSaved c d h = subst (λ (x : Detector F). IsSaved x) h (inr (refl, refl))

  -- A blocked model stays blocked, by the same block, over all observations, admissions, releases of
  -- other scopes and restarts from the store, until it is released itself; and every admission of it
  -- is refused with that block.
  pub blocked_until_released :
      (c : CostAnomalyConfig F) (d : Detector F) (es fs : List (Event a)) (provider model : String)
      (b : CostAnomalyBlock F)
      → construct a c none ≡ some d
      → c.enabled ≡ true
      → block_of (lookup (cost_anomaly_scope_key provider model) (run a es d).scopes) ≡ some b
      → All (Unreleased (cost_anomaly_scope_key provider model)) fs
      → let r = run a fs (run a es d) in
        (block_of (lookup (cost_anomaly_scope_key provider model) r.scopes) ≡ some b)
        × ((admit a provider model r).1
            ≡ some (record { provider = provider; model = model; block = b }))
  blocked_until_released c d es fs provider model b h e k u =
      let key = cost_anomaly_scope_key provider model in
      let (valid, e2) = constructed c d h in
      let saved = constructed-IsSaved c d e2 in
      let same = ap (λ (x : Detector F). x.config) (sym e2) in
      let i = run-IsSaved a es d saved in
      let stays = run-blocked key fs (run a es d) b i u k in
      let f = run-config fs (run a es d) i ∙ run-config es d saved ∙ same in
      (
        stays,
        admit-blocked provider model (run a fs (run a es d)) b
            (ap (λ (x : CostAnomalyConfig F). x.enabled) f ∙ e) stays,
      )
