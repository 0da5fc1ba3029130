-- ===== src/Anomaly/Saved.antt =====
-- The store of a detector has its scopes.
use ad_coder.Prelude.{
  ℕ, ◌≡◌, ◌⊎◌, ◌∙◌, ap, inl, inr, refl, sym, String, ◌&&◌, Option, none, some, List, [], ◌∷◌,
  if_rule,
}
use ad_coder.Anomaly.{
  Arithmetic, CostAnomalyBlock, CostAnomalyScopeState, CostAnomalyBlockedError, Observation, Scopes,
  Detector, get_or, assert_config, assert_no_boundary_failure,
}
use ad_coder.Anomaly.Detection.{
  Event, construct, admit, observe, release_block, release_scope, release, admitted, released,
  observed_at, responded, settle, replayed, restarted, step, run,
}

-- The store has the scopes, or nothing was ever observed.
abbrev pub IsSaved : {F : Type 0} → Detector F → Type 0
IsSaved d = (d.saved ≡ some d.scopes) ⊎ ((d.saved ≡ none) × (d.scopes ≡ []))

module _ {F : Type 0} (a : Arithmetic F) where
  release_block-IsSaved :
      (key : String) (s : CostAnomalyScopeState F) (b : Option (CostAnomalyBlock F))
      (d : Detector F)
      → IsSaved d
      → IsSaved (release_block a key s b d)
  unfolding release_block
  release_block-IsSaved key s none d h = h
  release_block-IsSaved key s (some b) d h = inl refl

  release_scope-IsSaved :
      (key : String) (o : Option (CostAnomalyScopeState F)) (d : Detector F)
      → IsSaved d
      → IsSaved (release_scope a key o d)
  unfolding release_scope
  release_scope-IsSaved key none d h = h
  release_scope-IsSaved key (some s) d h = release_block-IsSaved key s s.block d h

  pub admit-same :
      (provider model : String) (d : Detector F)
      → ((admit a provider model d).0.scopes ≡ d.scopes)
        × ((admit a provider model d).0.saved ≡ d.saved)
        × ((admit a provider model d).0.config ≡ d.config)
  unfolding admit
  admit-same provider model d =
      if_rule
        (λ (r : Detector F × Option (CostAnomalyBlockedError F)).
          (r.0.scopes ≡ d.scopes) × (r.0.saved ≡ d.saved) × (r.0.config ≡ d.config))
        d.config.enabled _ _ (λ p. (refl, refl, refl)) (λ p. (refl, refl, refl))

  get_or_saved :
      (o : Option (Scopes F)) (x : Scopes F)
      → (o ≡ some x) ⊎ ((o ≡ none) × (x ≡ []))
      → get_or [] o ≡ x
  get_or_saved none x (inl h) = cc
  get_or_saved none x (inr (g, h)) = sym h
  get_or_saved (some y) x (inl h) = cc
  get_or_saved (some y) x (inr (g, h)) = cc

  pub restarted_same :
      (d : Detector F)
      → IsSaved d
      → let r = get_or d (construct a d.config d.saved) in
        (r.scopes ≡ d.scopes) × (r.saved ≡ d.saved) × (r.config ≡ d.config)
  unfolding construct
  restarted_same d h =
      if_rule
        (λ (r : Option (Detector F)).
          ((get_or d r).scopes ≡ d.scopes)
          × ((get_or d r).saved ≡ d.saved)
          × ((get_or d r).config ≡ d.config))
        (assert_config a d.config) _ _ (λ p. (get_or_saved d.saved d.scopes h, refl, refl))
        (λ p. (refl, refl, refl))

  IsSaved-same :
      (c d : Detector F) → (c.scopes ≡ d.scopes) → (c.saved ≡ d.saved) → IsSaved d → IsSaved c
  IsSaved-same c d e f (inl h) = inl (f ∙ h ∙ ap some (sym e))
  IsSaved-same c d e f (inr (g, h)) = inr (f ∙ g, e ∙ h)

  observe-IsSaved :
      (now : ℕ) (o : Observation F) (d : Detector F) → IsSaved d → IsSaved (observe a now o d)
  unfolding observe
  observe-IsSaved now o d h =
      if_rule IsSaved (d.config.enabled && a.is_money o.charged_usd && a.is_money o.expected_usd) _
        _ (λ p. inl refl) (λ p. h)

  settle-IsSaved :
      (now : ℕ) (p m : String) (u v : Option F) (d : Detector F)
      → IsSaved d
      → IsSaved (settle a now p m u v d)
  unfolding settle
  settle-IsSaved now p m none v d h = h
  settle-IsSaved now p m (some u) none d h = h
  settle-IsSaved now p m (some u) (some v) d h = observe-IsSaved now _ d h

  pub step-IsSaved : (e : Event a) (d : Detector F) → IsSaved d → IsSaved (step a e d)
  unfolding step release assert_no_boundary_failure
  step-IsSaved (admitted p m) d h =
      let (x, y, z) = admit-same p m d in IsSaved-same (admit a p m d).0 d x y h
  step-IsSaved (released p m) d h = release_scope-IsSaved _ _ d h
  step-IsSaved (observed_at now o) d h = observe-IsSaved now o d h
  step-IsSaved (responded now p m u v) d h = settle-IsSaved now p m u v d h
  step-IsSaved replayed d h = h
  step-IsSaved restarted d h =
      let (x, y, z) = restarted_same d h in
      IsSaved-same (get_or d (construct a d.config d.saved)) d x y h

  pub run-IsSaved : (es : List (Event a)) (d : Detector F) → IsSaved d → IsSaved (run a es d)
  unfolding run
  run-IsSaved [] d h = h
  run-IsSaved (e ∷ es) d h = run-IsSaved es (step a e d) (step-IsSaved e d h)
