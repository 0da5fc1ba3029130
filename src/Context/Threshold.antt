-- ===== src/Context/Threshold.antt =====
-- The harness's threshold, and the resolved policy.
use ad_coder.Prelude.{
  Option, none, some, Bool, true, false, not, str_eq, ℕ, ◌+◌, ◌-◌, ◌≤◌, ◌<◌, ◌≡◌, ◌↔◌, ◌⊎◌, String,
  arith,
}
use ad_coder.Context.{
  ContextBudget, WrittenBudget, ok, fits_window, validate_context_budget,
  durable_compaction_settings, CompactionPolicy, ResolvedPolicy, resolve_auto,
  resolve_compaction_policy,
}

valid_budget :
    (w : WrittenBudget) (b : ContextBudget) (window : ℕ)
    → validate_context_budget w window ≡ ok b
    → (0 < b.reserve_tokens)
      × (0 < b.keep_recent_tokens)
      × (b.max_tokens ≤ window)
      × (b.reserve_tokens + b.keep_recent_tokens < b.max_tokens)
unfolding validate_context_budget fits_window
valid_budget w b window h = ground arith

-- Under a valid budget, and with a request overhead below the compaction threshold, a dialogue of
-- `d` tokens exceeds the window less the harness's reserve exactly when the dialogue and the
-- overhead together exceed `maxTokens - reserveTokens`, and the harness's reserve is within the window.
pub durable_threshold :
    (w : WrittenBudget) (b : ContextBudget) (window overhead d : ℕ)
    → validate_context_budget w window ≡ ok b
    → overhead + b.reserve_tokens < b.max_tokens
    → ((durable_compaction_settings b window overhead).reserve_tokens < window)
      × ((window - (durable_compaction_settings b window overhead).reserve_tokens < d)
          ↔ (b.max_tokens < d + overhead + b.reserve_tokens))
unfolding durable_compaction_settings
durable_threshold w b window overhead d h o =
    let (x, y, z, v) = valid_budget w b window h in ground arith

-- The summarizer is of another provider than the role's model.
abbrev pub is_foreign : Option String → String → Bool
is_foreign none provider = false
is_foreign (some q) provider = not (str_eq q provider)

-- A policy that resolves, in any mode and with a window of three tokens or more, has a summary
-- ceiling between 1 and the window and at least one attempt, and hands the dialogue to a summarizer of
-- another provider only where the policy allows it.
pub resolved_policy_lem :
    (p : CompactionPolicy) (provider : String) (window : ℕ) (r : ResolvedPolicy)
    → 3 ≤ window
    → resolve_compaction_policy p provider window ≡ ok r
    → (0 < r.summary_max_tokens)
      × (r.summary_max_tokens ≤ window)
      × (1 ≤ r.summarizer_retry_limit)
      × ((is_foreign r.provider provider ≡ false) ⊎ (p.allow_cross_provider ≡ true))
unfolding resolve_compaction_policy resolve_auto
resolved_policy_lem p provider window r w h = ground arith
