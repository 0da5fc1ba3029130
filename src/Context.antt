-- ===== src/Context.antt =====
-- src/context/: the context budget of a role (budget.ts), the estimate of a full request
-- (estimate.ts), the tail that a compaction keeps, the settings handed to the harness and the
-- resolved policy (compactor.ts), and the two checks before a turn (preflight.ts). The token
-- estimators of the agent library and `JSON.stringify` are parameters.
pub mod Tail
pub mod Threshold
pub mod Preflight
use ad_coder.Prelude.{
  ℕ, zero, suc, ◌+◌, ◌-◌, ◌/◌, ◌==◌, ltb, leb, min, max, String, Bool, true, false, not, ◌&&◌, ◌||◌,
  Option, none, some, List, [], ◌∷◌, if◌then◌else◌, any, str_eq,
}

pub record ContextBudget : Type 0 where
  pub max_tokens : ℕ
  pub reserve_tokens : ℕ
  pub keep_recent_tokens : ℕ

-- A budget as it is written down: `none` for a number that is negative or no integer.
pub record WrittenBudget : Type 0 where
  pub max_tokens : Option ℕ
  pub reserve_tokens : Option ℕ
  pub keep_recent_tokens : Option ℕ

pub data ContextError : Type 0 where
  bad_max_tokens bad_reserve_tokens bad_keep_recent_tokens : ContextError
  exceeds_window no_room context_budget : ContextError
  unsupported_mode unknown_mode bad_summary_tokens bad_retry_limit cross_provider : ContextError

pub data Checked {ℓ} (A : Type ℓ) : Type ℓ where
  ok : A → Checked A
  thrown : ContextError → Checked A

infixl 5 ◌>>=◌
abbrev pub ◌>>=◌ {ℓ κ} : {A : Type ℓ} {B : Type κ} → Checked A → (A → Checked B) → Checked B
ok a >>= f = f a
thrown e >>= f = thrown e

-- `isPositiveInteger`, with the error that is thrown where it fails.
abbrev pub positive : Option ℕ → ContextError → Checked ℕ
positive none e = thrown e
positive (some zero) e = thrown e
positive (some (suc n)) e = ok (suc n)

unfoldable pub fits_window : ContextBudget → ℕ → Checked ContextBudget
fits_window b window =
    if ltb window b.max_tokens
    then thrown exceeds_window
    else if leb b.max_tokens (b.reserve_tokens + b.keep_recent_tokens)
    then thrown no_room
    else ok b

-- The budget that passes is given back, as natural numbers.
unfoldable pub validate_context_budget : WrittenBudget → ℕ → Checked ContextBudget
unfolding fits_window
validate_context_budget b window = do
  m ← positive b.max_tokens bad_max_tokens
  r ← positive b.reserve_tokens bad_reserve_tokens
  k ← positive b.keep_recent_tokens bad_keep_recent_tokens
  fits_window (record { max_tokens = m; reserve_tokens = r; keep_recent_tokens = k }) window

pub record CompactionSettings : Type 0 where
  pub enabled : Bool
  pub reserve_tokens : ℕ
  pub keep_recent_tokens : ℕ

-- Subtraction stops at 0 where the source's `Math.max` with 1 and with 0 stops it too.
unfoldable pub durable_compaction_settings : ContextBudget → ℕ → ℕ → CompactionSettings
durable_compaction_settings b window overhead = record {
  enabled = true;
  reserve_tokens = window - max 1 (b.max_tokens - b.reserve_tokens - overhead);
  keep_recent_tokens = b.keep_recent_tokens;
}

pub data Mode : Type 0 where
  auto disabled_then_halt cache_aware unrecognized : Mode

-- A configured number: absent, no safe integer, or a number.
pub data Setting : Type 0 where
  absent unsafe : Setting
  set : ℕ → Setting

pub record CompactionPolicy : Type 0 where
  pub mode : Option Mode
  pub summary_max_tokens : Setting
  pub summarizer_retry_limit : Setting
  pub summarizer_provider : Option String
  pub allow_cross_provider : Bool
  pub fallback_to_role_model : Option Bool

pub record ResolvedPolicy : Type 0 where
  pub mode : Mode
  pub provider : Option String
  pub summary_max_tokens : ℕ
  pub summarizer_retry_limit : ℕ
  pub fallback_to_role_model : Bool

abbrev pub number_or : Setting → ℕ → ContextError → Checked ℕ
number_or absent d e = ok d
number_or unsafe d e = thrown e
number_or (set n) d e = ok n

abbrev pub mode_or_auto : Option Mode → Mode
mode_or_auto none = auto
mode_or_auto (some m) = m

abbrev pub text_or : Option String → String → String
text_or none d = d
text_or (some s) d = s

abbrev pub flag_or : Option Bool → Bool → Bool
flag_or none d = d
flag_or (some b) d = b

abbrev pub require : Bool → ContextError → Checked (Unit {0})
require true e = ok tt
require false e = thrown e

unfoldable pub resolve_auto : CompactionPolicy → String → ℕ → Checked ResolvedPolicy
resolve_auto p role_provider window = do
  n ← number_or p.summary_max_tokens (window / 3) bad_summary_tokens
  u ← require (ltb 0 n && leb n window) bad_summary_tokens
  r ← number_or p.summarizer_retry_limit 3 bad_retry_limit
  v ← require (leb 1 r) bad_retry_limit
  w ←
      require
        (str_eq (text_or p.summarizer_provider role_provider) role_provider
          || p.allow_cross_provider)
        cross_provider
  ok (record {
    mode = auto;
    provider = some (text_or p.summarizer_provider role_provider);
    summary_max_tokens = n;
    summarizer_retry_limit = r;
    fallback_to_role_model = flag_or p.fallback_to_role_model true;
  })

abbrev pub resolve_mode : Mode → CompactionPolicy → String → ℕ → Checked ResolvedPolicy
unfolding resolve_auto
resolve_mode auto p role_provider window = resolve_auto p role_provider window
resolve_mode cache_aware p role_provider window = thrown unsupported_mode
resolve_mode unrecognized p role_provider window = thrown unknown_mode
resolve_mode disabled_then_halt p role_provider window = ok (record {
  mode = disabled_then_halt;
  provider = none;
  summary_max_tokens = window / 3;
  summarizer_retry_limit = 3;
  fallback_to_role_model = true;
})

unfoldable pub resolve_compaction_policy : CompactionPolicy → String → ℕ → Checked ResolvedPolicy
unfolding resolve_mode
resolve_compaction_policy p = resolve_mode (mode_or_auto p.mode) p
