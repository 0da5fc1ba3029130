-- ===== src/Ledger.antt =====
-- src/ledger/usage.ts: what a response used, from the running totals that a session reports. A usage is
-- a record of natural numbers, costs in whole micro-units; a `Map` is an association list.
pub mod Sums
use ad_coder.Prelude.{
  ℕ, ◌+◌, ◌-◌, ltb, String, Bool, true, false, ◌||◌, Option, none, some, List, [], ◌∷◌,
  if◌then◌else◌, lookup, insert, str_eq,
}

pub record Cost : Type 0 where
  pub input : ℕ
  pub output : ℕ
  pub cache_read : ℕ
  pub cache_write : ℕ
  pub total : ℕ

-- `UsageAmounts` has the same fields.
pub record Usage : Type 0 where
  pub input : ℕ
  pub output : ℕ
  pub cache_read : ℕ
  pub cache_write : ℕ
  pub cache_write_1h : Option ℕ
  pub reasoning : Option ℕ
  pub total_tokens : ℕ
  pub cost : Cost

-- `anomaly` is "non_monotonic".
pub record UsageDelta : Type 0 where
  pub amounts : Usage
  pub anomaly : Bool

-- `?? 0`
abbrev pub or_zero : Option ℕ → ℕ
or_zero none = 0
or_zero (some n) = n

-- The difference of `sub`: 0 where it is negative, as ℕ subtracts.
abbrev pub sub : ℕ → ℕ → ℕ
sub after before = after - before

unfoldable pub subset_field : Option ℕ → Option ℕ → Option ℕ
subset_field none none = none
subset_field none (some after) = some (sub after 0)
subset_field (some before) after = some (sub (or_zero after) before)

abbrev pub no_cost : Cost
no_cost = record { input = 0; output = 0; cache_read = 0; cache_write = 0; total = 0 }

abbrev pub no_usage : Usage
no_usage = record {
  input = 0;
  output = 0;
  cache_read = 0;
  cache_write = 0;
  cache_write_1h = none;
  reasoning = none;
  total_tokens = 0;
  cost = no_cost;
}

-- `prev?.`
abbrev pub usage_or_none : Option Usage → Usage
usage_or_none none = no_usage
usage_or_none (some u) = u

unfoldable pub diff_cost : Cost → Cost → Cost
diff_cost p n = record {
  input = sub n.input p.input;
  output = sub n.output p.output;
  cache_read = sub n.cache_read p.cache_read;
  cache_write = sub n.cache_write p.cache_write;
  total = sub n.total p.total;
}

unfoldable pub falls_cost : Cost → Cost → Bool
falls_cost p n =
    ltb n.input p.input
    || ltb n.output p.output
    || ltb n.cache_read p.cache_read
    || ltb n.cache_write p.cache_write
    || ltb n.total p.total

-- Whether one of the calls of `sub` sets `nonMonotonic`.
unfoldable pub falls : Usage → Usage → Bool
unfolding falls_cost
falls p n =
    ltb (or_zero n.cache_write_1h) (or_zero p.cache_write_1h)
    || ltb (or_zero n.reasoning) (or_zero p.reasoning)
    || ltb n.input p.input
    || ltb n.output p.output
    || ltb n.cache_read p.cache_read
    || ltb n.cache_write p.cache_write
    || ltb n.total_tokens p.total_tokens
    || falls_cost p.cost n.cost

unfoldable pub diff_usage : Option Usage → Usage → UsageDelta
unfolding subset_field diff_cost falls
diff_usage prev n =
    let p = usage_or_none prev in
    record {
      amounts = record {
        input = sub n.input p.input;
        output = sub n.output p.output;
        cache_read = sub n.cache_read p.cache_read;
        cache_write = sub n.cache_write p.cache_write;
        cache_write_1h = subset_field p.cache_write_1h n.cache_write_1h;
        reasoning = subset_field p.reasoning n.reasoning;
        total_tokens = sub n.total_tokens p.total_tokens;
        cost = diff_cost p.cost n.cost;
      };
      anomaly = falls p n;
    }

-- `UsageDeltaTracker`: the last totals by key.
abbrev pub Tracker : Type 0
Tracker = List (String × Usage)

unfoldable pub delta : String → Usage → Tracker → Tracker × UsageDelta
unfolding lookup insert diff_usage
delta key cumulative t = (insert key cumulative t, diff_usage (lookup key t) cumulative)

unfoldable pub forget : String → Tracker → Tracker
forget key [] = []
forget key ((j, u) ∷ t) = let rest = forget key t in if str_eq j key then rest else (j, u) ∷ rest

-- The deltas of a sequence of reported totals, each with its key.
unfoldable pub deltas : List (String × Usage) → Tracker → List (String × UsageDelta)
unfolding delta
deltas [] t = []
deltas ((key, u) ∷ es) t = let (next, d) = delta key u t in (key, d) ∷ deltas es next

unfoldable pub tracked : List (String × Usage) → Tracker → Tracker
unfolding delta
tracked [] t = t
tracked ((key, u) ∷ es) t = tracked es (delta key u t).0
