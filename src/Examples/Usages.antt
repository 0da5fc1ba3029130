-- ===== src/Examples/Usages.antt =====
-- Two sessions that report their totals; one of them starts again from less.
use ad_coder.Prelude.{All, ℕ, ◌≡◌, ◌≤◌, refl, none, some, String, List, [], ◌∷◌, lookup, insert}
use ad_coder.Ledger.{Usage, diff_usage, deltas, tracked}
use ad_coder.Ledger.Sums.{input, total_cost, reported, sum, last, deltas_cover, deltas_add_up}

abbrev totals : ℕ → ℕ → Usage
totals tokens cost = record {
  input = tokens;
  output = 3;
  cache_read = 0;
  cache_write = 0;
  cache_write_1h = none;
  reasoning = some 2;
  total_tokens = 0;
  cost = record { input = 0; output = 0; cache_read = 0; cache_write = 0; total = cost };
}

abbrev reports : List (String × Usage)
reports = ("a", totals 100 7) ∷ ("b", totals 40 1) ∷ ("a", totals 250 9) ∷ ("b", totals 30 5) ∷ []

deltas_cover_example :
    All (λ e. reported input "b" e ≤ sum input "b" (deltas reports [])) reports
    × (last input "b" (tracked reports []) ≤ sum input "b" (deltas reports []))
deltas_cover_example = deltas_cover input "b" reports

deltas_add_up_example :
    last total_cost "a" (tracked reports []) ≡ sum total_cost "a" (deltas reports [])
unfolding deltas lookup insert diff_usage
deltas_add_up_example = deltas_add_up total_cost "a" reports (refl, (refl, (refl, (refl, tt))))
