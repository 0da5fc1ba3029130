-- ===== src/Examples/Retries.antt =====
-- Two runs retry through a host that admits one at a time; one of them is cancelled.
use ad_coder.Prelude.{◌+◌, ◌≤◌, ◌≡◌, ◌⊎◌, length, refl, List, [], ◌∷◌}
use ad_coder.Retry.{Limits, Event, scheduled, fired, settled, run, fresh, construct}
use ad_coder.Retry.Bounds.{run-IsBounded}
use ad_coder.Retry.Counted.{settlements}

abbrev limits : Limits
limits = record {
  max_concurrent_admissions = 1;
  max_queued_admissions = 2;
  max_retry_delay_ms = 86400000;
}

abbrev busy : List Event
busy =
    scheduled "a" 2000
    ∷ scheduled "b" 500
    ∷ fired "a" 0
    ∷ fired "b" 1
    ∷ scheduled "b" 4000
    ∷ fired "b" 2
    ∷ []

abbrev later : List Event
later = fired "b" 2 ∷ settled ∷ fired "b" 1 ∷ []

run-IsBounded_example :
    (length (run busy (fresh limits)).started
      ≤ settlements 0 busy (fresh limits) + limits.max_concurrent_admissions)
    × (length (run busy (fresh limits)).ready ≤ limits.max_queued_admissions)
    × (((run busy (fresh limits)).ready ≡ [])
        ⊎ (length (run busy (fresh limits)).started
            ≡ settlements 0 busy (fresh limits) + limits.max_concurrent_admissions))
unfolding construct
run-IsBounded_example = run-IsBounded limits (fresh limits) busy refl
