-- ===== src/Retry/Cancelled.antt =====
-- How often a run is started, and what a cancelled run can still start.
use ad_coder.Prelude.{ℕ, ◌+◌, String, List, [], ◌∷◌, str_eq}
use ad_coder.Retry.{Event, scheduled}
use ad_coder.Retry.Chances.{one_if}

-- One more for the run that is scheduled.
abbrev pub schedules_of : String → Event → ℕ
schedules_of r (scheduled j d) = one_if (str_eq j r)
schedules_of r _ = 0

abbrev pub schedules : String → List Event → ℕ
schedules r [] = 0
schedules r (e ∷ es) = schedules_of r e + schedules r es
