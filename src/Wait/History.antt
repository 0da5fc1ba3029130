-- ===== src/Wait/History.antt =====
-- src/orchestration/wait-service.ts: the histories of a service. Creations, cancellations and the
-- two parts of a `reconcile` interleave; one that fails leaves the states. `calls` are the calls of
-- the adapters, the last one first.
use ad_coder.Prelude.{ℕ, String, Bool, List, [], ◌∷◌, if◌then◌else◌}
use ad_coder.Versioned.{ok}
use ad_coder.Wait.{WaitTerms}
use ad_coder.Wait.Service.{create, cancel, begin_reconcile, end_reconcile}
use ad_coder.Wait.Records.{Waits, Answer, Answered, WaitService}

pub data WaitCall : Type 0 where
  create_wait : String → ℕ → WaitTerms → WaitCall
  cancel_wait : String → ℕ → WaitCall
  begin_wait : String → String → ℕ → WaitCall
  end_wait : String → String → Answered → ℕ → WaitCall

pub record World : Type 0 where
  pub waits : Waits
  pub calls : List (String × String)

abbrev pub after : World → Answer Waits → World
after w (ok t) = record w { waits = t }
after w _ = w

abbrev pub after_begin : String → String → World → Answer (Waits × Bool) → World
after_begin id op w (ok (t, called)) = record w {
  waits = t;
  calls = if called then (id, op) ∷ w.calls else w.calls;
}
after_begin id op w _ = w

unfoldable pub step : WaitService → WaitCall → World → World
unfolding create cancel begin_reconcile end_reconcile
step k (create_wait id now terms) w = after w (create k id now terms w.waits)
step k (cancel_wait id now) w = after w (cancel k id now w.waits)
step k (begin_wait id op now) w = after_begin id op w (begin_reconcile k id op now w.waits)
step k (end_wait id op a now) w = after w (end_reconcile k id op a now w.waits)

unfoldable pub run : WaitService → List WaitCall → World → World
unfolding step
run k [] w = w
run k (c ∷ cs) w = run k cs (step k c w)

-- A service without waits, over a store with the given limit of its states.
abbrev pub start : ℕ → World
start limit = record { waits = record { states = []; byte_limit = limit }; calls = [] }
