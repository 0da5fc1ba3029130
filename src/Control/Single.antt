-- ===== src/Control/Single.antt =====
-- src/orchestration/control-plane.ts: what holds of the stored records and of the executions after any
-- calls in any order, crashes included.
use ad_coder.Prelude.{
  ℕ, zero, suc, ◌+◌, ◌≤◌, String, true, Option, none, some, List, [], ◌∷◌, All, lookup, ◌≡◌, refl,
  subst, arith,
}
use ad_coder.Control.Plane.{Held, Task, resuming, World}
use ad_coder.Control.Children.{Answers}
use ad_coder.Control.Schedule.{
  Event, started, resumed, cancelled, budgeted, asked, ruled, answered, crashed, Setup, put_back,
  pick, answer, step, run, opened, reached,
}
use ad_coder.Control.Sound.{
  NumberedFrom, flag, flight, is_cancelled, is_execution, executions, starts, IsStored, IsReady,
  IsSound,
}
use ad_coder.Control.Writes.{flag_le}
use ad_coder.Control.Calls.{load_lem, advance-IsSound}
use ad_coder.Control.Steady.{enter-IsSound}
use ad_coder.Control.Entries.{
  start-IsSound, record_budget-IsSound, request-IsSound, ruled-IsSound, cancel-IsSound,
}
use ad_coder.Control.Replies.{Reply}

-- A picked task with the others is what was there.
abbrev IsPicked : (Task → Type 0) → List Task → Option (Task × List Task) → Type 0
IsPicked P ks none = Unit
IsPicked P ks (some (k, rest)) =
    P k
    × All P rest
    × ((id : String) → executions id ks ≡ flag (is_execution id k) + executions id rest)

put_back-IsPicked :
    (P : Task → Type 0) (k : Task) (ks : List Task) (o : Option (Task × List Task))
    → P k
    → IsPicked P ks o
    → IsPicked P (k ∷ ks) (put_back k o)
put_back-IsPicked P k ks none p h = tt
put_back-IsPicked P k ks (some (a, rest)) p (h, hs, e) = (h, (p, hs), λ id. omega (arith, e id))

pick-IsPicked : (P : Task → Type 0) (n : ℕ) (ks : List Task) → All P ks → IsPicked P ks (pick n ks)
unfolding pick
pick-IsPicked P n [] h = tt
pick-IsPicked P zero (k ∷ ks) (p, h) = (p, h, λ id. refl)
pick-IsPicked P (suc n) (k ∷ ks) (p, h) =
    put_back-IsPicked P k ks (pick n ks) p (pick-IsPicked P n ks h)

module _ (k : Setup) (w0 : World) where
  answer-IsSound :
      (a : Answers) (y : Reply) (w : World) (o : Option (Task × List Task))
      → IsPicked (IsReady w.runs) w.tasks o
      → IsSound w0 none w
      → IsSound w0 none (answer k a y w o)
  unfolding answer
  answer-IsSound a y w none h i = i
  answer-IsSound a y w (some (task, rest)) (p, ps, e) i =
      advance-IsSound w0 k.bytes_of k.texts k.config k.estimate k.jitter a task y _ p (record {
        stored = i.stored;
        ready = ps;
        flights = λ j. omega (arith, i.flights j, e j, load_lem w0 k.bytes_of task j);
        since = i.since;
      })

  step-IsSound : (e : Event) (w : World) → IsSound w0 none w → IsSound w0 none (step k e w)
  unfolding step
  step-IsSound (started a x) w i =
      start-IsSound w0 k.texts k.config k.bytes_of k.index_bytes a x w i
  step-IsSound (resumed id until) w i =
      enter-IsSound w0 none none (resuming id until []) w tt (λ j. omega arith) i
  step-IsSound (cancelled now id) w i = cancel-IsSound w0 k.texts k.config k.bytes_of now id w i
  step-IsSound (budgeted b now id) w i =
      record_budget-IsSound w0 k.texts k.config k.bytes_of b now id w i
  step-IsSound (asked q now id) w i = request-IsSound w0 k.texts k.config k.bytes_of q now id w i
  step-IsSound (ruled d x r now id) w i =
      ruled-IsSound w0 k.texts k.config k.bytes_of d x r now id w i
  step-IsSound (answered n a y) w i =
      answer-IsSound a y w _ (pick-IsPicked (IsReady w.runs) n w.tasks i.ready) i
  step-IsSound crashed w i = record {
    stored = i.stored;
    ready = tt;
    flights = λ j. omega (arith, i.flights j);
    since = i.since;
  }

  run-IsSound : (es : List Event) (w : World) → IsSound w0 none w → IsSound w0 none (run k es w)
  unfolding run
  run-IsSound [] w i = i
  run-IsSound (e ∷ es) w i = run-IsSound es (step k e w) (step-IsSound e w i)

IsSound-from : (w0 w : World) → IsSound w0 none w → IsSound w none w
IsSound-from w0 w i = record {
  stored = i.stored;
  ready = i.ready;
  flights = i.flights;
  since = λ j. λ h. (h, refl);
}

module _ (k : Setup) where
  reached-IsSound : (es : List Event) → IsSound (opened k) none (reached k es)
  unfolding reached lookup
  reached-IsSound es = run-IsSound k (opened k) es (opened k) (record {
    stored = λ j. tt;
    ready = tt;
    flights = λ j. omega arith;
    since = λ j. λ h. (h, refl);
  })

  -- After any calls of a new control plane, any answers and any crashes, a run has no more executions
  -- that have started and not ended than its stored record has turns in flight: none where the flag
  -- `provider_turn_in_flight` is false or the run is unknown, and one at most.
  pub executions-flight :
      (es : List Event) (id : String)
      → (executions id (reached k es).tasks ≤ flight (lookup id (reached k es).runs.states))
        × (executions id (reached k es).tasks ≤ 1)
  executions-flight es id =
      let i = reached-IsSound es in
      (
        omega (arith, i.flights id),
        omega (arith, i.flights id, flight_le (lookup id (reached k es).runs.states)),
      )
    where
      flight_le : (o : Option Held) → flight o ≤ 1
      flight_le none = omega arith
      flight_le (some v) = flag_le v.value.provider_turn_in_flight

  -- Where the stored record of a run asks for its cancellation, it does so after any further calls,
  -- answers and crashes, and `execute` is not called again for the run.
  pub cancelled_stays :
      (es later : List Event) (id : String)
      → is_cancelled (lookup id (reached k es).runs.states) ≡ true
      → (is_cancelled (lookup id (run k later (reached k es)).runs.states) ≡ true)
        × (starts id (run k later (reached k es)).started ≡ starts id (reached k es).started)
  cancelled_stays es later id h =
      let w = reached k es in
      (run-IsSound k w later w (IsSound-from (opened k) w (reached-IsSound es))).since id h

  -- After any calls, answers and crashes, a stored run is stored under its id, and its events are its
  -- own and are numbered one by one from 1 to its event sequence.
  pub events-numbered :
      (es : List Event) (id : String) (v : Held)
      → lookup id (reached k es).runs.states ≡ some v
      → (v.value.id ≡ id) × NumberedFrom id 0 v.value.events v.value.event_sequence
  events-numbered es id v h =
      let s : IsStored id (some v) = rw h at ((reached-IsSound es).stored id) in
      (s.0, subst (λ j. NumberedFrom j 0 v.value.events v.value.event_sequence) s.0 s.2)
