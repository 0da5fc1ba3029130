-- ===== src/Retry/Bounds.antt =====
-- How much the coordinator runs and keeps.
use ad_coder.Prelude.{
  ℕ, ◌≤◌, ◌+◌, ◌≡◌, ◌⊎◌, inl, refl, subst, ltb, leb, String, some, List, [], ◌∷◌, length,
  length-append, arith, if_rule, lookup,
}
use ad_coder.Retry.{
  Limits, Entry, Coordinator, remove_first, cancel, schedule, drain_from, drain, is_current, fire,
  finish, Event, scheduled, cancelled, fired, settled, step, run, construct, fresh,
}
use ad_coder.Retry.Counted.{settlements, IsCounted, run-IsCounted, construct-IsCounted}

-- No more run than admitted, no more wait than may, and none waits while one more could run.
pub record IsBounded (l : Limits) (c : Coordinator) : Type 0 where
  pub same : c.limits ≡ l
  pub running : c.active ≤ l.max_concurrent_admissions
  pub queued : length c.ready ≤ l.max_queued_admissions
  pub busy : (c.ready ≡ []) ⊎ (c.active ≡ l.max_concurrent_admissions)

drain_from-IsBounded :
    (l : Limits) (es : List Entry) (c : Coordinator)
    → c.limits ≡ l
    → c.active ≤ l.max_concurrent_admissions
    → length es ≤ l.max_queued_admissions
    → IsBounded l (drain_from c es)
unfolding drain_from
drain_from-IsBounded l [] c h a b = ground arith
drain_from-IsBounded l (e ∷ es) c h a b =
    if_rule (IsBounded l) (ltb c.active c.limits.max_concurrent_admissions) _ _
      (λ p. drain_from-IsBounded l es _ h (ground arith) (ground arith)) (λ p. ground arith)

length-remove_first : (r : String) (es : List Entry) → length (remove_first r es) ≤ length es
unfolding remove_first
length-remove_first r [] = omega arith
length-remove_first r (e ∷ es) = ground (arith, length-remove_first r es)

remove_first-nil : (r : String) (es : List Entry) → es ≡ [] → remove_first r es ≡ []
unfolding remove_first
remove_first-nil r [] h = refl
remove_first-nil r (e ∷ es) h = cc

cancel-IsBounded :
    (l : Limits) (r : String) (c : Coordinator) → IsBounded l c → IsBounded l (cancel r c)
unfolding cancel
cancel-IsBounded l r c i =
    let n = length-remove_first r c.ready in
    let e = remove_first-nil r c.ready in ground (arith, n, e)

fire-IsBounded :
    (l : Limits) (r : String) (t : ℕ) (c : Coordinator) → IsBounded l c → IsBounded l (fire r t c)
unfolding fire drain
fire-IsBounded l r t c i =
    if_rule (IsBounded l) (is_current t (lookup r c.pending)) _ _
      (λ p.
        if_rule (IsBounded l) (leb c.limits.max_queued_admissions (length c.ready)) _ _
          (λ q. record { same = i.same; running = i.running; queued = i.queued; busy = i.busy })
          (λ q. drain_from-IsBounded l _ _ i.same i.running (
            ground (arith, i.same, length-append c.ready (record { run_id = r; timer = t } ∷ [])))))
      (λ p. i)

finish-IsBounded : (l : Limits) (c : Coordinator) → IsBounded l c → IsBounded l (finish c)
unfolding finish drain
finish-IsBounded l c i =
    if_rule (IsBounded l) (ltb 0 c.active) _ _
      (λ p. drain_from-IsBounded l c.ready _ i.same (omega (arith, i.running)) i.queued) (λ p. i)

schedule-IsBounded :
    (l : Limits) (r : String) (d : ℕ) (c : Coordinator)
    → IsBounded l c
    → IsBounded l (schedule r d c)
unfolding schedule
schedule-IsBounded l r d c i =
    let j = cancel-IsBounded l r c i in
    record { same = j.same; running = j.running; queued = j.queued; busy = j.busy }

step-IsBounded : (l : Limits) (e : Event) (c : Coordinator) → IsBounded l c → IsBounded l (step e c)
unfolding step
step-IsBounded l (scheduled r d) c i = schedule-IsBounded l r d c i
step-IsBounded l (cancelled r) c i = cancel-IsBounded l r c i
step-IsBounded l (fired r t) c i = fire-IsBounded l r t c i
step-IsBounded l settled c i = finish-IsBounded l c i

run_from-IsBounded :
    (l : Limits) (es : List Event) (c : Coordinator) → IsBounded l c → IsBounded l (run es c)
unfolding run
run_from-IsBounded l [] c i = i
run_from-IsBounded l (e ∷ es) c i = run_from-IsBounded l es (step e c) (step-IsBounded l e c i)

pub construct-IsBounded : (l : Limits) (c : Coordinator) → construct l ≡ some c → IsBounded l c
unfolding construct
construct-IsBounded l c h =
    let e : fresh l ≡ c = ground (arith, h) in
    subst (IsBounded l) e
      (record { same = refl; running = omega arith; queued = omega arith; busy = inl refl })

-- Whatever is scheduled, cancelled, fired and settled: of the callbacks that a constructed coordinator
-- has started, never more than its limit of admissions have not settled; it never queues more than
-- its limit, and queues only while that many run. What runs is what the log of starts holds beyond
-- the settlements, not a counter of the coordinator.
pub run-IsBounded :
    (l : Limits) (c : Coordinator) (es : List Event)
    → construct l ≡ some c
    → (length (run es c).started ≤ settlements 0 es c + l.max_concurrent_admissions)
      × (length (run es c).ready ≤ l.max_queued_admissions)
      × (((run es c).ready ≡ [])
          ⊎ (length (run es c).started ≡ settlements 0 es c + l.max_concurrent_admissions))
unfolding IsCounted
run-IsBounded l c es h =
    let i = run_from-IsBounded l es c (construct-IsBounded l c h) in
    let n = run-IsCounted 0 es c (construct-IsCounted l c h) in
    ground (arith, i.running, i.queued, i.busy, n)
