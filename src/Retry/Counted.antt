-- ===== src/Retry/Counted.antt =====
-- The log of the coordinator against the events: which callbacks have not settled.
use ad_coder.Prelude.{
  ℕ, ◌+◌, ◌-◌, ◌≡◌, inl, inr, true, false, if◌then◌else◌, Bool-cases, refl, subst, ltb, leb, String,
  some, List, [], ◌∷◌, length, arith, if_rule, lookup,
}
use ad_coder.Retry.{
  Limits, Entry, Coordinator, cancel, schedule, drain_from, drain, is_current, fire, finish, Event,
  scheduled, cancelled, fired, settled, step, run, construct, fresh,
}

-- How many callbacks settled, `n` so far: an event is counted where a callback that was started has
-- not settled yet.
abbrev pub settles_one : Event → ℕ → Coordinator → ℕ
settles_one settled n c = if ltb n (length c.started) then n + 1 else n
settles_one _ n c = n

unfoldable pub settlements : ℕ → List Event → Coordinator → ℕ
unfolding step
settlements n [] c = n
settlements n (e ∷ es) c = settlements (settles_one e n c) es (step e c)

-- The log has the callbacks that settled and the ones that count as running.
unfoldable pub IsCounted : ℕ → Coordinator → Type 0
IsCounted n c = length c.started ≡ n + c.active

drain_from-IsCounted :
    (n : ℕ) (es : List Entry) (c : Coordinator) → IsCounted n c → IsCounted n (drain_from c es)
unfolding drain_from IsCounted
drain_from-IsCounted n [] c h = h
drain_from-IsCounted n (e ∷ es) c h =
    if_rule (IsCounted n) (ltb c.active c.limits.max_concurrent_admissions) _ _
      (λ p. drain_from-IsCounted n es _ (omega (arith, h))) (λ p. h)

fire-IsCounted :
    (n : ℕ) (r : String) (t : ℕ) (c : Coordinator) → IsCounted n c → IsCounted n (fire r t c)
unfolding fire drain IsCounted
fire-IsCounted n r t c h =
    if_rule (IsCounted n) (is_current t (lookup r c.pending)) _ _
      (λ p.
        if_rule (IsCounted n) (leb c.limits.max_queued_admissions (length c.ready)) _ _ (λ q. h)
          (λ q. drain_from-IsCounted n _ _ h))
      (λ p. h)

finish-IsCounted :
    (n : ℕ) (c : Coordinator) → IsCounted n c → IsCounted (settles_one settled n c) (finish c)
unfolding finish drain IsCounted
finish-IsCounted n c h = elim (Bool-cases (ltb 0 c.active)) [
  | inl some_run ↦
      let unsettled : ltb n (length c.started) ≡ true = ground (arith, h) in
      rw (some_run, unsettled)
        (drain_from-IsCounted (n + 1) c.ready (record c { active = c.active - 1 })
          (ground (arith, h)))
  | inr none_runs ↦
      let all_settled : ltb n (length c.started) ≡ false = ground (arith, h) in
      rw (none_runs, all_settled) h
]

step-IsCounted :
    (n : ℕ) (e : Event) (c : Coordinator) → IsCounted n c → IsCounted (settles_one e n c) (step e c)
unfolding step schedule cancel IsCounted
step-IsCounted n (scheduled r d) c h = h
step-IsCounted n (cancelled r) c h = h
step-IsCounted n (fired r t) c h = fire-IsCounted n r t c h
step-IsCounted n settled c h = finish-IsCounted n c h

pub run-IsCounted :
    (n : ℕ) (es : List Event) (c : Coordinator)
    → IsCounted n c
    → IsCounted (settlements n es c) (run es c)
unfolding run settlements
run-IsCounted n [] c h = h
run-IsCounted n (e ∷ es) c h =
    run-IsCounted (settles_one e n c) es (step e c) (step-IsCounted n e c h)

pub construct-IsCounted : (l : Limits) (c : Coordinator) → construct l ≡ some c → IsCounted 0 c
unfolding construct IsCounted
construct-IsCounted l c h = let e : fresh l ≡ c = ground (arith, h) in subst (IsCounted 0) e refl
