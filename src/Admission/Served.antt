-- ===== src/Admission/Served.antt =====
-- How many calls a scope serves at once, counted by the tokens and not by the scope's own counter.
use ad_coder.Prelude.{
  true, false, ◌⊎◌, ℕ, ◌≤◌, ◌<◌, ◌≡◌, refl, sym, inl, inr, String, Option, List, [], ◌∷◌, arith,
  length, lookup, All, All-impl, All-lookup, Option-cases,
}
use ad_coder.Admission.{Token, Config, Controller, Snapshot}
use ad_coder.Admission.Restore.{fresh}
use ad_coder.Admission.Release.{is_queued, react_rejection}
use ad_coder.Admission.Wrap.{
  Event, begins, admits, finishes, cancels, resumes, releases, resolves, threw, succeeded, rejected,
  priority_of, finish, step, run,
}
use ad_coder.Admission.Bounds.{InBounds, WithinLimits, run-WithinLimits}
use ad_coder.Admission.Counts.{
  count_zero, is_granted, count, in_service, gratis, counts_balance, held, held_by, held-lookup,
}
use ad_coder.Admission.Tally.{IsEarned}
use ad_coder.Admission.Tally.Reserving.{IsTallied, reserve-IsTallied}
use ad_coder.Admission.Tally.Releasing.{
  resume_rejected-IsTallied, cancel-IsTallied, settle_token-IsTallied, release-IsTallied,
  resolve_uncertain-IsTallied, react_rejection-IsTallied, react_rejection-tokens,
  react_rejection-next_token,
}

-- A call that ends is one that was let through; a call is released while it waits or after it was let
-- through; and a call that is cancelled or resolved was made.
abbrev pub IsOrderly : Controller → Event → Type 0
IsOrderly c (finishes o key i) = (i < c.next_token) × (is_granted (c.tokens i).state ≡ true)
IsOrderly c (releases i) =
    (i < c.next_token)
    × ((is_queued (c.tokens i).state ≡ true) ⊎ (is_granted (c.tokens i).state ≡ true))
IsOrderly c (resolves i) = i < c.next_token
IsOrderly c (cancels i) = i < c.next_token
IsOrderly c _ = Unit

unfoldable pub AllOrderly : List (ℕ × Event) → Controller → Type 0
AllOrderly [] c = Unit
AllOrderly ((now, e) ∷ es) c = IsOrderly c e × AllOrderly es (step now e c)

step-IsTallied :
    (cfg : Config) (now : ℕ) (e : Event) (c : Controller)
    → IsOrderly c e
    → IsTallied cfg c
    → IsTallied cfg (step now e c)
unfolding step finish
step-IsTallied cfg now (begins key label m) c k h =
    reserve-IsTallied cfg key label (priority_of m) now c h
step-IsTallied cfg now (admits key label p) c k h = reserve-IsTallied cfg key label p now c h
step-IsTallied cfg now (finishes threw key i) c k h = settle_token-IsTallied cfg now i c k.0 k.1 h
step-IsTallied cfg now (finishes succeeded key i) c k h =
    settle_token-IsTallied cfg now i c k.0 k.1 h
step-IsTallied cfg now (finishes (rejected l) key i) c k h =
    settle_token-IsTallied cfg now i (react_rejection key l now c)
      (omega (arith, k.0, react_rejection-next_token cfg key l now c))
      (rw (react_rejection-tokens cfg key l now c) k.1)
      (react_rejection-IsTallied cfg key l now c h)
step-IsTallied cfg now (cancels i) c k h = cancel-IsTallied cfg i c k h
step-IsTallied cfg now (resumes key i) c k h = resume_rejected-IsTallied cfg key i c h
step-IsTallied cfg now (releases i) c k h = release-IsTallied cfg now i c k.0 k.1 h
step-IsTallied cfg now (resolves i) c k h = resolve_uncertain-IsTallied cfg now i c k h

run-IsTallied :
    (cfg : Config) (es : List (ℕ × Event)) (c : Controller)
    → AllOrderly es c
    → IsTallied cfg c
    → IsTallied cfg (run es c)
unfolding run AllOrderly
run-IsTallied cfg [] c k h = h
run-IsTallied cfg ((now, e) ∷ es) c k h =
    run-IsTallied cfg es (step now e c) k.1 (step-IsTallied cfg now e c k.0 h)

fresh-IsTallied :
    (cfg : Config) (store : Option (Option Snapshot)) → IsTallied cfg (fresh cfg store)
unfolding fresh held count
fresh-IsTallied cfg store = record {
  same = refl;
  covers = record { distinct = tt; mine = tt; earned = λ j lt. refl; covered = λ key. omega arith };
}

held-WithinLimits :
    (cfg : Config) (key : String) (c : Controller)
    → c.config ≡ cfg
    → WithinLimits c
    → held_by (lookup key c.scopes) ≤ cfg.max_concurrent_per_scope
held-WithinLimits cfg key c e h = elim (Option-cases (lookup key c.scopes)) [
  | inl n ↦ rw n (omega arith)
  | inr (s, n) ↦
      let b : InBounds c.config s = All-lookup (InBounds c.config) key c.scopes h n in
      rw (n, sym e) b.concurrency
]

no_gratis : (key : String) (t : Token) → IsEarned t → gratis key t ≡ false
no_gratis key t h = ground (arith, h)

-- In any history of a new controller, no scope serves more calls at once than `maxConcurrentPerScope`,
-- and no scope queues more than `queueCapacityPerScope`, where each call that ends was let through, each
-- that is released waits or was let through, and each that is cancelled or resolved was made. A call
-- is served from when it is let through until its permit is given back, which the tokens tell, not the
-- counter of the scope.
pub served_within_limits :
    (cfg : Config) (store : Option (Option Snapshot)) (es : List (ℕ × Event)) (key : String)
    → AllOrderly es (fresh cfg store)
    → let c = run es (fresh cfg store) in
      (count (in_service key) c.tokens c.next_token ≤ cfg.max_concurrent_per_scope)
      × All (λ e. length e.1.queue ≤ cfg.queue_capacity_per_scope) c.scopes
unfolding fresh
served_within_limits cfg store es key k =
    let c : Controller = run es (fresh cfg store) in
    let i : IsTallied cfg c =
      run-IsTallied cfg es (fresh cfg store) k (fresh-IsTallied cfg store) in
    let w : WithinLimits c = run-WithinLimits es (fresh cfg store) tt in
    let a = held-WithinLimits cfg key c i.same w in
    let b = held-lookup key c.scopes i.covers.distinct in
    let d = counts_balance key c.tokens c.next_token in
    let z =
      count_zero (gratis key) c.tokens c.next_token
        (λ j lt. no_gratis key (c.tokens j) (i.covers.earned j lt)) in
    (
      omega (arith, a, b, d, z, i.covers.covered key),
      All-impl _ _ (λ e x. rw (sym i.same) x.occupancy) c.scopes w,
    )
