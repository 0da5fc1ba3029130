-- ===== src/Admission/Bounds.antt =====
-- No history takes the counter of a scope, or its queue, beyond what is configured.
use ad_coder.Prelude.{
  ℕ, ◌≤◌, ◌≡◌, inl, inr, true, false, ◌&&◌, ◌||◌, Option, none, some, List, [], ◌∷◌, ◌++◌, arith,
  length, length-append, Bool-cases, if_rule, Option-cases, String, lookup, All, All-insert,
  All-lookup, leb,
}
use ad_coder.Admission.{
  Priority, Config, ProviderLimit, QueueEntry, ScopeRuntime, empty_scope, Controller,
}
use ad_coder.Admission.Scheduler.{can_grant, grant_scope}
use ad_coder.Admission.Reserve.{
  pump, ensure_scope, scope_of, put_scope, allocate, arrive, is_empty, reserve_on, reserve,
}
use ad_coder.Admission.Reserve.Pump.{Pumped, pump_scopes-All}
use ad_coder.Admission.Release.{
  remove_from_queue, is_cancelled, resume_rejected, cancel, release_scope, give_back, mark_released,
  is_queued, is_uncertain_state, release_token, settle_token, release, resolve_uncertain,
  open_cooldown, react_rejection,
}
use ad_coder.Admission.Wrap.{Event, begins, admits, finishes, cancels, resumes, releases, resolves}
use ad_coder.Admission.Wrap.{threw, succeeded, rejected, step, run}

pub record InBounds (c : Config) (s : ScopeRuntime) : Type 0 where
  pub concurrency : s.concurrent ≤ c.max_concurrent_per_scope
  pub occupancy : length s.queue ≤ c.queue_capacity_per_scope

abbrev pub WithinLimits : Controller → Type 0
WithinLimits c = All (λ e. InBounds c.config e.1) c.scopes

Pumped-InBounds :
    (c : Config) (now : ℕ) (s t : ScopeRuntime) → Pumped c now s t → InBounds c s → InBounds c t
Pumped-InBounds c now s t p h = omega (arith, p.capped)

pump-WithinLimits : (now : ℕ) (c : Controller) → WithinLimits c → WithinLimits (pump now c)
unfolding pump
pump-WithinLimits now c h =
    pump_scopes-All c.config now (InBounds c.config) (Pumped-InBounds c.config now) c.scopes
      c.tokens h

scope_of-InBounds :
    (key : String) (c : Controller) → WithinLimits c → InBounds c.config (scope_of key c)
scope_of-InBounds key c h = elim (Option-cases (lookup key c.scopes)) [
  | inl e ↦ rw (e, scope_of) (omega arith)
  | inr (s, e) ↦ rw (e, scope_of) (All-lookup (InBounds c.config) key c.scopes h e)
]

put_scope-WithinLimits :
    (key : String) (s : ScopeRuntime) (c : Controller)
    → InBounds c.config s
    → WithinLimits c
    → WithinLimits (put_scope key s c)
put_scope-WithinLimits key s c b h = All-insert (InBounds c.config) key s c.scopes b h

grant_scope-InBounds :
    (c : Config) (now i : ℕ) (s : ScopeRuntime)
    → can_grant c now s ≡ true
    → InBounds c s
    → InBounds c (grant_scope i s)
unfolding grant_scope can_grant
grant_scope-InBounds c now i s room h = ground arith

push-InBounds :
    (c : Config) (s : ScopeRuntime) (e : QueueEntry)
    → leb c.queue_capacity_per_scope (length s.queue) ≡ false
    → InBounds c s
    → InBounds c (record s { queue = s.queue ++ (e ∷ []) })
push-InBounds c s e k b = ground (arith, length-append s.queue (e ∷ []))

reserve_on-WithinLimits :
    (key : String) (p : Priority) (now i : ℕ) (c : Controller)
    → WithinLimits c
    → WithinLimits (reserve_on key p now i c).0
unfolding reserve_on
reserve_on-WithinLimits key p now i c h = elim (Bool-cases (can_grant c.config now s)) [
  | inl room ↦
      rw room (put_scope-WithinLimits key _ c (grant_scope-InBounds c.config now i s room b) h)
  | inr full ↦ elim (Bool-cases (leb c.config.queue_capacity_per_scope (length s.queue))) [
    | inl k ↦ rw (full, k) h
    | inr k ↦ rw (full, k) (put_scope-WithinLimits key _ c (push-InBounds c.config s _ k b) h)
  ]
]
  where
    s : ScopeRuntime
    s = scope_of key c

    b : InBounds c.config s
    b = scope_of-InBounds key c h

ensure_scope-WithinLimits :
    (key : String) (c : Controller) → WithinLimits c → WithinLimits (ensure_scope key c).1
unfolding ensure_scope
ensure_scope-WithinLimits key c h = elim (Option-cases (lookup key c.scopes)) [
  | inl e ↦ rw (e, ensure_scope) (put_scope-WithinLimits key empty_scope c (omega arith) h)
  | inr (s, e) ↦ rw (e, ensure_scope) h
]

arrive-WithinLimits :
    (key label : String) (p : Priority) (now : ℕ) (c : Controller)
    → WithinLimits c
    → WithinLimits (arrive key label p now c)
unfolding arrive
arrive-WithinLimits key label p now c h =
    elim (Bool-cases (is_empty (ensure_scope key c).0.queue)) [
      | inl e ↦ rw e (ensure_scope-WithinLimits key c h)
      | inr e ↦ rw e (
          pump-WithinLimits now (allocate key label p (ensure_scope key c).1)
            (ensure_scope-WithinLimits key c h))
    ]

reserve-WithinLimits :
    (key label : String) (p : Priority) (now : ℕ) (c : Controller)
    → WithinLimits c
    → WithinLimits (reserve key label p now c).0
unfolding reserve
reserve-WithinLimits key label p now c h =
    reserve_on-WithinLimits key p now c.next_token (arrive key label p now c)
      (arrive-WithinLimits key label p now c h)

length-remove_from_queue : (i : ℕ) (q : List QueueEntry) → length (remove_from_queue i q) ≤ length q
unfolding remove_from_queue
length-remove_from_queue i [] = omega arith
length-remove_from_queue i (e ∷ es) = ground (arith, length-remove_from_queue i es)

resume_rejected-WithinLimits :
    (key : String) (i : ℕ) (c : Controller)
    → WithinLimits c
    → WithinLimits (resume_rejected key i c)
unfolding resume_rejected
resume_rejected-WithinLimits key i c h = elim (Bool-cases (is_cancelled (c.tokens i).state)) [
  | inl e ↦ rw e (
      put_scope-WithinLimits key _ c
        (omega (arith, b, length-remove_from_queue i (scope_of key c).queue)) h)
  | inr e ↦ rw e h
]
  where
    b : InBounds c.config (scope_of key c)
    b = scope_of-InBounds key c h

release_scope-InBounds :
    (c : Config) (i : ℕ) (s : ScopeRuntime) → InBounds c s → InBounds c (release_scope i s)
unfolding release_scope
release_scope-InBounds c i s h = omega arith

release_token-WithinLimits :
    (now i : ℕ) (c : Controller) → WithinLimits c → WithinLimits (release_token now i c)
unfolding release_token
release_token-WithinLimits now i c h = elim (Bool-cases (c.tokens i).is_settled) [
  | inl e ↦ rw e h
  | inr e ↦ elim (Option-cases (lookup (c.tokens i).scope_key c.scopes)) [
    | inl k ↦ rw (e, k, release_token) h
    | inr (s, k) ↦
        rw (e, k, release_token)
          (pump-WithinLimits now (give_back i s c) (
            put_scope-WithinLimits (c.tokens i).scope_key (release_scope i s) c
              (release_scope-InBounds c.config i s
                (All-lookup (InBounds c.config) (c.tokens i).scope_key c.scopes h k))
              h))
  ]
]

settle_token-WithinLimits :
    (now i : ℕ) (c : Controller) → WithinLimits c → WithinLimits (settle_token now i c)
unfolding settle_token
settle_token-WithinLimits now i c h =
    elim (Bool-cases ((c.tokens i).released || (c.tokens i).is_settled)) [
      | inl e ↦ rw e h
      | inr e ↦ rw e (release_token-WithinLimits now i c h)
    ]

release-WithinLimits :
    (now i : ℕ) (c : Controller) → WithinLimits c → WithinLimits (release now i c)
unfolding release
release-WithinLimits now i c h =
    if_rule WithinLimits (c.tokens i).released c _ (λ e. h)
      λ e.
        if_rule WithinLimits (is_queued (c.tokens i).state) (cancel i (mark_released i c)) _
          (λ q. h)
          λ q.
            if_rule WithinLimits (c.tokens i).has_controller
              (release_token now i (mark_released i c)) (mark_released i c)
              (λ k. release_token-WithinLimits now i (mark_released i c) h) (λ k. h)

resolve_uncertain-WithinLimits :
    (now i : ℕ) (c : Controller) → WithinLimits c → WithinLimits (resolve_uncertain now i c)
unfolding resolve_uncertain
resolve_uncertain-WithinLimits now i c h =
    elim (Bool-cases ((c.tokens i).is_uncertain && is_uncertain_state (c.tokens i).state)) [
      | inl e ↦ rw e (settle_token-WithinLimits now i c h)
      | inr e ↦ rw e h
    ]

react_rejection-WithinLimits :
    (key : String) (l : Option ProviderLimit) (now : ℕ) (c : Controller)
    → WithinLimits c
    → WithinLimits (react_rejection key l now c)
unfolding react_rejection
react_rejection-WithinLimits key none now c h = h
react_rejection-WithinLimits key (some l) now c h = elim (Option-cases (lookup key c.scopes)) [
  | inl e ↦ rw (e, open_cooldown) h
  | inr (s, e) ↦
      let b : InBounds c.config s = All-lookup (InBounds c.config) key c.scopes h e in
      rw (e, open_cooldown) (put_scope-WithinLimits key _ c (omega (arith, b)) h)
]

-- Each event keeps every scope within its limits.
pub step-WithinLimits :
    (now : ℕ) (e : Event) (c : Controller) → WithinLimits c → WithinLimits (step now e c)
unfolding step
step-WithinLimits now (begins key label m) c h = reserve-WithinLimits key label _ now c h
step-WithinLimits now (admits key label p) c h = reserve-WithinLimits key label p now c h
step-WithinLimits now (finishes threw key i) c h = settle_token-WithinLimits now i c h
step-WithinLimits now (finishes succeeded key i) c h = settle_token-WithinLimits now i c h
step-WithinLimits now (finishes (rejected l) key i) c h =
    settle_token-WithinLimits now i (react_rejection key l now c)
      (react_rejection-WithinLimits key l now c h)
step-WithinLimits now (cancels i) c h = h
step-WithinLimits now (resumes key i) c h = resume_rejected-WithinLimits key i c h
step-WithinLimits now (releases i) c h = release-WithinLimits now i c h
step-WithinLimits now (resolves i) c h = resolve_uncertain-WithinLimits now i c h

-- No history of calls takes the counters and the queues of a controller beyond its limits.
pub run-WithinLimits :
    (es : List (ℕ × Event)) (c : Controller) → WithinLimits c → WithinLimits (run es c)
unfolding run
run-WithinLimits [] c h = h
run-WithinLimits ((now, e) ∷ es) c h =
    run-WithinLimits es (step now e c) (step-WithinLimits now e c h)
