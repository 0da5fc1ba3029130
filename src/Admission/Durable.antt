-- ===== src/Admission/Durable.antt =====
-- What the store holds after each event is the snapshot of the controller.
use text.Mathlib.TextPositions.{eq_refl}
use ad_coder.Prelude.{
  ℕ, ◌+◌, ◌<◌, ◌≡◌, refl, ◌⊎◌, inl, inr, Bool, true, false, ◌&&◌, ◌||◌, Option, none, some, List,
  [], ◌∷◌, arith, length, String, lookup, Distinct, insert-Distinct, lookup-insert, Bool-cases,
  Option-cases, if_rule, leb, str_eq,
}
use ad_coder.Admission.{
  Priority, Config, ProviderLimit, Tokens, ScopeRuntime, empty_scope, Snapshot, Controller,
}
use ad_coder.Admission.Scheduler.{can_grant, grant_scope}
use ad_coder.Admission.Persist.{saved_with, snapshot, persist}
use ad_coder.Admission.Reserve.{
  pump_scopes, pump, ensure_scope, is_empty, scope_of, put_scope, park, grant, enqueue, allocate,
  arrive, Reserved, granted, saturated, waiting, reserve_on, reserve,
}
use ad_coder.Admission.Release.{
  is_cancelled, remove_from_queue, cooldown_delay, resume_rejected, cancel, release_scope,
  give_back, mark_settled, release_token, settle_token, is_queued, mark_released, release,
  is_uncertain_state, resolve_uncertain, open_cooldown, react_rejection,
}
use ad_coder.Admission.Wrap.{Event, begins, admits, finishes, cancels, resumes, releases, resolves}
use ad_coder.Admission.Wrap.{threw, succeeded, rejected, step, run}

abbrev is_some : Option (Option Snapshot) → Bool
is_some none = false
is_some (some s) = true

-- The controller has a store, keys its scopes once each, and lets at least one call wait.
abbrev pub IsReady : Controller → Type 0
IsReady c = Distinct c.scopes × (is_some c.store ≡ true) × (0 < c.config.queue_capacity_per_scope)

abbrev pub IsSaved : Controller → Type 0
IsSaved c = c.store ≡ some (some (snapshot c))

-- A controller that nothing was saved of yet has no scope.
abbrev pub IsDurable : Controller → Type 0
IsDurable c = IsReady c × (IsSaved c ⊎ ((c.scopes ≡ []) × (c.store ≡ some none)))

stored_again :
    (s : Snapshot) (o : Option (Option Snapshot))
    → is_some o ≡ true
    → saved_with s o ≡ some (some s)
stored_again s none h = cc
stored_again s (some o) h = refl

persist-IsDurable : (c : Controller) → IsReady c → IsDurable (persist c)
unfolding persist
persist-IsDurable c r = (
  (r.0, rw (stored_again (snapshot c) c.store r.1), r.2),
  inl (stored_again (snapshot c) c.store r.1),
)

lookup-pump_scopes_none :
    (c : Config) (now : ℕ) (k : String) (m : List (String × ScopeRuntime)) (ts : Tokens)
    → lookup k m ≡ none
    → lookup k (pump_scopes c now m ts).0 ≡ none
unfolding lookup pump_scopes
lookup-pump_scopes_none c now k [] ts h = refl
lookup-pump_scopes_none c now k ((j, s) ∷ m) ts h = elim (Bool-cases (str_eq j k)) [
  | inl same ↦ let e : some s ≡ none = rw same at h in absurd (ground (arith, e))
  | inr other ↦ rw other (lookup-pump_scopes_none c now k m _ (rw other at h))
]

pump_scopes-Distinct :
    (c : Config) (now : ℕ) (m : List (String × ScopeRuntime)) (ts : Tokens)
    → Distinct m
    → Distinct (pump_scopes c now m ts).0
unfolding pump_scopes
pump_scopes-Distinct c now [] ts d = tt
pump_scopes-Distinct c now ((k, s) ∷ m) ts d =
    (lookup-pump_scopes_none c now k m _ d.0, pump_scopes-Distinct c now m _ d.1)

pump-IsDurable : (now : ℕ) (c : Controller) → IsReady c → IsDurable (pump now c)
unfolding pump
pump-IsDurable now c r =
    persist-IsDurable
      (record c {
        scopes = (pump_scopes c.config now c.scopes c.tokens).0;
        tokens = (pump_scopes c.config now c.scopes c.tokens).1;
      })
      (pump_scopes-Distinct c.config now c.scopes c.tokens r.0, r.1, r.2)

put_scope-IsReady :
    (key : String) (s : ScopeRuntime) (c : Controller) → IsReady c → IsReady (put_scope key s c)
put_scope-IsReady key s c r = (insert-Distinct key s c.scopes r.0, r.1, r.2)

put_scope-IsDurable :
    (key : String) (s : ScopeRuntime) (c : Controller)
    → IsReady c
    → IsDurable (persist (put_scope key s c))
put_scope-IsDurable key s c r = persist-IsDurable (put_scope key s c) (put_scope-IsReady key s c r)

give_back-IsReady :
    (i : ℕ) (s : ScopeRuntime) (c : Controller) → IsReady c → IsReady (give_back i s c)
unfolding give_back
give_back-IsReady i s c r =
    (persist-IsDurable (put_scope (c.tokens i).scope_key (release_scope i s) (mark_settled i c))
      (put_scope-IsReady (c.tokens i).scope_key (release_scope i s) (mark_settled i c) r)).0

release_token-IsDurable :
    (now i : ℕ) (c : Controller) → IsDurable c → IsDurable (release_token now i c)
unfolding release_token
release_token-IsDurable now i c d =
    if_rule IsDurable (c.tokens i).is_settled c _ (λ _. d)
      λ _. elim (Option-cases (lookup (c.tokens i).scope_key c.scopes)) [
        | inl e ↦ rw e d
        | inr (s, e) ↦ rw e (pump-IsDurable now (give_back i s c) (give_back-IsReady i s c d.0))
      ]

settle_token-IsDurable :
    (now i : ℕ) (c : Controller) → IsDurable c → IsDurable (settle_token now i c)
unfolding settle_token
settle_token-IsDurable now i c d =
    if_rule IsDurable ((c.tokens i).released || (c.tokens i).is_settled) c (release_token now i c)
      (λ _. d) (λ _. release_token-IsDurable now i c d)

release-IsDurable : (now i : ℕ) (c : Controller) → IsDurable c → IsDurable (release now i c)
unfolding release
release-IsDurable now i c d =
    if_rule IsDurable (c.tokens i).released c _ (λ _. d)
      λ _.
        if_rule IsDurable (is_queued (c.tokens i).state) (cancel i (mark_released i c)) _ (λ _. d)
          λ _.
            if_rule IsDurable (c.tokens i).has_controller (release_token now i (mark_released i c))
              (mark_released i c) (λ _. release_token-IsDurable now i (mark_released i c) d)
              (λ _. d)

resolve_uncertain-IsDurable :
    (now i : ℕ) (c : Controller) → IsDurable c → IsDurable (resolve_uncertain now i c)
unfolding resolve_uncertain
resolve_uncertain-IsDurable now i c d =
    if_rule IsDurable ((c.tokens i).is_uncertain && is_uncertain_state (c.tokens i).state)
      (settle_token now i c) c (λ _. settle_token-IsDurable now i c d) (λ _. d)

resume_rejected-IsDurable :
    (key : String) (i : ℕ) (c : Controller) → IsDurable c → IsDurable (resume_rejected key i c)
unfolding resume_rejected
resume_rejected-IsDurable key i c d =
    if_rule IsDurable (is_cancelled (c.tokens i).state) (persist (put_scope key left c)) c
      (λ _. put_scope-IsDurable key left c d.0) (λ _. d)
  where
    s : ScopeRuntime
    s = scope_of key c

    left : ScopeRuntime
    left = record s { queue = remove_from_queue i s.queue }

open_cooldown-IsDurable :
    (key : String) (l : ProviderLimit) (now : ℕ) (c : Controller)
    → IsDurable c
    → IsDurable (open_cooldown key l now c)
unfolding open_cooldown
open_cooldown-IsDurable key l now c d = elim (Option-cases (lookup key c.scopes)) [
  | inl e ↦ rw (e, open_cooldown) d
  | inr (s, e) ↦
      rw (e, open_cooldown)
        (put_scope-IsDurable key
          (record s { cooldown_until = some (now + cooldown_delay c.config l) }) c d.0)
]

react_rejection-IsDurable :
    (key : String) (l : Option ProviderLimit) (now : ℕ) (c : Controller)
    → IsDurable c
    → IsDurable (react_rejection key l now c)
unfolding react_rejection
react_rejection-IsDurable key none now c d = d
react_rejection-IsDurable key (some l) now c d = open_cooldown-IsDurable key l now c d

-- A call that arrives leaves the store as it was, or has just made its scope.
arrive_cases :
    (key label : String) (p : Priority) (now : ℕ) (c : Controller)
    → IsDurable c
    → let a = arrive key label p now c in
      IsReady a × (IsDurable a ⊎ (lookup key a.scopes ≡ some empty_scope))
unfolding arrive
arrive_cases key label p now c d = elim (Option-cases (lookup key c.scopes)) [
  | inl e ↦
      rw (e, ensure_scope)
        (put_scope-IsReady key empty_scope c d.0, inr (simp (lookup-insert, eq_refl)))
  | inr (s, e) ↦
      rw (e, ensure_scope)
        (if_rule
          (λ (a : Controller). IsReady a × (IsDurable a ⊎ (lookup key a.scopes ≡ some empty_scope)))
          (is_empty s.queue) (allocate key label p c) (pump now (allocate key label p c))
          (λ _. (d.0, inl d))
          (λ _. let q = pump-IsDurable now (allocate key label p c) d.0 in (q.0, inl q)))
]

not_saturated :
    (key : String) (c : Controller) {P : Type 0}
    → IsReady c
    → lookup key c.scopes ≡ some empty_scope
    → leb c.config.queue_capacity_per_scope (length (scope_of key c).queue) ≡ true
    → P
not_saturated key c r e h =
    let k : leb c.config.queue_capacity_per_scope 0 ≡ true = rw (e, scope_of) at h in
    absurd (ground (arith, k, r.2))

reserve_on-IsDurable :
    (key : String) (p : Priority) (now i : ℕ) (c : Controller)
    → IsReady c
    → IsDurable c ⊎ (lookup key c.scopes ≡ some empty_scope)
    → IsDurable (reserve_on key p now i c).0
unfolding reserve_on
reserve_on-IsDurable key p now i c r d =
    if_rule Kept (can_grant c.config now (scope_of key c)) (persist (grant key i c), granted i) _
      (λ _.
        persist-IsDurable (grant key i c)
          (put_scope-IsReady key (grant_scope i (scope_of key c)) c r))
      λ _.
        if_rule Kept (leb c.config.queue_capacity_per_scope (length (scope_of key c).queue))
          (c, saturated (length (scope_of key c).queue))
          (persist (enqueue key i p now c), waiting i)
          (λ full. elim d [ inl q ↦ q | inr e ↦ not_saturated key c r e full ])
          (λ _.
            persist-IsDurable (enqueue key i p now c)
              (put_scope-IsReady key (park i p now (scope_of key c)) c r))
  where
    Kept : Controller × Reserved → Type 0
    Kept q = IsDurable q.0

reserve-IsDurable :
    (key label : String) (p : Priority) (now : ℕ) (c : Controller)
    → IsDurable c
    → IsDurable (reserve key label p now c).0
unfolding reserve
reserve-IsDurable key label p now c d =
    let (r, q) = arrive_cases key label p now c d in
    reserve_on-IsDurable key p now c.next_token (arrive key label p now c) r q

pub step-IsDurable : (now : ℕ) (e : Event) (c : Controller) → IsDurable c → IsDurable (step now e c)
unfolding step
step-IsDurable now (begins key label m) c d = reserve-IsDurable key label _ now c d
step-IsDurable now (admits key label p) c d = reserve-IsDurable key label p now c d
step-IsDurable now (finishes threw key i) c d = settle_token-IsDurable now i c d
step-IsDurable now (finishes succeeded key i) c d = settle_token-IsDurable now i c d
step-IsDurable now (finishes (rejected l) key i) c d =
    settle_token-IsDurable now i (react_rejection key l now c)
      (react_rejection-IsDurable key l now c d)
step-IsDurable now (cancels i) c d = d
step-IsDurable now (resumes key i) c d = resume_rejected-IsDurable key i c d
step-IsDurable now (releases i) c d = release-IsDurable now i c d
step-IsDurable now (resolves i) c d = resolve_uncertain-IsDurable now i c d

-- Every history of calls keeps a controller durable: where it is durable, each scope is sound and the
-- store holds the controller's own snapshot, or nothing was ever saved and there is no scope; so it
-- is after any sequence of calls.
pub run-IsDurable : (es : List (ℕ × Event)) (c : Controller) → IsDurable c → IsDurable (run es c)
unfolding run
run-IsDurable [] c d = d
run-IsDurable ((now, e) ∷ es) c d = run-IsDurable es (step now e c) (step-IsDurable now e c d)
