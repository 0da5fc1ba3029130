-- ===== src/Admission/Cooldown.antt =====
-- While a scope stands down, no call is granted in it.
use text.Mathlib.TextPositions.{eq_refl}
use ad_coder.Prelude.{
  ℕ, ◌+◌, ◌≤◌, ◌<◌, ◌≡◌, refl, sym, subst, ◌≢◌, max, false, some, arith, length, if_rule, String,
  lookup, lookup-insert, leb,
}
use ad_coder.Admission.{Priority, Config, ProviderLimit, ScopeRuntime, Controller}
use ad_coder.Admission.Scheduler.{can_grant}
use ad_coder.Admission.Persist.{persist}
use ad_coder.Admission.Reserve.{
  pump, ensure_scope, is_empty, scope_of, put_scope, grant, enqueue, allocate, arrive, Reserved,
  granted, saturated, waiting, reserve_on, reserve,
}
use ad_coder.Admission.Reserve.Pump.{lookup-pump_scopes, pump_scope_closed}
use ad_coder.Admission.Release.{release_scope, give_back, release_token, settle_token}
use ad_coder.Admission.Release.{cooldown_delay, open_cooldown}
use ad_coder.Admission.Wrap.{rejected, finish}

-- The scope of the key stands down at the time `now`.
abbrev pub StandsDown : String → ℕ → Controller → Type 0
StandsDown key now c =
    (s : ScopeRuntime) × (t : ℕ) × (lookup key c.scopes ≡ some s)
    × (s.cooldown_until ≡ some t)
    × (now < t)

closed :
    (c : Config) (now t : ℕ) (s : ScopeRuntime)
    → s.cooldown_until ≡ some t
    → now < t
    → can_grant c now s ≡ false
unfolding can_grant
closed c now t s e h = ground arith

lookup-pump :
    (key : String) (now : ℕ) (c : Controller) (s : ScopeRuntime)
    → lookup key c.scopes ≡ some s
    → can_grant c.config now s ≡ false
    → lookup key (pump now c).scopes ≡ some s
unfolding pump
lookup-pump key now c s e h =
    let (ts, p, _) = lookup-pump_scopes c.config now key c.scopes c.tokens s e in
    rw (pump_scope_closed c.config now (length s.queue) s ts h) at p

-- A new call is not granted, and a granted call's end grants nothing, while the scope stands down.
pub arrive-StandsDown :
    (key label : String) (p : Priority) (now : ℕ) (c : Controller) (s : ScopeRuntime)
    → lookup key c.scopes ≡ some s
    → can_grant c.config now s ≡ false
    → lookup key (arrive key label p now c).scopes ≡ some s
unfolding arrive
arrive-StandsDown key label p now c s e h =
    rw (e, ensure_scope)
      (if_rule (λ (d : Controller). lookup key d.scopes ≡ some s) (is_empty s.queue)
        (allocate key label p c) (pump now (allocate key label p c)) (λ _. e)
        (λ _. lookup-pump key now (allocate key label p c) s e h))

saturated-ne-granted : (n j : ℕ) → saturated n ≢ granted j
saturated-ne-granted n j q = cc

waiting-ne-granted : (n j : ℕ) → waiting n ≢ granted j
waiting-ne-granted n j q = cc

stuck :
    (key : String) (p : Priority) (now i j : ℕ) (c : Controller) (s : ScopeRuntime)
    → lookup key c.scopes ≡ some s
    → can_grant c.config now s ≡ false
    → (reserve_on key p now i c).1 ≢ granted j
unfolding reserve_on
stuck key p now i j c s e h =
    if_rule IsNotGranted (can_grant c.config now (scope_of key c))
      (persist (grant key i c), granted i) _ (λ k. absurd (ground (arith, shut)))
      λ k.
        if_rule IsNotGranted (leb c.config.queue_capacity_per_scope (length (scope_of key c).queue))
          (c, saturated (length (scope_of key c).queue))
          (persist (enqueue key i p now c), waiting i) (λ _. saturated-ne-granted _ j)
          (λ _. waiting-ne-granted i j)
  where
    IsNotGranted : Controller × Reserved → Type 0
    IsNotGranted r = r.1 ≢ granted j

    shut : can_grant c.config now (scope_of key c) ≡ false
    shut = rw (e, scope_of) h

-- A call that arrives while its scope stands down is not granted, whatever waits or is free.
pub reserve-StandsDown :
    (key label : String) (p : Priority) (now : ℕ) (c : Controller) (i : ℕ)
    → StandsDown key now c
    → (reserve key label p now c).1 ≢ granted i
unfolding reserve
reserve-StandsDown key label p now c i (s, t, e, u, h) =
    stuck key p now c.next_token i (arrive key label p now c) s
      (arrive-StandsDown key label p now c s e (closed c.config now t s u h)) (closed _ now t s u h)

lookup-put_scope :
    (key : String) (s : ScopeRuntime) (c : Controller)
    → lookup key (put_scope key s c).scopes ≡ some s
lookup-put_scope key s c = simp (lookup-insert, eq_refl)

-- The scope after its provider answered with the limit.
abbrev pub cooled : Config → ProviderLimit → ℕ → ScopeRuntime → ScopeRuntime
cooled c l now s = record s { cooldown_until = some (now + cooldown_delay c l) }

settle_closed :
    (now i : ℕ) (c : Controller) (s : ScopeRuntime)
    → (c.tokens i).released ≡ false
    → (c.tokens i).is_settled ≡ false
    → lookup (c.tokens i).scope_key c.scopes ≡ some s
    → can_grant c.config now (release_scope i s) ≡ false
    → lookup (c.tokens i).scope_key (settle_token now i c).scopes ≡ some (release_scope i s)
unfolding settle_token
settle_closed now i c s r t e h =
    rw (r, t, e, release_token)
      (lookup-pump (c.tokens i).scope_key now (give_back i s c) (release_scope i s)
        (lookup-put_scope (c.tokens i).scope_key (release_scope i s) c) h)

release_scope_closed :
    (c : Config) (now t i : ℕ) (s : ScopeRuntime)
    → s.cooldown_until ≡ some t
    → now < t
    → can_grant c now (release_scope i s) ≡ false
unfolding release_scope
release_scope_closed c now t i s e h = closed c now t _ e h

open_cooldown_lem :
    (key : String) (l : ProviderLimit) (now : ℕ) (c : Controller) (s : ScopeRuntime)
    → lookup key c.scopes ≡ some s
    → open_cooldown key l now c ≡ persist (put_scope key (cooled c.config l now s) c)
unfolding open_cooldown
open_cooldown_lem key l now c s e = rw (e, open_cooldown)

-- When a provider rejects a call with a limit, the permit comes back and the scope stands down at
-- once: none of its waiting calls is granted in between, provided that the cooldown is positive.
pub finish_rejected :
    (l : ProviderLimit) (i now : ℕ) (c : Controller) (s : ScopeRuntime)
    → (c.tokens i).released ≡ false
    → (c.tokens i).is_settled ≡ false
    → lookup (c.tokens i).scope_key c.scopes ≡ some s
    → 0 < cooldown_delay c.config l
    → lookup
        (c.tokens i).scope_key
        (finish (rejected (some l)) (c.tokens i).scope_key i now c).scopes
      ≡ some (release_scope i (cooled c.config l now s))
unfolding finish
finish_rejected l i now c s r t e h =
    subst
      (λ d.
        lookup (c.tokens i).scope_key (settle_token now i d).scopes
        ≡ some (release_scope i (cooled c.config l now s)))
      (sym (open_cooldown_lem (c.tokens i).scope_key l now c s e))
      (settle_closed now i (persist (put_scope (c.tokens i).scope_key (cooled c.config l now s) c))
        (cooled c.config l now s) r t
        (lookup-put_scope (c.tokens i).scope_key (cooled c.config l now s) c)
        (release_scope_closed c.config now (now + cooldown_delay c.config l) i
          (cooled c.config l now s) refl (omega arith)))

-- A cooldown that a hint sets lies within the clamp, and any cooldown within the greater of the clamp
-- and the configured delay.
pub cooldown_delay_bounds :
    (c : Config) (l : ProviderLimit) (hint : ℕ)
    → (cooldown_delay c (record { retry_after_ms = some hint }) ≤ c.cooldown_max_ms)
      × (cooldown_delay c l ≤ max c.cooldown_max_ms c.retry_delay_ms)
unfolding cooldown_delay
cooldown_delay_bounds c l hint = ground arith
