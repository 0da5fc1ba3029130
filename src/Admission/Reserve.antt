-- ===== src/Admission/Reserve.antt =====
-- src/provider-admission.ts: `reserve` and what it calls. An operation reads the clock once, as `now`.
pub mod Pump
use ad_coder.Prelude.{
  ℕ, suc, ◌+◌, ◌-◌, ◌==◌, leb, min, String, Bool, true, false, not, ◌&&◌, ◌||◌, Option, none, some,
  List, [], ◌∷◌, ◌++◌, map, if◌then◌else◌, length, lookup, insert,
}
use ad_coder.Admission.{
  Priority, interactive, Config, ProviderLimit, Token, TokenState, new_token, Tokens, put,
  QueueEntry, ScopeRuntime, empty_scope, Controller,
}
use ad_coder.Admission.Scheduler.{can_grant, grant_token, grant_scope, pump_scope}
use ad_coder.Admission.Persist.{persist}

-- The scopes are pumped in the order of the map; a grant writes to the shared tokens.
unfoldable pub pump_scopes :
    Config → ℕ → List (String × ScopeRuntime) → Tokens → List (String × ScopeRuntime) × Tokens
unfolding pump_scope
pump_scopes c now [] ts = ([], ts)
pump_scopes c now ((k, s) ∷ m) ts =
    let (s', ts') = pump_scope c now (length s.queue) s ts in
    let (m', ts'') = pump_scopes c now m ts' in ((k, s') ∷ m', ts'')

unfoldable pub pump : ℕ → Controller → Controller
unfolding pump_scopes persist
pump now c =
    let (m, ts) = pump_scopes c.config now c.scopes c.tokens in
    persist (record c { scopes = m; tokens = ts })

unfoldable pub ensure_scope : String → Controller → ScopeRuntime × Controller
ensure_scope key c = elim (lookup key c.scopes) [
  | none ↦ (empty_scope, record c { scopes = insert key empty_scope c.scopes })
  | some s ↦ (s, c)
]

-- What the synchronous part of `reserve` ends with: the token is granted, the queue is full at
-- that many waiting calls (`QueueSaturatedError`), or the call waits on its token.
pub data Reserved : Type 0 where
  granted : ℕ → Reserved
  saturated : ℕ → Reserved
  waiting : ℕ → Reserved

abbrev pub scope_of : String → Controller → ScopeRuntime
scope_of key c = elim (lookup key c.scopes) [ none ↦ empty_scope | some s ↦ s ]

abbrev pub put_scope : String → ScopeRuntime → Controller → Controller
put_scope key s c = record c { scopes = insert key s c.scopes }

abbrev pub put_token : ℕ → Token → Controller → Controller
put_token i t c = record c { tokens = put i t c.tokens }

unfoldable pub grant : String → ℕ → Controller → Controller
unfolding grant_token grant_scope
grant key i c =
    put_token i (grant_token (c.tokens i)) (put_scope key (grant_scope i (scope_of key c)) c)

abbrev pub park : ℕ → Priority → ℕ → ScopeRuntime → ScopeRuntime
park i p now s = record s {
  queue = s.queue ++ record { priority = p; enqueued_at = now; token = i } ∷ [];
}

-- A waiting call has one pending resolver, that of its own `await token.wait()`.
unfoldable pub enqueue : String → ℕ → Priority → ℕ → Controller → Controller
enqueue key i p now c =
    put_token i (record t { waiters = t.waiters + 1 })
      (put_scope key (park i p now (scope_of key c)) c)
  where
    t : Token
    t = c.tokens i

abbrev pub is_empty : List QueueEntry → Bool
is_empty [] = true
is_empty (e ∷ es) = false

-- A new token, registered under the controller.
unfoldable pub allocate : String → String → Priority → Controller → Controller
allocate key label p c = record c {
  tokens = put c.next_token (record t { has_controller = true }) c.tokens;
  next_token = suc c.next_token;
}
  where
    t : Token
    t = new_token label key p

unfoldable pub reserve_on : String → Priority → ℕ → ℕ → Controller → Controller × Reserved
unfolding grant persist enqueue
reserve_on key p now i c =
    if can_grant c.config now s
    then (persist (grant key i c), granted i)
    else if leb c.config.queue_capacity_per_scope (length s.queue)
    then (c, saturated (length s.queue))
    else (persist (enqueue key i p now c), waiting i)
  where
    s : ScopeRuntime
    s = scope_of key c

-- Parked calls outrank a fresh one: the queue is served before the fresh call is looked at.
unfoldable pub arrive : String → String → Priority → ℕ → Controller → Controller
unfolding ensure_scope allocate pump
arrive key label p now c =
    let (s, c₁) = ensure_scope key c in
    let c₂ = allocate key label p c₁ in if is_empty s.queue then c₂ else pump now c₂

unfoldable pub reserve : String → String → Priority → ℕ → Controller → Controller × Reserved
unfolding arrive reserve_on
reserve key label p now c = reserve_on key p now c.next_token (arrive key label p now c)
