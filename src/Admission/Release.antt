-- ===== src/Admission/Release.antt =====
-- src/provider-admission.ts: cancelling, waiting, releasing and settling a token, and the cooldown
-- that a provider's limit opens. An operation reads the clock once, as `now`.
use ad_coder.Prelude.{
  ℕ, ◌+◌, ◌-◌, ◌==◌, min, String, Bool, true, false, ◌&&◌, ◌||◌, Option, none, some, List, [], ◌∷◌,
  if◌then◌else◌, lookup,
}
use ad_coder.Admission.{
  Config, ProviderLimit, Token, TokenState, QueueEntry, ScopeRuntime, Controller,
}
use ad_coder.Admission.Persist.{persist}
use ad_coder.Admission.Reserve.{pump, scope_of, put_scope, put_token}

-- `removeFromQueue`: the first entry that holds the token.
unfoldable pub remove_from_queue : ℕ → List QueueEntry → List QueueEntry
remove_from_queue i [] = []
remove_from_queue i (e ∷ es) = if e.token == i then es else e ∷ remove_from_queue i es

-- `reserve` resumed after its wait was rejected: a cancelled request leaves the queue.
abbrev pub is_cancelled : TokenState → Bool
is_cancelled TokenState.cancelled = true
is_cancelled _ = false

unfoldable pub resume_rejected : String → ℕ → Controller → Controller
unfolding remove_from_queue persist
resume_rejected key i c =
    if is_cancelled (c.tokens i).state
    then persist (put_scope key (record s { queue = remove_from_queue i s.queue }) c)
    else c
  where
    s : ScopeRuntime
    s = scope_of key c

-- `token.cancel()`
abbrev pub cancel_token : TokenState → Token → Token
cancel_token TokenState.queued t = record t { state = TokenState.cancelled; waiters = 0 }
cancel_token _ t = t

unfoldable pub cancel : ℕ → Controller → Controller
cancel i c = put_token i (cancel_token (c.tokens i).state (c.tokens i)) c

-- `token.wait()`: what the promise is at that moment.
pub data Wait : Type 0 where
  resolved : Wait
  rejected_cancelled : Wait
  rejected_limit : ProviderLimit → Wait
  pending : Wait

unfoldable pub wait : Token → Wait
wait t = wait_in t.state t.limit_error
  where
    wait_in : TokenState → Option ProviderLimit → Wait
    wait_in TokenState.admitted l = resolved
    wait_in TokenState.cancelled l = rejected_cancelled
    wait_in TokenState.settled (some l) = rejected_limit l
    wait_in _ _ = pending

abbrev pub clear_in_flight : ℕ → Option ℕ → Option ℕ
clear_in_flight i none = none
clear_in_flight i (some j) = if j == i then none else some j

unfoldable pub release_scope : ℕ → ScopeRuntime → ScopeRuntime
release_scope i s = record s {
  concurrent = s.concurrent - 1;
  in_flight_token = clear_in_flight i s.in_flight_token;
}

unfoldable pub mark_settled : ℕ → Controller → Controller
mark_settled i c = put_token i (record t { is_settled = true }) c
  where
    t : Token
    t = c.tokens i

-- The permit goes back to the scope of the token.
unfoldable pub give_back : ℕ → ScopeRuntime → Controller → Controller
unfolding mark_settled release_scope persist
give_back i s c = persist (put_scope (c.tokens i).scope_key (release_scope i s) (mark_settled i c))

unfoldable pub release_token : ℕ → ℕ → Controller → Controller
unfolding mark_settled give_back pump
release_token now i c =
    if (c.tokens i).is_settled then c else elim (lookup (c.tokens i).scope_key c.scopes) [
      | none ↦ mark_settled i c
      | some s ↦ pump now (give_back i s c)
    ]

-- `settleToken`, the path of the wrapped calls and of `resolveUncertain`.
unfoldable pub settle_token : ℕ → ℕ → Controller → Controller
unfolding release_token
settle_token now i c =
    if (c.tokens i).released || (c.tokens i).is_settled then c else release_token now i c

-- `token.release()`, the public path.
abbrev pub is_queued : TokenState → Bool
is_queued TokenState.queued = true
is_queued _ = false

unfoldable pub mark_released : ℕ → Controller → Controller
mark_released i c = put_token i (record t { released = true }) c
  where
    t : Token
    t = c.tokens i

unfoldable pub release : ℕ → ℕ → Controller → Controller
unfolding mark_released cancel release_token
release now i c =
    if (c.tokens i).released
    then c
    else if is_queued (c.tokens i).state
    then cancel i (mark_released i c)
    else if (c.tokens i).has_controller
    then release_token now i (mark_released i c)
    else mark_released i c

abbrev pub is_uncertain_state : TokenState → Bool
is_uncertain_state TokenState.uncertain = true
is_uncertain_state _ = false

unfoldable pub resolve_uncertain : ℕ → ℕ → Controller → Controller
unfolding settle_token
resolve_uncertain now i c =
    if (c.tokens i).is_uncertain && is_uncertain_state (c.tokens i).state
    then settle_token now i c
    else c

-- `Math.min(hint, cooldownMaxMs)`, or the configured delay where the answer has no hint.
unfoldable pub cooldown_delay : Config → ProviderLimit → ℕ
cooldown_delay c l = elim l.retry_after_ms [
  | none ↦ c.retry_delay_ms
  | some hint ↦ min hint c.cooldown_max_ms
]

unfoldable pub open_cooldown : String → ProviderLimit → ℕ → Controller → Controller
unfolding cooldown_delay persist
open_cooldown key l now c = elim (lookup key c.scopes) [
  | none ↦ c
  | some s ↦
      persist
        (put_scope key (record s { cooldown_until = some (now + cooldown_delay c.config l) }) c)
]

-- A rejected call, by what `providerLimitFrom` makes of the error.
unfoldable pub react_rejection : String → Option ProviderLimit → ℕ → Controller → Controller
unfolding open_cooldown
react_rejection key none now c = c
react_rejection key (some l) now c = open_cooldown key l now c
