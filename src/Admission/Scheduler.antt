-- ===== src/Admission/Scheduler.antt =====
-- src/provider-admission.ts, `dequeueCandidate`, `canGrant` and `grant`: which waiting call runs next.
pub mod Scan
pub mod Order
use ad_coder.Prelude.{
  ℕ, zero, suc, ◌+◌, ◌-◌, ◌==◌, ltb, leb, Bool, true, false, not, ◌&&◌, ◌||◌, Option, none, some,
  List, [], ◌∷◌, if◌then◌else◌, any,
}
use ad_coder.Admission.{
  Priority, interactive, background, title, same_priority, Config, Token, admitted, Tokens, put,
  QueueEntry, ScopeRuntime,
}

-- `priorityClasses.indexOf(cls)` plus one, so that the -1 of an absent class is 0.
unfoldable pub index_of : Priority → List Priority → ℕ
index_of p [] = 0
index_of p (q ∷ qs) =
    let rest = index_of p qs in if same_priority p q then 1 else if rest == 0 then 0 else rest + 1

-- A cooldown that is over no longer holds a scope back.
abbrev pub is_over : ℕ → Option ℕ → Bool
is_over now none = true
is_over now (some t) = leb t now

unfoldable pub can_grant : Config → ℕ → ScopeRuntime → Bool
can_grant c now s = ltb s.concurrent c.max_concurrent_per_scope && is_over now s.cooldown_until

-- The call has waited for the bound: it is promoted to the interactive class.
unfoldable pub effective_priority : Config → ℕ → QueueEntry → Priority
effective_priority c now e =
    if leb c.max_wait_ms (now - e.enqueued_at) then interactive else e.priority

unfoldable pub waits_interactive : Config → ℕ → Tokens → QueueEntry → Bool
waits_interactive c now ts e =
    not (ts e.token).unowned && same_priority (effective_priority c now e) interactive

-- The best entry so far: its index, its rank and the time it was queued at.
pub record Best : Type 0 where
  pub index : ℕ
  pub rank : ℕ
  pub enqueued_at : ℕ

abbrev pub beats : ℕ → ℕ → Option Best → Bool
beats rank at none = true
beats rank at (some b) = ltb rank b.rank || (rank == b.rank && ltb at b.enqueued_at)

-- The body of the loop over the queue, at index `i`.
unfoldable pub consider : Config → ℕ → Tokens → Bool → ℕ → QueueEntry → Option Best → Option Best
consider c now ts waiting i e best =
    if (ts e.token).unowned
    then best
    else if same_priority cls title && waiting
    then best
    else if beats rank e.enqueued_at best
    then some (record { index = i; rank = rank; enqueued_at = e.enqueued_at })
    else best
  where
    cls : Priority
    cls = effective_priority c now e

    rank : ℕ
    rank = index_of cls c.priority_classes

unfoldable pub scan : Config → ℕ → Tokens → Bool → ℕ → Option Best → List QueueEntry → Option Best
unfolding consider
scan c now ts waiting i best [] = best
scan c now ts waiting i best (e ∷ es) =
    scan c now ts waiting (suc i) (consider c now ts waiting i e best) es

-- `queue.splice(index, 1)`: the entry taken out, and the rest.
unfoldable pub splice : ℕ → List QueueEntry → Option (QueueEntry × List QueueEntry)
splice i [] = none
splice zero (e ∷ es) = some (e, es)
splice (suc i) (e ∷ es) = elim (splice i es) [
  | none ↦ none
  | some (chosen, rest) ↦ some (chosen, e ∷ rest)
]

abbrev pub splice_at : Option Best → List QueueEntry → Option (QueueEntry × List QueueEntry)
splice_at none q = none
splice_at (some b) q = splice b.index q

unfoldable pub dequeue_candidate :
    Config → ℕ → Tokens → List QueueEntry → Option (QueueEntry × List QueueEntry)
unfolding scan splice waits_interactive effective_priority index_of
dequeue_candidate c now ts q =
    splice_at (scan c now ts (any (waits_interactive c now ts) q) 0 none q) q

-- The granted token is admitted and its waiters are resolved.
unfoldable pub grant_token : Token → Token
grant_token t = record t { state = admitted; is_uncertain = false; waiters = 0 }

unfoldable pub grant_scope : ℕ → ScopeRuntime → ScopeRuntime
grant_scope i s = record s { concurrent = s.concurrent + 1; in_flight_token = some i }

-- The loop of `pump` over one scope. Each round takes one entry out of the queue, so the length of
-- the queue is fuel enough.
unfoldable pub pump_scope : Config → ℕ → ℕ → ScopeRuntime → Tokens → ScopeRuntime × Tokens
pump_scope c now zero s ts = (s, ts)
pump_scope c now (suc fuel) s ts = elim (can_grant c now s) [
  | false ↦ (s, ts)
  | true ↦ elim (dequeue_candidate c now ts s.queue) [
    | none ↦ (s, ts)
    | some (e, rest) ↦
        pump_scope c now fuel (grant_scope e.token (record s { queue = rest }))
          (put e.token (grant_token (ts e.token)) ts)
  ]
]
