-- ===== src/Admission/Restore.antt =====
-- src/provider-admission.ts, `assertConfig`, the constructor and `restore`: a controller that starts
-- from what its store holds.
use ad_coder.Prelude.{
  ℕ, suc, ◌==◌, ltb, String, Bool, true, false, not, ◌||◌, Option, none, some, List, [], ◌∷◌,
  if◌then◌else◌, length, any, insert,
}
use ad_coder.Admission.{
  Priority, interactive, same_priority, admission_priority_classes, Config, Token, TokenState,
  new_token, Tokens, put, QueueEntry, ScopeRuntime, SavedEntry, SavedScope, Snapshot, Controller,
}

pub data ConfigError : Type 0 where
  bad_max_concurrent bad_queue_capacity bad_max_wait bad_retry_delay bad_cooldown_max : ConfigError
  wrong_class_count unknown_class duplicate_class : ConfigError
  unsupported_version : ConfigError

pub data Checked (A : Type 0) : Type 0 where
  ok : A → Checked A
  err : ConfigError → Checked A

infixl 5 ◌>>=◌
abbrev pub ◌>>=◌ : {A B : Type 0} → Checked A → (A → Checked B) → Checked B
ok a >>= f = f a
err e >>= f = err e

abbrev refuse : Bool → ConfigError → Checked (Unit {0})
refuse true e = err e
refuse false e = ok tt

abbrev includes : Priority → List Priority → Bool
includes p qs = any (same_priority p) qs

-- The loop over the classes, with the set of those seen.
unfoldable pub check_classes : List Priority → List Priority → Checked (Unit {0})
check_classes seen [] = ok tt
check_classes seen (p ∷ ps) =
    let rest = check_classes (p ∷ seen) ps in
    if not (includes p admission_priority_classes)
    then err unknown_class
    else if includes p seen
    then err duplicate_class
    else rest

unfoldable pub assert_config : Config → Checked (Unit {0})
unfolding check_classes
assert_config c = do
  _ ← refuse (c.max_concurrent_per_scope == 0) bad_max_concurrent
  _ ← refuse (c.queue_capacity_per_scope == 0) bad_queue_capacity
  _ ← refuse (c.max_wait_ms == 0) bad_max_wait
  _ ← refuse (c.retry_delay_ms == 0) bad_retry_delay
  _ ← refuse (c.cooldown_max_ms == 0) bad_cooldown_max
  _ ←
      refuse
        (ltb (length c.priority_classes) 2
          || not (length c.priority_classes == length admission_priority_classes))
        wrong_class_count
  check_classes [] c.priority_classes

-- The tokens made so far: their number and their store.
abbrev pub Heap : Type 0
Heap = ℕ × Tokens

-- A restored entry is a placeholder: it holds its place in the queue and is never granted.
abbrev placeholder : String → Priority → Token
placeholder key p = record t { unowned = true }
  where
    t : Token
    t = new_token "" key p

abbrev doubtful : String → Token
doubtful key = record t { state = TokenState.uncertain; is_uncertain = true }
  where
    t : Token
    t = new_token "" key interactive

abbrev add_token : Token → Heap → Heap
add_token t (n, ts) = (suc n, put n t ts)

unfoldable pub restore_queue : String → List SavedEntry → Heap → List QueueEntry × Heap
restore_queue key [] h = ([], h)
restore_queue key (e ∷ es) h =
    let (q, h') = restore_queue key es (add_token (placeholder key e.priority) h) in
    (record { priority = e.priority; enqueued_at = e.enqueued_at; token = h.0 } ∷ q, h')

-- A permit of unknown outcome is armed again as `uncertain`; `concurrent` counts it already.
unfoldable pub restore_permit : String → Bool → Heap → Option ℕ × Heap
restore_permit key false h = (none, h)
restore_permit key true h = (some h.0, add_token (doubtful key) h)

unfoldable pub restore_scope : String → SavedScope → Heap → ScopeRuntime × Heap
unfolding restore_queue restore_permit
restore_scope key s h =
    let (q, h₁) = restore_queue key s.queue h in
    let (t, h₂) = restore_permit key s.in_flight h₁ in
    (
      record {
        concurrent = s.concurrent;
        cooldown_until = s.cooldown_until;
        queue = q;
        in_flight_token = t;
      },
      h₂,
    )

unfoldable pub restore_scopes :
    List (String × SavedScope)
    → List (String × ScopeRuntime)
    → Heap
    → List (String × ScopeRuntime) × Heap
unfolding restore_scope
restore_scopes [] m h = (m, h)
restore_scopes ((k, s) ∷ rows) m h =
    let (r, h') = restore_scope k s h in restore_scopes rows (insert k r m) h'

-- The loop of `restore` over the scopes of the snapshot.
unfoldable pub adopt : Snapshot → Controller → Controller
unfolding restore_scopes
adopt s c =
    let (m, h) = restore_scopes s.scopes c.scopes (c.next_token, c.tokens) in
    record c { scopes = m; restored = true; next_token = h.0; tokens = h.1 }

unfoldable pub restore : Snapshot → Controller → Checked Controller
unfolding adopt
restore s c =
    if c.restored then ok c else if s.version == 1 then ok (adopt s c) else err unsupported_version

unfoldable pub fresh : Config → Option (Option Snapshot) → Controller
fresh c store = record {
  config = c;
  scopes = [];
  restored = false;
  store = store;
  tokens = λ i. new_token "" "" interactive;
  next_token = 0;
}

abbrev pub loaded : Option (Option Snapshot) → Option Snapshot
loaded none = none
loaded (some s) = s

abbrev pub restore_loaded : Option Snapshot → Controller → Checked Controller
restore_loaded none c = ok c
restore_loaded (some s) c = restore s c

-- `new ProviderAdmissionController(config, store)`, with every field of the config given.
unfoldable pub construct : Config → Option (Option Snapshot) → Checked Controller
construct c store = do _ ← assert_config c; restore_loaded (loaded store) (fresh c store)
