-- ===== src/Admission/Persist.antt =====
-- src/provider-admission.ts, `snapshot` and `persist`: what is saved of the scopes.
use ad_coder.Prelude.{ℕ, String, Bool, true, false, Option, none, some, map}
use ad_coder.Admission.{QueueEntry, ScopeRuntime, SavedEntry, SavedScope, Snapshot, Controller}

abbrev pub save_entry : QueueEntry → SavedEntry
save_entry e = record { priority = e.priority; enqueued_at = e.enqueued_at }

abbrev pub is_present : Option ℕ → Bool
is_present none = false
is_present (some t) = true

abbrev pub save_scope : ScopeRuntime → SavedScope
save_scope s = record {
  concurrent = s.concurrent;
  queue = map save_entry s.queue;
  cooldown_until = s.cooldown_until;
  in_flight = is_present s.in_flight_token;
}

abbrev pub save_row : String × ScopeRuntime → String × SavedScope
save_row (k, s) = (k, save_scope s)

unfoldable pub snapshot : Controller → Snapshot
snapshot c = record { version = 1; scopes = map save_row c.scopes }

-- `this.store?.save(this.snapshot())`
abbrev pub saved_with : Snapshot → Option (Option Snapshot) → Option (Option Snapshot)
saved_with s none = none
saved_with s (some old) = some (some s)

unfoldable pub persist : Controller → Controller
unfolding snapshot
persist c = record c { store = saved_with (snapshot c) c.store }
