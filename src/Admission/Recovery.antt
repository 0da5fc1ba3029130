-- ===== src/Admission/Recovery.antt =====
-- A controller that starts from what its store holds is where the one before it was.
use mathlib.Core.List.{map-append}
use ad_coder.Prelude.{
  ◌≡◌, refl, sym, ap, ◌∙◌, Bool, true, false, Option, List, [], ◌∷◌, ◌++◌, map, String, lookup,
  insert, Distinct, insert_fresh, Apart, Apart-insert, append_assoc, append-nil,
}
use ad_coder.Admission.{Config, ScopeRuntime, SavedEntry, SavedScope, Snapshot, Controller}
use ad_coder.Admission.Persist.{save_entry, save_row, save_scope, is_present, snapshot}
use ad_coder.Admission.Restore.{
  ok, Heap, restore_queue, restore_permit, restore_scope, restore_scopes, adopt, restore, fresh,
}

restore_queue-save :
    (key : String) (es : List SavedEntry) (h : Heap)
    → map save_entry (restore_queue key es h).0 ≡ es
unfolding restore_queue
restore_queue-save key [] h = refl
restore_queue-save key (e ∷ es) h = ap (λ r. e ∷ r) (restore_queue-save key es _)

restore_permit-save :
    (key : String) (b : Bool) (h : Heap) → is_present (restore_permit key b h).0 ≡ b
unfolding restore_permit
restore_permit-save key false h = refl
restore_permit-save key true h = refl

restore_scope-save :
    (key : String) (s : SavedScope) (h : Heap) → save_scope (restore_scope key s h).0 ≡ s
unfolding restore_scope
restore_scope-save key s h = λ i. record {
  concurrent = s.concurrent;
  queue = restore_queue-save key s.queue h i;
  cooldown_until = s.cooldown_until;
  in_flight = restore_permit-save key s.in_flight (restore_queue key s.queue h).1 i;
}

restore_scopes-save :
    (rows : List (String × SavedScope)) (m : List (String × ScopeRuntime)) (h : Heap)
    → Distinct rows
    → Apart rows m
    → map save_row (restore_scopes rows m h).0 ≡ map save_row m ++ rows
unfolding restore_scopes
restore_scopes-save [] m h d a = sym (append-nil (map save_row m))
restore_scopes-save ((k, s) ∷ rows) m h d a =
    restore_scopes-save rows (insert k r m) (restore_scope k s h).1 d.1
      (Apart-insert k r m rows d.0 a.1)
    ∙ ap (λ l. l ++ rows) (ap (map save_row) (insert_fresh k r m a.0) ∙ map-append save_row m _)
    ∙ append_assoc (map save_row m) _ rows
    ∙ ap (λ t. map save_row m ++ ((k, t) ∷ rows)) (restore_scope-save k s h)
  where
    r : ScopeRuntime
    r = (restore_scope k s h).0

Apart-nil : (rows : List (String × SavedScope)) → Apart {V = ScopeRuntime} rows []
unfolding lookup
Apart-nil [] = tt
Apart-nil (e ∷ rows) = (refl, Apart-nil rows)

snapshot-adopt :
    (cfg : Config) (store : Option (Option Snapshot)) (s : Snapshot)
    → s.version ≡ 1
    → Distinct s.scopes
    → snapshot (adopt s (fresh cfg store)) ≡ s
unfolding snapshot adopt fresh
snapshot-adopt cfg store s v d = λ i. record {
  version = sym v i;
  scopes = restore_scopes-save s.scopes [] (0, (fresh cfg store).tokens) d (Apart-nil s.scopes) i;
}

-- A snapshot of version 1 whose scope keys are distinct comes back: a new controller takes it, and
-- its own snapshot is that one.
pub snapshot-restore :
    (cfg : Config) (store : Option (Option Snapshot)) (s : Snapshot)
    → s.version ≡ 1
    → Distinct s.scopes
    → (c : Controller) × (restore s (fresh cfg store) ≡ ok c) × (snapshot c ≡ s)
unfolding restore fresh
snapshot-restore cfg store s v d = (adopt s (fresh cfg store), rw v, snapshot-adopt cfg store s v d)
