-- ===== src/Admission/Crash.antt =====
-- A crash at any time: the controller that is constructed from the store stands where the lost one
-- stood.
use ad_coder.Prelude.{
  ℕ, ◌<◌, ◌≡◌, refl, sym, subst, inl, inr, Option, none, some, List, [], ◌∷◌, map, arith, String,
  lookup, Distinct, Bool-cases, str_eq,
}
use ad_coder.Admission.{Config, ScopeRuntime, Snapshot, Controller}
use ad_coder.Admission.Persist.{save_row, snapshot}
use ad_coder.Admission.Restore.{ok, assert_config, fresh, construct}
use ad_coder.Admission.Recovery.{snapshot-restore}
use ad_coder.Admission.Durable.{IsDurable, run-IsDurable}
use ad_coder.Admission.Wrap.{Event, run}

lookup-save_row :
    (k : String) (m : List (String × ScopeRuntime))
    → lookup k m ≡ none
    → lookup k (map save_row m) ≡ none
unfolding lookup
lookup-save_row k [] h = refl
lookup-save_row k ((j, s) ∷ m) h = elim (Bool-cases (str_eq j k)) [
  | inl same ↦ let e : some s ≡ none = rw same at h in absurd (ground (arith, e))
  | inr other ↦ rw other (lookup-save_row k m (rw other at h))
]

Distinct-save_row : (m : List (String × ScopeRuntime)) → Distinct m → Distinct (map save_row m)
Distinct-save_row [] d = tt
Distinct-save_row ((k, s) ∷ m) d = (lookup-save_row k m d.0, Distinct-save_row m d.1)

roomy : (cfg : Config) → assert_config cfg ≡ ok tt → 0 < cfg.queue_capacity_per_scope
unfolding assert_config
roomy cfg h = ground arith

construct_stored :
    (cfg : Config) (s : Snapshot)
    → assert_config cfg ≡ ok tt
    → s.version ≡ 1
    → Distinct s.scopes
    → (c : Controller) × (construct cfg (some (some s)) ≡ ok c) × (snapshot c ≡ s)
unfolding construct
construct_stored cfg s h v d =
    let (c, e, q) = snapshot-restore cfg (some (some s)) s v d in (c, rw (h, construct) e, q)

abbrev Recovered : Config → Snapshot → Option (Option Snapshot) → Type 0
Recovered cfg s store = (c : Controller) × (construct cfg store ≡ ok c) × (snapshot c ≡ s)

snapshot-Distinct : (c : Controller) → Distinct c.scopes → Distinct (snapshot c).scopes
unfolding snapshot
snapshot-Distinct c d = Distinct-save_row c.scopes d

version_one : (c : Controller) → (snapshot c).version ≡ 1
unfolding snapshot
version_one c = refl

empty_snapshot :
    (cfg : Config) (c : Controller) → c.scopes ≡ [] → snapshot (fresh cfg (some none)) ≡ snapshot c
unfolding snapshot fresh
empty_snapshot cfg c e = rw e

fresh-IsDurable :
    (cfg : Config) → 0 < cfg.queue_capacity_per_scope → IsDurable (fresh cfg (some none))
unfolding fresh
fresh-IsDurable cfg h = ((tt, refl, h), inr (refl, refl))

construct_empty :
    (cfg : Config)
    → assert_config cfg ≡ ok tt
    → construct cfg (some none) ≡ ok (fresh cfg (some none))
unfolding construct
construct_empty cfg h = rw (h, construct)

-- Whatever a controller with a valid configuration and an empty store has lived through, one that
-- is constructed anew from its store has the same snapshot.
pub construct-run :
    (cfg : Config) (es : List (ℕ × Event))
    → assert_config cfg ≡ ok tt
    → let lost = run es (fresh cfg (some none)) in
      (c : Controller) × (construct cfg lost.store ≡ ok c) × (snapshot c ≡ snapshot lost)
construct-run cfg es h =
    let (r, stands) =
      run-IsDurable es (fresh cfg (some none)) (fresh-IsDurable cfg (roomy cfg h)) in
    elim stands [
      | inl saved ↦
          subst (Recovered cfg (snapshot lost)) (sym saved)
            (construct_stored cfg (snapshot lost) h (version_one lost) (snapshot-Distinct lost r.0))
      | inr (empty, unsaved) ↦
          subst (Recovered cfg (snapshot lost)) (sym unsaved)
            (fresh cfg (some none), construct_empty cfg h, empty_snapshot cfg lost empty)
    ]
  where
    lost : Controller
    lost = run es (fresh cfg (some none))
