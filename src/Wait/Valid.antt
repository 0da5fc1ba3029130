-- ===== src/Wait/Valid.antt =====
-- What a service reads back.
use ad_coder.Prelude.{
  ℕ, ◌<◌, ◌≡◌, inl, inr, refl, sym, subst, String, true, none, some, List, [], ◌∷◌, if◌then◌else◌,
  All, lookup, insert, lookup-insert, ◌∙◌, arith, Bool-cases, str_eq, lt→ltb,
}
use mathlib.Core.Option.{some-injective}
use text.Mathlib.TextEquality.{eq_iff}
use ad_coder.Versioned.{VersionedState, ok, put_state, read_versioned_json}
use ad_coder.Wait.{pending, WaitRecord, is_wait_id}
use ad_coder.Wait.Service.{fits, checked, read}
use ad_coder.Wait.Records.{Waits, WaitService, append, found}
use ad_coder.Wait.History.{WaitCall, World, step, run, start}
use ad_coder.Wait.Moves.{step-Move}
use ad_coder.Wait.Changes.{Move, stayed, opened, changed, target}
use ad_coder.Wait.Shape.{
  Drawn, IsShaped, append-IsShaped, both, change-IsShaped, change-id, initial-IsShaped, shape_whole,
}

-- What holds of the state of a wait.
pub record IsServed (k : WaitService) (id : String) (v : VersionedState WaitRecord) : Type 0 where
  pub shaped : IsShaped k.limits v.value
  pub versioned : 0 < v.version
  pub small : fits k v ≡ true
  pub same_id : v.value.id ≡ id

abbrev pub AllServed : WaitService → Waits → Type 0
AllServed k s =
    (id : String) (v : VersionedState WaitRecord) → lookup id s.states ≡ some v → IsServed k id v

put-AllServed :
    (k : WaitService) (id : String) (v : VersionedState WaitRecord) (s : Waits)
    → AllServed k s
    → IsServed k id v
    → AllServed k (put_state id v s)
unfolding insert
put-AllServed k id v s all_served served j u h = elim (Bool-cases (str_eq id j)) [
  | inl same ↦
      let h2 : (if str_eq id j then some v else lookup j s.states) ≡ some u =
        sym (lookup-insert id j v s.states) ∙ h in
      let e : some v ≡ some u = rw same at h2 in
      subst (IsServed k j) (some-injective _ _ e)
        (subst (λ i. IsServed k i v) ((eq_iff id j).0 same) served)
  | inr other ↦
      let h2 : (if str_eq id j then some v else lookup j s.states) ≡ some u =
        sym (lookup-insert id j v s.states) ∙ h in
      all_served j u (rw other at h2)
]

pub advanced-AllServed :
    (k : WaitService) (c : WaitCall) (s t : Waits)
    → Drawn c
    → Move k c s t
    → AllServed k s
    → AllServed k t
unfolding append
advanced-AllServed k _ _ _ d (stayed c s) i = i
advanced-AllServed k _ _ _ d (opened id now terms s good named e small) i =
    put-AllServed k id _ s i (record {
      shaped =
          append-IsShaped k.limits pending now none _
            (initial-IsShaped k.limits id now terms good named);
      versioned = omega arith;
      small = small;
      same_id = refl;
    })
advanced-AllServed k _ _ _ d (changed c s v r found good change small) i =
    let old = i (target c) v found in
    put-AllServed k (target c) _ s i (record {
      shaped = change-IsShaped k c v.value r d change old.shaped;
      versioned = omega arith;
      small = small;
      same_id = change-id k c v.value r change ∙ old.same_id;
    })

pub run-AllServed :
    (k : WaitService) (cs : List WaitCall) (w : World)
    → All Drawn cs
    → AllServed k w.waits
    → AllServed k (run k cs w).waits
unfolding run
run-AllServed k [] w d i = i
run-AllServed k (c ∷ cs) w d i =
    run-AllServed k cs (step k c w) d.1 (advanced-AllServed k c w.waits _ d.0 (step-Move k c w) i)

pub start-AllServed : (k : WaitService) (limit : ℕ) → AllServed k (start limit).waits
unfolding lookup
start-AllServed k limit id v h = cc

pub found_lem :
    (id : String) (v : VersionedState WaitRecord) (s : Waits)
    → lookup id s.states ≡ some v
    → found (read_versioned_json id s) ≡ ok v
unfolding read_versioned_json
found_lem id v s h = rw (h, read_versioned_json) refl

checked_served :
    (k : WaitService) (id : String) (v : VersionedState WaitRecord)
    → IsServed k id v
    → checked k v ≡ ok v.value
unfolding checked
checked_served k id v i =
    let good = both (lt→ltb 0 v.version i.versioned) (shape_whole k.limits v.value i.shaped) in
    let small = i.small in rw (good, small) refl

read_served :
    (k : WaitService) (id : String) (v : VersionedState WaitRecord) (s : Waits)
    → lookup id s.states ≡ some v
    → IsServed k id v
    → read k id s ≡ ok v.value
unfolding read
read_served k id v s h i =
    let named : is_wait_id id ≡ true = subst (λ j. is_wait_id j ≡ true) i.same_id i.shaped.named in
    let e = found_lem id v s h in rw (named, e) (checked_served k id v i)

-- The service reads back every wait that it stored: after any history of an empty store, with safe
-- ids of operations, a stored state passes all the checks of a read, the ceiling of its size
-- included, and stands under its own id.
pub run-read :
    (k : WaitService) (limit : ℕ) (cs : List WaitCall) (id : String) (v : VersionedState WaitRecord)
    → All Drawn cs
    → lookup id (run k cs (start limit)).waits.states ≡ some v
    → (read k id (run k cs (start limit)).waits ≡ ok v.value) × (v.value.id ≡ id)
run-read k limit cs id v d h =
    let i = run-AllServed k cs (start limit) d (start-AllServed k limit) id v h in
    (read_served k id v (run k cs (start limit)).waits h i, i.same_id)
