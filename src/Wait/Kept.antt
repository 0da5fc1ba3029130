-- ===== src/Wait/Kept.antt =====
-- What a wait keeps: its record, once it is settled.
use ad_coder.Prelude.{
  ℕ, ◌≡◌, refl, sym, subst, ◌∙◌, String, true, false, Option, none, some, List, [], ◌∷◌, All,
  lookup,
}
use mathlib.Core.Option.{some-injective}
use ad_coder.Versioned.{VersionedState, put_rule}
use ad_coder.Wait.{WaitRecord, is_pending}
use ad_coder.Wait.Records.{Waits, WaitService}
use ad_coder.Wait.History.{WaitCall, World, step, run, start}
use ad_coder.Wait.Moves.{step-Move}
use ad_coder.Wait.Changes.{
  Change, kept, closed, sent, answered, Move, stayed, opened, changed, target,
}
use ad_coder.Wait.Valid.{AllServed, advanced-AllServed, run-AllServed, start-AllServed}
use ad_coder.Wait.Shape.{Drawn}
use ad_coder.Wait.Once.{unserved}

-- A stored record with `P`.
abbrev pub Holds : (WaitRecord → Type 0) → Option (VersionedState WaitRecord) → Type 0
Holds P o = (v : VersionedState WaitRecord) × (o ≡ some v) × P v.value

pub none_held {ℓ} :
    {A : Type ℓ} (P : WaitRecord → Type 0) (o : Option (VersionedState WaitRecord))
    → o ≡ none
    → Holds P o
    → A
none_held P o e (v, f, p) = cc

-- What no change of a call breaks, no call breaks.
module _ (k : WaitService) (P : WaitRecord → Type 0) (Allowed : WaitCall → Type 0)
    (keeps : (c : WaitCall) (r r2 : WaitRecord) → Allowed c → Change k c r r2 → P r → P r2) where
  pub advanced-Holds :
      (c : WaitCall) (s t : Waits) (id : String)
      → Allowed c
      → AllServed k s
      → Move k c s t
      → Holds P (lookup id s.states)
      → Holds P (lookup id t.states)
  advanced-Holds _ _ _ id a i (stayed c s) h = h
  advanced-Holds _ _ _ id a i (opened j now terms s good named e small) h =
      put_rule (λ x y. Holds P x → Holds P y) j id _ s (λ o p. p)
        (λ p. none_held P _ (unserved k j s i _ refl e) p) h
  advanced-Holds _ _ _ id a i (changed c s v r f good change small) h =
      put_rule (λ x y. Holds P x → Holds P y) (target c) id _ s (λ o p. p)
        (λ p.
          let (u, e, q) = p in
          (
            _,
            refl,
            keeps c v.value r a change (
                subst (λ (x : VersionedState WaitRecord). P x.value)
                  (some-injective _ _ (sym e ∙ f)) q),
          ))
        h

  pub run-Holds :
      (cs : List WaitCall) (w : World) (id : String)
      → All Drawn cs
      → All Allowed cs
      → AllServed k w.waits
      → Holds P (lookup id w.waits.states)
      → Holds P (lookup id (run k cs w).waits.states)
  unfolding run
  run-Holds [] w id d a i h = h
  run-Holds (c ∷ cs) w id d a i h =
      let m = step-Move k c w in
      run-Holds cs (step k c w) id d.1 a.1 (advanced-AllServed k c w.waits _ d.0 m i)
        (advanced-Holds c w.waits (step k c w).waits id a.0 i m h)

pub settled_twice :
    (r old : WaitRecord)
    → is_pending old.lifecycle ≡ false
    → is_pending r.lifecycle ≡ true
    → r ≡ old
    → ⊥
settled_twice r old f p h =
    let q : is_pending old.lifecycle ≡ true =
      subst (λ (x : WaitRecord). is_pending x.lifecycle ≡ true) h p in
    cc

pub All_unit : (cs : List WaitCall) → All (λ c. Unit {0}) cs
All_unit [] = tt
All_unit (c ∷ cs) = (tt, All_unit cs)

pub final_change :
    (k : WaitService) (old : WaitRecord)
    → is_pending old.lifecycle ≡ false
    → (c : WaitCall) (r r2 : WaitRecord) → Unit {0}
    → Change k c r r2
    → r ≡ old
    → r2 ≡ old
final_change k old f _ _ _ u (kept c r) h = h
final_change k old f _ _ _ u (closed c r l e now p q) h = absurd (settled_twice r old f p h)
final_change k old f _ _ _ u (sent id op now r p q) h = absurd (settled_twice r old f p h)
final_change k old f _ _ _ u (answered id op o now r p q) h = absurd (settled_twice r old f p h)

-- A settled wait is final: whatever is called after it settled, the whole record, with its events and
-- its evidence, stays as it is.
pub settled_is_final :
    (k : WaitService) (limit : ℕ) (cs ds : List WaitCall) (id : String)
    (v : VersionedState WaitRecord)
    → All Drawn cs
    → All Drawn ds
    → lookup id (run k cs (start limit)).waits.states ≡ some v
    → is_pending v.value.lifecycle ≡ false
    → Holds (λ r. r ≡ v.value) (lookup id (run k ds (run k cs (start limit))).waits.states)
settled_is_final k limit cs ds id v a b h f =
    run-Holds k (λ r. r ≡ v.value) (λ c. Unit) (final_change k v.value f) ds
      (run k cs (start limit)) id b (All_unit ds)
      (run-AllServed k cs (start limit) a (start-AllServed k limit)) (v, h, refl)
