-- ===== src/Wait/Once.antt =====
-- A wait as a promise: a specification that knows its terms and its lifecycle only.
use ad_coder.Prelude.{
  ℕ, ◌≡◌, refl, sym, subst, String, true, false, Option, none, some, List, [], ◌∷◌, All, lookup,
  arith, if_rule,
}
use ad_coder.Versioned.{VersionedState, version_of, put_rule}
use ad_coder.Wait.{WaitLifecycle, pending, WaitTerms, WaitRecord, is_pending}
use ad_coder.Wait.Service.{observe}
use ad_coder.Wait.Records.{Waits, WaitService, append}
use ad_coder.Wait.History.{WaitCall, World, step, run, start}
use ad_coder.Wait.Moves.{step-Move}
use ad_coder.Wait.Changes.{
  Change, kept, closed, sent, answered, Move, stayed, opened, changed, target,
}
use ad_coder.Wait.Valid.{AllServed, advanced-AllServed, run-AllServed, start-AllServed}
use ad_coder.Wait.Shape.{Drawn}

abbrev pub Cell : Type 0
Cell = Option (WaitTerms × WaitLifecycle)

abbrev pub view : Option (VersionedState WaitRecord) → Cell
view none = none
view (some v) = some (v.value.terms, v.value.lifecycle)

abbrev pub cell : String → Waits → Cell
cell id s = view (lookup id s.states)

-- A promise is registered once, then settled once.
pub data Advance : Cell → Cell → Type 0 where
  registered : (t : WaitTerms) → Advance none (some (t, pending))
  finished :
      (t : WaitTerms) (l : WaitLifecycle)
      → is_pending l ≡ false
      → Advance (some (t, pending)) (some (t, l))

pub data Lives : Cell → Cell → Type 0 where
  rests : (a : Cell) → Lives a a
  goes : (a b c : Cell) → Advance a b → Lives b c → Lives a c

Lives-trans : (a b c : Cell) → Lives a b → Lives b c → Lives a c
Lives-trans _ _ c (rests a) h = h
Lives-trans _ _ c (goes a b d g l) h = goes a b c g (Lives-trans b d c l h)

pending_lem : (l : WaitLifecycle) → is_pending l ≡ true → l ≡ pending
pending_lem pending h = refl
pending_lem WaitLifecycle.satisfied h = cc
pending_lem WaitLifecycle.unsuccessful h = cc
pending_lem WaitLifecycle.unavailable h = cc
pending_lem WaitLifecycle.timed_out h = cc
pending_lem WaitLifecycle.stalled h = cc
pending_lem WaitLifecycle.cancelled h = cc

settles :
    (t : WaitTerms) (l l2 : WaitLifecycle)
    → is_pending l ≡ true
    → is_pending l2 ≡ false
    → Lives (some (t, l)) (some (t, l2))
settles t l l2 p q =
    subst (λ x. Lives (some (t, x)) (some (t, l2))) (sym (pending_lem l p))
      (goes _ _ _ (finished t l2 q) (rests (some (t, l2))))

change-Lives :
    (k : WaitService) (c : WaitCall) (r r2 : WaitRecord)
    → Change k c r r2
    → Lives (some (r.terms, r.lifecycle)) (some (r2.terms, r2.lifecycle))
unfolding append observe
change-Lives k _ _ _ (kept c r) = rests _
change-Lives k _ _ _ (closed c r l e now p q) = settles r.terms r.lifecycle l p q
change-Lives k _ _ _ (sent id op now r p q) = rests _
change-Lives k _ _ _ (answered id op o now r p q) =
    if_rule (λ (x : WaitRecord). Lives (some (r.terms, r.lifecycle)) (some (x.terms, x.lifecycle)))
      (is_pending o.lifecycle) _ _ (λ b. rests _) (λ b. settles r.terms r.lifecycle o.lifecycle p b)

pub unserved :
    (k : WaitService) (id : String) (s : Waits)
    → AllServed k s
    → (o : Option (VersionedState WaitRecord)) → lookup id s.states ≡ o
    → version_of o ≡ 0
    → o ≡ none
unserved k id s i none h z = refl
unserved k id s i (some v) h z = absurd (omega (arith, (i id v h).versioned, z))

advanced-Lives :
    (k : WaitService) (c : WaitCall) (s t : Waits) (id : String)
    → AllServed k s
    → Move k c s t
    → Lives (cell id s) (cell id t)
unfolding append
advanced-Lives k _ _ _ id i (stayed c s) = rests _
advanced-Lives k _ _ _ id i (opened j now terms s good named e small) =
    put_rule (λ a b. Lives (view a) (view b)) j id _ s (λ o. rests (view o))
      (subst (λ o. Lives (view o) (some (terms, pending))) (sym (unserved k j s i _ refl e))
        (goes _ _ _ (registered terms) (rests _)))
advanced-Lives k _ _ _ id i (changed c s v r found good change small) =
    put_rule (λ a b. Lives (view a) (view b)) (target c) id _ s (λ o. rests (view o))
      (subst (λ o. Lives (view o) (some (r.terms, r.lifecycle))) (sym found)
        (change-Lives k c v.value r change))

run-Lives_from :
    (k : WaitService) (cs : List WaitCall) (w : World) (id : String)
    → All Drawn cs
    → AllServed k w.waits
    → Lives (cell id w.waits) (cell id (run k cs w).waits)
unfolding run
run-Lives_from k [] w id d i = rests _
run-Lives_from k (c ∷ cs) w id d i =
    let m = step-Move k c w in
    Lives-trans _ _ _ (advanced-Lives k c w.waits (step k c w).waits id i m)
      (run-Lives_from k cs (step k c w) id d.1 (advanced-AllServed k c w.waits _ d.0 m i))

-- The service refines a promise for each id: between any two points of a history, with safe ids of
-- operations, the wait rests or takes the steps of `Advance`: it is registered as pending when the
-- id is new, and settles once, with the terms it was registered with.
pub run-Lives :
    (k : WaitService) (limit : ℕ) (cs ds : List WaitCall) (id : String)
    → All Drawn cs
    → All Drawn ds
    → Lives
        (cell id (run k cs (start limit)).waits)
        (cell id (run k ds (run k cs (start limit))).waits)
run-Lives k limit cs ds id a b =
    run-Lives_from k ds (run k cs (start limit)) id b
      (run-AllServed k cs (start limit) a (start-AllServed k limit))
