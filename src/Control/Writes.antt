-- ===== src/Control/Writes.antt =====
-- src/orchestration/control-plane.ts, `read` and `write`, and the write of a new run: what they keep
-- of the invariant.
use text.Mathlib.TextEquality.{eq_iff}
use ad_coder.Prelude.{
  ℕ, ◌+◌, ◌≤◌, ◌<◌, String, Bool, true, false, Option, none, some, All-impl, lookup, str_eq, ◌≡◌,
  refl, sym, subst, inl, inr, ◌⊎◌, arith, Bool-cases, ap, ◌∙◌,
}
use ad_coder.Versioned.{put_state, lookup-put_state, version_of}
use ad_coder.Control.{DurableRunRecord}
use ad_coder.Control.Plane.{
  Held, Runs, Task, resuming, checking, executing, deciding, returning, requesting, World,
}
use ad_coder.Control.Sound.{
  flag, flight, is_cancelled, executions, holds, IsStored, IsHeld, IsReady, IsSound,
}

-- Each held state stays one.
abbrev pub Carries : Runs → Runs → Type 0
Carries s s2 = (h : Held) → IsHeld s h → IsHeld s2 h

pub Carries-IsReady : (s s2 : Runs) → Carries s s2 → (k : Task) → IsReady s k → IsReady s2 k
Carries-IsReady s s2 c (resuming id until cs) h = All-impl _ _ c cs h
Carries-IsReady s s2 c (checking v cs) (a, b, d, h) = (c v a, b, d, All-impl _ _ c cs h)
Carries-IsReady s s2 c (executing v lease cs) h = All-impl _ _ c cs h
Carries-IsReady s s2 c (deciding v r children d cs) (a, b, h) = (c v a, b, All-impl _ _ c cs h)
Carries-IsReady s s2 c (returning r cs) h = All-impl _ _ c cs h
Carries-IsReady s s2 c (requesting v d) h = c v h

-- What a new state under an id must meet.
pub record Admits (load after : Option String) (id : String) (old : Option Held) (v : Held)
    : Type 0 where
  pub is_stored : IsStored id (some v)
  pub cancel : is_cancelled old ≡ true → is_cancelled (some v) ≡ true
  pub own : (n : ℕ) → n + holds load id ≤ flight old → n + holds after id ≤ flight (some v)
  pub others : (k : String) → str_eq id k ≡ false → holds after k ≤ holds load k
  pub later : version_of old < v.version

lookup_put :
    (id k : String) (v : Held) (s : Runs)
    → ((id ≡ k) × (lookup k (put_state id v s).states ≡ some v))
      ⊎ ((str_eq id k ≡ false) × (lookup k (put_state id v s).states ≡ lookup k s.states))
lookup_put id k v s =
    let e = lookup-put_state id k v s in
    elim (Bool-cases (str_eq id k)) [
      | inl b ↦ inl ((eq_iff id k).0 b, rw b at e)
      | inr b ↦ inr (b, rw b at e)
    ]

pub put-Carries :
    (id : String) (v : Held) (s : Runs)
    → version_of (lookup id s.states) < v.version
    → Carries s (put_state id v s)
put-Carries id v s later h (c, e, o) = elim (lookup_put id h.value.id v s) [
  | inl (same, f) ↦
      let l : version_of (lookup h.value.id s.states) < v.version =
        subst (λ k. version_of (lookup k s.states) < v.version) same later in
      let l2 : c.version < v.version = rw e at l in
      (
        v,
        f,
        inl (elim o [
          | inl less ↦ omega (arith, less, l2)
          | inr eq ↦ subst (λ x. x.version < v.version) eq l2
        ]),
      )
  | inr (other, f) ↦ (c, f ∙ e, o)
]

module _ (w0 : World) (load after : Option String) (id : String) (v : Held) (w : World) where
  pub put-IsSound :
      IsSound w0 load w
      → Admits load after id (lookup id w.runs.states) v
      → IsSound w0 after (record w { runs = put_state id v w.runs })
  put-IsSound i a = record {
    stored = λ k. elim (lookup_put id k v w.runs) [
      | inl (same, f) ↦ rw f (subst (λ x. IsStored x (some v)) same a.is_stored)
      | inr (other, f) ↦ rw f (i.stored k)
    ];
    ready =
        All-impl _ _
          (Carries-IsReady w.runs (put_state id v w.runs) (put-Carries id v w.runs a.later)) w.tasks
          i.ready;
    flights = λ k. elim (lookup_put id k v w.runs) [
      | inl (same, f) ↦ rw f (
          subst (λ x. executions x w.tasks + holds after x ≤ flight (some v)) same
            (a.own (executions id w.tasks) (i.flights id)))
      | inr (other, f) ↦ rw f (omega (arith, i.flights k, a.others k other))
    ];
    since = λ k. λ h. elim (lookup_put id k v w.runs) [
      | inl (same, f) ↦ (
        rw f (
            a.cancel (
              subst (λ x. is_cancelled (lookup x w.runs.states) ≡ true) (sym same)
                ((i.since k h).0))),
        (i.since k h).1,
      )
      | inr (other, f) ↦ (rw f ((i.since k h).0), (i.since k h).1)
    ];
  }

pub str_eq_refl : (id : String) → str_eq id id ≡ true
str_eq_refl id = (eq_iff id id).1 refl

pub put_held : (id : String) (v : Held) (s : Runs) → v.value.id ≡ id → IsHeld (put_state id v s) v
put_held id v s same = (
  v,
  subst (λ k. lookup k (put_state id v s).states ≡ some v) (sym same)
      (lookup-put_state id id v s ∙ rw (str_eq_refl id) refl),
  inr refl,
)

-- A held state whose version is the stored one is the stored one.
pub current_state :
    (s : Runs) (v : Held) (id : String)
    → v.value.id ≡ id
    → IsHeld s v
    → version_of (lookup id s.states) ≡ v.version
    → lookup id s.states ≡ some v
current_state s v id same (c, e, o) n =
    let e2 : lookup id s.states ≡ some c = subst (λ k. lookup k s.states ≡ some c) same e in
    let n2 : c.version ≡ v.version = rw e2 at n in
    elim o [ inl less ↦ absurd (omega (arith, less, n2)) | inr eq ↦ e2 ∙ ap some eq ]

-- What a write moves from the flag of a run to the step at hand, or back.
pub record Shift (load after : Option String) (id : String) (old new : DurableRunRecord)
    : Type 0 where
  pub own :
      (n : ℕ)
      → n + holds load id ≤ flag old.provider_turn_in_flight
      → n + holds after id ≤ flag new.provider_turn_in_flight
  pub others : (k : String) → str_eq id k ≡ false → holds after k ≤ holds load k

pub Shift-same :
    (load : Option String) (id : String) (old new : DurableRunRecord)
    → new.provider_turn_in_flight ≡ old.provider_turn_in_flight
    → Shift load load id old new
Shift-same load id old new e = record { own = λ n. λ h. rw e h; others = λ k. λ o. omega arith }

pub flag_le : (b : Bool) → flag b ≤ 1
flag_le true = omega arith
flag_le false = omega arith

holds_own : (id : String) → holds (some id) id ≡ 1
holds_own id = rw (str_eq_refl id) refl

pub Shift-cleared : (id : String) (old new : DurableRunRecord) → Shift (some id) none id old new
Shift-cleared id old new = record {
  own = λ n. λ h. omega (arith, h, holds_own id, flag_le old.provider_turn_in_flight);
  others = λ k. λ o. omega arith;
}

pub Shift-raised :
    (id : String) (old new : DurableRunRecord)
    → old.provider_turn_in_flight ≡ false
    → new.provider_turn_in_flight ≡ true
    → Shift none (some id) id old new
Shift-raised id old new e f = record {
  own = λ n. λ h. let h2 : n + 0 ≤ 0 = rw e at h in rw (f, holds_own id) (omega (arith, h2));
  others = λ k. λ o. rw o (omega arith);
}
