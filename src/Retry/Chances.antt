-- ===== src/Retry/Chances.antt =====
-- The callbacks of a run that were started, and that can still be.
use ad_coder.Prelude.{
  ℕ, ◌+◌, ◌-◌, ◌≤◌, ◌≡◌, ap, inl, inr, refl, ltb, String, Bool, true, false, Option, none, some,
  List, [], ◌∷◌, ◌++◌, arith, if_rule, Bool-cases, lookup, str_eq,
}
use ad_coder.Retry.{Timer, Entry, Coordinator, delete, remove_first, cancel, drain_from, drain}

abbrev pub one_if : Bool → ℕ
one_if true = 1
one_if false = 0

-- How many entries are of a run.
unfoldable pub occurs : String → List Entry → ℕ
occurs r [] = 0
occurs r (e ∷ es) = one_if (str_eq e.run_id r) + occurs r es

abbrev pub waits : Option Timer → ℕ
waits none = 0
waits (some t) = 1

waits_le_one : (o : Option Timer) → waits o ≤ 1
waits_le_one none = omega arith
waits_le_one (some t) = omega arith

-- The timers and entries of a run that can still start a callback.
unfoldable pub chances : String → Coordinator → ℕ
unfolding occurs lookup
chances r c = waits (lookup r c.pending) + occurs r c.ready

pub occurs-append :
    (r : String) (es fs : List Entry) → occurs r (es ++ fs) ≡ occurs r es + occurs r fs
unfolding occurs
occurs-append r [] fs = omega arith
occurs-append r (e ∷ es) fs = omega (arith, occurs-append r es fs)

pub occurs-remove_first :
    (r : String) (es : List Entry) → occurs r (remove_first r es) ≡ occurs r es - 1
unfolding occurs remove_first
occurs-remove_first r [] = omega arith
occurs-remove_first r (e ∷ es) = ground (arith, occurs-remove_first r es)

pub occurs-remove_first_le :
    (r j : String) (es : List Entry) → occurs r (remove_first j es) ≤ occurs r es
unfolding occurs remove_first
occurs-remove_first_le r j [] = omega arith
occurs-remove_first_le r j (e ∷ es) = ground (arith, occurs-remove_first_le r j es)

pub lookup-delete_self :
    (r : String) (table : List (String × Timer)) → lookup r (delete r table) ≡ none
unfolding lookup delete
lookup-delete_self r [] = refl
lookup-delete_self r ((j, t) ∷ table) = ground (arith, lookup-delete_self r table)

pub waits-delete :
    (r j : String) (table : List (String × Timer))
    → waits (lookup r (delete j table)) ≤ waits (lookup r table)
unfolding lookup delete
waits-delete r j [] = omega arith
waits-delete r j ((i, t) ∷ table) = elim (Bool-cases (str_eq i j)) [
  | inl same ↦ elim (Bool-cases (str_eq i r)) [
    | inl same2 ↦ rw (same, same2) (waits_le_one (lookup r (delete j table)))
    | inr other2 ↦ rw (same, other2) (waits-delete r j table)
  ]
  | inr other ↦ elim (Bool-cases (str_eq i r)) [
    | inl same2 ↦ rw (other, same2) (omega arith)
    | inr other2 ↦ rw (other, other2) (waits-delete r j table)
  ]
]

drain_from-occurs :
    (r : String) (es : List Entry) (c : Coordinator)
    → occurs r (drain_from c es).started + occurs r (drain_from c es).ready
      ≤ occurs r c.started + occurs r es
unfolding drain_from occurs
drain_from-occurs r [] c = omega arith
drain_from-occurs r (e ∷ es) c =
    if_rule
      (λ (d : Coordinator).
        occurs r d.started + occurs r d.ready
        ≤ occurs r c.started + (one_if (str_eq e.run_id r) + occurs r es))
      (ltb c.active c.limits.max_concurrent_admissions) _ _
      (λ p. omega (
        arith,
        drain_from-occurs r es (record c { active = c.active + 1; started = e ∷ c.started }),
      ))
      (λ p. omega arith)

drain_from-pending : (es : List Entry) (c : Coordinator) → (drain_from c es).pending ≡ c.pending
unfolding drain_from
drain_from-pending [] c = refl
drain_from-pending (e ∷ es) c =
    if_rule (λ (d : Coordinator). d.pending ≡ c.pending)
      (ltb c.active c.limits.max_concurrent_admissions) _ _
      (λ p. drain_from-pending es (record c { active = c.active + 1; started = e ∷ c.started }))
      (λ p. refl)

-- Starts that were made, and that can still be made.
unfoldable pub total : String → Coordinator → ℕ
unfolding chances occurs
total r c = occurs r c.started + chances r c

drain_from-ready :
    (r : String) (es : List Entry) (c : Coordinator)
    → occurs r (drain_from c es).ready ≤ occurs r es
unfolding drain_from occurs
drain_from-ready r [] c = omega arith
drain_from-ready r (e ∷ es) c =
    if_rule (λ (d : Coordinator). occurs r d.ready ≤ one_if (str_eq e.run_id r) + occurs r es)
      (ltb c.active c.limits.max_concurrent_admissions) _ _
      (λ p. omega (
        arith,
        drain_from-ready r es (record c { active = c.active + 1; started = e ∷ c.started }),
      ))
      (λ p. omega arith)

-- Nothing was gained for the run from `c` to `d`.
abbrev pub Calmer : String → Coordinator → Coordinator → Type 0
Calmer r d c = (chances r d ≤ chances r c) × (total r d ≤ total r c)

pub drain-Calmer : (r : String) (c : Coordinator) → Calmer r (drain c) c
unfolding drain total chances
drain-Calmer r c =
    let p = ap (λ t. waits (lookup r t)) (drain_from-pending c.ready c) in
    (
      omega (arith, drain_from-ready r c.ready c, p),
      omega (arith, drain_from-occurs r c.ready c, p),
    )

pub cancel-chances : (r j : String) (c : Coordinator) → chances r (cancel j c) ≤ chances r c
unfolding cancel chances
cancel-chances r j c = omega (arith, waits-delete r j c.pending, occurs-remove_first_le r j c.ready)

pub cancel_self : (r : String) (c : Coordinator) → chances r c ≤ 1 → chances r (cancel r c) ≡ 0
unfolding cancel chances
cancel_self r c h =
    let w = ap waits (lookup-delete_self r c.pending) in
    omega (arith, w, occurs-remove_first r c.ready, h)
