-- ===== src/Ledger/Sums.antt =====
-- What the deltas of a key sum up to.
use ad_coder.Prelude.{
  ℕ, ◌+◌, ◌-◌, ◌≤◌, ◌≡◌, ap, inl, inr, refl, String, true, false, Option, none, some, List, [], ◌∷◌,
  if◌then◌else◌, All, All-impl, arith, Bool-cases, lookup, insert, lookup-insert, str_eq,
}
use text.Mathlib.TextEquality.{eq_iff}
use ad_coder.Ledger.{
  Usage, UsageDelta, or_zero, subset_field, no_usage, usage_or_none, diff_cost, falls_cost, falls,
  diff_usage, Tracker, delta, deltas, tracked,
}

pub data Amount : Type 0 where
  input output cache_read cache_write cache_write_1h reasoning total_tokens : Amount
  input_cost output_cost cache_read_cost cache_write_cost total_cost : Amount

-- An amount of a usage, 0 where it is absent.
abbrev pub amount : Amount → Usage → ℕ
amount input u = u.input
amount output u = u.output
amount cache_read u = u.cache_read
amount cache_write u = u.cache_write
amount cache_write_1h u = or_zero u.cache_write_1h
amount reasoning u = or_zero u.reasoning
amount total_tokens u = u.total_tokens
amount input_cost u = u.cost.input
amount output_cost u = u.cost.output
amount cache_read_cost u = u.cost.cache_read
amount cache_write_cost u = u.cost.cache_write
amount total_cost u = u.cost.total

subset_field_lem : (p n : Option ℕ) → or_zero (subset_field p n) ≡ or_zero n - or_zero p
unfolding subset_field
subset_field_lem none none = omega arith
subset_field_lem none (some n) = refl
subset_field_lem (some p) n = refl

diff_amount :
    (f : Amount) (o : Option Usage) (n : Usage)
    → amount f (diff_usage o n).amounts ≡ amount f n - amount f (usage_or_none o)
unfolding diff_usage diff_cost
diff_amount input o n = refl
diff_amount output o n = refl
diff_amount cache_read o n = refl
diff_amount cache_write o n = refl
diff_amount cache_write_1h o n = subset_field_lem (usage_or_none o).cache_write_1h n.cache_write_1h
diff_amount reasoning o n = subset_field_lem (usage_or_none o).reasoning n.reasoning
diff_amount total_tokens o n = refl
diff_amount input_cost o n = refl
diff_amount output_cost o n = refl
diff_amount cache_read_cost o n = refl
diff_amount cache_write_cost o n = refl
diff_amount total_cost o n = refl

falls-amount : (f : Amount) (p n : Usage) → falls p n ≡ false → amount f p ≤ amount f n
unfolding falls falls_cost
falls-amount input p n h = ground arith
falls-amount output p n h = ground arith
falls-amount cache_read p n h = ground arith
falls-amount cache_write p n h = ground arith
falls-amount cache_write_1h p n h = ground arith
falls-amount reasoning p n h = ground arith
falls-amount total_tokens p n h = ground arith
falls-amount input_cost p n h = ground arith
falls-amount output_cost p n h = ground arith
falls-amount cache_read_cost p n h = ground arith
falls-amount cache_write_cost p n h = ground arith
falls-amount total_cost p n h = ground arith

-- The sum of an amount over the deltas of a key.
unfoldable pub sum : Amount → String → List (String × UsageDelta) → ℕ
sum f key [] = 0
sum f key ((j, d) ∷ ds) =
    let rest = sum f key ds in if str_eq j key then amount f d.amounts + rest else rest

-- No delta of the key is anomalous.
abbrev pub Monotonic : String → List (String × UsageDelta) → Type 0
Monotonic key ds = All (λ e. (if str_eq e.0 key then e.1.anomaly else false) ≡ false) ds

abbrev pub last : Amount → String → Tracker → ℕ
last f key t = amount f (usage_or_none (lookup key t))

last-insert :
    (f : Amount) (key j : String) (u : Usage) (t : Tracker)
    → last f key (insert j u t) ≡ (if str_eq j key then amount f u else last f key t)
last-insert f key j u t =
    let e : lookup key (insert j u t) ≡ (if str_eq j key then some u else lookup key t) =
      lookup-insert j key u t in
    elim (Bool-cases (str_eq j key)) [
      | inl b ↦ rw b (ap (λ o. amount f (usage_or_none o)) (rw b at e))
      | inr b ↦ rw b (ap (λ o. amount f (usage_or_none o)) (rw b at e))
    ]

zero_amount : (f : Amount) → amount f no_usage ≡ 0
zero_amount input = refl
zero_amount output = refl
zero_amount cache_read = refl
zero_amount cache_write = refl
zero_amount cache_write_1h = refl
zero_amount reasoning = refl
zero_amount total_tokens = refl
zero_amount input_cost = refl
zero_amount output_cost = refl
zero_amount cache_read_cost = refl
zero_amount cache_write_cost = refl
zero_amount total_cost = refl

-- The delta of a key, by the totals before it.
own_delta :
    (f : Amount) (key j : String) (u : Usage) (t : Tracker)
    → str_eq j key ≡ true
    → amount f (diff_usage (lookup j t) u).amounts ≡ amount f u - last f key t
own_delta f key j u t b =
    let e = ap (λ x. amount f (usage_or_none (lookup x t))) ((eq_iff j key).0 b) in
    omega (arith, diff_amount f (lookup j t) u, e)

own_rise :
    (f : Amount) (key j : String) (u : Usage) (t : Tracker)
    → str_eq j key ≡ true
    → (diff_usage (lookup j t) u).anomaly ≡ false
    → last f key t ≤ amount f u
unfolding diff_usage
own_rise f key j u t b h =
    let e = ap (λ x. amount f (usage_or_none (lookup x t))) ((eq_iff j key).0 b) in
    omega (arith, falls-amount f (usage_or_none (lookup j t)) u h, e)

covered :
    (f : Amount) (key : String) (es : List (String × Usage)) (t : Tracker)
    → last f key (tracked es t) ≤ last f key t + sum f key (deltas es t)
unfolding deltas tracked delta sum
covered f key [] t = omega arith
covered f key ((j, u) ∷ es) t =
    let ih = covered f key es (insert j u t) in
    let e = last-insert f key j u t in
    elim (Bool-cases (str_eq j key)) [
      | inl b ↦ let e2 = rw b at e in rw b (omega (arith, ih, e2, own_delta f key j u t b))
      | inr b ↦ let e2 = rw b at e in rw b (omega (arith, ih, e2))
    ]

exact :
    (f : Amount) (key : String) (es : List (String × Usage)) (t : Tracker)
    → Monotonic key (deltas es t)
    → last f key (tracked es t) ≡ last f key t + sum f key (deltas es t)
unfolding deltas tracked delta sum
exact f key [] t h = omega arith
exact f key ((j, u) ∷ es) t h =
    let ih = exact f key es (insert j u t) h.1 in
    let e = last-insert f key j u t in
    elim (Bool-cases (str_eq j key)) [
      | inl b ↦
          let e2 = rw b at e in
          let g = own_rise f key j u t b (rw b at h.0) in
          rw b (omega (arith, ih, e2, own_delta f key j u t b, g))
      | inr b ↦ let e2 = rw b at e in rw b (omega (arith, ih, e2))
    ]

-- The amount of a report of the key.
abbrev pub reported : Amount → String → String × Usage → ℕ
reported f key e = if str_eq e.0 key then amount f e.1 else 0

first_covered :
    (f : Amount) (key j : String) (u : Usage) (es : List (String × Usage)) (t : Tracker)
    → reported f key (j, u) ≤ last f key t + sum f key (deltas ((j, u) ∷ es) t)
unfolding deltas delta sum
first_covered f key j u es t = elim (Bool-cases (str_eq j key)) [
  | inl b ↦ rw b (omega (arith, own_delta f key j u t b))
  | inr b ↦ rw b (omega arith)
]

-- What a key has, and what its deltas still add to it, does not fall with a report.
rest_covered :
    (f : Amount) (key j : String) (u : Usage) (es : List (String × Usage)) (t : Tracker)
    → last f key (insert j u t) + sum f key (deltas es (insert j u t))
      ≤ last f key t + sum f key (deltas ((j, u) ∷ es) t)
unfolding deltas delta sum
rest_covered f key j u es t =
    let e = last-insert f key j u t in
    elim (Bool-cases (str_eq j key)) [
      | inl b ↦ let e2 = rw b at e in rw b (omega (arith, e2, own_delta f key j u t b))
      | inr b ↦ let e2 = rw b at e in rw b (omega (arith, e2))
    ]

each_covered :
    (f : Amount) (key : String) (es : List (String × Usage)) (t : Tracker)
    → All (λ e. reported f key e ≤ last f key t + sum f key (deltas es t)) es
each_covered f key [] t = tt
each_covered f key ((j, u) ∷ es) t = (
  first_covered f key j u es t,
  All-impl _ _ (λ x h. omega (arith, h, rest_covered f key j u es t)) es
      (each_covered f key es (insert j u t)),
)

-- Over any reports to a new tracker, of whichever keys and also where totals fall, each amount of every
-- report of a key, the last one among them, is at most the sum of the key's deltas. What was used
-- beyond the largest report, where totals fall, is not counted.
pub deltas_cover :
    (f : Amount) (key : String) (es : List (String × Usage))
    → All (λ e. reported f key e ≤ sum f key (deltas es [])) es
      × (last f key (tracked es []) ≤ sum f key (deltas es []))
unfolding lookup
deltas_cover f key es = (
  All-impl _ _ (λ e h. omega (arith, h, zero_amount f)) es (each_covered f key es []),
  omega (arith, covered f key es [], zero_amount f),
)

-- Where no delta of a key is anomalous, each amount of its last report is the sum of its deltas.
pub deltas_add_up :
    (f : Amount) (key : String) (es : List (String × Usage))
    → Monotonic key (deltas es [])
    → last f key (tracked es []) ≡ sum f key (deltas es [])
unfolding lookup
deltas_add_up f key es clean = omega (arith, exact f key es [] clean, zero_amount f)
