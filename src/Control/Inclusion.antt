-- ===== src/Control/Inclusion.antt =====
-- src/orchestration/control-plane.ts, `isSubset`: which scopes lie within another.
use text.Mathlib.TextEquality.{eq_iff}
use ad_coder.Prelude.{
  inl, inr, str_eq, Bool-cases, String, true, List, [], ◌∷◌, All, All-impl, all-eq-true, ◌≡◌, ◌⊎◌,
  arith,
}
use ad_coder.Control.{RunScope}
use ad_coder.Control.Scopes.{includes, subset, is_subset}

-- The string stands in the list.
abbrev pub Among : String → List String → Type 0
Among a [] = ⊥
Among a (x ∷ xs) = (x ≡ a) ⊎ Among a xs

-- Each path, each capability and each external effect of the first scope is one of the second.
abbrev pub Within : RunScope → RunScope → Type 0
Within a b =
    All (λ x. Among x b.allowed_paths) a.allowed_paths
    × All (λ x. Among x b.allowed_capabilities) a.allowed_capabilities
    × All (λ x. Among x b.external_effects) a.external_effects

-- Each `includes` of the test finds an equal string.
includes-Among : (a : String) (xs : List String) → includes a xs ≡ true → Among a xs
includes-Among a [] h = cc
includes-Among a (x ∷ xs) h = elim (Bool-cases (str_eq x a)) [
  | inl e ↦ inl ((eq_iff x a).0 e)
  | inr e ↦ inr (includes-Among a xs (rw e at h))
]

subset-Among : (xs ys : List String) → subset xs ys ≡ true → All (λ a. Among a ys) xs
subset-Among xs ys h =
    All-impl _ _ (λ a. includes-Among a ys) xs (all-eq-true (λ v. includes v ys) xs h)

pub is_subset-Within : (a b : RunScope) → is_subset a b ≡ true → Within a b
unfolding is_subset
is_subset-Within a b h =
    let p = subset a.allowed_paths b.allowed_paths in
    let q = subset a.allowed_capabilities b.allowed_capabilities in
    let r = subset a.external_effects b.external_effects in
    let x : p ≡ true = ground (arith, h) in
    let y : q ≡ true = ground (arith, h) in
    let z : r ≡ true = ground (arith, h) in
    (subset-Among _ _ x, subset-Among _ _ y, subset-Among _ _ z)
