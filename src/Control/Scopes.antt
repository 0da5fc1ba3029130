-- ===== src/Control/Scopes.antt =====
-- src/orchestration/control-plane.ts: `normalizedScope`, `isSubset` and `evidenceReferences`.
use ad_coder.Prelude.{
  ℕ, ◌==◌, String, Bool, ◌&&◌, ◌||◌, Option, none, some, List, [], ◌∷◌, any, all, map, length,
  if◌then◌else◌, codes, within, is_letter, is_digit, str_eq,
}
use ad_coder.Control.{RunScope, Texts}

abbrev pub includes : String → List String → Bool
includes a xs = any (λ x. str_eq x a) xs

-- `[...new Set(values)]`, which keeps the first of equal values.
unfoldable pub unique : List String → List String → List String
unique seen [] = []
unique seen (x ∷ xs) =
    let rest = unique (x ∷ seen) xs in
    let again = unique seen xs in if includes x seen then again else x ∷ rest

-- `.filter(Boolean)`
unfoldable pub filled : List String → List String
filled [] = []
filled (x ∷ xs) = let rest = filled xs in if str_eq x "" then rest else x ∷ rest

module _ (t : Texts) where
  unfoldable pub clean : List String → List String
  unfolding unique filled
  clean values = t.sort (filled (map t.trim (unique [] values)))

  unfoldable pub normalized_scope : RunScope → RunScope
  unfolding clean
  normalized_scope s = record {
    allowed_paths = clean s.allowed_paths;
    allowed_capabilities = clean s.allowed_capabilities;
    external_effects = clean s.external_effects;
  }

  abbrev evidence_char : ℕ → Bool
  evidence_char c =
      is_letter c
      || is_digit c
      || c == b'.'
      || c == b'_'
      || c == b'/'
      || c == b'#'
      || c == b':'
      || c == b'-'

  unfoldable pub is_reference : String → Bool
  unfolding codes
  is_reference s = within 1 200 (length (codes s)) && all evidence_char (codes s)

  -- `none` where it throws.
  unfoldable pub evidence_references : List String → Option (List String)
  unfolding unique is_reference
  evidence_references values =
      let sorted = t.sort (unique [] values) in
      if all is_reference sorted then some sorted else none

abbrev pub subset : List String → List String → Bool
subset values allowed = all (λ v. includes v allowed) values

unfoldable pub is_subset : RunScope → RunScope → Bool
is_subset child parent =
    subset child.allowed_paths parent.allowed_paths
    && subset child.allowed_capabilities parent.allowed_capabilities
    && subset child.external_effects parent.external_effects
