-- ===== src/Prelude/Dict.antt =====
-- A JavaScript `Map` with text keys: pairs in insertion order, a key that is set again keeping its
-- place.
use Prim.Native.String.{String}
use mathlib.Core.Path.{◌≡◌, refl, subst}
use mathlib.Core.Logic.{inl, inr}
use mathlib.Core.List.{List, [], ◌∷◌, ◌++◌}
use mathlib.Core.Option.{Option, none, some, some-injective}
use native.Mathlib.Omega.{arith}
pub use text.Mathlib.Text.{◌==◌ as str_eq}
use text.Mathlib.TextEquality.{eq_iff}
use ad_coder.Prelude.Tests.{if◌then◌else◌, Bool-cases}
use ad_coder.Prelude.Lists.{All}

module _ {ℓ} {V : Type ℓ} where
  unfoldable pub lookup : String → List (String × V) → Option V
  lookup k [] = none
  lookup k ((j, v) ∷ table) = if str_eq j k then some v else lookup k table

  unfoldable pub insert : String → V → List (String × V) → List (String × V)
  insert k v [] = (k, v) ∷ []
  insert k v ((j, old) ∷ table) = if str_eq j k then (j, v) ∷ table else (j, old) ∷ insert k v table

  pub lookup-insert :
      (k j : String) (v : V) (table : List (String × V))
      → lookup j (insert k v table) ≡ (if str_eq k j then some v else lookup j table)
  unfolding lookup insert
  lookup-insert k j v [] = refl
  lookup-insert k j v ((i, old) ∷ table) =
      ground (arith, eq_iff k j, eq_iff i k, eq_iff i j, lookup-insert k j v table)

  pub All-insert {κ} :
      (P : V → Type κ) (k : String) (v : V) (table : List (String × V))
      → P v
      → All (λ e. P e.1) table
      → All (λ e. P e.1) (insert k v table)
  unfolding insert
  All-insert P k v [] p h = (p, tt)
  All-insert P k v ((j, old) ∷ table) p h = elim (Bool-cases (str_eq j k)) [
    | inl same ↦ rw same (p, h.1)
    | inr other ↦ rw other (h.0, All-insert P k v table p h.1)
  ]

  pub All-lookup {κ} :
      (P : V → Type κ) (k : String) (table : List (String × V)) {v : V}
      → All (λ e. P e.1) table
      → lookup k table ≡ some v
      → P v
  unfolding lookup
  All-lookup P k [] h e = cc
  All-lookup P k ((j, old) ∷ table) {v = v} h e = elim (Bool-cases (str_eq j k)) [
    | inl same ↦ let e' : some old ≡ some v = rw same at e in subst P (some-injective _ _ e') h.0
    | inr other ↦ All-lookup P k table h.1 (rw other at e)
  ]

  -- No key stands twice.
  abbrev pub Distinct : List (String × V) → Type ℓ
  Distinct [] = Unit
  Distinct ((k, v) ∷ table) = (lookup k table ≡ none) × Distinct table

  pub insert-Distinct :
      (k : String) (v : V) (table : List (String × V))
      → Distinct table
      → Distinct (insert k v table)
  unfolding lookup insert
  insert-Distinct k v [] d = (refl, tt)
  insert-Distinct k v ((j, old) ∷ table) d = elim (Bool-cases (str_eq j k)) [
    | inl same ↦ rw same d
    | inr other ↦ rw other (
      ground (arith, lookup-insert k j v table, eq_iff k j, eq_iff j k, d.0),
      insert-Distinct k v table d.1,
    )
  ]

  pub insert_fresh :
      (k : String) (v : V) (table : List (String × V))
      → lookup k table ≡ none
      → insert k v table ≡ table ++ ((k, v) ∷ [])
  unfolding lookup insert
  insert_fresh k v [] h = refl
  insert_fresh k v ((j, old) ∷ table) h = ground (arith, insert_fresh k v table)

  -- The keys of the rows are not in the map.
  abbrev pub Apart {κ} : {W : Type κ} → List (String × W) → List (String × V) → Type ℓ
  Apart rows table = All (λ e. lookup e.0 table ≡ none) rows

module _ {ℓ κ} {V : Type ℓ} {W : Type κ} where
  pub Apart-insert :
      (k : String) (v : V) (table : List (String × V)) (rows : List (String × W))
      → lookup k rows ≡ none
      → Apart rows table
      → Apart rows (insert k v table)
  unfolding lookup
  Apart-insert k v table [] h a = tt
  Apart-insert k v table ((j, old) ∷ rows) h a = elim (Bool-cases (str_eq j k)) [
    | inl same ↦ let e : some old ≡ none = rw same at h in absurd (ground (arith, e))
    | inr other ↦ (
      ground (arith, lookup-insert k j v table, eq_iff k j, eq_iff j k, a.0),
      Apart-insert k v table rows (rw other at h) a.1,
    )
  ]
