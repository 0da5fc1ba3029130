-- ===== src/Versioned.antt =====
-- src/project-store/project-store.ts, `readVersionedJson`, `writeVersionedJson` and
-- `mutateVersionedJson`: the versioned states of a project, by their paths. One call holds the
-- state's lock from its read to its write, so it is one step. The files are a map from paths; the
-- size of a written state is a parameter.
use text.Mathlib.TextEquality.{eq_iff}
use ad_coder.Prelude.{
  ℕ, ◌+◌, ◌==◌, ltb, String, Bool, false, not, ◌&&◌, Option, none, some, List, if◌then◌else◌,
  lookup, insert, lookup-insert, str_eq, ◌≡◌, refl, sym, subst, inl, inr, arith, Bool-cases, ==_iff,
  ◌≢◌,
}

pub record VersionedState {ℓ} (T : Type ℓ) : Type ℓ where
  pub version : ℕ
  pub value : T

-- `byte_limit` is `byteLimits.state`, 0 where it is disabled.
pub record Files {ℓ} (T : Type ℓ) : Type ℓ where
  pub states : List (String × VersionedState T)
  pub byte_limit : ℕ

pub data StoreError : Type 0 where
  not_found version_conflict resource_limit : StoreError

pub data Stored {ℓ} (E : Type 0) (A : Type ℓ) : Type ℓ where
  ok : A → Stored E A
  store_failed : StoreError → Stored E A
  failed : E → Stored E A

infixl 5 ◌>>=◌
abbrev pub ◌>>=◌ {κ μ} :
    {E : Type 0} {A : Type κ} {B : Type μ} → Stored E A → (A → Stored E B) → Stored E B
ok a >>= f = f a
store_failed e >>= f = store_failed e
failed e >>= f = failed e

abbrev pub is_over_limit : ℕ → ℕ → Bool
is_over_limit limit bytes = ltb 0 limit && ltb limit bytes

abbrev pub conflicts : Option ℕ → ℕ → Bool
conflicts none current = false
conflicts (some expected) current = not (expected == current)

module _ {ℓ} {T : Type ℓ} where
  abbrev pub version_of : Option (VersionedState T) → ℕ
  version_of none = 0
  version_of (some v) = v.version

  abbrev pub put_state : String → VersionedState T → Files T → Files T
  unfolding insert
  put_state path v s = record s { states = insert path v s.states }

module _ {ℓ} {T : Type ℓ} {E : Type 0} where
  unfoldable pub read_versioned_json : String → Files T → Stored E (VersionedState T)
  unfolding lookup
  read_versioned_json path s = elim (lookup path s.states) [
    | none ↦ store_failed not_found
    | some v ↦ ok v
  ]

  module _ (bytes_of : VersionedState T → ℕ) where
    -- The atomic write of the next version, under the limit of the store.
    unfoldable pub write_next : String → VersionedState T → Files T → Stored E (Files T)
    unfolding put_state
    write_next path v s =
        if is_over_limit s.byte_limit (bytes_of v)
        then store_failed resource_limit
        else ok (put_state path v s)

    unfoldable pub write_versioned_json : String → T → Option ℕ → Files T → Stored E (Files T)
    unfolding lookup write_next
    write_versioned_json path value expected s =
        let current = version_of (lookup path s.states) in
        if conflicts expected current
        then store_failed version_conflict
        else write_next path (record { version = current + 1; value = value }) s

    unfoldable pub mutate_versioned_json :
        String → (Option (VersionedState T) → Stored E T) → Files T → Stored E (Files T)
    unfolding lookup write_next
    mutate_versioned_json path mutate s = do
      value ← mutate (lookup path s.states)
      write_next path (record { version = version_of (lookup path s.states) + 1; value = value }) s

-- A chain that succeeds did so at each link.
pub bind-ok {κ μ} :
    {E : Type 0} {A : Type κ} {B : Type μ} (m : Stored E A) (f : A → Stored E B) (b : B)
    → (m >>= f) ≡ ok b
    → (a : A) × (m ≡ ok a) × (f a ≡ ok b)
bind-ok (ok a) f b h = (a, refl, h)
bind-ok (store_failed e) f b h = cc
bind-ok (failed e) f b h = cc

-- What holds of a result, if there is one.
abbrev pub WhenOk {κ μ} : {E : Type 0} {A : Type κ} → (A → Type μ) → Stored E A → Type μ
WhenOk P (ok a) = P a
WhenOk P (store_failed e) = Unit
WhenOk P (failed e) = Unit

pub WhenOk-intro {κ μ} :
    {E : Type 0} {A : Type κ} (P : A → Type μ) (m : Stored E A)
    → ((a : A) → m ≡ ok a → P a)
    → WhenOk P m
WhenOk-intro P (ok a) f = f a refl
WhenOk-intro P (store_failed e) f = tt
WhenOk-intro P (failed e) f = tt

pub WhenOk-bind {κ μ ν} :
    {E : Type 0} {A : Type κ} {B : Type μ} (P : B → Type ν) (m : Stored E A) (f : A → Stored E B)
    → WhenOk (λ a. WhenOk P (f a)) m
    → WhenOk P (m >>= f)
WhenOk-bind P (ok a) f h = h
WhenOk-bind P (store_failed e) f h = tt
WhenOk-bind P (failed e) f h = tt

no_conflict {ℓ} :
    {E : Type 0} {A : Type ℓ} {a : A} {e : StoreError}
    → ◌≡◌ {A = Stored E A} (store_failed e) (ok a)
    → ⊥
no_conflict h = cc

module _ {ℓ} {T : Type ℓ} {E : Type 0} (bytes_of : VersionedState T → ℕ) where
  pub write_next-ok :
      (path : String) (v : VersionedState T) (s t : Files T)
      → write_next {E = E} bytes_of path v s ≡ ok t
      → put_state path v s ≡ t
  unfolding write_next
  write_next-ok path v s t h = ground arith

  pub write_versioned_json-ok :
      (path : String) (value : T) (n : ℕ) (s t : Files T)
      → write_versioned_json {E = E} bytes_of path value (some n) s ≡ ok t
      → (version_of (lookup path s.states) ≡ n)
        × (put_state path (record { version = n + 1; value = value }) s ≡ t)
  unfolding write_versioned_json
  write_versioned_json-ok path value n s t h =
      let current = version_of (lookup path s.states) in
      elim (Bool-cases (n == current)) [
        | inr other ↦ absurd (no_conflict (rw other at h))
        | inl same ↦
            let e = (==_iff n current).0 same in
            (
              sym e,
              subst (λ x. put_state path (record { version = x + 1; value = value }) s ≡ t) (sym e)
                  (write_next-ok path _ s t (rw same at h)),
            )
      ]

  pub write_versioned_json-conflict :
      (path : String) (value : T) (n : ℕ) (s : Files T)
      → version_of (lookup path s.states) ≢ n
      → write_versioned_json {E = E} bytes_of path value (some n) s ≡ store_failed version_conflict
  unfolding write_versioned_json
  write_versioned_json-conflict path value n s h =
      let current = version_of (lookup path s.states) in
      elim (Bool-cases (n == current)) [
        | inl same ↦ absurd (h (sym ((==_iff n current).0 same)))
        | inr other ↦ rw other refl
      ]

  pub mutate_versioned_json-ok :
      (path : String) (change : Option (VersionedState T) → Stored E T) (s t : Files T)
      → mutate_versioned_json bytes_of path change s ≡ ok t
      → (value : T) × (change (lookup path s.states) ≡ ok value)
        × (put_state path
              (record { version = version_of (lookup path s.states) + 1; value = value })
              s
            ≡ t)
  unfolding mutate_versioned_json
  mutate_versioned_json-ok path change s t h =
      let (value, e, w) = bind-ok (change (lookup path s.states)) _ t h in
      (value, e, write_next-ok path _ s t w)

pub lookup-put_state {ℓ} :
    {T : Type ℓ} (path other : String) (v : VersionedState T) (s : Files T)
    → lookup other (put_state path v s).states
      ≡ (if str_eq path other then some v else lookup other s.states)
unfolding put_state insert
lookup-put_state path other v s = lookup-insert path other v s.states

-- What a write relates: a path's own state before to the written one, and each other to itself.
pub put_rule {ℓ κ} :
    {T : Type ℓ} (P : Option (VersionedState T) → Option (VersionedState T) → Type κ)
    (path other : String) (v : VersionedState T) (s : Files T)
    → ((o : Option (VersionedState T)) → P o o)
    → P (lookup path s.states) (some v)
    → P (lookup other s.states) (lookup other (put_state path v s).states)
unfolding put_state insert
put_rule P path other v s same h =
    let e = lookup-insert path other v s.states in
    elim (Bool-cases (str_eq path other)) [
      | inl b ↦
          let h2 = subst (λ x. P (lookup x s.states) (some v)) ((eq_iff path other).0 b) h in
          subst (P (lookup other s.states)) (sym (rw b at e)) h2
      | inr b ↦ subst (P (lookup other s.states)) (sym (rw b at e)) (same (lookup other s.states))
    ]
