-- ===== src/Admission/Counts.antt =====
-- The tokens of a scope, counted one by one, apart from the counter that the scope keeps.
use text.Mathlib.TextEquality.{eq_iff}
use ad_coder.Prelude.{
  ℕ, zero, suc, ◌+◌, ◌≤◌, ◌<◌, ◌==◌, ==_iff, ◌≡◌, refl, sym, ap, inl, inr, String, Bool, true,
  false, not, ◌&&◌, Option, none, some, List, [], ◌∷◌, if◌then◌else◌, Bool-cases, arith, str_eq,
  lookup, insert, Distinct,
}
use ad_coder.Admission.{Token, TokenState, Tokens, put, ScopeRuntime}

abbrev pub one : Bool → ℕ
one b = if b then 1 else 0

-- How many of the first `n` tokens pass a test.
unfoldable pub count : (Token → Bool) → Tokens → ℕ → ℕ
count f ts zero = 0
count f ts (suc n) = one (f (ts n)) + count f ts n

abbrev pub is_granted : TokenState → Bool
is_granted TokenState.admitted = true
is_granted TokenState.uncertain = true
is_granted _ = false

-- The call was let through for the scope.
abbrev pub granted : String → Token → Bool
granted key t = is_granted t.state && str_eq t.scope_key key

-- The permit was given back to the scope.
abbrev pub given_back : String → Token → Bool
given_back key t = t.is_settled && str_eq t.scope_key key

-- The call was let through, and its permit is not back.
abbrev pub in_service : String → Token → Bool
in_service key t = granted key t && not t.is_settled

-- A permit was given back for a call that was not let through.
abbrev pub gratis : String → Token → Bool
gratis key t = given_back key t && not (is_granted t.state)

module _ (f : Token → Bool) where
  pub count_below :
      (ts us : Tokens) (n : ℕ)
      → ((j : ℕ) → j < n → f (us j) ≡ f (ts j))
      → count f us n ≡ count f ts n
  unfolding count
  count_below ts us zero h = refl
  count_below ts us (suc n) h =
      let e = ap one (h n (omega arith)) in
      omega (arith, e, count_below ts us n (λ j p. h j (omega (arith, p))))

  pub count_zero : (ts : Tokens) (n : ℕ) → ((j : ℕ) → j < n → f (ts j) ≡ false) → count f ts n ≡ 0
  unfolding count
  count_zero ts zero h = refl
  count_zero ts (suc n) h =
      let e = ap one (h n (omega arith)) in
      omega (arith, e, count_zero ts n (λ j p. h j (omega (arith, p))))

  apart : (i j : ℕ) → j < i → (j == i) ≡ false
  apart i j h = ground (arith, ==_iff j i)

  count-put_above :
      (i : ℕ) (t : Token) (ts : Tokens) (n : ℕ) → n ≤ i → count f (put i t ts) n ≡ count f ts n
  count-put_above i t ts n h =
      count_below ts (put i t ts) n (λ j p. rw (apart i j (omega (arith, h, p))) refl)

  -- A new token at the end.
  pub count-put_new :
      (t : Token) (ts : Tokens) (n : ℕ) → f t ≡ false → count f (put n t ts) (suc n) ≡ count f ts n
  unfolding count
  count-put_new t ts n h =
      let e : one (f (put n t ts n)) ≡ 0 = rw ((==_iff n n).1 refl, h) refl in
      omega (arith, e, count-put_above n t ts n (omega arith))

  -- A token that is written over adds at most one.
  pub count-put_le :
      (i : ℕ) (t : Token) (ts : Tokens) (n : ℕ) → count f (put i t ts) n ≤ count f ts n + one (f t)
  unfolding count
  count-put_le i t ts zero = omega arith
  count-put_le i t ts (suc n) = elim (Bool-cases (n == i)) [
    | inl same ↦
        let k : n ≡ i = (==_iff n i).0 same in
        let e = count-put_above i t ts n (omega (arith, k)) in rw same (omega (arith, e))
    | inr other ↦ rw other (omega (arith, count-put_le i t ts n))
  ]

  -- A token that passes the test from now on adds one.
  pub count-put_more :
      (i : ℕ) (t : Token) (ts : Tokens) (n : ℕ)
      → i < n
      → f (ts i) ≡ false
      → count f (put i t ts) n ≡ count f ts n + one (f t)
  unfolding count
  count-put_more i t ts zero h e = absurd (omega (arith, h))
  count-put_more i t ts (suc n) h e = elim (Bool-cases (n == i)) [
    | inl same ↦
        let k : n ≡ i = (==_iff n i).0 same in
        let a = count-put_above i t ts n (omega (arith, k)) in
        let b : one (f (ts n)) ≡ 0 = rw (k, e) refl in rw same (omega (arith, a, b))
    | inr other ↦
        let k : i < n = ground (arith, ==_iff n i, other, h) in
        rw other (omega (arith, count-put_more i t ts n k e))
  ]

  -- A token that is written over with one of the same answer changes nothing.
  pub count-put_same :
      (i : ℕ) (t : Token) (ts : Tokens) (n : ℕ)
      → f t ≡ f (ts i)
      → count f (put i t ts) n ≡ count f ts n
  count-put_same i t ts n h = count_below ts (put i t ts) n (λ j p. elim (Bool-cases (j == i)) [
    | inl same ↦ rw (same, (==_iff j i).0 same) h
    | inr other ↦ rw other refl
  ])

balanced :
    (key : String) (t : Token)
    → one (in_service key t) + one (given_back key t) ≡ one (granted key t) + one (gratis key t)
balanced key t = ground arith

-- The calls in service and the permits given back are the calls let through and the permits given
-- back for none.
pub counts_balance :
    (key : String) (ts : Tokens) (n : ℕ)
    → count (in_service key) ts n + count (given_back key) ts n
      ≡ count (granted key) ts n + count (gratis key) ts n
unfolding count
counts_balance key ts zero = refl
counts_balance key ts (suc n) = omega (arith, balanced key (ts n), counts_balance key ts n)

-- The counters of a scope, in a map where a key might stand twice.
abbrev pub times : String → String → ℕ → ℕ
times k key n = if str_eq k key then n else 0

unfoldable pub held : String → List (String × ScopeRuntime) → ℕ
held key [] = 0
held key ((k, s) ∷ m) = times k key s.concurrent + held key m

abbrev pub held_by : Option ScopeRuntime → ℕ
held_by none = 0
held_by (some s) = s.concurrent

pub held-insert :
    (key k : String) (s : ScopeRuntime) (m : List (String × ScopeRuntime))
    → held key (insert k s m) + times k key (held_by (lookup k m))
      ≡ held key m + times k key s.concurrent
unfolding held insert lookup
held-insert key k s [] = ground arith
held-insert key k s ((j, t) ∷ m) = elim (Bool-cases (str_eq j k)) [
  | inl same ↦ rw (same, sym ((eq_iff j k).0 same)) (omega arith)
  | inr other ↦ rw other (omega (arith, held-insert key k s m))
]

held_none : (key : String) (m : List (String × ScopeRuntime)) → lookup key m ≡ none → held key m ≡ 0
unfolding held lookup
held_none key [] h = refl
held_none key ((k, s) ∷ m) h = elim (Bool-cases (str_eq k key)) [
  | inl same ↦ let e : some s ≡ none = rw same at h in absurd (ground (arith, e))
  | inr other ↦ rw other (omega (arith, held_none key m (rw other at h)))
]

-- Where no key stands twice, that is the counter of the one scope.
pub held-lookup :
    (key : String) (m : List (String × ScopeRuntime))
    → Distinct m
    → held key m ≡ held_by (lookup key m)
unfolding held lookup
held-lookup key [] d = refl
held-lookup key ((k, s) ∷ m) d = elim (Bool-cases (str_eq k key)) [
  | inl same ↦
      let e : lookup key m ≡ none = rw ((eq_iff k key).0 same) at d.0 in
      rw same (omega (arith, held_none key m e))
  | inr other ↦ rw other (omega (arith, held-lookup key m d.1))
]
