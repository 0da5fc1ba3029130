-- ===== src/Admission/Tally.antt =====
-- The counter of each scope covers the calls that it has let through and not got back: what each kind of
-- write to the scopes and the tokens keeps of that.
pub mod Pumping
pub mod Reserving
pub mod Releasing
use text.Mathlib.TextEquality.{eq_iff}
use ad_coder.Prelude.{
  ℕ, zero, suc, ◌+◌, ◌≤◌, ◌<◌, ◌==◌, ==_iff, ◌≡◌, refl, sym, ap, ◌∙◌, inl, inr, String, Bool, true,
  false, not, ◌||◌, ◌&&◌, none, some, List, [], ◌∷◌, if◌then◌else◌, Bool-cases, arith, str_eq,
  lookup, insert, Distinct, insert-Distinct, All, All-impl, subst,
}
use ad_coder.Admission.{Token, Tokens, put, QueueEntry, ScopeRuntime}
use ad_coder.Admission.Scheduler.{grant_token}
use ad_coder.Admission.Counts.{
  one, count, is_granted, granted, given_back, count_below, count-put_new, count-put_le,
  count-put_more, count-put_same, times, held, held_by, held-insert,
}

-- A queued call has a token of the scope.
abbrev pub IsMine : Tokens → ℕ → String → QueueEntry → Type 0
IsMine ts n key e = (e.token < n) × ((ts e.token).scope_key ≡ key)

abbrev pub AllMine : Tokens → ℕ → List (String × ScopeRuntime) → Type 0
AllMine ts n m = All (λ e. All (IsMine ts n e.0) e.1.queue) m

abbrev pub SameKeys : Tokens → Tokens → ℕ → Type 0
SameKeys ts us n = (j : ℕ) → j < n → (us j).scope_key ≡ (ts j).scope_key

-- A token that is settled was let through.
abbrev pub IsEarned : Token → Type 0
IsEarned t = (not t.is_settled || is_granted t.state) ≡ true

put-IsEarned :
    (i : ℕ) (t : Token) (ts : Tokens) (n : ℕ)
    → IsEarned t
    → ((j : ℕ) → j < n → IsEarned (ts j))
    → (j : ℕ) → j < n
    → IsEarned (put i t ts j)
put-IsEarned i t ts n e h j lt = elim (Bool-cases (j == i)) [
  | inl same ↦ rw same e
  | inr other ↦ rw other (h j lt)
]

pub record IsCovered (m : List (String × ScopeRuntime)) (ts : Tokens) (n : ℕ) : Type 0 where
  pub distinct : Distinct m
  pub mine : AllMine ts n m
  pub earned : (j : ℕ) → j < n → IsEarned (ts j)
  pub covered : (key : String) → count (granted key) ts n ≤ held key m + count (given_back key) ts n

pub queue-IsMine :
    (ts us : Tokens) (n k : ℕ) (key : String) (q : List QueueEntry)
    → n ≤ k
    → SameKeys ts us n
    → All (IsMine ts n key) q
    → All (IsMine us k key) q
queue-IsMine ts us n k key q le same h =
    All-impl (IsMine ts n key) (IsMine us k key)
      (λ e p. (omega (arith, le, p.0), same e.token p.0 ∙ p.1)) q h

pub moved-AllMine :
    (ts us : Tokens) (n k : ℕ) (m : List (String × ScopeRuntime))
    → n ≤ k
    → SameKeys ts us n
    → AllMine ts n m
    → AllMine us k m
moved-AllMine ts us n k m le same h =
    All-impl (λ e. All (IsMine ts n e.0) e.1.queue) (λ e. All (IsMine us k e.0) e.1.queue)
      (λ e p. queue-IsMine ts us n k e.0 e.1.queue le same p) m h

insert-AllMine :
    (ts : Tokens) (n : ℕ) (key : String) (s : ScopeRuntime) (m : List (String × ScopeRuntime))
    → All (IsMine ts n key) s.queue
    → AllMine ts n m
    → AllMine ts n (insert key s m)
unfolding insert
insert-AllMine ts n key s [] p h = (p, tt)
insert-AllMine ts n key s ((j, old) ∷ m) p h = elim (Bool-cases (str_eq j key)) [
  | inl same ↦
      rw same (subst (λ k. All (IsMine ts n k) s.queue) (sym ((eq_iff j key).0 same)) p, h.1)
  | inr other ↦ rw other (h.0, insert-AllMine ts n key s m p h.1)
]

pub lookup-AllMine :
    (ts : Tokens) (n : ℕ) (key : String) (m : List (String × ScopeRuntime)) (s : ScopeRuntime)
    → AllMine ts n m
    → lookup key m ≡ some s
    → All (IsMine ts n key) s.queue
unfolding lookup
lookup-AllMine ts n key [] s h e = cc
lookup-AllMine ts n key ((j, old) ∷ m) s h e = elim (Bool-cases (str_eq j key)) [
  | inl same ↦
      let a : some old ≡ some s = rw same at e in
      let b : old ≡ s = ground (arith, a) in
      subst (λ (x : ScopeRuntime). All (IsMine ts n key) x.queue) b
        (subst (λ k. All (IsMine ts n k) old.queue) ((eq_iff j key).0 same) h.0)
  | inr other ↦ lookup-AllMine ts n key m s h.1 (rw other at e)
]

put-SameKeys :
    (i : ℕ) (t : Token) (ts : Tokens) (n : ℕ)
    → t.scope_key ≡ (ts i).scope_key
    → SameKeys ts (put i t ts) n
put-SameKeys i t ts n e j h = elim (Bool-cases (j == i)) [
  | inl same ↦ rw (same, (==_iff j i).0 same) e
  | inr other ↦ rw other refl
]

-- A write of a scope that does not count less.
pub insert-IsCovered :
    (key : String) (s : ScopeRuntime) (m : List (String × ScopeRuntime)) (ts : Tokens) (n : ℕ)
    → held_by (lookup key m) ≤ s.concurrent
    → All (IsMine ts n key) s.queue
    → IsCovered m ts n
    → IsCovered (insert key s m) ts n
insert-IsCovered key s m ts n le q i = record {
  distinct = insert-Distinct key s m i.distinct;
  mine = insert-AllMine ts n key s m q i.mine;
  earned = i.earned;
  covered = λ k. ground (arith, i.covered k, held-insert k key s m, le);
}

-- A write of a token that changes neither its scope nor whether it is granted or settled.
pub put-IsCovered :
    (i : ℕ) (t : Token) (m : List (String × ScopeRuntime)) (ts : Tokens) (n : ℕ)
    → t.scope_key ≡ (ts i).scope_key
    → is_granted t.state ≡ is_granted (ts i).state
    → t.is_settled ≡ (ts i).is_settled
    → IsEarned t
    → IsCovered m ts n
    → IsCovered m (put i t ts) n
put-IsCovered i t m ts n e g s own c = record {
  distinct = c.distinct;
  mine = moved-AllMine ts (put i t ts) n n m (omega arith) (put-SameKeys i t ts n e) c.mine;
  earned = λ j lt. put-IsEarned i t ts n own c.earned j lt;
  covered = λ k.
      let a = count-put_same (granted k) i t ts n (rw (e, g) refl) in
      let b = count-put_same (given_back k) i t ts n (rw (e, s) refl) in
      omega (arith, a, b, c.covered k);
}

-- A new token, which is neither granted nor settled.
pub new-IsCovered :
    (t : Token) (m : List (String × ScopeRuntime)) (ts : Tokens) (n : ℕ)
    → is_granted t.state ≡ false
    → t.is_settled ≡ false
    → IsCovered m ts n
    → IsCovered m (put n t ts) (suc n)
new-IsCovered t m ts n g s c = record {
  distinct = c.distinct;
  mine = moved-AllMine ts (put n t ts) n (suc n) m (omega arith) below c.mine;
  earned = later;
  covered = λ k.
      let a = count-put_new (granted k) t ts n (rw g refl) in
      let b = count-put_new (given_back k) t ts n (rw s refl) in omega (arith, a, b, c.covered k);
}
  where
    below : SameKeys ts (put n t ts) n
    below j h = let other : (j == n) ≡ false = ground (arith, ==_iff j n) in rw other refl

    -- A grant: the token is let through, and its scope counts one more.

    later : (j : ℕ) → j < suc n → IsEarned (put n t ts j)
    later j lt = elim (Bool-cases (j == n)) [
      | inl same ↦ rw (same, s) refl
      | inr other ↦ rw other (c.earned j (ground (arith, ==_iff j n, other, lt)))
    ]

pub granted-IsCovered :
    (key : String) (i : ℕ) (s : ScopeRuntime) (m : List (String × ScopeRuntime)) (ts : Tokens)
    (n : ℕ)
    → (ts i).scope_key ≡ key
    → held_by (lookup key m) + 1 ≤ s.concurrent
    → All (IsMine ts n key) s.queue
    → IsCovered m ts n
    → IsCovered (insert key s m) (put i (grant_token (ts i)) ts) n
unfolding grant_token
granted-IsCovered key i s m ts n e le q c = record {
  distinct = insert-Distinct key s m c.distinct;
  mine =
      moved-AllMine ts us n n (insert key s m) (omega arith) (put-SameKeys i _ ts n refl)
        (insert-AllMine ts n key s m q c.mine);
  earned = λ j lt. put-IsEarned i (grant_token (ts i)) ts n (ground arith) c.earned j lt;
  covered = λ k.
      let a = count-put_le (granted k) i (grant_token (ts i)) ts n in
      let b = count-put_same (given_back k) i (grant_token (ts i)) ts n refl in
      let d : one (granted k (grant_token (ts i))) ≡ times key k 1 = rw e refl in
      ground (arith, a, b, d, c.covered k, held-insert k key s m, le);
}
  where
    us : Tokens
    us = put i (grant_token (ts i)) ts

-- A permit comes back: the token is settled for the first time, and its scope counts one less.
pub settled-IsCovered :
    (i : ℕ) (t : Token) (s : ScopeRuntime) (m : List (String × ScopeRuntime)) (ts : Tokens) (n : ℕ)
    → i < n
    → (ts i).is_settled ≡ false
    → t.is_settled ≡ true
    → t.scope_key ≡ (ts i).scope_key
    → t.state ≡ (ts i).state
    → is_granted (ts i).state ≡ true
    → held_by (lookup (ts i).scope_key m) ≤ s.concurrent + 1
    → All (IsMine ts n (ts i).scope_key) s.queue
    → IsCovered m ts n
    → IsCovered (insert (ts i).scope_key s m) (put i t ts) n
settled-IsCovered i t s m ts n lt f g e u w le q c = record {
  distinct = insert-Distinct (ts i).scope_key s m c.distinct;
  mine =
      moved-AllMine ts (put i t ts) n n (insert (ts i).scope_key s m) (omega arith)
        (put-SameKeys i t ts n e) (insert-AllMine ts n (ts i).scope_key s m q c.mine);
  earned = λ j lt. put-IsEarned i t ts n (rw (u, w) (ground arith)) c.earned j lt;
  covered = λ k.
      let a = count-put_same (granted k) i t ts n (rw (e, u) refl) in
      let b = count-put_more (given_back k) i t ts n lt (rw f refl) in
      let d : one (given_back k t) ≡ times (ts i).scope_key k 1 = rw (g, e) refl in
      ground (arith, a, b, d, c.covered k, held-insert k (ts i).scope_key s m, le);
}

-- The same where the token has no scope in the map.
pub stray-IsCovered :
    (i : ℕ) (t : Token) (m : List (String × ScopeRuntime)) (ts : Tokens) (n : ℕ)
    → i < n
    → (ts i).is_settled ≡ false
    → t.scope_key ≡ (ts i).scope_key
    → t.state ≡ (ts i).state
    → is_granted (ts i).state ≡ true
    → IsCovered m ts n
    → IsCovered m (put i t ts) n
stray-IsCovered i t m ts n lt f e u w c = record {
  distinct = c.distinct;
  mine = moved-AllMine ts (put i t ts) n n m (omega arith) (put-SameKeys i t ts n e) c.mine;
  earned = λ j lt. put-IsEarned i t ts n (rw (u, w) (ground arith)) c.earned j lt;
  covered = λ k.
      let a = count-put_same (granted k) i t ts n (rw (e, u) refl) in
      let b = count-put_more (given_back k) i t ts n lt (rw f refl) in
      omega (arith, a, b, c.covered k);
}
