-- ===== src/Admission/Tally/Pumping.antt =====
-- Pumping grants a waiting call of a scope only against the counter of the same scope.
use ad_coder.Prelude.{
  true, ◌==◌, ==_iff, ℕ, ◌+◌, ◌≤◌, ◌≡◌, refl, sym, ◌∙◌, inl, inr, String, none, some, List, [], ◌∷◌,
  ◌++◌, length, Bool-cases, arith, str_eq, lookup, Distinct, All, All-left, All-right, All-append,
  subst,
}
use ad_coder.Admission.{Config, Token, Tokens, put, QueueEntry, ScopeRuntime}
use ad_coder.Admission.Scheduler.{dequeue_candidate, grant_token, grant_scope, pump_scope}
use ad_coder.Admission.Scheduler.Order.{Served}
use ad_coder.Admission.Reserve.{pump_scopes}
use ad_coder.Admission.Reserve.Pump.{
  dequeue_candidate-Served, pump_scope_rule, pump_scopes-SameFlags,
}
use ad_coder.Admission.Counts.{
  is_granted, one, count, granted, given_back, count_below, count-put_le, times, held,
}
use ad_coder.Admission.Tally.{IsEarned, queue-IsMine, IsMine, AllMine, IsCovered, moved-AllMine}

module _ (c : Config) (now : ℕ) where
  -- What one scope has while it is pumped, against the tokens and the scope before.
  record IsPumped (ts : Tokens) (n : ℕ) (k : String) (s t : ScopeRuntime) (us : Tokens)
      : Type 0 where
    pub queue : All (IsMine ts n k) t.queue
    pub keys : (j : ℕ) → (us j).scope_key ≡ (ts j).scope_key
    pub counts :
        (key : String)
        → count (granted key) us n + times k key s.concurrent
          ≤ count (granted key) ts n + times k key t.concurrent

  taken :
      (ts us : Tokens) (n : ℕ) (k : String) (q rest : List QueueEntry) (e : QueueEntry)
      → dequeue_candidate c now us q ≡ some (e, rest)
      → All (IsMine ts n k) q
      → IsMine ts n k e × All (IsMine ts n k) rest
  taken ts us n k q rest e h a =
      let s : Served c now us q e rest = dequeue_candidate-Served c now us q e rest h in
      let b : All (IsMine ts n k) (s.pre ++ (e ∷ s.post)) = subst (All (IsMine ts n k)) s.split a in
      let r = All-right (IsMine ts n k) s.pre (e ∷ s.post) b in
      (
        r.0,
        subst (All (IsMine ts n k)) (sym s.left) (
            All-append (IsMine ts n k) s.pre s.post (All-left (IsMine ts n k) s.pre (e ∷ s.post) b)
              r.1),
      )

  put_keys :
      (i : ℕ) (ts us : Tokens)
      → ((j : ℕ) → (us j).scope_key ≡ (ts j).scope_key)
      → (j : ℕ) → (put i (grant_token (us i)) us j).scope_key ≡ (ts j).scope_key
  unfolding grant_token
  put_keys i ts us h j = elim (Bool-cases (j == i)) [
    | inl same ↦ rw (same, (==_iff j i).0 same) (h i)
    | inr other ↦ rw other (h j)
  ]

  grant-IsPumped :
      (ts : Tokens) (n : ℕ) (k : String) (s t : ScopeRuntime) (us : Tokens) (e : QueueEntry)
      (rest : List QueueEntry)
      → dequeue_candidate c now us t.queue ≡ some (e, rest)
      → IsPumped ts n k s t us
      → IsPumped ts n k s
          (grant_scope e.token (record t { queue = rest }))
          (put e.token (grant_token (us e.token)) us)
  unfolding grant_scope grant_token
  grant-IsPumped ts n k s t us e rest h p =
      let (mine, others) = taken ts us n k t.queue rest e h p.queue in
      record {
        queue = others;
        keys = put_keys e.token ts us p.keys;
        counts = λ key.
            let a = count-put_le (granted key) e.token (grant_token (us e.token)) us n in
            let x : (us e.token).scope_key ≡ k = p.keys e.token ∙ mine.1 in
            let d : one (granted key (grant_token (us e.token))) ≡ times k key 1 = rw x refl in
            ground (arith, a, d, p.counts key);
      }

  pump_scope-IsPumped :
      (ts : Tokens) (n : ℕ) (k : String) (s : ScopeRuntime) (fuel : ℕ)
      → All (IsMine ts n k) s.queue
      → let r = pump_scope c now fuel s ts in IsPumped ts n k s r.0 r.1
  pump_scope-IsPumped ts n k s fuel q =
      pump_scope_rule c now (IsPumped ts n k s)
        (λ t us e rest room h p. grant-IsPumped ts n k s t us e rest h p) fuel s ts
        (record { queue = q; keys = λ j. refl; counts = λ key. omega arith })

  pump_scopes_counts :
      (m : List (String × ScopeRuntime)) (ts : Tokens) (n : ℕ) (key : String)
      → AllMine ts n m
      → let r = pump_scopes c now m ts in
        count (granted key) r.1 n + held key m ≤ count (granted key) ts n + held key r.0
  unfolding pump_scopes held
  pump_scopes_counts [] ts n key h = omega arith
  pump_scopes_counts ((k, s) ∷ m) ts n key (q, h) =
      let r = pump_scope c now (length s.queue) s ts in
      let p : IsPumped ts n k s r.0 r.1 = pump_scope-IsPumped ts n k s (length s.queue) q in
      let rest =
        pump_scopes_counts m r.1 n key
          (moved-AllMine ts r.1 n n m (omega arith) (λ j lt. p.keys j) h) in
      omega (arith, p.counts key, rest)

  pump_scopes-AllMine :
      (m : List (String × ScopeRuntime)) (ts us : Tokens) (n : ℕ)
      → ((j : ℕ) → (us j).scope_key ≡ (ts j).scope_key)
      → AllMine ts n m
      → AllMine ts n (pump_scopes c now m us).0
  unfolding pump_scopes
  pump_scopes-AllMine [] ts us n e h = tt
  pump_scopes-AllMine ((k, s) ∷ m) ts us n e (q, h) =
      let r = pump_scope c now (length s.queue) s us in
      let q' : All (IsMine us n k) s.queue =
        queue-IsMine ts us n n k s.queue (omega arith) (λ j lt. e j) q in
      let p : IsPumped us n k s r.0 r.1 = pump_scope-IsPumped us n k s (length s.queue) q' in
      (
        queue-IsMine us ts n n k r.0.queue (omega arith) (λ j lt. sym (e j)) p.queue,
        pump_scopes-AllMine m ts r.1 n (λ j. p.keys j ∙ e j) h,
      )

  lookup-pump_scopes_none :
      (key : String) (m : List (String × ScopeRuntime)) (ts : Tokens)
      → lookup key m ≡ none
      → lookup key (pump_scopes c now m ts).0 ≡ none
  unfolding pump_scopes lookup
  lookup-pump_scopes_none key [] ts h = refl
  lookup-pump_scopes_none key ((k, s) ∷ m) ts h = elim (Bool-cases (str_eq k key)) [
    | inl same ↦ let e : some s ≡ none = rw same at h in absurd (ground (arith, e))
    | inr other ↦ rw other (lookup-pump_scopes_none key m _ (rw other at h))
  ]

  pump_scopes-Distinct :
      (m : List (String × ScopeRuntime)) (ts : Tokens)
      → Distinct m
      → Distinct (pump_scopes c now m ts).0
  unfolding pump_scopes
  pump_scopes-Distinct [] ts d = tt
  pump_scopes-Distinct ((k, s) ∷ m) ts d =
      (lookup-pump_scopes_none k m _ d.0, pump_scopes-Distinct m _ d.1)

  -- A call that was let through stays so.
  KeepsGrants : Tokens → Tokens → Type 0
  KeepsGrants ts us = (j : ℕ) → is_granted (ts j).state ≡ true → is_granted (us j).state ≡ true

  grant-KeepsGrants :
      (ts us : Tokens) (i : ℕ) → KeepsGrants ts us → KeepsGrants ts (put i (grant_token (us i)) us)
  unfolding KeepsGrants grant_token
  grant-KeepsGrants ts us i h j g = elim (Bool-cases (j == i)) [
    | inl same ↦ rw same refl
    | inr other ↦ rw other (h j g)
  ]

  pump_scope-KeepsGrants :
      (fuel : ℕ) (s : ScopeRuntime) (ts : Tokens) → KeepsGrants ts (pump_scope c now fuel s ts).1
  unfolding KeepsGrants
  pump_scope-KeepsGrants fuel s ts =
      pump_scope_rule c now (λ t us. KeepsGrants ts us)
        (λ t us e rest _ _ h. grant-KeepsGrants ts us e.token h) fuel s ts (λ j g. g)

  pump_scopes-KeepsGrants :
      (m : List (String × ScopeRuntime)) (ts : Tokens) → KeepsGrants ts (pump_scopes c now m ts).1
  unfolding pump_scopes KeepsGrants
  pump_scopes-KeepsGrants [] ts = λ j g. g
  pump_scopes-KeepsGrants ((k, s) ∷ m) ts = λ j g.
      pump_scopes-KeepsGrants m (pump_scope c now (length s.queue) s ts).1 j
        (pump_scope-KeepsGrants (length s.queue) s ts j g)

  kept-IsEarned :
      (t u : Token)
      → u.is_settled ≡ t.is_settled
      → (is_granted t.state ≡ true → is_granted u.state ≡ true)
      → IsEarned t
      → IsEarned u
  kept-IsEarned t u e g h = elim (Bool-cases t.is_settled) [
    | inl s ↦ let a : is_granted t.state ≡ true = rw s at h in rw (e, s, g a) refl
    | inr s ↦ rw (e, s) refl
  ]

  pub pump_scopes-IsCovered :
      (m : List (String × ScopeRuntime)) (ts : Tokens) (n : ℕ)
      → IsCovered m ts n
      → let r = pump_scopes c now m ts in IsCovered r.0 r.1 n
  unfolding KeepsGrants
  pump_scopes-IsCovered m ts n i =
      let r = pump_scopes c now m ts in
      let keys : (j : ℕ) → (r.1 j).scope_key ≡ (ts j).scope_key =
        λ j. (pump_scopes-SameFlags c now m ts j).scope_key in
      record {
        distinct = pump_scopes-Distinct m ts i.distinct;
        mine =
            moved-AllMine ts r.1 n n r.0 (omega arith) (λ j lt. keys j)
              (pump_scopes-AllMine m ts ts n (λ j. refl) i.mine);
        earned = λ j lt.
            kept-IsEarned (ts j) (r.1 j) (pump_scopes-SameFlags c now m ts j).is_settled
              (pump_scopes-KeepsGrants m ts j) (i.earned j lt);
        covered = λ key.
            let a = pump_scopes_counts m ts n key i.mine in
            let b : count (given_back key) r.1 n ≡ count (given_back key) ts n =
              count_below (given_back key) ts r.1 n
                (λ j lt. rw (keys j, (pump_scopes-SameFlags c now m ts j).is_settled) refl) in
            omega (arith, a, b, i.covered key);
      }
