-- ===== src/Admission/Reserve/Pump.antt =====
-- What the loop of `pump` does to one scope.
use mathlib.Core.Option.{some-injective}
use ad_coder.Prelude.{
  ℕ, zero, suc, ◌+◌, ◌≤◌, ◌≡◌, refl, ap, ◌∙◌, ◌⊎◌, inl, inr, true, false, none, some, List, [], ◌∷◌,
  arith, length, length-append, Bool-cases, Option-cases, String, str_eq, lookup, All, ◌==◌, ==_iff,
}
use ad_coder.Admission.{Config, Token, Tokens, put, QueueEntry, ScopeRuntime}
use ad_coder.Admission.Scheduler.{
  can_grant, dequeue_candidate, grant_token, grant_scope, pump_scope,
}
use ad_coder.Admission.Reserve.{pump_scopes}
use ad_coder.Admission.Scheduler.Order.{Served, dequeue_candidate-Serves}

module _ (c : Config) (now : ℕ) where
  pub dequeue_candidate-Served :
      (ts : Tokens) (q : List QueueEntry) (e : QueueEntry) (rest : List QueueEntry)
      → dequeue_candidate c now ts q ≡ some (e, rest)
      → Served c now ts q e rest
  dequeue_candidate-Served ts q e rest h = rw h at (dequeue_candidate-Serves c now ts q)

  pub length-dequeue_candidate :
      (ts : Tokens) (q : List QueueEntry) (e : QueueEntry) (rest : List QueueEntry)
      → dequeue_candidate c now ts q ≡ some (e, rest)
      → length q ≡ suc (length rest)
  length-dequeue_candidate ts q e rest h =
      let s = dequeue_candidate-Served ts q e rest h in
      omega (
        arith,
        ap length s.split,
        ap length s.left,
        length-append s.pre (e ∷ s.post),
        length-append s.pre s.post,
      )

  -- A predicate of a scope and its tokens that each grant keeps.
  pub pump_scope_rule {ℓ} :
      (P : ScopeRuntime → Tokens → Type ℓ)
      → ((s : ScopeRuntime) (ts : Tokens) (e : QueueEntry) (rest : List QueueEntry)
          → can_grant c now s ≡ true
          → dequeue_candidate c now ts s.queue ≡ some (e, rest)
          → P s ts
          → P
              (grant_scope e.token (record s { queue = rest }))
              (put e.token (grant_token (ts e.token)) ts))
      → (fuel : ℕ) (s : ScopeRuntime) (ts : Tokens) → P s ts
      → let r = pump_scope c now fuel s ts in P r.0 r.1
  unfolding pump_scope
  pump_scope_rule P keep zero s ts p = p
  pump_scope_rule P keep (suc fuel) s ts p = elim (Bool-cases (can_grant c now s)) [
    | inr no_room ↦ rw (no_room, pump_scope) p
    | inl room ↦ elim (Option-cases (dequeue_candidate c now ts s.queue)) [
      | inl h ↦ rw (room, h, pump_scope) p
      | inr ((e, rest), h) ↦
          rw (room, h, pump_scope) (pump_scope_rule P keep fuel _ _ (keep s ts e rest room h p))
    ]
  ]

  -- Where the loop stops, the scope has no room or no entry that may run.
  pub pump_scope_done :
      (fuel : ℕ) (s : ScopeRuntime) (ts : Tokens)
      → length s.queue ≤ fuel
      → let r = pump_scope c now fuel s ts in
        (can_grant c now r.0 ≡ false) ⊎ (dequeue_candidate c now r.1 r.0.queue ≡ none)
  unfolding pump_scope grant_scope
  pump_scope_done zero s ts h = inr (elim (Option-cases (dequeue_candidate c now ts s.queue)) [
    | inl e ↦ e
    | inr ((x, rest), e) ↦ absurd (omega (arith, length-dequeue_candidate ts s.queue x rest e))
  ])
  pump_scope_done (suc fuel) s ts h = elim (Bool-cases (can_grant c now s)) [
    | inr no_room ↦ rw (no_room, pump_scope) (inl no_room)
    | inl room ↦ elim (Option-cases (dequeue_candidate c now ts s.queue)) [
      | inl e ↦ rw (room, e, pump_scope) (inr e)
      | inr ((x, rest), e) ↦
          rw (room, e, pump_scope)
            (pump_scope_done fuel _ _ (omega (arith, length-dequeue_candidate ts s.queue x rest e)))
    ]
  ]

  -- What pumping changes of a scope and what it keeps.
  pub record Pumped (s t : ScopeRuntime) : Type 0 where
    pub conserved : t.concurrent + length t.queue ≡ s.concurrent + length s.queue
    pub grown : s.concurrent ≤ t.concurrent
    pub capped : (s.concurrent ≡ t.concurrent) ⊎ (t.concurrent ≤ c.max_concurrent_per_scope)
    pub cooldown : t.cooldown_until ≡ s.cooldown_until

  grant_scope-Pumped :
      (o s : ScopeRuntime) (ts : Tokens) (e : QueueEntry) (rest : List QueueEntry)
      → can_grant c now s ≡ true
      → dequeue_candidate c now ts s.queue ≡ some (e, rest)
      → Pumped o s
      → Pumped o (grant_scope e.token (record s { queue = rest }))
  unfolding grant_scope can_grant
  grant_scope-Pumped o s ts e rest room h p = record {
    conserved = omega (arith, length-dequeue_candidate ts s.queue e rest h, p.conserved);
    grown = omega (arith, p.grown);
    capped = inr (ground arith);
    cooldown = p.cooldown;
  }

  pub pump_scope-Pumped :
      (fuel : ℕ) (s : ScopeRuntime) (ts : Tokens) → Pumped s (pump_scope c now fuel s ts).0
  pump_scope-Pumped fuel s ts =
      pump_scope_rule (λ t ts'. Pumped s t) (grant_scope-Pumped s) fuel s ts
        (record { conserved = refl; grown = omega arith; capped = inl refl; cooldown = refl })

  -- A scope with no room, or in its cooldown, is left as it is, and so are the tokens.
  pub pump_scope_closed :
      (fuel : ℕ) (s : ScopeRuntime) (ts : Tokens)
      → can_grant c now s ≡ false
      → pump_scope c now fuel s ts ≡ (s, ts)
  unfolding pump_scope
  pump_scope_closed zero s ts h = refl
  pump_scope_closed (suc fuel) s ts h = rw (h, pump_scope)

  -- A grant changes none of these flags of a token.
  pub record SameFlags (a b : Token) : Type 0 where
    pub unowned : b.unowned ≡ a.unowned
    pub released : b.released ≡ a.released
    pub is_settled : b.is_settled ≡ a.is_settled
    pub scope_key : b.scope_key ≡ a.scope_key

  grant_token-SameFlags : (a b : Token) → SameFlags a b → SameFlags a (grant_token b)
  unfolding grant_token
  grant_token-SameFlags a b f = record {
    unowned = f.unowned;
    released = f.released;
    is_settled = f.is_settled;
    scope_key = f.scope_key;
  }

  put-SameFlags :
      (ts us : Tokens) (i j : ℕ)
      → SameFlags (ts i) (us i)
      → SameFlags (ts j) (us j)
      → SameFlags (ts j) (put i (grant_token (us i)) us j)
  put-SameFlags ts us i j f g = elim (Bool-cases (j == i)) [
    | inl same ↦ rw (same, (==_iff j i).0 same) (grant_token-SameFlags (ts i) (us i) f)
    | inr other ↦ rw other g
  ]

  pub pump_scope-SameFlags :
      (fuel : ℕ) (s : ScopeRuntime) (ts : Tokens) (j : ℕ)
      → SameFlags (ts j) ((pump_scope c now fuel s ts).1 j)
  pump_scope-SameFlags fuel s ts j =
      pump_scope_rule (λ t us. (k : ℕ) → SameFlags (ts k) (us k))
        (λ t us e rest _ _ f k. put-SameFlags ts us e.token k (f e.token) (f k)) fuel s ts
        (λ k. record { unowned = refl; released = refl; is_settled = refl; scope_key = refl }) j

  SameFlags-trans : (x y z : Token) → SameFlags x y → SameFlags y z → SameFlags x z
  SameFlags-trans x y z f g = record {
    unowned = g.unowned ∙ f.unowned;
    released = g.released ∙ f.released;
    is_settled = g.is_settled ∙ f.is_settled;
    scope_key = g.scope_key ∙ f.scope_key;
  }

  pub pump_scopes-SameFlags :
      (m : List (String × ScopeRuntime)) (ts : Tokens) (j : ℕ)
      → SameFlags (ts j) ((pump_scopes c now m ts).1 j)
  unfolding pump_scopes
  pump_scopes-SameFlags [] ts j = record {
    unowned = refl;
    released = refl;
    is_settled = refl;
    scope_key = refl;
  }
  pump_scopes-SameFlags ((k, s) ∷ m) ts j =
      SameFlags-trans _ _ _ (pump_scope-SameFlags (length s.queue) s ts j)
        (pump_scopes-SameFlags m (pump_scope c now (length s.queue) s ts).1 j)

  -- A scope of the map is pumped by itself, over the tokens that the scopes before it leave.
  pub lookup-pump_scopes :
      (k : String) (m : List (String × ScopeRuntime)) (ts : Tokens) (s : ScopeRuntime)
      → lookup k m ≡ some s
      → (us : Tokens) × (lookup k (pump_scopes c now m ts).0
          ≡ some (pump_scope c now (length s.queue) s us).0)
        × ((j : ℕ) → SameFlags (ts j) (us j))
  unfolding pump_scopes lookup
  lookup-pump_scopes k [] ts s h = cc
  lookup-pump_scopes k ((j, t) ∷ m) ts s h = elim (Bool-cases (str_eq j k)) [
    | inl same ↦
        let e : t ≡ s = some-injective t s (rw same at h) in
        (
          ts,
          rw same (ap (λ (o : ScopeRuntime). some (pump_scope c now (length o.queue) o ts).0) e),
          λ i. record { unowned = refl; released = refl; is_settled = refl; scope_key = refl },
        )
    | inr other ↦
        let (us, e, f) =
          lookup-pump_scopes k m (pump_scope c now (length t.queue) t ts).1 s (rw other at h) in
        (
          us,
          rw other e,
          λ i. SameFlags-trans _ _ _ (pump_scope-SameFlags (length t.queue) t ts i) (f i),
        )
  ]

  pub pump_scopes-All {ℓ} :
      (P : ScopeRuntime → Type ℓ)
      → ((s t : ScopeRuntime) → Pumped s t → P s → P t)
      → (m : List (String × ScopeRuntime)) (ts : Tokens) → All (λ e. P e.1) m
      → All (λ e. P e.1) (pump_scopes c now m ts).0
  unfolding pump_scopes
  pump_scopes-All P f [] ts h = tt
  pump_scopes-All P f ((k, s) ∷ m) ts h =
      (f s _ (pump_scope-Pumped (length s.queue) s ts) h.0, pump_scopes-All P f m _ h.1)
