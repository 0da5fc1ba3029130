-- ===== src/Admission/Tally/Reserving.antt =====
-- A call that arrives is let through, queued or refused: the counters go on covering what they serve.
use ad_coder.Prelude.{
  ℕ, ◌<◌, ==_iff, ◌≡◌, refl, ◌∙◌, inl, inr, String, Bool-cases, Option-cases, arith, length, leb,
  lookup, if_rule, All, All-append, subst,
}
use ad_coder.Admission.{Config, Priority, empty_scope, Controller}
use ad_coder.Admission.Scheduler.{can_grant, grant_scope}
use ad_coder.Admission.Reserve.{
  pump, ensure_scope, scope_of, allocate, arrive, is_empty, grant, enqueue, reserve_on, reserve,
}
use ad_coder.Admission.Persist.{persist}
use ad_coder.Admission.Reserve.Pump.{pump_scopes-SameFlags}
use ad_coder.Admission.Counts.{held_by}
use ad_coder.Admission.Tally.{
  IsMine, IsCovered, lookup-AllMine, insert-IsCovered, put-IsCovered, new-IsCovered,
  granted-IsCovered,
}
use ad_coder.Admission.Tally.Pumping.{pump_scopes-IsCovered}

-- A controller of the configuration `cfg` whose counters cover its calls.
pub record IsTallied (cfg : Config) (c : Controller) : Type 0 where
  pub same : c.config ≡ cfg
  pub covers : IsCovered c.scopes c.tokens c.next_token

module _ (cfg : Config) where
  pub pump-IsTallied : (now : ℕ) (c : Controller) → IsTallied cfg c → IsTallied cfg (pump now c)
  unfolding pump
  pump-IsTallied now c i = record {
    same = i.same;
    covers = pump_scopes-IsCovered c.config now c.scopes c.tokens c.next_token i.covers;
  }

  pub scope_of-queue :
      (key : String) (c : Controller)
      → IsTallied cfg c
      → All (IsMine c.tokens c.next_token key) (scope_of key c).queue
  scope_of-queue key c i = elim (Option-cases (lookup key c.scopes)) [
    | inl e ↦ rw (e, scope_of) tt
    | inr (s, e) ↦
        rw (e, scope_of) (lookup-AllMine c.tokens c.next_token key c.scopes s i.covers.mine e)
  ]

  pub held_by-scope_of :
      (key : String) (c : Controller) → held_by (lookup key c.scopes) ≡ (scope_of key c).concurrent
  held_by-scope_of key c = elim (Option-cases (lookup key c.scopes)) [
    | inl e ↦ rw (e, scope_of) refl
    | inr (s, e) ↦ rw (e, scope_of) refl
  ]

  -- A new call: its number is taken, and its token is of the scope.
  record IsArrival (key : String) (i : ℕ) (c : Controller) : Type 0 where
    pub tallied : IsTallied cfg c
    pub taken : i < c.next_token
    pub mine : (c.tokens i).scope_key ≡ key

  ensure_scope-IsTallied :
      (key : String) (c : Controller)
      → IsTallied cfg c
      → IsTallied cfg (ensure_scope key c).1 × ((ensure_scope key c).1.next_token ≡ c.next_token)
  unfolding ensure_scope
  ensure_scope-IsTallied key c i = elim (Option-cases (lookup key c.scopes)) [
    | inl e ↦
        rw (e, ensure_scope)
          (
            record {
              same = i.same;
              covers =
                  insert-IsCovered key empty_scope c.scopes c.tokens c.next_token
                    (rw e (omega arith)) tt i.covers;
            },
            refl,
          )
    | inr (s, e) ↦ rw (e, ensure_scope) (i, refl)
  ]

  allocate-IsArrival :
      (key label : String) (p : Priority) (c : Controller)
      → IsTallied cfg c
      → IsArrival key c.next_token (allocate key label p c)
  unfolding allocate
  allocate-IsArrival key label p c i = record {
    tallied = record {
      same = i.same;
      covers = new-IsCovered _ c.scopes c.tokens c.next_token refl refl i.covers;
    };
    taken = omega arith;
    mine = rw ((==_iff c.next_token c.next_token).1 refl) refl;
  }

  pump-IsArrival :
      (now : ℕ) (key : String) (i : ℕ) (c : Controller)
      → IsArrival key i c
      → IsArrival key i (pump now c)
  unfolding pump
  pump-IsArrival now key i c a = record {
    tallied = pump-IsTallied now c a.tallied;
    taken = a.taken;
    mine = (pump_scopes-SameFlags c.config now c.scopes c.tokens i).scope_key ∙ a.mine;
  }

  arrive-IsArrival :
      (key label : String) (p : Priority) (now : ℕ) (c : Controller)
      → IsTallied cfg c
      → IsArrival key c.next_token (arrive key label p now c)
  unfolding arrive
  arrive-IsArrival key label p now c i =
      let (t, e) = ensure_scope-IsTallied key c i in
      let d : Controller = allocate key label p (ensure_scope key c).1 in
      let a : IsArrival key c.next_token d =
        subst (λ n. IsArrival key n d) e
          (allocate-IsArrival key label p (ensure_scope key c).1 t) in
      if_rule (IsArrival key c.next_token) (is_empty (ensure_scope key c).0.queue) d (pump now d)
        (λ h. a) (λ h. pump-IsArrival now key c.next_token d a)

  grant-IsTallied :
      (key : String) (i : ℕ) (c : Controller) → IsArrival key i c → IsTallied cfg (grant key i c)
  unfolding grant grant_scope
  grant-IsTallied key i c a = record {
    same = a.tallied.same;
    covers =
        granted-IsCovered key i (grant_scope i (scope_of key c)) c.scopes c.tokens c.next_token
          a.mine (omega (arith, held_by-scope_of key c)) (scope_of-queue key c a.tallied)
          a.tallied.covers;
  }

  enqueue-IsTallied :
      (key : String) (i : ℕ) (p : Priority) (now : ℕ) (c : Controller)
      → IsArrival key i c
      → IsTallied cfg (enqueue key i p now c)
  unfolding enqueue
  enqueue-IsTallied key i p now c a = record {
    same = a.tallied.same;
    covers =
        put-IsCovered i _ _ c.tokens c.next_token refl refl refl (a.tallied.covers.earned i a.taken)
          (insert-IsCovered key _ c.scopes c.tokens c.next_token
            (omega (arith, held_by-scope_of key c))
            (All-append (IsMine c.tokens c.next_token key) (scope_of key c).queue _
              (scope_of-queue key c a.tallied) ((a.taken, a.mine), tt))
            a.tallied.covers);
  }

  pub persist-IsTallied : (c : Controller) → IsTallied cfg c → IsTallied cfg (persist c)
  unfolding persist
  persist-IsTallied c i = record { same = i.same; covers = i.covers }

  reserve_on-IsTallied :
      (key : String) (p : Priority) (now i : ℕ) (c : Controller)
      → IsArrival key i c
      → IsTallied cfg (reserve_on key p now i c).0
  unfolding reserve_on
  reserve_on-IsTallied key p now i c a =
      elim (Bool-cases (can_grant c.config now (scope_of key c))) [
        | inl room ↦ rw room (persist-IsTallied _ (grant-IsTallied key i c a))
        | inr full ↦
            elim (Bool-cases
              (leb c.config.queue_capacity_per_scope (length (scope_of key c).queue))) [
                | inl k ↦ rw (full, k) a.tallied
                | inr k ↦ rw (full, k) (persist-IsTallied _ (enqueue-IsTallied key i p now c a))
              ]
      ]

  pub reserve-IsTallied :
      (key label : String) (p : Priority) (now : ℕ) (c : Controller)
      → IsTallied cfg c
      → IsTallied cfg (reserve key label p now c).0
  unfolding reserve
  reserve-IsTallied key label p now c i =
      reserve_on-IsTallied key p now c.next_token (arrive key label p now c)
        (arrive-IsArrival key label p now c i)
