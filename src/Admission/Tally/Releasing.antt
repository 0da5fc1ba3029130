-- ===== src/Admission/Tally/Releasing.antt =====
-- A permit comes back, a call is cancelled or a cooldown opens: the counters go on covering what they
-- serve.
use ad_coder.Prelude.{
  ==_iff, ◌⊎◌, Bool, ℕ, ◌<◌, ◌==◌, ◌≡◌, refl, inl, inr, String, true, false, ◌&&◌, ◌||◌, Option,
  none, some, List, [], ◌∷◌, Bool-cases, Option-cases, arith, lookup, if_rule, All,
}
use ad_coder.Admission.{
  Config, ProviderLimit, Token, Tokens, QueueEntry, ScopeRuntime, TokenState, Controller,
}
use ad_coder.Admission.Reserve.{scope_of, put_token}
use ad_coder.Admission.Release.{
  remove_from_queue, is_cancelled, resume_rejected, cancel_token, cancel, release_scope,
  mark_settled, give_back, mark_released, is_queued, is_uncertain_state, release_token,
  settle_token, release, resolve_uncertain, open_cooldown, react_rejection,
}
use ad_coder.Admission.Counts.{is_granted}
use ad_coder.Admission.Tally.{
  IsEarned, IsMine, lookup-AllMine, insert-IsCovered, put-IsCovered, settled-IsCovered,
  stray-IsCovered,
}
use ad_coder.Admission.Tally.Reserving.{
  IsTallied, pump-IsTallied, scope_of-queue, held_by-scope_of, persist-IsTallied,
}

remove_from_queue-IsMine :
    (ts : Tokens) (n : ℕ) (key : String) (i : ℕ) (q : List QueueEntry)
    → All (IsMine ts n key) q
    → All (IsMine ts n key) (remove_from_queue i q)
unfolding remove_from_queue
remove_from_queue-IsMine ts n key i [] h = tt
remove_from_queue-IsMine ts n key i (e ∷ es) h =
    if_rule (All (IsMine ts n key)) (e.token == i) es (e ∷ remove_from_queue i es) (λ p. h.1)
      (λ p. (h.0, remove_from_queue-IsMine ts n key i es h.1))

uncertain_granted :
    (b : Bool) (x : TokenState) → (b && is_uncertain_state x) ≡ true → is_granted x ≡ true
uncertain_granted true TokenState.uncertain h = refl
uncertain_granted true TokenState.admitted h = refl
uncertain_granted true TokenState.queued h = cc
uncertain_granted true TokenState.cancelled h = cc
uncertain_granted true TokenState.settled h = cc
uncertain_granted false x h = cc

served_one :
    (x : TokenState)
    → (is_queued x ≡ true) ⊎ (is_granted x ≡ true)
    → is_queued x ≡ false
    → is_granted x ≡ true
served_one x (inl q) h = ground (arith, q, h)
served_one x (inr g) h = g

module _ (cfg : Config) where
  pub resume_rejected-IsTallied :
      (key : String) (i : ℕ) (c : Controller)
      → IsTallied cfg c
      → IsTallied cfg (resume_rejected key i c)
  unfolding resume_rejected
  resume_rejected-IsTallied key i c h =
      if_rule (IsTallied cfg) (is_cancelled (c.tokens i).state) _ _
        (λ e. persist-IsTallied cfg _ (record {
          same = h.same;
          covers =
              insert-IsCovered key (record s { queue = remove_from_queue i s.queue }) c.scopes
                c.tokens c.next_token (omega (arith, held_by-scope_of cfg key c))
                (remove_from_queue-IsMine c.tokens c.next_token key i s.queue
                  (scope_of-queue cfg key c h))
                h.covers;
        }))
        (λ e. h)
    where
      s : ScopeRuntime
      s = scope_of key c

  put_token-IsTallied :
      (i : ℕ) (t : Token) (c : Controller)
      → t.scope_key ≡ (c.tokens i).scope_key
      → is_granted t.state ≡ is_granted (c.tokens i).state
      → t.is_settled ≡ (c.tokens i).is_settled
      → IsEarned t
      → IsTallied cfg c
      → IsTallied cfg (put_token i t c)
  put_token-IsTallied i t c e g s own h = record {
    same = h.same;
    covers = put-IsCovered i t c.scopes c.tokens c.next_token e g s own h.covers;
  }

  pub cancel-IsTallied :
      (i : ℕ) (c : Controller) → i < c.next_token → IsTallied cfg c → IsTallied cfg (cancel i c)
  unfolding cancel
  cancel-IsTallied i c lt h =
      let (e, g, s) = kept (c.tokens i) (c.tokens i).state refl in
      put_token-IsTallied i (cancel_token (c.tokens i).state (c.tokens i)) c e g s
        (rw (g, s) (h.covers.earned i lt)) h
    where
      kept :
          (t : Token) (x : TokenState)
          → t.state ≡ x
          → ((cancel_token x t).scope_key ≡ t.scope_key)
            × (is_granted (cancel_token x t).state ≡ is_granted t.state)
            × ((cancel_token x t).is_settled ≡ t.is_settled)
      kept t TokenState.queued h = (refl, rw h refl, refl)
      kept t TokenState.admitted h = (refl, refl, refl)
      kept t TokenState.cancelled h = (refl, refl, refl)
      kept t TokenState.settled h = (refl, refl, refl)
      kept t TokenState.uncertain h = (refl, refl, refl)

  mark_released-IsTallied :
      (i : ℕ) (c : Controller)
      → i < c.next_token
      → IsTallied cfg c
      → IsTallied cfg (mark_released i c)
  unfolding mark_released
  mark_released-IsTallied i c lt h =
      put_token-IsTallied i _ c refl refl refl (h.covers.earned i lt) h

  give_back-IsTallied :
      (i : ℕ) (s : ScopeRuntime) (c : Controller)
      → i < c.next_token
      → is_granted (c.tokens i).state ≡ true
      → (c.tokens i).is_settled ≡ false
      → lookup (c.tokens i).scope_key c.scopes ≡ some s
      → IsTallied cfg c
      → IsTallied cfg (give_back i s c)
  unfolding give_back mark_settled release_scope
  give_back-IsTallied i s c lt w f e h = record {
    same = h.same;
    covers =
        settled-IsCovered i (record t { is_settled = true }) (release_scope i s) c.scopes c.tokens
          c.next_token lt f refl refl refl w (rw e (omega arith))
          (lookup-AllMine c.tokens c.next_token (c.tokens i).scope_key c.scopes s h.covers.mine e)
          h.covers;
  }
    where
      t : Token
      t = c.tokens i

  mark_settled-IsTallied :
      (i : ℕ) (c : Controller)
      → i < c.next_token
      → is_granted (c.tokens i).state ≡ true
      → (c.tokens i).is_settled ≡ false
      → IsTallied cfg c
      → IsTallied cfg (mark_settled i c)
  unfolding mark_settled
  mark_settled-IsTallied i c lt w f h = record {
    same = h.same;
    covers = stray-IsCovered i _ c.scopes c.tokens c.next_token lt f refl refl w h.covers;
  }

  release_token-IsTallied :
      (now i : ℕ) (c : Controller)
      → i < c.next_token
      → is_granted (c.tokens i).state ≡ true
      → IsTallied cfg c
      → IsTallied cfg (release_token now i c)
  unfolding release_token
  release_token-IsTallied now i c lt w h = elim (Bool-cases (c.tokens i).is_settled) [
    | inl e ↦ rw e h
    | inr e ↦ elim (Option-cases (lookup (c.tokens i).scope_key c.scopes)) [
      | inl k ↦ rw (e, k, release_token) (mark_settled-IsTallied i c lt w e h)
      | inr (s, k) ↦
          rw (e, k, release_token)
            (pump-IsTallied cfg now (give_back i s c) (give_back-IsTallied i s c lt w e k h))
    ]
  ]

  pub settle_token-IsTallied :
      (now i : ℕ) (c : Controller)
      → i < c.next_token
      → is_granted (c.tokens i).state ≡ true
      → IsTallied cfg c
      → IsTallied cfg (settle_token now i c)
  unfolding settle_token
  settle_token-IsTallied now i c lt w h =
      if_rule (IsTallied cfg) ((c.tokens i).released || (c.tokens i).is_settled) c
        (release_token now i c) (λ e. h) (λ e. release_token-IsTallied now i c lt w h)

  pub release-IsTallied :
      (now i : ℕ) (c : Controller)
      → i < c.next_token
      → (is_queued (c.tokens i).state ≡ true) ⊎ (is_granted (c.tokens i).state ≡ true)
      → IsTallied cfg c
      → IsTallied cfg (release now i c)
  unfolding release mark_released
  release-IsTallied now i c lt w h =
      let m : IsTallied cfg (mark_released i c) = mark_released-IsTallied i c lt h in
      if_rule (IsTallied cfg) (c.tokens i).released c _ (λ e. h)
        (λ e.
          if_rule (IsTallied cfg) (is_queued (c.tokens i).state) (cancel i (mark_released i c)) _
            (λ q. cancel-IsTallied i (mark_released i c) lt m)
            (λ q.
              if_rule (IsTallied cfg) (c.tokens i).has_controller
                (release_token now i (mark_released i c)) (mark_released i c)
                (λ k.
                  release_token-IsTallied now i (mark_released i c) lt
                    (rw ((==_iff i i).1 refl) (served_one (c.tokens i).state w q)) m)
                (λ k. m)))

  pub resolve_uncertain-IsTallied :
      (now i : ℕ) (c : Controller)
      → i < c.next_token
      → IsTallied cfg c
      → IsTallied cfg (resolve_uncertain now i c)
  unfolding resolve_uncertain
  resolve_uncertain-IsTallied now i c lt h =
      if_rule (IsTallied cfg) ((c.tokens i).is_uncertain && is_uncertain_state (c.tokens i).state)
        (settle_token now i c) c
        (λ e.
          settle_token-IsTallied now i c lt
            (uncertain_granted (c.tokens i).is_uncertain (c.tokens i).state e) h)
        (λ e. h)

  open_cooldown-IsTallied :
      (key : String) (l : ProviderLimit) (now : ℕ) (c : Controller)
      → IsTallied cfg c
      → IsTallied cfg (open_cooldown key l now c)
  unfolding open_cooldown
  open_cooldown-IsTallied key l now c h = elim (Option-cases (lookup key c.scopes)) [
    | inl e ↦ rw (e, open_cooldown) h
    | inr (s, e) ↦
        rw (e, open_cooldown)
          (persist-IsTallied cfg _ (record {
            same = h.same;
            covers =
                insert-IsCovered key _ c.scopes c.tokens c.next_token (rw e (omega arith))
                  (lookup-AllMine c.tokens c.next_token key c.scopes s h.covers.mine e) h.covers;
          }))
  ]

  -- The cooldown that a rejection opens leaves the numbers of the tokens as they are.
  pub react_rejection-IsTallied :
      (key : String) (l : Option ProviderLimit) (now : ℕ) (c : Controller)
      → IsTallied cfg c
      → IsTallied cfg (react_rejection key l now c)
  unfolding react_rejection
  react_rejection-IsTallied key none now c h = h
  react_rejection-IsTallied key (some l) now c h = open_cooldown-IsTallied key l now c h

  pub react_rejection-tokens :
      (key : String) (l : Option ProviderLimit) (now : ℕ) (c : Controller)
      → (react_rejection key l now c).tokens ≡ c.tokens
  unfolding react_rejection open_cooldown
  react_rejection-tokens key none now c = refl
  react_rejection-tokens key (some l) now c = elim (Option-cases (lookup key c.scopes)) [
    | inl e ↦ rw (e, open_cooldown) refl
    | inr (s, e) ↦ rw (e, open_cooldown) refl
  ]

  pub react_rejection-next_token :
      (key : String) (l : Option ProviderLimit) (now : ℕ) (c : Controller)
      → (react_rejection key l now c).next_token ≡ c.next_token
  unfolding react_rejection open_cooldown
  react_rejection-next_token key none now c = refl
  react_rejection-next_token key (some l) now c = elim (Option-cases (lookup key c.scopes)) [
    | inl e ↦ rw (e, open_cooldown) refl
    | inr (s, e) ↦ rw (e, open_cooldown) refl
  ]
