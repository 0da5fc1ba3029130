-- ===== src/Admission/Once.antt =====
-- A permit comes back to its scope once, however often its token is released or settled.
use ad_coder.Prelude.{
  ℕ, ◌≡◌, refl, ◌∙◌, inl, inr, true, false, ◌||◌, lookup, if_rule, Option-cases, ==_iff, ap, arith,
}
use ad_coder.Admission.{Token, TokenState, Controller}
use ad_coder.Admission.Reserve.{pump}
use ad_coder.Admission.Reserve.Pump.{SameFlags, pump_scopes-SameFlags}
use ad_coder.Admission.Release.{
  cancel_token, cancel, mark_settled, give_back, release_token, settle_token, mark_released,
  is_queued, release,
}

pump-SameFlags :
    (now : ℕ) (c : Controller) (j : ℕ) → SameFlags c.config now (c.tokens j) ((pump now c).tokens j)
unfolding pump
pump-SameFlags now c j = pump_scopes-SameFlags c.config now c.scopes c.tokens j

release_token-released :
    (now i : ℕ) (c : Controller)
    → ((release_token now i c).tokens i).released ≡ (c.tokens i).released
unfolding release_token
release_token-released now i c =
    if_rule (λ (d : Controller). (d.tokens i).released ≡ (c.tokens i).released)
      (c.tokens i).is_settled c _ (λ _. refl)
      λ _. elim (Option-cases (lookup (c.tokens i).scope_key c.scopes)) [
        | inl e ↦ rw e marked
        | inr (s, e) ↦ rw e ((pump-SameFlags now (give_back i s c) i).released ∙ marked)
      ]
  where
    marked : ((mark_settled i c).tokens i).released ≡ (c.tokens i).released
    marked = rw ((==_iff i i).1 refl)

cancel_token-released : (s : TokenState) (t : Token) → (cancel_token s t).released ≡ t.released
cancel_token-released TokenState.admitted t = refl
cancel_token-released _ t = refl

cancel-released :
    (i : ℕ) (c : Controller) → ((cancel i c).tokens i).released ≡ (c.tokens i).released
unfolding cancel
cancel-released i c =
    rw ((==_iff i i).1 refl) (cancel_token-released (c.tokens i).state (c.tokens i))

release-released : (now i : ℕ) (c : Controller) → ((release now i c).tokens i).released ≡ true
unfolding release
release-released now i c =
    if_rule IsReleased (c.tokens i).released c _ (λ e. e)
      λ _.
        if_rule IsReleased (is_queued (c.tokens i).state) (cancel i (mark_released i c)) _
          (λ _. cancel-released i (mark_released i c) ∙ marked)
          λ _.
            if_rule IsReleased (c.tokens i).has_controller (release_token now i (mark_released i c))
              (mark_released i c) (λ _. release_token-released now i (mark_released i c) ∙ marked)
              (λ _. marked)
  where
    IsReleased : Controller → Type 0
    IsReleased d = (d.tokens i).released ≡ true

    marked : ((mark_released i c).tokens i).released ≡ true
    marked = rw ((==_iff i i).1 refl)

release_token-is_settled :
    (now i : ℕ) (c : Controller) → ((release_token now i c).tokens i).is_settled ≡ true
unfolding release_token
release_token-is_settled now i c =
    if_rule (λ (d : Controller). (d.tokens i).is_settled ≡ true) (c.tokens i).is_settled c _
      (λ e. e)
      λ _. elim (Option-cases (lookup (c.tokens i).scope_key c.scopes)) [
        | inl e ↦ rw e marked
        | inr (s, e) ↦ rw e ((pump-SameFlags now (give_back i s c) i).is_settled ∙ marked)
      ]
  where
    marked : ((mark_settled i c).tokens i).is_settled ≡ true
    marked = rw ((==_iff i i).1 refl)

released_twice :
    (later i : ℕ) (c : Controller)
    → (c.tokens i).released ≡ true
    → (release later i c ≡ c) × (settle_token later i c ≡ c)
unfolding release settle_token
released_twice later i c e = (rw e, rw e)

-- Once a token was released, releasing or settling it again changes nothing at all.
pub release_once :
    (now later i : ℕ) (c : Controller)
    → let r = release now i c in (release later i r ≡ r) × (settle_token later i r ≡ r)
release_once now later i c = released_twice later i (release now i c) (release-released now i c)

release_token_noop :
    (later i : ℕ) (c : Controller) → (c.tokens i).is_settled ≡ true → release_token later i c ≡ c
unfolding release_token
release_token_noop later i c e = rw e

settle_token_noop :
    (later i : ℕ) (c : Controller) → (c.tokens i).is_settled ≡ true → settle_token later i c ≡ c
unfolding settle_token
settle_token_noop later i c e =
    if_rule (λ (d : Controller). d ≡ c) ((c.tokens i).released || (c.tokens i).is_settled) c
      (release_token later i c) (λ _. refl) (λ _. release_token_noop later i c e)

mark_released-is_settled :
    (i : ℕ) (c : Controller)
    → (c.tokens i).is_settled ≡ true
    → ((mark_released i c).tokens i).is_settled ≡ true
unfolding mark_released
mark_released-is_settled i c e = rw ((==_iff i i).1 refl) e

scopes-release :
    (later i : ℕ) (c : Controller)
    → (c.tokens i).is_settled ≡ true
    → (release later i c).scopes ≡ c.scopes
unfolding release
scopes-release later i c e =
    if_rule Kept (c.tokens i).released c _ (λ _. refl)
      λ _.
        if_rule Kept (is_queued (c.tokens i).state) (cancel i (mark_released i c)) _ (λ _. refl)
          λ _.
            if_rule Kept (c.tokens i).has_controller (release_token later i (mark_released i c))
              (mark_released i c)
              (λ _.
                ap (λ (d : Controller). d.scopes)
                  (release_token_noop later i (mark_released i c) (mark_released-is_settled i c e)))
              (λ _. refl)
  where
    Kept : Controller → Type 0
    Kept d = d.scopes ≡ c.scopes

settle_token-is_settled :
    (now i : ℕ) (c : Controller)
    → (c.tokens i).released ≡ false
    → ((settle_token now i c).tokens i).is_settled ≡ true
unfolding settle_token
settle_token-is_settled now i c e =
    if_rule (λ (d : Controller). (d.tokens i).is_settled ≡ true)
      ((c.tokens i).released || (c.tokens i).is_settled) c (release_token now i c)
      (λ k. ground (arith, k, e)) (λ _. release_token-is_settled now i c)

-- Once the end of a granted call that was not released has settled its token, settling it again
-- changes nothing, and releasing it leaves every scope as it is.
pub settle_once :
    (now later i : ℕ) (c : Controller)
    → (c.tokens i).released ≡ false
    → let r = settle_token now i c in
      (settle_token later i r ≡ r) × ((release later i r).scopes ≡ r.scopes)
settle_once now later i c e =
    let k = settle_token-is_settled now i c e in
    (
      settle_token_noop later i (settle_token now i c) k,
      scopes-release later i (settle_token now i c) k,
    )
