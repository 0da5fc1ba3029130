-- ===== src/Admission/Permits.antt =====
-- A permit comes back once, and then serves the calls that wait for it.
use ad_coder.Prelude.{ℕ, ◌≡◌, refl, ◌⊎◌, inl, inr, false, Bool-cases, All, ◌==◌, ==_iff}
use ad_coder.Admission.{Config, Token, Tokens, put, ScopeRuntime, Controller}
use ad_coder.Admission.Scheduler.{can_grant}
use ad_coder.Admission.Scheduler.Order.{Eligible}
use ad_coder.Admission.Release.{mark_settled}

-- Nothing waits in the scope that could run: it has no room, or no entry that may be granted.
abbrev pub IsServed : Config → ℕ → Tokens → ScopeRuntime → Type 0
IsServed c now ts s = (can_grant c now s ≡ false) ⊎ All (λ e. ¬ Eligible c now ts s.queue e) s.queue

put_self : (i : ℕ) (t : Token) (ts : Tokens) → put i t ts i ≡ t
put_self i t ts = rw ((==_iff i i).1 refl)

mark_settled-unowned :
    (i : ℕ) (c : Controller) (j : ℕ) → ((mark_settled i c).tokens j).unowned ≡ (c.tokens j).unowned
unfolding mark_settled
mark_settled-unowned i c j = elim (Bool-cases (j == i)) [
  | inl same ↦ rw (same, (==_iff j i).0 same)
  | inr other ↦ rw other
]
