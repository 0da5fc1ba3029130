-- ===== src/Wake/Flight.antt =====
-- One turn at a time, of a bounded batch, and no startup scan is left waiting.
use ad_coder.Prelude.{
  ℕ, zero, suc, ◌≤◌, ◌<◌, ◌≡◌, ◌⊎◌, refl, Bool, true, false, not, ◌&&◌, ◌||◌, Option, none, some,
  List, [], ◌∷◌, take, arith, length, length-take-le,
}
use ad_coder.Wake.{PendingWake, WakePump, is_empty}

-- A batch of at least one wake and of at most `n`.
abbrev pub IsBatch : ℕ → List PendingWake → Type 0
IsBatch n ws = (is_empty ws ≡ false) × (length ws ≤ n)

abbrev pub is_waiting : Option ℕ → Bool
is_waiting none = false
is_waiting (some n) = true

-- What holds between two events of a pump with a limit of `n` wakes.
pub record IsSingle (n : ℕ) (p : WakePump) : Type 0 where
  pub limit : p.max_wakes_per_turn ≡ n
  pub one : (p.running ≡ 0) × (p.in_flight ≡ false) ⊎ (p.running ≡ 1) × (p.in_flight ≡ true)
  pub apart : (p.in_flight && p.scheduled) ≡ false
  pub awake : (not (is_waiting p.idle_resolver) || p.scheduled || p.in_flight) ≡ true

pub take-IsBatch :
    (n : ℕ) (ws : List PendingWake) → 0 < n → is_empty ws ≡ false → IsBatch n (take n ws)
take-IsBatch zero ws h e = ground arith
take-IsBatch (suc n) [] h e = cc
take-IsBatch (suc n) (w ∷ ws) h e = (refl, length-take-le (suc n) (w ∷ ws))
