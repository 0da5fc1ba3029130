-- ===== src/Wake/Groups.antt =====
-- The batch by its runs.
use ad_coder.Prelude.{
  ◌≡◌, ◌∙◌, inl, inr, refl, sym, subst, String, true, List, [], ◌∷◌, ◌++◌, if◌then◌else◌, arith,
  Bool-cases, append-nil, append_assoc, lookup, lookup-insert, str_eq,
}
use text.Mathlib.TextEquality.{eq_iff}
use ad_coder.Wake.{PendingWake, wakes_or_empty, add_wake, add_wakes, by_run}

-- The wakes of one run, in order.
abbrev pub of_run : String → List PendingWake → List PendingWake
of_run k [] = []
of_run k (w ∷ ws) = if str_eq w.run_id k then w ∷ of_run k ws else of_run k ws

same_key : (j k : String) → str_eq j k ≡ true → j ≡ k
same_key j k e = ground (arith, eq_iff j k)

add_wake_group :
    (k : String) (m : List (String × List PendingWake)) (w : PendingWake)
    → wakes_or_empty (lookup k (add_wake m w)) ≡ (
        if str_eq w.run_id k
        then wakes_or_empty (lookup w.run_id m) ++ (w ∷ [])
        else wakes_or_empty (lookup k m))
unfolding add_wake
add_wake_group k m w =
    ground (arith, lookup-insert w.run_id k (wakes_or_empty (lookup w.run_id m) ++ (w ∷ [])) m)

group_step :
    (k : String) (m : List (String × List PendingWake)) (w : PendingWake) (ws : List PendingWake)
    → wakes_or_empty (lookup k (add_wake m w)) ++ of_run k ws
      ≡ wakes_or_empty (lookup k m) ++ of_run k (w ∷ ws)
group_step k m w ws = elim (Bool-cases (str_eq w.run_id k)) [
  | inl e ↦
      rw (add_wake_group k m w, e)
        (subst
          (λ x.
            (wakes_or_empty (lookup x m) ++ (w ∷ [])) ++ of_run k ws
            ≡ wakes_or_empty (lookup k m) ++ (w ∷ of_run k ws))
          (sym (same_key w.run_id k e))
          (append_assoc (wakes_or_empty (lookup k m)) (w ∷ []) (of_run k ws)))
  | inr e ↦ rw (add_wake_group k m w, e) refl
]

add_wakes_group :
    (k : String) (m : List (String × List PendingWake)) (ws : List PendingWake)
    → wakes_or_empty (lookup k (add_wakes m ws)) ≡ wakes_or_empty (lookup k m) ++ of_run k ws
unfolding add_wakes
add_wakes_group k m [] = sym (append-nil (wakes_or_empty (lookup k m)))
add_wakes_group k m (w ∷ ws) = add_wakes_group k (add_wake m w) ws ∙ group_step k m w ws

-- Each run is handed exactly its wakes of the batch, in their order.
pub by_run-lookup :
    (k : String) (ws : List PendingWake) → wakes_or_empty (lookup k (by_run ws)) ≡ of_run k ws
unfolding by_run lookup
by_run-lookup k ws = add_wakes_group k [] ws
