-- ===== src/Wake/Batches.antt =====
-- The batches that turns are run for, and what is marked as handled.
use ad_coder.Prelude.{
  ℕ, zero, suc, ◌<◌, ◌≡◌, ◌⊎◌, ◌∙◌, inl, inr, refl, sym, subst, Bool, true, false, Option, none,
  some, List, [], ◌∷◌, ◌++◌, take, arith, All, All-append,
}
use ad_coder.Wake.{
  PendingWake, WakePump, construct, schedule, resolve_idle, await_idle, settle_drain, is_empty,
  pending_or_empty, start_turn, drain, microtask, TurnEnd, turn_failed, mark_failed, listed, mark,
  by_run, must_reschedule, end_turn, Event, nudge, startup_scan, fire, turn_end, ended, step, run,
}
use ad_coder.Wake.Flight.{IsBatch, take-IsBatch}

abbrev IsBounded : ℕ → WakePump → Type 0
IsBounded n p = (p.max_wakes_per_turn ≡ n) × All (IsBatch n) p.turns

Unstarted : WakePump → WakePump → Type 0
Unstarted p q = (q.max_wakes_per_turn ≡ p.max_wakes_per_turn) × (q.turns ≡ p.turns)

microtask_turns :
    (p : WakePump) (busy : Bool) (read : Option (List PendingWake))
    → ((microtask busy read p).max_wakes_per_turn ≡ p.max_wakes_per_turn)
      × (((microtask busy read p).turns ≡ p.turns)
          ⊎ ((is_empty (pending_or_empty read) ≡ false)
              × ((microtask busy read p).turns
                  ≡ p.turns ++ (take p.max_wakes_per_turn (pending_or_empty read) ∷ []))))
unfolding microtask drain settle_drain resolve_idle start_turn
microtask_turns p busy read = ground arith

settle_drain_turns : (b : Bool) (p : WakePump) → Unstarted p (settle_drain b p)
unfolding settle_drain schedule resolve_idle Unstarted
settle_drain_turns b p = ground arith

end_turn_turns : (r : TurnEnd) (p : WakePump) → Unstarted p (end_turn r p)
unfolding end_turn mark Unstarted
end_turn_turns turn_failed p = settle_drain_turns false p
end_turn_turns (mark_failed j) p = settle_drain_turns false (mark (take j (by_run p.batch)) p)
end_turn_turns (listed none) p = settle_drain_turns false (mark (by_run p.batch) p)
end_turn_turns (listed (some after)) p =
    settle_drain_turns (must_reschedule after p.batch) (mark (by_run p.batch) p)

ended_turns : (r : TurnEnd) (p : WakePump) (k : ℕ) → Unstarted p (ended r p k)
unfolding Unstarted ended
ended_turns r p zero = (refl, refl)
ended_turns r p (suc k) = end_turn_turns r (record p { running = k })

Unstarted-IsBounded : (n : ℕ) (p q : WakePump) → Unstarted p q → IsBounded n p → IsBounded n q
unfolding Unstarted
Unstarted-IsBounded n p q (l, t) (m, a) = (l ∙ m, subst (λ x. All (IsBatch n) x) (sym t) a)

fire-IsBounded :
    (n : ℕ) (p : WakePump) (busy : Bool) (read : Option (List PendingWake))
    → 0 < n
    → IsBounded n p
    → IsBounded n (microtask busy read p)
fire-IsBounded n p busy read h (m, a) = elim (microtask_turns p busy read).1 [
  | inl t ↦ ((microtask_turns p busy read).0 ∙ m, subst (λ x. All (IsBatch n) x) (sym t) a)
  | inr (e, t) ↦ (
    (microtask_turns p busy read).0 ∙ m,
    subst (λ x. All (IsBatch n) x) (sym t)
        (All-append (IsBatch n) p.turns _ a (
          subst (λ k. IsBatch n (take k (pending_or_empty read))) (sym m)
              (take-IsBatch n (pending_or_empty read) h e),
          tt,
        )),
  )
]

step-IsBounded : (n : ℕ) (p : WakePump) (e : Event) → 0 < n → IsBounded n p → IsBounded n (step p e)
unfolding step schedule await_idle
step-IsBounded n p nudge h i = ground (arith, i)
step-IsBounded n p (startup_scan k) h i = ground (arith, i)
step-IsBounded n p (fire busy read) h i = fire-IsBounded n p busy read h i
step-IsBounded n p (turn_end r) h i = Unstarted-IsBounded n p _ (ended_turns r p p.running) i

run-IsBounded :
    (n : ℕ) (p : WakePump) (es : List Event) → 0 < n → IsBounded n p → IsBounded n (run p es)
unfolding run
run-IsBounded n p [] h i = i
run-IsBounded n p (e ∷ es) h i = run-IsBounded n (step p e) es h (step-IsBounded n p e h i)

start-IsBounded : (n : ℕ) (p : WakePump) → construct (some n) ≡ some p → (0 < n) × IsBounded n p
unfolding construct
start-IsBounded zero p h = cc
start-IsBounded (suc n) p h = ground arith

-- In any sequence of events, every turn that the pump runs is for a batch of at least one wake and
-- of at most `maxWakesPerTurn`.
pub run-IsBatch :
    (n : ℕ) (p : WakePump) (es : List Event)
    → construct (some n) ≡ some p
    → All (IsBatch n) (run p es).turns
run-IsBatch n p es h = let (z, i) = start-IsBounded n p h in (run-IsBounded n p es z i).1

-- A turn that fails marks nothing as handled and schedules nothing, and the next nudge schedules the
-- pump again; a turn that ends well marks its whole batch, and schedules exactly when a window
-- that was not in the batch is pending.
pub end_turn_lem :
    (p : WakePump) (after : List PendingWake)
    → p.scheduled ≡ false
    → ((end_turn turn_failed p).handled ≡ p.handled)
      × ((end_turn turn_failed p).scheduled ≡ false)
      × ((schedule (end_turn turn_failed p)).scheduled ≡ true)
      × ((end_turn (listed (some after)) p).handled ≡ p.handled ++ by_run p.batch)
      × ((end_turn (listed (some after)) p).scheduled ≡ must_reschedule after p.batch)
unfolding end_turn settle_drain schedule resolve_idle mark
end_turn_lem p after h = ground arith
