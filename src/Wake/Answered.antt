-- ===== src/Wake/Answered.antt =====
-- Whom the pump answers: which startup scan is resolved, and which resolver it keeps.
use ad_coder.Prelude.{
  ℕ, zero, suc, ◌==◌, ==_iff, ◌++◌, ◌∙◌, any, inl, inr, Bool-cases, if_rule, String, ◌≡◌, ◌⊎◌, refl,
  Bool, true, false, not, ◌&&◌, ◌||◌, Option, none, some, List, [], ◌∷◌, take,
}
use ad_coder.Wake.{
  PendingWake, WakePump, schedule, resolve_idle, await_idle, settle_drain, is_empty, start_turn,
  drain, microtask, TurnEnd, turn_failed, mark_failed, listed, mark, by_run, pending_or_empty,
  must_reschedule, end_turn, Event, nudge, startup_scan, fire, turn_end, ended, step, run,
}

-- The startup scan that was asked for last.
abbrev pub asked : Option ℕ → Event → Option ℕ
asked o (startup_scan n) = some n
asked o _ = o

unfoldable pub last_scan : Option ℕ → List Event → Option ℕ
last_scan o [] = o
last_scan o (e ∷ es) = last_scan (asked o e) es

-- A scan has been answered, or is the one that the pump will answer.
abbrev pub IsAnswered : Option ℕ → WakePump → Type 0
IsAnswered none p = Unit
IsAnswered (some n) p = (any (λ k. k == n) p.resolved ≡ true) ⊎ (p.idle_resolver ≡ some n)

any-left : (f : ℕ → Bool) (xs ys : List ℕ) → any f xs ≡ true → any f (xs ++ ys) ≡ true
any-left f [] ys h = cc
any-left f (x ∷ xs) ys h = elim (Bool-cases (f x)) [
  | inl e ↦ rw e refl
  | inr e ↦ rw e (any-left f xs ys (rw e at h))
]

any-last : (f : ℕ → Bool) (xs : List ℕ) (n : ℕ) → f n ≡ true → any f (xs ++ (n ∷ [])) ≡ true
any-last f [] n h = rw h refl
any-last f (x ∷ xs) n h = elim (Bool-cases (f x)) [
  | inl e ↦ rw e refl
  | inr e ↦ rw e (any-last f xs n h)
]

resolve_idle-IsAnswered :
    (o : Option ℕ) (p : WakePump) → IsAnswered o p → IsAnswered o (resolve_idle p)
unfolding resolve_idle
resolve_idle-IsAnswered none p h = tt
resolve_idle-IsAnswered (some n) p (inl h) = inl (any-left _ p.resolved _ h)
resolve_idle-IsAnswered (some n) p (inr e) =
    rw e (inl (any-last (λ k. k == n) p.resolved n ((==_iff n n).1 refl)))

-- The pump has answered the same scans and keeps the same one to answer.
SameScans : WakePump → WakePump → Type 0
SameScans p q = (q.resolved ≡ p.resolved) × (q.idle_resolver ≡ p.idle_resolver)

kept-IsAnswered : (o : Option ℕ) (p q : WakePump) → SameScans p q → IsAnswered o p → IsAnswered o q
unfolding SameScans
kept-IsAnswered none p q s h = tt
kept-IsAnswered (some n) p q s (inl h) = inl (rw s.0 h)
kept-IsAnswered (some n) p q s (inr e) = inr (s.1 ∙ e)

schedule-IsAnswered : (o : Option ℕ) (p : WakePump) → IsAnswered o p → IsAnswered o (schedule p)
unfolding schedule SameScans
schedule-IsAnswered o p h =
    if_rule (IsAnswered o) (p.scheduled || p.in_flight) _ _ (λ e. h)
      (λ e. kept-IsAnswered o p _ (refl, refl) h)

settle_drain-IsAnswered :
    (o : Option ℕ) (b : Bool) (p : WakePump) → IsAnswered o p → IsAnswered o (settle_drain b p)
unfolding settle_drain SameScans
settle_drain-IsAnswered o b p h =
    let q : WakePump = record p { in_flight = false; batch = [] } in
    let k : IsAnswered o q = kept-IsAnswered o p q (refl, refl) h in
    if_rule (IsAnswered o) b _ _ (λ e. schedule-IsAnswered o q k)
      (λ e. resolve_idle-IsAnswered o q k)

fire-IsAnswered :
    (o : Option ℕ) (p : WakePump) (busy : Bool) (read : Option (List PendingWake))
    → IsAnswered o p
    → IsAnswered o (microtask busy read p)
unfolding microtask drain start_turn SameScans
fire-IsAnswered o p busy read h =
    let q : WakePump = record p { scheduled = false } in
    let k : IsAnswered o q = kept-IsAnswered o p q (refl, refl) h in
    if_rule (IsAnswered o) (not p.scheduled) _ _ (λ e. h)
      (λ e.
        if_rule (IsAnswered o) busy _ _ (λ e2. resolve_idle-IsAnswered o q k)
          (λ e2.
            if_rule (IsAnswered o) q.in_flight _ _ (λ e3. k)
              (λ e3.
                if_rule (IsAnswered o) (is_empty (pending_or_empty read)) _ _
                  (λ e4. settle_drain-IsAnswered o false q k)
                  (λ e4. kept-IsAnswered o q _ (refl, refl) k))))

marked-IsAnswered :
    (o : Option ℕ) (b : Bool) (rows : List (String × List PendingWake)) (p : WakePump)
    → IsAnswered o p
    → IsAnswered o (settle_drain b (mark rows p))
unfolding mark SameScans
marked-IsAnswered o b rows p h =
    settle_drain-IsAnswered o b (mark rows p) (kept-IsAnswered o p (mark rows p) (refl, refl) h)

end_turn-IsAnswered :
    (o : Option ℕ) (p : WakePump) (r : TurnEnd) → IsAnswered o p → IsAnswered o (end_turn r p)
unfolding end_turn
end_turn-IsAnswered o p turn_failed h = settle_drain-IsAnswered o false p h
end_turn-IsAnswered o p (mark_failed k) h = marked-IsAnswered o false (take k (by_run p.batch)) p h
end_turn-IsAnswered o p (listed none) h = marked-IsAnswered o false (by_run p.batch) p h
end_turn-IsAnswered o p (listed (some after)) h =
    marked-IsAnswered o (must_reschedule after p.batch) (by_run p.batch) p h

ended-IsAnswered :
    (o : Option ℕ) (p : WakePump) (r : TurnEnd) (k : ℕ)
    → IsAnswered o p
    → IsAnswered o (ended r p k)
unfolding ended SameScans
ended-IsAnswered o p r zero h = h
ended-IsAnswered o p r (suc k) h =
    let q : WakePump = record p { running = k } in
    end_turn-IsAnswered o q r (kept-IsAnswered o p q (refl, refl) h)

await_idle-IsAnswered : (n : ℕ) (p : WakePump) → IsAnswered (some n) (await_idle n p)
unfolding await_idle
await_idle-IsAnswered n p =
    if_rule (IsAnswered (some n)) (not p.in_flight && not p.scheduled) _ _
      (λ e. inl (any-last (λ k. k == n) p.resolved n ((==_iff n n).1 refl))) (λ e. inr refl)

step-IsAnswered :
    (o : Option ℕ) (p : WakePump) (e : Event) → IsAnswered o p → IsAnswered (asked o e) (step p e)
unfolding step
step-IsAnswered o p nudge h = schedule-IsAnswered o p h
step-IsAnswered o p (startup_scan n) h = await_idle-IsAnswered n (schedule p)
step-IsAnswered o p (fire busy read) h = fire-IsAnswered o p busy read h
step-IsAnswered o p (turn_end r) h = ended-IsAnswered o p r p.running h

pub run-IsAnswered :
    (o : Option ℕ) (p : WakePump) (es : List Event)
    → IsAnswered o p
    → IsAnswered (last_scan o es) (run p es)
unfolding run last_scan
run-IsAnswered o p [] h = h
run-IsAnswered o p (e ∷ es) h = run-IsAnswered (asked o e) (step p e) es (step-IsAnswered o p e h)
