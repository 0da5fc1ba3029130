-- ===== src/Admission/Scheduler/Order.antt =====
-- The order in which `dequeueCandidate` serves a queue.
use ad_coder.Prelude.{
  ℕ, ◌≡◌, refl, ◌≢◌, inl, inr, Bool, true, false, Option, none, some, List, [], ◌∷◌, ◌++◌, arith,
  any, any-eq-false, any-eq-true, All, All-impl, Bool-cases,
}
use ad_coder.Admission.{interactive, title, Config, Tokens, QueueEntry}
use ad_coder.Admission.Scheduler.{
  effective_priority, waits_interactive, Best, splice, splice_at, dequeue_candidate,
}
use ad_coder.Admission.Scheduler.Scan.{
  Before, NotAfter, may_run, Seen, IsBest, scan-IsBest, splice-append,
}

module _ (c : Config) (now : ℕ) (ts : Tokens) (q : List QueueEntry) where
  abbrev pub IsOwned : QueueEntry → Type 0
  IsOwned e = (ts e.token).unowned ≡ false

  -- Somebody waits for the entry, and it is no title call that an interactive one holds back.
  abbrev pub Eligible : QueueEntry → Type 0
  Eligible e =
      IsOwned e
      × (effective_priority c now e ≡ title
          → All (λ d. IsOwned d → effective_priority c now d ≢ interactive) q)

  abbrev waits : Bool
  waits = any (waits_interactive c now ts) q

  waits_interactive-false :
      (d : QueueEntry)
      → waits_interactive c now ts d ≡ false
      → IsOwned d
      → effective_priority c now d ≢ interactive
  unfolding waits_interactive
  waits_interactive-false d h o = ground arith

  false-waits_interactive :
      (d : QueueEntry)
      → (IsOwned d → effective_priority c now d ≢ interactive)
      → waits_interactive c now ts d ≡ false
  unfolding waits_interactive
  false-waits_interactive d h = ground (arith, h)

  may_run-Eligible : (e : QueueEntry) → may_run c now ts waits e ≡ true → Eligible e
  may_run-Eligible e h =
      (ground arith, λ t. All-impl _ _ waits_interactive-false q (any-eq-false _ q (ground arith)))

  Eligible-may_run : (e : QueueEntry) → Eligible e → may_run c now ts waits e ≡ true
  Eligible-may_run e (o, h) = elim (Bool-cases waits) [
    | inl w ↦
        let calm : ¬ (effective_priority c now e ≡ title) =
          λ t. any-eq-true _ q w (All-impl _ _ false-waits_interactive q (h t)) in
        ground arith
    | inr w ↦ ground arith
  ]

  pub record Served (e : QueueEntry) (rest : List QueueEntry) : Type 0 where
    pub pre : List QueueEntry
    pub post : List QueueEntry
    pub split : q ≡ pre ++ (e ∷ post)
    pub left : rest ≡ pre ++ post
    pub eligible : Eligible e
    pub before : All (λ d. Eligible d → Before c now ts e d) pre
    pub after : All (λ d. Eligible d → NotAfter c now ts e d) post

  abbrev pub Serves : Option (QueueEntry × List QueueEntry) → Type 0
  Serves none = All (λ d. ¬ Eligible d) q
  Serves (some (e, rest)) = Served e rest

  found :
      (b : Best) (s : Seen c now ts waits q b) → splice b.index q ≡ some (s.chosen, s.pre ++ s.post)
  found b s = rw (← s.index, s.split) (splice-append s.pre s.post s.chosen)

  splice_at-Serves : (b : Option Best) → IsBest c now ts waits q b → Serves (splice_at b q)
  splice_at-Serves none s =
      All-impl (λ d. may_run c now ts waits d ≡ false) (λ d. ¬ Eligible d)
        (λ d f g. ground (arith, Eligible-may_run d g)) q s
  splice_at-Serves (some b) s = rw (found b s) (record {
    pre = s.pre;
    post = s.post;
    split = s.split;
    left = refl;
    eligible = may_run-Eligible s.chosen s.runs;
    before = All-impl _ _ (λ d f g. f (Eligible-may_run d g)) s.pre s.before;
    after = All-impl _ _ (λ d f g. f (Eligible-may_run d g)) s.post s.after;
  })

  -- `dequeueCandidate` takes out the entry of least rank among those that may run, the one queued
  -- first among equals, and finds none only where none may run.
  pub dequeue_candidate-Serves : Serves (dequeue_candidate c now ts q)
  unfolding dequeue_candidate
  dequeue_candidate-Serves = splice_at-Serves _ (scan-IsBest c now ts waits [] q none tt)
