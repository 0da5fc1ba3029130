-- ===== src/Admission/Scheduler/Scan.antt =====
-- The loop of `dequeueCandidate`: what the best entry so far is.
use ad_coder.Prelude.{
  ℕ, suc, ◌≤◌, ◌<◌, ◌≡◌, refl, sym, ap, subst, ◌∙◌, ◌⊎◌, inl, inr, Bool, true, false, not, ◌&&◌,
  Option, none, some, List, [], ◌∷◌, ◌++◌, arith, length, length-append, All, All-append, All-impl,
  append_assoc, append-nil,
}
use ad_coder.Admission.{title, same_priority, Config, Tokens, QueueEntry}
use ad_coder.Admission.Scheduler.{index_of, effective_priority, Best, beats, consider, scan, splice}

module _ (c : Config) (now : ℕ) (ts : Tokens) where
  abbrev pub rank : QueueEntry → ℕ
  rank e = index_of (effective_priority c now e) c.priority_classes

  -- `e` goes before `d`; `e` does not go after `d`.
  abbrev pub Before : QueueEntry → QueueEntry → Type 0
  Before e d = (rank e < rank d) ⊎ ((rank e ≡ rank d) × (e.enqueued_at < d.enqueued_at))

  abbrev pub NotAfter : QueueEntry → QueueEntry → Type 0
  NotAfter e d = (rank e < rank d) ⊎ ((rank e ≡ rank d) × (e.enqueued_at ≤ d.enqueued_at))

module _ (c : Config) (now : ℕ) (ts : Tokens) (waiting : Bool) where
  abbrev pub may_run : QueueEntry → Bool
  may_run e =
      not (ts e.token).unowned && not (same_priority (effective_priority c now e) title && waiting)

  -- The best of the entries seen, with what stands on both sides of it.
  pub record Seen (es : List QueueEntry) (b : Best) : Type 0 where
    pub pre : List QueueEntry
    pub chosen : QueueEntry
    pub post : List QueueEntry
    pub split : es ≡ pre ++ (chosen ∷ post)
    pub index : length pre ≡ b.index
    pub ranked : rank c now ts chosen ≡ b.rank
    pub queued : chosen.enqueued_at ≡ b.enqueued_at
    pub runs : may_run chosen ≡ true
    pub before : All (λ d. may_run d ≡ true → Before c now ts chosen d) pre
    pub after : All (λ d. may_run d ≡ true → NotAfter c now ts chosen d) post

  abbrev pub IsBest : List QueueEntry → Option Best → Type 0
  IsBest es none = All (λ d. may_run d ≡ false) es
  IsBest es (some b) = Seen es b

  extend :
      (es : List QueueEntry) (e : QueueEntry) (b : Best) (s : Seen es b)
      → (may_run e ≡ true → NotAfter c now ts s.chosen e)
      → Seen (es ++ (e ∷ [])) b
  extend es e b s h = record {
    pre = s.pre;
    chosen = s.chosen;
    post = s.post ++ (e ∷ []);
    split = ap (λ l. l ++ (e ∷ [])) s.split ∙ append_assoc s.pre (s.chosen ∷ s.post) (e ∷ []);
    index = s.index;
    ranked = s.ranked;
    queued = s.queued;
    runs = s.runs;
    before = s.before;
    after = All-append _ s.post (e ∷ []) s.after (h, tt);
  }

  pass :
      (es : List QueueEntry) (e : QueueEntry) (b : Option Best)
      → may_run e ≡ false
      → IsBest es b
      → IsBest (es ++ (e ∷ [])) b
  pass es e none h s = All-append _ es (e ∷ []) s (h, tt)
  pass es e (some b) h s = extend es e b s (λ k. ground arith)

  -- The entry goes before all that were seen.
  take_over :
      (es : List QueueEntry) (e : QueueEntry) {b : Best}
      → may_run e ≡ true
      → b ≡ record { index = length es; rank = rank c now ts e; enqueued_at = e.enqueued_at }
      → All (λ d. may_run d ≡ true → Before c now ts e d) es
      → Seen (es ++ (e ∷ [])) b
  take_over es e h k lead = record {
    pre = es;
    chosen = e;
    post = [];
    split = refl;
    index = ap (λ b. b.index) (sym k);
    ranked = ap (λ b. b.rank) (sym k);
    queued = ap (λ b. b.enqueued_at) (sym k);
    runs = h;
    before = lead;
    after = tt;
  }

  lead_none :
      (es : List QueueEntry) (e : QueueEntry)
      → All (λ d. may_run d ≡ false) es
      → All (λ d. may_run d ≡ true → Before c now ts e d) es
  lead_none es e = All-impl _ _ (λ d h k. ground arith) es

  abbrev Leads : QueueEntry → QueueEntry → Type 0
  Leads e d = may_run d ≡ true → Before c now ts e d

  abbrev Holds : QueueEntry → QueueEntry → Type 0
  Holds e d = may_run d ≡ true → NotAfter c now ts e d

  lead_some :
      (es : List QueueEntry) (e : QueueEntry) (b : Best) (s : Seen es b)
      → Before c now ts e s.chosen
      → All (Leads e) es
  lead_some es e b s h = subst (All (Leads e)) (sym s.split) (
      All-append (Leads e) s.pre (s.chosen ∷ s.post)
        (All-impl (Leads s.chosen) (Leads e) (λ d f k. ground (arith, f k)) s.pre s.before)
        (λ k. h, All-impl (Holds s.chosen) (Leads e) (λ d f k. ground (arith, f k)) s.post s.after))

  abbrev candidate : ℕ → QueueEntry → Best
  candidate i e = record { index = i; rank = rank c now ts e; enqueued_at = e.enqueued_at }

  consider_cases :
      (i : ℕ) (e : QueueEntry) (b : Option Best)
      → ((may_run e ≡ false) × (consider c now ts waiting i e b ≡ b))
        ⊎ ((may_run e ≡ true)
            × (beats (rank c now ts e) e.enqueued_at b ≡ true)
            × (consider c now ts waiting i e b ≡ some (candidate i e)))
        ⊎ ((may_run e ≡ true)
            × (beats (rank c now ts e) e.enqueued_at b ≡ false)
            × (consider c now ts waiting i e b ≡ b))
  unfolding consider
  consider_cases i e none = ground arith
  consider_cases i e (some b) = ground arith

  consider-IsBest :
      (es : List QueueEntry) (e : QueueEntry) (b : Option Best)
      → IsBest es b
      → IsBest (es ++ (e ∷ [])) (consider c now ts waiting (length es) e b)
  consider-IsBest es e none s = elim (consider_cases (length es) e none) [
    | inl (k, q) ↦ rw q (pass es e none k s)
    | inr (inl (h, k, q)) ↦ rw q (take_over es e h refl (lead_none es e s))
    | inr (inr (_, k, q)) ↦ absurd (ground arith)
  ]
  consider-IsBest es e (some b) s = elim (consider_cases (length es) e (some b)) [
    | inl (k, q) ↦ rw q (pass es e (some b) k s)
    | inr (inl (h, k, q)) ↦
        rw q (take_over es e h refl (lead_some es e b s (ground (arith, s.ranked, s.queued))))
    | inr (inr (_, k, q)) ↦ rw q (extend es e b s (λ _. ground (arith, s.ranked, s.queued)))
  ]

  length-snoc : (es : List QueueEntry) (x : QueueEntry) → length (es ++ (x ∷ [])) ≡ suc (length es)
  length-snoc es x = omega (arith, length-append es (x ∷ []))

  pub scan-IsBest :
      (es xs : List QueueEntry) (b : Option Best)
      → IsBest es b
      → IsBest (es ++ xs) (scan c now ts waiting (length es) b xs)
  unfolding scan
  scan-IsBest es [] b s = rw append-nil s
  scan-IsBest es (x ∷ xs) b s =
      rw (append_assoc es (x ∷ []) xs, length-snoc es x) at
        (scan-IsBest (es ++ (x ∷ [])) xs (consider c now ts waiting (length es) x b)
          (consider-IsBest es x b s))

pub splice-append :
    (pre post : List QueueEntry) (e : QueueEntry)
    → splice (length pre) (pre ++ (e ∷ post)) ≡ some (e, pre ++ post)
unfolding splice
splice-append [] post e = refl
splice-append (x ∷ pre) post e = rw (splice-append pre post e, splice)
