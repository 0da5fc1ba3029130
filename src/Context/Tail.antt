-- ===== src/Context/Tail.antt =====
-- src/context/compactor.ts, `selectRecentTail`: the messages that a compaction never evicts.
use ad_coder.Prelude.{
  inl, ℕ, ◌+◌, ◌≤◌, ◌<◌, ◌≡◌, refl, ◌⊎◌, inr, Bool, true, false, not, ◌&&◌, ltb, List, [], ◌∷◌,
  ◌++◌, if◌then◌else◌, arith, length, ap, sym, ◌∙◌, if_rule, Bool-cases,
}

-- The loop's variables: what is summed, whether the loop broke, and the two slices.
pub record Split {ℓ} (M : Type ℓ) : Type ℓ where
  pub running : ℕ
  pub broken : Bool
  pub head : List M
  pub tail : List M

abbrev pub is_empty {ℓ} : {M : Type ℓ} → List M → Bool
is_empty [] = true
is_empty (m ∷ ms) = false

module _ {ℓ} {M : Type ℓ} (estimate_tokens : M → ℕ) where
  -- One pass of the loop, at a message before those that were visited. The message is not the last
  -- one when the tail has one already.
  unfoldable pub visit : ℕ → M → Split M → Split M
  visit keep m s =
      if s.broken
      then record s { head = m ∷ s.head }
      else if ltb keep (s.running + estimate_tokens m) && not (is_empty s.tail)
      then record s { running = s.running + estimate_tokens m; broken = true; head = m ∷ [] }
      else record s { running = s.running + estimate_tokens m; tail = m ∷ s.tail }

  -- The loop goes from the last message to the first.
  unfoldable pub scan_tail : ℕ → List M → Split M
  unfolding visit
  scan_tail keep [] = record { running = 0; broken = false; head = []; tail = [] }
  scan_tail keep (m ∷ ms) = visit keep m (scan_tail keep ms)

  unfoldable pub select_recent_tail : ℕ → List M → List M × List M
  unfolding scan_tail
  select_recent_tail keep ms = let s = scan_tail keep ms in (s.head, s.tail)

  unfoldable pub total : List M → ℕ
  total [] = 0
  total (m ∷ ms) = estimate_tokens m + total ms

  -- What the loop has established.
  record IsSplit (keep : ℕ) (ms : List M) (s : Split M) : Type ℓ where
    pub started : s.broken ≡ true → is_empty s.tail ≡ false
    pub whole : s.head ++ s.tail ≡ ms
    pub summed : s.broken ≡ false → (s.running ≡ total s.tail) × (s.head ≡ [])
    pub kept : (total s.tail ≤ keep) ⊎ (length s.tail ≤ 1)
    pub floor : is_empty ms ≡ false → is_empty s.tail ≡ false
    pub cut :
        s.broken ≡ true
        → (h : List M) × (m : M) × (s.head ≡ h ++ (m ∷ []))
          × (keep < estimate_tokens m + total s.tail)

  passed-IsSplit :
      (keep : ℕ) (m : M) (ms : List M) (s : Split M)
      → s.broken ≡ true
      → is_empty s.tail ≡ false
      → IsSplit keep ms s
      → IsSplit keep (m ∷ ms) (record s { head = m ∷ s.head })
  passed-IsSplit keep m ms s b t i = record {
    started = λ e. t;
    whole = ap (λ x. m ∷ x) i.whole;
    summed = λ e. absurd (ground (arith, e, b));
    kept = i.kept;
    floor = λ e. t;
    cut = λ e. let (h, n, p, q) = i.cut b in (m ∷ h, n, ap (λ x. m ∷ x) p, q);
  }

  broken-IsSplit :
      (keep : ℕ) (m : M) (ms : List M) (s : Split M)
      → s.broken ≡ false
      → (ltb keep (s.running + estimate_tokens m) && not (is_empty s.tail)) ≡ true
      → IsSplit keep ms s
      → IsSplit keep
          (m ∷ ms)
          (record s { running = s.running + estimate_tokens m; broken = true; head = m ∷ [] })
  broken-IsSplit keep m ms s b c i = record {
    started = λ e. ground arith;
    whole = ap (λ x. m ∷ x) (ap (λ h. h ++ s.tail) (sym (i.summed b).1) ∙ i.whole);
    summed = λ e. cc;
    kept = i.kept;
    floor = λ e. ground arith;
    cut = λ e. ([], m, refl, ground (arith, (i.summed b).0));
  }

  grown-IsSplit :
      (keep : ℕ) (m : M) (ms : List M) (s : Split M)
      → s.broken ≡ false
      → (ltb keep (s.running + estimate_tokens m) && not (is_empty s.tail)) ≡ false
      → IsSplit keep ms s
      → IsSplit keep
          (m ∷ ms)
          (record s { running = s.running + estimate_tokens m; tail = m ∷ s.tail })
  unfolding total
  grown-IsSplit keep m ms s b c i =
      let (r, e) = i.summed b in
      record {
        started = λ x. refl;
        whole =
            ap (λ h. h ++ (m ∷ s.tail)) e
            ∙ ap (λ x. m ∷ x) (ap (λ h. h ++ s.tail) (sym e) ∙ i.whole);
        summed = λ x. (ground arith, e);
        kept = ground arith;
        floor = λ x. refl;
        cut = λ x. absurd (ground (arith, x, b));
      }

  scan-IsSplit : (keep : ℕ) (ms : List M) → IsSplit keep ms (scan_tail keep ms)
  unfolding scan_tail visit total
  scan-IsSplit keep [] = record {
    started = λ e. cc;
    whole = refl;
    summed = λ e. (refl, refl);
    kept = inr (ground arith);
    floor = λ e. cc;
    cut = λ e. cc;
  }
  scan-IsSplit keep (m ∷ ms) =
      let s = scan_tail keep ms in
      let i = scan-IsSplit keep ms in
      if_rule (IsSplit keep (m ∷ ms)) s.broken _ _
        (λ b. passed-IsSplit keep m ms s b (i.started b) i)
        λ b.
          if_rule (IsSplit keep (m ∷ ms))
            (ltb keep (s.running + estimate_tokens m) && not (is_empty s.tail)) _ _
            (λ c. broken-IsSplit keep m ms s b c i) λ c. grown-IsSplit keep m ms s b c i

  -- The head and the tail make up the messages, in order; the tail is empty only where there is no
  -- message, and is within the budget or a single message at most; and the head is empty or ends in
  -- a message for which the budget has no room beside the tail.
  pub select_recent_tail_lem :
      (keep : ℕ) (ms : List M)
      → ((select_recent_tail keep ms).0 ++ (select_recent_tail keep ms).1 ≡ ms)
        × ((ms ≡ []) ⊎ (is_empty (select_recent_tail keep ms).1 ≡ false))
        × ((total (select_recent_tail keep ms).1 ≤ keep)
            ⊎ (length (select_recent_tail keep ms).1 ≤ 1))
        × (((select_recent_tail keep ms).0 ≡ [])
            ⊎ ((h : List M) × (m : M) × ((select_recent_tail keep ms).0 ≡ h ++ (m ∷ []))
                × (keep < estimate_tokens m + total (select_recent_tail keep ms).1)))
  unfolding select_recent_tail
  select_recent_tail_lem keep ms =
      let i = scan-IsSplit keep ms in
      (
        i.whole,
        ground (arith, i.floor),
        i.kept,
        elim (Bool-cases (scan_tail keep ms).broken) [
          | inl b ↦ inr (i.cut b)
          | inr b ↦ inl (i.summed b).1
        ],
      )

  total-append : (a b : List M) → total (a ++ b) ≡ total a + total b
  unfolding total
  total-append [] b = omega arith
  total-append (m ∷ a) b = omega (arith, total-append a b)

  pub select_recent_tail-le :
      (keep : ℕ) (ms : List M) → total (select_recent_tail keep ms).1 ≤ total ms
  select_recent_tail-le keep ms =
      let (h, t) = select_recent_tail keep ms in
      let whole : h ++ t ≡ ms = (select_recent_tail_lem keep ms).0 in
      let sum : total h + total t ≡ total ms = sym (total-append h t) ∙ ap total whole in
      omega arith
