-- ===== src/Wait/Shape.antt =====
-- What keeps a record valid.
use ad_coder.Prelude.{
  ℕ, ◌+◌, ◌≤◌, ◌<◌, ◌≡◌, inl, inr, refl, ltb, String, Bool, true, ◌&&◌, Option, none, some, List,
  [], ◌∷◌, ◌++◌, length, arith, if_rule, Bool-cases, str_eq, ltb→lt, lt→ltb, leb→le, le→leb,
}
use text.Mathlib.TextPositions.{eq_refl}
use ad_coder.Wait.{
  Dispatch, WaitLifecycle, WaitEvidenceCode, WaitTerms, WaitEvent, WaitRecord, WaitServiceLimits,
  is_wait_id, is_safe_id, validate_input, validate_events, validate_shape, dispatch_allowed,
  is_pending,
}
use ad_coder.Wait.Service.{observe}
use ad_coder.Wait.Records.{
  WaitService, WaitObservation, append, keep_last, evidence_of, event_of, initial,
}
use ad_coder.Wait.History.{WaitCall, begin_wait}
use ad_coder.Wait.Changes.{Change, kept, closed, sent, answered}

pub length-keep_last {ℓ} : {A : Type ℓ} (m : ℕ) (xs : List A) → length (keep_last m xs) ≤ m
unfolding keep_last
length-keep_last m [] = omega arith
length-keep_last m (x ∷ xs) = ground (arith, length-keep_last m xs)

-- Events that are valid from a sequence are valid from an earlier one.
pub validate_events-weaken :
    (id : String) (n p q : ℕ) (es : List WaitEvent)
    → p ≤ q
    → validate_events id n q es ≡ true
    → validate_events id n p es ≡ true
unfolding validate_events
validate_events-weaken id n p q [] le h = refl
validate_events-weaken id n p q (e ∷ es) le h = ground arith

pub validate_events-keep_last :
    (id : String) (n p m : ℕ) (es : List WaitEvent)
    → validate_events id n p es ≡ true
    → validate_events id n p (keep_last m es) ≡ true
unfolding keep_last validate_events
validate_events-keep_last id n p m [] h = refl
validate_events-keep_last id n p m (e ∷ es) h = elim (Bool-cases (ltb m (length (e ∷ es)))) [
  | inl long ↦ rw long (
      validate_events-keep_last id n p m es
        (validate_events-weaken id n p e.sequence es (ground (arith, h)) (ground (arith, h))))
  | inr short ↦ rw short h
]

-- An event of the next sequence.
pub validate_events-append :
    (id : String) (n p : ℕ) (es : List WaitEvent) (e : WaitEvent)
    → p < n
    → e.sequence ≡ n
    → str_eq e.wait_id id ≡ true
    → validate_events id n p es ≡ true
    → validate_events id (n + 1) p (es ++ (e ∷ [])) ≡ true
unfolding validate_events
validate_events-append id n p [] e lt s w h = ground arith
validate_events-append id n p (f ∷ es) e lt s w h =
    let g =
      validate_events-append id n f.sequence es e (ground (arith, h)) s w (ground (arith, h)) in
    ground (arith, h, g)

pub record IsShaped (l : WaitServiceLimits) (r : WaitRecord) : Type 0 where
  pub named : is_wait_id r.id ≡ true
  pub asked : validate_input l r.terms ≡ true
  pub numbered : 0 < r.next_sequence
  pub few_events : length r.events ≤ l.max_events_per_wait
  pub few_evidence : length r.evidence ≤ l.max_evidence_entries
  pub ordered : validate_events r.id r.next_sequence 0 r.events ≡ true
  pub allowed : dispatch_allowed r.reconciliation ≡ true

pub both : {a b : Bool} → a ≡ true → b ≡ true → (a && b) ≡ true
both h g = ground arith

pub parts : {a b : Bool} → (a && b) ≡ true → (a ≡ true) × (b ≡ true)
parts h = ground arith

pub shape_parts :
    (l : WaitServiceLimits) (r : WaitRecord) → validate_shape l r ≡ true → IsShaped l r
unfolding validate_shape
shape_parts l r h =
    let (h1, allowed) = parts h in
    let (h2, ordered) = parts h1 in
    let (h3, few_evidence) = parts h2 in
    let (h4, few_events) = parts h3 in
    let (h5, numbered) = parts h4 in
    let (named, asked) = parts h5 in
    record {
      named = named;
      asked = asked;
      numbered = ltb→lt _ _ numbered;
      few_events = leb→le _ _ few_events;
      few_evidence = leb→le _ _ few_evidence;
      ordered = ordered;
      allowed = allowed;
    }

pub shape_whole :
    (l : WaitServiceLimits) (r : WaitRecord) → IsShaped l r → validate_shape l r ≡ true
unfolding validate_shape
shape_whole l r i =
    both
      (both
        (both (both (both (both i.named i.asked) (lt→ltb _ _ i.numbered)) (le→leb _ _ i.few_events))
          (le→leb _ _ i.few_evidence))
        i.ordered)
      i.allowed

pub append-IsShaped :
    (l : WaitServiceLimits) (c : WaitLifecycle) (now : ℕ) (e : Option WaitEvidenceCode)
    (r : WaitRecord)
    → IsShaped l r
    → IsShaped l (append l c now e r)
unfolding append
append-IsShaped l c now e r i = record {
  named = i.named;
  asked = i.asked;
  numbered = omega (arith, i.numbered);
  few_events = length-keep_last l.max_events_per_wait _;
  few_evidence = length-keep_last l.max_evidence_entries _;
  ordered = validate_events-keep_last r.id (r.next_sequence + 1) 0 l.max_events_per_wait _ (
      validate_events-append r.id r.next_sequence 0 r.events (event_of r c now (evidence_of e now))
        i.numbered refl (eq_refl r.id) i.ordered);
  allowed = i.allowed;
}

pub initial-IsShaped :
    (l : WaitServiceLimits) (id : String) (now : ℕ) (terms : WaitTerms)
    → validate_input l terms ≡ true
    → is_wait_id id ≡ true
    → IsShaped l (initial id now terms)
unfolding validate_events dispatch_allowed
initial-IsShaped l id now terms h g = record {
  named = g;
  asked = h;
  numbered = omega arith;
  few_events = omega arith;
  few_evidence = omega arith;
  ordered = refl;
  allowed = refl;
}

-- The ids of operations are safe, as those that the runtime draws.
abbrev pub Drawn : WaitCall → Type 0
Drawn (begin_wait id op now) = is_safe_id op ≡ true
Drawn _ = Unit

pub observe-IsShaped :
    (k : WaitService) (o : WaitObservation) (now : ℕ) (r : WaitRecord)
    → IsShaped k.limits r
    → IsShaped k.limits (observe k o now r)
unfolding observe
observe-IsShaped k o now r i =
    if_rule (IsShaped k.limits) (is_pending o.lifecycle) r _ (λ p. i)
      (λ p. append-IsShaped k.limits o.lifecycle now o.evidence r i)

pub dispatch-IsShaped :
    (l : WaitServiceLimits) (now : ℕ) (r : WaitRecord) (d : Option Dispatch)
    → dispatch_allowed d ≡ true
    → IsShaped l r
    → IsShaped l (record r { updated_at = now; reconciliation = d })
dispatch-IsShaped l now r d h i = record {
  named = i.named;
  asked = i.asked;
  numbered = i.numbered;
  few_events = i.few_events;
  few_evidence = i.few_evidence;
  ordered = i.ordered;
  allowed = h;
}

pub change-IsShaped :
    (k : WaitService) (c : WaitCall) (r r2 : WaitRecord)
    → Drawn c
    → Change k c r r2
    → IsShaped k.limits r
    → IsShaped k.limits r2
unfolding dispatch_allowed
change-IsShaped k _ _ _ d (kept c r) i = i
change-IsShaped k _ _ _ d (closed c r l e now p q) i = append-IsShaped k.limits l now (some e) r i
change-IsShaped k _ _ _ d (sent id op now r p q) i = dispatch-IsShaped k.limits now r (some _) d i
change-IsShaped k _ _ _ d (answered id op o now r p q) i =
    observe-IsShaped k o now _ (dispatch-IsShaped k.limits now r none refl i)

pub observe-id :
    (k : WaitService) (o : WaitObservation) (now : ℕ) (r : WaitRecord)
    → (observe k o now r).id ≡ r.id
unfolding observe append
observe-id k o now r =
    if_rule (λ (x : WaitRecord). x.id ≡ r.id) (is_pending o.lifecycle) _ _ (λ p. refl) (λ p. refl)

pub change-id :
    (k : WaitService) (c : WaitCall) (r r2 : WaitRecord) → Change k c r r2 → r2.id ≡ r.id
unfolding append
change-id k _ _ _ (kept c r) = refl
change-id k _ _ _ (closed c r l e now p q) = refl
change-id k _ _ _ (sent id op now r p q) = refl
change-id k _ _ _ (answered id op o now r p q) = observe-id k o now _
