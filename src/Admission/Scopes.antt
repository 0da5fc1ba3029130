-- ===== src/Admission/Scopes.antt =====
-- src/provider-admission.ts, `admissionScopeKey`: which scopes share a digested text.
use ad_coder.Prelude.{ℕ, ◌≡◌, ◌==◌, refl, Bool, true, false, ◌||◌, List, [], ◌∷◌, ◌++◌, arith, all}
use ad_coder.Admission.Keys.{label_char, is_scope_label, key_text, newline}

abbrev pub has_newline : List ℕ → Bool
has_newline [] = false
has_newline (c ∷ s) = c == newline || has_newline s

-- The part before the first newline, and the part after it, are determined by the text.
split_newline :
    (a b s t : List ℕ)
    → has_newline a ≡ false
    → has_newline b ≡ false
    → a ++ (newline ∷ s) ≡ b ++ (newline ∷ t)
    → (a ≡ b) × (s ≡ t)
split_newline [] [] s t h k e = ground (arith, e)
split_newline [] (d ∷ b) s t h k e = ground (arith, e)
split_newline (c ∷ a) [] s t h k e = ground (arith, e)
split_newline (c ∷ a) (d ∷ b) s t h k e = ground (arith, e, split_newline a b s t)

label_plain : (s : List ℕ) → all label_char s ≡ true → has_newline s ≡ false
unfolding label_char
label_plain [] h = refl
label_plain (c ∷ s) h = ground (arith, label_plain s)

scope_label_plain : (s : List ℕ) → is_scope_label s ≡ true → has_newline s ≡ false
unfolding is_scope_label
scope_label_plain s h = label_plain s (ground arith)

-- Two calls with valid labels, of providers whose names have no newline, digest one text only if
-- they have the same provider, the same label and the same partition.
pub key_text-injective :
    (p l q r m s : List ℕ)
    → has_newline p ≡ false
    → has_newline r ≡ false
    → is_scope_label l ≡ true
    → is_scope_label m ≡ true
    → key_text p l q ≡ key_text r m s
    → (p ≡ r) × (l ≡ m) × (q ≡ s)
unfolding key_text
key_text-injective p l q r m s a b c d e =
    let (x, f) = split_newline p r _ _ a b e in
    let (y, z) = split_newline l m q s (scope_label_plain l c) (scope_label_plain m d) f in
    (x, y, z)
