-- ===== src/Admission/Keys.antt =====
-- src/provider-admission.ts, `assertScopeLabel` and `admissionScopeKey`. The digest of
-- `crypto.createHash("sha256")` is a parameter; texts are lists of code points.
use ad_coder.Prelude.{
  within, ℕ, ◌==◌, String, Bool, ◌&&◌, ◌||◌, Option, none, some, List, [], ◌∷◌, ◌++◌, if◌then◌else◌,
  all, length,
}

-- The character class of `SCOPE_LABEL_PATTERN`.
unfoldable pub label_char : ℕ → Bool
label_char c =
    within b'A' b'Z' c
    || within b'a' b'z' c
    || within b'0' b'9' c
    || c == b'_'
    || c == b'.'
    || c == b'-'

unfoldable pub is_scope_label : List ℕ → Bool
unfolding label_char
is_scope_label s = within 1 64 (length s) && all label_char s

pub data Key : Type 0 where
  key : String → Key
  bad_provider : Key
  bad_label : Key

abbrev text_or_empty : Option (List ℕ) → List ℕ
text_or_empty none = []
text_or_empty (some s) = s

abbrev pub newline : ℕ
newline = 10

-- The text that is digested: the three parts, a newline between them.
unfoldable pub key_text : List ℕ → List ℕ → List ℕ → List ℕ
key_text provider label part = provider ++ (newline ∷ (label ++ (newline ∷ part)))

module _ (sha256 : List ℕ → String) where
  unfoldable pub admission_scope_key : List ℕ → List ℕ → Option (List ℕ) → Key
  unfolding is_scope_label key_text
  admission_scope_key provider label partition =
      if length provider == 0
      then bad_provider
      else if is_scope_label label
      then key (sha256 (key_text provider label (text_or_empty partition)))
      else bad_label
