-- ===== src/Lease/Slug.antt =====
-- What an accepted project key looks like.
use ad_coder.Prelude.{ℕ, ◌≤◌, ◌<◌, ◌≡◌, refl, true, false, List, [], ◌∷◌, all, length, arith}
use ad_coder.Lease.{
  slug_char, is_slug, contains, contains_dots, is_traversal, same_text, validate_codes, ok, git,
  ad_coder_key,
}

slug_lacks :
    (c : ℕ) (s : List ℕ) → slug_char c ≡ false → all slug_char s ≡ true → contains c s ≡ false
slug_lacks c [] h a = refl
slug_lacks c (d ∷ s) h a = ground (arith, slug_lacks c s)

slug_dotless : (s : List ℕ) → all slug_char s ≡ true → contains_dots s ≡ false
unfolding slug_char
slug_dotless [] a = refl
slug_dotless (d ∷ s) a = ground (arith, slug_dotless s)

slug_all : (s : List ℕ) → is_slug s ≡ true → all slug_char s ≡ true
unfolding is_slug
slug_all [] h = refl
slug_all (c ∷ s) h = ground arith

slug_straight : (s : List ℕ) → all slug_char s ≡ true → is_traversal s ≡ false
unfolding is_traversal slug_char
slug_straight s a = rw (slug_lacks b'/' s refl a, slug_lacks b'\\' s refl a, slug_dotless s a) refl

accepted :
    (s : List ℕ)
    → validate_codes s ≡ ok tt
    → (0 < length s)
      × (length s ≤ 63)
      × (is_slug s ≡ true)
      × (same_text s git ≡ false)
      × (same_text s ad_coder_key ≡ false)
unfolding validate_codes
accepted s h = ground arith

-- A text that is accepted as a project key has from 1 to 63 characters, contains no path separator
-- and no two dots in a row, and is none of the reserved names.
pub validate_codes_safe :
    (s : List ℕ)
    → validate_codes s ≡ ok tt
    → (0 < length s)
      × (length s ≤ 63)
      × (is_traversal s ≡ false)
      × (same_text s git ≡ false)
      × (same_text s ad_coder_key ≡ false)
validate_codes_safe s h =
    let (a, b, c, d, e) = accepted s h in (a, b, slug_straight s (slug_all s c), d, e)
