-- ===== src/Text/Colons.antt =====
-- Texts in which no colon stands before a slash contain no URL.
use hubert_rust.Base.{ℕ, ◌≡◌, refl, Bool, true, false, not, ◌&&◌, none, [], ◌∷◌, ◌==◌, arith}
use hubert_rust.Base.Lists.{Bytes, text}
use hubert_rust.Text.Search.{strip_prefix, contains}

-- The flag says that a colon stands before the text.
unfoldable pub has_no_url : Bool → Bytes → Bool
has_no_url colon [] = true
has_no_url colon (c ∷ s) = not (colon && (c == b'/')) && has_no_url (c == b':') s

-- `pattern` is not at the start of such a text.
abbrev IsForeign : Bytes → Type 0
IsForeign pattern =
    (colon : Bool) (s : Bytes) → has_no_url colon s ≡ true → strip_prefix pattern s ≡ none

slash_after_colon : (pattern : Bytes) → IsForeign (b':' ∷ b'/' ∷ pattern)
unfolding has_no_url strip_prefix
slash_after_colon pattern colon [] h = refl
slash_after_colon pattern colon (c ∷ []) h = ground arith
slash_after_colon pattern colon (c ∷ d ∷ s) h = ground arith

after_letter : (p : ℕ) (pattern : Bytes) → IsForeign pattern → IsForeign (p ∷ pattern)
unfolding has_no_url strip_prefix
after_letter p pattern foreign colon [] h = refl
after_letter p pattern foreign colon (c ∷ s) h = ground (arith, foreign (c == b':') s)

never_contained :
    (p : ℕ) (pattern : Bytes)
    → IsForeign (p ∷ pattern)
    → (colon : Bool) (s : Bytes) → has_no_url colon s ≡ true
    → contains (p ∷ pattern) s ≡ false
unfolding has_no_url contains strip_prefix
never_contained p pattern foreign colon [] h = refl
never_contained p pattern foreign colon (c ∷ s) h =
    ground (arith, foreign colon (c ∷ s) h, never_contained p pattern foreign (c == b':') s)

pub contains-has_no_url :
    (s : Bytes) → has_no_url false s ≡ true → contains (text "ipfs://") s ≡ false
contains-has_no_url s h =
    never_contained b'i' (text "pfs://")
      (after_letter b'i' (text "pfs://") (
        after_letter b'p' (text "fs://") (
          after_letter b'f' (text "s://")
            (after_letter b's' (text "://") (slash_after_colon (text "/"))))))
      false s h
