-- ===== src/Text/Search.antt =====
-- `str::strip_prefix` and `str::contains`.
use hubert_rust.Base.{
  ◌≡◌, refl, Bool, true, false, ◌||◌, Option, none, some, [], ◌∷◌, ◌++◌, arith, ◌==◌, if◌then◌else◌,
}
use hubert_rust.Base.Lists.{Bytes}

unfoldable pub strip_prefix : Bytes → Bytes → Option Bytes
strip_prefix [] s = some s
strip_prefix (p ∷ prefix) [] = none
strip_prefix (p ∷ prefix) (c ∷ s) = if p == c then strip_prefix prefix s else none

is_some : Option Bytes → Bool
is_some none = false
is_some (some _) = true

unfoldable pub contains : Bytes → Bytes → Bool
unfolding strip_prefix is_some
contains pattern [] = is_some (strip_prefix pattern [])
contains pattern (c ∷ s) = is_some (strip_prefix pattern (c ∷ s)) || contains pattern s

pub strip_prefix-append : (prefix s : Bytes) → strip_prefix prefix (prefix ++ s) ≡ some s
unfolding strip_prefix
strip_prefix-append [] s = refl
strip_prefix-append (p ∷ prefix) s = ground (arith, strip_prefix-append prefix s)
