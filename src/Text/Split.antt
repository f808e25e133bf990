-- ===== src/Text/Split.antt =====
-- `s.split(pattern).nth(1)`: what stands between the first and the second `pattern`, or after the
-- first.
use hubert_rust.Base.{Option, none, some, [], ◌∷◌}
use hubert_rust.Base.Lists.{Bytes}
use hubert_rust.Text.Search.{strip_prefix}

-- What follows the first `pattern`.
unfoldable pub after : Bytes → Bytes → Option Bytes
unfolding strip_prefix
after pattern [] = strip_prefix pattern []
after pattern (c ∷ s) = elim (strip_prefix pattern (c ∷ s)) [
  | some rest ↦ some rest
  | none ↦ after pattern s
]

-- What stands before the first `pattern`; all, if there is none.
unfoldable pub before : Bytes → Bytes → Bytes
unfolding strip_prefix
before pattern [] = []
before pattern (c ∷ s) = elim (strip_prefix pattern (c ∷ s)) [
  | some rest ↦ []
  | none ↦ c ∷ before pattern s
]

unfoldable pub nth1 : Bytes → Bytes → Option Bytes
unfolding after before
nth1 pattern s = elim (after pattern s) [ none ↦ none | some rest ↦ some (before pattern rest) ]
