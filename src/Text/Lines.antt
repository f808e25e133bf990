-- ===== src/Text/Lines.antt =====
-- `str::lines`: the text is cut at each `\n`; a `\r` before the `\n` goes too, and a last line needs
-- no `\n`.
use mathlib.Core.List.{append-nil, append_assoc}
use hubert_rust.Base.{◌≡◌, ◌≢◌, refl, true, false, List, [], ◌∷◌, ◌++◌, arith, ◌==◌, if◌then◌else◌}
use hubert_rust.Base.Lists.{Bytes}
use hubert_rust.Text.Graphic.{AllGraphic}

strip_cr : Bytes → Bytes
strip_cr [] = []
strip_cr (c ∷ []) = if c == b'\r' then [] else c ∷ []
strip_cr (c ∷ d ∷ s) = c ∷ strip_cr (d ∷ s)

last_line : Bytes → List Bytes
last_line [] = []
last_line (c ∷ s) = (c ∷ s) ∷ []

lines_from : Bytes → Bytes → List Bytes
lines_from line [] = last_line line
lines_from line (c ∷ s) = elim (c == b'\n') [
  | true ↦ strip_cr line ∷ lines_from [] s
  | false ↦ lines_from (line ++ (c ∷ [])) s
]

unfoldable pub lines : Bytes → List Bytes
unfolding lines_from last_line strip_cr
lines s = lines_from [] s

strip_cr-AllGraphic : (s : Bytes) → AllGraphic s → strip_cr s ≡ s
unfolding strip_cr
strip_cr-AllGraphic [] h = refl
strip_cr-AllGraphic (c ∷ []) h = ground arith
strip_cr-AllGraphic (c ∷ d ∷ s) h = ground (arith, strip_cr-AllGraphic (d ∷ s) h.1)

lines_from-newline :
    (line a rest : Bytes)
    → AllGraphic a
    → lines_from line (a ++ (b'\n' ∷ rest)) ≡ strip_cr (line ++ a) ∷ lines_from [] rest
unfolding lines_from
lines_from-newline line [] rest h = rw append-nil
lines_from-newline line (c ∷ a) rest h =
    ground (arith, lines_from-newline (line ++ (c ∷ [])) a rest h.1, append_assoc line (c ∷ []) a)

lines_from-last : (line a : Bytes) → AllGraphic a → lines_from line a ≡ last_line (line ++ a)
unfolding lines_from
lines_from-last line [] h = rw append-nil
lines_from-last line (c ∷ a) h =
    ground (arith, lines_from-last (line ++ (c ∷ [])) a h.1, append_assoc line (c ∷ []) a)

pub lines-append : (a rest : Bytes) → AllGraphic a → lines (a ++ (b'\n' ∷ rest)) ≡ a ∷ lines rest
lines-append a rest h =
    unfold lines in (rw (lines_from-newline [] a rest h, strip_cr-AllGraphic a h) refl)

pub lines_one : (a : Bytes) → AllGraphic a → a ≢ [] → lines a ≡ a ∷ []
unfolding lines
lines_one [] h ne = absurd (ne refl)
lines_one (c ∷ a) h ne = lines_from-last [] (c ∷ a) h
