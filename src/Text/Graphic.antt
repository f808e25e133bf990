-- ===== src/Text/Graphic.antt =====
-- The visible ASCII characters, of which UR strings and decimal numbers consist.
use hubert_rust.Base.{ℕ, ◌≤◌}
use hubert_rust.Base.Lists.{Bytes, All}

abbrev pub IsGraphic : ℕ → Type 0
IsGraphic c = (33 ≤ c) × (c ≤ 126)

abbrev pub AllGraphic : Bytes → Type 0
AllGraphic = All IsGraphic
