-- ===== src/Text/Trim.antt =====
-- `str::trim`: white space (Unicode `White_Space`, read off its UTF-8 bytes) goes at both ends.
use mathlib.Core.List.{reverse, reverse-reverse, reverse-append}
use hubert_rust.Base.{
  ℕ, zero, suc, ◌≡◌, refl, Bool, ◌&&◌, ◌||◌, [], ◌∷◌, arith, leb, ◌==◌, if◌then◌else◌,
}
use hubert_rust.Base.Lists.{Bytes, All-append, get_or}
use hubert_rust.Text.Graphic.{IsGraphic, AllGraphic}

-- U+0009 to U+000D and U+0020
abbrev one_byte : ℕ → Bool
one_byte a = (leb 0x09 a && leb a 0x0D) || a == 0x20

-- U+0085 and U+00A0
abbrev two_bytes : ℕ → ℕ → Bool
two_bytes a b = a == 0xC2 && (b == 0x85 || b == 0xA0)

-- U+1680, U+2000 to U+200A, U+2028, U+2029, U+202F, U+205F and U+3000
abbrev three_bytes : ℕ → ℕ → ℕ → Bool
three_bytes a b c =
    (a == 0xE1 && b == 0x9A && c == 0x80)
    || (a == 0xE2 && b == 0x80 && (leb 0x80 c && leb c 0x8A || c == 0xA8 || c == 0xA9 || c == 0xAF))
    || (a == 0xE2 && b == 0x81 && c == 0x9F)
    || (a == 0xE3 && b == 0x80 && c == 0x80)

-- How many bytes the white space at the front takes, or at the back of a reversed text.
front_width : ℕ → Bytes → ℕ
front_width a s =
    if one_byte a
    then 1
    else if two_bytes a (get_or s 0 0)
    then 2
    else if three_bytes a (get_or s 0 0) (get_or s 1 0)
    then 3
    else 0

back_width : ℕ → Bytes → ℕ
back_width a s =
    if one_byte a
    then 1
    else if two_bytes (get_or s 0 0) a
    then 2
    else if three_bytes (get_or s 1 0) (get_or s 0 0) a
    then 3
    else 0

-- The first argument counts the bytes of a white space that are still to be dropped.
trim_by : (ℕ → Bytes → ℕ) → ℕ → Bytes → Bytes
trim_by width skip [] = []
trim_by width (suc skip) (a ∷ s) = trim_by width skip s
trim_by width zero (a ∷ s) = elim (width a s) [ zero ↦ a ∷ s | suc skip ↦ trim_by width skip s ]

unfoldable pub trim : Bytes → Bytes
unfolding trim_by front_width back_width
trim s = reverse (trim_by back_width 0 (reverse (trim_by front_width 0 s)))

trim_by-front : (s : Bytes) → AllGraphic s → trim_by front_width 0 s ≡ s
unfolding trim_by front_width
trim_by-front [] h = refl
trim_by-front (a ∷ s) h = ground arith

back_width_graphic : (a : ℕ) (s : Bytes) → IsGraphic a → back_width a s ≡ 0
unfolding back_width
back_width_graphic a s h = ground arith

trim_by-back : (s : Bytes) → AllGraphic s → trim_by back_width 0 s ≡ s
unfolding trim_by
trim_by-back [] h = refl
trim_by-back (a ∷ s) h = rw (back_width_graphic a s h.0, trim_by) refl

AllGraphic-reverse : (s : Bytes) → AllGraphic s → AllGraphic (reverse s)
AllGraphic-reverse [] h = tt
AllGraphic-reverse (a ∷ s) h =
    rw (reverse-append (a ∷ []) s)
      (All-append IsGraphic (reverse s) (a ∷ []) (AllGraphic-reverse s h.1) (h.0, tt))

pub trim_graphic : (s : Bytes) → AllGraphic s → trim s ≡ s
trim_graphic s h =
    unfold trim in
    (rw (trim_by-front s h, trim_by-back (reverse s) (AllGraphic-reverse s h)) (reverse-reverse s))
