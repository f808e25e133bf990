-- ===== src/Text/Utf8.antt =====
-- `String::from_utf8`: whether bytes are well-formed UTF-8, by the table of the Unicode standard.
use hubert_rust.Base.{
  ℕ, zero, suc, ◌<◌, ◌≡◌, refl, Bool, true, false, ◌&&◌, Option, none, some, [], ◌∷◌, arith, ltb,
  leb, ◌==◌, if◌then◌else◌,
}
use hubert_rust.Base.Lists.{Bytes, All}

-- What must follow: the range of the next byte, and how many bytes come after that one.
record Want : Type 0 where
  low : ℕ
  high : ℕ
  more : ℕ

abbrev want : ℕ → ℕ → ℕ → Option Want
want low high more = some (record { low = low; high = high; more = more })

-- The first byte of a character of two, three or four bytes.
lead : ℕ → Option Want
lead b =
    if leb 0xC2 b && leb b 0xDF
    then want 0x80 0xBF 0
    else if b == 0xE0
    then want 0xA0 0xBF 1
    else if b == 0xED
    then want 0x80 0x9F 1
    else if leb 0xE1 b && leb b 0xEF
    then want 0x80 0xBF 1
    else if b == 0xF0
    then want 0x90 0xBF 2
    else if leb 0xF1 b && leb b 0xF3
    then want 0x80 0xBF 2
    else if b == 0xF4
    then want 0x80 0x8F 2
    else none

tail_want : ℕ → Option Want
tail_want zero = none
tail_want (suc more) = want 0x80 0xBF more

well_formed : Option Want → Bytes → Bool
well_formed none [] = true
well_formed (some w) [] = false
well_formed none (b ∷ s) = elim (ltb b 0x80) [
  | true ↦ well_formed none s
  | false ↦ elim (lead b) [ none ↦ false | some w ↦ well_formed (some w) s ]
]
well_formed (some w) (b ∷ s) = leb w.low b && leb b w.high && well_formed (tail_want w.more) s

unfoldable pub is_utf8 : Bytes → Bool
unfolding well_formed lead tail_want
is_utf8 s = well_formed none s

abbrev pub IsAscii : ℕ → Type 0
IsAscii c = c < 128

pub is_utf8_of_ascii : (s : Bytes) → All IsAscii s → is_utf8 s ≡ true
unfolding is_utf8
is_utf8_of_ascii [] h = refl
is_utf8_of_ascii (c ∷ s) h = ground (arith, is_utf8_of_ascii s h.1)
