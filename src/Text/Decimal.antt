-- ===== src/Text/Decimal.antt =====
-- `u64`: `to_string`, and `str::parse::<u64>()` with its optional `+` and its overflow error.
use hubert_rust.Base.{
  ℕ, zero, suc, ◌+◌, ◌-◌, ◌*◌, ◌/◌, ◌%◌, ◌^◌, ◌≤◌, ◌<◌, ◌≡◌, ◌≢◌, refl, ◌&&◌, Option, none, some,
  [], ◌∷◌, arith, ltb, leb, ◌==◌, if◌then◌else◌,
}
use hubert_rust.Base.Lists.{Bytes}
use hubert_rust.Text.Graphic.{AllGraphic}

abbrev pub max_u64 : ℕ
max_u64 = 2 ^ 64 - 1

-- The digits of `n` before `out`; a number below the fuel is printed whole.
digits : ℕ → ℕ → Bytes → Bytes
digits zero n out = out
digits (suc fuel) n out =
    let more = digits fuel (n / 10) ((b'0' + n % 10) ∷ out) in
    if ltb n 10 then (b'0' + n) ∷ out else more

unfoldable pub decimal : ℕ → Bytes
unfolding digits
decimal n = digits (suc n) n []

scan : Bytes → ℕ → Option ℕ
scan [] n = some n
scan (c ∷ s) n =
    if leb b'0' c && leb c b'9' && leb (n * 10 + (c - b'0')) max_u64
    then scan s (n * 10 + (c - b'0'))
    else none

unfoldable pub parse_u64 : Bytes → Option ℕ
unfolding scan
parse_u64 [] = none
parse_u64 (c ∷ []) = scan (c ∷ []) 0
parse_u64 (c ∷ d ∷ s) = if c == b'+' then scan (d ∷ s) 0 else scan (c ∷ d ∷ s) 0

scan-digits :
    (fuel n : ℕ) (out : Bytes) → n < fuel → n ≤ max_u64 → scan (digits fuel n out) 0 ≡ scan out n
unfolding scan digits
scan-digits zero n out h fits = absurd (omega arith)
scan-digits (suc fuel) n out h fits =
    ground (arith, scan-digits fuel (n / 10) ((b'0' + n % 10) ∷ out))

digits-AllGraphic : (fuel n : ℕ) (out : Bytes) → AllGraphic out → AllGraphic (digits fuel n out)
unfolding digits
digits-AllGraphic zero n out h = h
digits-AllGraphic (suc fuel) n out h =
    ground (arith, digits-AllGraphic fuel (n / 10) ((b'0' + n % 10) ∷ out))

pub decimal-AllGraphic : (n : ℕ) → AllGraphic (decimal n)
unfolding decimal
decimal-AllGraphic n = digits-AllGraphic (suc n) n [] tt

-- What `digits` prints begins with a digit, or is what was there.
abbrev BeginsWithDigit : Bytes → Type 0
BeginsWithDigit [] = ⊥
BeginsWithDigit (c ∷ s) = (b'0' ≤ c) × (c ≤ b'9')

digits-begins :
    (fuel n : ℕ) (out : Bytes) → BeginsWithDigit out → BeginsWithDigit (digits fuel n out)
unfolding digits
digits-begins zero n out h = h
digits-begins (suc fuel) n out h =
    ground (arith, digits-begins fuel (n / 10) ((b'0' + n % 10) ∷ out))

decimal-begins : (n : ℕ) → BeginsWithDigit (decimal n)
unfolding decimal digits
decimal-begins n = ground (arith, digits-begins n (n / 10) ((b'0' + n % 10) ∷ []))

pub decimal-ne-nil : (n : ℕ) → decimal n ≢ []
decimal-ne-nil n e = rw e at (decimal-begins n)

parse_u64-scan : (s : Bytes) → BeginsWithDigit s → parse_u64 s ≡ scan s 0
unfolding parse_u64
parse_u64-scan [] h = absurd h
parse_u64-scan (c ∷ []) h = refl
parse_u64-scan (c ∷ d ∷ s) h = ground arith

-- Every `u64` is read back from its decimal print.
pub parse_u64-decimal : (n : ℕ) → n ≤ max_u64 → parse_u64 (decimal n) ≡ some n
parse_u64-decimal n fits =
    rw (parse_u64-scan (decimal n) (decimal-begins n))
      (unfold decimal scan in scan-digits (suc n) n [] (omega arith) fits)
