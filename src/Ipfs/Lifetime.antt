-- ===== src/Ipfs/Lifetime.antt =====
-- The lifetime of an IPNS record (ipfs/kv.rs).
use hubert_rust.Base.{ℕ, ◌+◌, ◌*◌, ◌/◌, ◌≤◌, ◌<◌, ◌≡◌, refl, ◌++◌, arith, ltb, Bool-cases, inl, inr}
use hubert_rust.Base.Lists.{Bytes, text}
use hubert_rust.Text.Decimal.{decimal}
use hubert_rust.Ipfs.{lifetime}

-- The seconds of a unit of time.
pub data IsUnit : Bytes → ℕ → Type 0 where
  second : {s : Bytes} {n : ℕ} → s ≡ text "s" → n ≡ 1 → IsUnit s n
  minute : {s : Bytes} {n : ℕ} → s ≡ text "m" → n ≡ 60 → IsUnit s n
  hour : {s : Bytes} {n : ℕ} → s ≡ text "h" → n ≡ 3600 → IsUnit s n
  day : {s : Bytes} {n : ℕ} → s ≡ text "d" → n ≡ 86400 → IsUnit s n

-- `secs` seconds are printed as a number of seconds, minutes, hours or days, rounded down: less than
-- one unit is lost, and a time to live that is not 0 never becomes 0.
pub lifetime_bounds :
    (secs : ℕ)
    → (n : ℕ) × (letter : Bytes) × (unit : ℕ) × (lifetime secs ≡ decimal n ++ letter)
      × IsUnit letter unit
      × (n * unit ≤ secs)
      × (secs < n * unit + unit)
      × (1 ≤ secs → 1 ≤ n)
unfolding lifetime
lifetime_bounds secs = elim (Bool-cases (ltb secs 60)) [
  | inl s ↦ (secs, text "s", 1, rw s refl, second refl refl, omega arith, omega arith, λ h. h)
  | inr s ↦ elim (Bool-cases (ltb secs 3600)) [
    | inl m ↦ (
      secs / 60,
      text "m",
      60,
      rw (s, m) refl,
      minute refl refl,
      omega arith,
      omega arith,
      ground arith,
    )
    | inr m ↦ elim (Bool-cases (ltb secs 86400)) [
      | inl h ↦ (
        secs / 3600,
        text "h",
        3600,
        rw (s, m, h) refl,
        hour refl refl,
        omega arith,
        omega arith,
        ground arith,
      )
      | inr h ↦ (
        secs / 86400,
        text "d",
        86400,
        rw (s, m, h) refl,
        day refl refl,
        omega arith,
        omega arith,
        ground arith,
      )
    ]
  ]
]
