-- ===== src/Base/Poll.antt =====
-- Polling: one pass of a loop either ends it or waits and tries again. While the loop sleeps the
-- rest of the world goes on, which a function of the state stands for.
use hubert_rust.Base.{
  ltb, Bool-cases, inl, inr, ◌≤◌, ℕ, zero, suc, ◌<◌, ◌≡◌, refl, ◌∙◌, sym, Option, none, some, arith,
}

pub data Pass (S R : Type 0) : Type 0 where
  done : R → S → Pass S R
  again : S → Pass S R

-- The state after some sleeps, where the passes between them change nothing.
abbrev pub slept : {S : Type 0} → (S → S) → ℕ → S → S
slept sleep zero s = s
slept sleep (suc n) s = sleep (slept sleep n s)

module _ {S R : Type 0} (pass : S → Pass S R) (sleep : S → S) where
  -- `none`: the fuel, which counts passes, ran out.
  unfoldable pub poll : ℕ → S → Option (R × S)
  poll zero s = none
  poll (suc fuel) s = elim (pass s) [ done r s' ↦ some (r, s') | again s' ↦ poll fuel (sleep s') ]

  -- A first pass that ends the loop is the whole loop.
  pub poll_done :
      (fuel : ℕ) (s : S) {r : R} {s' : S} → pass s ≡ done r s' → poll (suc fuel) s ≡ some (r, s')
  unfolding poll
  poll_done fuel s h = rw (h, poll) refl

  -- A pass that goes on leaves the loop to the state after the sleep.
  pub poll_again :
      (fuel : ℕ) (s : S) {s' : S} → pass s ≡ again s' → poll (suc fuel) s ≡ poll fuel (sleep s')
  unfolding poll
  poll_again fuel s h = rw (h, poll) refl

  -- The loop ends when a number falls with each pass that goes on.
  pub poll_total :
      (measure : S → ℕ)
      → ((s s' : S) → pass s ≡ again s' → measure (sleep s') < measure s)
      → (fuel : ℕ) (s : S) → measure s < fuel
      → (r : R) × (s' : S) × (poll fuel s ≡ some (r, s'))
  poll_total measure falls zero s h = absurd (omega arith)
  poll_total measure falls (suc fuel) s h =
      go (pass s) refl
        (λ s' e. poll_total measure falls fuel (sleep s') (omega (arith, falls s s' e)))
    where
      go :
          (p : Pass S R)
          → pass s ≡ p
          → ((s' : S)
              → pass s ≡ again s'
              → (r : R) × (t : S) × (poll fuel (sleep s') ≡ some (r, t)))
          → (r : R) × (t : S) × (poll (suc fuel) s ≡ some (r, t))
      go (done r s') e later = (r, s', poll_done fuel s e)
      go (again s') e later = let (r, t, q) = later s' e in (r, t, poll_again fuel s e ∙ q)

  -- The loop that ended did so in some pass.
  pub poll_ends :
      (fuel : ℕ) (s : S) (r : R) (s' : S)
      → poll fuel s ≡ some (r, s')
      → (t : S) × (pass t ≡ done r s')
  unfolding poll
  poll_ends zero s r s' h = cc
  poll_ends (suc fuel) s r s' h = go (pass s) refl (λ t. poll_ends fuel (sleep t) r s')
    where
      go :
          (p : Pass S R)
          → pass s ≡ p
          → ((t : S) → poll fuel (sleep t) ≡ some (r, s') → (u : S) × (pass u ≡ done r s'))
          → (u : S) × (pass u ≡ done r s')
      go (done r' t) e later =
          let q : ◌≡◌ {A = Option (R × S)} (some (r', t)) (some (r, s')) =
            sym (poll_done fuel s e) ∙ h in
          (s, cc)
      go (again t) e later = later t (sym (poll_again fuel s e) ∙ h)

  -- What each pass and each sleep keeps, the loop keeps.
  pub poll_keeps :
      (P : S → Type 0)
      → ((s s' : S) (r : R) → P s → pass s ≡ done r s' → P s')
      → ((s s' : S) → P s → pass s ≡ again s' → P (sleep s'))
      → (fuel : ℕ) (s : S) (r : R) (s' : S) → P s
      → poll fuel s ≡ some (r, s')
      → P s'
  unfolding poll
  poll_keeps P ends goes zero s r s' p h = cc
  poll_keeps P ends goes (suc fuel) s r s' p h =
      go (pass s) refl (λ t q. poll_keeps P ends goes fuel (sleep t) r s' q)
    where
      go :
          (q : Pass S R)
          → pass s ≡ q
          → ((t : S) → P (sleep t) → poll fuel (sleep t) ≡ some (r, s') → P s')
          → P s'
      go (done r' t) e later =
          let q : ◌≡◌ {A = Option (R × S)} (some (r', t)) (some (r, s')) =
            sym (poll_done fuel s e) ∙ h in
          let same : t ≡ s' = cc in rw same at (ends s t r' p e)
      go (again t) e later = later t (goes s t p e) (sym (poll_again fuel s e) ∙ h)

  -- A loop that waits for a time: each pass before it goes on, and each from then on ends with `r`.
  pub poll_waits :
      (r : R) (time : S → ℕ) (T : ℕ) (measure : S → ℕ) (s : S)
      → ((n : ℕ) → time (slept sleep n s) < T → pass (slept sleep n s) ≡ again (slept sleep n s))
      → ((n : ℕ) → T ≤ time (slept sleep n s) → pass (slept sleep n s) ≡ done r (slept sleep n s))
      → ((n : ℕ)
          → time (slept sleep n s) < T
          → measure (slept sleep (suc n) s) < measure (slept sleep n s))
      → (fuel n : ℕ) → measure (slept sleep n s) < fuel
      → (m : ℕ) × (poll fuel (slept sleep n s) ≡ some (r, slept sleep m s))
        × (T ≤ time (slept sleep m s))
  poll_waits r time T measure s early late falls zero n enough = absurd (omega arith)
  poll_waits r time T measure s early late falls (suc fuel) n enough =
      elim (Bool-cases (ltb (time (slept sleep n s)) T)) [
        | inl before ↦
            let soon : time (slept sleep n s) < T = ground arith in
            let (m, q, after) =
              poll_waits r time T measure s early late falls fuel (suc n)
                (omega (arith, falls n soon)) in
            (m, poll_again fuel (slept sleep n s) (early n soon) ∙ q, after)
        | inr after ↦
            let there : T ≤ time (slept sleep n s) = ground arith in
            (n, poll_done fuel (slept sleep n s) (late n there), there)
      ]
