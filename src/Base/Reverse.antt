-- ===== src/Base/Reverse.antt =====
-- The elements of a list that is reversed, or taken from, by their places.
use Prim.Native.Nat.{ℕ, zero, suc, ◌+◌, ◌<◌}
use mathlib.Core.Path.{◌≡◌, refl, ap}
use mathlib.Core.List.{List, [], ◌∷◌, reverse, reverse_aux}
use native.Mathlib.Omega.{arith}
use hubert_rust.Base.Lists.{length, get_or, take}

module _ {ℓ} {A : Type ℓ} (d : A) where
  length-reverse_aux : (l r : List A) → length (reverse_aux l r) ≡ length l + length r
  length-reverse_aux [] r = omega arith
  length-reverse_aux (x ∷ l) r = omega (arith, length-reverse_aux l (x ∷ r))

  pub length-reverse : (l : List A) → length (reverse l) ≡ length l
  length-reverse l = omega (arith, length-reverse_aux l [])

  -- Behind the reversed list stands what it was put before.
  reverse_aux_past :
      (l r : List A) (i n : ℕ) → n ≡ length l + i → get_or (reverse_aux l r) n d ≡ get_or r i d
  reverse_aux_past [] r i n h = ap (λ m. get_or r m d) (omega arith)
  reverse_aux_past (x ∷ l) r i n h = reverse_aux_past l (x ∷ r) (suc i) n (omega arith)

  get_or-reverse_aux :
      (l r : List A) (i j : ℕ) → i + j + 1 ≡ length l → get_or (reverse_aux l r) i d ≡ get_or l j d
  get_or-reverse_aux [] r i j h = absurd (omega arith)
  get_or-reverse_aux (x ∷ l) r i zero h = reverse_aux_past l (x ∷ r) zero i (omega arith)
  get_or-reverse_aux (x ∷ l) r i (suc j) h = get_or-reverse_aux l (x ∷ r) i j (omega arith)

  -- The element at a place of the reversed list stands as far from the end of the list.
  pub get_or-reverse :
      (l : List A) (i j : ℕ) → i + j + 1 ≡ length l → get_or (reverse l) i d ≡ get_or l j d
  get_or-reverse l = get_or-reverse_aux l []

  pub get_or-take : (n : ℕ) (l : List A) (i : ℕ) → i < n → get_or (take n l) i d ≡ get_or l i d
  get_or-take zero l i h = absurd (omega arith)
  get_or-take (suc n) [] i h = refl
  get_or-take (suc n) (x ∷ l) zero h = refl
  get_or-take (suc n) (x ∷ l) (suc i) h = get_or-take n l i (omega arith)
