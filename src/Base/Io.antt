-- ===== src/Base/Io.antt =====
-- Rust's `Result`, operations that change a state and may fail.
use hubert_rust.Base.{◌≡◌, refl}

-- `Result<A, E>`
pub data Result (A E : Type 0) : Type 0 where
  ok : A → Result A E
  err : E → Result A E

abbrev pub map_err : {A E F : Type 0} → (E → F) → Result A E → Result A F
map_err f (ok a) = ok a
map_err f (err e) = err (f e)

abbrev pub map_ok : {A B E : Type 0} → (A → B) → Result A E → Result B E
map_ok f (ok a) = ok (f a)
map_ok f (err e) = err e

-- An operation on a state `S`: what it wrote before it failed stays written.
abbrev pub Io : Type 0 → Type 0 → Type 0 → Type 0
Io S E A = S → Result A E × S

abbrev pub pure : {S E A : Type 0} → A → Io S E A
pure a s = (ok a, s)

abbrev pub fail : {S E A : Type 0} → E → Io S E A
fail e s = (err e, s)

abbrev pub lift : {S E A : Type 0} → Result A E → Io S E A
lift r s = (r, s)

abbrev pub gets : {S E A : Type 0} → (S → A) → Io S E A
gets f s = (ok (f s), s)

abbrev continue : {S E A B : Type 0} → Result A E → (A → Io S E B) → Io S E B
continue (ok a) f s = f a s
continue (err e) f s = (err e, s)

-- `?`: an error ends the operation.
infixl 5 ◌>>=◌ ◌>>◌
abbrev pub ◌>>=◌ : {S E A B : Type 0} → Io S E A → (A → Io S E B) → Io S E B
◌>>=◌ m f s = let (r, s') = m s in continue r f s'

abbrev pub ◌>>◌ : {S E A B : Type 0} → Io S E A → Io S E B → Io S E B
m >> n = m >>= λ _. n

-- `?` over an error of a layer below, which `From` wraps.
abbrev pub wrap : {S E F A : Type 0} → (E → F) → Io S E A → Io S F A
wrap f m s = let (r, s') = m s in (map_err f r, s')

-- What a sequence that succeeded went through.
pub bind-ok :
    {S E A B : Type 0} (m : Io S E A) (f : A → Io S E B) (s : S) {b : B}
    → ((m >>= f) s).0 ≡ ok b
    → (a : A) × ((m s).0 ≡ ok a) × ((m >>= f) s ≡ f a (m s).1)
bind-ok {S} {E} {A} {B} m f s {b} h = go (m s).0 refl h
  where
    go :
        (r : Result A E)
        → (m s).0 ≡ r
        → (continue (m s).0 f (m s).1).0 ≡ ok b
        → (a : A) × ((m s).0 ≡ ok a) × (continue (m s).0 f (m s).1 ≡ f a (m s).1)
    go (ok a) e h = (a, e, rw e refl)
    go (err x) e h = cc (rw e at h)

-- The state after a sequence is that after its second part, or that after a first part that failed.
pub bind-after :
    {S E A B : Type 0} (P : S → Type 0) (m : Io S E A) (f : A → Io S E B) (s : S)
    → ((a : A) → (m s).0 ≡ ok a → P (f a (m s).1).1)
    → ((e : E) → (m s).0 ≡ err e → P (m s).1)
    → P ((m >>= f) s).1
bind-after {S} {E} {A} {B} P m f s went failed = go (m s).0 refl
  where
    go : (r : Result A E) → (m s).0 ≡ r → P (continue r f (m s).1).1
    go (ok a) e = went a e
    go (err x) e = failed x e

-- A sequence fails where its first part does, or where its second does after every success.
pub bind_fails :
    {S E A B : Type 0} (m : Io S E A) (f : A → Io S E B) (s : S)
    → ((a : A) → (m s).0 ≡ ok a → (e : E) × ((f a (m s).1).0 ≡ err e))
    → (e : E) × (((m >>= f) s).0 ≡ err e)
bind_fails {S} {E} {A} {B} m f s later = go (m s).0 refl
  where
    go : (r : Result A E) → (m s).0 ≡ r → (e : E) × ((continue r f (m s).1).0 ≡ err e)
    go (ok a) e = later a e
    go (err x) e = (x, refl)
