-- ===== src/KvStore/WriteOnce.antt =====
-- The promise of kv_store.rs that a store is written once.
use hubert_rust.Base.{ℕ, ◌≡◌, ◌≤◌, Bool, true, Option, none, some}
use hubert_rust.Base.Io.{Result, ok, err}
use hubert_rust.Text.Decimal.{max_u64}
use hubert_rust.Error.{Error}
use hubert_rust.Gordian.{Gordian}
use hubert_rust.KvStore.{KvStore}

-- A time to live is a `u64`.
abbrev pub IsTtl : Option ℕ → Type 0
IsTtl none = Unit {0}
IsTtl (some ttl) = ttl ≤ max_u64

-- Every state.
abbrev pub Always : {A : Type 0} → A → Type 0
Always _ = Unit {0}

-- In the states that the operations keep within `Valid`: where an envelope was read or `exists` said
-- yes, a `put` is refused.
pub record IsWriteOnce {G : Gordian} (S : KvStore G) (Valid : S.State → Type 0) : Type 0 where
  pub put_keeps :
      (k : G.Arid) (e : G.Envelope) (ttl : Option ℕ) (s : S.State)
      → Valid s
      → Valid (S.put k e ttl s).1
  pub get_keeps :
      (fuel : ℕ) (k : G.Arid) (timeout : Option ℕ) (s s' : S.State)
      (r : Result (Option G.Envelope) Error)
      → Valid s
      → S.get fuel k timeout s ≡ some (r, s')
      → Valid s'
  pub exists_keeps :
      (fuel : ℕ) (k : G.Arid) (s s' : S.State) (r : Result Bool Error)
      → Valid s
      → S.exists fuel k s ≡ some (r, s')
      → Valid s'
  pub read :
      (fuel : ℕ) (k : G.Arid) (timeout : Option ℕ) (s s' : S.State) (e : G.Envelope)
      → Valid s
      → S.get fuel k timeout s ≡ some (ok (some e), s')
      → (e' : G.Envelope) (ttl : Option ℕ) → IsTtl ttl
      → (error : Error) × ((S.put k e' ttl s').0 ≡ err error)
  pub checked :
      (fuel : ℕ) (k : G.Arid) (s s' : S.State)
      → Valid s
      → S.exists fuel k s ≡ some (ok true, s')
      → (e : G.Envelope) (ttl : Option ℕ) → IsTtl ttl
      → (error : Error) × ((S.put k e ttl s').0 ≡ err error)
