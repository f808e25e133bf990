-- ===== src/Ipfs/Reads.antt =====
-- What `get` and `exists` of `IpfsKv` (ipfs/kv.rs) have asked the daemon, and the state they leave.
use hubert_rust.Base.{
  ℕ, ◌+◌, ◌≡◌, refl, true, Option, none, some, List, arith, ◌⊎◌, inl, inr, Option-cases, sym, ◌∙◌,
}
use hubert_rust.Base.Lists.{Bytes}
use hubert_rust.Base.Io.{Result, ok, err}
use hubert_rust.Base.Poll.{done, poll_keeps, poll_ends}
use hubert_rust.Error.{Error}
use hubert_rust.Gordian.{Gordian}
use hubert_rust.AridDerivation.{Crypto, derive_ipfs_key_name}
use hubert_rust.Ipfs.Kubo.{Key, Daemon}
use hubert_rust.Ipfs.{
  IpfsKv, Session, find_key, get_impl, exists_impl, is_published, resolve_pass, after_resolve,
  fetch, ask, resolve_with_retry_timeout, resolve_timeout_of,
}
use hubert_rust.Ipfs.Polling.{resolve_pass-again, slept}

module _ (G : Gordian) (K : Crypto) (D : Daemon) where
  open G use {Arid, Envelope}

  abbrev pub Answer : Type 0
  Answer = Result (Option Envelope) Error

  -- From the content identifier on, the store only reads.
  after_resolve-same :
      (k : Arid) (r : Result (Option Bytes) Error) (s : Session G K D)
      → (after_resolve G K D k (r, s)).1 ≡ s
  unfolding after_resolve fetch ask
  after_resolve-same k (err e) s = refl
  after_resolve-same k (ok none) s = refl
  after_resolve-same k (ok (some cid)) s = ground arith

  -- An envelope comes from a content identifier only.
  after_resolve-found :
      (k : Arid) (r : Result (Option Bytes) Error) (s s' : Session G K D) (e : Envelope)
      → after_resolve G K D k (r, s) ≡ (ok (some e), s')
      → (cid : Bytes) × (r ≡ ok (some cid))
  unfolding after_resolve
  after_resolve-found k (err x) s s' e h = absurd (ground arith)
  after_resolve-found k (ok none) s s' e h = absurd (ground arith)
  after_resolve-found k (ok (some cid)) s s' e h = (cid, refl)

  resolve_pass-done :
      (peer_id : Bytes) (deadline : ℕ) (s s' : Session G K D) (r : Result (Option Bytes) Error)
      → resolve_pass G K D peer_id deadline s ≡ done r s'
      → s' ≡ s
  unfolding resolve_pass
  resolve_pass-done peer_id deadline s s' r h = ground arith

  resolve_pass-found :
      (peer_id : Bytes) (deadline : ℕ) (s s' : Session G K D) (cid : Bytes)
      → resolve_pass G K D peer_id deadline s ≡ done (ok (some cid)) s'
      → (path : Bytes) × (D.name_resolve peer_id s'.node ≡ ok path)
  unfolding resolve_pass
  resolve_pass-found peer_id deadline s s' cid h = go (D.name_resolve peer_id s.node) refl
    where
      go :
          (r : Result Bytes Bytes)
          → D.name_resolve peer_id s.node ≡ r
          → (path : Bytes) × (D.name_resolve peer_id s'.node ≡ ok path)
      go (ok path) q = (path, rw (resolve_pass-done peer_id deadline s s' _ h) q)
      go (err e) q = absurd (ground arith)

  -- `get` has found the ARID's key in the daemon's list and has polled for its name.
  pub record IsResolved (fuel limit : ℕ) (k : Arid) (s : Session G K D) (r : Answer)
      (s' : Session G K D) : Type 0 where
    pub keys : List Key
    pub key : Key
    pub listed : D.key_list s.node ≡ ok keys
    pub found : find_key (derive_ipfs_key_name G K k) keys ≡ some key
    pub answer : Result (Option Bytes) Error
    pub resolved : resolve_with_retry_timeout G K D fuel key.id limit s ≡ some (answer, s')
    pub returned : after_resolve G K D k (answer, s') ≡ (r, s')

  pub get_impl-seen :
      (fuel : ℕ) (kv : IpfsKv) (k : Arid) (timeout : Option ℕ) (s s' : Session G K D) (r : Answer)
      → get_impl G K D fuel kv k timeout s ≡ some (r, s')
      → ((s' ≡ s) × ((e : Envelope) → r ≡ ok (some e) → ⊥))
        ⊎ IsResolved fuel (resolve_timeout_of G K D kv timeout) k s r s'
  unfolding get_impl
  get_impl-seen fuel kv k timeout s s' r h = listed (D.key_list s.node) refl
    where
      limit : ℕ
      limit = resolve_timeout_of G K D kv timeout

      ended :
          (keys : List Key) (key : Key)
          → D.key_list s.node ≡ ok keys
          → find_key (derive_ipfs_key_name G K k) keys ≡ some key
          → (o : Option (Result (Option Bytes) Error × Session G K D))
          → resolve_with_retry_timeout G K D fuel key.id limit s ≡ o
          → ((s' ≡ s) × ((e : Envelope) → r ≡ ok (some e) → ⊥)) ⊎ IsResolved fuel limit k s r s'
      ended keys key q there none e = absurd (ground arith)
      ended keys key q there (some (answer, t)) e =
          let here : after_resolve G K D k (answer, t) ≡ (r, s') = ground arith in
          let same : t ≡ s' = sym (after_resolve-same k answer t) ∙ ground arith in
          inr (record {
            keys = keys;
            key = key;
            listed = q;
            found = there;
            answer = answer;
            resolved = rw same at e;
            returned = rw same at here;
          })

      listed :
          (l : Result (List Key) Bytes)
          → D.key_list s.node ≡ l
          → ((s' ≡ s) × ((e : Envelope) → r ≡ ok (some e) → ⊥)) ⊎ IsResolved fuel limit k s r s'
      listed (err m) q = inl (ground arith, λ e x. ground arith)
      listed (ok keys) q = elim (Option-cases (find_key (derive_ipfs_key_name G K k) keys)) [
        | inl absent ↦ inl (ground arith, λ e x. ground arith)
        | inr (key, there) ↦
            ended keys key q there (resolve_with_retry_timeout G K D fuel key.id limit s) refl
      ]

  -- What a sleep of the store keeps, `get` keeps.
  pub get_impl-keeps :
      (P : Session G K D → Type 0)
      → ((s : Session G K D) → P s → P (slept G K D s))
      → (fuel : ℕ) (kv : IpfsKv) (k : Arid) (timeout : Option ℕ) (s s' : Session G K D) (r : Answer)
      → get_impl G K D fuel kv k timeout s ≡ some (r, s')
      → P s
      → P s'
  unfolding resolve_with_retry_timeout
  get_impl-keeps P sleeps fuel kv k timeout s s' r h p =
      elim (get_impl-seen fuel kv k timeout s s' r h) [
        | inl (same, _) ↦ rw same p
        | inr seen ↦
            let deadline = D.now s.node + resolve_timeout_of G K D kv timeout in
            poll_keeps (resolve_pass G K D seen.key.id deadline) (slept G K D) P
              (λ t u x q e. rw (resolve_pass-done seen.key.id deadline t u x e) q)
              (λ t u q e. rw (resolve_pass-again G K D seen.key.id deadline t u e).1 (sleeps t q))
              fuel s seen.answer s' p seen.resolved
      ]

  -- Where `get` returns an envelope, the ARID's key was in the list, and its name now resolves.
  pub get_impl-resolves :
      (fuel : ℕ) (kv : IpfsKv) (k : Arid) (timeout : Option ℕ) (s s' : Session G K D) (e : Envelope)
      → get_impl G K D fuel kv k timeout s ≡ some (ok (some e), s')
      → (keys : List Key) × (key : Key) × (path : Bytes) × (D.key_list s.node ≡ ok keys)
        × (find_key (derive_ipfs_key_name G K k) keys ≡ some key)
        × (D.name_resolve key.id s'.node ≡ ok path)
  unfolding resolve_with_retry_timeout
  get_impl-resolves fuel kv k timeout s s' e h =
      elim (get_impl-seen fuel kv k timeout s s' (ok (some e)) h) [
        | inl (_, nothing) ↦ absurd (nothing e refl)
        | inr seen ↦
            let deadline = D.now s.node + resolve_timeout_of G K D kv timeout in
            let (cid, fetched) = after_resolve-found k seen.answer s' s' e seen.returned in
            let (t, q) =
              poll_ends (resolve_pass G K D seen.key.id deadline) (slept G K D) fuel s seen.answer
                s' seen.resolved in
            let (path, resolves) =
              resolve_pass-found seen.key.id deadline t s' cid (rw fetched at q) in
            (seen.keys, seen.key, path, seen.listed, seen.found, resolves)
      ]

  pub exists_impl-same : (k : Arid) (s : Session G K D) → (exists_impl G K D k s).1 ≡ s
  unfolding exists_impl is_published ask
  exists_impl-same k s = ground arith

  -- Where `exists` says yes, the ARID's key is in the list, and its name resolves.
  pub exists_impl-resolves :
      (k : Arid) (s : Session G K D)
      → (exists_impl G K D k s).0 ≡ ok true
      → (keys : List Key) × (key : Key) × (path : Bytes) × (D.key_list s.node ≡ ok keys)
        × (find_key (derive_ipfs_key_name G K k) keys ≡ some key)
        × (D.name_resolve key.id s.node ≡ ok path)
  unfolding exists_impl is_published ask
  exists_impl-resolves k s h = listed (D.key_list s.node) refl
    where
      Resolves : Type 0
      Resolves =
          (keys : List Key) × (key : Key) × (path : Bytes) × (D.key_list s.node ≡ ok keys)
          × (find_key (derive_ipfs_key_name G K k) keys ≡ some key)
          × (D.name_resolve key.id s.node ≡ ok path)

      resolved :
          (keys : List Key) (key : Key)
          → D.key_list s.node ≡ ok keys
          → find_key (derive_ipfs_key_name G K k) keys ≡ some key
          → (r : Result Bytes Bytes) → D.name_resolve key.id s.node ≡ r
          → Resolves
      resolved keys key q there (ok path) e = (keys, key, path, q, there, e)
      resolved keys key q there (err m) e = absurd (ground arith)

      listed : (l : Result (List Key) Bytes) → D.key_list s.node ≡ l → Resolves
      listed (err m) q = absurd (ground arith)
      listed (ok keys) q = elim (Option-cases (find_key (derive_ipfs_key_name G K k) keys)) [
        | inl absent ↦ absurd (ground arith)
        | inr (key, there) ↦ resolved keys key q there (D.name_resolve key.id s.node) refl
      ]
