-- ===== src/Ipfs/WriteOnce.antt =====
-- The operations of `IpfsKv` (ipfs/kv.rs) in any order: what was put stays.
use hubert_rust.Base.{ℕ, ◌≡◌, refl, true, Option, some, ltb, Bool-cases, inl, inr, bytes_eq, List}
use hubert_rust.Base.Lists.{Bytes, length}
use hubert_rust.Base.Io.{Result, ok, err, bind_fails}
use hubert_rust.Error.{Error, already_exists, ipfs, envelope_too_large, daemon_error}
use hubert_rust.Gordian.{Gordian}
use hubert_rust.AridDerivation.{Crypto, derive_ipfs_key_name, obfuscate_with_arid}
use hubert_rust.Ipfs.Kubo.{Key, Daemon}
use hubert_rust.Ipfs.Promises.{IsDaemon}
use hubert_rust.Ipfs.Growth.{Ages, Ages-refl, Grows, IsLasting}
use hubert_rust.Ipfs.Keys.{get_or_create_key-key}
use hubert_rust.Ipfs.Cache.{IsTrue, IsSafe, IsSafe-refl, IsSafe-moved}
use hubert_rust.Ipfs.Cache.{get_or_create_key-IsSafe, get_or_create_key-Grows}
use hubert_rust.Ipfs.Uploads.{pin_if-Grows, add-Grows}
use hubert_rust.Ipfs.Reads.{Answer, get_impl-keeps, get_impl-resolves, exists_impl-resolves}
use hubert_rust.Ipfs.Polling.{slept}
use hubert_rust.Ipfs.{
  IpfsKv, Session, KeyInfo, put_impl, get_impl, exists_impl, publish_once, is_published, pin_if,
  request, finish, upload, get_or_create_key, find_key,
}
use hubert_rust.Time.{from_millis}

module _ (G : Gordian) (K : Crypto) (D : Daemon) (W : IsDaemon D) (U : IsLasting D W) where
  open G use {Arid, arid_ur, Envelope}

  -- The ARID's key is in the daemon, and its name is published.
  pub record IsTaken (k : Arid) (id path : Bytes) (s : Session G K D) : Type 0 where
    pub key : W.key_of s.node (derive_ipfs_key_name G K k) ≡ some id
    pub name : W.published s.node id ≡ some path

  IsTaken-grown :
      (k : Arid) (id path : Bytes) (s t : Session G K D)
      → Grows D W s.node t.node
      → IsTaken k id path s
      → IsTaken k id path t
  IsTaken-grown k id path s t g h = record {
    key = g.ages.keys _ id h.key;
    name = g.names id path h.name;
  }

  publish_once-refused :
      (key_name peer_id cid path : Bytes) (ttl : Option ℕ) (k : Arid) (s : Session G K D)
      → W.published s.node peer_id ≡ some path
      → (e : Error) × ((publish_once G K D key_name peer_id cid ttl k s).0 ≡ err e)
  unfolding publish_once is_published
  publish_once-refused key_name peer_id cid path ttl k s h =
      resolved (D.name_resolve peer_id s.node) refl
    where
      resolved :
          (r : Result Bytes Bytes)
          → D.name_resolve peer_id s.node ≡ r
          → (e : Error) × ((publish_once G K D key_name peer_id cid ttl k s).0 ≡ err e)
      resolved (ok p) q = (already_exists (arid_ur k), rw (publish_once, is_published, q) refl)
      resolved (err m) q = (
        ipfs (daemon_error m),
        rw (publish_once, is_published, q, U.resolvable peer_id path m s.node h q) refl,
      )

  finish-refused :
      (kv : IpfsKv) (k : Arid) (ttl : Option ℕ) (info : KeyInfo) (cid path : Bytes)
      (s : Session G K D)
      → IsTaken k info.peer_id path s
      → (e : Error) × ((finish G K D kv k ttl info cid s).0 ≡ err e)
  unfolding finish
  finish-refused kv k ttl info cid path s h =
      bind_fails (pin_if G K D kv.pin_content cid) _ s (λ u q.
        let t = (pin_if G K D kv.pin_content cid s).1 in
        let later = pin_if-Grows G K D W U kv.pin_content cid s in
        let (e, refused) =
          publish_once-refused (derive_ipfs_key_name G K k) info.peer_id cid path ttl k t
            (later.names info.peer_id path h.name) in
        (e, rw refused refl))

  upload-refused :
      (kv : IpfsKv) (k : Arid) (e : Envelope) (ttl : Option ℕ) (info : KeyInfo) (path : Bytes)
      (s : Session G K D)
      → IsTaken k info.peer_id path s
      → (error : Error) × ((upload G K D kv k e ttl info s).0 ≡ err error)
  unfolding upload
  upload-refused kv k e ttl info path s h =
      let bytes = obfuscate_with_arid G K k (G.to_cbor_data e) in
      bind_fails (request G K D (D.add bytes)) _ s (λ cid q.
        finish-refused kv k ttl info cid path (request G K D (D.add bytes) s).1 (
          IsTaken-grown k info.peer_id path s (request G K D (D.add bytes) s).1
            (add-Grows G K D W U bytes s) h))

  -- With a true cache, `put` fails at an ARID whose name is published.
  pub put_impl-refused :
      (kv : IpfsKv) (k : Arid) (e : Envelope) (ttl : Option ℕ) (id path : Bytes) (s : Session G K D)
      → IsTrue G K D W s
      → IsTaken k id path s
      → (error : Error) × ((put_impl G K D kv k e ttl s).0 ≡ err error)
  unfolding put_impl
  put_impl-refused kv k e ttl id path s h taken =
      let size = length (obfuscate_with_arid G K k (G.to_cbor_data e)) in
      elim (Bool-cases (ltb kv.max_envelope_size size)) [
        | inl big ↦ (ipfs (envelope_too_large size), rw (put_impl, big) refl)
        | inr fits ↦
            rw (put_impl, fits)
              (bind_fails (get_or_create_key G K D k) (λ i. upload G K D kv k e ttl i) s
                (λ info q.
                  let t = (get_or_create_key G K D k s).1 in
                  let safe = get_or_create_key-IsSafe G K D W U k s (IsSafe-refl G K D W s h) in
                  let later =
                    IsTaken-grown k id path s t (get_or_create_key-Grows G K D W U k s) taken in
                  let known = get_or_create_key-key G K D W k s info (h _) q in
                  let same : id ≡ info.peer_id = cc in
                  upload-refused kv k e ttl info path t (rw same at later)))
      ]

  -- What holds at a `get` that returned an envelope, or at an `exists` that said yes.
  seen-IsTaken :
      (k : Arid) (s t : Session G K D) (keys : List Key) (key : Key) (path : Bytes)
      → D.key_list s.node ≡ ok keys
      → find_key (derive_ipfs_key_name G K k) keys ≡ some key
      → D.name_resolve key.id t.node ≡ ok path
      → Ages D W s.node t.node
      → IsTaken k key.id path t
  seen-IsTaken k s t keys key path listed found resolves g = record {
    key = g.keys _ key.id (W.key_list_ok s.node keys _ key listed found);
    name = W.name_resolve_ok key.id path t.node resolves;
  }

  slept-IsSafe :
      (m : D.Node) (s : Session G K D) → IsSafe G K D W m s → IsSafe G K D W m (slept G K D s)
  slept-IsSafe m s h =
      IsSafe-moved G K D W (D.sleep (from_millis 1000) s.node) s h
        (U.sleep (from_millis 1000) s.node)

  pub get_impl-IsSafe :
      (m : D.Node) (fuel : ℕ) (kv : IpfsKv) (k : Arid) (timeout : Option ℕ) (s s' : Session G K D)
      (r : Answer G K D)
      → get_impl G K D fuel kv k timeout s ≡ some (r, s')
      → IsSafe G K D W m s
      → IsSafe G K D W m s'
  get_impl-IsSafe m = get_impl-keeps G K D (IsSafe G K D W m) (slept-IsSafe m)

  -- After a `get` that returned an envelope, `put` fails.
  pub get_impl-refuses :
      (fuel : ℕ) (kv : IpfsKv) (k : Arid) (timeout : Option ℕ) (s s' : Session G K D) (e : Envelope)
      → IsTrue G K D W s
      → get_impl G K D fuel kv k timeout s ≡ some (ok (some e), s')
      → (e' : Envelope) (ttl : Option ℕ)
      → (error : Error) × ((put_impl G K D kv k e' ttl s').0 ≡ err error)
  get_impl-refuses fuel kv k timeout s s' e h q e' ttl =
      let (keys, key, path, listed, found, resolves) =
        get_impl-resolves G K D fuel kv k timeout s s' e q in
      let safe =
        get_impl-IsSafe s.node fuel kv k timeout s s' (ok (some e)) q (IsSafe-refl G K D W s h) in
      put_impl-refused kv k e' ttl key.id path s' safe.cache
        (seen-IsTaken k s s' keys key path listed found resolves safe.grown)

  pub exists_impl-refuses :
      (kv : IpfsKv) (k : Arid) (s : Session G K D)
      → IsTrue G K D W s
      → (exists_impl G K D k s).0 ≡ ok true
      → (e : Envelope) (ttl : Option ℕ)
      → (error : Error) × ((put_impl G K D kv k e ttl s).0 ≡ err error)
  exists_impl-refuses kv k s h q e ttl =
      let (keys, key, path, listed, found, resolves) = exists_impl-resolves G K D k s q in
      put_impl-refused kv k e ttl key.id path s h
        (seen-IsTaken k s s keys key path listed found resolves (Ages-refl D W s.node))
