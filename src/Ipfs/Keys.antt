-- ===== src/Ipfs/Keys.antt =====
-- The key that `get_or_create_key` of `IpfsKv` (ipfs/kv.rs) finds or makes.
use hubert_rust.Base.{◌≡◌, refl, none, some, List, arith, Option-cases, inl, inr, bytes_eq}
use hubert_rust.Base.Assoc.{lookup}
use hubert_rust.Base.Lists.{Bytes}
use hubert_rust.Base.Io.{Result, ok, err}
use hubert_rust.Gordian.{Gordian}
use hubert_rust.AridDerivation.{Crypto, derive_ipfs_key_name}
use hubert_rust.Ipfs.Kubo.{Key, Daemon}
use hubert_rust.Ipfs.Promises.{IsDaemon}
use hubert_rust.Ipfs.{Session, KeyInfo, find_key, get_or_create_key, list_or_generate, request}

module _ (G : Gordian) (K : Crypto) (D : Daemon) (W : IsDaemon D) where
  open G use {Arid, arid_ur, Envelope, to_cbor_data}

  -- What the cache of keys says of an ARID is what the daemon says.
  abbrev pub CacheIsTrue : Arid → Session G K D → Type 0
  CacheIsTrue k s =
      (info : KeyInfo)
      → lookup bytes_eq (derive_ipfs_key_name G K k) s.key_cache ≡ some info
      → W.key_of s.node (derive_ipfs_key_name G K k) ≡ some info.peer_id

  list_or_generate-key :
      (name : Bytes) (s : Session G K D) (info : KeyInfo)
      → (list_or_generate G K D name s).0 ≡ ok info
      → W.key_of (list_or_generate G K D name s).1.node name ≡ some info.peer_id
  unfolding list_or_generate
  list_or_generate-key name s info h = listed (D.key_list s.node) refl
    where
      generated :
          (keys : List Key)
          → D.key_list s.node ≡ ok keys
          → find_key name keys ≡ none
          → (r : Result Bytes Bytes) → (D.key_gen name s.node).0 ≡ r
          → W.key_of (list_or_generate G K D name s).1.node name ≡ some info.peer_id
      generated keys q absent (ok id) g = ground (arith, W.key_gen_ok name id s.node g)
      generated keys q absent (err m) g = ground arith

      listed :
          (r : Result (List Key) Bytes)
          → D.key_list s.node ≡ r
          → W.key_of (list_or_generate G K D name s).1.node name ≡ some info.peer_id
      listed (err m) q = ground arith
      listed (ok keys) q = elim (Option-cases (find_key name keys)) [
        | inr (key, there) ↦ ground (arith, W.key_list_ok s.node keys name key q there)
        | inl absent ↦ generated keys q absent (D.key_gen name s.node).0 refl
      ]

  pub get_or_create_key-key :
      (k : Arid) (s : Session G K D) (info : KeyInfo)
      → CacheIsTrue k s
      → (get_or_create_key G K D k s).0 ≡ ok info
      → W.key_of (get_or_create_key G K D k s).1.node (derive_ipfs_key_name G K k)
        ≡ some info.peer_id
  unfolding get_or_create_key
  get_or_create_key-key k s info true_cache h =
      let name = derive_ipfs_key_name G K k in
      elim (Option-cases (lookup bytes_eq name s.key_cache)) [
        | inl miss ↦ ground (arith, list_or_generate-key name s info)
        | inr (old, hit) ↦ ground (arith, true_cache old hit)
      ]

  pub request-ok :
      {A : Type 0} (q : D.Node → Result A Bytes × D.Node) (s : Session G K D) (x : A)
      → (request G K D q s).0 ≡ ok x
      → ((q s.node).0 ≡ ok x) × ((request G K D q s).1 ≡ record s { node = (q s.node).1 })
  unfolding request
  request-ok {A} q s x h = answered (q s.node).0 refl
    where
      answered :
          (r : Result A Bytes)
          → (q s.node).0 ≡ r
          → ((q s.node).0 ≡ ok x) × ((request G K D q s).1 ≡ record s { node = (q s.node).1 })
      answered (ok y) e = (ground arith, refl)
      answered (err m) e = ground arith
