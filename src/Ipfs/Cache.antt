-- ===== src/Ipfs/Cache.antt =====
-- The cache of keys of `IpfsKv` (ipfs/kv.rs): finding or making a key keeps it true, and removes nothing
-- from the daemon.
use hubert_rust.Base.{◌≡◌, refl, some, List, arith, bytes_eq}
use hubert_rust.Base.Lists.{Bytes}
use hubert_rust.Base.Assoc.{lookup}
use hubert_rust.Gordian.{Gordian}
use hubert_rust.AridDerivation.{Crypto, derive_ipfs_key_name}
use hubert_rust.Ipfs.Kubo.{Daemon}
use hubert_rust.Ipfs.Promises.{IsDaemon}
use hubert_rust.Ipfs.Growth.{Ages, Ages-refl, Ages-trans, Grows, Grows-refl, IsLasting}
use hubert_rust.Base.Io.{Result}
use hubert_rust.Base.Assoc.{lookup-insert}
use hubert_rust.Base.{Bool-cases, inl, inr, bytes_beq}
use hubert_rust.Base.{none, Option-cases}
use hubert_rust.Base.Io.{ok, err, ◌>>=◌, bind-after}
use hubert_rust.Ipfs.Kubo.{Key}
use hubert_rust.Ipfs.Keys.{request-ok}
use hubert_rust.Ipfs.{
  Session, KeyInfo, remember, request, list_or_generate, ask, find_key, get_or_create_key,
}

module _ (G : Gordian) (K : Crypto) (D : Daemon) (W : IsDaemon D) where
  open G use {Arid, Envelope}

  -- Every entry of the cache is the daemon's key of that name.
  abbrev pub IsTrue : Session G K D → Type 0
  IsTrue s =
      (name : Bytes) (info : KeyInfo)
      → lookup bytes_eq name s.key_cache ≡ some info
      → W.key_of s.node name ≡ some info.peer_id

  -- The cache is true, and the daemon has what it had at `m` and has not lost by age.
  pub record IsSafe (m : D.Node) (s : Session G K D) : Type 0 where
    pub cache : IsTrue s
    pub grown : Ages D W m s.node

  pub IsSafe-refl : (s : Session G K D) → IsTrue s → IsSafe s.node s
  IsSafe-refl s h = record { cache = h; grown = Ages-refl D W s.node }

  pub IsSafe-moved :
      {m : D.Node} (n : D.Node) (s : Session G K D)
      → IsSafe m s
      → Ages D W s.node n
      → IsSafe m (record s { node = n })
  IsSafe-moved n s h g = record {
    cache = λ name info q. g.keys name info.peer_id (h.cache name info q);
    grown = Ages-trans D W h.grown g;
  }

  remember-IsSafe :
      {m : D.Node} (name : Bytes) (info : KeyInfo) (s : Session G K D)
      → IsSafe m s
      → W.key_of s.node name ≡ some info.peer_id
      → IsSafe m (remember G K D name info s).1
  unfolding remember
  remember-IsSafe {m} name info s h there = record { cache = cache; grown = h.grown }
    where
      cache : IsTrue (remember G K D name info s).1
      cache other old q = elim (Bool-cases (bytes_beq name other)) [
        | inl same ↦ ground (
          arith,
          there,
          lookup-insert bytes_eq name other info s.key_cache,
          bytes_eq.beq_iff name other,
        )
        | inr differs ↦
            ground (arith, lookup-insert bytes_eq name other info s.key_cache, h.cache other old)
      ]

  pub request-IsSafe :
      {A : Type 0} {m : D.Node} (q : D.Node → Result A Bytes × D.Node) (s : Session G K D)
      → Ages D W s.node (q s.node).1
      → IsSafe m s
      → IsSafe m (request G K D q s).1
  unfolding request
  request-IsSafe q s g h = IsSafe-moved (q s.node).1 s h g

  module _ (U : IsLasting D W) where
    generate-IsSafe :
        {m : D.Node} (name : Bytes) (s : Session G K D)
        → IsSafe m s
        → IsSafe m
            ((request G K D (D.key_gen name) >>= λ id.
                remember G K D name (record { peer_id = id }))
              s).1
    unfolding request
    generate-IsSafe {m} name s h =
        let made = request-IsSafe (D.key_gen name) s (U.key_gen name s.node).ages h in
        bind-after (IsSafe m) (request G K D (D.key_gen name)) _ s
          (λ id q.
            remember-IsSafe name (record { peer_id = id }) _ made
              (W.key_gen_ok name id s.node (request-ok G K D W (D.key_gen name) s id q).0))
          (λ e q. made)

    generates :
        (name : Bytes) (s : Session G K D) (keys : List Key)
        → D.key_list s.node ≡ ok keys
        → find_key name keys ≡ none
        → list_or_generate G K D name s
          ≡ (request G K D (D.key_gen name) >>= λ id. remember G K D name (record { peer_id = id }))
              s
    unfolding list_or_generate ask
    generates name s keys q absent = ground arith

    finds :
        (name : Bytes) (s : Session G K D) (keys : List Key) (key : Key)
        → D.key_list s.node ≡ ok keys
        → find_key name keys ≡ some key
        → list_or_generate G K D name s ≡ remember G K D name (record { peer_id = key.id }) s
    unfolding list_or_generate ask
    finds name s keys key q there = ground arith

    list_or_generate-IsSafe :
        {m : D.Node} (name : Bytes) (s : Session G K D)
        → IsSafe m s
        → IsSafe m (list_or_generate G K D name s).1
    unfolding list_or_generate ask
    list_or_generate-IsSafe {m} name s h = listed (D.key_list s.node) refl
      where
        listed :
            (r : Result (List Key) Bytes)
            → D.key_list s.node ≡ r
            → IsSafe m (list_or_generate G K D name s).1
        listed (err e) q = rw q h
        listed (ok keys) q = elim (Option-cases (find_key name keys)) [
          | inr (key, there) ↦ rw (finds name s keys key q there) (
              remember-IsSafe name (record { peer_id = key.id }) s h
                (W.key_list_ok s.node keys name key q there))
          | inl absent ↦ rw (generates name s keys q absent) (generate-IsSafe name s h)
        ]

    pub get_or_create_key-IsSafe :
        {m : D.Node} (k : Arid) (s : Session G K D)
        → IsSafe m s
        → IsSafe m (get_or_create_key G K D k s).1
    unfolding get_or_create_key
    get_or_create_key-IsSafe k s h =
        let name = derive_ipfs_key_name G K k in
        elim (Option-cases (lookup bytes_eq name s.key_cache)) [
          | inl miss ↦ rw (get_or_create_key, miss) (list_or_generate-IsSafe name s h)
          | inr (old, hit) ↦ rw (get_or_create_key, hit) h
        ]

    list_or_generate-Grows :
        (name : Bytes) (s : Session G K D) → Grows D W s.node (list_or_generate G K D name s).1.node
    unfolding list_or_generate ask request remember
    list_or_generate-Grows name s = listed (D.key_list s.node) refl
      where
        listed :
            (r : Result (List Key) Bytes)
            → D.key_list s.node ≡ r
            → Grows D W s.node (list_or_generate G K D name s).1.node
        listed (err e) q = rw q (Grows-refl D W s.node)
        listed (ok keys) q = elim (Option-cases (find_key name keys)) [
          | inr (key, there) ↦ rw (finds name s keys key q there) (Grows-refl D W s.node)
          | inl absent ↦ rw (generates name s keys q absent) (
              bind-after (λ t. Grows D W s.node t.node) (request G K D (D.key_gen name)) _ s
                (λ id made. U.key_gen name s.node) (λ e failed. U.key_gen name s.node))
        ]

    pub get_or_create_key-Grows :
        (k : Arid) (s : Session G K D) → Grows D W s.node (get_or_create_key G K D k s).1.node
    unfolding get_or_create_key
    get_or_create_key-Grows k s =
        let name = derive_ipfs_key_name G K k in
        elim (Option-cases (lookup bytes_eq name s.key_cache)) [
          | inl miss ↦ rw (get_or_create_key, miss) (list_or_generate-Grows name s)
          | inr (old, hit) ↦ rw (get_or_create_key, hit) (Grows-refl D W s.node)
        ]
