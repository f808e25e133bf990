-- ===== src/Ipfs/Uploads.antt =====
-- `put` of `IpfsKv` (ipfs/kv.rs) keeps the cache of keys true, and removes nothing from the daemon.
use hubert_rust.Base.{ℕ, ◌≡◌, refl, Option, some, arith, ltb, bytes_eq}
use hubert_rust.Base.Lists.{Bytes}
use hubert_rust.Gordian.{Gordian}
use hubert_rust.AridDerivation.{Crypto, derive_ipfs_key_name}
use hubert_rust.Ipfs.Kubo.{Daemon}
use hubert_rust.Ipfs.Promises.{IsDaemon}
use hubert_rust.Ipfs.Growth.{Ages, Grows, Grows-refl, IsLasting}
use hubert_rust.Base.Io.{Result}
use hubert_rust.Base.{Bool-cases, inl, inr, bytes_beq}
use hubert_rust.Base.{Bool, true, false}
use hubert_rust.Base.Io.{ok, err, bind-after}
use hubert_rust.Ipfs.Keys.{get_or_create_key-key}
use hubert_rust.Ipfs.{
  Session, KeyInfo, request, get_or_create_key, pin_if, publish_once, finish, upload, put_impl,
  is_published, says_unpublished, lifetime_of,
}
use hubert_rust.Base.{◌++◌}
use hubert_rust.Base.Lists.{text, length}
use hubert_rust.AridDerivation.{obfuscate_with_arid}
use hubert_rust.Ipfs.{IpfsKv}
use hubert_rust.Ipfs.Cache.{IsSafe, request-IsSafe, get_or_create_key-IsSafe}

module _ (G : Gordian) (K : Crypto) (D : Daemon) (W : IsDaemon D) (U : IsLasting D W) where
  open G use {Arid, Envelope}

  pin_if-IsSafe :
      {m : D.Node} (pin : Bool) (cid : Bytes) (s : Session G K D)
      → IsSafe G K D W m s
      → IsSafe G K D W m (pin_if G K D pin cid s).1
  unfolding pin_if
  pin_if-IsSafe true cid s h =
      request-IsSafe G K D W (D.pin_add cid true) s (U.pin_add cid true s.node).ages h
  pin_if-IsSafe false cid s h = h

  -- A name that is reported as unpublished is none of those that are published.
  name_publish-Ages :
      (path : Bytes) (lifetime : Option Bytes) (key id message : Bytes) (n : D.Node)
      → W.key_of n key ≡ some id
      → D.name_resolve id n ≡ err message
      → says_unpublished message ≡ true
      → Ages D W n (D.name_publish path lifetime key n).1
  name_publish-Ages path lifetime key id message n there unresolved free = record {
    later = U.name_publish_later path lifetime key n;
    keys = λ name other. W.name_publish_keeps_key path lifetime key name other n;
    contents = λ cid bytes q pin. (
      W.name_publish_keeps_content path lifetime key cid bytes n q,
      W.name_publish_keeps_pin path lifetime key cid n pin,
    );
    names = λ other old q soon. elim (Bool-cases (bytes_beq id other)) [
      | inl same ↦
          let taken =
            U.resolvable id old message n (rw ((bytes_eq.beq_iff id other).0 same) q) unresolved in
          cc
      | inr differs ↦
          U.name_publish path lifetime key id other old n there
            (λ e. ground (arith, bytes_eq.beq_iff id other)) q
    ];
  }

  -- `key_name`'s id is `peer_id`.
  record IsKeyed (m : D.Node) (key_name peer_id : Bytes) (s : Session G K D) : Type 0 where
    safe : IsSafe G K D W m s
    key : W.key_of s.node key_name ≡ some peer_id

  publish_once-IsSafe :
      {m : D.Node} (key_name peer_id cid : Bytes) (ttl : Option ℕ) (k : Arid) (s : Session G K D)
      → IsKeyed m key_name peer_id s
      → IsSafe G K D W m (publish_once G K D key_name peer_id cid ttl k s).1
  unfolding publish_once is_published
  publish_once-IsSafe {m} key_name peer_id cid ttl k s h =
      resolved (D.name_resolve peer_id s.node) refl
    where
      resolved :
          (r : Result Bytes Bytes)
          → D.name_resolve peer_id s.node ≡ r
          → IsSafe G K D W m (publish_once G K D key_name peer_id cid ttl k s).1
      resolved (ok path) q = rw (publish_once, is_published, q) h.safe
      resolved (err e) q = elim (Bool-cases (says_unpublished e)) [
        | inl free ↦
            rw (publish_once, is_published, q, free)
              (request-IsSafe G K D W
                (D.name_publish (text "/ipfs/" ++ cid) (lifetime_of ttl) key_name) s
                (name_publish-Ages (text "/ipfs/" ++ cid) (lifetime_of ttl) key_name peer_id e
                  s.node h.key q free)
                h.safe)
        | inr taken ↦ rw (publish_once, is_published, q, taken) h.safe
      ]

  pub pin_if-Grows :
      (pin : Bool) (cid : Bytes) (s : Session G K D)
      → Grows D W s.node (pin_if G K D pin cid s).1.node
  unfolding pin_if request
  pin_if-Grows true cid s = U.pin_add cid true s.node
  pin_if-Grows false cid s = Grows-refl D W s.node

  pub add-Grows :
      (bytes : Bytes) (s : Session G K D) → Grows D W s.node (request G K D (D.add bytes) s).1.node
  unfolding request
  add-Grows bytes s = U.add bytes s.node

  -- What a request keeps of `IsKeyed`, where it removes nothing.
  IsKeyed-grown :
      {m : D.Node} (name id : Bytes) (s t : Session G K D)
      → IsKeyed m name id s
      → Ages D W s.node t.node
      → IsSafe G K D W m t
      → IsKeyed m name id t
  IsKeyed-grown name id s t h g safe = record { safe = safe; key = g.keys name id h.key }

  finish-IsSafe :
      {m : D.Node} (kv : IpfsKv) (k : Arid) (ttl : Option ℕ) (info : KeyInfo) (cid : Bytes)
      (s : Session G K D)
      → IsKeyed m (derive_ipfs_key_name G K k) info.peer_id s
      → IsSafe G K D W m (finish G K D kv k ttl info cid s).1
  unfolding finish
  finish-IsSafe {m} kv k ttl info cid s h =
      let name = derive_ipfs_key_name G K k in
      let publish = publish_once G K D name info.peer_id cid ttl k in
      let pinned = pin_if-IsSafe kv.pin_content cid s h.safe in
      bind-after (IsSafe G K D W m) (pin_if G K D kv.pin_content cid) _ s
        (λ u q.
          let t = (pin_if G K D kv.pin_content cid s).1 in
          let sent = publish_once-IsSafe name info.peer_id cid ttl k t (
            IsKeyed-grown name info.peer_id s t h (pin_if-Grows kv.pin_content cid s).ages
              pinned) in
          bind-after (IsSafe G K D W m) publish _ t (λ v q'. sent) (λ e q'. sent))
        (λ e q. pinned)

  upload-IsSafe :
      {m : D.Node} (kv : IpfsKv) (k : Arid) (e : Envelope) (ttl : Option ℕ) (info : KeyInfo)
      (s : Session G K D)
      → IsKeyed m (derive_ipfs_key_name G K k) info.peer_id s
      → IsSafe G K D W m (upload G K D kv k e ttl info s).1
  unfolding upload
  upload-IsSafe {m} kv k e ttl info s h =
      let name = derive_ipfs_key_name G K k in
      let bytes = obfuscate_with_arid G K k (G.to_cbor_data e) in
      let t = (request G K D (D.add bytes) s).1 in
      let added = request-IsSafe G K D W (D.add bytes) s (U.add bytes s.node).ages h.safe in
      bind-after (IsSafe G K D W m) (request G K D (D.add bytes)) _ s
        (λ cid q.
          finish-IsSafe kv k ttl info cid t
            (IsKeyed-grown name info.peer_id s t h (add-Grows bytes s).ages added))
        (λ e q. added)

  pub put_impl-IsSafe :
      {m : D.Node} (kv : IpfsKv) (k : Arid) (e : Envelope) (ttl : Option ℕ) (s : Session G K D)
      → IsSafe G K D W m s
      → IsSafe G K D W m (put_impl G K D kv k e ttl s).1
  unfolding put_impl
  put_impl-IsSafe {m} kv k e ttl s h =
      let size = length (obfuscate_with_arid G K k (G.to_cbor_data e)) in
      let found = get_or_create_key-IsSafe G K D W U k s h in
      elim (Bool-cases (ltb kv.max_envelope_size size)) [
        | inl big ↦ rw (put_impl, big) h
        | inr fits ↦
            rw (put_impl, fits)
              (bind-after (IsSafe G K D W m) (get_or_create_key G K D k)
                (λ i. upload G K D kv k e ttl i) s
                (λ info q. upload-IsSafe kv k e ttl info _ (record {
                  safe = found;
                  key = get_or_create_key-key G K D W k s info (h.cache _) q;
                }))
                (λ error q. found))
      ]
