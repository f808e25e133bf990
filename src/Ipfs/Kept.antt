-- ===== src/Ipfs/Kept.antt =====
-- What an accepted `put` of `IpfsKv` (ipfs/kv.rs) leaves in the daemon.
use hubert_rust.Base.{ℕ, ◌≡◌, Option, some, arith, ltb, Bool-cases, inl, inr, bytes_eq}
use hubert_rust.Base.Lists.{Bytes, length}
use hubert_rust.Base.Io.{ok, bind-ok}
use hubert_rust.Gordian.{Gordian}
use hubert_rust.AridDerivation.{Crypto, derive_ipfs_key_name, obfuscate_with_arid}
use hubert_rust.Ipfs.Kubo.{Daemon}
use hubert_rust.Ipfs.Promises.{IsDaemon}
use hubert_rust.Ipfs.{
  IpfsKv, Session, KeyInfo, put_impl, publish_once, get_or_create_key, pin_if, finish, upload,
  request,
}
use hubert_rust.Ipfs.Keys.{CacheIsTrue, get_or_create_key-key, request-ok}
use hubert_rust.Ipfs.Stored.{
  IsReady, IsStored, IsKept, IsKept-IsStored, publish_once-IsKept, pin_if-IsReady, pin_if-pinned,
}

module _ (G : Gordian) (K : Crypto) (D : Daemon) (W : IsDaemon D) where
  open G use {Arid, Envelope, to_cbor_data}

  -- An upload that succeeded, after which the content is there and the key still is.
  add-IsReady :
      (k : Arid) (e : Envelope) (id cid : Bytes) (s : Session G K D)
      → W.key_of s.node (derive_ipfs_key_name G K k) ≡ some id
      → (D.add (obfuscate_with_arid G K k (to_cbor_data e)) s.node).0 ≡ ok cid
      → IsReady G K D W k e id cid
          (record s { node = (D.add (obfuscate_with_arid G K k (to_cbor_data e)) s.node).1 })
  add-IsReady k e id cid s there added =
      let bytes = obfuscate_with_arid G K k (to_cbor_data e) in
      record {
        key = W.add_keeps_key bytes (derive_ipfs_key_name G K k) id s.node there;
        bytes = W.add_ok bytes cid s.node added;
      }

  finish-IsKept :
      (kv : IpfsKv) (k : Arid) (e : Envelope) (ttl : Option ℕ) (info : KeyInfo) (cid : Bytes)
      (s : Session G K D) (receipt : Bytes)
      → IsReady G K D W k e info.peer_id cid s
      → (finish G K D kv k ttl info cid s).0 ≡ ok receipt
      → IsKept G K D W kv.pin_content k e (finish G K D kv k ttl info cid s).1
  unfolding finish
  finish-IsKept kv k e ttl info cid s receipt r h =
      let name = derive_ipfs_key_name G K k in
      let publish = publish_once G K D name info.peer_id cid ttl k in
      let (u, pinned, rest) = bind-ok (pin_if G K D kv.pin_content cid) _ s h in
      let s' = (pin_if G K D kv.pin_content cid s).1 in
      let (v, sent, last) = bind-ok publish _ s' (rw rest at h) in
      rw (rest, last)
        (publish_once-IsKept G K D W kv.pin_content k e info.peer_id cid ttl s' v
          (pin_if-IsReady G K D W k e info.peer_id cid kv.pin_content s r)
          (pin_if-pinned G K D W kv.pin_content cid s u pinned) sent)

  upload-IsKept :
      (kv : IpfsKv) (k : Arid) (e : Envelope) (ttl : Option ℕ) (info : KeyInfo) (s : Session G K D)
      (receipt : Bytes)
      → W.key_of s.node (derive_ipfs_key_name G K k) ≡ some info.peer_id
      → (upload G K D kv k e ttl info s).0 ≡ ok receipt
      → IsKept G K D W kv.pin_content k e (upload G K D kv k e ttl info s).1
  unfolding upload
  upload-IsKept kv k e ttl info s receipt there h =
      let bytes = obfuscate_with_arid G K k (to_cbor_data e) in
      let (cid, added, rest) = bind-ok (request G K D (D.add bytes)) _ s h in
      let (accepted, state) = request-ok G K D W (D.add bytes) s cid added in
      rw rest (
        finish-IsKept kv k e ttl info cid _ receipt
          (rw state (add-IsReady k e info.peer_id cid s there accepted)) (rw rest at h))

  -- An accepted `put`, if the cache of keys is true, leaves the ARID's key in the daemon, its name
  -- published for a CID, and the obfuscated envelope under that CID, pinned if the store pins.
  pub put_impl-IsKept :
      (kv : IpfsKv) (k : Arid) (e : Envelope) (ttl : Option ℕ) (s : Session G K D) (receipt : Bytes)
      → CacheIsTrue G K D W k s
      → (put_impl G K D kv k e ttl s).0 ≡ ok receipt
      → IsKept G K D W kv.pin_content k e (put_impl G K D kv k e ttl s).1
  unfolding put_impl
  put_impl-IsKept kv k e ttl s receipt true_cache h =
      let size = length (obfuscate_with_arid G K k (to_cbor_data e)) in
      elim (Bool-cases (ltb kv.max_envelope_size size)) [
        | inl big ↦ ground arith
        | inr fits ↦
            let accepted = rw fits at h in
            let (info, found, rest) =
              bind-ok (get_or_create_key G K D k) (λ i. upload G K D kv k e ttl i) s accepted in
            rw (fits, rest)
              (upload-IsKept kv k e ttl info _ receipt
                (get_or_create_key-key G K D W k s info true_cache found) (rw rest at accepted))
      ]

  pub put_impl-IsStored :
      (kv : IpfsKv) (k : Arid) (e : Envelope) (ttl : Option ℕ) (s : Session G K D) (receipt : Bytes)
      → CacheIsTrue G K D W k s
      → (put_impl G K D kv k e ttl s).0 ≡ ok receipt
      → IsStored G K D W k e (put_impl G K D kv k e ttl s).1
  put_impl-IsStored kv k e ttl s receipt true_cache h =
      IsKept-IsStored G K D W (put_impl-IsKept kv k e ttl s receipt true_cache h)
