-- ===== src/Ipfs/Stored.antt =====
-- What a pin and a publication of `IpfsKv` (ipfs/kv.rs) leave in the daemon.
use hubert_rust.Base.{
  ℕ, ◌≡◌, refl, Bool, true, false, Option, some, ◌++◌, arith, Bool-cases, inl, inr, bytes_eq,
}
use hubert_rust.Base.Lists.{Bytes, text}
use hubert_rust.Base.Io.{Result, ok, err}
use hubert_rust.Gordian.{Gordian}
use hubert_rust.AridDerivation.{Crypto, derive_ipfs_key_name, obfuscate_with_arid}
use hubert_rust.Ipfs.Kubo.{Daemon}
use hubert_rust.Ipfs.Promises.{IsDaemon}
use hubert_rust.Ipfs.{Session, publish_once, pin_if, request, lifetime_of, says_unpublished}

module _ (G : Gordian) (K : Crypto) (D : Daemon) (W : IsDaemon D) where
  open G use {Arid, arid_ur, Envelope, to_cbor_data}

  -- The ARID's key is there, and the content under the CID is the obfuscated envelope.
  pub record IsReady (k : Arid) (e : Envelope) (id cid : Bytes) (s : Session G K D) : Type 0 where
    pub key : W.key_of s.node (derive_ipfs_key_name G K k) ≡ some id
    pub bytes : W.content s.node cid ≡ some (obfuscate_with_arid G K k (to_cbor_data e))

  -- And the key's name is published for the CID.
  pub record IsStored (k : Arid) (e : Envelope) (s : Session G K D) : Type 0 where
    pub id : Bytes
    pub cid : Bytes
    pub ready : IsReady k e id cid s
    pub name : W.published s.node id ≡ some (text "/ipfs/" ++ cid)

  -- And the content is pinned, where the store pins.
  pub record IsKept (pin : Bool) (k : Arid) (e : Envelope) (s : Session G K D) : Type 0 where
    pub id : Bytes
    pub cid : Bytes
    pub ready : IsReady k e id cid s
    pub name : W.published s.node id ≡ some (text "/ipfs/" ++ cid)
    pub held : pin ≡ true → W.pinned s.node cid ≡ true

  pub IsKept-IsStored :
      {pin : Bool} {k : Arid} {e : Envelope} {s : Session G K D} → IsKept pin k e s → IsStored k e s
  IsKept-IsStored kept = record {
    id = kept.id;
    cid = kept.cid;
    ready = kept.ready;
    name = kept.name;
  }

  -- What is stored is in the node.
  pub IsStored-node :
      (k : Arid) (e : Envelope) (s s' : Session G K D)
      → s'.node ≡ s.node
      → IsStored k e s
      → IsStored k e s'
  IsStored-node k e s s' same stored = record {
    id = stored.id;
    cid = stored.cid;
    ready = record { key = rw same stored.ready.key; bytes = rw same stored.ready.bytes };
    name = rw same stored.name;
  }

  pub pin_if-IsReady :
      (k : Arid) (e : Envelope) (id cid : Bytes) (pin : Bool) (s : Session G K D)
      → IsReady k e id cid s
      → IsReady k e id cid (pin_if G K D pin cid s).1
  unfolding pin_if request
  pin_if-IsReady k e id cid false s r = r
  pin_if-IsReady k e id cid true s r = record {
    key = W.pin_add_keeps_key cid true (derive_ipfs_key_name G K k) id s.node r.key;
    bytes = W.pin_add_keeps_content cid true cid _ s.node r.bytes;
  }

  pub pin_if-pinned :
      (pin : Bool) (cid : Bytes) (s : Session G K D) (u : Unit {0})
      → (pin_if G K D pin cid s).0 ≡ ok u
      → pin ≡ true
      → W.pinned (pin_if G K D pin cid s).1.node cid ≡ true
  unfolding pin_if request
  pin_if-pinned false cid s u h on = cc
  pin_if-pinned true cid s u h on = answered (D.pin_add cid true s.node).0 refl
    where
      answered :
          (r : Result (Unit {0}) Bytes)
          → (D.pin_add cid true s.node).0 ≡ r
          → W.pinned (D.pin_add cid true s.node).1 cid ≡ true
      answered (ok v) q = W.pin_add_ok cid s.node v q
      answered (err m) q = absurd (ground arith)

  abbrev pub path : Bytes → Bytes
  path cid = text "/ipfs/" ++ cid

  -- A publication that succeeded is one request to the daemon.
  publish_once-sent :
      (name id cid : Bytes) (ttl : Option ℕ) (k : Arid) (s : Session G K D) (u : Unit {0})
      → (publish_once G K D name id cid ttl k s).0 ≡ ok u
      → ((D.name_publish (path cid) (lifetime_of ttl) name s.node).0 ≡ ok tt)
        × ((publish_once G K D name id cid ttl k s).1
            ≡ record s { node = (D.name_publish (path cid) (lifetime_of ttl) name s.node).1 })
  unfolding publish_once
  publish_once-sent name id cid ttl k s u h = resolved (D.name_resolve id s.node) refl
    where
      sent :
          (x : Result (Unit {0}) Bytes)
          → (D.name_publish (path cid) (lifetime_of ttl) name s.node).0 ≡ x
          → (e : Bytes) → D.name_resolve id s.node ≡ err e
          → says_unpublished e ≡ true
          → ((D.name_publish (path cid) (lifetime_of ttl) name s.node).0 ≡ ok tt)
            × ((publish_once G K D name id cid ttl k s).1
                ≡ record s { node = (D.name_publish (path cid) (lifetime_of ttl) name s.node).1 })
      sent (ok v) q e unresolved free = (q, ground arith)
      sent (err m) q e unresolved free = ground arith

      resolved :
          (x : Result Bytes Bytes)
          → D.name_resolve id s.node ≡ x
          → ((D.name_publish (path cid) (lifetime_of ttl) name s.node).0 ≡ ok tt)
            × ((publish_once G K D name id cid ttl k s).1
                ≡ record s { node = (D.name_publish (path cid) (lifetime_of ttl) name s.node).1 })
      resolved (ok p) q = ground arith
      resolved (err e) q = elim (Bool-cases (says_unpublished e)) [
        | inl free ↦ sent (D.name_publish (path cid) (lifetime_of ttl) name s.node).0 refl e q free
        | inr taken ↦ ground arith
      ]

  name_publish-IsKept :
      (pin : Bool) (k : Arid) (e : Envelope) (id cid : Bytes) (ttl : Option ℕ) (s : Session G K D)
      → IsReady k e id cid s
      → (pin ≡ true → W.pinned s.node cid ≡ true)
      → (D.name_publish (path cid) (lifetime_of ttl) (derive_ipfs_key_name G K k) s.node).0 ≡ ok tt
      → IsKept pin k e (record s {
        node = (D.name_publish (path cid) (lifetime_of ttl) (derive_ipfs_key_name G K k) s.node).1;
      })
  name_publish-IsKept pin k e id cid ttl s r held accepted =
      let name = derive_ipfs_key_name G K k in
      record {
        id = id;
        cid = cid;
        ready = record {
          key = W.name_publish_keeps_key (path cid) (lifetime_of ttl) name name id s.node r.key;
          bytes =
              W.name_publish_keeps_content (path cid) (lifetime_of ttl) name cid _ s.node r.bytes;
        };
        name = W.name_publish_ok (path cid) (lifetime_of ttl) name id s.node tt accepted r.key;
        held =
            λ on. W.name_publish_keeps_pin (path cid) (lifetime_of ttl) name cid s.node (held on);
      }

  -- A publication of the ARID's name that the daemon accepted.
  pub name_publish-IsStored :
      (k : Arid) (e : Envelope) (id cid : Bytes) (ttl : Option ℕ) (s : Session G K D)
      → IsReady k e id cid s
      → (D.name_publish (path cid) (lifetime_of ttl) (derive_ipfs_key_name G K k) s.node).0 ≡ ok tt
      → IsStored k e (record s {
        node = (D.name_publish (path cid) (lifetime_of ttl) (derive_ipfs_key_name G K k) s.node).1;
      })
  name_publish-IsStored k e id cid ttl s r accepted =
      IsKept-IsStored (name_publish-IsKept false k e id cid ttl s r (λ on. cc) accepted)

  pub publish_once-IsKept :
      (pin : Bool) (k : Arid) (e : Envelope) (id cid : Bytes) (ttl : Option ℕ) (s : Session G K D)
      (u : Unit {0})
      → IsReady k e id cid s
      → (pin ≡ true → W.pinned s.node cid ≡ true)
      → (publish_once G K D (derive_ipfs_key_name G K k) id cid ttl k s).0 ≡ ok u
      → IsKept pin k e (publish_once G K D (derive_ipfs_key_name G K k) id cid ttl k s).1
  publish_once-IsKept pin k e id cid ttl s u r held h =
      let (accepted, state) = publish_once-sent (derive_ipfs_key_name G K k) id cid ttl k s u h in
      rw state (name_publish-IsKept pin k e id cid ttl s r held accepted)
