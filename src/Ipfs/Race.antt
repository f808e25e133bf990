-- ===== src/Ipfs/Race.antt =====
-- `publish_once` of `IpfsKv` (ipfs/kv.rs) asks the daemon twice: once whether the name is free, once to
-- publish.
use hubert_rust.Base.{ℕ, suc, ◌≡◌, refl, ◌∙◌, false, Option, some}
use hubert_rust.Base.Lists.{Bytes}
use hubert_rust.Base.Io.{ok}
use hubert_rust.Gordian.{Gordian, IsLawful}
use hubert_rust.AridDerivation.{Crypto, derive_ipfs_key_name}
use hubert_rust.Ipfs.Kubo.{Daemon}
use hubert_rust.Ipfs.Promises.{IsDaemon}
use hubert_rust.Ipfs.Keys.{request-ok}
use hubert_rust.Ipfs.Stored.{IsReady, IsStored, name_publish-IsStored, path}
use hubert_rust.Ipfs.RoundTrip.{IsAnswering, get_stored}
use hubert_rust.Ipfs.{IpfsKv, Session, is_published, publish_once, send_name, get_impl, lifetime_of}

module _ (G : Gordian) (K : Crypto) (D : Daemon) (L : IsLawful G) (W : IsDaemon D) where
  open G use {Arid, Envelope}

  publish_once-free :
      (name id cid : Bytes) (ttl : Option ℕ) (k : Arid) (s : Session G K D)
      → is_published G K D id s ≡ (ok false, s)
      → publish_once G K D name id cid ttl k s ≡ send_name G K D name cid ttl s
  unfolding publish_once
  publish_once-free name id cid ttl k s free = rw free refl

  send_name-sent :
      (name cid : Bytes) (ttl : Option ℕ) (s : Session G K D)
      → (send_name G K D name cid ttl s).0 ≡ ok tt
      → ((D.name_publish (path G K D W cid) (lifetime_of ttl) name s.node).0 ≡ ok tt)
        × ((send_name G K D name cid ttl s).1 ≡ record s {
          node = (D.name_publish (path G K D W cid) (lifetime_of ttl) name s.node).1;
        })
  unfolding send_name
  send_name-sent name cid ttl s h =
      request-ok G K D W (D.name_publish (path G K D W cid) (lifetime_of ttl) name) s tt h

  send_name-IsReady :
      (k : Arid) (e : Envelope) (id cid other : Bytes) (ttl : Option ℕ) (s : Session G K D)
      → IsReady G K D W k e id cid s
      → (send_name G K D (derive_ipfs_key_name G K k) other ttl s).0 ≡ ok tt
      → IsReady G K D W k e id cid (send_name G K D (derive_ipfs_key_name G K k) other ttl s).1
  send_name-IsReady k e id cid other ttl s r h =
      let name = derive_ipfs_key_name G K k in
      let there = path G K D W other in
      let (_, state) = send_name-sent name other ttl s h in
      rw state (record {
        key = W.name_publish_keeps_key there (lifetime_of ttl) name name id s.node r.key;
        bytes = W.name_publish_keeps_content there (lifetime_of ttl) name cid _ s.node r.bytes;
      })

  send_name-IsStored :
      (k : Arid) (e : Envelope) (id cid : Bytes) (ttl : Option ℕ) (s : Session G K D)
      → IsReady G K D W k e id cid s
      → (send_name G K D (derive_ipfs_key_name G K k) cid ttl s).0 ≡ ok tt
      → IsStored G K D W k e (send_name G K D (derive_ipfs_key_name G K k) cid ttl s).1
  send_name-IsStored k e id cid ttl s r h =
      let (accepted, state) = send_name-sent (derive_ipfs_key_name G K k) cid ttl s h in
      rw state (name_publish-IsStored G K D W k e id cid ttl s r accepted)

  -- Two threads have uploaded an envelope each for one ARID, and both find its name free before either
  -- publishes. If the daemon takes both publications and answers afterwards, then the first thread's
  -- `publish_once` succeeds and `get` returns the second envelope: the first is lost.
  pub ipfs_publish_race :
      (fuel : ℕ) (kv : IpfsKv) (k : Arid) (e e' : Envelope) (id cid cid' : Bytes)
      (ttl ttl' timeout : Option ℕ) (s : Session G K D)
      → IsReady G K D W k e id cid s
      → IsReady G K D W k e' id cid' s
      → is_published G K D id s ≡ (ok false, s)
      → let name = derive_ipfs_key_name G K k in
        let first = (send_name G K D name cid ttl s).1 in
        let second = (send_name G K D name cid' ttl' first).1 in
        (send_name G K D name cid ttl s).0 ≡ ok tt
        → (send_name G K D name cid' ttl' first).0 ≡ ok tt
        → IsAnswering G K D L W second.node
        → (publish_once G K D name id cid ttl k s ≡ (ok tt, first))
          × (get_impl G K D (suc fuel) kv k timeout second ≡ some (ok (some e'), second))
  ipfs_publish_race fuel kv k e e' id cid cid' ttl ttl' timeout s ready ready' free sent sent' up =
      let name = derive_ipfs_key_name G K k in
      let first = (send_name G K D name cid ttl s).1 in
      let second = (send_name G K D name cid' ttl' first).1 in
      let later = send_name-IsReady k e' id cid' cid ttl s ready' sent in
      let stored = send_name-IsStored k e' id cid' ttl' first later sent' in
      (
        publish_once-free name id cid ttl k s free ∙ rw sent refl,
        (get_stored G K D L W fuel kv k e' timeout second stored up).0,
      )
